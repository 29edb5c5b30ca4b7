-- ===== src/Pinmux/Mux.antt =====
-- src/reginfo.c: `num2gpio_groupnum`, `find_pinfunc` and `gpio_mux_by`, over `mem_reg`.
pub mod Safe
pub mod Bits
pub mod Find
use ipctool.Base.{
  ℕ, zero, suc, ◌+◌, ◌-◌, ◌/◌, ◌%◌, bit_and, bit_or, Bool, true, false, Option, none, some, List,
  [], ◌∷◌, ◌++◌, String, ◌==◌, ltb, u32, ◌&&◌, if◌then◌else◌, minus_one, drop,
}
use ipctool.Base.Bytes.{Bytes, codes, equal, contains, starts_with}
use ipctool.Base.Format.{decimal}
use ipctool.Memory.{
  DevMem, MemState, RegOp, op_read, op_write, Access, done, no_access, fault, mem_reg,
}
use ipctool.Pinmux.Register.{Register, muxctrl}
use ipctool.Pinmux.Select.{regs_by_chip}

-- How a command ends: `exited` is the end of the process in `regs_by_chip`, and `crash` an access
-- outside the mapping or to a value that was never read.
pub data Exit : Type 0 where
  success failure exited crash : Exit

-- The functions of the C library that the commands use on their arguments.
pub record Scan : Type 0 where
  pub strtoul_10 : Bytes → ℕ
  -- sscanf(s, "%d_%d", ..): two numbers, or fewer
  pub scan_pair : Bytes → Option (ℕ × ℕ)

-- %d
pub int_text : ℕ → Bytes
int_text n = if ltb 0x7fff_ffff n then b'-' ∷ decimal (0x1_0000_0000 - n) else decimal n

pub num2gpio_groupnum : Scan → Bytes → Bytes
unfolding int_text
num2gpio_groupnum scan name =
    let plain = scan.strtoul_10 name in
    if contains (b'_' ∷ []) name
    then name
    else int_text (u32 (plain / 8)) ++ (b'_' ∷ int_text (plain % 8))

-- The index of the first function that the test takes.
pub index_of : (Bytes → Bool) → List String → Option ℕ
index_of test [] = none
index_of test (f ∷ fs) =
    let rest : Option ℕ = elim (index_of test fs) [ none ↦ none | some i ↦ some (suc i) ] in
    if test (codes f) then some 0 else rest

-- `none` is -1.
pub find_pinfunc : List String → Bytes → Option ℕ
unfolding index_of
find_pinfunc fs name = index_of (λ f. equal f name) fs

-- !strncmp("GPIO", func, 4) && !strcmp(func + 4, pin)
unfoldable pub is_pin : Bytes → Bytes → Bool
unfolding starts_with codes equal
is_pin pin f = starts_with (codes "GPIO") f && equal (drop 4 f) pin

-- The first register with a function that is the pin, and that function's index.
pub find_pin : Bytes → List Register → Option (Register × ℕ)
unfolding index_of is_pin
find_pin pin [] = none
find_pin pin (muxctrl a fs ∷ rs) =
    let rest = find_pin pin rs in
    elim (index_of (is_pin pin) fs) [ none ↦ rest | some i ↦ some (muxctrl a fs, i) ]

-- The function to select: the number, else the one with the name, else the pin's own.
pub new_func : ℕ → Option Bytes → List String → ℕ → ℕ
unfolding find_pinfunc
new_func func_num set_func fs i =
    if func_num == minus_one
    then elim set_func [
      | none ↦ i
      | some name ↦ elim (find_pinfunc fs name) [ none ↦ i | some j ↦ j ]
    ]
    else func_num

-- val & 0xfff0 | new_func
pub mux_value : ℕ → ℕ → ℕ
mux_value val func = bit_or (bit_and val 0xfff0) func

module _ {S : Type 0} (dev : DevMem S) where
  unfoldable pub write_exit : Access × MemState S → Exit × MemState S
  write_exit (done v, m) = (success, m)
  write_exit (no_access, m) = (failure, m)
  write_exit (fault, m) = (crash, m)

  -- What follows the read of the pin's register.
  pub set_mux : ℕ → ℕ → Access × MemState S → Exit × MemState S
  unfolding write_exit mux_value
  set_mux addr func (done (some val), m) =
      write_exit (mem_reg dev (op_write (mux_value val func)) addr m)
  set_mux addr func (done none, m) = (crash, m)
  set_mux addr func (no_access, m) = (failure, m)
  set_mux addr func (fault, m) = (crash, m)

  pub mux_register : ℕ → Option Bytes → Option (Register × ℕ) → MemState S → Exit × MemState S
  unfolding set_mux new_func
  mux_register func_num set_func none m = (failure, m)
  mux_register func_num set_func (some (muxctrl a fs, i)) m =
      set_mux a (new_func func_num set_func fs i) (mem_reg dev op_read a m)

  pub mux_in : Bytes → ℕ → Option Bytes → Option (List Register) → MemState S → Exit × MemState S
  unfolding mux_register find_pin
  mux_in pin func_num set_func none m = (exited, m)
  mux_in pin func_num set_func (some rs) m = mux_register func_num set_func (find_pin pin rs) m

  -- By the generation and the name of the detected chip.
  pub gpio_mux_by : Scan → ℕ → Bytes → Bytes → ℕ → Option Bytes → MemState S → Exit × MemState S
  unfolding mux_in num2gpio_groupnum
  gpio_mux_by scan generation chip_name gpio_number func_num set_func m =
      mux_in (num2gpio_groupnum scan gpio_number) func_num set_func
        (regs_by_chip generation chip_name) m
