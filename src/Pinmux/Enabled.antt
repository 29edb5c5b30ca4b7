-- ===== src/Pinmux/Enabled.antt =====
-- src/reginfo.c: `fill_enabled_gpios`, the pins that are multiplexed as general purpose pins.
pub mod Fits
use ipctool.Base.{
  ℕ, zero, suc, ◌+◌, ◌^◌, bit_and, bit_or, Bool, true, false, not, ◌&&◌, Option, none, some, List,
  [], ◌∷◌, String, ◌==◌, ltb, if◌then◌else◌, length, get_or, set, drop, replicate,
}
use ipctool.Base.Bytes.{Bytes, codes}
use ipctool.Memory.{DevMem, MemState, RegOp, op_read, Access, done, no_access, fault, mem_reg}
use ipctool.Pinmux.Register.{Register, muxctrl, is_gpio}
use ipctool.Pinmux.Mux.{Scan}

-- The array `enabled`, a failed assertion, or a use of what is outside it or was not read.
pub data Filled : Type 0 where
  filled : List ℕ → Filled
  aborted overrun : Filled

-- enabled[group] |= 1 << num
pub enable : ℕ → List ℕ → Option (ℕ × ℕ) → Filled
enable groups enabled none = overrun
enable groups enabled (some (group, num)) =
    if ltb groups group
    then aborted
    else if ltb group (length enabled) && ltb num 31
    then filled (set enabled group (bit_or (get_or enabled group 0) (2 ^ num)))
    else overrun

-- The function is the one that the value selects.
pub enable_selected : Scan → ℕ → ℕ → String → List ℕ → ℕ → Filled
unfolding enable
enable_selected scan groups i f enabled val =
    if bit_and val 0xf == i
    then enable groups enabled (scan.scan_pair (drop 4 (codes f)))
    else filled enabled

module _ {S : Type 0} (dev : DevMem S) where
  -- A register that cannot be read goes on with its next function; one that was read is done.
  pub after_value :
      (ℕ → Filled) → (MemState S → Filled × MemState S) → Access × MemState S → Filled × MemState S
  after_value use_value rest (done (some val), m) = (use_value val, m)
  after_value use_value rest (done none, m) = (overrun, m)
  after_value use_value rest (no_access, m) = rest m
  after_value use_value rest (fault, m) = (overrun, m)

  pub fill_funcs : Scan → ℕ → ℕ → ℕ → List String → List ℕ → MemState S → Filled × MemState S
  unfolding after_value enable_selected
  fill_funcs scan groups a i [] enabled m = (filled enabled, m)
  fill_funcs scan groups a i (f ∷ fs) enabled m = elim (is_gpio (codes f)) [
    | false ↦ fill_funcs scan groups a (i + 1) fs enabled m
    | true ↦
        after_value (enable_selected scan groups i f enabled)
          (fill_funcs scan groups a (i + 1) fs enabled) (mem_reg dev op_read a m)
  ]

  -- The loop goes on only with an array.
  pub and_then :
      Filled × MemState S → (List ℕ → MemState S → Filled × MemState S) → Filled × MemState S
  and_then (filled enabled, m) rest = rest enabled m
  and_then (aborted, m) rest = (aborted, m)
  and_then (overrun, m) rest = (overrun, m)

  pub fill_regs : Scan → ℕ → List Register → List ℕ → MemState S → Filled × MemState S
  unfolding and_then fill_funcs
  fill_regs scan groups [] enabled m = (filled enabled, m)
  fill_regs scan groups (muxctrl a fs ∷ rs) enabled m =
      and_then (fill_funcs scan groups a 0 fs enabled m) (fill_regs scan groups rs)

  -- On the table of the chip.
  pub fill_enabled_gpios : Scan → ℕ → List Register → MemState S → Filled × MemState S
  unfolding fill_regs
  fill_enabled_gpios scan groups rs m = fill_regs scan groups rs (replicate groups 0) m
