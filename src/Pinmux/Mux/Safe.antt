-- ===== src/Pinmux/Mux/Safe.antt =====
-- The accesses of `gpio_mux_by` stay inside the mapping.
use ipctool.Base.{
  ℕ, true, Option, none, some, List, [], ◌∷◌, ◌≡◌, ◌≢◌, inl, inr, arith, ◌==◌, Bool-cases,
  Option-cases,
}
use ipctool.Base.Bytes.{Bytes}
use ipctool.Memory.{DevMem, MemState, op_read, op_write, Access, mem_reg}
use ipctool.Memory.Cache.{IsPageSize, Held}
use ipctool.Memory.Outcome.{
  Outcome, was_read, was_written, refused, Usable, no_pin, word, mem_reg-Served,
}
use ipctool.Pinmux.Register.{Register, muxctrl, address, proper, addressable, each_proper}
use ipctool.Pinmux.Select.{regs_by_chip}
use ipctool.Pinmux.Select.Checked.{Passed, regs_by_chip-Passed}
use ipctool.Pinmux.Mux.{
  Exit, crash, Scan, find_pin, index_of, is_pin, mux_register, mux_in, set_mux, write_exit,
  gpio_mux_by, num2gpio_groupnum, new_func, mux_value,
}

pub addressable-Usable : (a : ℕ) → addressable a ≡ true → Usable a
unfolding addressable
addressable-Usable a h = elim (Bool-cases (a == 0xdeadbeef)) [
  | inl y ↦ no_pin (ground (arith, y))
  | inr n ↦ word (ground (arith, h, n)) (ground (arith, h, n))
]

-- The register that was found can be accessed.
abbrev Found : Option (Register × ℕ) → Type 0
Found none = Unit {0}
Found (some (r, i)) = Usable (address r)

find_pin-Found :
    (pin : Bytes) (rs : List Register) → each_proper rs ≡ true → Found (find_pin pin rs)
unfolding find_pin each_proper
find_pin-Found pin [] h = tt
find_pin-Found pin (muxctrl a fs ∷ rs) h = elim (Option-cases (index_of (is_pin pin) fs)) [
  | inl e ↦ rw (e, Found, find_pin) (find_pin-Found pin rs (ground (arith, h)))
  | inr (i, e) ↦ rw (e, Found, find_pin) (addressable-Usable a (ground (arith, h)))
]

module _ {S : Type 0} (dev : DevMem S) (paged : IsPageSize dev.page_size) where
  -- A proper window or none is held, and the command did not fault.
  abbrev pub Ended : Exit × MemState S → Type 0
  Ended r = Held dev.page_size r.1.loaded_area × (r.0 ≢ crash)

  write_exit-Ended :
      (d : ℕ) (a : Access) (m : MemState S)
      → Held dev.page_size m.loaded_area
      → Outcome (op_write d) a
      → Ended (write_exit dev (a, m))
  unfolding write_exit
  write_exit-Ended _ _ m held (was_written d) = (held, λ e. ground (arith, e))
  write_exit-Ended _ _ m held (refused _) = (held, λ e. ground (arith, e))

  pub write-Ended :
      (d addr : ℕ) (m : MemState S)
      → Usable addr
      → Held dev.page_size m.loaded_area
      → Ended (write_exit dev (mem_reg dev (op_write d) addr m))
  write-Ended d addr m usable held =
      let r = mem_reg-Served dev paged (op_write d) addr m usable held in
      write_exit-Ended d (mem_reg dev (op_write d) addr m).0 (mem_reg dev (op_write d) addr m).1 r.0
        r.1

  set_mux-Ended :
      (addr func : ℕ) (a : Access) (m : MemState S)
      → Usable addr
      → Held dev.page_size m.loaded_area
      → Outcome op_read a
      → Ended (set_mux dev addr func (a, m))
  unfolding set_mux
  set_mux-Ended addr func _ m usable held (was_read v) =
      write-Ended (mux_value v func) addr m usable held
  set_mux-Ended addr func _ m usable held (refused _) = (held, λ e. ground (arith, e))

  mux_register-Ended :
      (func_num : ℕ) (set_func : Option Bytes) (found : Option (Register × ℕ)) (m : MemState S)
      → Found found
      → Held dev.page_size m.loaded_area
      → Ended (mux_register dev func_num set_func found m)
  unfolding mux_register
  mux_register-Ended func_num set_func none m usable held = (held, λ e. ground (arith, e))
  mux_register-Ended func_num set_func (some (muxctrl a fs, i)) m usable held =
      let r = mem_reg-Served dev paged op_read a m usable held in
      let answer = mem_reg dev op_read a m in
      set_mux-Ended a (new_func func_num set_func fs i) answer.0 answer.1 usable r.0 r.1

  mux_in-Ended :
      (pin : Bytes) (func_num : ℕ) (set_func : Option Bytes) (table : Option (List Register))
      (m : MemState S)
      → Passed table
      → Held dev.page_size m.loaded_area
      → Ended (mux_in dev pin func_num set_func table m)
  unfolding mux_in Passed proper
  mux_in-Ended pin func_num set_func none m passed held = (held, λ e. ground (arith, e))
  mux_in-Ended pin func_num set_func (some rs) m passed held =
      mux_register-Ended func_num set_func (find_pin pin rs) m
        (find_pin-Found pin rs (ground (arith, passed))) held

  -- On a machine with pages of 4, 16 or 64 KiB, with a proper window or none in the cache, and
  -- whatever the chip, the arguments and the answers of the system are: `gpio_mux_by` makes no
  -- access outside its mapping and uses no value that was not read, and it leaves a proper
  -- window or none.
  pub gpio_mux_by-Ended :
      (scan : Scan) (generation : ℕ) (chip_name gpio_number : Bytes) (func_num : ℕ)
      (set_func : Option Bytes) (m : MemState S)
      → Held dev.page_size m.loaded_area
      → Ended (gpio_mux_by dev scan generation chip_name gpio_number func_num set_func m)
  unfolding gpio_mux_by
  gpio_mux_by-Ended scan generation chip_name gpio_number func_num set_func m held =
      mux_in-Ended (num2gpio_groupnum scan gpio_number) func_num set_func
        (regs_by_chip generation chip_name) m (regs_by_chip-Passed generation chip_name) held
