-- ===== src/Pinmux/Enabled/Fits.antt =====
-- The groups in the register tables, against the number of groups of the chip.
use mathlib.Core.Path.{subst}
use ipctool.Base.{
  ℕ, ◌+◌, ◌≡◌, sym, Bool, true, false, not, ◌&&◌, ◌||◌, Option, none, some, List, [], ◌∷◌, String,
  ◌==◌, ltb, length, length-set, length-replicate, replicate, drop, Bool-cases, inl, inr, arith,
  bit_and, bit_or, ◌^◌, get_or,
}
use ipctool.Base.Bytes.{Bytes, codes}
use ipctool.Memory.{DevMem, MemState, op_read, Access, mem_reg}
use ipctool.Memory.Cache.{IsPageSize, Held}
use ipctool.Memory.Outcome.{Outcome, was_read, refused, Usable, mem_reg-Served}
use ipctool.Pinmux.Register.{Register, muxctrl, is_gpio, each_proper, proper}
use ipctool.Pinmux.Select.{regs_by_chip}
use ipctool.Pinmux.Select.Checked.{regs_by_chip-proper}
use ipctool.Pinmux.Mux.{Scan}
use ipctool.Pinmux.Mux.Safe.{addressable-Usable}
use ipctool.Pinmux.Enabled.{
  Filled, filled, aborted, overrun, enable, enable_selected, after_value, fill_funcs, and_then,
  fill_regs, fill_enabled_gpios,
}

-- The scanned pair is a group of the chip and a number that is not negative.
unfoldable pub pair_fits : ℕ → Option (ℕ × ℕ) → Bool
pair_fits groups none = false
pair_fits groups (some (group, num)) = ltb group groups && ltb num 31

unfoldable pub funcs_fit : Scan → ℕ → List String → Bool
unfolding pair_fits
funcs_fit scan groups [] = true
funcs_fit scan groups (f ∷ fs) =
    (not (is_gpio (codes f)) || pair_fits groups (scan.scan_pair (drop 4 (codes f))))
    && funcs_fit scan groups fs

unfoldable pub table_fits : Scan → ℕ → List Register → Bool
unfolding funcs_fit
table_fits scan groups [] = true
table_fits scan groups (muxctrl a fs ∷ rs) = funcs_fit scan groups fs && table_fits scan groups rs

-- An array of the chip's groups.
abbrev pub IsArray : ℕ → Filled → Type 0
IsArray groups (filled enabled) = length enabled ≡ groups
IsArray groups aborted = ⊥
IsArray groups overrun = ⊥

enable-IsArray :
    (groups : ℕ) (enabled : List ℕ) (pair : Option (ℕ × ℕ))
    → length enabled ≡ groups
    → pair_fits groups pair ≡ true
    → IsArray groups (enable groups enabled pair)
unfolding enable pair_fits
enable-IsArray groups enabled none e h = absurd (ground (arith, h))
enable-IsArray groups enabled (some (group, num)) e h =
    let low : ltb groups group ≡ false = ground (arith, h) in
    let inside : (ltb group (length enabled) && ltb num 31) ≡ true =
      subst (λ n. (ltb group n && ltb num 31) ≡ true) (sym e) h in
    rw (low, inside)
      (omega (arith, e, length-set enabled group (bit_or (get_or enabled group 0) (2 ^ num))))

enable_selected-IsArray :
    (scan : Scan) (groups i : ℕ) (f : String) (enabled : List ℕ) (val : ℕ)
    → length enabled ≡ groups
    → pair_fits groups (scan.scan_pair (drop 4 (codes f))) ≡ true
    → IsArray groups (enable_selected scan groups i f enabled val)
unfolding enable_selected
enable_selected-IsArray scan groups i f enabled val e h = elim (Bool-cases (bit_and val 0xf == i)) [
  | inl y ↦ rw y (enable-IsArray groups enabled (scan.scan_pair (drop 4 (codes f))) e h)
  | inr n ↦ rw n e
]

module _ {S : Type 0} (dev : DevMem S) (paged : IsPageSize dev.page_size) (scan : Scan)
    (groups : ℕ) where
  abbrev pub Good : Filled × MemState S → Type 0
  Good r = IsArray groups r.0 × Held dev.page_size r.1.loaded_area

  after_value-Good :
      (use_value : ℕ → Filled) (rest : MemState S → Filled × MemState S) (a : Access)
      (m : MemState S)
      → ((v : ℕ) → IsArray groups (use_value v))
      → ((n : MemState S) → Held dev.page_size n.loaded_area → Good (rest n))
      → Held dev.page_size m.loaded_area
      → Outcome op_read a
      → Good (after_value dev use_value rest (a, m))
  unfolding after_value
  after_value-Good use_value rest _ m h k held (was_read v) = (h v, held)
  after_value-Good use_value rest _ m h k held (refused _) = k m held

  fill_funcs-Good :
      (a i : ℕ) (fs : List String) (enabled : List ℕ) (m : MemState S)
      → Usable a
      → length enabled ≡ groups
      → funcs_fit scan groups fs ≡ true
      → Held dev.page_size m.loaded_area
      → Good (fill_funcs dev scan groups a i fs enabled m)
  unfolding fill_funcs funcs_fit
  fill_funcs-Good a i [] enabled m usable e fit held = (e, held)
  fill_funcs-Good a i (f ∷ fs) enabled m usable e fit held = elim (Bool-cases (is_gpio (codes f))) [
    | inl y ↦
        let r = mem_reg-Served dev paged op_read a m usable held in
        let n = mem_reg dev op_read a m in
        rw (y, fill_funcs)
          (after_value-Good (enable_selected scan groups i f enabled)
            (fill_funcs dev scan groups a (i + 1) fs enabled) n.0 n.1
            (λ v. enable_selected-IsArray scan groups i f enabled v e (ground (arith, fit, y)))
            (λ s h. fill_funcs-Good a (i + 1) fs enabled s usable e (ground (arith, fit)) h) r.0
            r.1)
    | inr no_gpio ↦
        rw (no_gpio, fill_funcs)
          (fill_funcs-Good a (i + 1) fs enabled m usable e (ground (arith, fit)) held)
  ]

  and_then-Good :
      (r : Filled × MemState S) (rest : List ℕ → MemState S → Filled × MemState S)
      → Good r
      → ((enabled : List ℕ) (m : MemState S)
          → length enabled ≡ groups
          → Held dev.page_size m.loaded_area
          → Good (rest enabled m))
      → Good (and_then dev r rest)
  unfolding and_then
  and_then-Good (filled enabled, m) rest g k = k enabled m g.0 g.1
  and_then-Good (aborted, m) rest g k = absurd g.0
  and_then-Good (overrun, m) rest g k = absurd g.0

  fill_regs-Good :
      (rs : List Register) (enabled : List ℕ) (m : MemState S)
      → each_proper rs ≡ true
      → length enabled ≡ groups
      → table_fits scan groups rs ≡ true
      → Held dev.page_size m.loaded_area
      → Good (fill_regs dev scan groups rs enabled m)
  unfolding fill_regs table_fits each_proper
  fill_regs-Good [] enabled m p e fit held = (e, held)
  fill_regs-Good (muxctrl a fs ∷ rs) enabled m p e fit held =
      and_then-Good (fill_funcs dev scan groups a 0 fs enabled m) (fill_regs dev scan groups rs)
        (fill_funcs-Good a 0 fs enabled m (addressable-Usable a (ground (arith, p))) e
          (ground (arith, fit)) held)
        (λ enabled' n e' held'.
          fill_regs-Good rs enabled' n (ground (arith, p)) e' (ground (arith, fit)) held')

  -- On a machine with pages of 4, 16 or 64 KiB, with a proper window or none in the cache, on every
  -- chip in whose register table each general purpose pin is of one of the chip's groups:
  -- `fill_enabled_gpios` fails no assertion, writes nothing outside its array and uses no value that
  -- was not read, whatever the registers hold; it fills one word for each group.
  pub fill_enabled_gpios-Good :
      (generation : ℕ) (chip_name : Bytes) (rs : List Register) (m : MemState S)
      → regs_by_chip generation chip_name ≡ some rs
      → table_fits scan groups rs ≡ true
      → Held dev.page_size m.loaded_area
      → Good (fill_enabled_gpios dev scan groups rs m)
  unfolding fill_enabled_gpios proper
  fill_enabled_gpios-Good generation chip_name rs m e fit held =
      let p = regs_by_chip-proper generation chip_name rs e in
      fill_regs-Good rs (replicate groups 0) m (ground (arith, p)) (length-replicate groups 0) fit
        held
