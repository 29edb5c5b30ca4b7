-- ===== src/Pinmux/Mux/Find.antt =====
-- Which register `gpio_mux_by` finds.
use mathlib.Core.Path.{subst}
use ipctool.Base.{
  ℕ, zero, suc, Bool, true, false, ◌||◌, none, some, List, [], ◌∷◌, ◌++◌, String, ◌≡◌, refl, sym,
  arith, Bool-cases, ◌∙◌, inl, inr, if◌then◌else◌,
}
use ipctool.Base.Bytes.{Bytes, codes, equal, equal_iff, starts_with}
use ipctool.Pinmux.Register.{
  Register, muxctrl, funcs, is_gpio, gpio_names, all_gpio_names, member, distinct, proper,
}
use ipctool.Pinmux.Select.{regs_by_chip}
use ipctool.Pinmux.Select.Checked.{regs_by_chip-proper}
use ipctool.Pinmux.Mux.{index_of, is_pin, find_pin}

-- The name of the pin's own function.
pub full : Bytes → Bytes
full pin = codes "GPIO" ++ pin

is_pin-full : (pin b : Bytes) → is_pin pin b ≡ true → b ≡ full pin
unfolding is_pin starts_with equal codes full
is_pin-full pin [] h = ground (arith, h)
is_pin-full pin (a ∷ []) h = ground (arith, h)
is_pin-full pin (a ∷ b ∷ []) h = ground (arith, h)
is_pin-full pin (a ∷ b ∷ c ∷ []) h = ground (arith, h)
is_pin-full pin (a ∷ b ∷ c ∷ d ∷ rest) h = ground (arith, h, equal_iff rest pin)

is_pin-is_gpio : (pin b : Bytes) → is_pin pin b ≡ true → is_gpio b ≡ true
unfolding is_pin is_gpio
is_pin-is_gpio pin b h = ground (arith, h)

member-append :
    (x : Bytes) (xs ys : List Bytes) → member x (xs ++ ys) ≡ (member x xs || member x ys)
unfolding member
member-append x [] ys = refl
member-append x (z ∷ xs) ys = ground (arith, member-append x xs ys)

member-here : (x : Bytes) (xs : List Bytes) → member x (x ∷ xs) ≡ true
unfolding member
member-here x xs = ground (arith, equal_iff x x)

-- A place of the table where the register stands.
pub data RowOf (r : Register) : List Register → Type 0 where
  first : (rs : List Register) → RowOf r (r ∷ rs)
  later : (q : Register) (rs : List Register) → RowOf r rs → RowOf r (q ∷ rs)

-- The function with the index is the pin's own.
abbrev pub Selects : Bytes → List String → ℕ → Type 0
Selects pin [] i = ⊥
Selects pin (f ∷ fs) zero = is_pin pin (codes f) ≡ true
Selects pin (f ∷ fs) (suc i) = Selects pin fs i

module _ (pin : Bytes) where
  member-later :
      (f : String) (fs : List String)
      → member (full pin) (gpio_names fs) ≡ true
      → member (full pin) (gpio_names (f ∷ fs)) ≡ true
  unfolding gpio_names member
  member-later f fs h = elim (Bool-cases (is_gpio (codes f))) [
    | inl y ↦ rw y (ground (arith, h))
    | inr n ↦ rw n h
  ]

  gpio_names-member :
      (fs : List String) (i : ℕ) → Selects pin fs i → member (full pin) (gpio_names fs) ≡ true
  unfolding gpio_names
  gpio_names-member [] i h = absurd h
  gpio_names-member (f ∷ fs) zero h =
      rw (is_pin-is_gpio pin (codes f) h, is_pin-full pin (codes f) h)
        (member-here (full pin) (gpio_names fs))
  gpio_names-member (f ∷ fs) (suc i) h = member-later f fs (gpio_names-member fs i h)

  all_gpio_names-member :
      (r : Register) (rs : List Register) (i : ℕ)
      → RowOf r rs
      → Selects pin (funcs r) i
      → member (full pin) (all_gpio_names rs) ≡ true
  unfolding all_gpio_names
  all_gpio_names-member r [] i m h = elim m [ ]
  all_gpio_names-member (muxctrl a fs) (_ ∷ rs) i (first _) h =
      member-append (full pin) (gpio_names fs) (all_gpio_names rs)
      ∙ ground (arith, gpio_names-member fs i h)
  all_gpio_names-member r (muxctrl b gs ∷ rs) i (later _ _ m) h =
      member-append (full pin) (gpio_names gs) (all_gpio_names rs)
      ∙ ground (arith, all_gpio_names-member r rs i m h)

  distinct-later :
      (b : Bool) (x : Bytes) (xs rest : List Bytes)
      → distinct ((if b then x ∷ xs else xs) ++ rest) ≡ true
      → distinct (xs ++ rest) ≡ true
  unfolding distinct
  distinct-later true x xs rest h = ground (arith, h)
  distinct-later false x xs rest h = h

  distinct-tail :
      (f : String) (fs : List String) (rest : List Bytes)
      → distinct (gpio_names (f ∷ fs) ++ rest) ≡ true
      → distinct (gpio_names fs ++ rest) ≡ true
  unfolding gpio_names
  distinct-tail f fs rest h = distinct-later (is_gpio (codes f)) (codes f) (gpio_names fs) rest h

  distinct-fresh :
      (b : Bool) (x : Bytes) (xs rest : List Bytes)
      → distinct ((if b then x ∷ xs else xs) ++ rest) ≡ true
      → b ≡ true
      → (member x xs || member x rest) ≡ false
  unfolding distinct
  distinct-fresh true x xs rest h y = sym (member-append x xs rest) ∙ ground (arith, h)
  distinct-fresh false x xs rest h y = absurd (ground (arith, y))

  -- After the pin's own function the pin is not named again.
  own-last :
      (f : String) (fs : List String) (rest : List Bytes)
      → distinct (gpio_names (f ∷ fs) ++ rest) ≡ true
      → is_pin pin (codes f) ≡ true
      → (member (full pin) (gpio_names fs) || member (full pin) rest) ≡ false
  unfolding gpio_names
  own-last f fs rest h own =
      subst (λ n. (member n (gpio_names fs) || member n rest) ≡ false)
        (is_pin-full pin (codes f) own)
        (distinct-fresh (is_gpio (codes f)) (codes f) (gpio_names fs) rest h
          (is_pin-is_gpio pin (codes f) own))

  index_of-none :
      (fs : List String) (rest : List Bytes)
      → distinct (gpio_names fs ++ rest) ≡ true
      → member (full pin) rest ≡ true
      → index_of (is_pin pin) fs ≡ none
  unfolding index_of
  index_of-none [] rest d h = refl
  index_of-none (f ∷ fs) rest d h = elim (Bool-cases (is_pin pin (codes f))) [
    | inl own ↦ absurd (ground (arith, own-last f fs rest d own, h))
    | inr other ↦ rw (other, index_of-none fs rest (distinct-tail f fs rest d) h) refl
  ]

  index_of-some :
      (fs : List String) (rest : List Bytes) (i : ℕ)
      → distinct (gpio_names fs ++ rest) ≡ true
      → Selects pin fs i
      → index_of (is_pin pin) fs ≡ some i
  unfolding index_of
  index_of-some [] rest i d h = absurd h
  index_of-some (f ∷ fs) rest zero d h = rw h refl
  index_of-some (f ∷ fs) rest (suc i) d h = elim (Bool-cases (is_pin pin (codes f))) [
    | inl own ↦ absurd (ground (arith, own-last f fs rest d own, gpio_names-member fs i h))
    | inr other ↦ rw (other, index_of-some fs rest i (distinct-tail f fs rest d) h) refl
  ]

  distinct-right : (xs ys : List Bytes) → distinct (xs ++ ys) ≡ true → distinct ys ≡ true
  unfolding distinct
  distinct-right [] ys h = h
  distinct-right (x ∷ xs) ys h = distinct-right xs ys (ground (arith, h))

  find_pin-row :
      (r : Register) (rs : List Register) (i : ℕ)
      → distinct (all_gpio_names rs) ≡ true
      → RowOf r rs
      → Selects pin (funcs r) i
      → find_pin pin rs ≡ some (r, i)
  unfolding find_pin all_gpio_names
  find_pin-row r [] i d m h = elim m [ ]
  find_pin-row (muxctrl a fs) (_ ∷ rs) i d (first _) h =
      rw (index_of-some fs (all_gpio_names rs) i d h, find_pin) refl
  find_pin-row r (muxctrl b gs ∷ rs) i d (later _ _ m) h =
      rw (index_of-none gs (all_gpio_names rs) d (all_gpio_names-member r rs i m h), find_pin)
        (find_pin-row r rs i (distinct-right (gpio_names gs) (all_gpio_names rs) d) m h)

  proper-distinct : (rs : List Register) → proper rs ≡ true → distinct (all_gpio_names rs) ≡ true
  unfolding proper
  proper-distinct rs h = ground (arith, h)

  -- On every chip, for every register of the chip's table and every value of it that selects the
  -- pin's own function: the search of `gpio_mux_by` finds that register and that value.
  pub find_pin_unique :
      (generation : ℕ) (chip_name : Bytes) (rs : List Register) (r : Register) (i : ℕ)
      → regs_by_chip generation chip_name ≡ some rs
      → RowOf r rs
      → Selects pin (funcs r) i
      → find_pin pin rs ≡ some (r, i)
  find_pin_unique generation chip_name rs r i e m h =
      find_pin-row r rs i (proper-distinct rs (regs_by_chip-proper generation chip_name rs e)) m h
