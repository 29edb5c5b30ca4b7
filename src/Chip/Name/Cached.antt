-- ===== src/Chip/Name/Cached.antt =====
-- The name that detection keeps, and the family that it gives.
use ipctool.Base.{
  ℕ, Option, none, some, List, [], ◌∷◌, ◌≡◌, ◌≢◌, ◌⊎◌, ◌↔◌, inl, inr, refl, ap, ◌∙◌, arith,
}
use ipctool.Base.Bytes.{Bytes}
use ipctool.Chip.Detect.{CpuLayer, Ident, Arch}
use ipctool.Chip.Name.{
  getchipname, getchipfamily, detect_name, known_or_detect, find_family, families, Family,
  family_name, by_name, fixed, unknown, crash,
}

List-cases : {A : Type 0} (xs : List A) → (xs ≡ []) ⊎ ((x : A) × (ys : List A) × (xs ≡ x ∷ ys))
List-cases [] = inl refl
List-cases (x ∷ ys) = inr (x, ys, refl)

-- Only HISI_V4's family is told by the chip's name.
find_family-by_name : (g : ℕ) → (find_family g families ≡ by_name) ↔ (g ≡ 0x3516E300)
unfolding find_family families
find_family-by_name g = ground arith

family_name-crash :
    (f : Family) (name : Option Bytes)
    → (family_name f name ≡ crash) ↔ (f ≡ by_name) × (name ≡ none)
unfolding family_name
family_name-crash (fixed t) name = ground arith
family_name-crash by_name none = ground arith
family_name-crash by_name (some t) = ground arith
family_name-crash unknown none = ground arith
family_name-crash unknown (some t) = ground arith

module _ {S : Type 0} (layer : CpuLayer S) (arch : Arch) where
  -- A name that is not empty, with the state that it is given in: detection has stored it.
  detect_name-stored :
      (c : Ident S) (name : Bytes)
      → (detect_name layer arch c).0 ≡ some name
      → (detect_name layer arch c).1.sysid ≡ name
  unfolding detect_name
  detect_name-stored c name h = ground arith

  known-kept :
      (c : Ident S) (name : Bytes) → name ≢ [] → known_or_detect layer arch name c ≡ (some name, c)
  unfolding known_or_detect
  known-kept c [] some_name = absurd (some_name refl)
  known-kept c (b ∷ bs) some_name = refl

  known-stored :
      (s : Bytes) (c : Ident S) (name : Bytes)
      → c.sysid ≡ s
      → (known_or_detect layer arch s c).0 ≡ some name
      → (known_or_detect layer arch s c).1.sysid ≡ name
  unfolding known_or_detect
  known-stored [] c name e h = detect_name-stored c name h
  known-stored (b ∷ bs) c name e h = e ∙ cc

  -- Once `getchipname` has returned a name that is not empty, a further call returns the same name and
  -- leaves the state alone: nothing is detected twice.
  pub getchipname-cached :
      (c : Ident S) (name : Bytes)
      → (getchipname layer arch c).0 ≡ some name
      → name ≢ []
      → getchipname layer arch (getchipname layer arch c).1
        ≡ (some name, (getchipname layer arch c).1)
  unfolding getchipname
  getchipname-cached c name h some_name =
      let after = (getchipname layer arch c).1 in
      ap (λ s. known_or_detect layer arch s after) (known-stored c.sysid c name refl h)
      ∙ known-kept after name some_name

  -- `getchipfamily` reads through NULL exactly where the generation is HISI_V4 and no chip has been
  -- detected.
  getchipfamily-crash :
      (c : Ident S)
      → ((getchipfamily layer arch c).0 ≡ crash)
        ↔ ((getchipname layer arch c).1.chip_generation ≡ 0x3516E300)
          × ((getchipname layer arch c).0 ≡ none)
  unfolding getchipfamily
  getchipfamily-crash c =
      let g = (getchipname layer arch c).1.chip_generation in
      let f = family_name-crash (find_family g families) (getchipname layer arch c).0 in
      let k = find_family-by_name g in (λ h. (k.0 (f.0 h).0, (f.0 h).1), λ h. f.1 (k.1 h.0, h.1))
