-- ===== src/Uboot/Env/Get.antt =====
-- `uboot_env_get_param` finds the first entry that begins with `name=`.
use ipctool.Base.{
  ℕ, zero, suc, ◌<◌, List, [], ◌∷◌, ◌++◌, ◌≡◌, ◌≢◌, refl, arith, length, drop, if◌then◌else◌,
  Bool-cases, inl, inr,
}
use ipctool.Base.Bytes.{Bytes, starts_with}
use ipctool.Uboot.Env.{Lookup, value, missing, get_walk}
use ipctool.Uboot.Env.Text.{IsText, AreEntries, encode, cut-text, starts_with-entry, cut-drop}

-- The specification: the first entry with the prefix, without it.
abbrev pub lookup : Bytes → List Bytes → Lookup
lookup param [] = missing
lookup param (e ∷ es) =
    if starts_with param e then value (drop (length param) e) else lookup param es

get_walk-suc :
    (fuel : ℕ) (param e rest : Bytes)
    → IsText param
    → IsText e
    → e ≢ []
    → get_walk (suc fuel) param (e ++ 0 ∷ rest)
      ≡ (if starts_with param e then value (drop (length param) e) else get_walk fuel param rest)
unfolding get_walk
get_walk-suc fuel param [] rest t h ne = absurd (ne refl)
get_walk-suc fuel param (zero ∷ e) rest t h ne = absurd h
get_walk-suc fuel param (suc c ∷ e) rest t h ne =
    elim (Bool-cases (starts_with param (suc c ∷ e))) [
      | inl y ↦
          rw (starts_with-entry param (suc c ∷ e) rest t, y, cut-drop param (suc c ∷ e) rest h y)
      | inr n ↦ rw (starts_with-entry param (suc c ∷ e) rest t, n, cut-text (suc c ∷ e) rest h)
    ]

-- On the text of entries, with more rounds than entries, the loop of `uboot_env_get_param` returns
-- what stands behind `name=` in the first entry that begins with it, and finds nothing if none does.
pub get_walk-encode :
    (fuel : ℕ) (param : Bytes) (es : List Bytes) (pad : Bytes)
    → IsText param
    → AreEntries es
    → length es < fuel
    → get_walk fuel param (encode es pad) ≡ lookup param es
get_walk-encode zero param es pad t h enough = absurd (omega arith)
get_walk-encode (suc fuel) param [] pad t h enough = unfold get_walk in refl
get_walk-encode (suc fuel) param (e ∷ es) pad t h enough = rw (
  get_walk-suc fuel param e (encode es pad) t h.0.0 h.0.1,
  get_walk-encode fuel param es pad t h.1 (omega arith),
)
