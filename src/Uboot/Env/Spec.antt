-- ===== src/Uboot/Env/Spec.antt =====
-- The specification of `setenv` on the list of entries.
use ipctool.Base.{Bool, true, List, [], ◌∷◌, ◌++◌, none, some, ◌==◌, if◌then◌else◌, length}
use ipctool.Base.Bytes.{Bytes, equal, starts_with}
use ipctool.Uboot.Env.{split_eq, assign, FlashOp, fop_rom}

-- `edited` overwrites a value where it stands; `rebuilt` writes the environment anew.
pub data Update : Type 0 where
  unchanged : Update
  edited rebuilt : List Bytes → Update

-- What becomes of one entry: the walk ends, or goes on with the entries that take its place.
pub data Change : Type 0 where
  ends : Update → Change
  becomes : Bool → List Bytes → Change

-- A value that does not change is written back to flash only by `fop_rom`.
unfoldable pub same_update : FlashOp → List Bytes → Update
same_update fop_rom es = edited es
same_update _ es = unchanged

-- What follows a change.
unfoldable pub follow : (Bool → List Bytes → Update) → Change → Update
follow later (ends u) = u
follow later (becomes found new) = later found new

module _ (key newvalue : Bytes) (fop : FlashOp) where
  -- The entry `e` between `before` and `es`. Every entry that begins with the key is meant, also that
  -- of a variable with a longer name.
  unfoldable pub change : List Bytes → Bytes → List Bytes → Bool → Change
  unfolding same_update
  change before e es found =
      if starts_with key e
      then elim (split_eq e) [
        | none ↦ ends unchanged
        | some (name, oldvalue) ↦
            if length newvalue == length oldvalue
            then if equal newvalue oldvalue
              then ends (same_update fop (before ++ e ∷ es))
              else ends (edited (before ++ assign name newvalue ∷ es))
            else if length newvalue == 0
            then becomes true []
            else becomes true (assign key newvalue ∷ [])
      ]
      else becomes found (e ∷ [])

  unfoldable pub update : List Bytes → List Bytes → Bool → List Bytes → Update
  unfolding follow
  update before [] found out =
      if found then rebuilt out else rebuilt (out ++ assign key newvalue ∷ [])
  update before (e ∷ es) found out =
      follow (λ found' new. update (before ++ e ∷ []) es found' (out ++ new))
        (change before e es found)
