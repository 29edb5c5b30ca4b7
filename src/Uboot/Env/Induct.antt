-- ===== src/Uboot/Env/Induct.antt =====
-- Induction over the walk of the specification, for what it writes anew.
use mathlib.Core.Path.{subst}
use ipctool.Base.{
  Bool, true, false, List, [], ◌∷◌, ◌++◌, ◌≡◌, ◌≢◌, ◌∙◌, refl, ap, arith, ◌⊎◌, inl, inr,
}
use ipctool.Base.Bytes.{Bytes}
use ipctool.Uboot.Env.{assign, FlashOp}
use ipctool.Uboot.Env.Spec.{rebuilt, Change, ends, becomes, change, update, follow}

module _ (key newvalue : Bytes) (fop : FlashOp) where
  -- The walk never ends early with a new environment.
  change-ends :
      (before es : List Bytes) (e : Bytes) (found : Bool) (es' : List Bytes)
      → change key newvalue fop before e es found ≢ ends (rebuilt es')
  unfolding change
  change-ends before es e found es' h = ground arith

  -- An invariant of the entries left and those written holds at the end.
  module _ (Inv : List Bytes → Bool → List Bytes → Type 0)
      (keep : (before es out : List Bytes) (e : Bytes) (found found' : Bool) (new : List Bytes)
        → Inv (e ∷ es) found out
        → change key newvalue fop before e es found ≡ becomes found' new
        → Inv es found' (out ++ new)) where
    pub update-induct :
        (before es out : List Bytes) (found : Bool) (es' : List Bytes)
        → Inv es found out
        → update key newvalue fop before es found out ≡ rebuilt es'
        → Inv [] true es'
          ⊎ ((out' : List Bytes) × Inv [] false out' × (es' ≡ out' ++ assign key newvalue ∷ []))
    unfolding update
    update-induct before [] out true es' h u =
        let e : out ≡ es' = cc in inl (subst (Inv [] true) e h)
    update-induct before [] out false es' h u = inr (out, h, cc)
    update-induct before (e ∷ es) out found es' h u =
        later
          (λ found' new k.
            update-induct (before ++ e ∷ []) es (out ++ new) found' es'
              (keep before es out e found found' new h k))
          (change key newvalue fop before e es found) refl u
      where
        later :
            ((found' : Bool) (new : List Bytes)
              → change key newvalue fop before e es found ≡ becomes found' new
              → update key newvalue fop (before ++ e ∷ []) es found' (out ++ new) ≡ rebuilt es'
              → Inv [] true es'
                ⊎ ((out' : List Bytes) × Inv [] false out'
                    × (es' ≡ out' ++ assign key newvalue ∷ [])))
            → (c : Change) → change key newvalue fop before e es found ≡ c
            → follow
                (λ found' new. update key newvalue fop (before ++ e ∷ []) es found' (out ++ new))
                c
              ≡ rebuilt es'
            → Inv [] true es'
              ⊎ ((out' : List Bytes) × Inv [] false out' × (es' ≡ out' ++ assign key newvalue ∷ []))
        later ih (ends w) k v = absurd (change-ends before es e found es' (k ∙ ap ends v))
        later ih (becomes found' new) k v = ih found' new k v
