-- ===== src/Uboot/Env/RoundTrip.antt =====
-- On the list of entries, a variable that `setenv` has written is found.
use mathlib.Core.List.{append_assoc}
use ipctool.Base.{
  ℕ, Bool, true, false, List, [], ◌∷◌, ◌++◌, ◌≡◌, ◌≢◌, ◌∙◌, refl, ap, arith, length, drop,
  if◌then◌else◌, inl, inr, ◌⊎◌, ◌==◌,
}
use ipctool.Base.Bytes.{Bytes, starts_with}
use ipctool.Uboot.Env.{assign, Lookup, value, missing, FlashOp}
use ipctool.Uboot.Env.Get.{lookup}
use ipctool.Uboot.Env.Spec.{rebuilt, becomes, change, update}
use ipctool.Uboot.Env.Induct.{update-induct}

or_else : Lookup → Lookup → Lookup
or_else missing later = later
or_else found later = found

lookup-append :
    (param : Bytes) (xs ys : List Bytes)
    → lookup param (xs ++ ys) ≡ or_else (lookup param xs) (lookup param ys)
unfolding or_else
lookup-append param [] ys = refl
lookup-append param (e ∷ xs) ys = ground (arith, lookup-append param xs ys)

abbrev pub name_eq : Bytes → Bytes
name_eq key = key ++ b'=' ∷ []

starts_with-name_eq :
    (key e : Bytes) → starts_with key e ≡ false → starts_with (name_eq key) e ≡ false
unfolding starts_with
starts_with-name_eq [] e h = cc
starts_with-name_eq (k ∷ key) [] h = refl
starts_with-name_eq (k ∷ key) (c ∷ e) h = ground (arith, starts_with-name_eq key e)

starts_with-assign : (key v : Bytes) → starts_with (name_eq key) (assign key v) ≡ true
unfolding starts_with assign
starts_with-assign [] v = refl
starts_with-assign (k ∷ key) v = ground (arith, starts_with-assign key v)

drop-assign : (key v : Bytes) → drop (length (name_eq key)) (assign key v) ≡ v
unfolding assign
drop-assign [] v = refl
drop-assign (k ∷ key) v = drop-assign key v

module _ (key newvalue : Bytes) (fop : FlashOp) (some_value : newvalue ≢ []) where
  abbrev expected : Bool → Lookup
  expected found = if found then value newvalue else missing

  lookup-assign : lookup (name_eq key) (assign key newvalue ∷ []) ≡ value newvalue
  lookup-assign = rw (starts_with-assign key newvalue, drop-assign key newvalue)

  -- Writing the assignment behind what is written.
  lookup-written :
      (out : List Bytes) (found : Bool)
      → lookup (name_eq key) out ≡ expected found
      → lookup (name_eq key) (out ++ assign key newvalue ∷ []) ≡ value newvalue
  unfolding or_else
  lookup-written out found h =
      ground (arith, lookup-append (name_eq key) out (assign key newvalue ∷ []), lookup-assign)

  length-some : (length newvalue == 0) ≡ false
  length-some = go newvalue some_value
    where
      go : (v : Bytes) → v ≢ [] → (length v == 0) ≡ false
      go [] ne = absurd (ne refl)
      go (x ∷ v) ne = ground arith

  change-cases :
      (before es : List Bytes) (e : Bytes) (found found' : Bool) (new : List Bytes)
      → change key newvalue fop before e es found ≡ becomes found' new
      → (starts_with key e ≡ false) × (found' ≡ found) × (new ≡ e ∷ [])
        ⊎ (found' ≡ true) × (new ≡ assign key newvalue ∷ [])
  unfolding change
  change-cases before es e found found' new h = ground (arith, length-some)

  lookup-kept :
      (out : List Bytes) (e : Bytes)
      → starts_with key e ≡ false
      → lookup (name_eq key) (out ++ e ∷ []) ≡ lookup (name_eq key) out
  unfolding or_else
  lookup-kept out e h =
      ground (arith, lookup-append (name_eq key) out (e ∷ []), starts_with-name_eq key e)

  change-lookup :
      (before es out : List Bytes) (e : Bytes) (found found' : Bool) (new : List Bytes)
      → lookup (name_eq key) out ≡ expected found
      → change key newvalue fop before e es found ≡ becomes found' new
      → lookup (name_eq key) (out ++ new) ≡ expected found'
  change-lookup before es out e found found' new h c =
      elim (change-cases before es e found found' new c) [
        | inl r ↦ rw (r.1, r.2) (lookup-kept out e r.0 ∙ h)
        | inr r ↦ rw (r.0, r.1) (lookup-written out found h)
      ]

  -- The environment that is written anew holds the new value, whatever the old one held.
  pub update-lookup :
      (before es out : List Bytes) (found : Bool) (es' : List Bytes)
      → lookup (name_eq key) out ≡ expected found
      → update key newvalue fop before es found out ≡ rebuilt es'
      → lookup (name_eq key) es' ≡ value newvalue
  update-lookup before es out found es' h u =
      elim (update-induct key newvalue fop
        (λ es found out. lookup (name_eq key) out ≡ expected found)
        (λ before es out e found found' new h k. change-lookup before es out e found found' new h k)
        before es out found es' h u) [
          | inl written ↦ written
          | inr (out', h', e) ↦ rw e (lookup-written out' false h')
        ]

starts_with-longer :
    (key : Bytes) (c : ℕ) (cs v : Bytes)
    → c ≢ b'='
    → starts_with (name_eq (key ++ c ∷ cs)) (assign key v) ≡ false
unfolding starts_with assign
starts_with-longer [] c cs v h = ground arith
starts_with-longer (k ∷ key) c cs v h = ground (arith, starts_with-longer key c cs v h)

starts_with-shorter :
    (key more e : Bytes) → starts_with key e ≡ false → starts_with (key ++ more) e ≡ false
unfolding starts_with
starts_with-shorter [] more e h = cc
starts_with-shorter (k ∷ key) more [] h = refl
starts_with-shorter (k ∷ key) more (x ∷ e) h = ground (arith, starts_with-shorter key more e)

module _ (key newvalue : Bytes) (fop : FlashOp) (some_value : newvalue ≢ []) (c : ℕ) (cs : Bytes)
    (other : c ≢ b'=') where
  abbrev longer : Bytes
  longer = name_eq (key ++ c ∷ cs)

  lookup-other :
      (out : List Bytes) (e : Bytes)
      → lookup longer out ≡ missing
      → starts_with longer e ≡ false
      → lookup longer (out ++ e ∷ []) ≡ missing
  unfolding or_else
  lookup-other out e h k = ground (arith, lookup-append longer out (e ∷ []))

  longer-kept : (e : Bytes) → starts_with key e ≡ false → starts_with longer e ≡ false
  longer-kept e h =
      ap (λ p. starts_with p e) (append_assoc key (c ∷ cs) (b'=' ∷ []))
      ∙ starts_with-shorter key ((c ∷ cs) ++ b'=' ∷ []) e h

  change-loses :
      (before es out : List Bytes) (e : Bytes) (found found' : Bool) (new : List Bytes)
      → lookup longer out ≡ missing
      → change key newvalue fop before e es found ≡ becomes found' new
      → lookup longer (out ++ new) ≡ missing
  change-loses before es out e found found' new h k =
      elim (change-cases key newvalue fop some_value before es e found found' new k) [
        | inl r ↦ rw r.2 (lookup-other out e h (longer-kept e r.0))
        | inr r ↦
            rw r.1 (
              lookup-other out (assign key newvalue) h (starts_with-longer key c cs newvalue other))
      ]

  -- Setting a variable to a value that is not empty loses every variable whose name is longer and
  -- begins with the key, when the environment is written anew: `strncmp` compares the key alone.
  pub update-loses :
      (es es' : List Bytes)
      → update key newvalue fop [] es false [] ≡ rebuilt es'
      → lookup longer es' ≡ missing
  update-loses es es' u =
      elim (update-induct key newvalue fop (λ es found out. lookup longer out ≡ missing)
        (λ before es out e found found' new h k. change-loses before es out e found found' new h k)
        [] es [] false es' refl u) [
          | inl lost ↦ lost
          | inr (out', h', e) ↦ rw e (
              lookup-other out' (assign key newvalue) h'
                (starts_with-longer key c cs newvalue other))
        ]
