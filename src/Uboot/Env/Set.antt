-- ===== src/Uboot/Env/Set.antt =====
-- `uboot_setenv_cb` does to the bytes what the specification does to the entries.
use Prim.Native.Nat.{max}
use mathlib.Core.List.{append_assoc, append-nil}
use ipctool.Base.{
  ℕ, zero, suc, ◌+◌, ◌-◌, ◌≤◌, ◌<◌, ◌⊎◌, Bool, true, false, List, [], ◌∷◌, ◌++◌, some, ◌≡◌, ◌∙◌,
  sym, refl, ap, arith, length, drop, take, replicate, ◌==◌, leb, le→leb, Bool-cases, Option-cases,
  inl, inr, length-append, length-replicate, take-append_left,
}
use ipctool.Base.Bytes.{Bytes, starts_with, equal}
use ipctool.Uboot.Env.{
  split_eq, write_at, snprintf_at, Rewrite, bailout, old_env, new_env, Step, stop, next, assign,
  same_value, set_entry, FlashOp, fop_interactive, fop_ram, fop_rom,
}
use ipctool.Uboot.Env.Text.{encode, lines, lines-append}
use ipctool.Uboot.Env.Spec.{
  Update, unchanged, edited, rebuilt, Change, ends, becomes, same_update, change,
}

abbrev zeros : ℕ → Bytes
zeros k = replicate k 0

length-zeros : (k : ℕ) → length (zeros k) ≡ k
length-zeros k = length-replicate k 0

drop-replicate : (n k : ℕ) → drop n (zeros (n + k)) ≡ zeros k
drop-replicate zero k = ap zeros (omega arith)
drop-replicate (suc n) k =
    let e : suc n + k ≡ suc (n + k) = omega arith in rw e (drop-replicate n k)

drop-append_add : (xs ys : Bytes) (n : ℕ) → drop (length xs + n) (xs ++ ys) ≡ drop n ys
drop-append_add [] ys n = ap (λ m. drop m ys) (omega arith)
drop-append_add (x ∷ xs) ys n =
    let e : suc (length xs) + n ≡ suc (length xs + n) = omega arith in
    rw e (drop-append_add xs ys n)

pub take-all : (n : ℕ) (xs : Bytes) → length xs ≤ n → take n xs ≡ xs
take-all zero [] h = refl
take-all zero (x ∷ xs) h = absurd (omega arith)
take-all (suc n) [] h = refl
take-all (suc n) (x ∷ xs) h = ap (◌∷◌ x) (take-all n xs (omega arith))

-- Bytes written at the end of what is written so far.
write_at-zeros :
    (out bytes : Bytes) (k : ℕ)
    → write_at (out ++ zeros (length bytes + k)) (length out) bytes
      ≡ some (out ++ (bytes ++ zeros k))
unfolding write_at
write_at-zeros out bytes k =
    let fits : leb (length out + length bytes) (length (out ++ zeros (length bytes + k))) ≡ true =
      le→leb _ _ (
        omega (
          arith,
          length-append {0} out (zeros (length bytes + k)),
          length-zeros (length bytes + k),
        )) in
    rw (
      fits,
      take-append_left out (zeros (length bytes + k)),
      drop-append_add out (zeros (length bytes + k)) (length bytes),
      drop-replicate (length bytes) k,
    )

-- memcpy of a text, into room for its NUL too
write_text :
    (out text : Bytes) (k : ℕ)
    → write_at (out ++ zeros (length text + suc k)) (length out) text
      ≡ some ((out ++ (text ++ 0 ∷ [])) ++ zeros k)
write_text out text k = write_at-zeros out text (suc k) ∙ simp append_assoc

-- snprintf of a text, into room for its NUL
snprintf_text :
    (out text : Bytes) (k : ℕ)
    → snprintf_at (out ++ zeros (length text + suc k)) (length out) text
      ≡ some ((out ++ (text ++ 0 ∷ [])) ++ zeros k)
unfolding snprintf_at
snprintf_text out text k =
    let total = length-append {0} out (zeros (length text + suc k)) in
    let size = length-zeros (length text + suc k) in
    let room : leb (length (out ++ zeros (length text + suc k))) (length out) ≡ false =
      ground (arith, total, size) in
    let whole : take (length (out ++ zeros (length text + suc k)) - length out - 1) text ≡ text =
      take-all _ text (omega (arith, total, size)) in
    let again : length text + suc k ≡ length (text ++ 0 ∷ []) + k =
      omega (arith, length-append {0} text (0 ∷ [])) in
    rw (room, whole, again, write_at-zeros out (text ++ 0 ∷ []) k) (simp append_assoc)

pub encode-append :
    (xs ys : List Bytes) (pad : Bytes) → encode (xs ++ ys) pad ≡ lines xs ++ encode ys pad
encode-append [] ys pad = refl
encode-append (e ∷ xs) ys pad = rw (encode-append xs ys pad, append_assoc)

-- `newenv` with some entries in it, of `total` bytes.
abbrev pub buffer : ℕ → List Bytes → Bytes
buffer total out = lines out ++ zeros (total - length (lines out))

pub grown-length :
    (out : List Bytes) (e : Bytes)
    → length (lines (out ++ e ∷ [])) ≡ length (lines out) + length e + 1
grown-length out e =
    rw (lines-append out (e ∷ []))
      (omega (arith, length-append {0} (lines out) (e ++ 0 ∷ []), length-append {0} e (0 ∷ [])))

module _ (total : ℕ) (out : List Bytes) (e : Bytes)
    (room : length (lines out) + length e < total) where
  abbrev left : ℕ
  left = total - length (lines out) - length e - 1

  before-eq : total - length (lines out) ≡ length e + suc left
  before-eq = omega arith

  after-eq : total - length (lines (out ++ e ∷ [])) ≡ left
  after-eq = omega (arith, grown-length out e)

  grown : (lines out ++ (e ++ 0 ∷ [])) ++ zeros left ≡ buffer total (out ++ e ∷ [])
  grown = rw (after-eq, lines-append out (e ∷ []))

  write-buffer :
      write_at (buffer total out) (length (lines out)) e ≡ some (buffer total (out ++ e ∷ []))
  write-buffer = rw before-eq (write_text (lines out) e left ∙ ap some grown)

  pub snprintf-buffer :
      snprintf_at (buffer total out) (length (lines out)) e ≡ some (buffer total (out ++ e ∷ []))
  snprintf-buffer = rw before-eq (snprintf_text (lines out) e left ∙ ap some grown)

-- The rewriting that an update stands for, where `newenv` has `total` bytes.
abbrev pub result : Bytes → ℕ → Update → Rewrite
result pad total unchanged = bailout
result pad total (edited es) = old_env (encode es pad)
result pad total (rebuilt es) = new_env (buffer total es)

abbrev pub step_of : Bytes → ℕ → List Bytes → Change → Step
step_of pad total out (ends u) = stop (result pad total u)
step_of pad total out (becomes found new) =
    next found (buffer total (out ++ new)) (length (lines (out ++ new)))

same_value-update :
    (fop : FlashOp) (pad : Bytes) (total : ℕ) (before es : List Bytes) (e : Bytes)
    → same_value fop (lines before ++ (e ++ 0 ∷ encode es pad))
      ≡ result pad total (same_update fop (before ++ e ∷ es))
unfolding same_value same_update
same_value-update fop_interactive pad total before es e = refl
same_value-update fop_ram pad total before es e = refl
same_value-update fop_rom pad total before es e =
    ap old_env (sym (encode-append before (e ∷ es) pad))

module _ (key newvalue : Bytes) (fop : FlashOp) (pad : Bytes) (total : ℕ) where
  abbrev pub text : Bytes
  text = assign key newvalue

  -- One round is one change of the specification, where `newenv` has room for the entry and for the
  -- new assignment.
  pub set_entry-change :
      (before es out : List Bytes) (e : Bytes) (found : Bool)
      → length (lines out) + length e < total
      → length (lines out) + length text < total
      → set_entry key newvalue fop
          (lines before)
          e
          (encode es pad)
          found
          (buffer total out)
          (length (lines out))
        ≡ step_of pad total out (change key newvalue fop before e es found)
  unfolding set_entry change
  set_entry-change before es out e found fits fits' = elim (Bool-cases (starts_with key e)) [
    | inr other ↦ rw (other, write-buffer total out e fits, sym (grown-length out e))
    | inl mine ↦ elim (Option-cases (split_eq e)) [
      | inl bad ↦ rw (mine, bad)
      | inr ((name, old), parts) ↦ elim (Bool-cases (length newvalue == length old)) [
        | inr longer ↦ elim (Bool-cases (length newvalue == 0)) [
          | inl gone ↦ rw (mine, parts, longer, gone, append-nil out)
          | inr kept ↦ rw (
            mine,
            parts,
            longer,
            kept,
            snprintf-buffer total out text fits',
            sym (grown-length out text),
          )
        ]
        | inl same_size ↦ elim (Bool-cases (equal newvalue old)) [
          | inl same ↦
              rw (mine, parts, same_size, same)
                (ap stop (same_value-update fop pad total before es e))
          | inr differs ↦
              rw (mine, parts, same_size, differs)
                (ap (λ t. stop (old_env t))
                  (sym (encode-append before (assign name newvalue ∷ es) pad)))
        ]
      ]
    ]
  ]

  -- Bytes of `newenv` that suffice for the entries: the longer of the entry and the new assignment
  -- for each, and the assignment once more, all with their NUL, and the NUL that ends the environment.
  abbrev pub need : List Bytes → ℕ
  need [] = length text + 2
  need (e ∷ es) = max (length e) (length text) + 1 + need es

  -- What an entry becomes is nothing, the entry or the assignment.
  pub change-new :
      (before es : List Bytes) (e : Bytes) (found found' : Bool) (new : List Bytes)
      → change key newvalue fop before e es found ≡ becomes found' new
      → (new ≡ []) ⊎ ((new ≡ e ∷ []) ⊎ (new ≡ text ∷ []))
  unfolding change
  change-new before es e found found' new h = ground arith

  pub change-size :
      (before es out : List Bytes) (e : Bytes) (found found' : Bool) (new : List Bytes)
      → change key newvalue fop before e es found ≡ becomes found' new
      → length (lines (out ++ new)) ≤ length (lines out) + max (length e) (length text) + 1
  change-size before es out e found found' new h =
      elim (change-new before es e found found' new h) [
        | inl nothing ↦ rw (nothing, append-nil out) (omega arith)
        | inr (inl kept) ↦ rw kept (omega (arith, grown-length out e))
        | inr (inr set') ↦ rw set' (omega (arith, grown-length out text))
      ]
