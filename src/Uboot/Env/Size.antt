-- ===== src/Uboot/Env/Size.antt =====
-- The sizes of what `uboot_setenv_cb` leaves: an edited and a rebuilt environment have the size of
-- the loaded one, so that every copy of `env_len` bytes fits.
use mathlib.Core.List.{append_assoc, append-nil}
use ipctool.Base.{
  ℕ, zero, suc, ◌+◌, ◌-◌, ◌≤◌, ◌<◌, Bool, false, true, List, [], ◌∷◌, ◌++◌, Option, none, some, ◌≡◌,
  ◌∙◌, sym, refl, ap, arith, length, length-append, drop, take, replicate, ◌==◌, leb, le→leb,
  Bool-cases, Option-cases, inl, inr, length-replicate,
}
use ipctool.Base.Bytes.{Bytes, starts_with, equal}
use ipctool.Uboot.Crc.{crc32}
use ipctool.Uboot.Env.{
  split_eq, assign, le_bytes, FlashOp, fop_interactive, fop_ram, fop_rom, Uboot, Outcome, done,
  checked, copied, kept, flashed, rewrite,
}
use ipctool.Uboot.Env.Text.{encode, lines}
use ipctool.Uboot.Env.Spec.{
  unchanged, edited, rebuilt, Update, Change, ends, becomes, same_update, change, update, follow,
}
use ipctool.Uboot.Env.Set.{buffer, need, encode-append, change-size, grown-length, take-all}
use ipctool.Uboot.Env.Induct.{update-induct}

length-split_eq :
    (e name old : Bytes) → split_eq e ≡ some (name, old) → length e ≡ length name + length old + 1
unfolding split_eq
length-split_eq [] name old h = cc
length-split_eq (c ∷ cs) name old h = elim (Bool-cases (c == b'=')) [
  | inl y ↦ ground (arith, y, h)
  | inr n ↦ elim (Option-cases (split_eq cs)) [
    | inl e ↦ ground (arith, n, e, h)
    | inr ((name', old'), e) ↦
        let k : some (c ∷ name', old') ≡ some (name, old) = rw (n, e) at h in
        let names : c ∷ name' ≡ name = cc in
        let olds : old' ≡ old = cc in
        rw (sym names, sym olds) (omega (arith, length-split_eq cs name' old' e))
  ]
]

drop-all : (n : ℕ) (xs : Bytes) → length xs ≤ n → drop n xs ≡ []
drop-all zero [] h = refl
drop-all zero (x ∷ xs) h = absurd (omega arith)
drop-all (suc n) [] h = refl
drop-all (suc n) (x ∷ xs) h = drop-all n xs (omega arith)

-- An entry of the same size in the place of another.
length-replaced :
    (before es : List Bytes) (e e' pad : Bytes)
    → length e' ≡ length e
    → length (encode (before ++ e' ∷ es) pad) ≡ length (encode (before ++ e ∷ es) pad)
length-replaced before es e e' pad h =
    rw (encode-append before (e' ∷ es) pad, encode-append before (e ∷ es) pad)
      (omega (
        arith,
        h,
        length-append {0} (lines before) (e' ++ 0 ∷ encode es pad),
        length-append {0} (lines before) (e ++ 0 ∷ encode es pad),
        length-append {0} e' (0 ∷ encode es pad),
        length-append {0} e (0 ∷ encode es pad),
      ))

same_update-edited :
    (fop : FlashOp) (es es' : List Bytes) → same_update fop es ≡ edited es' → es' ≡ es
unfolding same_update
same_update-edited fop_interactive es es' h = cc
same_update-edited fop_ram es es' h = cc
same_update-edited fop_rom es es' h = cc

length-assign : (k v : Bytes) → length (assign k v) ≡ length k + length v + 1
unfolding assign
length-assign k v = omega (arith, length-append {0} k (b'=' ∷ v))

module _ (key newvalue : Bytes) (fop : FlashOp) (pad : Bytes) where
  -- A value of the same size takes the place of the old one.
  change-edited :
      (before es es' : List Bytes) (e : Bytes) (found : Bool)
      → change key newvalue fop before e es found ≡ ends (edited es')
      → length (encode es' pad) ≡ length (encode (before ++ e ∷ es) pad)
  unfolding change
  change-edited before es es' e found h = elim (Bool-cases (starts_with key e)) [
    | inr other ↦ cc (rw other at h)
    | inl mine ↦ elim (Option-cases (split_eq e)) [
      | inl bad ↦ cc (rw (mine, bad) at h)
      | inr ((name, old), parts) ↦ elim (Bool-cases (length newvalue == length old)) [
        | inr longer ↦ elim (Bool-cases (length newvalue == 0)) [
          | inl gone ↦ cc (rw (mine, parts, longer, gone) at h)
          | inr kept ↦ cc (rw (mine, parts, longer, kept) at h)
        ]
        | inl same_size ↦ elim (Bool-cases (equal newvalue old)) [
          | inl same ↦
              let k : ends (same_update fop (before ++ e ∷ es)) ≡ ends (edited es') =
                rw (mine, parts, same_size, same) at h in
              rw (same_update-edited fop (before ++ e ∷ es) es' cc)
          | inr differs ↦
              let k : ends (edited (before ++ assign name newvalue ∷ es)) ≡ ends (edited es') =
                rw (mine, parts, same_size, differs) at h in
              let e_is : before ++ assign name newvalue ∷ es ≡ es' = cc in
              rw (sym e_is) (
                length-replaced before es e (assign name newvalue) pad (
                  ground (
                    arith,
                    same_size,
                    length-assign name newvalue,
                    length-split_eq e name old parts,
                  )))
        ]
      ]
    ]
  ]

  -- An edited environment has the size that it had.
  pub length-edited :
      (before es out es' : List Bytes) (found : Bool)
      → update key newvalue fop before es found out ≡ edited es'
      → length (encode es' pad) ≡ length (encode (before ++ es) pad)
  unfolding update
  length-edited before [] out es' false h = cc
  length-edited before [] out es' true h = cc
  length-edited before (e ∷ es) out es' found h =
      later
        (λ found' new k.
          length-edited (before ++ e ∷ []) es (out ++ new) es' found' k
          ∙ ap (λ t. length (encode t pad)) (append_assoc before (e ∷ []) es))
        (change key newvalue fop before e es found) refl h
    where
      later :
          ((found' : Bool) (new : List Bytes)
            → update key newvalue fop (before ++ e ∷ []) es found' (out ++ new) ≡ edited es'
            → length (encode es' pad) ≡ length (encode (before ++ e ∷ es) pad))
          → (c : Change) → change key newvalue fop before e es found ≡ c
          → follow
              (λ found' new. update key newvalue fop (before ++ e ∷ []) es found' (out ++ new))
              c
            ≡ edited es'
          → length (encode es' pad) ≡ length (encode (before ++ e ∷ es) pad)
      later ih (ends w) k v = change-edited before es es' e found (k ∙ ap ends v)
      later ih (becomes found' new) k v = ih found' new v

module _ (key newvalue : Bytes) (fop : FlashOp) (pad : Bytes) (total : ℕ) where
  abbrev FitsSize : List Bytes → Bool → List Bytes → Type 0
  FitsSize es found out = length (lines out) + need key newvalue fop pad total es ≤ total

  keep-FitsSize :
      (before es out : List Bytes) (e : Bytes) (found found' : Bool) (new : List Bytes)
      → FitsSize (e ∷ es) found out
      → change key newvalue fop before e es found ≡ becomes found' new
      → FitsSize es found' (out ++ new)
  keep-FitsSize before es out e found found' new h k =
      omega (arith, h, change-size key newvalue fop pad total before es out e found found' new k)

  -- A rebuilt environment ends inside the buffer.
  pub rebuilt-size :
      (es es' : List Bytes)
      → need key newvalue fop pad total es ≤ total
      → update key newvalue fop [] es false [] ≡ rebuilt es'
      → length (lines es') < total
  rebuilt-size es es' room h =
      elim (update-induct key newvalue fop FitsSize keep-FitsSize [] es [] false es'
        (omega (arith, room)) h) [
          | inl f ↦ omega (arith, f)
          | inr (out, f, e) ↦ rw e (omega (arith, f, grown-length out (assign key newvalue)))
        ]

pub length-buffer :
    (total : ℕ) (es : List Bytes) → length (lines es) < total → length (buffer total es) ≡ total
length-buffer total es h =
    let rest : Bytes = replicate (total - length (lines es)) 0 in
    omega (
      arith,
      h,
      length-append {0} (lines es) rest,
      length-replicate {A = ℕ} (total - length (lines es)) 0,
    )

-- What the rewriting of a text leaves: the text in `uenv`, and, unless only the memory is meant,
-- with its checksum in front of it, in the flash too.
abbrev pub settled : ℕ → Uboot → FlashOp → Bytes → Bytes → Outcome
settled word u fop_ram sum text = done (record u { uenv = some (sum ++ text) }) none
settled word u _ sum text =
    let towrite = le_bytes 4 (crc32 word text 0) ++ text in
    done (record u { uenv = some towrite }) (some towrite)

-- What setting a variable leaves, for each end of the specification's walk.
abbrev pub stored : ℕ → Uboot → FlashOp → Bytes → List Bytes → Bytes → ℕ → Update → Outcome
stored word u fop sum es pad total unchanged =
    done (record u { uenv = some (sum ++ encode es pad) }) none
stored word u fop sum es pad total (edited es') = settled word u fop sum (encode es' pad)
stored word u fop sum es pad total (rebuilt es') =
    settled word u fop (0 ∷ 0 ∷ 0 ∷ 0 ∷ []) (buffer total es')

module _ (word : ℕ) (u : Uboot) (total : ℕ) (len_is : u.env_len ≡ total + 4)
    (back : Bytes → Option Bytes) (whole : (t : Bytes) → length t ≡ total + 4 → back t ≡ some t)
    (sum text : Bytes) (sum_is : length sum ≡ 4) (text_is : length text ≡ total) where
  sized : length (sum ++ text) ≡ total + 4
  sized = omega (arith, sum_is, text_is, length-append {0} sum text)

  checked-whole : checked word u.env_len sum text ≡ some (le_bytes 4 (crc32 word text 0) ++ text)
  unfolding checked
  checked-whole =
      let low : leb 4 u.env_len ≡ true = le→leb _ _ (omega (arith, len_is)) in
      let high : leb u.env_len (length (sum ++ text)) ≡ true =
        le→leb _ _ (omega (arith, len_is, sized)) in
      let all : take (u.env_len - 4) text ≡ text =
        take-all (u.env_len - 4) text (omega (arith, len_is, text_is)) in
      rw (low, high, all) refl

  flashed-whole :
      (towrite : Bytes)
      → length towrite ≡ total + 4
      → flashed u back (some towrite) ≡ done (record u { uenv = some towrite }) (some towrite)
  unfolding flashed kept
  flashed-whole towrite h =
      rw (whole towrite h, take-all u.env_len towrite (omega (arith, len_is, h))) refl

  with_checksum : length (le_bytes 4 (crc32 word text 0) ++ text) ≡ total + 4
  unfolding le_bytes
  with_checksum = omega (arith, text_is)

  -- Where all of `env_len` bytes are there, the rewriting stays inside its buffers.
  pub rewrite-settled :
      (fop : FlashOp) → rewrite word u back fop sum text ≡ settled word u fop sum text
  unfolding rewrite kept
  rewrite-settled fop_ram = rw (whole (sum ++ text) sized) refl
  rewrite-settled fop_interactive =
      ap (flashed u back) checked-whole ∙ flashed-whole _ with_checksum
  rewrite-settled fop_rom = ap (flashed u back) checked-whole ∙ flashed-whole _ with_checksum

pub copied-whole :
    (n : ℕ) (env towrite : Bytes)
    → length env ≡ n
    → length towrite ≡ n
    → copied n env towrite ≡ some towrite
unfolding copied
copied-whole n env towrite h k =
    let low : leb n (length towrite) ≡ true = le→leb _ _ (omega (arith, k)) in
    let high : leb n (length env) ≡ true = le→leb _ _ (omega (arith, h)) in
    rw (low, high, take-all n towrite (omega (arith, k)), drop-all n env (omega (arith, h)))
      (ap some (append-nil towrite))
