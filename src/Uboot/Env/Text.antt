-- ===== src/Uboot/Env/Text.antt =====
-- The text of an environment as the list of its entries, and how the parent's functions on
-- pointers read it.
use mathlib.Core.List.{append_assoc}
use ipctool.Base.{
  zero, suc, ◌<◌, true, List, [], ◌∷◌, ◌++◌, some, ◌≡◌, ◌≢◌, refl, arith, length, length-append,
  drop,
}
use ipctool.Base.Bytes.{Bytes, starts_with}
use ipctool.Uboot.Env.{cut}

-- A text without NUL.
abbrev pub IsText : Bytes → Type 0
IsText [] = Unit {0}
IsText (zero ∷ cs) = ⊥
IsText (suc c ∷ cs) = IsText cs

abbrev pub IsEntry : Bytes → Type 0
IsEntry e = IsText e × (e ≢ [])

abbrev pub AreEntries : List Bytes → Type 0
AreEntries [] = Unit {0}
AreEntries (e ∷ es) = IsEntry e × AreEntries es

-- The entries, each with its NUL.
abbrev pub lines : List Bytes → Bytes
lines [] = []
lines (e ∷ es) = e ++ 0 ∷ lines es

-- The entries, an empty one that ends the environment, and what is left of the buffer.
abbrev pub encode : List Bytes → Bytes → Bytes
encode [] pad = 0 ∷ pad
encode (e ∷ es) pad = e ++ 0 ∷ encode es pad

pub encode-lines : (es : List Bytes) (pad : Bytes) → encode es pad ≡ lines es ++ 0 ∷ pad
encode-lines [] pad = refl
encode-lines (e ∷ es) pad = rw (encode-lines es pad, append_assoc)

pub lines-append : (xs ys : List Bytes) → lines (xs ++ ys) ≡ lines xs ++ lines ys
lines-append [] ys = refl
lines-append (e ∷ xs) ys = rw (lines-append xs ys, append_assoc)

pub cut-text : (e rest : Bytes) → IsText e → cut (e ++ 0 ∷ rest) ≡ some (e, rest)
unfolding cut
cut-text [] rest h = refl
cut-text (zero ∷ e) rest h = absurd h
cut-text (suc c ∷ e) rest h = rw (cut-text e rest h)

-- A text without NUL is compared within the entry.
pub starts_with-entry :
    (p e rest : Bytes) → IsText p → starts_with p (e ++ 0 ∷ rest) ≡ starts_with p e
unfolding starts_with
starts_with-entry [] e rest h = refl
starts_with-entry (zero ∷ p) e rest h = absurd h
starts_with-entry (suc c ∷ p) [] rest h = ground arith
starts_with-entry (suc c ∷ p) (x ∷ e) rest h = rw (starts_with-entry p e rest h)

-- Behind a prefix of the entry the rest of the entry is text.
pub cut-drop :
    (p e rest : Bytes)
    → IsText e
    → starts_with p e ≡ true
    → cut (drop (length p) (e ++ 0 ∷ rest)) ≡ some (drop (length p) e, rest)
unfolding starts_with
cut-drop [] e rest h s = cut-text e rest h
cut-drop (c ∷ p) [] rest h s = cc
cut-drop (c ∷ p) (zero ∷ e) rest h s = absurd h
cut-drop (c ∷ p) (suc x ∷ e) rest h s = cut-drop p e rest h (ground arith)

pub length-encode : (es : List Bytes) (pad : Bytes) → length es < length (encode es pad)
length-encode [] pad = omega arith
length-encode (e ∷ es) pad =
    omega (arith, length-encode es pad, length-append {0} e (0 ∷ encode es pad))
