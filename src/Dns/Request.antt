-- ===== src/Dns/Request.antt =====
-- What `fill_dns_req` writes, against the format of a name: its labels, each behind its length.
use mathlib.Core.List.{append-nil, append_assoc}
use ipctool.Base.{
  ℕ, ◌+◌, ◌≡◌, refl, sym, ap, ◌∙◌, false, List, [], ◌∷◌, ◌++◌, ◌==◌, u8, set, length, length-append,
  arith,
}
use ipctool.Base.Bytes.{Bytes}
use ipctool.Dns.{fill_fields, question_name, fill_dns_req, request_header, question}

abbrev pub DotFree : Bytes → Type 0
DotFree [] = Unit {0}
DotFree (c ∷ cs) = ((c == 46) ≡ false) × DotFree cs

abbrev pub AllDotFree : List Bytes → Type 0
AllDotFree [] = Unit {0}
AllDotFree (l ∷ ls) = DotFree l × AllDotFree ls

-- The labels with dots between them.
unfoldable pub dotted : Bytes → List Bytes → Bytes
dotted l [] = l
dotted l (m ∷ ls) = l ++ (46 ∷ dotted m ls)

unfoldable pub encoded : List Bytes → Bytes
encoded [] = 0 ∷ []
encoded (l ∷ ls) = u8 (length l) ∷ l ++ encoded ls

pub set-append :
    (front : Bytes) (x v : ℕ) (back : Bytes)
    → set (front ++ (x ∷ back)) (length front) v ≡ front ++ (v ∷ back)
set-append [] x v back = refl
set-append (c ∷ front) x v back = ap (◌∷◌ c) (set-append front x v back)

-- A stretch without a dot is counted.
count_label :
    (l rest : Bytes) (i j prev count k : ℕ) (name : Bytes)
    → DotFree l
    → i + length l ≡ j
    → count + length l ≡ k
    → fill_fields (l ++ rest) i prev (u8 count) name ≡ fill_fields rest j prev (u8 k) name
unfolding fill_fields
count_label [] rest i j prev count k name free e f =
    let e' : i ≡ j = omega (arith, e) in let f' : count ≡ k = omega (arith, f) in rw (e', f') refl
count_label (c ∷ l) rest i j prev count k name free e f =
    let round : u8 (u8 count + 1) ≡ u8 (count + 1) = omega arith in
    rw (free.0, round)
      (count_label l rest (i + 1) j prev (count + 1) k name free.1 (omega (arith, e))
        (omega (arith, f)))

fill_labels :
    (front : Bytes) (x : ℕ) (l : Bytes) (ls : List Bytes)
    → DotFree l
    → AllDotFree ls
    → fill_fields
        (dotted l ls)
        (length front)
        (length front)
        0
        (front ++ (x ∷ dotted l ls ++ (0 ∷ [])))
      ≡ front ++ encoded (l ∷ ls)
unfolding dotted encoded fill_fields
fill_labels front x l [] free all =
    ap (λ t. fill_fields t (length front) (length front) 0 (front ++ (x ∷ l ++ (0 ∷ []))))
      (sym (append-nil l))
    ∙ count_label l [] (length front) (length front + length l) (length front) 0 (length l)
        (front ++ (x ∷ l ++ (0 ∷ []))) free refl (omega arith)
    ∙ set-append front x (u8 (length l)) (l ++ (0 ∷ []))
fill_labels front x l (m ∷ ls) free all =
    let k = u8 (length l) in
    let tail' = 46 ∷ dotted m ls ++ (0 ∷ []) in
    let passed = front ++ (k ∷ l) in
    let at : length front + length l + 1 ≡ length passed =
      omega (arith, length-append front (k ∷ l)) in
    let name : Bytes = front ++ (x ∷ (l ++ (46 ∷ dotted m ls)) ++ (0 ∷ [])) in
    let written : set name (length front) k ≡ passed ++ tail' =
      set-append front x k ((l ++ (46 ∷ dotted m ls)) ++ (0 ∷ []))
      ∙ ap (λ t. front ++ (k ∷ t)) (append_assoc l (46 ∷ dotted m ls) (0 ∷ []))
      ∙ sym (append_assoc front (k ∷ l) tail') in
    count_label l (46 ∷ dotted m ls) (length front) (length front + length l) (length front) 0
      (length l) name free refl (omega arith)
    ∙ ap (λ j. fill_fields (dotted m ls) j j 0 (set name (length front) k)) at
    ∙ ap (λ t. fill_fields (dotted m ls) (length passed) (length passed) 0 t) written
    ∙ fill_labels passed 46 m ls all.0 all.1
    ∙ append_assoc front (k ∷ l) (encoded (m ∷ ls))

pub question_name-encoded :
    (stale : ℕ) (l : Bytes) (ls : List Bytes)
    → DotFree l
    → AllDotFree ls
    → question_name stale (dotted l ls) ≡ encoded (l ∷ ls)
unfolding question_name
question_name-encoded stale l ls free all = fill_labels [] stale l ls free all

-- For every name that is labels without dots with dots between them, whatever the first byte of
-- the name's place was: the request is the header, the labels, each behind its length modulo
-- 256, a 0, and the question.
pub fill_dns_req-encoded :
    (stale : ℕ) (l : Bytes) (ls : List Bytes)
    → DotFree l
    → AllDotFree ls
    → fill_dns_req stale (dotted l ls) ≡ request_header ++ encoded (l ∷ ls) ++ question
unfolding fill_dns_req
fill_dns_req-encoded stale l ls free all =
    ap (λ t. request_header ++ t ++ question) (question_name-encoded stale l ls free all)
