-- ===== src/Yaml/Buffer.antt =====
-- src/cjson/cYAML.c: the string buffer. Sizes stay below the range of size_t.
use mathlib.Core.List.{append_assoc}
use ipctool.Base.{
  ℕ, ◌+◌, ◌-◌, ◌*◌, ◌≤◌, ◌<◌, ◌≡◌, refl, sym, ap, ◌∙◌, Bool, false, Option, none, some, [], ◌∷◌,
  ◌++◌, ltb, leb, if◌then◌else◌, length, take, drop, replicate, length-append, length-drop,
  length-replicate, take-append_left, Bool-cases, inl, inr, arith, le→leb,
}
use ipctool.Base.Bytes.{Bytes}
use ipctool.Yaml.{Try, ok, failed, overflow, Doubles, Json, print_document}

-- string_buffer
pub record StringBuffer : Type 0 where
  pub data' : Bytes
  pub len : ℕ
  pub cap : ℕ

-- Which sizes the allocator gives, and what fresh memory holds.
pub record Heap : Type 0 where
  pub grants : ℕ → Bool
  pub junk : ℕ

module _ (heap : Heap) where
  pub strbuf_new : Option StringBuffer
  strbuf_new =
      if heap.grants 256
      then some (record { data' = replicate 256 0; len = 0; cap = 256 })
      else none

  -- At least double the buffer.
  pub strbuf_expand : StringBuffer → ℕ → Option StringBuffer
  strbuf_expand buf need_cap =
      let need = if ltb need_cap buf.cap then buf.cap else need_cap in
      if heap.grants (need * 2)
      then some (record buf {
        data' = buf.data' ++ replicate (need * 2 - buf.cap) heap.junk;
        cap = need * 2;
      })
      else none

  -- strcpy(buf->data + buf->len, s)
  pub strcpy_end : Bytes → StringBuffer → Try StringBuffer
  strcpy_end s buf =
      if leb (buf.len + length s + 1) (length buf.data')
      then ok (record buf {
        data' = take buf.len buf.data' ++ (s ++ (0 ∷ drop (buf.len + length s + 1) buf.data'));
        len = buf.len + length s;
      })
      else overflow

  pub or_failed : Bytes → Option StringBuffer → Try StringBuffer
  unfolding strcpy_end
  or_failed s none = failed
  or_failed s (some buf) = strcpy_end s buf

  pub strbuf_push : Bytes → StringBuffer → Try StringBuffer
  unfolding or_failed strbuf_expand
  strbuf_push s buf =
      if ltb buf.cap (buf.len + length s + 1)
      then or_failed s (strbuf_expand buf (length s + 1))
      else strcpy_end s buf

unfoldable pub into : Option StringBuffer → (StringBuffer → Try StringBuffer) → Try StringBuffer
into none print = failed
into (some buf) print = print buf

-- cYAML_Print, up to the copy of the text
unfoldable pub cyaml_print :
    Heap → Bool → (doubles : Doubles) → Json doubles.Double → Try StringBuffer
unfolding into strbuf_new strbuf_push
cyaml_print heap signed doubles j =
    into (strbuf_new heap) (print_document (strbuf_push heap) signed doubles j)

-- The buffer holds the text, a 0 behind it, and is as large as it says.
abbrev pub Holds : StringBuffer → Bytes → Type 0
Holds buf text =
    ((rest : Bytes) × (buf.data' ≡ text ++ (0 ∷ rest)))
    × (buf.len ≡ length text)
    × (length buf.data' ≡ buf.cap)

-- What the buffer came to, against what the text came to: nothing is written outside, the buffer
-- holds the text, and where only the buffer fails an allocation was refused.
pub data Sim (heap : Heap) : Try StringBuffer → Try Bytes → Type 0 where
  both : (buf : StringBuffer) (text : Bytes) → Holds buf text → Sim heap (ok buf) (ok text)
  no_memory : (n : ℕ) (r : Try Bytes) → heap.grants n ≡ false → Sim heap failed r
  both_failed : Sim heap failed failed

-- A new buffer holds nothing, or none was granted.
abbrev pub NewBuffer : Heap → Option StringBuffer → Type 0
NewBuffer heap none = (n : ℕ) × (heap.grants n ≡ false)
NewBuffer heap (some buf) = Holds buf []

pub strbuf_new-NewBuffer : (heap : Heap) → NewBuffer heap (strbuf_new heap)
unfolding strbuf_new
strbuf_new-NewBuffer heap = elim (Bool-cases (heap.grants 256)) [
  | inl y ↦ rw y ((replicate 255 0, refl), refl, refl)
  | inr n ↦ rw n (256, n)
]

module _ (heap : Heap) where
  strcpy_end-Sim :
      (s : Bytes) (buf : StringBuffer) (text : Bytes)
      → Holds buf text
      → buf.len + length s + 1 ≤ buf.cap
      → Sim heap (strcpy_end heap s buf) (ok (text ++ s))
  unfolding strcpy_end
  strcpy_end-Sim s buf text ((rest, e), l, c) room =
      let fits = le→leb (buf.len + length s + 1) (length buf.data') (omega (arith, c, room)) in
      let back = drop (buf.len + length s + 1) buf.data' in
      let front : take buf.len buf.data' ≡ text =
        ap (λ n. take n buf.data') l
        ∙ ap (take (length text)) e
        ∙ take-append_left text (0 ∷ rest) in
      let written : take buf.len buf.data' ++ (s ++ (0 ∷ back)) ≡ (text ++ s) ++ (0 ∷ back) =
        ap (λ t. t ++ (s ++ (0 ∷ back))) front ∙ sym (append_assoc text s (0 ∷ back)) in
      let size : length (take buf.len buf.data' ++ (s ++ (0 ∷ back))) ≡ buf.cap =
        ap length written
        ∙ omega (
          arith,
          length-append (text ++ s) (0 ∷ back),
          length-append text s,
          length-drop (buf.len + length s + 1) buf.data',
          l,
          c,
          room,
        ) in
      rw fits (both _ (text ++ s) ((back, written), omega (arith, l, length-append text s), size))

  strbuf_expand-Sim :
      (s : Bytes) (buf : StringBuffer) (text : Bytes)
      → Holds buf text
      → Sim heap (or_failed heap s (strbuf_expand heap buf (length s + 1))) (ok (text ++ s))
  unfolding or_failed strbuf_expand
  strbuf_expand-Sim s buf text ((rest, e), l, c) =
      let need = if ltb (length s + 1) buf.cap then buf.cap else length s + 1 in
      let more = replicate (need * 2 - buf.cap) heap.junk in
      let large : buf.cap ≤ need = ground arith in
      let enough : length s + 1 ≤ need = ground arith in
      let inside : buf.len < buf.cap =
        omega (arith, l, c, ap length e, length-append text (0 ∷ rest)) in
      elim (Bool-cases (heap.grants (need * 2))) [
        | inl y ↦ rw y (
            strcpy_end-Sim s (record buf { data' = buf.data' ++ more; cap = need * 2 }) text
              (
                (rest ++ more, ap (λ t. t ++ more) e ∙ append_assoc text (0 ∷ rest) more),
                l,
                omega (
                  arith,
                  length-append buf.data' more,
                  length-replicate (need * 2 - buf.cap) heap.junk,
                  c,
                  large,
                ),
              )
              (omega (arith, large, enough, inside)))
        | inr n ↦ rw n (no_memory (need * 2) (ok (text ++ s)) n)
      ]

  pub strbuf_push-Sim :
      (s : Bytes) (buf : StringBuffer) (text : Bytes)
      → Holds buf text
      → Sim heap (strbuf_push heap s buf) (ok (text ++ s))
  unfolding strbuf_push
  strbuf_push-Sim s buf text held = elim (Bool-cases (ltb buf.cap (buf.len + length s + 1))) [
    | inl y ↦ rw y (strbuf_expand-Sim s buf text held)
    | inr n ↦ rw n (strcpy_end-Sim s buf text held (ground (arith, n)))
  ]
