-- ===== src/Yaml/Scalar.antt =====
-- A printed string, read back: a reader of plain and of double-quoted scalars.
use mathlib.Core.Path.{subst}
use mathlib.Core.Option.{map}
use mathlib.Core.List.{append_assoc, append-nil}
use ipctool.Base.{
  ℕ, ◌+◌, ◌*◌, ◌/◌, ◌%◌, ◌<◌, ◌≤◌, ◌≡◌, ◌⊎◌, inl, inr, refl, sym, ap, ◌∙◌, true, false, Bool-cases,
  Option, none, some, [], ◌∷◌, ◌++◌, ◌==◌, ltb, leb, if◌then◌else◌, length, arith, le→leb,
}
use ipctool.Base.Bytes.{Bytes, codes}
use ipctool.Yaml.{
  ok, failed, try_then, Doubles, hex_digit, replacement, below_32, is_escaped, needs_escaping,
  unicode, done, fails, ◌>=>◌, print_char, print_chars, quoted, print_string,
}
use ipctool.Yaml.Text.{put}
use ipctool.Yaml.Reader.{meaning, hex_value, read_quoted, plain_string, read_scalar, readable}

-- The text of one byte.
escaped : ℕ → Option ℕ → Bytes
escaped c (some r) = 92 ∷ r ∷ []
escaped c none = if ltb c 32 then unicode c else c ∷ []

all_escaped : Bytes → Bytes
unfolding escaped
all_escaped [] = []
all_escaped (c ∷ s) = escaped c (replacement c) ++ all_escaped s

hex_value-digit : (n : ℕ) → n < 16 → hex_value (hex_digit n) ≡ n
unfolding hex_value hex_digit
hex_value-digit n h = ground arith

replacement-cases :
    (c : ℕ)
    → (c ≡ 34)
      ⊎ (c ≡ 92)
      ⊎ (c ≡ 8)
      ⊎ (c ≡ 12)
      ⊎ (c ≡ 10)
      ⊎ (c ≡ 13)
      ⊎ (c ≡ 9)
      ⊎ ((replacement c ≡ none) × ((c == 34) ≡ false) × ((c == 92) ≡ false))
unfolding replacement
replacement-cases c = ground arith

-- A code of two digits behind two zeros.
read_quoted-code :
    (c : ℕ) (rest : Bytes)
    → c < 32
    → read_quoted (unicode c ++ rest) ≡ map (◌∷◌ c) (read_quoted rest)
unfolding read_quoted unicode codes hex_value
read_quoted-code c rest h =
    let small : leb 128 c ≡ false = ground (arith, h) in
    let high = hex_value-digit (c / 16) (omega (arith, h)) in
    let low = hex_value-digit (c % 16) (omega arith) in
    let value : hex_value 48 * 4096
          + hex_value 48 * 256
          + hex_value (hex_digit (c / 16)) * 16
          + hex_value (hex_digit (c % 16))
        ≡ c =
      omega (arith, high, low, h) in
    rw small (ap (λ v. map (◌∷◌ v) (read_quoted rest)) value)

-- The byte's text is read as the byte.
Reads : Bytes → ℕ → Type 0
Reads rest c = read_quoted (escaped c (replacement c) ++ rest) ≡ map (◌∷◌ c) (read_quoted rest)

Reads-plain :
    (rest : Bytes) (c : ℕ)
    → replacement c ≡ none
    → (c == 34) ≡ false
    → (c == 92) ≡ false
    → Reads rest c
unfolding Reads escaped read_quoted
Reads-plain rest c none' quote back = elim (Bool-cases (ltb c 32)) [
  | inl y ↦ rw (none', escaped, y) (read_quoted-code c rest (ground (arith, y)))
  | inr n ↦ rw (none', escaped, n, quote, back) refl
]

all_Reads : (rest : Bytes) (c : ℕ) → Reads rest c
unfolding Reads replacement escaped read_quoted meaning
all_Reads rest c = elim (replacement-cases c) [
  | inl e ↦ subst (Reads rest) (sym e) refl
  | inr (inl e) ↦ subst (Reads rest) (sym e) refl
  | inr (inr (inl e)) ↦ subst (Reads rest) (sym e) refl
  | inr (inr (inr (inl e))) ↦ subst (Reads rest) (sym e) refl
  | inr (inr (inr (inr (inl e)))) ↦ subst (Reads rest) (sym e) refl
  | inr (inr (inr (inr (inr (inl e))))) ↦ subst (Reads rest) (sym e) refl
  | inr (inr (inr (inr (inr (inr (inl e)))))) ↦ subst (Reads rest) (sym e) refl
  | inr (inr (inr (inr (inr (inr (inr (none', quote, back))))))) ↦
      Reads-plain rest c none' quote back
]

read_as :
    (rest : Bytes) (c : ℕ)
    → Reads rest c
    → read_quoted (escaped c (replacement c) ++ rest) ≡ map (◌∷◌ c) (read_quoted rest)
unfolding Reads
read_as rest c h = h

read_quoted-all : (s : Bytes) → read_quoted (all_escaped s ++ (34 ∷ [])) ≡ some s
unfolding all_escaped read_quoted
read_quoted-all [] = refl
read_quoted-all (c ∷ s) =
    ap read_quoted (append_assoc (escaped c (replacement c)) (all_escaped s) (34 ∷ []))
    ∙ read_as (all_escaped s ++ (34 ∷ [])) c (all_Reads (all_escaped s ++ (34 ∷ [])) c)
    ∙ ap (map (◌∷◌ c)) (read_quoted-all s)

length-unicode : (c : ℕ) → c < 32 → ltb (length (unicode c)) 10 ≡ true
unfolding unicode codes
length-unicode c h = let small : leb 128 c ≡ false = ground (arith, h) in rw small refl

length-unicode_high : (c : ℕ) → 128 ≤ c → ltb (length (unicode c)) 10 ≡ false
unfolding unicode codes
length-unicode_high c h = let high : leb 128 c ≡ true = le→leb 128 c h in rw high refl

module _ (doubles : Doubles) where
  print_char-escaped :
      (c : ℕ) (r : Option ℕ) (text : Bytes)
      → print_char put false doubles c r text ≡ ok (text ++ escaped c r)
  unfolding print_char escaped put below_32
  print_char-escaped c (some r) text = refl
  print_char-escaped c none text = elim (Bool-cases (ltb c 32)) [
    | inl y ↦ rw (y, length-unicode c (ground (arith, y))) refl
    | inr n ↦ rw n refl
  ]

  print_chars-escaped :
      (s text : Bytes) → print_chars put false doubles s text ≡ ok (text ++ all_escaped s)
  unfolding print_chars all_escaped done ◌>=>◌ try_then
  print_chars-escaped [] text = ap ok (sym (append-nil text))
  print_chars-escaped (c ∷ s) text =
      let one = escaped c (replacement c) in
      ap (λ r. try_then r (print_chars put false doubles s))
        (print_char-escaped c (replacement c) text)
      ∙ print_chars-escaped s (text ++ one)
      ∙ ap ok (append_assoc text one (all_escaped s))

  quoted-escaped :
      (s text : Bytes)
      → quoted put false doubles s text ≡ ok (text ++ (34 ∷ all_escaped s ++ (34 ∷ [])))
  unfolding quoted ◌>=>◌ try_then put
  quoted-escaped s text =
      let opened = text ++ (34 ∷ []) in
      ap (λ r. try_then r (put (34 ∷ []))) (print_chars-escaped s opened)
      ∙ ap ok (
          append_assoc opened (all_escaped s) (34 ∷ [])
          ∙ append_assoc text (34 ∷ []) (all_escaped s ++ (34 ∷ [])))

  plain-read :
      (c : ℕ) (s : Bytes)
      → needs_escaping false (c ∷ s) ≡ false
      → plain_string (c ∷ s) ≡ true
      → read_scalar (c ∷ s) ≡ some (c ∷ s)
  unfolding read_scalar needs_escaping is_escaped replacement below_32
  plain-read c s h plain = elim (Bool-cases (c == 34)) [
    | inl y ↦
        let e : c ≡ 34 = ground (arith, y) in
        let h' = subst (λ k. needs_escaping false (k ∷ s) ≡ false) e h in
        absurd (ground (arith, h'))
    | inr n ↦ rw (n, plain) refl
  ]

  -- Where `char` is not signed, a string that is empty, that has a byte to be escaped, or that
  -- starts with a letter, has only letters, digits, spaces and - . / _ in it, does not end in a space
  -- and is no word for a Boolean or for null is printed, after any text; and what is printed reads
  -- back as the string, as a double-quoted scalar or as a plain one.
  pub print_string-read :
      (s text : Bytes)
      → readable s ≡ true
      → (written : Bytes) × (print_string put false doubles (some s) text ≡ ok (text ++ written))
        × (read_scalar written ≡ some s)
  unfolding print_string put read_scalar all_escaped readable
  print_string-read [] text _ = (34 ∷ 34 ∷ [], refl, read_quoted-all [])
  print_string-read (c ∷ s) text good = elim (Bool-cases (needs_escaping false (c ∷ s))) [
    | inl y ↦ rw y (
      34 ∷ all_escaped (c ∷ s) ++ (34 ∷ []),
      quoted-escaped (c ∷ s) text,
      read_quoted-all (c ∷ s),
    )
    | inr n ↦ rw n (c ∷ s, refl, plain-read c s n (ground (arith, good, n)))
  ]

  -- Some byte is 128 or more.
  abbrev pub HasHigh : Bytes → Type 0
  HasHigh [] = ⊥
  HasHigh (c ∷ s) = (128 ≤ c) ⊎ HasHigh s

  high_needs_escaping : (s : Bytes) → HasHigh s → needs_escaping true s ≡ true
  unfolding needs_escaping below_32
  high_needs_escaping [] h = absurd h
  high_needs_escaping (c ∷ s) (inl h) = ground (arith, h)
  high_needs_escaping (c ∷ s) (inr h) = ground (arith, high_needs_escaping s h)

  replacement_high : (c : ℕ) → 128 ≤ c → replacement c ≡ none
  unfolding replacement
  replacement_high c h = ground (arith, h)

  below_32_high : (c : ℕ) → 128 ≤ c → below_32 true c ≡ true
  unfolding below_32
  below_32_high c h = ground (arith, h)

  high-fails :
      (c : ℕ) (text : Bytes) → 128 ≤ c → print_char put true doubles c (replacement c) text ≡ failed
  unfolding print_char fails
  high-fails c text h = rw (replacement_high c h, below_32_high c h, length-unicode_high c h) refl

  either :
      (c : ℕ) (r : Option ℕ) (text : Bytes)
      → (print_char put true doubles c r text ≡ failed)
        ⊎ ((t : Bytes) × (print_char put true doubles c r text ≡ ok t))
  unfolding print_char put fails
  either c (some r) text = inr (_, refl)
  either c none text = elim (Bool-cases (below_32 true c)) [
    | inl y ↦ elim (Bool-cases (ltb (length (unicode c)) 10)) [
      | inl short ↦ rw (y, short) (inr (_, refl))
      | inr long ↦ rw (y, long) (inl refl)
    ]
    | inr n ↦ rw n (inr (_, refl))
  ]

  print_chars-high : (s text : Bytes) → HasHigh s → print_chars put true doubles s text ≡ failed
  unfolding print_chars ◌>=>◌ try_then
  print_chars-high [] text h = absurd h
  print_chars-high (c ∷ s) text (inl h) =
      ap (λ r. try_then r (print_chars put true doubles s)) (high-fails c text h)
  print_chars-high (c ∷ s) text (inr h) = elim (either c (replacement c) text) [
    | inl e ↦ ap (λ r. try_then r (print_chars put true doubles s)) e
    | inr (t, e) ↦ ap (λ r. try_then r (print_chars put true doubles s)) e ∙ print_chars-high s t h
  ]

  -- Where `char` is signed, a string with a byte of 128 or more is not printed: the printing fails.
  pub print_string-high :
      (s text : Bytes) → HasHigh s → print_string put true doubles (some s) text ≡ failed
  unfolding print_string quoted ◌>=>◌ try_then put
  print_string-high [] text h = absurd h
  print_string-high (c ∷ s) text h =
      rw (high_needs_escaping (c ∷ s) h)
        (ap (λ r. try_then r (put (34 ∷ []))) (print_chars-high (c ∷ s) (text ++ (34 ∷ [])) h))
