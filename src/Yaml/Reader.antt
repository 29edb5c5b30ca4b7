-- ===== src/Yaml/Reader.antt =====
-- A reader of YAML's plain and double-quoted scalars, for what src/cjson/cYAML.c prints.
use mathlib.Core.Option.{map}
use ipctool.Base.{
  ℕ, Bool, ◌&&◌, ◌||◌, not, ◌+◌, ◌-◌, ◌*◌, true, false, Option, none, some, [], ◌∷◌, ◌==◌, ltb, leb,
  if◌then◌else◌,
}
use ipctool.Base.Bytes.{Bytes, codes, equal}
use ipctool.Yaml.{needs_escaping}

-- The byte that an escape of one letter stands for.
unfoldable pub meaning : ℕ → ℕ
meaning x =
    if x == 98
    then 8
    else if x == 102
    then 12
    else if x == 110
    then 10
    else if x == 114
    then 13
    else if x == 116
    then 9
    else x

unfoldable pub hex_value : ℕ → ℕ
hex_value d = if ltb d 58 then d - 48 else d - 87

unfoldable mutual
  unfolding meaning hex_value

  -- Behind the opening quote.
  pub read_quoted : Bytes → Option Bytes
  read_quoted [] = none
  read_quoted (c ∷ cs) =
      if c == 34 then some [] else if c == 92 then read_escape cs else map (◌∷◌ c) (read_quoted cs)

  pub read_escape : Bytes → Option Bytes
  read_escape [] = none
  read_escape (x ∷ cs) = if x == 117 then read_hex cs else map (◌∷◌ (meaning x)) (read_quoted cs)

  pub read_hex : Bytes → Option Bytes
  read_hex (a ∷ b ∷ h ∷ l ∷ cs) =
      map (◌∷◌ (hex_value a * 4096 + hex_value b * 256 + hex_value h * 16 + hex_value l))
        (read_quoted cs)
  read_hex _ = none

unfoldable pub is_letter : ℕ → Bool
is_letter c = leb 97 c && leb c 122 || leb 65 c && leb c 90

-- Letters, digits, and one of space - . / _
unfoldable pub plain_byte : ℕ → Bool
unfolding is_letter
plain_byte c = is_letter c || leb 45 c && leb c 57 || c == 32 || c == 95

unfoldable pub all_plain : Bytes → Bool
unfolding plain_byte
all_plain [] = true
all_plain (c ∷ cs) = plain_byte c && all_plain cs

-- The last byte is a space.
unfoldable pub ends_blank : ℕ → Bytes → Bool
ends_blank c [] = c == 32
ends_blank c (d ∷ cs) = ends_blank d cs

unfoldable pub lower : Bytes → Bytes
lower [] = []
lower (c ∷ cs) = (if leb 65 c && leb c 90 then c + 32 else c) ∷ lower cs

-- Words that a YAML reader takes for a Boolean or for null.
unfoldable pub reserved : Bytes → Bool
unfolding lower
reserved s =
    let w = lower s in
    equal w (codes "true")
    || equal w (codes "false")
    || equal w (codes "null")
    || equal w (codes "yes")
    || equal w (codes "no")
    || equal w (codes "on")
    || equal w (codes "off")
    || equal w (codes "y")
    || equal w (codes "n")

-- A plain scalar that every YAML reader takes for a string: it starts with a letter, and none of
-- its bytes has a meaning of its own in YAML.
unfoldable pub plain_string : Bytes → Bool
unfolding is_letter all_plain ends_blank reserved
plain_string [] = false
plain_string (c ∷ cs) =
    is_letter c && all_plain cs && not (ends_blank c cs) && not (reserved (c ∷ cs))

-- A reader of the scalars that are sure to be strings: double-quoted ones, and the plain ones above.
unfoldable pub read_scalar : Bytes → Option Bytes
unfolding read_quoted plain_string
read_scalar [] = none
read_scalar (c ∷ cs) =
    if c == 34 then read_quoted cs else if plain_string (c ∷ cs) then some (c ∷ cs) else none

-- The string is printed in quotes, or is a plain scalar as it stands.
unfoldable pub readable : Bytes → Bool
unfolding plain_string
readable [] = true
readable (c ∷ cs) = needs_escaping false (c ∷ cs) || plain_string (c ∷ cs)
