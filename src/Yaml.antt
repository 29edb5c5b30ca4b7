-- ===== src/Yaml.antt =====
-- src/cjson/cYAML.c: the printing of a JSON value as YAML. The functions are written over the buffer
-- and its `push`; Yaml/Buffer is the string buffer of the code.
pub mod Buffer
pub mod Text
pub mod Simulation
pub mod Reader
pub mod Scalar
use ipctool.Base.{
  ℕ, zero, suc, ◌+◌, ◌-◌, ◌/◌, ◌%◌, Bool, true, false, ◌&&◌, ◌||◌, not, Option, none, some, List,
  [], ◌∷◌, ◌++◌, String, ◌==◌, ltb, leb, if◌then◌else◌, length, get_elem?,
}
use ipctool.Base.Bytes.{Bytes, codes}

-- What TRY passes on; `overflow` is a write outside the buffer.
pub data Try (B : Type 0) : Type 0 where
  ok : B → Try B
  failed overflow : Try B

pub try_then : {B : Type 0} → Try B → (B → Try B) → Try B
try_then (ok b) g = g b
try_then failed g = failed
try_then overflow g = overflow

-- What the C library does for `print_number`.
pub record Doubles : Type 1 where
  pub Double : Type 0
  pub is_finite : Double → Bool
  -- "%1.15g" and "%1.17g"
  pub short_form : Double → Bytes
  pub long_form : Double → Bytes
  -- sscanf(tmp, "%lg", &test) and compare_double(test, d)
  pub scans_back : Bytes → Double → Bool

-- The nodes of src/cjson/cJSON.h that the printer tells apart; a string or a key may be NULL.
mutual
  pub data Json (D : Type 0) : Type 0 where
    json_null json_false json_true json_unknown : Json D
    json_number : D → Json D
    json_string json_raw : Option Bytes → Json D
    json_array : Items D → Json D
    json_object : Fields D → Json D

  pub data Items (D : Type 0) : Type 0 where
    no_item : Items D
    item : Json D → Items D → Items D

  pub data Fields (D : Type 0) : Type 0 where
    no_field : Fields D
    field : Option Bytes → Json D → Fields D → Fields D

pub hex_digit : ℕ → ℕ
hex_digit n = if ltb n 10 then 48 + n else 87 + n

-- The replacement of a byte of ESCAPES.
unfoldable pub replacement : ℕ → Option ℕ
replacement c =
    if c == 34
    then some 34
    else if c == 92
    then some 92
    else if c == 8
    then some 98
    else if c == 12
    then some 102
    else if c == 10
    then some 110
    else if c == 13
    then some 114
    else if c == 9
    then some 116
    else none

-- *c < 32, where `char` is signed and where it is not
unfoldable pub below_32 : Bool → ℕ → Bool
below_32 signed c = ltb c 32 || signed && leb 128 c

unfoldable pub is_escaped : ℕ → Bool
unfolding replacement
is_escaped c = elim (replacement c) [ none ↦ false | some r ↦ true ]

unfoldable pub needs_escaping : Bool → Bytes → Bool
unfolding below_32 is_escaped
needs_escaping signed [] = false
needs_escaping signed (c ∷ s) =
    below_32 signed c || c == 58 || is_escaped c || needs_escaping signed s

-- "\\u%04x"; a `char` below 0 becomes an int of eight digits
pub unicode : ℕ → Bytes
unfolding hex_digit
unicode c =
    let low = hex_digit (c / 16) ∷ hex_digit (c % 16) ∷ [] in
    if leb 128 c then codes "\\uffffff" ++ low else codes "\\u00" ++ low

module _ {B : Type 0} (push : Bytes → B → Try B) (signed : Bool) (doubles : Doubles) where
  pub done : B → Try B
  done b = ok b

  pub fails : B → Try B
  fails b = failed

  infixr 15 ◌>=>◌
  pub ◌>=>◌ : (B → Try B) → (B → Try B) → B → Try B
  unfolding try_then
  (f >=> g) b = try_then (f b) g

  -- The replacement, or the code, or the byte.
  pub print_char : ℕ → Option ℕ → B → Try B
  unfolding below_32 unicode fails
  print_char c (some r) = push (92 ∷ r ∷ [])
  print_char c none =
      if below_32 signed c
      then (if ltb (length (unicode c)) 10 then push (unicode c) else fails)
      else push (c ∷ [])

  pub print_chars : Bytes → B → Try B
  unfolding ◌>=>◌ print_char done replacement
  print_chars [] = done
  print_chars (c ∷ s) = print_char c (replacement c) >=> print_chars s

  pub quoted : Bytes → B → Try B
  unfolding ◌>=>◌ print_chars
  quoted s = push (34 ∷ []) >=> print_chars s >=> push (34 ∷ [])

  pub print_string : Option Bytes → B → Try B
  unfolding quoted needs_escaping
  print_string none = push (34 ∷ 34 ∷ [])
  print_string (some []) = push (34 ∷ 34 ∷ [])
  print_string (some (c ∷ s)) =
      if needs_escaping signed (c ∷ s) then quoted (c ∷ s) else push (c ∷ s)

  -- Without ENABLE_LOCALES the decimal point is replaced by itself.
  pub print_number : doubles.Double → B → Try B
  unfolding fails
  print_number d =
      let short = doubles.short_form d in
      let long = doubles.long_form d in
      if not (doubles.is_finite d)
      then push (codes "null")
      else if not (ltb (length short) 26)
      then fails
      else if doubles.scans_back short d
      then push short
      else if not (ltb (length long) 26)
      then fails
      else push long

  pub repeat : ℕ → (B → Try B) → B → Try B
  unfolding ◌>=>◌ done
  repeat zero f = done
  repeat (suc n) f = f >=> repeat n f

  pub do_indent : ℕ → ℕ → Bool → B → Try B
  unfolding ◌>=>◌ repeat
  do_indent depth dashes in_list =
      let deep = if in_list then depth - 1 else depth in
      repeat (deep - dashes) (push (codes "  "))
      >=> repeat (deep - (deep - dashes)) (push (codes "- "))

  pub print_raw : Option Bytes → B → Try B
  unfolding fails
  print_raw none = fails
  print_raw (some s) = push s

  -- A key is not NULL.
  pub print_key : Option Bytes → ℕ → ℕ → Bool → B → Try B
  unfolding ◌>=>◌ fails print_string do_indent
  print_key none depth dashes in_list = fails
  print_key (some k) depth dashes in_list =
      do_indent depth dashes in_list >=> print_string (some k) >=> push (codes ":")

  -- The cases of `print_value` without children; the others do not come here.
  pub print_scalar : Json doubles.Double → ℕ → ℕ → Bool → B → Try B
  unfolding ◌>=>◌ fails print_string print_number do_indent print_raw
  print_scalar json_null depth dashes in_list =
      do_indent depth dashes in_list >=> push (codes "null\n")
  print_scalar json_false depth dashes in_list =
      do_indent depth dashes in_list >=> push (codes "false\n")
  print_scalar json_true depth dashes in_list =
      do_indent depth dashes in_list >=> push (codes "true\n")
  print_scalar json_unknown depth dashes in_list = fails
  print_scalar (json_number d) depth dashes in_list =
      do_indent depth dashes in_list >=> print_number d >=> push (codes "\n")
  print_scalar (json_string s) depth dashes in_list =
      do_indent depth dashes in_list >=> print_string s >=> push (codes "\n")
  print_scalar (json_raw s) depth dashes in_list = print_raw s
  print_scalar (json_array js) depth dashes in_list = fails
  print_scalar (json_object js) depth dashes in_list = fails

  unfoldable mutual
    unfolding ◌>=>◌ done print_key print_scalar

    pub print_value : Json doubles.Double → ℕ → ℕ → Bool → B → Try B
    print_value (json_array js) depth dashes in_list = print_array js depth dashes
    print_value (json_object js) depth dashes in_list = print_object js depth dashes in_list
    print_value j depth dashes in_list = print_scalar j depth dashes in_list

    -- An empty array is "[]".
    pub print_array : Items doubles.Double → ℕ → ℕ → B → Try B
    print_array no_item depth dashes = push (codes "[]\n")
    print_array (item j js) depth dashes =
        print_value j (depth + 1) (dashes + 1) true >=> print_items js depth 0

    pub print_items : Items doubles.Double → ℕ → ℕ → B → Try B
    print_items no_item depth dashes = done
    print_items (item j js) depth dashes =
        print_value j (depth + 1) (dashes + 1) true >=> print_items js depth 0

    -- An empty object is "{}".
    pub print_object : Fields doubles.Double → ℕ → ℕ → Bool → B → Try B
    print_object no_field depth dashes in_list = push (codes "{}\n")
    print_object (field k j js) depth dashes in_list =
        print_key k depth dashes in_list
        >=> print_member j depth dashes in_list
        >=> print_fields js depth 0 in_list

    pub print_fields : Fields doubles.Double → ℕ → ℕ → Bool → B → Try B
    print_fields no_field depth dashes in_list = done
    print_fields (field k j js) depth dashes in_list =
        print_key k depth dashes in_list
        >=> print_member j depth dashes in_list
        >=> print_fields js depth 0 in_list

    -- What follows a key.
    pub print_member : Json doubles.Double → ℕ → ℕ → Bool → B → Try B
    print_member (json_object js) depth dashes in_list = print_object_member js depth dashes in_list
    print_member (json_array js) depth dashes in_list = print_array_member js depth dashes
    print_member j depth dashes in_list = push (codes " ") >=> print_scalar j 0 0 false

    pub print_object_member : Fields doubles.Double → ℕ → ℕ → Bool → B → Try B
    print_object_member no_field depth dashes in_list = push (codes " {}\n")
    print_object_member (field k j js) depth dashes in_list =
        push (codes "\n")
        >=> print_key k (depth + 1) dashes in_list
        >=> print_member j (depth + 1) dashes in_list
        >=> print_fields js (depth + 1) 0 in_list

    pub print_array_member : Items doubles.Double → ℕ → ℕ → B → Try B
    print_array_member no_item depth dashes = push (codes " []\n")
    print_array_member (item j js) depth dashes =
        push (codes "\n")
        >=> print_value j (depth + 2) (dashes + 1) true
        >=> print_items js (depth + 1) 0

  pub is_array : Json doubles.Double → Bool
  is_array (json_array js) = true
  is_array _ = false

  -- cYAML_Print, from the first push on
  pub print_document : Json doubles.Double → B → Try B
  unfolding ◌>=>◌ is_array print_value
  print_document j = push (codes "---\n") >=> print_value j (if is_array j then 1 else 0) 0 false
