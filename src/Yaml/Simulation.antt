-- ===== src/Yaml/Simulation.antt =====
-- Printing into the string buffer against printing onto a text.
use ipctool.Base.{ℕ, zero, suc, ◌+◌, Bool, true, false, Option, none, some, [], ◌∷◌, if◌then◌else◌}
use ipctool.Base.Bytes.{Bytes}
use ipctool.Yaml.{
  Try, try_then, Doubles, Json, json_null, json_false, json_true, json_unknown, json_number,
  json_string, json_raw, json_array, json_object, Items, no_item, item, Fields, no_field, field,
  done, fails, ◌>=>◌, print_char, print_chars, quoted, print_string, print_number, repeat,
  do_indent, print_raw, print_key, print_scalar, print_value, print_array, print_items,
  print_object, print_fields, print_member, print_document,
}
use ipctool.Yaml.Buffer.{
  NewBuffer, strbuf_new-NewBuffer, into, cyaml_print, StringBuffer, Heap, strbuf_new, strbuf_push,
  Holds, Sim, both, no_memory, both_failed, strbuf_push-Sim,
}
use ipctool.Yaml.Text.{put, document}

module _ (heap : Heap) (signed : Bool) (doubles : Doubles) where
  Simulates : (StringBuffer → Try StringBuffer) → (Bytes → Try Bytes) → Type 0
  Simulates p q = (buf : StringBuffer) (text : Bytes) → Holds buf text → Sim heap (p buf) (q text)

  push-Simulates : (s : Bytes) → Simulates (strbuf_push heap s) (put s)
  unfolding Simulates put
  push-Simulates s buf text held = strbuf_push-Sim heap s buf text held

  done-Simulates : Simulates (done (strbuf_push heap) signed doubles) (done put signed doubles)
  unfolding Simulates done
  done-Simulates buf text held = both buf text held

  fails-Simulates : Simulates (fails (strbuf_push heap) signed doubles) (fails put signed doubles)
  unfolding Simulates fails
  fails-Simulates buf text held = both_failed

  try_then-Sim :
      (r : Try StringBuffer) (t : Try Bytes) (g : StringBuffer → Try StringBuffer)
      (k : Bytes → Try Bytes)
      → Sim heap r t
      → Simulates g k
      → Sim heap (try_then r g) (try_then t k)
  unfolding try_then Simulates
  try_then-Sim _ _ g k (both buf text held) h = h buf text held
  try_then-Sim _ t g k (no_memory n _ e) h = no_memory n (try_then t k) e
  try_then-Sim _ _ g k both_failed h = both_failed

  then-Simulates :
      (p g : StringBuffer → Try StringBuffer) (q k : Bytes → Try Bytes)
      → Simulates p q
      → Simulates g k
      → Simulates (◌>=>◌ (strbuf_push heap) signed doubles p g) (◌>=>◌ put signed doubles q k)
  unfolding ◌>=>◌ Simulates
  then-Simulates p g q k h h' buf text held = try_then-Sim (p buf) (q text) g k (h buf text held) h'

  if-Simulates :
      (b : Bool) (p g : StringBuffer → Try StringBuffer) (q k : Bytes → Try Bytes)
      → Simulates p q
      → Simulates g k
      → Simulates (if b then p else g) (if b then q else k)
  if-Simulates true p g q k h h' = h
  if-Simulates false p g q k h h' = h'

  ruleset simulations =
      (push-Simulates, done-Simulates, fails-Simulates, then-Simulates, if-Simulates)

  repeat-Simulates :
      (n : ℕ) (p : StringBuffer → Try StringBuffer) (q : Bytes → Try Bytes)
      → Simulates p q
      → Simulates (repeat (strbuf_push heap) signed doubles n p) (repeat put signed doubles n q)
  unfolding repeat
  repeat-Simulates zero p q h = search simulations depth 5
  repeat-Simulates (suc n) p q h = search (simulations, h, repeat-Simulates n p q h) depth 5

  print_char-Simulates :
      (c : ℕ) (r : Option ℕ)
      → Simulates
          (print_char (strbuf_push heap) signed doubles c r)
          (print_char put signed doubles c r)
  unfolding print_char
  print_char-Simulates c none = search simulations depth 10
  print_char-Simulates c (some r) = search simulations depth 10

  print_chars-Simulates :
      (s : Bytes)
      → Simulates
          (print_chars (strbuf_push heap) signed doubles s)
          (print_chars put signed doubles s)
  unfolding print_chars
  print_chars-Simulates [] = search simulations depth 5
  print_chars-Simulates (c ∷ s) =
      search (simulations, print_char-Simulates, print_chars-Simulates s) depth 5

  print_string-Simulates :
      (s : Option Bytes)
      → Simulates
          (print_string (strbuf_push heap) signed doubles s)
          (print_string put signed doubles s)
  unfolding print_string quoted
  print_string-Simulates none = search simulations depth 5
  print_string-Simulates (some []) = search simulations depth 5
  print_string-Simulates (some (c ∷ s)) = search (simulations, print_chars-Simulates) depth 10

  print_number-Simulates :
      (d : doubles.Double)
      → Simulates
          (print_number (strbuf_push heap) signed doubles d)
          (print_number put signed doubles d)
  unfolding print_number
  print_number-Simulates d = search simulations depth 20

  do_indent-Simulates :
      (depth dashes : ℕ) (in_list : Bool)
      → Simulates
          (do_indent (strbuf_push heap) signed doubles depth dashes in_list)
          (do_indent put signed doubles depth dashes in_list)
  unfolding do_indent
  do_indent-Simulates depth dashes in_list = search (simulations, repeat-Simulates) depth 10

  print_raw-Simulates :
      (s : Option Bytes)
      → Simulates (print_raw (strbuf_push heap) signed doubles s) (print_raw put signed doubles s)
  unfolding print_raw
  print_raw-Simulates none = search simulations depth 5
  print_raw-Simulates (some s) = search simulations depth 5

  ruleset parts = (
    simulations, print_string-Simulates, print_number-Simulates, do_indent-Simulates,
    print_raw-Simulates,
  )

  print_key-Simulates :
      (k : Option Bytes) (depth dashes : ℕ) (in_list : Bool)
      → Simulates
          (print_key (strbuf_push heap) signed doubles k depth dashes in_list)
          (print_key put signed doubles k depth dashes in_list)
  unfolding print_key
  print_key-Simulates none depth dashes in_list = search parts depth 5
  print_key-Simulates (some k) depth dashes in_list = search parts depth 10

  print_scalar-Simulates :
      (j : Json doubles.Double) (depth dashes : ℕ) (in_list : Bool)
      → Simulates
          (print_scalar (strbuf_push heap) signed doubles j depth dashes in_list)
          (print_scalar put signed doubles j depth dashes in_list)
  unfolding print_scalar
  print_scalar-Simulates json_null depth dashes in_list = search parts depth 10
  print_scalar-Simulates json_false depth dashes in_list = search parts depth 10
  print_scalar-Simulates json_true depth dashes in_list = search parts depth 10
  print_scalar-Simulates json_unknown depth dashes in_list = search parts depth 10
  print_scalar-Simulates (json_number d) depth dashes in_list = search parts depth 10
  print_scalar-Simulates (json_string s) depth dashes in_list = search parts depth 10
  print_scalar-Simulates (json_raw s) depth dashes in_list = search parts depth 10
  print_scalar-Simulates (json_array js) depth dashes in_list = search parts depth 10
  print_scalar-Simulates (json_object js) depth dashes in_list = search parts depth 10

  mutual
    unfolding print_value

    print_value-Simulates :
        (j : Json doubles.Double) (depth dashes : ℕ) (in_list : Bool)
        → Simulates
            (print_value (strbuf_push heap) signed doubles j depth dashes in_list)
            (print_value put signed doubles j depth dashes in_list)
    print_value-Simulates (json_array js) depth dashes in_list =
        print_array-Simulates js depth dashes
    print_value-Simulates (json_object js) depth dashes in_list =
        print_object-Simulates js depth dashes in_list
    print_value-Simulates json_null depth dashes in_list =
        print_scalar-Simulates json_null depth dashes in_list
    print_value-Simulates json_false depth dashes in_list =
        print_scalar-Simulates json_false depth dashes in_list
    print_value-Simulates json_true depth dashes in_list =
        print_scalar-Simulates json_true depth dashes in_list
    print_value-Simulates json_unknown depth dashes in_list =
        print_scalar-Simulates json_unknown depth dashes in_list
    print_value-Simulates (json_number d) depth dashes in_list =
        print_scalar-Simulates (json_number d) depth dashes in_list
    print_value-Simulates (json_string s) depth dashes in_list =
        print_scalar-Simulates (json_string s) depth dashes in_list
    print_value-Simulates (json_raw s) depth dashes in_list =
        print_scalar-Simulates (json_raw s) depth dashes in_list

    print_array-Simulates :
        (js : Items doubles.Double) (depth dashes : ℕ)
        → Simulates
            (print_array (strbuf_push heap) signed doubles js depth dashes)
            (print_array put signed doubles js depth dashes)
    print_array-Simulates no_item depth dashes = search parts depth 5
    print_array-Simulates (item j js) depth dashes =
        search
          (
            parts,
            print_value-Simulates j (depth + 1) (dashes + 1) true,
            print_items-Simulates js depth 0,
          )
          depth 5

    print_items-Simulates :
        (js : Items doubles.Double) (depth dashes : ℕ)
        → Simulates
            (print_items (strbuf_push heap) signed doubles js depth dashes)
            (print_items put signed doubles js depth dashes)
    print_items-Simulates no_item depth dashes = search parts depth 5
    print_items-Simulates (item j js) depth dashes =
        search
          (
            parts,
            print_value-Simulates j (depth + 1) (dashes + 1) true,
            print_items-Simulates js depth 0,
          )
          depth 5

    print_object-Simulates :
        (js : Fields doubles.Double) (depth dashes : ℕ) (in_list : Bool)
        → Simulates
            (print_object (strbuf_push heap) signed doubles js depth dashes in_list)
            (print_object put signed doubles js depth dashes in_list)
    print_object-Simulates no_field depth dashes in_list = search parts depth 5
    print_object-Simulates (field k j js) depth dashes in_list =
        search
          (
            parts,
            print_key-Simulates,
            print_member-Simulates j depth dashes in_list,
            print_fields-Simulates js depth 0 in_list,
          )
          depth 8

    print_fields-Simulates :
        (js : Fields doubles.Double) (depth dashes : ℕ) (in_list : Bool)
        → Simulates
            (print_fields (strbuf_push heap) signed doubles js depth dashes in_list)
            (print_fields put signed doubles js depth dashes in_list)
    print_fields-Simulates no_field depth dashes in_list = search parts depth 5
    print_fields-Simulates (field k j js) depth dashes in_list =
        search
          (
            parts,
            print_key-Simulates,
            print_member-Simulates j depth dashes in_list,
            print_fields-Simulates js depth 0 in_list,
          )
          depth 8

    print_member-Simulates :
        (j : Json doubles.Double) (depth dashes : ℕ) (in_list : Bool)
        → Simulates
            (print_member (strbuf_push heap) signed doubles j depth dashes in_list)
            (print_member put signed doubles j depth dashes in_list)
    print_member-Simulates (json_object no_field) depth dashes in_list = search parts depth 5
    print_member-Simulates (json_object (field k j js)) depth dashes in_list =
        search
          (
            parts,
            print_key-Simulates,
            print_member-Simulates j (depth + 1) dashes in_list,
            print_fields-Simulates js (depth + 1) 0 in_list,
          )
          depth 8
    print_member-Simulates (json_array no_item) depth dashes in_list = search parts depth 5
    print_member-Simulates (json_array (item j js)) depth dashes in_list =
        search
          (
            parts,
            print_value-Simulates j (depth + 2) (dashes + 1) true,
            print_items-Simulates js (depth + 1) 0,
          )
          depth 8
    print_member-Simulates json_null depth dashes in_list =
        search (parts, print_scalar-Simulates) depth 5
    print_member-Simulates json_false depth dashes in_list =
        search (parts, print_scalar-Simulates) depth 5
    print_member-Simulates json_true depth dashes in_list =
        search (parts, print_scalar-Simulates) depth 5
    print_member-Simulates json_unknown depth dashes in_list = search parts depth 5
    print_member-Simulates (json_number d) depth dashes in_list =
        search (parts, print_scalar-Simulates) depth 5
    print_member-Simulates (json_string s) depth dashes in_list =
        search (parts, print_scalar-Simulates) depth 5
    print_member-Simulates (json_raw s) depth dashes in_list = search parts depth 5

  print_document-Simulates :
      (j : Json doubles.Double)
      → Simulates
          (print_document (strbuf_push heap) signed doubles j)
          (print_document put signed doubles j)
  unfolding print_document
  print_document-Simulates j = search (parts, print_value-Simulates) depth 5

  from_new :
      (j : Json doubles.Double) (new : Option StringBuffer)
      → NewBuffer heap new
      → Sim heap
          (into new (print_document (strbuf_push heap) signed doubles j))
          (document signed doubles j)
  unfolding into Simulates document
  from_new j none (n, refused) = no_memory n (document signed doubles j) refused
  from_new j (some buf) held = print_document-Simulates j buf [] held

  -- Whatever the allocator grants and fresh memory holds, and whatever the value is: `cYAML_Print`
  -- ends, and writes nothing outside its buffer; it ends as the printing onto a text does, with that
  -- text in the buffer and a 0 behind it, but that it also fails where an allocation was refused.
  pub cyaml_print-Sim :
      (j : Json doubles.Double)
      → Sim heap (cyaml_print heap signed doubles j) (document signed doubles j)
  unfolding cyaml_print
  cyaml_print-Sim j = from_new j (strbuf_new heap) (strbuf_new-NewBuffer heap)
