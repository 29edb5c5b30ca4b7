-- ===== src/Tests/YamlRuns.antt =====
-- Printing as YAML (src/cjson/cYAML.c) with whole numbers for doubles.
use ipctool.Base.{ℕ, true, false, some, [], ◌∷◌, ◌++◌, ◌≡◌, inl, refl, arith}
use ipctool.Base.Bytes.{Bytes, codes}
use ipctool.Base.Format.{decimal}
use ipctool.Yaml.{
  ok, failed, Doubles, Json, json_string, json_object, json_array, item, no_item, field, no_field,
  print_string, needs_escaping,
}
use ipctool.Yaml.Buffer.{Heap, Sim, cyaml_print}
use ipctool.Yaml.Text.{put, document}
use ipctool.Yaml.Simulation.{cyaml_print-Sim}
use ipctool.Yaml.Reader.{read_scalar, readable}
use ipctool.Yaml.Scalar.{print_string-read, print_string-high}

abbrev whole : Doubles
whole = record {
  Double = ℕ;
  is_finite = λ d. true;
  short_form = decimal;
  long_form = decimal;
  scans_back = λ s d. true;
}

abbrev rich : Heap
rich = record { grants = λ n. true; junk = 0xa5 }

abbrev chip : Json ℕ
chip = json_object (
    field (some (codes "chip")) (json_array (item (json_string (some (codes "a:b"))) no_item))
      no_field)

cyaml_print-Sim_example : Sim rich (cyaml_print rich false whole chip) (document false whole chip)
cyaml_print-Sim_example = cyaml_print-Sim rich false whole chip

readable-chip : readable (codes "a:b") ≡ true
unfolding readable codes needs_escaping
readable-chip = refl

print_string-read_example :
    (written : Bytes) × (print_string put false whole (some (codes "a:b")) [] ≡ ok ([] ++ written))
    × (read_scalar written ≡ some (codes "a:b"))
print_string-read_example = print_string-read whole (codes "a:b") [] readable-chip

print_string-high_example : print_string put true whole (some (0xc3 ∷ 0xa9 ∷ [])) [] ≡ failed
print_string-high_example = print_string-high whole (0xc3 ∷ 0xa9 ∷ []) [] (inl (omega arith))
