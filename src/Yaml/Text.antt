-- ===== src/Yaml/Text.antt =====
-- The specification of the buffer: a text that grows.
use ipctool.Base.{Bool, [], ◌++◌}
use ipctool.Base.Bytes.{Bytes}
use ipctool.Yaml.{Try, ok, Doubles, Json, print_document}

unfoldable pub put : Bytes → Bytes → Try Bytes
put s text = ok (text ++ s)

-- The text of a document.
unfoldable pub document : Bool → (doubles : Doubles) → Json doubles.Double → Try Bytes
unfolding put print_document
document signed doubles j = print_document put signed doubles j []
