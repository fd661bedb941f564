-- ===== src/Shared/Text.antt =====
-- Strings of the source: `===` on them, and the truth of an optional string (the empty string
-- is false).
use Prim.Native.String.{String}
use text.Mathlib.Text.{◌==◌ as str_eq}
use text.Mathlib.TextEquality.{eq_iff}
use tamam.Prelude.{Bool, false, not, Option, none, some}
use tamam.Prelude.Data.{◌===◌, Eq}

instance abbrev pub string_eq : Eq String
string_eq = record { beq = str_eq; beq_iff = eq_iff }

-- `!!value` of a `string | undefined`
abbrev pub has_text : Option String → Bool
has_text none = false
has_text (some s) = not (s === "")
