-- ===== src/Prelude/Strings.antt =====
-- Text as a list of UTF-16 code units, and `String.prototype.trim`.
use Prim.Native.Nat.{ℕ}
use Prim.Native.Char.{code}
use Prim.Native.String.{String}
use mathlib.Core.Path.{◌≡◌, refl}
use mathlib.Core.List.{List, [], ◌∷◌, reverse}
use mathlib.Core.Option.{Option, none, some}
use mathlib.Core.Bool.{Bool, ◌&&◌, ◌||◌}
use wer_te_backend.Prelude.Tests.{leb, if◌then◌else◌}
use wer_te_backend.Prelude.Lists.{includes}

abbrev pub Text : Type 0
Text = List ℕ

-- The code units of an ASCII literal.
abbrev pub codes : String → Text
codes String.[] = []
codes (String.◌∷◌ c s) = code c ∷ codes s

-- The white space and line terminators of ECMAScript.
is_space : ℕ → Bool
is_space c =
    (leb 9 c && leb c 13)
    || (leb 0x2000 c && leb c 0x200a)
    || includes (32 ∷ 160 ∷ 0x1680 ∷ 0x2028 ∷ 0x2029 ∷ 0x202f ∷ 0x205f ∷ 0x3000 ∷ 0xfeff ∷ []) c

trim_start : Text → Text
unfolding is_space includes
trim_start [] = []
trim_start (c ∷ s) = if is_space c then trim_start s else c ∷ s

unfoldable pub trim : Text → Text
unfolding trim_start
trim s = reverse (trim_start (reverse (trim_start s)))

-- The services' `normalizeOptionalString`: trimmed, and null if nothing is left.
unfoldable pub normalize_optional_string : Option Text → Option Text
unfolding trim
normalize_optional_string none = none
normalize_optional_string (some s) = elim (trim s) [ [] ↦ none | c ∷ t ↦ some (c ∷ t) ]

trim_both_ends : trim (codes "  late rider ") ≡ codes "late rider"
unfolding trim
trim_both_ends = refl

blank_is_null : normalize_optional_string (some (codes "   ")) ≡ none
unfolding normalize_optional_string
blank_is_null = refl
