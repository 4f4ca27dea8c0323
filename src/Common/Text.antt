-- ===== src/Common/Text.antt =====
-- Texts: equality of the native strings, with its laws, and how `fmt.Sprintf("%d", n)` prints.
use Prim.Native.Nat.{ℕ, zero, suc, ◌/◌, ◌%◌}
use Prim.Native.String.{◌++◌ as text_append, [] as no_chars, ◌∷◌ as char_then}
use Prim.Native.Char.{code}
use mathlib.Core.Bool.{Bool, true, false}
use student_service.Common.Tests.{ltb, ◌==◌, if◌then◌else◌}
use student_service.Common.Int.{ℤ, pos, negsuc}
use text.Mathlib.Text.{◌==◌ as str_eq}
pub use text.Mathlib.Text.{◌==◌ as str_eq}
pub use text.Mathlib.TextEquality.{eq_iff as str_eq_iff}
pub use text.Mathlib.TextPositions.{eq_refl as str_eq_refl}
pub use Prim.Native.String.{String, ◌++◌ as text_append}

unfoldable pub digit : ℕ → String
digit d =
    if d == 0
    then "0"
    else if d == 1
    then "1"
    else if d == 2
    then "2"
    else if d == 3
    then "3"
    else if d == 4
    then "4"
    else if d == 5
    then "5"
    else if d == 6
    then "6"
    else if d == 7
    then "7"
    else if d == 8
    then "8"
    else "9"

-- With more fuel than the number has digits.
unfoldable pub show_from : ℕ → ℕ → String
show_from zero n = ""
show_from (suc fuel) n =
    let rest = show_from fuel (n / 10) in
    if ltb n 10 then digit n else text_append rest (digit (n % 10))

unfoldable pub show_int : ℤ → String
unfolding digit show_from
show_int (pos n) = show_from (suc n) n
show_int (negsuc n) = text_append "-" (show_from (suc (suc n)) (suc n))

-- `strings.HasPrefix`, `strings.Contains` and `strings.HasSuffix`.
abbrev pub has_prefix : String → String → Bool
has_prefix s no_chars = true
has_prefix no_chars (char_then d p) = false
has_prefix (char_then c s) (char_then d p) = if code c == code d then has_prefix s p else false

abbrev pub contains : String → String → Bool
contains no_chars p = has_prefix no_chars p
contains (char_then c s) p = if has_prefix (char_then c s) p then true else contains s p

abbrev pub has_suffix : String → String → Bool
has_suffix no_chars p = str_eq no_chars p
has_suffix (char_then c s) p = if str_eq (char_then c s) p then true else has_suffix s p
