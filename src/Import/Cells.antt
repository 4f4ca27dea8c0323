-- ===== src/Import/Cells.antt =====
-- What utils/excel.go uses of the standard library on the text of a cell: `strings.TrimSpace` and
-- `strconv.Atoi`.
use Prim.Native.String.{[] as no_chars, ◌∷◌ as char_then, String}
use Prim.Native.Char.{Char, code}
use student_service.Common.{
  ℕ, zero, suc, ◌+◌, ◌*◌, ◌-◌, ◌^◌, ℤ, pos, negsuc, ◌≡◌, refl, Bool, false, ◌&&◌, ◌||◌, Option,
  none, some, ltb, leb, ◌==◌, if◌then◌else◌, Bool-cases, inl, inr, ap, ◌∙◌,
}

-- `unicode.IsSpace`.
abbrev pub is_space : Char → Bool
is_space c =
    let n = code c in
    (leb 9 n && leb n 13)
    || n == 32
    || n == 133
    || n == 160
    || n == 5760
    || (leb 8192 n && leb n 8202)
    || n == 8232
    || n == 8233
    || n == 8239
    || n == 8287
    || n == 12288

unfoldable pub trim_left : String → String
trim_left no_chars = no_chars
trim_left (char_then c s) = let rest = trim_left s in if is_space c then rest else char_then c s

-- A space goes if nothing but spaces follows it.
abbrev pub join_right : Char → String → String
join_right c no_chars = if is_space c then no_chars else char_then c no_chars
join_right c (char_then d s) = char_then c (char_then d s)

unfoldable pub trim_right : String → String
trim_right no_chars = no_chars
trim_right (char_then c s) = join_right c (trim_right s)

unfoldable pub trim_space : String → String
trim_space s = trim_right (trim_left s)

-- The value of a run of decimal digits, after `n`.
unfoldable pub digits_from : ℕ → String → Option ℕ
digits_from n no_chars = some n
digits_from n (char_then c s) =
    let rest = digits_from (n * 10 + (code c - 48)) s in
    if leb 48 (code c) && leb (code c) 57 then rest else none

abbrev pub digits : String → Option ℕ
digits no_chars = none
digits (char_then c s) = digits_from 0 (char_then c s)

-- In the range of an int64, or else an error.
abbrev pub positive_int : Option ℕ → Option ℤ
positive_int none = none
positive_int (some n) = if ltb n (2 ^ 63) then some (pos n) else none

abbrev pub negative_int : Option ℕ → Option ℤ
negative_int none = none
negative_int (some zero) = some (pos 0)
negative_int (some (suc n)) = if ltb n (2 ^ 63) then some (negsuc n) else none

unfoldable pub atoi : String → Option ℤ
atoi no_chars = none
atoi (char_then c s) =
    if code c == 43
    then positive_int (digits s)
    else if code c == 45
    then negative_int (digits s)
    else positive_int (digits (char_then c s))

join_right-trimmed :
    (c : Char) (t : String) → trim_right t ≡ t → trim_right (join_right c t) ≡ join_right c t
unfolding trim_right
join_right-trimmed c no_chars h = elim (Bool-cases (is_space c)) [
  | inl e ↦ rw e refl
  | inr e ↦ rw (e, trim_right) (rw e refl)
]
join_right-trimmed c (char_then d t) h = ap (join_right c) h

trim_right_twice : (s : String) → trim_right (trim_right s) ≡ trim_right s
unfolding trim_right
trim_right_twice no_chars = refl
trim_right_twice (char_then c s) = join_right-trimmed c (trim_right s) (trim_right_twice s)

-- No space stands in front.
abbrev LeftTrimmed : String → Type 0
LeftTrimmed no_chars = Unit
LeftTrimmed (char_then c s) = is_space c ≡ false

trim_left-LeftTrimmed : (s : String) → LeftTrimmed (trim_left s)
unfolding trim_left
trim_left-LeftTrimmed no_chars = tt
trim_left-LeftTrimmed (char_then c s) = elim (Bool-cases (is_space c)) [
  | inl e ↦ rw e (trim_left-LeftTrimmed s)
  | inr e ↦ rw e e
]

trim_left-fixed : (s : String) → LeftTrimmed s → trim_left s ≡ s
unfolding trim_left
trim_left-fixed no_chars h = refl
trim_left-fixed (char_then c s) h = rw h refl

join_right-LeftTrimmed : (c : Char) (t : String) → is_space c ≡ false → LeftTrimmed (join_right c t)
join_right-LeftTrimmed c no_chars h = rw h h
join_right-LeftTrimmed c (char_then d t) h = h

trim_right-LeftTrimmed : (s : String) → LeftTrimmed s → LeftTrimmed (trim_right s)
unfolding trim_right
trim_right-LeftTrimmed no_chars h = tt
trim_right-LeftTrimmed (char_then c s) h = join_right-LeftTrimmed c (trim_right s) h

-- Trimming again changes nothing.
pub trim_space_twice : (s : String) → trim_space (trim_space s) ≡ trim_space s
unfolding trim_space
trim_space_twice s =
    ap trim_right
      (trim_left-fixed _ (trim_right-LeftTrimmed (trim_left s) (trim_left-LeftTrimmed s)))
    ∙ trim_right_twice (trim_left s)

pub trim_space_empty : trim_space "" ≡ ""
unfolding trim_space trim_left trim_right
trim_space_empty = refl
