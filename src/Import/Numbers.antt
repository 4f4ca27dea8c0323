-- ===== src/Import/Numbers.antt =====
-- What `%d` prints of an `int`, `strconv.Atoi` reads.
use Prim.Native.String.{[] as no_chars, ◌∷◌ as char_then, String}
use Prim.Native.String.append.{nil, cons}
use Prim.Native.Char.{code}
use student_service.Common.{
  ℕ, zero, suc, ◌+◌, ◌-◌, ◌*◌, ◌/◌, ◌%◌, ◌^◌, ◌≤◌, ◌<◌, ℤ, pos, negsuc, pos_part, neg_part, ◌≡◌,
  refl, ap, ◌∙◌, Bool, true, false, ◌&&◌, ◌==◌, leb, ltb, Option, none, some, text_append, show_int,
  show_from, digit, Bool-cases, inl, inr, arith,
}
use student_service.Import.Cells.{atoi, digits_from, positive_int, negative_int}

-- What the digits of a text make of a value before them.
abbrev after : Option ℕ → String → Option ℕ
after none t = none
after (some n) t = digits_from n t

digits_from-append :
    (n : ℕ) (s t : String) → digits_from n (text_append s t) ≡ after (digits_from n s) t
unfolding digits_from
digits_from-append n no_chars t = ap (digits_from n) (nil t)
digits_from-append n (char_then c s) t =
    ap (digits_from n) (cons c s t) ∙ elim (Bool-cases (leb 48 (code c) && leb (code c) 57)) [
      | inl e ↦ rw (digits_from, e) (digits_from-append (n * 10 + (code c - 48)) s t)
      | inr e ↦ rw (digits_from, e) refl
    ]

digits_from-digit : (n d : ℕ) → d < 10 → digits_from n (digit d) ≡ some (n * 10 + d)
unfolding digits_from digit
digits_from-digit n zero h = refl
digits_from-digit n (suc zero) h = refl
digits_from-digit n (suc (suc zero)) h = refl
digits_from-digit n (suc (suc (suc zero))) h = refl
digits_from-digit n (suc (suc (suc (suc zero)))) h = refl
digits_from-digit n (suc (suc (suc (suc (suc zero))))) h = refl
digits_from-digit n (suc (suc (suc (suc (suc (suc zero)))))) h = refl
digits_from-digit n (suc (suc (suc (suc (suc (suc (suc zero))))))) h = refl
digits_from-digit n (suc (suc (suc (suc (suc (suc (suc (suc zero)))))))) h = refl
digits_from-digit n (suc (suc (suc (suc (suc (suc (suc (suc (suc zero))))))))) h = refl
digits_from-digit n (suc (suc (suc (suc (suc (suc (suc (suc (suc (suc d)))))))))) h =
    absurd (omega arith)

-- The digits of a number give the number.
digits_from-show_from : (fuel n : ℕ) → n < fuel → digits_from 0 (show_from fuel n) ≡ some n
unfolding show_from
digits_from-show_from zero n h = absurd (omega arith)
digits_from-show_from (suc fuel) n h = elim (Bool-cases (ltb n 10)) [
  | inl e ↦ rw (show_from, e) (digits_from-digit 0 n (ground arith) ∙ ap some (omega arith))
  | inr e ↦
      let smaller : n / 10 < fuel = ground arith in
      rw (show_from, e)
        (digits_from-append 0 (show_from fuel (n / 10)) (digit (n % 10))
          ∙ ap (λ o. after o (digit (n % 10))) (digits_from-show_from fuel (n / 10) smaller)
          ∙ digits_from-digit (n / 10) (n % 10) (omega arith)
          ∙ ap some (omega arith))
]

-- The text begins with a digit.
abbrev begins_with_digit : String → Bool
begins_with_digit no_chars = false
begins_with_digit (char_then c s) = leb 48 (code c)

begins_with_digit-append :
    (s t : String) → begins_with_digit s ≡ true → begins_with_digit (text_append s t) ≡ true
begins_with_digit-append no_chars t h = absurd (cc)
begins_with_digit-append (char_then c s) t h = ap begins_with_digit (cons c s t) ∙ h

begins_with_digit-digit : (d : ℕ) → d < 10 → begins_with_digit (digit d) ≡ true
unfolding digit
begins_with_digit-digit zero h = refl
begins_with_digit-digit (suc zero) h = refl
begins_with_digit-digit (suc (suc zero)) h = refl
begins_with_digit-digit (suc (suc (suc zero))) h = refl
begins_with_digit-digit (suc (suc (suc (suc zero)))) h = refl
begins_with_digit-digit (suc (suc (suc (suc (suc zero))))) h = refl
begins_with_digit-digit (suc (suc (suc (suc (suc (suc zero)))))) h = refl
begins_with_digit-digit (suc (suc (suc (suc (suc (suc (suc zero))))))) h = refl
begins_with_digit-digit (suc (suc (suc (suc (suc (suc (suc (suc zero)))))))) h = refl
begins_with_digit-digit (suc (suc (suc (suc (suc (suc (suc (suc (suc zero))))))))) h = refl
begins_with_digit-digit (suc (suc (suc (suc (suc (suc (suc (suc (suc (suc d)))))))))) h =
    absurd (omega arith)

begins_with_digit-show_from : (fuel n : ℕ) → n < fuel → begins_with_digit (show_from fuel n) ≡ true
unfolding show_from
begins_with_digit-show_from zero n h = absurd (omega arith)
begins_with_digit-show_from (suc fuel) n h = elim (Bool-cases (ltb n 10)) [
  | inl e ↦ rw (show_from, e) (begins_with_digit-digit n (ground arith))
  | inr e ↦
      let smaller : n / 10 < fuel = ground arith in
      rw (show_from, e)
        (begins_with_digit-append (show_from fuel (n / 10)) (digit (n % 10))
          (begins_with_digit-show_from fuel (n / 10) smaller))
]

-- A text of digits is read without a sign.
atoi-positive :
    (s : String) (n : ℕ)
    → begins_with_digit s ≡ true
    → digits_from 0 s ≡ some n
    → n < 2 ^ 63
    → atoi s ≡ some (pos n)
unfolding atoi
atoi-positive no_chars n b d h = absurd (cc)
atoi-positive (char_then c s) n b d h =
    let not_plus : code c == 43 ≡ false = ground arith in
    let not_minus : code c == 45 ≡ false = ground arith in
    let less : ltb n (2 ^ 63) ≡ true = ground arith in
    rw (atoi, not_plus, not_minus) (ap positive_int d ∙ rw less refl)

atoi-negative :
    (s : String) (n : ℕ)
    → begins_with_digit s ≡ true
    → digits_from 0 s ≡ some (suc n)
    → n < 2 ^ 63
    → atoi (text_append "-" s) ≡ some (negsuc n)
unfolding atoi
atoi-negative no_chars n b d h = absurd (cc)
atoi-negative (char_then c s) n b d h =
    let less : ltb n (2 ^ 63) ≡ true = ground arith in
    ap atoi (cons "-" "" (char_then c s) ∙ ap (char_then "-") (nil (char_then c s)))
    ∙ ap negative_int d
    ∙ rw less refl

-- An `int` that is printed and read again is the same.
pub atoi-show_int : (z : ℤ) → pos_part z < 2 ^ 63 → neg_part z ≤ 2 ^ 63 → atoi (show_int z) ≡ some z
unfolding show_int
atoi-show_int (pos n) h k =
    atoi-positive (show_from (suc n) n) n (begins_with_digit-show_from (suc n) n (omega arith))
      (digits_from-show_from (suc n) n (omega arith)) h
atoi-show_int (negsuc n) h k =
    atoi-negative (show_from (suc (suc n)) (suc n)) n
      (begins_with_digit-show_from (suc (suc n)) (suc n) (omega arith))
      (digits_from-show_from (suc (suc n)) (suc n) (omega arith)) (omega arith)
