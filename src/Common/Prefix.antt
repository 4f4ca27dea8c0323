-- ===== src/Common/Prefix.antt =====
-- Texts behind a common prefix.
use Prim.Native.Nat.{ℕ, zero, suc}
use Prim.Native.String.{[] as no_chars, ◌∷◌ as char_then}
use Prim.Native.String.append.{nil, cons}
use mathlib.Core.Bool.{true}
use mathlib.Core.Path.{◌≡◌, sym, ap, ◌∙◌}
use mathlib.Core.Logic.{inl, inr}
use student_service.Common.Text.{String, text_append, str_eq, str_eq_iff, str_eq_refl}
use student_service.Common.Tests.{Bool-cases}

-- A text without its first characters.
abbrev past : ℕ → String → String
past zero s = s
past (suc n) no_chars = no_chars
past (suc n) (char_then c s) = past n s

-- How many characters a text has.
abbrev size : String → ℕ
size no_chars = 0
size (char_then c s) = suc (size s)

past-append : (p s : String) → past (size p) (text_append p s) ≡ s
past-append no_chars s = nil s
past-append (char_then c p) s = ap (past (suc (size p))) (cons c p s) ∙ past-append p s

-- What stands behind a prefix is determined by the whole.
pub append-cancels : (p s t : String) → text_append p s ≡ text_append p t → s ≡ t
append-cancels p s t h = sym (past-append p s) ∙ ap (past (size p)) h ∙ past-append p t

-- Two texts behind a prefix are equal as they are without it.
pub str_eq-append : (p s t : String) → str_eq (text_append p s) (text_append p t) ≡ str_eq s t
str_eq-append p s t = elim (Bool-cases (str_eq s t)) [
  | inl e ↦
      ap (λ x. str_eq (text_append p s) (text_append p x)) (sym ((str_eq_iff s t).0 e))
      ∙ str_eq_refl (text_append p s)
      ∙ sym e
  | inr e ↦ elim (Bool-cases (str_eq (text_append p s) (text_append p t))) [
    | inr f ↦ f ∙ sym e
    | inl f ↦
        let same : s ≡ t = append-cancels p s t ((str_eq_iff _ _).0 f) in
        let yes_same : str_eq s t ≡ true = ap (str_eq s) (sym same) ∙ str_eq_refl s in absurd (cc)
  ]
]
