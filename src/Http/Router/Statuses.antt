-- ===== src/Http/Router/Statuses.antt =====
-- utils/response.go: the statuses that the responses of the handlers have.
use student_service.Common.{
  ℕ, ℤ, ◌≡◌, refl, ◌==◌, Bool, true, false, Option, none, some, List, [], ◌∷◌, any, String, str_eq,
  arith, Bool-cases, inl, inr,
}
use student_service.Model.{Student}
use student_service.Result.{Error, Result, ok, err}
use student_service.Http.{
  Server, Response, Context, page_response, student_response, score_response, import_response,
}
use student_service.Http.Observed.{Answer}

-- An answer has one of some statuses, if it is given.
abbrev pub answered_in : {S : Type 0} → List ℕ → Option (Response S) → Bool
answered_in codes none = true
answered_in codes (some r) = any (λ c. c == r.code) codes

-- The status of success.
abbrev pub is_success : {S : Type 0} → Option (Response S) → Bool
is_success none = false
is_success (some r) = r.code == 200

module _ {Q S Seed Db R K L F W : Type 0} (x : Context Q S Seed Db R K L F W) where
  -- One of some statuses, and no record made.
  abbrev pub Statuses : List ℕ → Server S Seed Db R K L → Answer x → Type 0
  Statuses codes s a =
      (answered_in codes a.0 ≡ true) × ((a.1.metrics ≡ s.metrics) × (a.1.access_log ≡ s.access_log))

pub page_response-answered :
    {S : Type 0} (size : ℤ) (r : Result (List (Student S) × ℤ × Bool))
    → answered_in (200 ∷ 400 ∷ 500 ∷ []) (some (page_response size r)) ≡ true
page_response-answered size (ok (ss, last, more)) = refl
page_response-answered size (err e) = refl

pub student_response-answered :
    {S : Type 0} (special : String) (code : ℕ) (r : Result (Student S))
    → answered_in (200 ∷ 400 ∷ code ∷ 500 ∷ []) (some (student_response special code r)) ≡ true
student_response-answered special code (ok s) = refl
student_response-answered special code (err e) = elim (Bool-cases (str_eq e.text special)) [
  | inl h ↦ ground arith
  | inr h ↦ ground arith
]

pub score_response-answered :
    (S : Type 0) (r : Option Error)
    → answered_in {S = S} (200 ∷ 400 ∷ 500 ∷ []) (some (score_response r)) ≡ true
score_response-answered S none = refl
score_response-answered S (some e) = refl

pub import_response-answered :
    (S : Type 0) (r : ℕ × ℕ × Option Error)
    → answered_in {S = S} (200 ∷ 400 ∷ 500 ∷ []) (some (import_response r)) ≡ true
import_response-answered S (total, sent, none) = refl
import_response-answered S (total, sent, some e) = refl
