-- ===== src/Http/Router/Behind.antt =====
-- What a request is answered with behind the limiter, and what an error leaves unchanged.
use student_service.Common.{
  ℕ, ◌≡◌, refl, ◌==◌, Bool, true, false, Option, none, some, List, [], ◌∷◌, String, str_eq,
  Bool-cases, inl, inr, if◌then◌else◌,
}
use student_service.Store.Rows.{Tables}
use student_service.Store.Laws.{StudentLaws, ClassLaws, MessageLaws, TransactionLaws, SessionLaws}
use student_service.Students.World.{World}
use student_service.Http.{
  Server, Response, Context, handle_all_students, handle_get_student, handle_delete_students,
  handle_student_by_name, handle_add_student, handle_update_student, handle_delete_student,
  handle_add_score_pessimistic, handle_import_students,
}
use student_service.Http.Observed.{Answer}
use student_service.Http.Router.Statuses.{answered_in, is_success, Statuses}
use student_service.Http.Router.Handled.{Handled}
use student_service.Http.Router.ReadsHandled.{
  handle_all_students-Handled, handle_get_student-Handled, handle_delete_students-Handled,
  handle_student_by_name-Handled,
}
use student_service.Http.Router.WritesHandled.{
  handle_add_score_optimistic-Statuses, handle_add_student-Handled, handle_update_student-Handled,
  handle_delete_student-Handled, handle_add_score_pessimistic-Handled,
  handle_import_students-Handled,
}
use student_service.Http.Router.{
  Route, all_students, get_student, deleted_students, search_students, add_student, update_student,
  delete_student, add_score_pessimistic, add_score_optimistic, import_students, in_auth_group,
  behind_token, handler_of, auth_middleware,
}

-- The statuses that the handler of a route answers with, and the route's.
abbrev handler_statuses : Route → List ℕ
handler_statuses get_student = 200 ∷ 400 ∷ 404 ∷ 500 ∷ []
handler_statuses add_student = 200 ∷ 400 ∷ 409 ∷ 500 ∷ []
handler_statuses update_student = 200 ∷ 400 ∷ 404 ∷ 500 ∷ []
handler_statuses delete_student = 200 ∷ 400 ∷ 404 ∷ 500 ∷ []
handler_statuses route = 200 ∷ 400 ∷ 500 ∷ []

abbrev pub token_statuses : Route → List ℕ
token_statuses route =
    if in_auth_group route then 401 ∷ handler_statuses route else handler_statuses route

abbrev pub statuses : Route → List ℕ
statuses route = 429 ∷ token_statuses route

-- All routes but the addition by the version column, which waits while other sessions act.
abbrev pub keeps_on_error : Route → Bool
keeps_on_error add_score_optimistic = false
keeps_on_error route = true

pub more_statuses :
    {S : Type 0} (c : ℕ) (codes : List ℕ) (r : Option (Response S))
    → answered_in codes r ≡ true
    → answered_in (c ∷ codes) r ≡ true
more_statuses c codes none h = refl
more_statuses c codes (some r) h = elim (Bool-cases (c == r.code)) [
  | inl e ↦ rw e refl
  | inr e ↦ rw e h
]

module _ {Q S Seed Db R K L F W : Type 0} (x : Context Q S Seed Db R K L F W)
    (like : String → String → Bool) (is_zero : S → Bool) (view saved : Db → Tables S)
    (messages : MessageLaws x.gorm view) (students : StudentLaws x.gorm like is_zero view)
    (classes : ClassLaws x.gorm view) (transactions : TransactionLaws x.gorm view)
    (sessions : SessionLaws x.gorm view saved)
    (quiet : (v : World S Seed Db R) → view (x.others v).db ≡ view v.db) where
  -- Without success no table has changed, where that is claimed.
  abbrev pub KeptIf : Bool → Tables S → Option (Response S) → World S Seed Db R → Type 0
  KeptIf keeps t r w = keeps ≡ true → is_success r ≡ false → view w.db ≡ t

  abbrev pub HandledIf : Bool → List ℕ → Server S Seed Db R K L → Answer x → Type 0
  HandledIf keeps codes s a = Statuses x codes s a × KeptIf keeps (view s.world.db) a.0 a.1.world

  always :
      (codes : List ℕ) (s : Server S Seed Db R K L) (a : Answer x)
      → Handled x like is_zero view saved messages students classes transactions sessions quiet
          codes s a
      → HandledIf true codes s a
  always codes s a h = (h.0, λ _. h.1)

  handler_of-HandledIf :
      (route : Route) (q : Q) (s : Server S Seed Db R K L)
      → HandledIf (keeps_on_error route) (handler_statuses route) s (handler_of x route q s)
  unfolding handler_of
  handler_of-HandledIf all_students q s =
      always (handler_statuses all_students) s (handle_all_students x q s) (
        handle_all_students-Handled x like is_zero view saved messages students classes transactions
          sessions quiet q s)
  handler_of-HandledIf get_student q s =
      always (handler_statuses get_student) s (handle_get_student x q s) (
        handle_get_student-Handled x like is_zero view saved messages students classes transactions
          sessions quiet q s)
  handler_of-HandledIf deleted_students q s =
      always (handler_statuses deleted_students) s (handle_delete_students x q s) (
        handle_delete_students-Handled x like is_zero view saved messages students classes
          transactions sessions quiet q s)
  handler_of-HandledIf search_students q s =
      always (handler_statuses search_students) s (handle_student_by_name x q s) (
        handle_student_by_name-Handled x like is_zero view saved messages students classes
          transactions sessions quiet q s)
  handler_of-HandledIf add_student q s =
      always (handler_statuses add_student) s (handle_add_student x q s) (
        handle_add_student-Handled x like is_zero view saved messages students classes transactions
          sessions quiet q s)
  handler_of-HandledIf update_student q s =
      always (handler_statuses update_student) s (handle_update_student x q s) (
        handle_update_student-Handled x like is_zero view saved messages students classes
          transactions sessions quiet q s)
  handler_of-HandledIf delete_student q s =
      always (handler_statuses delete_student) s (handle_delete_student x q s) (
        handle_delete_student-Handled x like is_zero view saved messages students classes
          transactions sessions quiet q s)
  handler_of-HandledIf add_score_pessimistic q s =
      always (handler_statuses add_score_pessimistic) s (handle_add_score_pessimistic x q s) (
        handle_add_score_pessimistic-Handled x like is_zero view saved messages students classes
          transactions sessions quiet q s)
  handler_of-HandledIf import_students q s =
      always (handler_statuses import_students) s (handle_import_students x q s) (
        handle_import_students-Handled x like is_zero view saved messages students classes
          transactions sessions quiet q s)
  handler_of-HandledIf add_score_optimistic q s = (
    handle_add_score_optimistic-Statuses x like is_zero view saved messages students classes
        transactions sessions quiet q s,
    λ keeps. absurd (cc),
  )

  auth_middleware-HandledIf :
      (keeps : Bool) (codes : List ℕ) (next : Server S Seed Db R K L → Answer x) (q : Q)
      (s : Server S Seed Db R K L)
      → HandledIf keeps codes s (next s)
      → HandledIf keeps (401 ∷ codes) s (auth_middleware x next q s)
  unfolding auth_middleware
  auth_middleware-HandledIf keeps codes next q s h =
      let token = x.gin.get_header x.token_header q in
      elim (Bool-cases (str_eq token "")) [
        | inl e ↦ rw (e, auth_middleware) ((refl, (refl, refl)), λ _ _. refl)
        | inr e ↦ elim (Bool-cases (str_eq token x.token)) [
          | inl f ↦
              rw (e, auth_middleware)
                (rw f ((more_statuses 401 codes (next s).0 h.0.0, h.0.1), h.1))
          | inr f ↦ rw (e, auth_middleware) (rw f ((refl, (refl, refl)), λ _ _. refl))
        ]
      ]

  pub behind_token-HandledIf :
      (route : Route) (q : Q) (s : Server S Seed Db R K L)
      → HandledIf (keeps_on_error route) (token_statuses route) s (behind_token x route q s)
  unfolding behind_token
  behind_token-HandledIf route q s =
      let h = handler_of-HandledIf route q s in
      elim (Bool-cases (in_auth_group route)) [
        | inl e ↦
            rw (e, behind_token)
              (auth_middleware-HandledIf (keeps_on_error route) (handler_statuses route)
                (handler_of x route q) q s h)
        | inr e ↦ rw (e, behind_token) h
      ]
