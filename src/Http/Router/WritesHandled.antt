-- ===== src/Http/Router/WritesHandled.antt =====
-- controller/student_controller.go: the statuses of the handlers that write, and that an error changes
-- no table.
use student_service.Common.{
  ℤ, ◌≡◌, refl, ◌||◌, Bool, false, Option, none, some, [], ◌∷◌, String, has_suffix, Bool-cases,
  Option-cases, inl, inr,
}
use student_service.Model.{Student}
use student_service.Result.{Error, Result, ok, err, Result-cases}
use student_service.Store.Rows.{Tables}
use student_service.Store.Laws.{StudentLaws, ClassLaws, MessageLaws, TransactionLaws, SessionLaws}
use student_service.Students.World.{World}
use student_service.Students.Write.{add_student, update_student, delete_student}
use student_service.Students.Write.Atomic.{
  AddEnds, DeleteEnds, UpdateEnds, add_student_ends, delete_student_ends, update_student_ends,
}
use student_service.Students.Score.{
  add_student_score_with_pessimistic_lock, add_student_score_with_optimistic_lock,
}
use student_service.Students.Score.Pessimistic.{
  PessimisticEnds, add_student_score_with_pessimistic_lock_ends,
}
use student_service.Import.Cells.{atoi}
use student_service.Import.{import_students}
use student_service.Http.{
  Server, Context, student_response, score_response, import_file, handle_add_student,
  handle_update_student, handle_delete_student, handle_add_score_pessimistic,
  handle_add_score_optimistic, handle_import_students,
}
use student_service.Http.Router.Statuses.{
  is_success, Statuses, student_response-answered, score_response-answered,
  import_response-answered,
}
use student_service.Http.Router.Handled.{Handled}

module _ {Q S Seed Db R K L F W : Type 0} (x : Context Q S Seed Db R K L F W)
    (like : String → String → Bool) (is_zero : S → Bool) (view saved : Db → Tables S)
    (messages : MessageLaws x.gorm view) (students : StudentLaws x.gorm like is_zero view)
    (classes : ClassLaws x.gorm view) (transactions : TransactionLaws x.gorm view)
    (sessions : SessionLaws x.gorm view saved)
    (quiet : (v : World S Seed Db R) → view (x.others v).db ≡ view v.db) where
  add_failed :
      (given : Student S) (t t' : Tables S) (r : Result (Student S))
      → AddEnds x.env x.gorm x.redis like is_zero view messages students transactions given t t' r
      → is_success (some (student_response "学生已存在" 409 r)) ≡ false
      → t' ≡ t
  add_failed given t t' (ok s) h f = absurd (cc)
  add_failed given t t' (err e) h f = h

  pub handle_add_student-Handled :
      (q : Q) (s : Server S Seed Db R K L)
      → Handled x like is_zero view saved messages students classes transactions sessions quiet
          (200 ∷ 400 ∷ 409 ∷ 500 ∷ [])
          s
          (handle_add_student x q s)
  unfolding handle_add_student
  handle_add_student-Handled q s = elim (Result-cases (x.gin.bind_student q)) [
    | inr (e, b) ↦ rw (b, handle_add_student) ((refl, (refl, refl)), λ _. refl)
    | inl (given, b) ↦
        let (r, w) = add_student x.env x.gorm x.redis given s.world in
        rw (b, handle_add_student)
          (
            (student_response-answered "学生已存在" 409 r, (refl, refl)),
            add_failed given (view s.world.db) (view w.db) r (
                add_student_ends x.env x.gorm x.redis like is_zero view messages students
                  transactions given s.world),
          )
  ]

  update_failed :
      (id : ℤ) (name : String) (score : S) (class_id : ℤ) (t t' : Tables S) (r : Result (Student S))
      → UpdateEnds x.env x.gorm x.redis like is_zero view messages students transactions id name
          score class_id t t' r
      → is_success (some (student_response "学生不存在" 404 r)) ≡ false
      → t' ≡ t
  update_failed id name score class_id t t' (ok s) h f = absurd (cc)
  update_failed id name score class_id t t' (err e) h f = h

  pub handle_update_student-Handled :
      (q : Q) (s : Server S Seed Db R K L)
      → Handled x like is_zero view saved messages students classes transactions sessions quiet
          (200 ∷ 400 ∷ 404 ∷ 500 ∷ [])
          s
          (handle_update_student x q s)
  unfolding handle_update_student
  handle_update_student-Handled q s = elim (Option-cases (atoi (x.gin.param_id q))) [
    | inl n ↦ rw (n, handle_update_student) ((refl, (refl, refl)), λ _. refl)
    | inr (id, n) ↦ elim (Result-cases (x.gin.bind_update q)) [
      | inr (e, b) ↦ rw (n, handle_update_student) (rw b ((refl, (refl, refl)), λ _. refl))
      | inl (u, b) ↦
          let (r, w) = update_student x.env x.gorm x.redis id u.name u.score u.class_id s.world in
          rw (n, handle_update_student)
            (rw b (
              (student_response-answered "学生不存在" 404 r, (refl, refl)),
              update_failed id u.name u.score u.class_id (view s.world.db) (view w.db) r (
                  update_student_ends x.env x.gorm x.redis like is_zero view messages students
                    transactions id u.name u.score u.class_id s.world),
            ))
    ]
  ]

  delete_failed :
      (id : ℤ) (t t' : Tables S) (r : Result (Student S))
      → DeleteEnds x.env x.gorm x.redis like is_zero view messages students transactions id t t' r
      → is_success (some (student_response "学生不存在" 404 r)) ≡ false
      → t' ≡ t
  delete_failed id t t' (ok s) h f = absurd (cc)
  delete_failed id t t' (err e) h f = h

  pub handle_delete_student-Handled :
      (q : Q) (s : Server S Seed Db R K L)
      → Handled x like is_zero view saved messages students classes transactions sessions quiet
          (200 ∷ 400 ∷ 404 ∷ 500 ∷ [])
          s
          (handle_delete_student x q s)
  unfolding handle_delete_student
  handle_delete_student-Handled q s = elim (Option-cases (atoi (x.gin.param_id q))) [
    | inl n ↦ rw (n, handle_delete_student) ((refl, (refl, refl)), λ _. refl)
    | inr (id, n) ↦
        let (r, w) = delete_student x.env x.gorm x.redis id s.world in
        rw (n, handle_delete_student)
          (
            (student_response-answered "学生不存在" 404 r, (refl, refl)),
            delete_failed id (view s.world.db) (view w.db) r (
                delete_student_ends x.env x.gorm x.redis like is_zero view messages students
                  transactions id s.world),
          )
  ]

  score_failed :
      (id : ℤ) (add_score : S) (t : Tables S) (r : Option Error × Db)
      → PessimisticEnds x.env.float x.gorm like is_zero view saved students sessions id add_score t
          r
      → is_success {S = S} (some (score_response r.0)) ≡ false
      → view r.1 ≡ t
  score_failed id add_score t (none, db) h f = absurd (cc)
  score_failed id add_score t (some e, db) h f = h

  pub handle_add_score_pessimistic-Handled :
      (q : Q) (s : Server S Seed Db R K L)
      → Handled x like is_zero view saved messages students classes transactions sessions quiet
          (200 ∷ 400 ∷ 500 ∷ [])
          s
          (handle_add_score_pessimistic x q s)
  unfolding handle_add_score_pessimistic
  handle_add_score_pessimistic-Handled q s = elim (Option-cases (atoi (x.gin.param_id q))) [
    | inl n ↦ rw (n, handle_add_score_pessimistic) ((refl, (refl, refl)), λ _. refl)
    | inr (id, n) ↦ elim (Result-cases (x.gin.bind_add_score q)) [
      | inr (e, b) ↦ rw (n, handle_add_score_pessimistic) (rw b ((refl, (refl, refl)), λ _. refl))
      | inl (add_score, b) ↦
          let r =
            add_student_score_with_pessimistic_lock x.env.float x.gorm id add_score s.world.db in
          rw (n, handle_add_score_pessimistic)
            (rw b (
              (score_response-answered S r.0, (refl, refl)),
              score_failed id add_score (view s.world.db) r (
                  add_student_score_with_pessimistic_lock_ends x.env.float x.gorm like is_zero view
                    saved students sessions id add_score s.world.db),
            ))
    ]
  ]

  import_file-Handled :
      (f : Result F) (s : Server S Seed Db R K L)
      → Handled x like is_zero view saved messages students classes transactions sessions quiet
          (200 ∷ 400 ∷ 500 ∷ [])
          s
          (import_file x f s)
  unfolding import_file
  import_file-Handled (err e) s = ((refl, (refl, refl)), λ _. refl)
  import_file-Handled (ok f) s = (
    (
      import_response-answered S (import_students x.env x.producer x.excelize f s.producer_state).0,
      (refl, refl),
    ),
    λ _. refl,
  )

  pub handle_import_students-Handled :
      (q : Q) (s : Server S Seed Db R K L)
      → Handled x like is_zero view saved messages students classes transactions sessions quiet
          (200 ∷ 400 ∷ 500 ∷ [])
          s
          (handle_import_students x q s)
  unfolding handle_import_students
  handle_import_students-Handled q s = elim (Result-cases (x.gin.form_file q)) [
    | inr (e, b) ↦ rw (b, handle_import_students) ((refl, (refl, refl)), λ _. refl)
    | inl ((filename, file), b) ↦
        elim (Bool-cases (has_suffix filename ".xlsx" || has_suffix filename ".XLSX")) [
          | inl h ↦ rw (b, handle_import_students) (rw h (import_file-Handled file s))
          | inr h ↦ rw (b, handle_import_students) (rw h ((refl, (refl, refl)), λ _. refl))
        ]
  ]

  pub handle_add_score_optimistic-Statuses :
      (q : Q) (s : Server S Seed Db R K L)
      → Statuses x (200 ∷ 400 ∷ 500 ∷ []) s (handle_add_score_optimistic x q s)
  unfolding handle_add_score_optimistic
  handle_add_score_optimistic-Statuses q s = elim (Option-cases (atoi (x.gin.param_id q))) [
    | inl n ↦ rw (n, handle_add_score_optimistic) (refl, (refl, refl))
    | inr (id, n) ↦ elim (Result-cases (x.gin.bind_add_score q)) [
      | inr (e, b) ↦ rw (n, handle_add_score_optimistic) (rw b (refl, (refl, refl)))
      | inl (add_score, b) ↦
          let r =
            add_student_score_with_optimistic_lock x.env.float x.gorm x.other_sessions id add_score
              s.world.db in
          rw (n, handle_add_score_optimistic) (rw b (score_response-answered S r.0, (refl, refl)))
    ]
  ]
