-- ===== src/Http/Router/ReadsHandled.antt =====
-- controller/student_controller.go: the statuses of the handlers that read, which change no table.
use student_service.Common.{
  ℤ, ◌≡◌, refl, Bool, true, Option, none, some, List, [], ◌∷◌, String, str_eq, Bool-cases,
  Option-cases, inl, inr,
}
use student_service.Model.{Student}
use student_service.Result.{Result, ok, err, Result-cases}
use student_service.Store.Rows.{Tables}
use student_service.Store.Laws.{StudentLaws, ClassLaws, MessageLaws, TransactionLaws, SessionLaws}
use student_service.Students.World.{World}
use student_service.Students.List.{get_student_list, get_deleted_student_list}
use student_service.Students.Get
use student_service.Students.Get.Reads.{get_student_by_id_reads}
use student_service.Import.Cells.{atoi}
use student_service.Http.{
  fail, success, many_students, Server, Context, student_response, handle_student_by_name,
  handle_all_students, handle_delete_students, handle_get_student,
}
use student_service.Http.Router.Guard.{ReadEnds-view}
use student_service.Dao
use student_service.Http.Router.Statuses.{
  answered_in, page_response-answered, student_response-answered,
}
use student_service.Http.Router.Handled.{Handled}

module _ {Q S Seed Db R K L F W : Type 0} (x : Context Q S Seed Db R K L F W)
    (like : String → String → Bool) (is_zero : S → Bool) (view saved : Db → Tables S)
    (messages : MessageLaws x.gorm view) (students : StudentLaws x.gorm like is_zero view)
    (classes : ClassLaws x.gorm view) (transactions : TransactionLaws x.gorm view)
    (sessions : SessionLaws x.gorm view saved)
    (quiet : (v : World S Seed Db R) → view (x.others v).db ≡ view v.db) where
  pub handle_all_students-Handled :
      (q : Q) (s : Server S Seed Db R K L)
      → Handled x like is_zero view saved messages students classes transactions sessions quiet
          (200 ∷ 400 ∷ 500 ∷ [])
          s
          (handle_all_students x q s)
  unfolding handle_all_students get_student_list Dao.get_student_list
  handle_all_students-Handled q s = elim (Result-cases (x.gin.bind_list_query q)) [
    | inr (e, b) ↦ rw (b, handle_all_students) ((refl, (refl, refl)), λ _. refl)
    | inl (query, b) ↦
        rw (b, handle_all_students)
          (
            (
              page_response-answered query.page_size (get_student_list x.gorm query s.world.db).0,
              (refl, refl),
            ),
            λ _. students.find_students_view _ s.world.db,
          )
  ]

  pub handle_delete_students-Handled :
      (q : Q) (s : Server S Seed Db R K L)
      → Handled x like is_zero view saved messages students classes transactions sessions quiet
          (200 ∷ 400 ∷ 500 ∷ [])
          s
          (handle_delete_students x q s)
  unfolding handle_delete_students get_deleted_student_list Dao.get_deleted_student_list
  handle_delete_students-Handled q s = elim (Result-cases (x.gin.bind_list_query q)) [
    | inr (e, b) ↦ rw (b, handle_delete_students) ((refl, (refl, refl)), λ _. refl)
    | inl (query, b) ↦
        rw (b, handle_delete_students)
          (
            (
              page_response-answered query.page_size
                  (get_deleted_student_list x.gorm query s.world.db).0,
              (refl, refl),
            ),
            λ _. students.find_students_view _ s.world.db,
          )
  ]

  names-answered :
      (r : Result (List (Student S)))
      → answered_in
          (200 ∷ 400 ∷ 500 ∷ [])
          (some (elim r [ err e ↦ fail 500 e.text | ok ss ↦ success (many_students ss) ]))
        ≡ true
  names-answered (ok ss) = refl
  names-answered (err e) = refl

  by_name_view :
      (name : String) (w : World S Seed Db R)
      → view (Get.get_student_by_name x.env x.gorm x.redis name w).1.db ≡ view w.db
  unfolding Get.get_student_by_name Dao.get_student_by_name
  by_name_view name w = elim (Bool-cases (str_eq name "")) [
    | inl n ↦ rw (n, Get.get_student_by_name) refl
    | inr n ↦ rw (n, Get.get_student_by_name) (students.find_students_view _ w.db)
  ]

  pub handle_student_by_name-Handled :
      (q : Q) (s : Server S Seed Db R K L)
      → Handled x like is_zero view saved messages students classes transactions sessions quiet
          (200 ∷ 400 ∷ 500 ∷ [])
          s
          (handle_student_by_name x q s)
  unfolding handle_student_by_name Get.get_student_by_name Dao.get_student_by_name
  handle_student_by_name-Handled q s = elim (Result-cases (x.gin.bind_name q)) [
    | inr (e, b) ↦ rw (b, handle_student_by_name) ((refl, (refl, refl)), λ _. refl)
    | inl (name, b) ↦
        let r = Get.get_student_by_name x.env x.gorm x.redis name s.world in
        rw (b, handle_student_by_name)
          ((names-answered r.0, (refl, refl)), λ _. by_name_view name s.world)
  ]

  read-answered :
      (r : Option (Result (Student S)))
      → answered_in
          (200 ∷ 400 ∷ 404 ∷ 500 ∷ [])
          (elim r [ none ↦ none | some a ↦ some (student_response "学生不存在" 404 a) ])
        ≡ true
  read-answered none = refl
  read-answered (some a) = student_response-answered "学生不存在" 404 a

  read_view :
      (id : ℤ) (w : World S Seed Db R)
      → view (Get.get_student_by_id x.env x.gorm x.redis x.others x.waits id w).1.db ≡ view w.db
  read_view id w =
      ReadEnds-view x like is_zero view students classes quiet id (view w.db)
        (Get.get_student_by_id x.env x.gorm x.redis x.others x.waits id w)
        (get_student_by_id_reads x.env x.gorm x.redis like is_zero view students classes x.others
          x.waits id w quiet)

  pub handle_get_student-Handled :
      (q : Q) (s : Server S Seed Db R K L)
      → Handled x like is_zero view saved messages students classes transactions sessions quiet
          (200 ∷ 400 ∷ 404 ∷ 500 ∷ [])
          s
          (handle_get_student x q s)
  unfolding handle_get_student
  handle_get_student-Handled q s = elim (Option-cases (atoi (x.gin.param_id q))) [
    | inl n ↦ rw (n, handle_get_student) ((refl, (refl, refl)), λ _. refl)
    | inr (id, n) ↦
        let r = Get.get_student_by_id x.env x.gorm x.redis x.others x.waits id s.world in
        rw (n, handle_get_student) ((read-answered r.0, (refl, refl)), λ _. read_view id s.world)
  ]
