-- ===== src/Students/Write/Atomic.antt =====
-- Adding, deleting and updating a student: the change and its audit message are kept together, or
-- nothing is changed.
use student_service.Common.{
  ℕ, ℤ, uint64, ◌≡◌, refl, sym, ◌∙◌, ap, subst, subst₂, inl, inr, Bool, Option, none, some, [], ◌∷◌,
  String, find, Bool-cases, Option-cases,
}
use student_service.Model.{Student, student, text, operate_type_update, operate_type_delete}
use student_service.Result.{Error, Result, ok, err, Result-cases, is_record_not_found}
use student_service.Store.{Gorm}
use student_service.Store.Rows.{
  Tables, update_where, live_with_id, in_update, student_assign, id_is, fields_of,
}
use student_service.Store.Laws.{MessageLaws, StudentLaws, TransactionLaws}
use student_service.Redis.{Redis}
use student_service.Env.{Env}
use student_service.Session.{Session}
use student_service.Dao
use student_service.Students.Write.{
  add_absent, delete_found, update_found, add_student, delete_student, update_student, updated,
  add_student_body, delete_student_body, update_student_body,
}
use student_service.Students.Write.Commit.{Committed}
use student_service.Students.Write.Bodies.{
  Added, add_student_body-ok, delete_student_body-ok, update_student_body-ok,
}
use student_service.Students.World.{World, publish_student_event-db}

module _ {S Seed Db R : Type 0} (env : Env S Seed) (gorm : Gorm S Db (Session S Seed))
    (redis : Redis R) (like : String → String → Bool) (is_zero : S → Bool) (view : Db → Tables S)
    (messages : MessageLaws gorm view) (students : StudentLaws gorm like is_zero view)
    (transactions : TransactionLaws gorm view) where
  abbrev Added' : Student S → Student S → Tables S → Tables S → Type 0
  Added' = Added env gorm like is_zero view messages students

  -- How the transaction of `AddStudent` ends, by its result.
  abbrev AddEnds' : Student S → Tables S → Tables S → Result (Student S) → Type 0
  AddEnds' given t t' (ok s) = Added' given s t t'
  AddEnds' given t t' (err e) = t' ≡ t

  -- How a call of `AddStudent` ends, by its result.
  abbrev pub AddEnds : Student S → Tables S → Tables S → Result (Student S) → Type 0
  AddEnds given t t' (ok s) =
      (find (live_with_id given.id) t.students ≡ none)
      × Added env gorm like is_zero view messages students given s t t'
  AddEnds given t t' (err e) = t' ≡ t

  add_transaction :
      (given : Student S) (w : World S Seed Db R)
      → AddEnds' given
          (view w.db)
          (view (add_absent env gorm redis given w).1.db)
          (add_absent env gorm redis given w).0
  unfolding add_absent
  add_transaction given w = elim (Option-cases trial.0) [
    | inr (e, failed) ↦ rw (failed, add_absent) (transactions.transaction_err body s w.db e failed)
    | inl fine ↦
        let (opened, same, ran, sess, after) = transactions.transaction_ok body s w.db fine in
        let added = add_student_body-ok env gorm like is_zero view messages students s opened ran in
        rw (fine, add_absent)
          (subst₂ (Added' given trial.1.student) same
            (sym after
              ∙ ap view (
                  sym (
                    publish_student_event-db env "create" trial.1.student.id
                      (student trial.1.student) _)))
            (subst
              (λ (x : Session S Seed).
                Added' given x.student (view opened) (view (body s opened).2))
              (sym sess) added))
  ]
    where
      body : Session S Seed → Db → Option Error × Session S Seed × Db
      body = add_student_body env gorm

      s : Session S Seed
      s = record w.session { student = given }

      trial : Option Error × Session S Seed × Db
      trial = gorm.transaction body s w.db

  AddEnds-absent :
      (given : Student S) (t t' : Tables S) (r : Result (Student S))
      → find (live_with_id given.id) t.students ≡ none
      → AddEnds' given t t' r
      → AddEnds given t t' r
  AddEnds-absent given t t' (ok s) h a = (h, a)
  AddEnds-absent given t t' (err e) h a = a

  pub add_student_ends :
      (given : Student S) (w : World S Seed Db R)
      → let (r, w') = add_student env gorm redis given w in AddEnds given (view w.db) (view w'.db) r
  unfolding add_student Dao.get_student_by_id
  add_student_ends given w = elim (Result-cases (gorm.first_student given.id w.db).0) [
    | inl (s, e) ↦ rw (e, add_student) (students.first_student_view given.id w.db)
    | inr (e, failed) ↦ elim (Bool-cases (is_record_not_found e)) [
      | inr other_error ↦
          rw (failed, add_student) (rw (other_error) (students.first_student_view given.id w.db))
      | inl missing ↦
          rw (failed, add_student)
            (rw (missing) (
              AddEnds-absent given _ _ (add_absent env gorm redis given w').0
                (students.first_student_missing given.id w.db e failed missing)
                (subst
                  (λ t.
                    AddEnds' given t (view (add_absent env gorm redis given w').1.db)
                      (add_absent env gorm redis given w').0)
                  (students.first_student_view given.id w.db) (add_transaction given w'))))
    ]
  ]
    where
      w' : World S Seed Db R
      w' = record w { db = (gorm.first_student given.id w.db).1 }

  -- How a call of `DeleteStudent` ends, by its result.
  abbrev pub DeleteEnds : ℤ → Tables S → Tables S → Result (Student S) → Type 0
  DeleteEnds id t t' (ok s) =
      (find (live_with_id id) t.students ≡ some s)
      × ((at_time : ℕ) × Committed env t t'
            (update_where (live_with_id id) (λ r. record r { deleted_at = some at_time })
              t.students)
            operate_type_delete (uint64 id) (student s) (text ""))
  DeleteEnds id t t' (err e) = t' ≡ t

  delete_found_ends :
      (id : ℤ) (s : Student S) (w : World S Seed Db R) (t : Tables S)
      → view w.db ≡ t
      → find (live_with_id id) t.students ≡ some s
      → DeleteEnds id t
          (view (delete_found env gorm redis id s w).1.db)
          (delete_found env gorm redis id s w).0
  unfolding delete_found
  delete_found_ends id s w t e found = elim (Option-cases trial.0) [
    | inr (x, failed) ↦
        rw (failed, delete_found) (transactions.transaction_err body w.session w.db x failed ∙ e)
    | inl fine ↦
        let (opened, same, ran, sess, after) =
          transactions.transaction_ok body w.session w.db fine in
        let (at_time, done) =
          delete_student_body-ok env gorm like is_zero view messages students id s w.session opened
            ran in
        rw (fine, delete_found)
          (
            found,
            (
              at_time,
              subst₂
                  (λ t1 t2.
                    Committed env t1 t2
                      (update_where (live_with_id id) (λ r. record r { deleted_at = some at_time })
                        t1.students)
                      operate_type_delete (uint64 id) (student s) (text ""))
                  (same ∙ e)
                  (sym after
                    ∙ ap view (sym (publish_student_event-db env "delete" s.id (student s) _)))
                  done,
            ),
          )
  ]
    where
      body : Session S Seed → Db → Option Error × Session S Seed × Db
      body = delete_student_body env gorm id s

      trial : Option Error × Session S Seed × Db
      trial = gorm.transaction body w.session w.db

  -- `DeleteStudent` ends with the student that it deleted, or with an error and the tables unchanged.
  -- With no error: the student was the live one with the key, and its row was stamped as deleted and a
  -- pending audit message of the deletion added together, nothing else.
  pub delete_student_ends :
      (id : ℤ) (w : World S Seed Db R)
      → let (r, w') = delete_student env gorm redis id w in DeleteEnds id (view w.db) (view w'.db) r
  unfolding delete_student Dao.get_student_by_id
  delete_student_ends id w = elim (Result-cases (gorm.first_student id w.db).0) [
    | inl (s, e) ↦
        rw (e, delete_student)
          (delete_found_ends id s (record w { db = (gorm.first_student id w.db).1 }) (view w.db)
            (students.first_student_view id w.db) (students.first_student_ok id w.db s e))
    | inr (x, e) ↦ rw (e, delete_student) (students.first_student_view id w.db)
  ]

  -- How a call of `UpdateStudent` ends, by its result.
  abbrev pub UpdateEnds : ℤ → String → S → ℤ → Tables S → Tables S → Result (Student S) → Type 0
  UpdateEnds id name score class_id t t' (ok new) =
      (old : Student S) × (find (live_with_id id) t.students ≡ some old)
      × (new ≡ updated old name score class_id)
      × Committed env t t'
          (update_where (in_update like (id_is new.id ∷ []))
            (student_assign is_zero (fields_of new)) t.students)
          operate_type_update (uint64 id) (student old) (student new)
  UpdateEnds id name score class_id t t' (err e) = t' ≡ t

  update_found_ends :
      (id : ℤ) (old : Student S) (name : String) (score : S) (class_id : ℤ) (w : World S Seed Db R)
      (t : Tables S)
      → view w.db ≡ t
      → find (live_with_id id) t.students ≡ some old
      → let (r, w') = update_found env gorm redis id old (updated old name score class_id) w in
        UpdateEnds id name score class_id t (view w'.db) r
  unfolding update_found
  update_found_ends id old name score class_id w t e found = elim (Option-cases trial.0) [
    | inr (x, failed) ↦
        rw (failed, update_found) (transactions.transaction_err body w.session w.db x failed ∙ e)
    | inl fine ↦
        let (opened, same, ran, sess, after) =
          transactions.transaction_ok body w.session w.db fine in
        let done =
          update_student_body-ok env gorm like is_zero view messages students id old new w.session
            opened ran in
        rw (fine, update_found)
          (
            old,
            found,
            refl,
            subst₂
                (λ t1 t2.
                  Committed env t1 t2
                    (update_where (in_update like (id_is new.id ∷ []))
                      (student_assign is_zero (fields_of new)) t1.students)
                    operate_type_update (uint64 id) (student old) (student new))
                (same ∙ e)
                (sym after
                  ∙ ap view (sym (publish_student_event-db env "update" new.id (student new) _)))
                done,
          )
  ]
    where
      new : Student S
      new = updated old name score class_id

      body : Session S Seed → Db → Option Error × Session S Seed × Db
      body = update_student_body env gorm id old new

      trial : Option Error × Session S Seed × Db
      trial = gorm.transaction body w.session w.db

  pub update_student_ends :
      (id : ℤ) (name : String) (score : S) (class_id : ℤ) (w : World S Seed Db R)
      → let (r, w') = update_student env gorm redis id name score class_id w in
        UpdateEnds id name score class_id (view w.db) (view w'.db) r
  unfolding update_student Dao.get_student_by_id
  update_student_ends id name score class_id w =
      elim (Result-cases (gorm.first_student id w.db).0) [
        | inl (old, e) ↦
            rw (e, update_student)
              (update_found_ends id old name score class_id
                (record w { db = (gorm.first_student id w.db).1 }) (view w.db)
                (students.first_student_view id w.db) (students.first_student_ok id w.db old e))
        | inr (x, e) ↦ rw (e, update_student) (students.first_student_view id w.db)
      ]
