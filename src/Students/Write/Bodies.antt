-- ===== src/Students/Write/Bodies.antt =====
-- What the bodies of the transactions on the students do when they return no error.
use student_service.Common.{
  ℕ, ℤ, pos, uint64, ◌≡◌, ◌≢◌, refl, sym, ◌∙◌, ap, subst, inl, inr, Bool, false, none, some, List,
  [], ◌∷◌, String, any, eqb_ℤ, arith, Option-cases,
}
use student_service.Model.{
  Student, nil, student, text, operate_type_create, operate_type_update, operate_type_delete,
}
use student_service.Result.{ok, Result-cases}
use student_service.Store.{Gorm}
use student_service.Store.Rows.{
  Tables, place, place_all, update_where, live_with_id, in_update, student_assign, id_is, fields_of,
}
use student_service.Store.Laws.{MessageLaws, StudentLaws}
use student_service.Env.{Env}
use student_service.Session.{Session, build_audit_message}
use student_service.Dao
use student_service.Students.Write.{
  audit_created, audit_deleted, audit_updated, add_student_body, delete_student_body,
  update_student_body,
}
use student_service.Students.Write.Commit.{Committed, committed, save_audit_message-ok}

module _ {S Seed Db : Type 0} (env : Env S Seed) (gorm : Gorm S Db (Session S Seed))
    (like : String → String → Bool) (is_zero : S → Bool) (view : Db → Tables S)
    (messages : MessageLaws gorm view) (students : StudentLaws gorm like is_zero view) where
  audit_created-ok :
      (t : Tables S) (stored : Student S) (students' : List (Student S)) (s : Session S Seed)
      (tx : Db)
      → view tx ≡ record t { students = students' }
      → (audit_created env gorm stored s tx).0 ≡ none
      → let (_, s', tx') = audit_created env gorm stored s tx in
        Committed env t
          (view tx')
          students'
          operate_type_create
          (uint64 stored.id)
          nil
          (student stored)
        × (s'.student ≡ stored)
  unfolding audit_created build_audit_message
  audit_created-ok t stored students' s tx e h = (
    committed env gorm view messages t students' _ _ tx e refl h,
    (save_audit_message-ok env gorm view messages _ _ tx h).6,
  )

  -- What `AddStudent` has done to the tables, and the student that it created.
  abbrev pub Added : Student S → Student S → Tables S → Tables S → Type 0
  Added given stored t t' =
      (stored ≡ record given { id = stored.id })
      × (given.id ≢ pos 0 → stored.id ≡ given.id)
      × (any (λ r. eqb_ℤ r.id stored.id) t.students ≡ false)
      × Committed env t t' (place stored t.students) operate_type_create (uint64 stored.id) nil
          (student stored)

  pub add_student_body-ok :
      (s : Session S Seed) (tx : Db)
      → (add_student_body env gorm s tx).0 ≡ none
      → let (_, s', tx') = add_student_body env gorm s tx in
        Added s.student s'.student (view tx) (view tx')
  unfolding add_student_body Dao.create_student_with_tx
  add_student_body-ok s tx h = elim (Result-cases (gorm.create_students (s.student ∷ []) tx).0) [
    | inl (ss, e) ↦
        let (i, one, nonzero, free, after) = students.create_student_ok s.student tx ss e in
        let made = e ∙ ap ok one in
        let stored = record s.student { id = i } in
        let tx' = (gorm.create_students (s.student ∷ []) tx).1 in
        let audited =
          audit_created-ok (view tx) stored (place stored (view tx).students) s tx'
            (after
              ∙ ap
                  (λ (l : List (Student S)). record (view tx) {
                    students = place_all l (view tx).students;
                  })
                  one)
            (rw (made, add_student_body) at h) in
        rw (made, add_student_body)
          (subst (λ st. Added s.student st (view tx) (view (audit_created env gorm stored s tx').2))
            (sym audited.1) (refl, nonzero, free, audited.0))
    | inr (x, e) ↦ absurd (ground arith)
  ]

  -- The stamp of a soft delete on the live row with the key.
  abbrev pub stamped : ℤ → ℕ → List (Student S) → List (Student S)
  stamped id at_time = update_where (live_with_id id) (λ s. record s { deleted_at = some at_time })

  pub delete_student_body-ok :
      (id : ℤ) (found : Student S) (s : Session S Seed) (tx : Db)
      → (delete_student_body env gorm id found s tx).0 ≡ none
      → (at_time : ℕ) × Committed env
          (view tx)
          (view (delete_student_body env gorm id found s tx).2)
          (stamped id at_time (view tx).students)
          operate_type_delete
          (uint64 id)
          (student found)
          (text "")
  unfolding delete_student_body audit_deleted Dao.delete_student_with_tx
  delete_student_body-ok id found s tx h = elim (Option-cases (gorm.delete_student id tx).0) [
    | inl e ↦
        let (at_time, after) = students.delete_student_ok id tx e in
        (
          at_time,
          rw (e, delete_student_body)
              (committed env gorm view messages (view tx) (stamped id at_time (view tx).students) _
                _ _ after refl (rw (e, delete_student_body) at h)),
        )
    | inr (x, e) ↦ absurd (ground arith)
  ]

  -- What an `Updates` with the student writes to the live row with its key.
  abbrev pub merged : Student S → List (Student S) → List (Student S)
  merged new =
      update_where (in_update like (id_is new.id ∷ [])) (student_assign is_zero (fields_of new))

  pub update_student_body-ok :
      (id : ℤ) (old new : Student S) (s : Session S Seed) (tx : Db)
      → (update_student_body env gorm id old new s tx).0 ≡ none
      → Committed env
          (view tx)
          (view (update_student_body env gorm id old new s tx).2)
          (merged new (view tx).students)
          operate_type_update
          (uint64 id)
          (student old)
          (student new)
  unfolding update_student_body audit_updated build_audit_message Dao.update_student_with_tx
  update_student_body-ok id old new s tx h =
      elim (Result-cases (gorm.update_students (id_is new.id ∷ []) (fields_of new ∷ []) tx).0) [
        | inl (n, e) ↦
            rw (e, update_student_body)
              (committed env gorm view messages (view tx) (merged new (view tx).students) _ _ _
                (students.update_students_ok _ _ tx n e) refl (rw (e, update_student_body) at h))
        | inr (x, e) ↦ absurd (ground arith)
      ]
