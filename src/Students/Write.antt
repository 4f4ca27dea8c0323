-- ===== src/Students/Write.antt =====
-- The operations of service/student_service.go that add, delete and update a student, each with its
-- audit message in one transaction.
pub mod Commit
pub mod Bodies
pub mod Atomic
pub mod Lookup
mod Tests
use student_service.Common.{
  ℕ, ℤ, pos, uint64, Bool, true, false, Option, none, some, List, [], ◌∷◌, ◌++◌, String,
  if◌then◌else◌,
}
use student_service.Model.{
  Student, Payload, nil, student, text, AuditMessage, module_student, operate_type_create,
  operate_type_update, operate_type_delete,
}
use student_service.Result.{Error, Result, ok, err, new_error, is_record_not_found}
use student_service.Store.{Gorm}
use student_service.Redis.{Redis}
use student_service.Env.{Env}
use student_service.Session.{Session, uuid, build_audit_message, save_audit_message}
use student_service.Dao
use student_service.Students.World.{World, Job, cache_del_twice, cache_key, publish_student_event}

module _ {S : Type 0} where
  -- The student that `Create` has filled in through its pointer.
  abbrev pub first_or : Student S → List (Student S) → Student S
  first_or s [] = s
  first_or s (t ∷ ts) = t

  -- The audit message of `DeleteStudent` is a new one, not one of the pool.
  abbrev pub deletion : ℤ → Student S → String → AuditMessage S
  deletion id s trace_id = record {
    trace_id = trace_id;
    operate_type = operate_type_delete;
    module_name = module_student;
    data_id = uint64 id;
    operator = "admin";
    before_data = student s;
    after_data = text "";
    ip = "";
  }

  abbrev pub updated : Student S → String → S → ℤ → Student S
  updated s name score class_id = record s { name = name; score = score; class_id = class_id }

module _ {S Seed Db : Type 0} (env : Env S Seed) (gorm : Gorm S Db (Session S Seed)) where
  -- The audit part of the transaction of `AddStudent`, with the student as it was created.
  unfoldable pub audit_created :
      Student S → Session S Seed → Db → Option Error × Session S Seed × Db
  audit_created stored s tx =
      let (msg, s') =
        build_audit_message env operate_type_create module_student (uint64 stored.id) "admin" nil
          (student stored) (record s { student = stored }) in
      save_audit_message env gorm msg s' tx

  -- The body of the transaction of `AddStudent`.
  unfoldable pub add_student_body : Session S Seed → Db → Option Error × Session S Seed × Db
  add_student_body s tx =
      let (r, tx') = Dao.create_student_with_tx gorm s.student tx in
      elim r [
        | err e ↦ (some e, s, tx')
        | ok created ↦ audit_created (first_or s.student created) s tx'
      ]

  unfoldable pub audit_deleted :
      ℤ → Student S → Session S Seed → Db → Option Error × Session S Seed × Db
  audit_deleted id found s tx =
      let (trace_id, s') = uuid env s in
      save_audit_message env gorm (deletion id found trace_id) s' tx

  -- The body of the transaction of `DeleteStudent`.
  unfoldable pub delete_student_body :
      ℤ → Student S → Session S Seed → Db → Option Error × Session S Seed × Db
  delete_student_body id found s tx =
      let (failed, tx') = Dao.delete_student_with_tx gorm id tx in
      elim failed [ some e ↦ (some e, s, tx') | none ↦ audit_deleted id found s tx' ]

  unfoldable pub audit_updated :
      ℤ → Student S → Student S → Session S Seed → Db → Option Error × Session S Seed × Db
  audit_updated id old new s tx =
      let (msg, s') =
        build_audit_message env operate_type_update module_student (uint64 id) "admin" (student old)
          (student new) s in
      save_audit_message env gorm msg s' tx

  -- The body of the transaction of `UpdateStudent`. The number of rows is not looked at.
  unfoldable pub update_student_body :
      ℤ → Student S → Student S → Session S Seed → Db → Option Error × Session S Seed × Db
  update_student_body id old new s tx =
      let (r, tx') = Dao.update_student_with_tx gorm new tx in
      elim r [ err e ↦ (some e, s, tx') | ok rows ↦ audit_updated id old new s tx' ]

module _ {S Seed Db R : Type 0} (env : Env S Seed) (gorm : Gorm S Db (Session S Seed))
    (redis : Redis R) where
  abbrev pub Writes : Type 0
  Writes = World S Seed Db R → Result (Student S) × World S Seed Db R

  -- What `AddStudent` does once no live student has the key: the transaction and the event.
  unfoldable pub add_absent : Student S → Writes
  add_absent given w =
      let (failed, s, db) =
        gorm.transaction (add_student_body env gorm) (record w.session { student = given }) w.db in
      let w' = record w { db = db; session = s } in
      elim failed [
        | some e ↦ (err e, w')
        | none ↦
            (ok s.student, publish_student_event env "create" s.student.id (student s.student) w')
      ]

  unfoldable pub add_student : Student S → Writes
  add_student given w =
      let (found, db) = Dao.get_student_by_id gorm given.id w.db in
      let w' = record w { db = db } in
      let absent = add_absent given w' in
      elim found [
        | ok _ ↦ (err (new_error "学生已存在"), w')
        | err e ↦ if is_record_not_found e then absent else (err (new_error "查询失败"), w')
      ]

  -- What `DeleteStudent` does with the student that it found.
  unfoldable pub delete_found : ℤ → Student S → Writes
  delete_found id s w =
      let (failed, s', db) = gorm.transaction (delete_student_body env gorm id s) w.session w.db in
      let w' = record w { db = db; session = s' } in
      elim failed [
        | some e ↦ (err (new_error "删除失败"), w')
        | none ↦
            let (_, r) = redis.del (cache_key id) w'.redis in
            (ok s, publish_student_event env "delete" s.id (student s) (record w' { redis = r }))
      ]

  unfoldable pub delete_student : ℤ → Writes
  delete_student id w =
      let (found, db) = Dao.get_student_by_id gorm id w.db in
      let w' = record w { db = db } in
      elim found [
        | err e ↦ (err (new_error (if is_record_not_found e then "学生不存在" else "查询失败")), w')
        | ok s ↦ delete_found id s w'
      ]

  -- What `UpdateStudent` does with the student that it found.
  unfoldable pub update_found : ℤ → Student S → Student S → Writes
  update_found id old new w =
      let (failed, s, db) =
        gorm.transaction (update_student_body env gorm id old new) w.session w.db in
      let w' = record w { db = db; session = s } in
      elim failed [
        | some e ↦ (err (new_error "更新失败"), w')
        | none ↦ (
          ok new,
          publish_student_event env "update" new.id (student new)
              (record w' { jobs = w'.jobs ++ cache_del_twice (cache_key id) ∷ [] }),
        )
      ]

  unfoldable pub update_student : ℤ → String → S → ℤ → Writes
  update_student id name score class_id w =
      let (found, db) = Dao.get_student_by_id gorm id w.db in
      let w' = record w { db = db } in
      elim found [
        | err e ↦ (err (new_error (if is_record_not_found e then "学生不存在" else "查询失败")), w')
        | ok old ↦ update_found id old (updated old name score class_id) w'
      ]
