-- ===== src/Dao.antt =====
-- The package dao on the table of students (dao/student_dao.go) and of classes (dao/class_dao.go):
-- each function builds its statement and hands it to gorm.
use student_service.Common.{
  ℕ, ℤ, pos, ◌+ℤ◌, int64, ltb_ℤ, true, Option, some, List, [], ◌∷◌, String, if◌then◌else◌,
}
use Prim.Native.String.{◌++◌ as text_append}
use student_service.Model.{Student, Class, LocalMessage, AuditLog}
use student_service.Result.{Error, Result}
use student_service.Store.{Gorm}
use student_service.Store.Rows.{
  StudentCond, id_is, id_after, class_is, version_is, name_like, is_deleted, fields_of, score_to,
  version_to, Select, any_row, where_cond,
}

-- The chain of `Where` calls of `GetStudentList`, with the order and the limit at its end.
abbrev pub list_query : ℤ → ℤ → ℤ → Select StudentCond
list_query class_id last_id page_size =
    let tx = any_row in
    let tx' = if ltb_ℤ (pos 0) class_id then where_cond (class_is class_id) tx else tx in
    let tx'' = if ltb_ℤ (pos 0) last_id then where_cond (id_after last_id) tx' else tx' in
    record tx'' { by_id = true; limit = some page_size }

-- The chain of `GetDeletedStudentList`.
abbrev pub deleted_query : ℤ → ℤ → Select StudentCond
deleted_query last_id page_size =
    let tx = where_cond is_deleted (record any_row { preload_class = true; unscoped = true }) in
    let tx' = if ltb_ℤ (pos 0) last_id then where_cond (id_after last_id) tx else tx in
    record tx' { by_id = true; limit = some page_size }

module _ {S Db Session : Type 0} (gorm : Gorm S Db Session) where
  unfoldable pub get_student_by_id : ℤ → Db → Result (Student S) × Db
  get_student_by_id id = gorm.first_student id

  unfoldable pub get_student_by_name : String → Db → Result (List (Student S)) × Db
  get_student_by_name name =
      gorm.find_students (where_cond (name_like (text_append name "%")) any_row)

  unfoldable pub get_student_list : ℤ → ℤ → ℤ → Db → Result (List (Student S)) × Db
  get_student_list class_id last_id page_size =
      gorm.find_students (list_query class_id last_id page_size)

  unfoldable pub get_deleted_student_list : ℤ → ℤ → Db → Result (List (Student S)) × Db
  get_deleted_student_list last_id page_size = gorm.find_students (deleted_query last_id page_size)

  -- `CreateStudent`, `DeleteStudent` and `UpdateStudent`, outside a transaction.
  unfoldable pub create_student : Student S → Db → Result (List (Student S)) × Db
  create_student student = gorm.create_students (student ∷ [])

  unfoldable pub delete_student : ℤ → Db → Option Error × Db
  delete_student id = gorm.delete_student id

  unfoldable pub update_student : Student S → Db → Result ℕ × Db
  update_student student = gorm.update_students (id_is student.id ∷ []) (fields_of student ∷ [])

  unfoldable pub batch_create_student : List (Student S) → Db → Result (List (Student S)) × Db
  batch_create_student students = gorm.create_students students

  unfoldable pub update_score_by_version : ℤ → S → ℤ → Db → Result ℕ × Db
  update_score_by_version id new_score old_version =
      gorm.update_students (id_is id ∷ version_is old_version ∷ [])
        (score_to new_score ∷ version_to (int64 (old_version +ℤ pos 1)) ∷ [])

  -- The created student comes back with its key.
  unfoldable pub create_student_with_tx : Student S → Db → Result (List (Student S)) × Db
  create_student_with_tx student = gorm.create_students (student ∷ [])

  unfoldable pub update_student_with_tx : Student S → Db → Result ℕ × Db
  update_student_with_tx student =
      gorm.update_students (id_is student.id ∷ []) (fields_of student ∷ [])

  unfoldable pub delete_student_with_tx : ℤ → Db → Option Error × Db
  delete_student_with_tx id = gorm.delete_student id

  unfoldable pub get_class_by_id : ℤ → Db → Result Class × Db
  get_class_by_id id = gorm.first_class id

  unfoldable pub create_audit_log : AuditLog → Db → Option Error × Db
  create_audit_log audit = gorm.create_audit audit

  -- `dao.CreateLocalMessage`.
  unfoldable pub create_local_message : LocalMessage → Db → Option Error × Db
  create_local_message msg = gorm.create_message msg
