-- ===== src/Store.antt =====
-- gorm, the library through which the package dao reaches MySQL. It is not part of the repository,
-- so its calls are the fields of a parameter; a statement is a value that the dao functions build
-- (dao/student_dao.go, dao/local_message.go), and `Store.Laws` states what the code relies on.
-- `Db` is the connection with the database behind it, faults and other sessions included.
-- `Session` is what the body of a transaction changes beside the database.
pub mod Rows
pub mod Laws
pub mod Memory
use student_service.Common.{
  ℕ, ℤ, Bool, true, false, Option, none, some, List, [], ◌∷◌, ◌++◌, String,
}
use student_service.Model.{Student, Class, LocalMessage, AuditLog}
use student_service.Result.{Error, Result}
use Rows.{StudentCond, StudentAssign, MessageCond, MessageAssign, Select}

pub record Gorm (S Db Session : Type 0) : Type 0 where
  -- `First(&student, id)`, on the live rows.
  pub first_student : ℤ → Db → Result (Student S) × Db
  -- `Find(&students)`.
  pub find_students : Select StudentCond → Db → Result (List (Student S)) × Db
  -- `Create(&students)`, of one student or of several; the keys come back filled in.
  pub create_students : List (Student S) → Db → Result (List (Student S)) × Db
  -- `Model(&model.Student{}).Where(…).Updates(…)`, with the number of rows affected.
  pub update_students : List StudentCond → List (StudentAssign S) → Db → Result ℕ × Db
  -- `Save(&student)`.
  pub save_student : Student S → Db → Option Error × Db
  -- `Delete(&model.Student{}, id)`.
  pub delete_student : ℤ → Db → Option Error × Db
  -- `First(&class, id)`.
  pub first_class : ℤ → Db → Result Class × Db
  pub find_messages : Select MessageCond → Db → Result (List LocalMessage) × Db
  pub update_messages : List MessageCond → List MessageAssign → Db → Option Error × Db
  pub create_message : LocalMessage → Db → Option Error × Db
  pub create_audit : AuditLog → Db → Option Error × Db
  -- `DB.Transaction(body)`.
  pub transaction :
      (Session → Db → Option Error × Session × Db) → Session → Db → Option Error × Session × Db
  -- `DB.Begin()`, `tx.Commit()` and `tx.Rollback()`.
  pub begin : Db → Option Error × Db
  pub commit : Db → Option Error × Db
  pub rollback : Db → Db
