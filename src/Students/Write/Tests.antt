-- ===== src/Students/Write/Tests.antt =====
-- Writes on concrete tables, and what is read afterwards.
use student_service.Common.{ℕ, ℤ, pos, ◌≡◌, refl}
use student_service.Model.{Student}
use student_service.Result.{Error, err}
use student_service.Store.Memory.Meets.{
  view, memory-MessageLaws, memory-StudentLaws, memory-TransactionLaws,
}
use student_service.Session.{Session, save_audit_message}
use student_service.Redis.Memory.{cache}
use student_service.Fixture.{ann, cents, env, exact, gorm, named, world}
use student_service.Dao
use student_service.Students.Write.{
  delete_student, delete_found, delete_student_body, audit_deleted,
}
use student_service.Students.Write.Lookup.{delete_student-get_student_by_id}

abbrev eve : Student ℤ
eve = record (named "eve") { id = pos 9; score = pos 6000 }

delete_student-get_student_by_id_example :
    (e : Error) × ((Dao.get_student_by_id gorm
        (pos 1)
        (delete_student env gorm cache (pos 1) world).1.db).0
      ≡ err e)
unfolding delete_student Dao.get_student_by_id delete_found delete_student_body
    Dao.delete_student_with_tx audit_deleted save_audit_message Dao.create_local_message
delete_student-get_student_by_id_example =
    delete_student-get_student_by_id env gorm cache exact cents.is_zero view
      (memory-MessageLaws (Session ℤ ℕ) exact cents.is_zero)
      (memory-StudentLaws (Session ℤ ℕ) exact cents.is_zero)
      (memory-TransactionLaws (Session ℤ ℕ) exact cents.is_zero) (pos 1) ann world refl

abbrev anna : Student ℤ
anna = record ann { name = "anna"; score = pos 9500; class_id = pos 2 }
