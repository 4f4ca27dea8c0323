-- ===== src/Students/Score.antt =====
-- The two ways to add to a score of service/student_service.go: under an explicit transaction, and
-- by the version column with retries. `others` is what other sessions do to the database while the
-- retrying call waits between two statements or sleeps.
pub mod Pessimistic
pub mod Optimistic
mod Tests
use student_service.Common.{
  ℕ, zero, suc, ℤ, ltb, Bool, true, false, Option, none, some, if◌then◌else◌,
}
use student_service.Model.{Student}
use student_service.Result.{Error, Result, ok, err, new_error, is_record_not_found}
use student_service.Float.{Float}
use student_service.Store.{Gorm}
use student_service.Dao

abbrev pub max_retry : ℕ
max_retry = 3

module _ {S Db Session : Type 0} (float : Float S) (gorm : Gorm S Db Session) where
  -- `GetStudentByIDForUpdate`.
  unfoldable pub get_student_by_id_for_update : ℤ → Db → Result (Student S) × Db
  get_student_by_id_for_update id = gorm.first_student id

  -- The two calls of `Save`, then the commit. The error of the first call is overwritten.
  unfoldable pub save_and_commit : Student S → Db → Option Error × Db
  save_and_commit s tx =
      let (_, tx1) = gorm.save_student s tx in
      let (failed, tx2) = gorm.save_student s tx1 in
      let (refused, db) = gorm.commit tx2 in
      elim failed [
        | some e ↦ (some (new_error "更新分数失败"), gorm.rollback tx2)
        | none ↦ elim refused [ some e ↦ (some (new_error "提交事务失败"), db) | none ↦ (none, db) ]
      ]

  unfoldable pub add_student_score_with_pessimistic_lock : ℤ → S → Db → Option Error × Db
  add_student_score_with_pessimistic_lock id add_score db =
      let (refused, tx) = gorm.begin db in
      let (found, tx') = get_student_by_id_for_update id tx in
      elim refused [
        | some e ↦ (some (new_error "开启事务失败"), tx)
        | none ↦ elim found [
          | err e ↦ (
            some (new_error (if is_record_not_found e then "学生不存在" else "查询学生失败")),
            gorm.rollback tx',
          )
          | ok s ↦
              let new_score = float.add s.score add_score in
              if float.lt new_score float.zero
              then (some (new_error "分数不能为负"), gorm.rollback tx')
              else save_and_commit (record s { score = new_score }) tx'
        ]
      ]

  -- The loop, with the rounds that are left.
  unfoldable pub optimistic_rounds : (Db → Db) → ℕ → ℤ → S → Db → Option Error × Db
  optimistic_rounds others zero id add_score db = (some (new_error "并发冲突严重，重试失败，请稍后再试"), db)
  optimistic_rounds others (suc rounds) id add_score db =
      let (found, db1) = Dao.get_student_by_id gorm id db in
      elim found [
        | err e ↦ (some (new_error (if is_record_not_found e then "学生不存在" else "查询学生失败")), db1)
        | ok s ↦
            let new_score = float.add s.score add_score in
            let (updated, db2) =
              Dao.update_score_by_version gorm id new_score s.version (others db1) in
            let again = optimistic_rounds others rounds id add_score (others db2) in
            let after = elim updated as (λ _. Option Error × Db) [
              | err e ↦ (some (new_error "更新失败"), db2)
              | ok rows ↦ if ltb 0 rows then (none, db2) else again
            ] in
            if float.lt new_score float.zero then (some (new_error "分数不能为负"), db1) else after
      ]

  unfoldable pub add_student_score_with_optimistic_lock : (Db → Db) → ℤ → S → Db → Option Error × Db
  unfolding optimistic_rounds
  add_student_score_with_optimistic_lock others = optimistic_rounds others max_retry
