-- ===== src/Students/Write/Lookup.antt =====
-- What a read of the database finds after a write: `GetStudentByID` of dao/student_dao.go behind
-- `AddStudent`, `DeleteStudent` and `UpdateStudent`.
use student_service.Common.{
  ℕ, ℤ, ◌≡◌, refl, ◌∙◌, ap, Bool, none, some, List, [], ◌∷◌, String, find, Bool-cases, inl, inr,
}
use student_service.Model.{Student}
use student_service.Result.{Error, Result, Result-cases, ok, err}
use student_service.Store.{Gorm}
use student_service.Store.Rows.{Tables, update_where, live_with_id}
use student_service.Store.Laws.{MessageLaws, StudentLaws, TransactionLaws}
use student_service.Redis.{Redis}
use student_service.Env.{Env}
use student_service.Session.{Session}
use student_service.Dao
use student_service.Students.Write.{delete_student}
use student_service.Students.Write.Atomic.{DeleteEnds, delete_student_ends}
use student_service.Students.World.{World}

module _ {S : Type 0} where
  find-stamped :
      (i : ℤ) (at_time : ℕ) (rs : List (Student S))
      → find
          (live_with_id i)
          (update_where (live_with_id i) (λ r. record r { deleted_at = some at_time }) rs)
        ≡ none
  find-stamped i at_time [] = refl
  find-stamped i at_time (r ∷ rs) = elim (Bool-cases (live_with_id i r)) [
    | inl e ↦ rw (e) (find-stamped i at_time rs)
    | inr e ↦ rw (e, e) (find-stamped i at_time rs)
  ]

module _ {S Seed Db R : Type 0} (env : Env S Seed) (gorm : Gorm S Db (Session S Seed))
    (redis : Redis R) (like : String → String → Bool) (is_zero : S → Bool) (view : Db → Tables S)
    (messages : MessageLaws gorm view) (students : StudentLaws gorm like is_zero view)
    (transactions : TransactionLaws gorm view) where
  deleted-find :
      (id : ℤ) (s : Student S) (t t' : Tables S) (r : Result (Student S))
      → r ≡ ok s
      → DeleteEnds env gorm redis like is_zero view messages students transactions id t t' r
      → find (live_with_id id) t'.students ≡ none
  deleted-find id s t t' (err e) same h = absurd (cc)
  deleted-find id s t t' (ok found) same (_, (at_time, done)) =
      ap (λ (x : Tables S). find (live_with_id id) x.students) done.tables
      ∙ find-stamped id at_time t.students

  -- After `DeleteStudent` has returned a student, a read of its key returns an error.
  pub delete_student-get_student_by_id :
      (id : ℤ) (s : Student S) (w : World S Seed Db R)
      → let (r, w') = delete_student env gorm redis id w in
        r ≡ ok s → (e : Error) × ((Dao.get_student_by_id gorm id w'.db).0 ≡ err e)
  unfolding Dao.get_student_by_id
  delete_student-get_student_by_id id s w deleted =
      let (r, w') = delete_student env gorm redis id w in
      let gone : find (live_with_id id) (view w'.db).students ≡ none =
        deleted-find id s (view w.db) (view w'.db) r deleted (
          delete_student_ends env gorm redis like is_zero view messages students transactions id
            w) in
      elim (Result-cases (gorm.first_student id w'.db).0) [
        | inr (e, failed) ↦ (e, failed)
        | inl (found, read) ↦
            let there = students.first_student_ok id w'.db found read in absurd (cc)
      ]
