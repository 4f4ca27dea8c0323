-- ===== src/Students/List.antt =====
-- The listings of service/student_service.go: pages of students after a cursor.
pub mod Order
pub mod Query
pub mod Pages
pub mod Walk
mod Tests
use student_service.Common.{
  ℕ, ℤ, pos, negsuc, pos_part, ◌+ℤ◌, int64, ltb_ℤ, leb_ℤ, Bool, true, false, List, [], ◌∷◌, length,
  take, last_or, map, if◌then◌else◌,
}
use student_service.Model.{Student, StudentListQuery}
use student_service.Result.{Error, Result, ok, err}
use student_service.Store.{Gorm}
use student_service.Dao

-- The page size that the service works with: ten if none is asked for, at most a hundred.
unfoldable pub page_size_of : ℤ → ℤ
page_size_of n =
    let n' = if leb_ℤ n (pos 0) then pos 10 else n in if ltb_ℤ (pos 100) n' then pos 100 else n'

module _ {S : Type 0} where
  abbrev pub ids : List (Student S) → List ℤ
  ids = map λ s. s.id

  -- The students, the id of the last, and whether there are more. `list[:pageSize]` is a `take`.
  unfoldable pub page_of : ℤ → List (Student S) → List (Student S) × ℤ × Bool
  page_of page_size list =
      let has_more = ltb_ℤ page_size (pos (length list)) in
      let page = if has_more then take (pos_part page_size) list else list in
      (page, last_or (pos 0) (ids page), has_more)

  abbrev pub paged : ℤ → Result (List (Student S)) → Result (List (Student S) × ℤ × Bool)
  paged page_size (err e) = err e
  paged page_size (ok list) = ok (page_of page_size list)

module _ {S Db Session : Type 0} (gorm : Gorm S Db Session) where
  unfoldable pub get_student_list :
      StudentListQuery → Db → Result (List (Student S) × ℤ × Bool) × Db
  get_student_list query db =
      let page_size = page_size_of query.page_size in
      let (r, db') =
        Dao.get_student_list gorm query.class_id query.last_id (int64 (page_size +ℤ pos 1)) db in
      (paged page_size r, db')

  unfoldable pub get_deleted_student_list :
      StudentListQuery → Db → Result (List (Student S) × ℤ × Bool) × Db
  get_deleted_student_list query db =
      let page_size = page_size_of query.page_size in
      let (r, db') =
        Dao.get_deleted_student_list gorm query.last_id (int64 (page_size +ℤ pos 1)) db in
      (paged page_size r, db')
