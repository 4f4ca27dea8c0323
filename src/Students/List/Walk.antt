-- ===== src/Students/List/Walk.antt =====
-- A client that follows the cursor of a listing from page to page.
use student_service.Common.{ℕ, zero, suc, ◌≡◌, List, ◌++◌, if◌then◌else◌}
use student_service.Model.{Student, StudentListQuery}
use student_service.Result.{Error, ok, err}
use student_service.Store.{Gorm}
use student_service.Students.List.{get_student_list}

-- How following the cursor ends: with all students that the pages had, with the error of a page, or
-- unfinished after the pages that were allowed.
pub data Walk (S : Type 0) : Type 0 where
  visited : List (Student S) → Walk S
  stopped : Error → Walk S
  unfinished : Walk S

module _ {S : Type 0} where
  abbrev pub after_page : List (Student S) → Walk S → Walk S
  after_page page (visited ss) = visited (page ++ ss)
  after_page page (stopped e) = stopped e
  after_page page unfinished = unfinished

  abbrev pub WalkEnds : List (Student S) → Walk S → Type 0
  WalkEnds rows (visited ss) = ss ≡ rows
  WalkEnds rows (stopped e) = Unit
  WalkEnds rows unfinished = ⊥

module _ {S Db Session : Type 0} (gorm : Gorm S Db Session) where
  unfoldable pub walk : ℕ → StudentListQuery → Db → Walk S
  walk zero q db = unfinished
  walk (suc pages) q db =
      let (r, db') = get_student_list gorm q db in
      elim r [
        | err e ↦ stopped e
        | ok (page, last, more) ↦
            let rest = walk pages (record q { last_id = last }) db' in
            if more then after_page page rest else visited page
      ]
