-- ===== src/Students/Score/Tests.antt =====
-- The two additions to a score on a concrete table.
use student_service.Common.{ℤ, pos, ◌≡◌, true, List, map, eqb_ℤ, All, if◌then◌else◌, ◌&&◌}
use student_service.Model.{Student}
use student_service.Store.Rows.{in_update, live_with_id}
use student_service.Store.Memory.{Memory}
use student_service.Session.{Session}
use student_service.Fixture.{exact}
use student_service.Students.Score.Optimistic.{of_version}
use student_service.Dao

-- Another session that writes to ann, but once.
abbrev rival_row : Student ℤ → Student ℤ
rival_row s =
    if live_with_id (pos 1) s && eqb_ℤ s.version (pos 3)
    then record s { score = pos 5000; version = pos 4 }
    else s

abbrev rival : Memory ℤ → Memory ℤ
rival m = record m { tables = record m.tables { students = map rival_row m.tables.students } }

abbrev Agree : ℤ → ℤ → List (Student ℤ) → Type 0
Agree v w = All (λ r. in_update exact (of_version (pos 1) v) r ≡ true → r.score ≡ w)
