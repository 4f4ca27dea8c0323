-- ===== src/Students/List/Tests.antt =====
-- The listings on a concrete table.
use student_service.Common.{pos, ◌≡◌, refl, false, List, [], ◌∷◌, int64, ◌+ℤ◌}
use student_service.Model.{StudentListQuery}
use student_service.Result.{ok}
use student_service.Session.{Session}
use student_service.Students.List.{get_student_list, page_of, page_size_of}
use student_service.Fixture.{gorm, holding, bob, school}
use student_service.Students.List.Order.{last_id}
use student_service.Dao

abbrev of_class_one : StudentListQuery
of_class_one = record { last_id = pos 0; page_size = pos 1; class_id = pos 1 }

second_page :
    (get_student_list gorm (record of_class_one { last_id = pos 1 }) (holding school [])).0
    ≡ ok (bob ∷ [], pos 2, false)
unfolding get_student_list Dao.get_student_list page_size_of page_of int64 ◌+ℤ◌
second_page = refl

abbrev of_trash : StudentListQuery
of_trash = record { last_id = pos 0; page_size = pos 0; class_id = pos 0 }
