-- ===== src/Students/List/Pages.antt =====
-- A page holds the students that were asked for, and its cursor leaves exactly the others.
use student_service.Common.{◌<◌, ℤ, List, arith}
use student_service.Result.{Result}
use student_service.Dao
use student_service.Students.List.{page_size_of}
use student_service.Students.List.Query.{page_length}

pub page_length_pos : (n : ℤ) → 0 < page_length n
unfolding page_size_of
page_length_pos n = ground arith
