-- ===== src/Import.antt =====
-- Importing students: utils/excel.go and service/import_service.go. The consumer of the topic is
-- kafka/import_consumer.go, in Import/Consumer. The reader of excelize is a parameter.
pub mod Cells
pub mod Excel
pub mod Numbers
pub mod Sending
pub mod Consumer
mod Tests
use student_service.Common.{
  ℕ, zero, suc, ◌+◌, ℤ, pos, ltb_ℤ, ltb, ◌==◌, Bool, true, false, not, ◌&&◌, Option, none, some,
  List, [], ◌∷◌, String, str_eq, text_append, length, if◌then◌else◌,
}
use student_service.Model.{Student}
use student_service.Result.{Error, Result, ok, err, new_error}
use student_service.Float.{Float}
use student_service.Env.{Env}
use student_service.Broker.{Producer, send_message}
use student_service.Import.Cells.{trim_space, atoi}

-- `OpenReader`, `GetSheetName` and `GetRows` of excelize: `F` are files, `W` opened workbooks.
pub record Excelize (F W : Type 0) : Type 0 where
  pub open_reader : F → Result W
  pub get_sheet_name : ℕ → W → String
  pub get_rows : String → W → Result (List (List String))

abbrev pub cell : ℕ → List String → Option String
cell n [] = none
cell zero (c ∷ cs) = some c
cell (suc n) (c ∷ cs) = cell n cs

-- The trimmed text of a cell, empty if the row is too short.
abbrev pub trimmed_cell : ℕ → List String → String
trimmed_cell n row = elim (cell n row) [ none ↦ "" | some c ↦ trim_space c ]

abbrev pub all_empty : List String → Bool
all_empty [] = true
all_empty (c ∷ cs) = if str_eq (trim_space c) "" then all_empty cs else false

abbrev pub class_id_of : String → ℤ
class_id_of class_str = elim (atoi class_str) [
  | none ↦ pos 0
  | some c ↦ if ltb_ℤ (pos 0) c then c else pos 0
]

abbrev pub rest_of : List (List String) → List (List String)
rest_of [] = []
rest_of (header ∷ rows) = rows

-- `append`, if there is something.
abbrev pub kept {ℓ} : {A : Type ℓ} → Option A → List A → List A
kept none xs = xs
kept (some x) xs = x ∷ xs

module _ {S : Type 0} (float : Float S) where
  abbrev pub score_of : String → S
  score_of score_str = elim (float.parse score_str) [
    | none ↦ float.zero
    | some s ↦ if float.le float.zero s && float.le s float.hundred then s else float.zero
  ]

  -- The student of a row, with its optional cells.
  abbrev pub row_student : List String → Student S
  row_student row =
      let score_str = trimmed_cell 1 row in
      let class_str = trimmed_cell 2 row in
      record {
        id = pos 0;
        name = trimmed_cell 0 row;
        score = if str_eq score_str "" then float.zero else score_of score_str;
        class_id = if str_eq class_str "" then pos 0 else class_id_of class_str;
        class = none;
        version = pos 0;
        deleted_at = none;
      }

  -- One turn of the loop over the rows: the student to append, if the row is not passed over.
  unfoldable pub parse_row : List String → Option (Student S)
  parse_row row =
      if all_empty row
      then none
      else if str_eq (trimmed_cell 0 row) ""
      then none
      else some (row_student row)

  unfoldable pub parse_rows : List (List String) → List (Student S)
  parse_rows [] = []
  parse_rows (row ∷ rows) = kept (parse_row row) (parse_rows rows)

  -- What is done with the rows of the sheet, the header included.
  unfoldable pub students_of : List (List String) → Result (List (Student S))
  students_of rows =
      let students = parse_rows (rest_of rows) in
      if ltb (length rows) 2
      then err (new_error "数据行不能为空，请确保第一行为表头")
      else if length students == 0
      then err (new_error "未解析到任何有效学生数据")
      else ok students

  module _ {F W : Type 0} (excelize : Excelize F W) where
    unfoldable pub parse_student_excel : F → Result (List (Student S))
    parse_student_excel reader = elim (excelize.open_reader reader) [
      | err e ↦ err (new_error (text_append "Excel文件格式错误: " e.text))
      | ok f ↦
          let sheet_name = excelize.get_sheet_name 0 f in
          if str_eq sheet_name ""
          then err (new_error "Excel文件为空")
          else elim (excelize.get_rows sheet_name f) [
            | err e ↦ err (new_error (text_append "读取Excel内容失败: " e.text))
            | ok rows ↦ students_of rows
          ]
    ]

module _ {S Seed K : Type 0} (env : Env S Seed) (producer : Producer K) where
  -- The loop of `ImportStudents`: how many of the students were sent.
  unfoldable pub send_students : List (Student S) → ℕ → K → ℕ × K
  send_students [] success k = (success, k)
  send_students (stu ∷ students) success k = elim (env.json.marshal_student stu) [
    | err e ↦ send_students students success k
    | ok data_ ↦
        let (e, k') = send_message producer env.topic_import stu.name data_ k in
        elim e [
          | some x ↦ send_students students success k'
          | none ↦ send_students students (success + 1) k'
        ]
  ]

  -- The total, the successes, and the error.
  unfoldable pub import_students :
      {F W : Type 0} → Excelize F W → F → K → (ℕ × ℕ × Option Error) × K
  import_students excelize file k = elim (parse_student_excel env.float excelize file) [
    | err e ↦ ((0, 0, some e), k)
    | ok students ↦
        let (success, k') = send_students students 0 k in ((length students, success, none), k')
  ]
