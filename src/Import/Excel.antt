-- ===== src/Import/Excel.antt =====
-- What the students that utils/excel.go reads are like.
use student_service.Common.{
  ℕ, suc, pos, ◌≤ℤ◌, ◌≤◌, ◌<◌, ltb, ◌==◌, ◌≡◌, refl, ◌⊎◌, inl, inr, true, false, Option, none, some,
  List, [], ◌∷◌, String, str_eq, length, All, arith, Bool-cases, Option-cases,
}
use student_service.Model.{Student}
use student_service.Result.{Result, ok, err, Result-cases}
use student_service.Float.{Float}
use student_service.Import.{
  Excelize, cell, trimmed_cell, all_empty, class_id_of, rest_of, kept, row_student, score_of,
  parse_row, parse_rows, students_of, parse_student_excel,
}
use student_service.Import.Cells.{trim_space, trim_space_twice, trim_space_empty}

module _ {A : Type 0} where
  length-empty : (xs : List A) → length xs ≡ 0 → xs ≡ []
  length-empty [] h = refl
  length-empty (x ∷ xs) h = absurd (omega (arith, h))

  abbrev AllOf : (A → Type 0) → Option A → Type 0
  AllOf P none = Unit
  AllOf P (some x) = P x

  All-kept :
      (P : A → Type 0) (o : Option A) (xs : List A) → AllOf P o → All P xs → All P (kept o xs)
  All-kept P none xs h k = k
  All-kept P (some x) xs h k = (h, k)

  length-kept : (o : Option A) (xs : List A) → length (kept o xs) ≤ suc (length xs)
  length-kept none xs = omega arith
  length-kept (some x) xs = omega arith

module _ {S : Type 0} (float : Float S) where
  -- A student as a row of the sheet gives it.
  pub record Valid (s : Student S) : Type 0 where
    pub has_name : str_eq s.name "" ≡ false
    pub is_trimmed : trim_space s.name ≡ s.name
    pub in_range :
        (s.score ≡ float.zero)
        ⊎ ((float.le float.zero s.score ≡ true) × (float.le s.score float.hundred ≡ true))
    pub class_or_none : pos 0 ≤ℤ s.class_id
    pub no_key : s.id ≡ pos 0
    pub is_live : s.deleted_at ≡ none

  trimmed_cell-trimmed :
      (n : ℕ) (row : List String) → trim_space (trimmed_cell n row) ≡ trimmed_cell n row
  trimmed_cell-trimmed n row = elim (Option-cases (cell n row)) [
    | inl e ↦ rw (e, trimmed_cell) trim_space_empty
    | inr (c, e) ↦ rw (e, trimmed_cell) (trim_space_twice c)
  ]

  score_of-in_range :
      (t : String)
      → (score_of float t ≡ float.zero)
        ⊎ ((float.le float.zero (score_of float t) ≡ true)
            × (float.le (score_of float t) float.hundred ≡ true))
  score_of-in_range t = ground arith

  class_id_of-nonneg : (t : String) → pos 0 ≤ℤ class_id_of t
  class_id_of-nonneg t = ground arith

  row_student-Valid :
      (row : List String) → str_eq (trimmed_cell 0 row) "" ≡ false → Valid (row_student float row)
  row_student-Valid row h = record {
    has_name = h;
    is_trimmed = trimmed_cell-trimmed 0 row;
    in_range = elim (Bool-cases (str_eq (trimmed_cell 1 row) "")) [
      | inl e ↦ rw e (inl refl)
      | inr e ↦ rw e (score_of-in_range (trimmed_cell 1 row))
    ];
    class_or_none = elim (Bool-cases (str_eq (trimmed_cell 2 row) "")) [
      | inl e ↦ ground arith
      | inr e ↦ rw e (class_id_of-nonneg (trimmed_cell 2 row))
    ];
    no_key = refl;
    is_live = refl;
  }

  parse_row-Valid : (row : List String) → AllOf Valid (parse_row float row)
  unfolding parse_row
  parse_row-Valid row = elim (Bool-cases (all_empty row)) [
    | inl e ↦ rw (e, parse_row) tt
    | inr e ↦ elim (Bool-cases (str_eq (trimmed_cell 0 row) "")) [
      | inl e' ↦ rw (e, e', parse_row) tt
      | inr e' ↦ rw (e, e', parse_row) (row_student-Valid row e')
    ]
  ]

  parse_rows-Valid : (rows : List (List String)) → All Valid (parse_rows float rows)
  unfolding parse_rows
  parse_rows-Valid [] = tt
  parse_rows-Valid (row ∷ rows) =
      All-kept Valid (parse_row float row) (parse_rows float rows) (parse_row-Valid row)
        (parse_rows-Valid rows)

  parse_rows-length : (rows : List (List String)) → length (parse_rows float rows) ≤ length rows
  unfolding parse_rows
  parse_rows-length [] = omega arith
  parse_rows-length (row ∷ rows) =
      omega
        (arith, length-kept (parse_row float row) (parse_rows float rows), parse_rows-length rows)

  -- How `ParseStudentExcel` ends on the rows of a sheet.
  abbrev pub ParseEnds : List (List String) → Result (List (Student S)) → Type 0
  ParseEnds rows (ok students) =
      All Valid students × (0 < length students) × (length students < length rows)
  ParseEnds rows (err e) = ◌≡◌ {A = List (Student S)} (parse_rows float (rest_of rows)) []

  students_of_ends : (rows : List (List String)) → ParseEnds rows (students_of float rows)
  unfolding students_of parse_rows
  students_of_ends [] = refl
  students_of_ends (header ∷ []) = refl
  students_of_ends (header ∷ row ∷ rows) =
      let students = parse_rows float (row ∷ rows) in
      let enough : ltb (length (header ∷ row ∷ rows)) 2 ≡ false = ground arith in
      elim (Bool-cases (length students == 0)) [
        | inl e ↦ rw (enough, e, students_of) (length-empty students (ground arith))
        | inr e ↦
            rw (enough, e, students_of)
              (
                parse_rows-Valid (row ∷ rows),
                ground arith,
                omega (arith, parse_rows-length (row ∷ rows)),
              )
      ]

  module _ {F W : Type 0} (excelize : Excelize F W) where
    -- The sheet that a call of `ParseStudentExcel` read, and what it made of it.
    abbrev pub Parsed : F → Result (List (Student S)) → Type 0
    Parsed reader (ok students) =
        (f : W) × (rows : List (List String)) × (excelize.open_reader reader ≡ ok f)
        × (excelize.get_rows (excelize.get_sheet_name 0 f) f ≡ ok rows)
        × All Valid students
        × (0 < length students)
        × (length students < length rows)
    Parsed reader (err e) =
        (f : W) (rows : List (List String))
        → str_eq (excelize.get_sheet_name 0 f) "" ≡ false
        → excelize.open_reader reader ≡ ok f
        → excelize.get_rows (excelize.get_sheet_name 0 f) f ≡ ok rows
        → ◌≡◌ {A = List (Student S)} (parse_rows float (rest_of rows)) []

    read_sheet :
        (reader : F) (f : W) (rows : List (List String)) (r : Result (List (Student S)))
        → excelize.open_reader reader ≡ ok f
        → excelize.get_rows (excelize.get_sheet_name 0 f) f ≡ ok rows
        → ParseEnds rows r
        → Parsed reader r
    read_sheet reader f rows (ok students) o g h = (f, rows, o, g, h.0, h.1, h.2)
    read_sheet reader f rows (err e) o g h = λ f' rows' n o' g'. cc

    -- Reading a workbook ends in one of two ways. With students: there is at least one, and fewer than
    -- the first sheet has rows; each has a trimmed name that is not empty, a score that is the zero or
    -- in the range from the zero to the hundred, and a class that is not negative; none has a key yet.
    -- With an error: the file or its first sheet cannot be read, or no row behind the header gives a
    -- student.
    pub parse_student_excel-Parsed :
        (reader : F) → Parsed reader (parse_student_excel float excelize reader)
    unfolding parse_student_excel
    parse_student_excel-Parsed reader = elim (Result-cases (excelize.open_reader reader)) [
      | inr (e, o) ↦ rw (o, parse_student_excel) (λ f' rows' n o' g'. cc)
      | inl (f, o) ↦ elim (Bool-cases (str_eq (excelize.get_sheet_name 0 f) "")) [
        | inl n ↦ rw (o, parse_student_excel) (rw n (λ f' rows' n' o' g'. cc))
        | inr n ↦ elim (Result-cases (excelize.get_rows (excelize.get_sheet_name 0 f) f)) [
          | inr (e, g) ↦ rw (o, parse_student_excel) (rw (n, g) (λ f' rows' n' o' g'. cc))
          | inl (rows, g) ↦
              rw (o, parse_student_excel)
                (rw (n, g)
                  (read_sheet reader f rows (students_of float rows) o g (students_of_ends rows)))
        ]
      ]
    ]
