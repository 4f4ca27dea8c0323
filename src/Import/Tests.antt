-- ===== src/Import/Tests.antt =====
-- The import on a concrete sheet and on concrete messages.
use student_service.Common.{ℤ, pos, ◌≡◌, refl, List, [], ◌∷◌, String}
use student_service.Result.{ok}
use student_service.Broker.{Cluster, accepted, lost}
use student_service.Store.Memory.{Memory}
use student_service.Import.{Excelize, parse_student_excel, students_of, parse_rows, parse_row}
use student_service.Import.Cells.{trim_space, trim_left, trim_right, atoi, digits_from}
use student_service.Import.Excel.{Parsed, parse_student_excel-Parsed}
use student_service.Import.Consumer.{Message, Importer, flush_batch}
use student_service.Import.Consumer.Claims.{
  ClaimAction, begin_claim, receive, write_batch, end_claim, Claims, claim_step, claim_steps,
  take_or_mark,
}
use student_service.Import.Consumer.Claims.Conserved.{Conserved}
use student_service.Fixture.{cents, env, gorm, holding, school, named}

-- Files are the rows of their one sheet.
abbrev sheets : Excelize (List (List String)) (List (List String))
sheets = record {
  open_reader = λ rows. ok rows;
  get_sheet_name = λ n rows. "Sheet1";
  get_rows = λ name rows. ok rows;
}

abbrev sheet : List (List String)
sheet =
    ("name" ∷ "score" ∷ "class" ∷ [])
    ∷ (" eve " ∷ "90" ∷ "2" ∷ [])
    ∷ ("  " ∷ "90" ∷ [])
    ∷ ("fay" ∷ "A" ∷ "-1" ∷ [])
    ∷ []

two_rows :
    parse_student_excel cents sheets sheet
    ≡ ok (record (named "eve") { score = pos 9000; class_id = pos 2 } ∷ named "fay" ∷ [])
unfolding parse_student_excel students_of parse_rows parse_row trim_space trim_left trim_right atoi
    digits_from
two_rows = refl

parse_student_excel-Parsed_example :
    Parsed cents sheets sheet (parse_student_excel cents sheets sheet)
parse_student_excel-Parsed_example = parse_student_excel-Parsed cents sheets sheet

-- The second send fails.
abbrev topic : Cluster
topic = record { log = []; fates = accepted ∷ lost ∷ [] }

abbrev delivery : List Message
delivery =
    record { offset = 1; value = "eve" }
    ∷ record { offset = 2; value = "nil" }
    ∷ record { offset = 3; value = "fay" }
    ∷ record { offset = 4; value = "gil" }
    ∷ []

abbrev handler : Importer ℤ (Memory ℤ)
handler = record {
  batch_size = pos 2;
  pending = named "old" ∷ [];
  db = holding school [];
  marked = [];
}

-- A second claim begins while the first one's student is in the buffer.
abbrev interleaving : List ClaimAction
interleaving =
    begin_claim
    ∷ receive (record { offset = 1; value = "eve" })
    ∷ begin_claim
    ∷ receive (record { offset = 2; value = "fay" })
    ∷ end_claim
    ∷ write_batch 0
    ∷ []

abbrev claims : Claims ℤ (Memory ℤ)
claims = record {
  importer = record { batch_size = pos 2; pending = []; db = holding school []; marked = [] };
  under_way = [];
  written = [];
  dropped = [];
}

dropped_test :
    ((claim_steps env gorm interleaving claims).dropped ≡ named "eve" ∷ [])
    × ((claim_steps env gorm interleaving claims).written ≡ named "fay" ∷ [])
unfolding claim_steps claim_step take_or_mark flush_batch
dropped_test = (refl, refl)
