-- ===== src/Http.antt =====
-- The HTTP layer: the handlers of controller/student_controller.go, with `Success` and `Fail` of
-- utils/response.go. gin is a parameter: how it reads a request and binds its parts. The routes and
-- the middleware are in Http/Router.
pub mod Observed
pub mod Router
mod Tests
use student_service.Common.{
  ℕ, ◌-◌, ℤ, Bool, true, false, ◌||◌, Option, none, some, List, [], ◌∷◌, ◌++◌, String, str_eq,
  text_append, has_suffix, if◌then◌else◌,
}
use student_service.Model.{Student, StudentListQuery}
use student_service.Result.{Error, Result, ok, err}
use student_service.Env.{Env}
use student_service.Redis.{Redis}
use student_service.Broker.{Producer}
use student_service.Session.{Session}
use student_service.Store.{Gorm}
use student_service.Students.World.{World}
use student_service.Students.List.{get_student_list, get_deleted_student_list}
use student_service.Students.Write
use student_service.Students.Score.{
  add_student_score_with_pessimistic_lock, add_student_score_with_optimistic_lock,
}
use student_service.Students.Get
use student_service.Import.{Excelize, import_students}
use student_service.Import.Cells.{atoi}

-- The body that `UpdateStudent` binds.
pub record UpdateRequest (S : Type 0) : Type 0 where
  pub name : String
  pub score : S
  pub class_id : ℤ

-- What gin gives of a request `Q`: headers, the parameter `id`, the address, and bound parts, which are
-- errors when they do not bind or do not meet their `binding` tags. A form file has a name, and
-- opening it may fail.
pub record Gin (Q S F : Type 0) : Type 0 where
  pub get_header : String → Q → String
  pub param_id : Q → String
  pub client_ip : Q → String
  -- `Request.Method` and `Request.URL.Path`.
  pub method : Q → String
  pub url_path : Q → String
  pub bind_name : Q → Result String
  pub bind_list_query : Q → Result StudentListQuery
  pub bind_student : Q → Result (Student S)
  pub bind_update : Q → Result (UpdateRequest S)
  pub bind_add_score : Q → Result S
  pub form_file : Q → Result (String × Result F)

-- What a response carries as its data.
pub data Body (S : Type 0) : Type 0 where
  no_data : Body S
  one_student : Student S → Body S
  many_students : List (Student S) → Body S
  -- `CursorPageResult`: the list, the page size, the last id, and whether there are more.
  page_result : List (Student S) → ℤ → ℤ → Bool → Body S
  -- Totals, successes and failures of an import.
  import_result : ℕ → ℕ → ℕ → Body S

pub record Response (S : Type 0) : Type 0 where
  pub code : ℕ
  pub message : String
  pub body : Body S

module _ {S : Type 0} where
  -- `utils.Success` and `utils.Fail`: the code is the status of the response too.
  abbrev pub success : Body S → Response S
  success body = record { code = 200; message = "操作成功"; body = body }

  abbrev pub fail : ℕ → String → Response S
  fail code message = record { code = code; message = message; body = no_data }

  -- The answer to an error of a service: one text has a code of its own.
  abbrev pub fail_unless : String → ℕ → Error → Response S
  fail_unless special code e = if str_eq e.text special then fail code e.text else fail 500 e.text

  abbrev pub page_response : ℤ → Result (List (Student S) × ℤ × Bool) → Response S
  page_response size (err e) = fail 500 e.text
  page_response size (ok (students, last, more)) = success (page_result students size last more)

  abbrev pub student_response : String → ℕ → Result (Student S) → Response S
  student_response special code (err e) = fail_unless special code e
  student_response special code (ok s) = success (one_student s)

  abbrev pub score_response : Option Error → Response S
  score_response none = success no_data
  score_response (some e) = fail 500 e.text

  abbrev pub import_response : ℕ × ℕ × Option Error → Response S
  import_response (total, sent, some e) = fail 400 (text_append "导入失败" e.text)
  import_response (total, sent, none) = success (import_result total sent (total - sent))

-- What the middleware records of a request: the labels and the value for the counter and the histogram
-- of middleware/prometheus.go, and the line of middleware/logger.go.
pub record Observation : Type 0 where
  pub path : String
  pub method : String
  pub status : String
  pub duration : ℕ

pub record AccessLine : Type 0 where
  pub status_code : ℕ
  pub cost : ℕ
  pub client_ip : String
  pub method : String
  pub path : String

-- The state behind the handlers.
pub record Server (S Seed Db R K L : Type 0) : Type 0 where
  pub world : World S Seed Db R
  pub producer_state : K
  -- The limiters by address.
  pub limiters : List (String × L)
  pub metrics : List Observation
  pub access_log : List AccessLine
  -- The clock that the middleware reads, in nanoseconds.
  pub clock : ℕ

-- The libraries, and what the rest of the system does while a call sleeps or waits.
pub record Context (Q S Seed Db R K L F W : Type 0) : Type 0 where
  pub gin : Gin Q S F
  pub env : Env S Seed
  pub gorm : Gorm S Db (Session S Seed)
  pub redis : Redis R
  pub producer : Producer K
  pub excelize : Excelize F W
  -- `rate.NewLimiter(10, 20)` and `Allow` of golang.org/x/time/rate.
  pub new_limiter : L
  pub allow : ℕ → L → Bool × L
  -- `config.GlobalConfig.Auth`.
  pub token_header : String
  pub token : String
  pub others : World S Seed Db R → World S Seed Db R
  pub other_sessions : Db → Db
  -- How often a read may sleep for the lock.
  pub waits : ℕ

module _ {Q S Seed Db R K L F W : Type 0} (x : Context Q S Seed Db R K L F W) where
  -- A handler answers, unless its read sleeps too often.
  abbrev pub Handler : Type 0
  Handler = Q → Server S Seed Db R K L → Option (Response S) × Server S Seed Db R K L

  abbrev pub bad_request : Error → Response S
  bad_request e = fail 400 (text_append "参数错误" e.text)

  abbrev pub with_world : Server S Seed Db R K L → World S Seed Db R → Server S Seed Db R K L
  with_world s w = record s { world = w }

  -- The handlers keep their names, with `handle_` in front.
  unfoldable pub handle_student_by_name : Handler
  handle_student_by_name q s = elim (x.gin.bind_name q) [
    | err e ↦ (some (bad_request e), s)
    | ok name ↦
        let (r, w) = Get.get_student_by_name x.env x.gorm x.redis name s.world in
        (
          some (elim r [ err e ↦ fail 500 e.text | ok ss ↦ success (many_students ss) ]),
          with_world s w,
        )
  ]

  unfoldable pub handle_all_students : Handler
  handle_all_students q s = elim (x.gin.bind_list_query q) [
    | err e ↦ (some (bad_request e), s)
    | ok query ↦
        let (r, db) = get_student_list x.gorm query s.world.db in
        (some (page_response query.page_size r), with_world s (record s.world { db = db }))
  ]

  unfoldable pub handle_delete_students : Handler
  handle_delete_students q s = elim (x.gin.bind_list_query q) [
    | err e ↦ (some (bad_request e), s)
    | ok query ↦
        let (r, db) = get_deleted_student_list x.gorm query s.world.db in
        (some (page_response query.page_size r), with_world s (record s.world { db = db }))
  ]

  abbrev pub bad_id : Response S
  bad_id = fail 400 "id格式错误"

  unfoldable pub handle_get_student : Handler
  handle_get_student q s = elim (atoi (x.gin.param_id q)) [
    | none ↦ (some bad_id, s)
    | some id ↦
        let (r, w) = Get.get_student_by_id x.env x.gorm x.redis x.others x.waits id s.world in
        (elim r [ none ↦ none | some a ↦ some (student_response "学生不存在" 404 a) ], with_world s w)
  ]

  unfoldable pub handle_add_student : Handler
  handle_add_student q s = elim (x.gin.bind_student q) [
    | err e ↦ (some (bad_request e), s)
    | ok given ↦
        let (r, w) = Write.add_student x.env x.gorm x.redis given s.world in
        (some (student_response "学生已存在" 409 r), with_world s w)
  ]

  unfoldable pub handle_update_student : Handler
  handle_update_student q s = elim (atoi (x.gin.param_id q)) [
    | none ↦ (some bad_id, s)
    | some id ↦ elim (x.gin.bind_update q) [
      | err e ↦ (some (bad_request e), s)
      | ok u ↦
          let (r, w) =
            Write.update_student x.env x.gorm x.redis id u.name u.score u.class_id s.world in
          (some (student_response "学生不存在" 404 r), with_world s w)
    ]
  ]

  unfoldable pub handle_delete_student : Handler
  handle_delete_student q s = elim (atoi (x.gin.param_id q)) [
    | none ↦ (some bad_id, s)
    | some id ↦
        let (r, w) = Write.delete_student x.env x.gorm x.redis id s.world in
        (some (student_response "学生不存在" 404 r), with_world s w)
  ]

  unfoldable pub handle_add_score_pessimistic : Handler
  handle_add_score_pessimistic q s = elim (atoi (x.gin.param_id q)) [
    | none ↦ (some bad_id, s)
    | some id ↦ elim (x.gin.bind_add_score q) [
      | err e ↦ (some (fail 400 "参数错误"), s)
      | ok add_score ↦
          let (e, db) =
            add_student_score_with_pessimistic_lock x.env.float x.gorm id add_score s.world.db in
          (some (score_response e), with_world s (record s.world { db = db }))
    ]
  ]

  unfoldable pub handle_add_score_optimistic : Handler
  handle_add_score_optimistic q s = elim (atoi (x.gin.param_id q)) [
    | none ↦ (some bad_id, s)
    | some id ↦ elim (x.gin.bind_add_score q) [
      | err e ↦ (some (fail 400 "参数错误"), s)
      | ok add_score ↦
          let (e, db) =
            add_student_score_with_optimistic_lock x.env.float x.gorm x.other_sessions id add_score
              s.world.db in
          (some (score_response e), with_world s (record s.world { db = db }))
    ]
  ]

  -- What `ImportStudents` does with a file of an accepted name.
  unfoldable pub import_file :
      Result F → Server S Seed Db R K L → Option (Response S) × Server S Seed Db R K L
  import_file (err e) s = (some (fail 500 (text_append "文件打开失败: " e.text)), s)
  import_file (ok f) s =
      let (counts, k) = import_students x.env x.producer x.excelize f s.producer_state in
      (some (import_response counts), record s { producer_state = k })

  unfoldable pub handle_import_students : Handler
  handle_import_students q s = elim (x.gin.form_file q) [
    | err e ↦ (some (fail 400 "请上传文件，参数名：file"), s)
    | ok (filename, file) ↦
        if has_suffix filename ".xlsx" || has_suffix filename ".XLSX"
        then import_file file s
        else (some (fail 400 "只支持 .xlsx 格式的Excel文件"), s)
  ]
