-- ===== src/Http/Tests.antt =====
-- Requests on a concrete server.
use student_service.Common.{
  ℕ, zero, suc, ℤ, pos, ◌≡◌, refl, Bool, true, false, some, List, [], ◌∷◌, String, str_eq,
  if◌then◌else◌,
}
use student_service.Result.{ok, err, new_error}
use student_service.Broker.{Cluster, cluster}
use student_service.Redis.Memory.{Cache, cache}
use student_service.Session.{Session}
use student_service.Store.Memory.{Memory}
use student_service.Store.Memory.Meets.{
  view, saved, memory-ClassLaws, memory-StudentLaws, memory-MessageLaws, memory-TransactionLaws,
  memory-SessionLaws,
}
use student_service.Store.Laws.{MessageLaws}
use student_service.Http.Router.Statuses.{answered_in, is_success}
use student_service.Http.Router.Behind.{statuses, keeps_on_error}
use student_service.Http.Router.Answers.{serve_answers}
use student_service.Http.Router.Records.{Recorded, serve-Recorded}
use student_service.Http.Router.Limits.{answers_to, answers_to-alone}
use student_service.Http.{Gin, Server, Context, fail}
use student_service.Http.Router.{
  delete_student, in_auth_group, serve, limited, auth_middleware, rate_limit_middleware,
  behind_token,
}
use student_service.Http.Observed.{prometheus_middleware, request_logger}
use student_service.Fixture.{cents, env, exact, gorm, holding, school, named, blank_session}

-- A request is its token.
abbrev requests : Gin String ℤ (List (List String))
requests = record {
  get_header = λ name q. if str_eq name "token" then q else "";
  param_id = λ q. "1";
  client_ip = λ q. "10.0.0.1";
  method = λ q. "DELETE";
  url_path = λ q. "/api/v1/student/1";
  bind_name = λ q. ok "ann";
  bind_list_query = λ q. ok (record { class_id = pos 0; page_size = pos 1; last_id = pos 0 });
  bind_student = λ q. ok (named "eve");
  bind_update = λ q. ok (record { name = "anna"; score = pos 9500; class_id = pos 1 });
  bind_add_score = λ q. ok (pos 50);
  form_file = λ q. err (new_error "http: no such file");
}

-- A limiter is the number of requests that it still allows.
abbrev spend : ℕ → Bool × ℕ
spend zero = (false, zero)
spend (suc n) = (true, n)

abbrev context :
    Context String ℤ ℕ (Memory ℤ) Cache Cluster ℕ (List (List String)) (List (List String))
context = record {
  gin = requests;
  env = env;
  gorm = gorm;
  redis = cache;
  producer = cluster;
  excelize = record {
    open_reader = λ rows. ok rows;
    get_sheet_name = λ n rows. "Sheet1";
    get_rows = λ name rows. ok rows;
  };
  new_limiter = 20;
  allow = λ now. spend;
  token_header = "token";
  token = "secret";
  others = λ w. w;
  other_sessions = λ db. db;
  waits = 3;
}

abbrev server : Server ℤ ℕ (Memory ℤ) Cache Cluster ℕ
server = record {
  world = record {
    db = holding school [];
    redis = record { texts = []; refused = [] };
    session = blank_session;
    events = [];
    stopped = false;
    jobs = [];
  };
  producer_state = record { log = []; fates = [] };
  limiters = [];
  metrics = [];
  access_log = [];
  clock = 0;
}

wrong_token : (serve context delete_student "guess" server).0 ≡ some (fail 401 "登录凭证无效")
unfolding serve rate_limit_middleware prometheus_middleware request_logger behind_token
    auth_middleware limited in_auth_group
wrong_token = refl

abbrev memory_laws : MessageLaws gorm view
memory_laws = memory-MessageLaws (Session ℤ ℕ) exact cents.is_zero

serve_answers_example :
    let (r, s') = serve context delete_student "guess" server in
    (answered_in (statuses delete_student) r ≡ true)
    × (keeps_on_error delete_student ≡ true → is_success r ≡ false → view s'.world.db ≡ school)
serve_answers_example =
    serve_answers context exact cents.is_zero view saved memory_laws
      (memory-StudentLaws (Session ℤ ℕ) exact cents.is_zero)
      (memory-ClassLaws (Session ℤ ℕ) exact cents.is_zero)
      (memory-TransactionLaws (Session ℤ ℕ) exact cents.is_zero)
      (memory-SessionLaws (Session ℤ ℕ) exact cents.is_zero) (λ v. refl) delete_student "guess"
      server

serve-Recorded_example :
    let (allowed, _) = limited context.new_limiter (context.allow 0) "10.0.0.1" [] in
    let a = serve context delete_student "secret" server in
    (allowed ≡ true
      → Recorded context exact cents.is_zero view saved memory_laws
          (memory-StudentLaws (Session ℤ ℕ) exact cents.is_zero)
          (memory-ClassLaws (Session ℤ ℕ) exact cents.is_zero)
          (memory-TransactionLaws (Session ℤ ℕ) exact cents.is_zero)
          (memory-SessionLaws (Session ℤ ℕ) exact cents.is_zero)
          (λ v. refl)
          delete_student
          "secret"
          server
          a)
    × (allowed ≡ false → (a.1.metrics ≡ []) × (a.1.access_log ≡ []))
serve-Recorded_example =
    serve-Recorded context exact cents.is_zero view saved memory_laws
      (memory-StudentLaws (Session ℤ ℕ) exact cents.is_zero)
      (memory-ClassLaws (Session ℤ ℕ) exact cents.is_zero)
      (memory-TransactionLaws (Session ℤ ℕ) exact cents.is_zero)
      (memory-SessionLaws (Session ℤ ℕ) exact cents.is_zero) (λ v. refl) delete_student "secret"
      server

-- Two addresses with two requests each, of which a limiter allows one.
abbrev mixed : List (ℕ × String)
mixed = (1, "10.0.0.1") ∷ (2, "10.0.0.2") ∷ (3, "10.0.0.1") ∷ (4, "10.0.0.2") ∷ []

answers_to-alone_example : answers_to 1 (λ now. spend) "10.0.0.2" mixed [] ≡ true ∷ false ∷ []
answers_to-alone_example = answers_to-alone 1 (λ now. spend) "10.0.0.2" mixed []
