-- ===== src/Http/Observed.antt =====
-- middleware/prometheus.go and middleware/logger.go: what is recorded of a request that is answered.
-- Durations stay in nanoseconds; Prometheus is given seconds.
use student_service.Common.{
  ℕ, ◌-◌, pos, Option, none, some, [], ◌∷◌, ◌++◌, String, str_eq, show_int, if◌then◌else◌,
}
use student_service.Students.World.{World}
use student_service.Http.{Server, Response, Context}

module _ {Q S Seed Db R K L F W : Type 0} (x : Context Q S Seed Db R K L F W) where
  -- A handler with its request, or a chain that ends in one: `c.Next()`.
  abbrev pub Next : Type 0
  Next = Server S Seed Db R K L → Option (Response S) × Server S Seed Db R K L

  -- `time.Now()`.
  abbrev pub clocked : Server S Seed Db R K L → Server S Seed Db R K L
  clocked s = record s { clock = x.env.later s.clock }

  abbrev pub labelled_path : String → Q → String
  labelled_path full_path q = if str_eq full_path "" then x.gin.url_path q else full_path

  abbrev pub Answer : Type 0
  Answer = Option (Response S) × Server S Seed Db R K L

  -- What `PrometheusMiddleware` does after `c.Next()`, which has started at a time.
  abbrev pub counted : String → Q → ℕ → Answer → Answer
  counted full_path q start (none, s) = (none, s)
  counted full_path q start (some response, s) = (
    some response,
    record (clocked s) {
      metrics =
          s.metrics
          ++ record {
            path = labelled_path full_path q;
            method = x.gin.method q;
            status = show_int (pos response.code);
            duration = s.clock - start;
          }
            ∷ [];
    },
  )

  -- `PrometheusMiddleware`; `full_path` is the pattern of the route.
  unfoldable pub prometheus_middleware : String → Next → Q → Next
  prometheus_middleware full_path next q s = counted full_path q s.clock (next (clocked s))

  -- What `RequestLogger` does after `c.Next()`.
  abbrev pub logged : Q → ℕ → Answer → Answer
  logged q start (none, s) = (none, s)
  logged q start (some response, s) = (
    some response,
    record (clocked s) {
      access_log =
          s.access_log
          ++ record {
            status_code = response.code;
            cost = s.clock - start;
            client_ip = x.gin.client_ip q;
            method = x.gin.method q;
            path = x.gin.url_path q;
          }
            ∷ [];
    },
  )

  unfoldable pub request_logger : Next → Q → Next
  request_logger next q s = logged q s.clock (next (clocked s))

  -- What holds of the answer and of what the handlers keep holds with the records made.
  abbrev Outcome : Type 1
  Outcome = Option (Response S) → World S Seed Db R → K → Type 0

  abbrev pub Holds : Outcome → Option (Response S) × Server S Seed Db R K L → Type 0
  Holds I a = I a.0 a.1.world a.1.producer_state

  pub counted-Holds :
      (I : Outcome) (full_path : String) (q : Q) (start : ℕ) (a : Answer)
      → Holds I a
      → Holds I (counted full_path q start a)
  counted-Holds I full_path q start (none, s) h = h
  counted-Holds I full_path q start (some response, s) h = h

  pub logged-Holds :
      (I : Outcome) (q : Q) (start : ℕ) (a : Answer) → Holds I a → Holds I (logged q start a)
  logged-Holds I q start (none, s) h = h
  logged-Holds I q start (some response, s) h = h
