-- ===== src/Http/Router/Records.antt =====
-- What is recorded of a request.
use student_service.Common.{
  ℕ, ◌-◌, pos, ◌≡◌, refl, Bool, true, false, none, some, [], ◌∷◌, ◌++◌, String, show_int,
}
use student_service.Store.Rows.{Tables}
use student_service.Store.Laws.{StudentLaws, ClassLaws, MessageLaws, TransactionLaws, SessionLaws}
use student_service.Students.World.{World}
use student_service.Http.{Server, Context}
use student_service.Http.Observed.{
  Answer, clocked, counted, logged, labelled_path, prometheus_middleware, request_logger,
}
use student_service.Http.Router.{
  Route, all_students, get_student, deleted_students, search_students, add_student, update_student,
  delete_student, add_score_pessimistic, add_score_optimistic, import_students, full_path,
  behind_token, limited, rate_limit_middleware, serve,
}
use student_service.Http.Router.Behind.{behind_token-HandledIf}

module _ {Q S Seed Db R K L F W : Type 0} (x : Context Q S Seed Db R K L F W)
    (like : String → String → Bool) (is_zero : S → Bool) (view saved : Db → Tables S)
    (messages : MessageLaws x.gorm view) (students : StudentLaws x.gorm like is_zero view)
    (classes : ClassLaws x.gorm view) (transactions : TransactionLaws x.gorm view)
    (sessions : SessionLaws x.gorm view saved)
    (quiet : (v : World S Seed Db R) → view (x.others v).db ≡ view v.db) where
  -- One observation under the pattern of the route and one line, both with the status of the answer;
  -- none without an answer.
  abbrev pub Recorded : Route → Q → Server S Seed Db R K L → Answer x → Type 0
  Recorded route q s (none, s') = (s'.metrics ≡ s.metrics) × (s'.access_log ≡ s.access_log)
  Recorded route q s (some r, s') =
      ((duration : ℕ) × (s'.metrics
          ≡ s.metrics
            ++ record {
              path = full_path route;
              method = x.gin.method q;
              status = show_int (pos r.code);
              duration = duration;
            }
              ∷ []))
      × ((cost : ℕ) × (s'.access_log
            ≡ s.access_log
              ++ record {
                status_code = r.code;
                cost = cost;
                client_ip = x.gin.client_ip q;
                method = x.gin.method q;
                path = x.gin.url_path q;
              }
                ∷ []))

  full_path-labelled :
      (route : Route) (q : Q) → labelled_path x (full_path route) q ≡ full_path route
  unfolding full_path
  full_path-labelled all_students q = refl
  full_path-labelled get_student q = refl
  full_path-labelled deleted_students q = refl
  full_path-labelled search_students q = refl
  full_path-labelled add_student q = refl
  full_path-labelled update_student q = refl
  full_path-labelled delete_student q = refl
  full_path-labelled add_score_pessimistic q = refl
  full_path-labelled add_score_optimistic q = refl
  full_path-labelled import_students q = refl

  recorded :
      (route : Route) (q : Q) (start start' : ℕ) (s : Server S Seed Db R K L) (a : Answer x)
      → a.1.metrics ≡ s.metrics
      → a.1.access_log ≡ s.access_log
      → Recorded route q s (counted x (full_path route) q start (logged x q start' a))
  recorded route q start start' s (none, s') m l = (m, l)
  recorded route q start start' s (some r, s') m l =
      rw (full_path-labelled route q, m, l)
        ((x.env.later s'.clock - start, refl), (s'.clock - start', refl))

  -- While the other sessions leave the tables alone, a request that the limiter refuses leaves no record,
  -- and any other is recorded once for the metrics and once in the access log, with the status that it is
  -- answered with, if it is answered.
  pub serve-Recorded :
      (route : Route) (q : Q) (s : Server S Seed Db R K L)
      → let (allowed, _) = limited x.new_limiter (x.allow s.clock) (x.gin.client_ip q) s.limiters in
        let a = serve x route q s in
        (allowed ≡ true → Recorded route q s a)
        × (allowed ≡ false → (a.1.metrics ≡ s.metrics) × (a.1.access_log ≡ s.access_log))
  unfolding serve rate_limit_middleware prometheus_middleware request_logger
  serve-Recorded route q s =
      let (allowed, limiters) =
        limited x.new_limiter (x.allow s.clock) (x.gin.client_ip q) s.limiters in
      let s' : Server S Seed Db R K L = record s { limiters = limiters } in
      let s'' = clocked x (clocked x s') in
      let h =
        behind_token-HandledIf x like is_zero view saved messages students classes transactions
          sessions quiet route q s'' in
      (
        λ e.
            rw (e, serve, rate_limit_middleware)
              (recorded route q s'.clock (clocked x s').clock s (behind_token x route q s'') h.0.1.0
                h.0.1.1),
        λ e. rw (e, serve, rate_limit_middleware) (refl, refl),
      )
