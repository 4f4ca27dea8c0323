-- ===== src/Http/Router/Answers.antt =====
-- What every request is answered with, and what an error leaves unchanged.
use student_service.Common.{◌≡◌, refl, Bool, true, false, Option, String, Bool-cases, inl, inr}
use student_service.Store.Rows.{Tables}
use student_service.Store.Laws.{StudentLaws, ClassLaws, MessageLaws, TransactionLaws, SessionLaws}
use student_service.Students.World.{World}
use student_service.Http.{Server, Response, Context}
use student_service.Http.Observed.{
  clocked, counted-Holds, logged-Holds, prometheus_middleware, request_logger,
}
use student_service.Http.Router.Statuses.{answered_in, is_success}
use student_service.Http.Router.{
  Route, full_path, behind_token, limited, rate_limit_middleware, serve,
}
use student_service.Http.Router.Behind.{
  statuses, token_statuses, more_statuses, keeps_on_error, KeptIf, behind_token-HandledIf,
}

module _ {Q S Seed Db R K L F W : Type 0} (x : Context Q S Seed Db R K L F W)
    (like : String → String → Bool) (is_zero : S → Bool) (view saved : Db → Tables S)
    (messages : MessageLaws x.gorm view) (students : StudentLaws x.gorm like is_zero view)
    (classes : ClassLaws x.gorm view) (transactions : TransactionLaws x.gorm view)
    (sessions : SessionLaws x.gorm view saved)
    (quiet : (v : World S Seed Db R) → view (x.others v).db ≡ view v.db) where
  -- While the other sessions leave the tables alone, every request that is answered gets one of the
  -- statuses of its route: 200, 400 or 500, 404 or 409 where a student is looked for or added, 401 where
  -- the token is wanted, and 429; and a request without the status 200, or without an answer, has changed
  -- no table, unless it is an addition by the version column.
  pub serve_answers :
      (route : Route) (q : Q) (s : Server S Seed Db R K L)
      → let (r, s') = serve x route q s in
        (answered_in (statuses route) r ≡ true)
        × (keeps_on_error route ≡ true → is_success r ≡ false → view s'.world.db ≡ view s.world.db)
  unfolding serve rate_limit_middleware prometheus_middleware request_logger
  serve_answers route q s =
      let (allowed, limiters) =
        limited x.new_limiter (x.allow s.clock) (x.gin.client_ip q) s.limiters in
      let s' : Server S Seed Db R K L = record s { limiters = limiters } in
      let s'' = clocked x (clocked x s') in
      let I : Option (Response S) → World S Seed Db R → K → Type 0 = λ r w k.
        (answered_in (token_statuses route) r ≡ true)
        × KeptIf x like is_zero view saved messages students classes transactions sessions quiet
            (keeps_on_error route) (view s.world.db) r w in
      elim (Bool-cases (limited x.new_limiter (x.allow s.clock) (x.gin.client_ip q) s.limiters).0) [
        | inr e ↦ rw (e, serve, rate_limit_middleware) (refl, λ _ _. refl)
        | inl e ↦
            let h =
              behind_token-HandledIf x like is_zero view saved messages students classes
                transactions sessions quiet route q s'' in
            let a = request_logger x (behind_token x route q) q (clocked x s') in
            let held =
              counted-Holds x I (full_path route) q s'.clock a (
                logged-Holds x I q (clocked x s').clock (behind_token x route q s'')
                  (h.0.0, h.1)) in
            rw (e, serve, rate_limit_middleware)
              (more_statuses 429 (token_statuses route) _ held.0, held.1)
      ]
