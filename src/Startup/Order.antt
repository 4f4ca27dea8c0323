-- ===== src/Startup/Order.antt =====
-- main.go: the order in which the service starts, and what is stopped when it ends.
use student_service.Common.{
  ◌≡◌, refl, sym, ap, ◌∙◌, Bool, true, false, Option, none, some, Option-cases, Bool-cases, List,
  [], ◌∷◌, ◌++◌, append_assoc, String, inl, inr, any, if◌then◌else◌,
}
use student_service.Result.{Error, ok}
use student_service.Config.{Config, Viper, init_config}
use student_service.Startup.Logger.{init_logger}
use student_service.Startup.Prefix.{
  up_to_failure-append_true, up_to_failure-append_false, up_to_failure-all, any-up_to_failure,
}
use student_service.Startup.Plan.{
  connecting, consuming, serving, startup, is_error, fails, up_to_failure, stops, is_group, is_pool,
}
use student_service.Startup.{
  Call, Exit, start_consumers, after_connecting, after_consumers, serve_requests, connect, main,
}
use student_service.Startup.Runs.{connected, connected-Runs, start_consumers-Runs}

regroup :
    (made t cs ds calls : List Call)
    → made ≡ t ++ cs
    → (made ++ ds) ++ calls ≡ t ++ (cs ++ (ds ++ calls))
regroup made t cs ds calls h =
    append_assoc made ds calls ∙ ap (λ xs. xs ++ (ds ++ calls)) h ∙ append_assoc t cs (ds ++ calls)

stops_known :
    (calls : List Call) (pool group : Bool)
    → any is_pool calls ≡ pool
    → any is_group calls ≡ group
    → stops calls
      ≡ (if pool then Call.shutdown_pool ∷ [] else [])
        ++ ((if group then Call.cancel ∷ [] else []) ++ Call.sync ∷ [])
stops_known calls pool group p g = rw (p, g) refl

conclude :
    (t made calls stopped end : List Call)
    → made ≡ calls
    → end ≡ calls ++ stopped
    → stops (t ++ calls) ≡ stopped
    → t ++ end ≡ (t ++ made) ++ stops (t ++ made)
conclude t made calls stopped end m e s =
    ap (λ xs. t ++ xs) e
    ∙ sym (append_assoc t calls stopped)
    ∙ ap (λ xs. (t ++ calls) ++ xs) (sym s)
    ∙ ap (λ xs. (t ++ xs) ++ stops (t ++ xs)) (sym m)

module _ (answer : Call → Option Error) where
  serving_all : (c : Config) → up_to_failure (fails answer) (serving c) ≡ serving c
  serving_all c = elim (Bool-cases (fails answer (Call.run c.server.port))) [
    | inl e ↦ rw e refl
    | inr e ↦ rw e refl
  ]

  module _ (getenv : String → String) where
    -- What is stopped after a failure among the first calls, among those of the consumers, and at the end.
    abbrev ending : Config → List Call
    ending c =
        if any (fails answer) (connecting c)
        then up_to_failure (fails answer) (connecting c) ++ Call.sync ∷ []
        else if any (fails answer) (consuming getenv c)
        then connecting c
          ++ (up_to_failure (fails answer) (consuming getenv c) ++ Call.cancel ∷ Call.sync ∷ [])
        else connecting c
          ++ (consuming getenv c
              ++ (serving c ++ Call.shutdown_pool ∷ Call.cancel ∷ Call.sync ∷ []))

    connecting_failed :
        (c : Config) (r : Option Error × List Call)
        → is_error r.0 ≡ true
        → (after_connecting answer getenv c r).1 ≡ r.1 ++ Call.sync ∷ []
    connecting_failed c (none, t) h = absurd (cc)
    connecting_failed c (some e, t) h = refl

    connecting_done :
        (c : Config) (r : Option Error × List Call)
        → is_error r.0 ≡ false
        → after_connecting answer getenv c r
          ≡ after_consumers answer getenv c (start_consumers answer getenv c r.1)
    connecting_done c (none, t) h = refl
    connecting_done c (some e, t) h = absurd (cc)

    consumers_failed :
        (c : Config) (r : Option Error × List Call)
        → is_error r.0 ≡ true
        → (after_consumers answer getenv c r).1 ≡ r.1 ++ Call.cancel ∷ Call.sync ∷ []
    consumers_failed c (none, t) h = absurd (cc)
    consumers_failed c (some e, t) h = refl

    consumers_done :
        (c : Config) (r : Option Error × List Call)
        → is_error r.0 ≡ false
        → (after_consumers answer getenv c r).1
          ≡ r.1 ++ (serving c ++ Call.shutdown_pool ∷ Call.cancel ∷ Call.sync ∷ [])
    unfolding serve_requests
    consumers_done c (none, t) h =
        append_assoc (t ++ Call.new_pool 100 1000 ∷ Call.start_sender ∷ [])
          (Call.run c.server.port ∷ []) (Call.shutdown_pool ∷ Call.cancel ∷ Call.sync ∷ [])
        ∙ append_assoc t (Call.new_pool 100 1000 ∷ Call.start_sender ∷ []) _
    consumers_done c (some e, t) h = absurd (cc)

    connect-ending : (c : Config) (t : List Call) → (connect answer getenv c t).1 ≡ t ++ ending c
    unfolding connect
    connect-ending c t =
        let r = connected answer c t in
        let (failed, made) = connected-Runs answer c t in
        let u = start_consumers answer getenv c r.1 in
        let (consumer_failed, consumers_made) = start_consumers-Runs answer getenv c r.1 in
        elim (Bool-cases (any (fails answer) (connecting c))) [
          | inl e ↦ rw e (
              connecting_failed c r (failed ∙ e)
              ∙ ap (λ calls. calls ++ Call.sync ∷ []) made
              ∙ append_assoc t (up_to_failure (fails answer) (connecting c)) (Call.sync ∷ []))
          | inr e ↦
              let made_all : r.1 ≡ t ++ connecting c =
                made
                ∙ ap (λ calls. t ++ calls) (up_to_failure-all (fails answer) (connecting c) e) in
              let done : (connect answer getenv c t).1 ≡ (after_consumers answer getenv c u).1 =
                ap (λ (x : Exit × List Call). x.1) (connecting_done c r (failed ∙ e)) in
              elim (Bool-cases (any (fails answer) (consuming getenv c))) [
                | inl f ↦
                    rw (e, f)
                      (done
                        ∙ consumers_failed c u (consumer_failed ∙ f)
                        ∙ ap (λ calls. calls ++ Call.cancel ∷ Call.sync ∷ []) consumers_made
                        ∙ regroup r.1 t (connecting c)
                            (up_to_failure (fails answer) (consuming getenv c)) _ made_all)
                | inr f ↦
                    rw (e, f)
                      (done
                        ∙ consumers_done c u (consumer_failed ∙ f)
                        ∙ ap
                            (λ calls.
                              calls
                              ++ (serving c ++ Call.shutdown_pool ∷ Call.cancel ∷ Call.sync ∷ []))
                            consumers_made
                        ∙ regroup r.1 t (connecting c)
                            (up_to_failure (fails answer) (consuming getenv c)) _ made_all
                        ∙ ap
                            (λ calls.
                              t
                              ++ (connecting c
                                  ++ (calls
                                      ++ (serving c
                                          ++ Call.shutdown_pool ∷ Call.cancel ∷ Call.sync ∷ []))))
                            (up_to_failure-all (fails answer) (consuming getenv c) f))
              ]
        ]

    -- The calls up to the first that fails, in the three cases.
    ending-stops :
        (c : Config)
        → let t = Call.init_logger (init_logger c.logger) ∷ Call.set_mode c.server.mode ∷ [] in
          let calls =
            t ++ up_to_failure (fails answer) (connecting c ++ (consuming getenv c ++ serving c)) in
          t ++ ending c ≡ calls ++ stops calls
    ending-stops c =
        let t = Call.init_logger (init_logger c.logger) ∷ Call.set_mode c.server.mode ∷ [] in
        let f = fails answer in
        let rest = consuming getenv c ++ serving c in
        let made = up_to_failure f (connecting c ++ rest) in
        let failing = up_to_failure f (connecting c) in
        let consumers = up_to_failure f (consuming getenv c) in
        elim (Bool-cases (any f (connecting c))) [
          | inl e ↦
              conclude t made failing (Call.sync ∷ []) (ending c)
                (up_to_failure-append_true f (connecting c) rest e) (rw e refl)
                (stops_known (t ++ failing) false false
                  (any-up_to_failure f is_pool (connecting c) refl)
                  (any-up_to_failure f is_group (connecting c) refl))
          | inr e ↦ elim (Bool-cases (any f (consuming getenv c))) [
            | inl g ↦
                conclude t made (connecting c ++ consumers) (Call.cancel ∷ Call.sync ∷ [])
                  (ending c)
                  (up_to_failure-append_false f (connecting c) rest e
                    ∙ ap (λ xs. connecting c ++ xs)
                        (up_to_failure-append_true f (consuming getenv c) (serving c) g))
                  (rw (e, g)
                    (sym (append_assoc (connecting c) consumers (Call.cancel ∷ Call.sync ∷ []))))
                  (stops_known (t ++ (connecting c ++ consumers)) false true
                    (any-up_to_failure f is_pool (consuming getenv c) refl) refl)
            | inr g ↦
                conclude t made (connecting c ++ (consuming getenv c ++ serving c))
                  (Call.shutdown_pool ∷ Call.cancel ∷ Call.sync ∷ []) (ending c)
                  (up_to_failure-append_false f (connecting c) rest e
                    ∙ ap (λ xs. connecting c ++ xs)
                        (up_to_failure-append_false f (consuming getenv c) (serving c) g
                          ∙ ap (λ xs. consuming getenv c ++ xs) (serving_all c)))
                  (rw (e, g) refl) refl
          ]
        ]

    module _ {V : Type 0} (viper : Viper V) where
      -- With a configuration, `main` makes the calls of the start in their order up to the first that fails,
      -- and stops then what it has started, the last first; so it serves only if nothing has failed.
      pub main_order :
          (path : String) (c : Config)
          → init_config viper getenv path ≡ ok c
          → let calls = up_to_failure (fails answer) (startup getenv c) in
            (main answer getenv viper path).1 ≡ calls ++ stops calls
      unfolding main
      main_order path c h = elim (Option-cases (answer (Call.set_mode c.server.mode))) [
        | inr (e, m) ↦ rw (main, h, m) refl
        | inl m ↦
            rw (main, h, m)
              (connect-ending c
                  (Call.init_logger (init_logger c.logger) ∷ Call.set_mode c.server.mode ∷ [])
                ∙ ending-stops c)
      ]
