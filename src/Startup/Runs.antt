-- ===== src/Startup/Runs.antt =====
-- The functions that main.go calls, as calls made in turn up to the first that fails.
use student_service.Common.{
  ◌≡◌, refl, sym, ap, ◌∙◌, true, false, Option, none, some, Bool-cases, List, [], ◌∷◌, ◌++◌,
  append_assoc, String, inl, inr, any,
}
use student_service.Result.{Error}
use student_service.Config.{Config, get_dsn}
use student_service.Kafka.Groups.{
  Membership, producer_config, student_membership, audit_membership, import_membership,
}
use student_service.Startup.Prefix.{
  up_to_failure-append_true, up_to_failure-append_false, up_to_failure-all, any-append,
}
use student_service.Startup.Plan.{connecting, consuming, is_error, fails, up_to_failure}
use student_service.Startup.{
  Start, Call, Table, redis_options, call, and_then, wrapped, init_db, init_redis, init_kafka,
  start_consumer, start_consumers,
}

module _ (answer : Call → Option Error) where
  -- A function of the start makes some calls up to the first that fails, and fails if one does.
  abbrev pub Runs : Start → List Call → Type 0
  Runs f cs =
      (t : List Call)
      → (is_error (f t).0 ≡ any (fails answer) cs)
        × ((f t).1 ≡ t ++ up_to_failure (fails answer) cs)

  call-Runs : (a : Call) → fails answer a ≡ is_error (answer a) → Runs (call answer a) (a ∷ [])
  call-Runs a h t = elim (Bool-cases (fails answer a)) [
    | inl e ↦ rw (e, sym h ∙ e) (refl, refl)
    | inr e ↦ rw (e, sym h ∙ e) (refl, refl)
  ]

  wrapped_same :
      (text : String) (r : Option Error × List Call)
      → (is_error (wrapped text r).0 ≡ is_error r.0) × ((wrapped text r).1 ≡ r.1)
  wrapped_same text (none, t) = (refl, refl)
  wrapped_same text (some e, t) = (refl, refl)

  wrapped-Runs :
      (text : String) (f : Start) (cs : List Call) → Runs f cs → Runs (λ t. wrapped text (f t)) cs
  wrapped-Runs text f cs h t = let (e, u) = wrapped_same text (f t) in (e ∙ (h t).0, u ∙ (h t).1)

  and_then-none :
      (r : Option Error × List Call) (g : Start)
      → is_error r.0 ≡ false
      → and_then answer r g ≡ g r.1
  and_then-none (none, t) g h = refl
  and_then-none (some e, t) g h = absurd (cc)

  and_then-some :
      (r : Option Error × List Call) (g : Start) → is_error r.0 ≡ true → and_then answer r g ≡ r
  and_then-some (none, t) g h = absurd (cc)
  and_then-some (some e, t) g h = refl

  and_then-Runs :
      (f g : Start) (cs ds : List Call)
      → Runs f cs
      → Runs g ds
      → Runs (λ t. and_then answer (f t) g) (cs ++ ds)
  and_then-Runs f g cs ds h k t = elim (Bool-cases (any (fails answer) cs)) [
    | inl e ↦
        rw
          (
            and_then-some (f t) g ((h t).0 ∙ e),
            any-append (fails answer) cs ds,
            e,
            up_to_failure-append_true (fails answer) cs ds e,
          )
          ((h t).0 ∙ e, (h t).1)
    | inr e ↦
        let u : (f t).1 ≡ t ++ cs =
          (h t).1 ∙ ap (λ xs. t ++ xs) (up_to_failure-all (fails answer) cs e) in
        rw
          (
            and_then-none (f t) g ((h t).0 ∙ e),
            any-append (fails answer) cs ds,
            e,
            up_to_failure-append_false (fails answer) cs ds e,
            u,
          )
          ((k (t ++ cs)).0, (k (t ++ cs)).1 ∙ append_assoc t cs (up_to_failure (fails answer) ds))
  ]

  -- The first part of `connect`.
  abbrev pub connected : Config → Start
  connected c t =
      and_then answer (init_db answer (get_dsn c.mysql) t)
        (λ t'. and_then answer (init_redis answer c t') (init_kafka answer c))

  pub connected-Runs : (c : Config) → Runs (connected c) (connecting c)
  unfolding init_db init_redis init_kafka
  connected-Runs c =
      let opened = Call.gorm_open (get_dsn c.mysql) in
      let migrated =
        Call.auto_migrate
          (Table.students ∷ Table.classes ∷ Table.audit_logs ∷ Table.local_messages ∷ []) in
      let pinged = Call.ping (redis_options c.redis) in
      let producing = Call.new_sync_producer c.kafka.brokers (producer_config c.kafka) in
      and_then-Runs (init_db answer (get_dsn c.mysql))
        (λ t'. and_then answer (init_redis answer c t') (init_kafka answer c))
        (opened ∷ migrated ∷ []) (pinged ∷ producing ∷ [])
        (and_then-Runs (call answer opened) (call answer migrated) (opened ∷ []) (migrated ∷ [])
          (call-Runs opened refl) (call-Runs migrated refl))
        (and_then-Runs (init_redis answer c) (init_kafka answer c) (pinged ∷ []) (producing ∷ [])
          (wrapped-Runs _ (call answer pinged) (pinged ∷ []) (call-Runs pinged refl))
          (wrapped-Runs _ (call answer producing) (producing ∷ []) (call-Runs producing refl)))

  start_consumer-Runs :
      (m : Membership) → Runs (start_consumer answer m) (Call.new_consumer_group m ∷ [])
  unfolding start_consumer
  start_consumer-Runs m =
      let a = Call.new_consumer_group m in
      wrapped-Runs _ (call answer a) (a ∷ []) (call-Runs a refl)

  pub start_consumers-Runs :
      (getenv : String → String) (c : Config)
      → Runs (start_consumers answer getenv c) (consuming getenv c)
  unfolding start_consumers
  start_consumers-Runs getenv c =
      let students = student_membership getenv c in
      let audits = audit_membership getenv c in
      let imports = import_membership getenv c in
      and_then-Runs (start_consumer answer students)
        (λ t'. and_then answer (start_consumer answer audits t') (start_consumer answer imports))
        (Call.new_consumer_group students ∷ [])
        (Call.new_consumer_group audits ∷ Call.new_consumer_group imports ∷ [])
        (start_consumer-Runs students)
        (and_then-Runs (start_consumer answer audits) (start_consumer answer imports)
          (Call.new_consumer_group audits ∷ []) (Call.new_consumer_group imports ∷ [])
          (start_consumer-Runs audits) (start_consumer-Runs imports))
