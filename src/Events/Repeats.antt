-- ===== src/Events/Repeats.antt =====
-- kafka/student_consumer.go: events that are delivered more than once.
use student_service.Common.{
  ◌≡◌, refl, sym, ◌∙◌, ap, fun_ext, inl, inr, ◌||◌, Bool, true, false, Bool-cases, List, [], ◌∷◌,
  ◌++◌, append_assoc, append-nil, String, str_eq, str_eq-append, text_append, if◌then◌else◌,
}
use student_service.Model.{StudentEvent}
use student_service.Result.{Error, ok, err, Result-cases}
use student_service.Env.{Env}
use student_service.Redis.{Redis, RedisLaws, RedisAnswers}
use student_service.Broker.{Producer}
use student_service.Import.Consumer.{Message}
use student_service.Events.{
  Consumer, consume_message, consume_claim, process_event_with_retry, process_rounds, process_event,
  is_repeated, line_of, idempotent_prefix, idempotent_expire,
}

module _ {S Seed R K : Type 0} (env : Env S Seed) (redis : Redis R) (producer : Producer K) where
  abbrev line : StudentEvent S → String
  line event = line_of env redis producer event

  -- The lines of the events of the messages, of each id the first only, and none of an id seen before.
  abbrev pub new_lines : (String → Bool) → List Message → List String
  new_lines seen [] = []
  new_lines seen (m ∷ ms) =
      let rest = new_lines seen ms in
      elim (env.json.unmarshal_event m.value) [
        | err e ↦ rest
        | ok event ↦
            let others = new_lines (λ id. str_eq id event.event_id || seen id) ms in
            if seen event.event_id then rest else line event ∷ others
      ]

  module _ (held : String → R → Bool) (fine : R → Type 0) where
    -- The ids that redis has.
    abbrev pub seen_by : R → String → Bool
    seen_by r id = held (text_append idempotent_prefix id) r

    -- What one message did to the consumer: the lines it added, and the ids redis has then.
    abbrev Did : List String → (String → Bool) → Message → Consumer R K → Type 0
    Did ls seen m c =
        let c' = consume_message env redis producer m c in
        (c'.log ≡ c.log ++ ls) × (seen_by c'.redis ≡ seen) × fine c'.redis

    module _ (laws : RedisLaws redis held) (answers : RedisAnswers redis held fine) where
      abbrev key_of : StudentEvent S → String
      key_of event = text_append idempotent_prefix event.event_id

      found : (b : Bool) → is_repeated env redis producer (ok (if b then 1 else 0)) ≡ b
      found true = refl
      found false = refl

      repeated :
          (k : String) (r : R)
          → fine r
          → is_repeated env redis producer (redis.exists k r).0 ≡ held k r
      repeated k r h =
          ap (is_repeated env redis producer) (answers.exists_answers k r h).0 ∙ found (held k r)

      unread :
          (m : Message) (c : Consumer R K) (e : Error)
          → env.json.unmarshal_event m.value ≡ err e
          → fine c.redis
          → Did [] (seen_by c.redis) m c
      unfolding consume_message
      unread m c e u h = rw (u, consume_message) (sym (append-nil c.log), refl, h)

      passed :
          (m : Message) (c : Consumer R K) (event : StudentEvent S)
          → env.json.unmarshal_event m.value ≡ ok event
          → fine c.redis
          → seen_by c.redis event.event_id ≡ true
          → Did [] (seen_by c.redis) m c
      unfolding consume_message
      passed m c event u h seen =
          rw (u, consume_message)
            (rw (repeated (key_of event) c.redis h ∙ seen) (
              sym (append-nil c.log),
              fun_ext (λ id.
                  laws.exists_view (key_of event) c.redis (text_append idempotent_prefix id)),
              (answers.exists_answers (key_of event) c.redis h).1,
            ))

      handled :
          (m : Message) (c : Consumer R K) (event : StudentEvent S)
          → env.json.unmarshal_event m.value ≡ ok event
          → fine c.redis
          → seen_by c.redis event.event_id ≡ false
          → Did (line event ∷ []) (λ id. str_eq id event.event_id || seen_by c.redis id) m c
      unfolding consume_message process_event_with_retry process_rounds process_event
      handled m c event u h seen =
          let key = key_of event in
          let r = (redis.exists key c.redis).1 in
          let fine' = (answers.exists_answers key c.redis h).1 in
          rw (u, consume_message)
            (rw (repeated key c.redis h ∙ seen) (
              refl,
              fun_ext (λ id.
                  let j = text_append idempotent_prefix id in
                  answers.set_exact key "1" idempotent_expire r j fine'
                  ∙ ap (λ b. b || held j r) (str_eq-append idempotent_prefix id event.event_id)
                  ∙ ap (λ b. str_eq id event.event_id || b) (laws.exists_view key c.redis j)),
              (answers.set_answers key "1" idempotent_expire r fine').1,
            ))

      continue_with :
          (ls : List String) (seen : String → Bool) (m : Message) (ms : List Message)
          (c : Consumer R K)
          → Did ls seen m c
          → (let c' = consume_message env redis producer m c in
              fine c'.redis
              → (consume_claim env redis producer ms c').log
                ≡ c'.log ++ new_lines (seen_by c'.redis) ms)
          → new_lines (seen_by c.redis) (m ∷ ms) ≡ ls ++ new_lines seen ms
          → (consume_claim env redis producer ms (consume_message env redis producer m c)).log
            ≡ c.log ++ new_lines (seen_by c.redis) (m ∷ ms)
      continue_with ls seen m ms c (l, s, h) rest e =
          let c' = consume_message env redis producer m c in
          rest h
          ∙ ap (λ f. c'.log ++ new_lines f ms) s
          ∙ ap (λ x. x ++ new_lines seen ms) l
          ∙ append_assoc c.log ls (new_lines seen ms)
          ∙ ap (λ x. c.log ++ x) (sym e)

      -- A claim handles the first delivery of each event that redis does not have yet, in their order,
      -- and no other, while redis answers and no time runs out.
      pub consume_claim-new_lines :
          (ms : List Message) (c : Consumer R K)
          → fine c.redis
          → (consume_claim env redis producer ms c).log ≡ c.log ++ new_lines (seen_by c.redis) ms
      unfolding consume_claim
      consume_claim-new_lines [] c h = sym (append-nil c.log)
      consume_claim-new_lines (m ∷ ms) c h =
          let rest = consume_claim-new_lines ms (consume_message env redis producer m c) in
          elim (Result-cases (env.json.unmarshal_event m.value)) [
            | inr (x, u) ↦
                continue_with [] (seen_by c.redis) m ms c (unread m c x u h) rest
                  (rw (u, new_lines) refl)
            | inl (event, u) ↦ elim (Bool-cases (seen_by c.redis event.event_id)) [
              | inl seen ↦
                  continue_with [] (seen_by c.redis) m ms c (passed m c event u h seen) rest
                    (rw (u, seen, new_lines) refl)
              | inr new ↦
                  continue_with (line event ∷ [])
                    (λ id. str_eq id event.event_id || seen_by c.redis id) m ms c
                    (handled m c event u h new) rest (rw (u, new, new_lines) refl)
            ]
          ]
