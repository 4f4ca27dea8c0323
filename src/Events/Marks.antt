-- ===== src/Events/Marks.antt =====
-- What the consumer of events does with what is delivered.
use student_service.Common.{
  ◌≡◌, refl, sym, ◌∙◌, ap, inl, inr, List, [], ◌∷◌, ◌++◌, Bool-cases, append_assoc, append-nil,
  String, text_append,
}
use student_service.Model.{StudentEvent}
use student_service.Result.{ok, Result-cases}
use student_service.Env.{Env}
use student_service.Redis.{Redis}
use student_service.Broker.{Producer}
use student_service.Import.Consumer.{Message}
use student_service.Events.{
  Consumer, consume_message, consume_claim, process_event_with_retry, process_rounds, process_event,
  is_repeated, line_of, idempotent_prefix,
}

module _ {S Seed R K : Type 0} (env : Env S Seed) (redis : Redis R) (producer : Producer K) where
  -- The lines of some of the events that the messages hold, in their order, each at most once.
  pub data Noted : List Message → List String → Type 0 where
    none_noted : Noted [] []
    passed_over :
        (m : Message) {ms : List Message} {ls : List String} → Noted ms ls → Noted (m ∷ ms) ls
    noted :
        (m : Message) (event : StudentEvent S) {ms : List Message} {ls : List String}
        → env.json.unmarshal_event m.value ≡ ok event
        → Noted ms ls
        → Noted (m ∷ ms) (line_of env redis producer event ∷ ls)

  -- What the messages did to the consumer.
  abbrev Handled : List Message → Consumer R K → Consumer R K → Type 0
  Handled ms c c' =
      (ls : List String) × Noted ms ls
      × (c'.log ≡ c.log ++ ls)
      × (c'.marked ≡ c.marked ++ ms)
      × (c'.producer_state ≡ c.producer_state)

  consume_message-Handled :
      (m : Message) (c : Consumer R K) → Handled (m ∷ []) c (consume_message env redis producer m c)
  unfolding consume_message process_event_with_retry process_rounds process_event
  consume_message-Handled m c = elim (Result-cases (env.json.unmarshal_event m.value)) [
    | inr (x, e) ↦
        rw (e, consume_message) ([], passed_over m none_noted, sym (append-nil c.log), refl, refl)
    | inl (event, e) ↦
        let key = text_append idempotent_prefix event.event_id in
        elim (Bool-cases (is_repeated env redis producer (redis.exists key c.redis).0)) [
          | inl f ↦
              rw (e, consume_message)
                (rw f ([], passed_over m none_noted, sym (append-nil c.log), refl, refl))
          | inr f ↦
              rw (e, consume_message)
                (rw f (
                  line_of env redis producer event ∷ [],
                  noted m event e none_noted,
                  refl,
                  refl,
                  refl,
                ))
        ]
  ]

  Noted-append :
      (m : Message) (ms : List Message) (ls ls' : List String)
      → Noted (m ∷ []) ls
      → Noted ms ls'
      → Noted (m ∷ ms) (ls ++ ls')
  Noted-append m ms _ ls' (passed_over _ none_noted) k = passed_over m k
  Noted-append m ms _ ls' (noted _ event e none_noted) k = noted m event e k

  -- A claim marks every message once, in order, whatever fails; it never writes to the dead letter
  -- queue; and of the events that its messages hold it handles some, in their order, each message at
  -- most once.
  pub consume_claim_marks :
      (ms : List Message) (c : Consumer R K)
      → let c' = consume_claim env redis producer ms c in
        (ls : List String) × Noted ms ls
        × (c'.log ≡ c.log ++ ls)
        × (c'.marked ≡ c.marked ++ ms)
        × (c'.producer_state ≡ c.producer_state)
  unfolding consume_claim
  consume_claim_marks [] c =
      ([], none_noted, sym (append-nil c.log), sym (append-nil c.marked), refl)
  consume_claim_marks (m ∷ ms) c =
      let c' = consume_message env redis producer m c in
      let (ls, n, l, k, p) = consume_message-Handled m c in
      let (ls', n', l', k', p') = consume_claim_marks ms c' in
      (
        ls ++ ls',
        Noted-append m ms ls ls' n n',
        l' ∙ ap (λ x. x ++ ls') l ∙ append_assoc c.log ls ls',
        k' ∙ ap (λ x. x ++ ms) k ∙ append_assoc c.marked (m ∷ []) ms,
        p' ∙ p,
      )
