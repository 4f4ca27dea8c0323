-- ===== src/Kafka/Landing.antt =====
-- kafka/kafka.go: events sent by the workers of the pool, in any order with the ends of the sends that
-- nobody waits for.
use student_service.Common.{
  ℕ, ◌+◌, ◌≤◌, ◌≡◌, Bool, none, some, List, [], ◌∷◌, ◌++◌, length, keep, pick,
}
use student_service.Broker.{ProducerMessage, Producer, send_message}
use student_service.Kafka.Breaker.{Breaker}
use student_service.Kafka.Sends.{Line, Race, send_event}

-- A worker runs the task of an event, or a send that timed out ends, by its place among them.
pub data SendAction : Type 0 where
  begin : ProducerMessage → Race → SendAction
  land : ℕ → SendAction

-- The events of the actions.
abbrev pub begun : List SendAction → List ProducerMessage
begun [] = []
begun (SendAction.begin m race ∷ actions) = m ∷ begun actions
begun (SendAction.land n ∷ actions) = begun actions

-- How many elements pass a test.
abbrev pub count : (ProducerMessage → Bool) → List ProducerMessage → ℕ
count t ms = length (keep t ms)

module _ {K : Type 0} (producer : Producer K) {B : Type 0} (breaker : Breaker B (Line K)) where
  unfoldable pub act : SendAction → B × Line K → B × Line K
  act (SendAction.begin m race) s = send_event producer breaker m race s
  act (SendAction.land n) (b, l) = elim (pick n l.in_flight) [
    | none ↦ (b, l)
    | some (m, rest) ↦ (
      b,
      record {
        producer_state = (send_message producer m.topic m.key m.value l.producer_state).1;
        in_flight = rest;
      },
    )
  ]

  unfoldable pub act_all : List SendAction → B × Line K → B × Line K
  act_all [] s = s
  act_all (a ∷ actions) s = act_all actions (act a s)

  module _ (delivered : K → List ProducerMessage) where
    -- What the broker got of these messages and of those in flight: each at most once.
    abbrev pub AtMostOnce : List ProducerMessage → Line K → Line K → Type 0
    AtMostOnce ms l l' =
        (more : List ProducerMessage) × ((delivered l'.producer_state
            ≡ delivered l.producer_state ++ more)
          × ((t : ProducerMessage → Bool)
              → count t more + count t l'.in_flight ≤ count t l.in_flight + count t ms))
