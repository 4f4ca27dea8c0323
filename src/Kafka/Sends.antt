-- ===== src/Kafka/Sends.antt =====
-- kafka/kafka.go: sends with a timeout. The send itself runs in a goroutine of its own, which goes on
-- when the timeout is over. `in_flight` are the sends that nobody waits for any more.
use student_service.Common.{
  ℕ, ◌/◌, ◌%◌, ltb, ◌≡◌, ◌⊎◌, inl, inr, refl, sym, ap, subst, Option-cases, Option, none, some,
  List, [], ◌∷◌, ◌++◌, String, text_append, show_int, pos, if◌then◌else◌,
}
use student_service.Result.{Error, new_error}
use student_service.Broker.{ProducerMessage, Producer, ProducerLaws, send_message}
use student_service.Kafka.Breaker.{Breaker, BreakerLaws}

pub record Line (K : Type 0) : Type 0 where
  pub producer_state : K
  pub in_flight : List ProducerMessage

-- Which of its two channels the `select` receives from: that of the send, or that of the clock.
pub data Race : Type 0 where
  answered timed_out : Race

abbrev show_ℕ : ℕ → String
show_ℕ n = show_int (pos n)

-- How `%v` prints a `time.Duration` of whole seconds.
unfoldable pub show_seconds : ℕ → String
show_seconds n =
    let s = text_append (show_ℕ (n % 60)) "s" in
    let m = text_append (show_ℕ (n / 60 % 60)) (text_append "m" s) in
    if ltb n 60
    then s
    else if ltb n 3600
    then m
    else text_append (show_ℕ (n / 3600)) (text_append "h" m)

abbrev pub timeout_error : ℕ → Error
timeout_error timeout = new_error (text_append "发送kafka消息超时:" (show_seconds timeout))

-- A send appends its record once or not at all.
pub send-appends :
    {K : Type 0} (producer : Producer K) (delivered : K → List ProducerMessage)
    → ProducerLaws producer delivered
    → (m : ProducerMessage) (k : K)
    → (delivered (producer.send m k).1 ≡ delivered k)
      ⊎ (delivered (producer.send m k).1 ≡ delivered k ++ m ∷ [])
send-appends producer delivered laws m k = elim (Option-cases (producer.send m k).0) [
  | inl e ↦ inr (laws.send_ok m k e)
  | inr (failure, e) ↦ laws.send_err m k failure e
]

module _ {K : Type 0} (producer : Producer K) where
  -- The function that `SendMessageWithTimeout` gives to the breaker.
  unfoldable pub raced_send : ProducerMessage → ℕ → Race → Line K → Option Error × Line K
  raced_send m timeout Race.answered l =
      let (e, k) = send_message producer m.topic m.key m.value l.producer_state in
      (e, record l { producer_state = k })
  raced_send m timeout Race.timed_out l =
      (some (timeout_error timeout), record l { in_flight = l.in_flight ++ m ∷ [] })

  module _ {B : Type 0} (breaker : Breaker B (Line K)) where
    unfoldable pub send_message_with_timeout :
        String → String → String → ℕ → Race → B → Line K → Option Error × (B × Line K)
    send_message_with_timeout topic key value timeout race b l =
        breaker.execute
          (raced_send (record { topic = topic; key = key; value = value }) timeout race) b l

    -- The task of `pubilshStudentEvent`; its error is logged only.
    unfoldable pub send_event : ProducerMessage → Race → B × Line K → B × Line K
    send_event m race (b, l) = (send_message_with_timeout m.topic m.key m.value 2 race b l).1

    module _ (delivered : K → List ProducerMessage) where
      -- A send without an error was delivered, and nothing else has changed.
      abbrev IsDelivered : ProducerMessage → Option Error → Line K → Line K → Type 0
      IsDelivered m e l l' =
          (e ≡ none)
          × ((delivered l'.producer_state ≡ delivered l.producer_state ++ m ∷ [])
              × (l'.in_flight ≡ l.in_flight))

      -- A send was refused or has failed.
      abbrev IsFailed : ProducerMessage → Option Error → Line K → Line K → Type 0
      IsFailed m e l l' =
          ((failure : Error) × (e ≡ some failure))
          × (((delivered l'.producer_state ≡ delivered l.producer_state)
                ⊎ (delivered l'.producer_state ≡ delivered l.producer_state ++ m ∷ []))
              × (l'.in_flight ≡ l.in_flight))

      -- A send took too long and is on its way.
      abbrev IsLate : ProducerMessage → ℕ → Option Error → Line K → Line K → Type 0
      IsLate m timeout e l l' =
          (e ≡ some (timeout_error timeout))
          × ((l'.producer_state ≡ l.producer_state) × (l'.in_flight ≡ l.in_flight ++ m ∷ []))

      abbrev pub IsSent : ProducerMessage → ℕ → Option Error → Line K → Line K → Type 0
      IsSent m timeout e l l' = IsDelivered m e l l' ⊎ (IsFailed m e l l' ⊎ IsLate m timeout e l l')

      module _ (laws : ProducerLaws producer delivered) where
        raced_send-IsSent :
            (m : ProducerMessage) (timeout : ℕ) (race : Race) (l : Line K)
            → let r = raced_send m timeout race l in IsSent m timeout r.0 l r.1
        unfolding raced_send send_message
        raced_send-IsSent m timeout Race.answered l =
            elim (Option-cases (producer.send m l.producer_state).0) [
              | inl e ↦ inl (e, (laws.send_ok m l.producer_state e, refl))
              | inr (failure, e) ↦
                  inr (inl ((failure, e), (laws.send_err m l.producer_state failure e, refl)))
            ]
        raced_send-IsSent m timeout Race.timed_out l = inr (inr (refl, (refl, refl)))

        -- A send with a timeout that returns no error has been delivered; one that returns an error
        -- was refused or has failed, with nothing left behind, or it has timed out and goes on.
        pub send_message_with_timeout-IsSent :
            BreakerLaws breaker
            → (topic key value : String) (timeout : ℕ) (race : Race) (b : B) (l : Line K)
            → let r = send_message_with_timeout topic key value timeout race b l in
              IsSent (record { topic = topic; key = key; value = value }) timeout r.0 l r.1.1
        unfolding send_message_with_timeout
        send_message_with_timeout-IsSent breaker_laws topic key value timeout race b l =
            let m : ProducerMessage = record { topic = topic; key = key; value = value } in
            elim (breaker_laws.execute_once (raced_send m timeout race) b l) [
              | inl (refusal, (e, same)) ↦ inr (
                  inl (
                    (refusal, e),
                    (
                      inl (ap (λ (l' : Line K). delivered l'.producer_state) same),
                      ap (λ (l' : Line K). l'.in_flight) same,
                    ),
                  ))
              | inr run ↦
                  subst (λ r. IsSent m timeout r.0 l r.1) (sym run)
                    (raced_send-IsSent m timeout race l)
            ]
