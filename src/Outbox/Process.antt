-- ===== src/Outbox/Process.antt =====
-- One pending message: what `process_one_message` makes of the table and of the broker.
use student_service.Common.{
  ℕ, suc, ◌≤◌, ◌<◌, pos, ◌+ℤ◌, ◌≤ℤ◌, ◌<ℤ◌, int64, leb_ℤ, int_laws, ◌≡◌, refl, sym, ◌∙◌, subst, ◌⊎◌,
  inl, inr, true, Option, List, [], ◌∷◌, ◌++◌, String, arith, Option-cases, Bool-cases, append-nil,
  ltb_ℤ,
}
use student_service.Model.{LocalMessage}
use student_service.Result.{Error}
use student_service.Broker.{ProducerMessage, Producer, ProducerLaws, send_message}
use student_service.Store.{Gorm}
use student_service.Store.Rows.{
  message_is, meets_all, message_meets, MessageAssign, assign_all, message_assign, update_where,
  Tables,
}
use student_service.Store.Laws.{MessageLaws}
use student_service.Outbox.{
  Sender, update_by_id, mark_message_sent, update_message_status, mark_message_failed,
  handle_send_failure, process_one_message,
}
use student_service.Outbox.Row.{
  record_of, Has, Has-append_last, Rowwise, Outcome, marked_sent, retried, gave_up, Ascending,
  Has-ge, next_count,
}

-- The row that an update by key meets is the one that holds the message.
module _ (m : LocalMessage) (f : LocalMessage → LocalMessage) where
  -- A row is as it was, or it is `m` and has been changed.
  abbrev pub Changed : LocalMessage → LocalMessage → Type 0
  Changed r r' = (r' ≡ r) ⊎ ((r ≡ m) × (r' ≡ f m))

  abbrev by_key : List LocalMessage → List LocalMessage
  by_key = update_where (meets_all message_meets (message_is m.id ∷ [])) f

  by_key_above :
      (lo : ℕ) (rs : List LocalMessage)
      → Ascending lo rs
      → m.id < lo
      → Rowwise Changed rs (by_key rs)
  by_key_above lo [] a h = tt
  by_key_above lo (r ∷ rs) a h = ground (arith, by_key_above (suc r.id) rs a.1)

  pub by_key-Changed :
      (lo : ℕ) (rs : List LocalMessage)
      → Ascending lo rs
      → Has m rs
      → Rowwise Changed rs (by_key rs)
  by_key-Changed lo [] a h = tt
  by_key-Changed lo (r ∷ rs) a (inl e) = ground (arith, by_key_above (suc r.id) rs a.1)
  by_key-Changed lo (r ∷ rs) a (inr h) =
      ground (arith, Has-ge (suc r.id) m rs a.1 h, by_key-Changed (suc r.id) rs a.1 h)

module _ {A : Type 0} where
  pub Rowwise-refl : (R : A → A → Type 0) (rs : List A) → ((r : A) → R r r) → Rowwise R rs rs
  Rowwise-refl R [] h = tt
  Rowwise-refl R (r ∷ rs) h = (h r, Rowwise-refl R rs h)

  pub Rowwise-mono :
      {R Q : A → A → Type 0} (rs rs' : List A)
      → ((r r' : A) → R r r' → Q r r')
      → Rowwise R rs rs'
      → Rowwise Q rs rs'
  Rowwise-mono [] [] f h = tt
  Rowwise-mono [] (y ∷ ys) f h = h
  Rowwise-mono (x ∷ xs) [] f h = h
  Rowwise-mono (x ∷ xs) (y ∷ ys) f h = (f x y h.0, Rowwise-mono xs ys f h.1)

-- What the rows have become after the attempts on the messages `ms`.
abbrev pub Attempted :
    (ProducerMessage → Type 0) → ℕ → List LocalMessage → LocalMessage → LocalMessage → Type 0
Attempted Sent since ms r r' = (r' ≡ r) ⊎ (Has r ms × Outcome Sent since r r')

-- The broker's log has grown.
abbrev pub Extends : List ProducerMessage → List ProducerMessage → Type 0
Extends xs ys = (zs : List ProducerMessage) × (ys ≡ xs ++ zs)

module _ {S Db Session K : Type 0} (gorm : Gorm S Db Session) (producer : Producer K)
    (later : ℕ → ℕ) (view : Db → Tables S) (delivered : K → List ProducerMessage)
    (rows_laws : MessageLaws gorm view) (sends : ProducerLaws producer delivered)
    (forward : (t : ℕ) → t ≤ later t) where
  abbrev pub rows : Sender Db K → List LocalMessage
  rows s = (view s.db).messages

  abbrev pub SentBy : Sender Db K → ProducerMessage → Type 0
  SentBy s x = Has x (delivered s.producer_state)

  update_by_id-Attempted :
      (m : LocalMessage) (updates : List MessageAssign) (s : Sender Db K)
      (Sent : ProducerMessage → Type 0) (since lo : ℕ)
      → Ascending lo (rows s)
      → Has m (rows s)
      → Outcome Sent since m (assign_all message_assign updates m)
      → Rowwise
          (Attempted Sent since (m ∷ []))
          (rows s)
          (rows (update_by_id gorm producer later m.id updates s).1)
  update_by_id-Attempted m updates s Sent since lo a h out =
      elim (rows_laws.update_messages_whole (message_is m.id ∷ []) updates s.db) [
        | inl same ↦ subst Good (sym same) (Rowwise-refl _ (rows s) λ r. inl refl)
        | inr done ↦ subst Good (sym done) (
            Rowwise-mono (rows s) _ become
              (by_key-Changed m (assign_all message_assign updates) lo (rows s) a h))
      ]
    where
      Good : Tables S → Type 0
      Good t = Rowwise (Attempted Sent since (m ∷ [])) (rows s) t.messages

      become :
          (r r' : LocalMessage)
          → Changed m (assign_all message_assign updates) r r'
          → Attempted Sent since (m ∷ []) r r'
      become r r' (inl e) = inl e
      become r r' (inr (e, e')) = inr (inl e, rw (e, e') out)

  -- The send of one message: the log grows by it, or by nothing.
  send-Extends :
      (x : ProducerMessage) (k : K) → Extends (delivered k) (delivered (producer.send x k).1)
  send-Extends x k = elim (Option-cases (producer.send x k).0) [
    | inl fine ↦ (x ∷ [], sends.send_ok x k fine)
    | inr (e, failed) ↦ elim (sends.send_err x k e failed) [
      | inl nothing ↦ ([], nothing ∙ sym (append-nil (delivered k)))
      | inr unacknowledged ↦ (x ∷ [], unacknowledged)
    ]
  ]

  mark_message_failed-Attempted :
      (m : LocalMessage) (e : String) (s : Sender Db K) (Sent : ProducerMessage → Type 0) (lo : ℕ)
      → Ascending lo (rows s)
      → Has m (rows s)
      → m.status ≡ 0
      → m.max_retry ≤ℤ int64 (m.retry_count +ℤ pos 1)
      → let s' = (mark_message_failed gorm producer later m.id e s).1 in
        Rowwise (Attempted Sent s.clock (m ∷ [])) (rows s) (rows s')
        × (s.clock ≤ s'.clock)
        × (s'.producer_state ≡ s.producer_state)
  unfolding mark_message_failed
  mark_message_failed-Attempted m e s Sent lo a h p over = (
    update_by_id-Attempted m _ (record s { clock = later s.clock }) Sent s.clock lo a h
        (gave_up e s.clock p over refl),
    forward s.clock,
    refl,
  )

  update_message_status-Attempted :
      (m : LocalMessage) (e : String) (s : Sender Db K) (Sent : ProducerMessage → Type 0) (lo : ℕ)
      → Ascending lo (rows s)
      → Has m (rows s)
      → m.status ≡ 0
      → int64 (m.retry_count +ℤ pos 1) <ℤ m.max_retry
      → ltb_ℤ (pos 0) (int64 (m.retry_count +ℤ pos 1)) ≡ true
      → let s' =
          (update_message_status gorm producer later m.id 0
            (int64 (m.retry_count +ℤ pos 1))
            e
            s).1 in
        Rowwise (Attempted Sent s.clock (m ∷ [])) (rows s) (rows s')
        × (s.clock ≤ s'.clock)
        × (s'.producer_state ≡ s.producer_state)
  unfolding update_message_status
  update_message_status-Attempted m e s Sent lo a h p under up = rw up (
    update_by_id-Attempted m _ (record s { clock = later (later s.clock) }) Sent s.clock lo a h
        (retried e s.clock (later s.clock) p under (forward s.clock) refl),
    omega (arith, forward s.clock, forward (later s.clock)),
    refl,
  )

  handle_send_failure-Attempted :
      (m : LocalMessage) (e : Error) (s : Sender Db K) (Sent : ProducerMessage → Type 0) (lo : ℕ)
      → Ascending lo (rows s)
      → Has m (rows s)
      → m.status ≡ 0
      → pos 0 ≤ℤ m.retry_count
      → m.retry_count <ℤ pos 5
      → let s' = handle_send_failure gorm producer later m e s in
        Rowwise (Attempted Sent s.clock (m ∷ [])) (rows s) (rows s')
        × (s.clock ≤ s'.clock)
        × (s'.producer_state ≡ s.producer_state)
  unfolding handle_send_failure
  handle_send_failure-Attempted m e s Sent lo a h p r0 r5 =
      elim (Bool-cases (leb_ℤ m.max_retry (int64 (m.retry_count +ℤ pos 1)))) [
        | inl over ↦
            rw (over, handle_send_failure)
              (mark_message_failed-Attempted m e.text s Sent lo a h p (ground arith))
        | inr under ↦
            rw (under, handle_send_failure)
              (update_message_status-Attempted m e.text s Sent lo a h p (ground arith)
                (grind (int_laws, next_count m.retry_count r0 r5)))
      ]

  mark_message_sent-Attempted :
      (m : LocalMessage) (s : Sender Db K) (Sent : ProducerMessage → Type 0) (lo : ℕ)
      → Ascending lo (rows s)
      → Has m (rows s)
      → m.status ≡ 0
      → Sent (record_of m)
      → let s' = (mark_message_sent gorm producer later m.id s).1 in
        Rowwise (Attempted Sent s.clock (m ∷ [])) (rows s) (rows s')
        × (s.clock ≤ s'.clock)
        × (s'.producer_state ≡ s.producer_state)
  unfolding mark_message_sent
  mark_message_sent-Attempted m s Sent lo a h p sent = (
    update_by_id-Attempted m _ (record s { clock = later s.clock }) Sent s.clock lo a h
        (marked_sent s.clock p sent refl),
    forward s.clock,
    refl,
  )

  -- What one attempt does, in the terms of the state after it.
  abbrev pub Attempts : List LocalMessage → Sender Db K → Sender Db K → Type 0
  Attempts ms s s' =
      Rowwise (Attempted (SentBy s') s.clock ms) (rows s) (rows s')
      × (s.clock ≤ s'.clock)
      × Extends (delivered s.producer_state) (delivered s'.producer_state)

  -- The update of the row does not touch the broker.
  settle :
      (m : LocalMessage) (s s' : Sender Db K) (k : K)
      → Rowwise (Attempted (λ x. Has x (delivered k)) s.clock (m ∷ [])) (rows s) (rows s')
        × (s.clock ≤ s'.clock)
        × (s'.producer_state ≡ k)
      → Extends (delivered s.producer_state) (delivered k)
      → Attempts (m ∷ []) s s'
  settle m s s' k (done, t, same) grown = (
    subst (λ x. Rowwise (Attempted (λ y. Has y (delivered x)) s.clock (m ∷ [])) (rows s) (rows s'))
        (sym same) done,
    t,
    subst (λ x. Extends (delivered s.producer_state) (delivered x)) (sym same) grown,
  )

  -- An attempt on a pending message of the table.
  pub process_one_message-Attempts :
      (m : LocalMessage) (s : Sender Db K) (lo : ℕ)
      → Ascending lo (rows s)
      → Has m (rows s)
      → m.status ≡ 0
      → pos 0 ≤ℤ m.retry_count
      → m.retry_count <ℤ pos 5
      → Attempts (m ∷ []) s (process_one_message gorm producer later m s)
  unfolding process_one_message send_message
  process_one_message-Attempts m s lo a h p r0 r5 = elim (Option-cases sending.0) [
    | inl fine ↦
        rw (fine, process_one_message)
          (settle m s _ sending.1
            (mark_message_sent-Attempted m (record s { producer_state = sending.1 })
              (λ x. Has x (delivered sending.1)) lo a h p
              (rw (sends.send_ok (record_of m) s.producer_state fine)
                (Has-append_last (record_of m) (delivered s.producer_state))))
            (send-Extends (record_of m) s.producer_state))
    | inr (e, failed) ↦
        rw (failed, process_one_message)
          (settle m s _ sending.1
            (handle_send_failure-Attempted m e (record s { producer_state = sending.1 })
              (λ x. Has x (delivered sending.1)) lo a h p r0 r5)
            (send-Extends (record_of m) s.producer_state))
  ]
    where
      sending : Option Error × K
      sending = producer.send (record_of m) s.producer_state
