-- ===== src/Outbox/History.antt =====
-- The sender over any number of scans.
use student_service.Common.{
  ℕ, ◌≤◌, ◌≡◌, refl, ◌≢◌, sym, ◌∙◌, subst, ap, ◌⊎◌, inl, inr, List, [], ◌∷◌, arith, append-nil,
}
use student_service.Model.{LocalMessage}
use student_service.Broker.{ProducerMessage, Producer, ProducerLaws}
use student_service.Store.{Gorm}
use student_service.Store.Rows.{Tables}
use student_service.Store.Laws.{MessageLaws}
use student_service.Outbox.{
  Sender, Signal, done, ticked, send_pending_messages, start_local_message_sender,
}
use student_service.Outbox.Row.{record_of, Has, Rowwise, marked_sent, retried, gave_up}
use student_service.Outbox.Process.{Rowwise-refl, Attempted, Extends}
use student_service.Outbox.Batch.{
  Rowwise-trans, Attempted-Ascending, Attempted-IsStored, Extends-trans, Has-Extends,
}
use student_service.Outbox.Scan.{IsTable, due, send_pending_messages_attempts}

-- What may have become of a row in the long run: one that was sent or failed is as it was, one that
-- is sent was so before or the broker has it, and what is sent of it never changes.
pub record Traced (Sent : ProducerMessage → Type 0) (m m' : LocalMessage) : Type 0 where
  pub settled : m.status ≢ 0 → m' ≡ m
  pub delivered : m'.status ≡ 1 → (m.status ≡ 1) ⊎ Sent (record_of m')
  pub same_record : record_of m' ≡ record_of m
  pub same_id : m'.id ≡ m.id

Traced-refl : {P : ProducerMessage → Type 0} (m : LocalMessage) → Traced P m m
Traced-refl m = record {
  settled = λ h. refl;
  delivered = λ h. inl h;
  same_record = refl;
  same_id = refl;
}

Attempted-Traced :
    {P : ProducerMessage → Type 0} {t : ℕ} (ms : List LocalMessage) (m m' : LocalMessage)
    → Attempted P t ms m m'
    → Traced P m m'
Attempted-Traced {P} ms m m' (inl e) = subst (Traced P m) (sym e) (Traced-refl m)
Attempted-Traced {P} ms m m' (inr (h, marked_sent u p d e)) = record {
  settled = λ n. absurd (n p);
  delivered = λ q. inr (subst (λ x. P (record_of x)) (sym e) d);
  same_record = ap record_of e;
  same_id = ap (λ (x : LocalMessage). x.id) e;
}
Attempted-Traced ms m m' (inr (h, retried x u t p b l e)) = ground arith
Attempted-Traced ms m m' (inr (h, gave_up x u p b e)) = ground arith

Traced-trans :
    {P Q : ProducerMessage → Type 0} (m m' m'' : LocalMessage)
    → ((x : ProducerMessage) → P x → Q x)
    → Traced P m m'
    → Traced Q m' m''
    → Traced Q m m''
Traced-trans {P} {Q} m m' m'' f a b = record {
  settled = λ n.
      b.settled (subst (λ (x : LocalMessage). x.status ≢ 0) (sym (a.settled n)) n) ∙ a.settled n;
  delivered = λ h. elim (b.delivered h) [
    | inl p ↦ elim (a.delivered p) [
      | inl q ↦ inl q
      | inr x ↦ inr (subst Q (sym b.same_record) (f _ x))
    ]
    | inr x ↦ inr x
  ];
  same_record = b.same_record ∙ a.same_record;
  same_id = b.same_id ∙ a.same_id;
}

module _ {S Db Session K : Type 0} (gorm : Gorm S Db Session) (producer : Producer K)
    (later : ℕ → ℕ) (view : Db → Tables S) (delivered : K → List ProducerMessage)
    (rows_laws : MessageLaws gorm view) (sends : ProducerLaws producer delivered)
    (forward : (t : ℕ) → t ≤ later t) where
  abbrev rows_of : Sender Db K → List LocalMessage
  rows_of s = (view s.db).messages

  pub send_pending_messages-IsTable :
      (s : Sender Db K)
      → IsTable (rows_of s)
      → IsTable (rows_of (send_pending_messages gorm producer later s))
  send_pending_messages-IsTable s h =
      let r =
        send_pending_messages_attempts gorm producer later view delivered rows_laws sends forward s
          h in
      record {
        ordered = Attempted-Ascending _ s.clock (due s.clock (rows_of s)) 0 _ _ r.0 h.ordered;
        stored = Attempted-IsStored _ s.clock (due s.clock (rows_of s)) _ _ r.0 h.stored;
      }

  -- However the sender is signalled, and whatever faults the database and the broker have: no row is
  -- added or lost, the invariant of the table holds at the end, a row that was sent or had failed is
  -- unchanged, a row that is sent now was so at the start or the broker has its record, and no
  -- record or key of a row changes.
  pub start_local_message_sender-Traced :
      (signals : List Signal) (s : Sender Db K)
      → IsTable (rows_of s)
      → let s' = start_local_message_sender gorm producer later signals s in
        IsTable (rows_of s')
        × Rowwise (Traced (λ x. Has x (delivered s'.producer_state))) (rows_of s) (rows_of s')
        × Extends (delivered s.producer_state) (delivered s'.producer_state)
  unfolding start_local_message_sender
  start_local_message_sender-Traced [] s h =
      (h, Rowwise-refl _ (rows_of s) (λ r. Traced-refl r), ([], sym (append-nil _)))
  start_local_message_sender-Traced (done ∷ signals) s h =
      (h, Rowwise-refl _ (rows_of s) (λ r. Traced-refl r), ([], sym (append-nil _)))
  start_local_message_sender-Traced (ticked ∷ signals) s h =
      let s1 = send_pending_messages gorm producer later s in
      let scan =
        send_pending_messages_attempts gorm producer later view delivered rows_laws sends forward s
          h in
      let rest = start_local_message_sender-Traced signals s1 (send_pending_messages-IsTable s h) in
      (
        rest.0,
        Rowwise-trans (rows_of s) (rows_of s1) _
            (λ m m' m'' a b.
              Traced-trans m m' m'' (λ x. Has-Extends x _ _ rest.2)
                (Attempted-Traced (due s.clock (rows_of s)) m m' a) b)
            scan.0 rest.1,
        Extends-trans _ _ _ scan.1 rest.2,
      )
