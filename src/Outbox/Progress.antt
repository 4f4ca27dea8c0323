-- ===== src/Outbox/Progress.antt =====
-- A scan of the outbox while the database and the broker answer.
use student_service.Common.{
  ℕ, ◌≡◌, refl, sym, ◌∙◌, ◌⊎◌, inl, inr, ap, subst, Bool, true, false, none, some, List, [], ◌∷◌,
  ◌++◌, map, any, arith, ◌==◌, Bool-cases, append_assoc, append-nil, pos,
}
use student_service.Model.{LocalMessage}
use student_service.Result.{ok}
use student_service.Broker.{Producer, ProducerLaws, ProducerMessage, send_message}
use student_service.Store.{Gorm}
use student_service.Store.Rows.{
  Tables, MessageCond, MessageAssign, Select, message_is, status_to, updated_at_to,
  update_message_rows, where_cond, due_by, status_is, any_row,
}
use student_service.Store.Laws.{MessageLaws}
use student_service.Outbox.{
  Sender, get_pending_messages, mark_message_sent, process_one_message, process_messages,
  send_pending_messages,
}
use student_service.Outbox.Row.{Rowwise, record_of}
use student_service.Outbox.Process.{Rowwise-refl}
use student_service.Outbox.Batch.{Rowwise-trans}
use student_service.Outbox.Scan.{due, query-due}

-- Whether a list has a message under a key.
abbrev pub has_key : ℕ → List LocalMessage → Bool
has_key i = any λ m. m.id == i

-- Of the messages of a list, a row is marked as sent; any other row is as it was.
abbrev pub Settled : List LocalMessage → LocalMessage → LocalMessage → Type 0
Settled ms r r' =
    ((has_key r.id ms ≡ true) × ((u : ℕ) × (r' ≡ record r { status = 1; updated_at = u })))
    ⊎ ((has_key r.id ms ≡ false) × (r' ≡ r))

Settled-trans :
    (m : LocalMessage) (ms : List LocalMessage) (r r' r'' : LocalMessage)
    → Settled (m ∷ []) r r'
    → Settled ms r' r''
    → Settled (m ∷ ms) r r''
Settled-trans m ms r r' r'' (inl (a, (u, p))) (inl (b, (u', q))) =
    inl (
      ground arith,
      (u', q ∙ ap (λ (x : LocalMessage). record x { status = 1; updated_at = u' }) p),
    )
Settled-trans m ms r r' r'' (inl (a, (u, p))) (inr (b, q)) = inl (ground arith, (u, q ∙ p))
Settled-trans m ms r r' r'' (inr (a, p)) k = elim (subst (λ x. Settled ms x r'') p k) [
  | inl (b, c) ↦ inl (ground arith, c)
  | inr (b, q) ↦ inr (ground arith, q)
]

Settled-update :
    (m : LocalMessage) (t : ℕ) (rs : List LocalMessage)
    → Rowwise
        (Settled (m ∷ []))
        rs
        (update_message_rows (message_is m.id ∷ []) (status_to 1 ∷ updated_at_to t ∷ []) rs)
Settled-update m t [] = tt
Settled-update m t (r ∷ rs) = (
  elim (Bool-cases (m.id == r.id)) [
    | inl e ↦ inl (ground arith, (t, ground arith))
    | inr e ↦ inr (ground arith, ground arith)
  ],
  Settled-update m t rs,
)

abbrev due_query : ℕ → Select MessageCond
due_query t = record (where_cond (due_by t) (where_cond (status_is 0) any_row)) {
  by_id = true;
  limit = some (pos 100);
}

-- While `db_fine` and `broker_fine` hold, the calls of a scan succeed, and they keep holding.
pub record Health {S Db Session K : Type 0} (gorm : Gorm S Db Session) (producer : Producer K)
    (db_fine : Db → Type 0) (broker_fine : K → Type 0) : Type 0 where
  pub find_fine :
      (q : Select MessageCond) (db : Db)
      → db_fine db
      → (ms : List LocalMessage) × ((gorm.find_messages q db).0 ≡ ok ms)
        × db_fine (gorm.find_messages q db).1
  pub update_fine :
      (cs : List MessageCond) (as_ : List MessageAssign) (db : Db)
      → db_fine db
      → ((gorm.update_messages cs as_ db).0 ≡ none) × db_fine (gorm.update_messages cs as_ db).1
  pub send_fine :
      (m : ProducerMessage) (k : K)
      → broker_fine k
      → ((producer.send m k).0 ≡ none) × broker_fine (producer.send m k).1

module _ {S Db Session K : Type 0} (gorm : Gorm S Db Session) (producer : Producer K)
    (later : ℕ → ℕ) (view : Db → Tables S) (delivered : K → List ProducerMessage)
    (rows_laws : MessageLaws gorm view) (sends : ProducerLaws producer delivered)
    (db_fine : Db → Type 0) (broker_fine : K → Type 0)
    (health : Health gorm producer db_fine broker_fine) where
  abbrev rows : Sender Db K → List LocalMessage
  rows s = (view s.db).messages

  abbrev Fine : Sender Db K → Type 0
  Fine s = db_fine s.db × broker_fine s.producer_state

  -- The messages were sent in order, and their rows and no others are marked.
  abbrev pub SentAll : List LocalMessage → List LocalMessage → K → Sender Db K → Type 0
  SentAll ms rs k s' =
      Rowwise (Settled ms) rs (view s'.db).messages
      × (delivered s'.producer_state ≡ delivered k ++ map record_of ms)

  process_one_message-SentAll :
      (m : LocalMessage) (s : Sender Db K)
      → Fine s
      → let s' = process_one_message gorm producer later m s in
        SentAll (m ∷ []) (rows s) s.producer_state s' × Fine s'
  unfolding process_one_message send_message mark_message_sent
  process_one_message-SentAll m s fine =
      let (sent, broker_fine') = health.send_fine (record_of m) s.producer_state fine.1 in
      let updates = status_to 1 ∷ updated_at_to s.clock ∷ [] in
      let (wrote, db_fine') = health.update_fine (message_is m.id ∷ []) updates s.db fine.0 in
      rw (sent, process_one_message)
        (
          (
            subst (λ t. Rowwise (Settled (m ∷ [])) (rows s) t.messages)
                (sym (rows_laws.update_messages_ok (message_is m.id ∷ []) updates s.db wrote))
                (Settled-update m s.clock (rows s)),
            sends.send_ok (record_of m) s.producer_state sent,
          ),
          (db_fine', broker_fine'),
        )

  process_messages-SentAll :
      (ms : List LocalMessage) (s : Sender Db K)
      → Fine s
      → SentAll ms (rows s) s.producer_state (process_messages gorm producer later ms s)
  unfolding process_messages
  process_messages-SentAll [] s fine =
      (Rowwise-refl _ (rows s) (λ r. inr (refl, refl)), sym (append-nil _))
  process_messages-SentAll (m ∷ ms) s fine =
      let s' = process_one_message gorm producer later m s in
      let (first, fine') = process_one_message-SentAll m s fine in
      let rest = process_messages-SentAll ms s' fine' in
      (
        Rowwise-trans (rows s) (rows s') _ (Settled-trans m ms) first.0 rest.0,
        rest.1
            ∙ ap (λ l. l ++ map record_of ms) first.1
            ∙ append_assoc _ (record_of m ∷ []) (map record_of ms),
      )

  -- While the database and the broker answer, a scan sends exactly the first hundred pending and due
  -- messages, once each and in the order of the table; it marks their rows as sent and leaves every
  -- other row as it was.
  pub send_pending_messages-SentAll :
      (s : Sender Db K)
      → db_fine s.db
      → broker_fine s.producer_state
      → SentAll
          (due s.clock (view s.db).messages)
          (view s.db).messages
          s.producer_state
          (send_pending_messages gorm producer later s)
  unfolding send_pending_messages get_pending_messages
  send_pending_messages-SentAll s d b =
      let (ms, e, d') = health.find_fine (due_query s.clock) s.db d in
      let s' : Sender Db K = record s {
        db = (gorm.find_messages (due_query s.clock) s.db).1;
        clock = later s.clock;
      } in
      rw (e, send_pending_messages)
        (subst
          (λ x. SentAll x (rows s) s.producer_state (process_messages gorm producer later ms s'))
          (rows_laws.find_messages_ok (due_query s.clock) s.db ms e ∙ query-due s.clock (rows s))
          (subst
            (λ t.
              SentAll ms t.messages s.producer_state (process_messages gorm producer later ms s'))
            (rows_laws.find_messages_view (due_query s.clock) s.db)
            (process_messages-SentAll ms s' (d', b))))
