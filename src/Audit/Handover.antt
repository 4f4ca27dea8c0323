-- ===== src/Audit/Handover.antt =====
-- From a write of a student to the topic of the audit messages: the message that the transaction has
-- kept in the outbox (service/student_service.go), in the next scan of its sender
-- (service/local_message_service.go).
use student_service.Common.{
  ℕ, ◌≡◌, sym, ◌∙◌, ap, subst, ◌≤◌, ◌<◌, inl, inr, Bool, true, List, [], ◌∷◌, ◌++◌, map, keep, take,
  take-length, length, length-take, length-append, Bool-cases, arith, refl,
}
use student_service.Model.{Student, Payload, LocalMessage}
use student_service.Env.{Env}
use student_service.Broker.{Producer, ProducerLaws, ProducerMessage}
use student_service.Store.{Gorm}
use student_service.Store.Rows.{Tables}
use student_service.Store.Laws.{MessageLaws}
use student_service.Session.{audit_record}
use student_service.Outbox.{Sender, send_pending_messages}
use student_service.Outbox.Row.{Has, Rowwise, record_of}
use student_service.Outbox.Scan.{due, is_due}
use student_service.Outbox.Progress.{Health, Settled, has_key, send_pending_messages-SentAll}
use student_service.Students.Write.Commit.{Committed}

keep-append :
    (p : LocalMessage → Bool) (ms ns : List LocalMessage)
    → keep p (ms ++ ns) ≡ keep p ms ++ keep p ns
keep-append p [] ns = refl
keep-append p (m ∷ ms) ns = elim (Bool-cases (p m)) [
  | inl e ↦ rw e (ap (λ l. m ∷ l) (keep-append p ms ns))
  | inr e ↦ rw e (keep-append p ms ns)
]

map-append :
    (ms ns : List LocalMessage) → map record_of (ms ++ ns) ≡ map record_of ms ++ map record_of ns
map-append [] ns = refl
map-append (m ∷ ms) ns = ap (λ l. record_of m ∷ l) (map-append ms ns)

-- A due row behind fewer than a hundred due ones is due as well.
due-snoc :
    (t : ℕ) (ms : List LocalMessage) (m : LocalMessage)
    → is_due t m ≡ true
    → length (due t ms) < 100
    → due t (ms ++ m ∷ []) ≡ due t ms ++ m ∷ []
due-snoc t ms m e room =
    let few : length (keep (is_due t) ms) < 100 =
      omega (arith, length-take 100 (keep (is_due t) ms), room) in
    let one : keep (is_due t) (m ∷ []) ≡ m ∷ [] = rw e refl in
    let all : keep (is_due t) (ms ++ m ∷ []) ≡ keep (is_due t) ms ++ m ∷ [] =
      keep-append (is_due t) ms (m ∷ []) ∙ ap (λ l. keep (is_due t) ms ++ l) one in
    ap (take 100) all
    ∙ take-length 100 (keep (is_due t) ms ++ m ∷ [])
        (omega (arith, few, length-append (keep (is_due t) ms) (m ∷ [])))
    ∙ ap (λ l. l ++ m ∷ []) (sym (take-length 100 (keep (is_due t) ms) (omega (arith, few))))

has_key-last : (m : LocalMessage) (ms : List LocalMessage) → has_key m.id (ms ++ m ∷ []) ≡ true
has_key-last m [] = ground arith
has_key-last m (n ∷ ms) = ground (arith, has_key-last m ms)

Rowwise-last :
    (R : LocalMessage → LocalMessage → Type 0) (m : LocalMessage) (ms ns : List LocalMessage)
    → Rowwise R (ms ++ m ∷ []) ns
    → (n : LocalMessage) × Has n ns × R m n
Rowwise-last R m [] [] h = absurd h
Rowwise-last R m [] (n ∷ ns) h = (n, inl refl, h.0)
Rowwise-last R m (k ∷ ms) [] h = absurd h
Rowwise-last R m (k ∷ ms) (n ∷ ns) h =
    let (n', has, r) = Rowwise-last R m ms ns h.1 in (n', inr has, r)

Settled-sent :
    (ms : List LocalMessage) (m n : LocalMessage)
    → has_key m.id ms ≡ true
    → Settled ms m n
    → (n.id ≡ m.id) × (n.status ≡ 1)
Settled-sent ms m n h (inl (_, (u, e))) =
    (ap (λ (x : LocalMessage). x.id) e, ap (λ (x : LocalMessage). x.status) e)
Settled-sent ms m n h (inr (other, _)) = absurd (cc)

module _ {S Seed : Type 0} (env : Env S Seed) {Db Session K : Type 0} (gorm : Gorm S Db Session)
    (producer : Producer K) (later : ℕ → ℕ) (view : Db → Tables S)
    (delivered : K → List ProducerMessage) (rows : MessageLaws gorm view)
    (sends : ProducerLaws producer delivered) (db_fine : Db → Type 0) (broker_fine : K → Type 0)
    (health : Health gorm producer db_fine broker_fine) where
  -- The tables that a write of a student has kept, scanned while the database and the broker answer,
  -- no earlier than the write, with fewer than a hundred earlier messages pending and due: the last
  -- record of the scan is the audit message of the write, under its trace id and on the topic of the
  -- audit messages, and its row in the outbox is marked as sent.
  pub send_pending_messages-committed :
      {t t' : Tables S} {students' : List (Student S)} {operate_type data_id : ℕ}
      → {before after : Payload S}
      → (done : Committed env t t' students' operate_type data_id before after) → (s : Sender Db K)
      → view s.db ≡ t'
      → done.now ≤ s.clock
      → length (due s.clock t.messages) < 100
      → db_fine s.db
      → broker_fine s.producer_state
      → let s' = send_pending_messages gorm producer later s in
        (delivered s'.producer_state
          ≡ delivered s.producer_state
            ++ (map record_of (due s.clock t.messages)
                ++ record {
                  topic = env.topic_audit_log;
                  key = done.message.trace_id;
                  value = done.value;
                }
                  ∷ []))
        × ((m : LocalMessage) × Has m (view s'.db).messages × (m.id ≡ done.key) × (m.status ≡ 1))
  send_pending_messages-committed {t} done s same later_on room d b =
      let row : LocalMessage = record (audit_record env done.message.trace_id done.value done.now) {
        id = done.key;
        updated_at = done.stamp;
      } in
      let messages : (view s.db).messages ≡ t.messages ++ row ∷ [] =
        ap (λ (x : Tables S). x.messages) (same ∙ done.tables) in
      let is_new : is_due s.clock row ≡ true = ground (arith, later_on) in
      let scanned : due s.clock (view s.db).messages ≡ due s.clock t.messages ++ row ∷ [] =
        ap (due s.clock) messages ∙ due-snoc s.clock t.messages row is_new room in
      let s' = send_pending_messages gorm producer later s in
      let (settled, sent) =
        send_pending_messages-SentAll gorm producer later view delivered rows sends db_fine
          broker_fine health s d b in
      let last =
        Rowwise-last (Settled (due s.clock t.messages ++ row ∷ [])) row t.messages
          (view s'.db).messages
          (subst
            (λ ms. Rowwise (Settled (due s.clock t.messages ++ row ∷ [])) ms (view s'.db).messages)
            messages
            (subst (λ ms. Rowwise (Settled ms) (view s.db).messages (view s'.db).messages) scanned
              settled)) in
      let (m, has, r) = last in
      let read =
        Settled-sent (due s.clock t.messages ++ row ∷ []) row m
          (has_key-last row (due s.clock t.messages)) r in
      (
        sent
            ∙ ap (λ ms. delivered s.producer_state ++ map record_of ms) scanned
            ∙ ap (λ l. delivered s.producer_state ++ l)
                (map-append (due s.clock t.messages) (row ∷ [])),
        (m, has, read.0, read.1),
      )
