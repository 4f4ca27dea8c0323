-- ===== src/Outbox/Scan.antt =====
-- A scan of the outbox: what `send_pending_messages` makes of the whole table.
use student_service.Common.{
  ℕ, zero, suc, ◌≤◌, pos, ◌≡◌, refl, sym, ◌∙◌, subst, ap, inl, inr, Bool, true, some, List, [], ◌∷◌,
  arith, ◌==◌, ◌&&◌, Bool-cases, append-nil, All, keep, take, leb, fun_ext,
}
use student_service.Model.{LocalMessage}
use student_service.Result.{Result, Result-cases}
use student_service.Broker.{ProducerMessage, Producer, ProducerLaws}
use student_service.Store.{Gorm}
use student_service.Store.Rows.{status_is, due_by, any_row, where_cond, Tables, select_messages}
use student_service.Store.Laws.{MessageLaws}
use student_service.Outbox.{Sender, get_pending_messages, process_messages, send_pending_messages}
use student_service.Outbox.Row.{
  Has, Rowwise, IsStored, Outcome-mono, Ascending, Ascending-keep, Ascending-take,
}
use student_service.Outbox.Process.{Rowwise-refl, Rowwise-mono, Attempted, Extends}
use student_service.Outbox.Batch.{IsDue, process_messages-Attempts}

-- The order of the table and the invariant of its rows.
pub record IsTable (rs : List LocalMessage) : Type 0 where
  pub ordered : Ascending 0 rs
  pub stored : All IsStored rs

-- The rows that a scan at the time `t` asks for: the first hundred that are pending and due.
abbrev pub is_due : ℕ → LocalMessage → Bool
is_due t m = m.status == 0 && leb m.next_retry t

abbrev pub due : ℕ → List LocalMessage → List LocalMessage
due t rs = take 100 (keep (is_due t) rs)

keep-IsDue :
    (t : ℕ) (all rs : List LocalMessage)
    → ((m : LocalMessage) → Has m rs → Has m all)
    → All IsStored rs
    → All (IsDue all) (keep (is_due t) rs)
keep-IsDue t all [] f h = tt
keep-IsDue t all (m ∷ rs) f h = elim (Bool-cases (is_due t m)) [
  | inl yes_due ↦
      rw yes_due ((f m (inl refl), ground arith, h.0), keep-IsDue t all rs (λ x k. f x (inr k)) h.1)
  | inr not_due ↦ rw not_due (keep-IsDue t all rs (λ x k. f x (inr k)) h.1)
]

take-All :
    (P : LocalMessage → Type 0) (n : ℕ) (rs : List LocalMessage) → All P rs → All P (take n rs)
take-All P zero rs h = tt
take-All P (suc n) [] h = tt
take-All P (suc n) (r ∷ rs) h = (h.0, take-All P n rs h.1)

-- The conditions of the query are those of a due row.
pub query-due :
    (t : ℕ) (rs : List LocalMessage)
    → select_messages
        (record (where_cond (due_by t) (where_cond (status_is 0) any_row)) {
          by_id = true;
          limit = some (pos 100);
        })
        rs
      ≡ due t rs
query-due t rs =
    ap (take 100) (ap (λ (p : LocalMessage → Bool). keep p rs) (fun_ext λ m. ground arith))

Attempted-earlier :
    {P : ProducerMessage → Type 0} {t u : ℕ} {ms ms' : List LocalMessage} {r r' : LocalMessage}
    → t ≤ u
    → ms ≡ ms'
    → Attempted P u ms r r'
    → Attempted P t ms' r r'
Attempted-earlier h e (inl same) = inl same
Attempted-earlier {r} h e (inr (m, o)) = inr (subst (Has r) e m, Outcome-mono (λ x p. p) h o)

module _ {S Db Session K : Type 0} (gorm : Gorm S Db Session) (producer : Producer K)
    (later : ℕ → ℕ) (view : Db → Tables S) (delivered : K → List ProducerMessage)
    (rows_laws : MessageLaws gorm view) (sends : ProducerLaws producer delivered)
    (forward : (t : ℕ) → t ≤ later t) where
  abbrev pub rows_of : Sender Db K → List LocalMessage
  rows_of s = (view s.db).messages

  -- What a scan that began at the time `t` with the rows `rs` has done by the state `s'`.
  abbrev pub Scanned : ℕ → List LocalMessage → K → Sender Db K → Type 0
  Scanned t rs k s' =
      Rowwise (Attempted (λ x. Has x (delivered s'.producer_state)) t (due t rs)) rs (rows_of s')
      × Extends (delivered k) (delivered s'.producer_state)

  process_due :
      (t : ℕ) (ms : List LocalMessage) (s : Sender Db K)
      → IsTable (rows_of s)
      → ms ≡ due t (rows_of s)
      → t ≤ s.clock
      → Scanned t (rows_of s) s.producer_state (process_messages gorm producer later ms s)
  process_due t ms s h e before =
      let tried =
        process_messages-Attempts gorm producer later view delivered rows_laws sends forward ms s 0
          0 h.ordered
          (subst (Ascending 0) (sym e)
            (Ascending-take 100 0 _ (Ascending-keep (is_due t) 0 _ h.ordered)))
          (subst (All (IsDue (rows_of s))) (sym e)
            (take-All _ 100 _ (keep-IsDue t (rows_of s) (rows_of s) (λ m k. k) h.stored))) in
      (Rowwise-mono (rows_of s) _ (λ r r' a. Attempted-earlier before e a) tried.0, tried.2)

  -- A scan keeps every row of the table, in place, and adds none. A row that was not among the first
  -- hundred pending and due ones is as it was. One of those is as it was, or is marked sent and the
  -- broker has it, or is pending with one more retry below the maximum and due after the backoff
  -- of that retry from a time in the scan, or is marked failed with no retry left. The broker's log
  -- only grows. All this for any faults of the database and of the broker.
  pub send_pending_messages_attempts :
      (s : Sender Db K)
      → IsTable (rows_of s)
      → let s' = send_pending_messages gorm producer later s in
        Scanned s.clock (rows_of s) s.producer_state s'
  unfolding send_pending_messages get_pending_messages
  send_pending_messages_attempts s h = elim (Result-cases fetched.0) [
    | inl (ms, e) ↦
        rw (e, send_pending_messages)
          (subst
            (λ (t : Tables S).
              Scanned s.clock t.messages s.producer_state
                (process_messages gorm producer later ms s'))
            kept
            (process_due s.clock ms s' (subst (λ (t : Tables S). IsTable t.messages) (sym kept) h)
              (rows_laws.find_messages_ok _ s.db ms e
                ∙ query-due s.clock (rows_of s)
                ∙ ap (λ (t : Tables S). due s.clock t.messages) (sym kept))
              (forward s.clock)))
    | inr (x, e) ↦
        rw (e, send_pending_messages)
          (subst (λ (t : Tables S). Scanned s.clock t.messages s.producer_state s') kept
            (Rowwise-refl _ (rows_of s') (λ r. inl refl), ([], sym (append-nil _))))
  ]
    where
      fetched : Result (List LocalMessage) × Db
      fetched =
          gorm.find_messages
            (record (where_cond (due_by s.clock) (where_cond (status_is 0) any_row)) {
              by_id = true;
              limit = some (pos 100);
            })
            s.db

      s' : Sender Db K
      s' = record s { db = fetched.1; clock = later s.clock }

      kept : view s'.db ≡ view s.db
      kept = rows_laws.find_messages_view _ s.db
