-- ===== src/Outbox/Row.antt =====
-- What the sender may do to one row of the table `local_message`, and the order of the rows.
use student_service.Common.{
  ℕ, zero, suc, ◌≤◌, ℤ, pos, negsuc, ◌+ℤ◌, ◌≤ℤ◌, ◌<ℤ◌, int64, int_laws, ◌≡◌, refl, ◌⊎◌, inl, inr,
  Bool, List, [], ◌∷◌, ◌++◌, String, arith, take, keep,
}
use student_service.Model.{LocalMessage}
use student_service.Broker.{ProducerMessage}
use student_service.Outbox.{add_time, backoff}

-- What `Kafka` gets of a row.
abbrev pub record_of : LocalMessage → ProducerMessage
record_of m = record { topic = m.topic; key = m.key; value = m.value }

module _ {A : Type 0} where
  -- Membership by recursion.
  abbrev pub Has : A → List A → Type 0
  Has a [] = ⊥
  Has a (x ∷ xs) = (a ≡ x) ⊎ Has a xs

  pub Has-append_left : (a : A) (xs ys : List A) → Has a xs → Has a (xs ++ ys)
  Has-append_left a [] ys h = elim h [ ]
  Has-append_left a (x ∷ xs) ys (inl e) = inl e
  Has-append_left a (x ∷ xs) ys (inr h) = inr (Has-append_left a xs ys h)

  pub Has-append_last : (a : A) (xs : List A) → Has a (xs ++ a ∷ [])
  Has-append_last a [] = inl refl
  Has-append_last a (x ∷ xs) = inr (Has-append_last a xs)

  -- A relation row by row; no row is added or lost.
  abbrev pub Rowwise : (A → A → Type 0) → List A → List A → Type 0
  Rowwise R [] [] = Unit
  Rowwise R (x ∷ xs) (y ∷ ys) = R x y × Rowwise R xs ys
  Rowwise R _ _ = ⊥

-- The invariant of a row that this service wrote: one of the three states, a count of retries from
-- 0 to the maximum of five, and below it while the message is pending.
pub record IsStored (m : LocalMessage) : Type 0 where
  pub known : m.status ≤ 2
  pub nonneg : pos 0 ≤ℤ m.retry_count
  pub five : m.max_retry ≡ pos 5
  pub within : m.retry_count <ℤ pos 5

-- What one attempt may have made of a pending row; `Sent` tells what the broker has. An update that
-- is reported as failed may have been done, so each case may also leave the row alone.
pub data Outcome (Sent : ProducerMessage → Type 0) (since : ℕ) (m m' : LocalMessage) : Type 0 where
  marked_sent :
      (u : ℕ)
      → m.status ≡ 0
      → Sent (record_of m)
      → m' ≡ record m { status = 1; updated_at = u }
      → Outcome Sent since m m'
  retried :
      (e : String) (u t : ℕ)
      → m.status ≡ 0
      → int64 (m.retry_count +ℤ pos 1) <ℤ m.max_retry
      → since ≤ t
      → m' ≡ record m {
        status = 0;
        retry_count = int64 (m.retry_count +ℤ pos 1);
        error_msg = e;
        updated_at = u;
        next_retry = add_time t (backoff (int64 (m.retry_count +ℤ pos 1)));
      }
      → Outcome Sent since m m'
  gave_up :
      (e : String) (u : ℕ)
      → m.status ≡ 0
      → m.max_retry ≤ℤ int64 (m.retry_count +ℤ pos 1)
      → m' ≡ record m { status = 2; error_msg = e; updated_at = u }
      → Outcome Sent since m m'

pub Outcome-mono :
    {P Q : ProducerMessage → Type 0} {s t : ℕ} {m m' : LocalMessage}
    → ((x : ProducerMessage) → P x → Q x)
    → s ≤ t
    → Outcome P t m m'
    → Outcome Q s m m'
Outcome-mono f h (marked_sent u p d e) = marked_sent u p (f _ d) e
Outcome-mono f h (retried x u t p b l e) = retried x u t p b (omega arith) e
Outcome-mono f h (gave_up x u p b e) = gave_up x u p b e

pub Outcome-id :
    {P : ProducerMessage → Type 0} {s : ℕ} {m m' : LocalMessage} → Outcome P s m m' → m'.id ≡ m.id
Outcome-id (marked_sent u p d e) = ground arith
Outcome-id (retried x u t p b l e) = ground arith
Outcome-id (gave_up x u p b e) = ground arith

-- A retry count below five does not overflow.
pub next_count : (r : ℤ) → pos 0 ≤ℤ r → r <ℤ pos 5 → int64 (r +ℤ pos 1) ≡ r +ℤ pos 1
unfolding ◌+ℤ◌ int64
next_count (pos n) h k = ground arith
next_count (negsuc n) h k = ground arith

pub Outcome-IsStored :
    {P : ProducerMessage → Type 0} {s : ℕ} {m m' : LocalMessage}
    → Outcome P s m m'
    → IsStored m
    → IsStored m'
Outcome-IsStored (marked_sent u p d e) h = ground arith
Outcome-IsStored {m} (retried x u t p b l e) h =
    grind (int_laws, next_count m.retry_count h.nonneg h.within)
Outcome-IsStored (gave_up x u p b e) h = ground arith

-- Rows in the order of the primary key, from `lo` on.
abbrev pub Ascending : ℕ → List LocalMessage → Type 0
Ascending lo [] = Unit
Ascending lo (m ∷ ms) = (lo ≤ m.id) × Ascending (suc m.id) ms

pub Ascending-mono :
    (lo hi : ℕ) (ms : List LocalMessage) → lo ≤ hi → Ascending hi ms → Ascending lo ms
Ascending-mono lo hi [] h a = tt
Ascending-mono lo hi (m ∷ ms) h a = (omega arith, a.1)

pub Has-ge :
    (lo : ℕ) (m : LocalMessage) (ms : List LocalMessage) → Ascending lo ms → Has m ms → lo ≤ m.id
Has-ge lo m [] a h = elim h [ ]
Has-ge lo m (x ∷ ms) a (inl e) = ground arith
Has-ge lo m (x ∷ ms) a (inr h) = omega (arith, Has-ge (suc x.id) m ms a.1 h)

pub Ascending-keep :
    (p : LocalMessage → Bool) (lo : ℕ) (ms : List LocalMessage)
    → Ascending lo ms
    → Ascending lo (keep p ms)
Ascending-keep p lo [] a = tt
Ascending-keep p lo (m ∷ ms) a =
    ground (arith, Ascending-keep p (suc m.id) ms a.1, Ascending-mono lo (suc m.id) (keep p ms))

pub Ascending-take :
    (n lo : ℕ) (ms : List LocalMessage) → Ascending lo ms → Ascending lo (take n ms)
Ascending-take zero lo ms a = tt
Ascending-take (suc n) lo [] a = tt
Ascending-take (suc n) lo (m ∷ ms) a = (a.0, Ascending-take n (suc m.id) ms a.1)
