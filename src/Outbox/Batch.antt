-- ===== src/Outbox/Batch.antt =====
-- The loop over the fetched messages: attempts on one message after the other, taken together.
use student_service.Common.{
  ℕ, suc, ◌≤◌, ◌<◌, ◌≡◌, refl, ◌≢◌, sym, ◌∙◌, subst, ap, inl, inr, List, [], ◌∷◌, ◌++◌, arith,
  append-nil, append_assoc, All,
}
use student_service.Model.{LocalMessage}
use student_service.Broker.{ProducerMessage, Producer, ProducerLaws}
use student_service.Store.{Gorm}
use student_service.Store.Rows.{Tables}
use student_service.Store.Laws.{MessageLaws}
use student_service.Outbox.{Sender, process_one_message, process_messages}
use student_service.Outbox.Row.{
  Has, Has-append_left, Rowwise, IsStored, Outcome, Outcome-mono, Outcome-id, Outcome-IsStored,
  Ascending, Has-ge,
}
use student_service.Outbox.Process.{
  Rowwise-refl, Attempted, Extends, rows, Attempts, process_one_message-Attempts,
}

module _ {A : Type 0} where
  pub Rowwise-trans :
      {P Q R : A → A → Type 0} (xs ys zs : List A)
      → ((x y z : A) → P x y → Q y z → R x z)
      → Rowwise P xs ys
      → Rowwise Q ys zs
      → Rowwise R xs zs
  Rowwise-trans [] [] [] f p q = tt
  Rowwise-trans [] [] (z ∷ zs) f p q = absurd q
  Rowwise-trans [] (y ∷ ys) zs f p q = absurd p
  Rowwise-trans (x ∷ xs) [] zs f p q = absurd p
  Rowwise-trans (x ∷ xs) (y ∷ ys) [] f p q = absurd q
  Rowwise-trans (x ∷ xs) (y ∷ ys) (z ∷ zs) f p q =
      (f x y z p.0 q.0, Rowwise-trans xs ys zs f p.1 q.1)

-- An attempt on one message, then attempts on messages behind it.
module _ {P Q : ProducerMessage → Type 0} {s t : ℕ} (m : LocalMessage) (ms : List LocalMessage)
    (behind : Ascending (suc m.id) ms) (grown : (x : ProducerMessage) → P x → Q x)
    (after : s ≤ t) where
  Attempted-trans :
      (r r' r'' : LocalMessage)
      → Attempted P s (m ∷ []) r r'
      → Attempted Q t ms r' r''
      → Attempted Q s (m ∷ ms) r r''
  Attempted-trans r r' r'' (inl e) (inl e') = inl (e' ∙ e)
  Attempted-trans r r' r'' (inl e) (inr (h, o)) = inr (
    inr (subst (λ x. Has x ms) e h),
    subst (λ x. Outcome Q s x r'') e (Outcome-mono (λ x q. q) after o),
  )
  Attempted-trans r r' r'' (inr (inl e, o)) (inl e') =
      inr (inl e, subst (Outcome Q s r) (sym e') (Outcome-mono grown (omega arith) o))
  Attempted-trans r r' r'' (inr (inl e, o)) (inr (h, o')) = absurd (
      omega
        (arith, Has-ge (suc m.id) r' ms behind h, Outcome-id o, ap (λ (x : LocalMessage). x.id) e))
  Attempted-trans r r' r'' (inr (inr h, o)) p = absurd h

module _ (P : ProducerMessage → Type 0) (s : ℕ) (ms : List LocalMessage) where
  pub Attempted-id : {r r' : LocalMessage} → Attempted P s ms r r' → r'.id ≡ r.id
  Attempted-id (inl e) = ap (λ (x : LocalMessage). x.id) e
  Attempted-id (inr (h, o)) = Outcome-id o

  -- Attempts keep the keys of the rows and their order, and the invariant of the rows.
  pub Attempted-Ascending :
      (lo : ℕ) (rs rs' : List LocalMessage)
      → Rowwise (Attempted P s ms) rs rs'
      → Ascending lo rs
      → Ascending lo rs'
  Attempted-Ascending lo [] [] p a = tt
  Attempted-Ascending lo [] (y ∷ ys) p a = absurd p
  Attempted-Ascending lo (x ∷ xs) [] p a = absurd p
  Attempted-Ascending lo (x ∷ xs) (y ∷ ys) p a =
      let same = Attempted-id p.0 in
      (
        omega (arith, same),
        Attempted-Ascending (suc y.id) xs ys p.1 (subst (λ k. Ascending (suc k) xs) (sym same) a.1),
      )

  pub Attempted-IsStored :
      (rs rs' : List LocalMessage)
      → Rowwise (Attempted P s ms) rs rs'
      → All IsStored rs
      → All IsStored rs'
  Attempted-IsStored [] [] p a = tt
  Attempted-IsStored [] (y ∷ ys) p a = absurd p
  Attempted-IsStored (x ∷ xs) [] p a = absurd p
  Attempted-IsStored (x ∷ xs) (y ∷ ys) (inl e, p) a =
      (subst IsStored (sym e) a.0, Attempted-IsStored xs ys p a.1)
  Attempted-IsStored (x ∷ xs) (y ∷ ys) (inr (h, o), p) a =
      (Outcome-IsStored o a.0, Attempted-IsStored xs ys p a.1)

module _ (P : ProducerMessage → Type 0) (s : ℕ) (m : LocalMessage) where
  -- A row with another key is still there.
  Attempted-Has :
      (k : LocalMessage) (rs rs' : List LocalMessage)
      → Rowwise (Attempted P s (m ∷ [])) rs rs'
      → k.id ≢ m.id
      → Has k rs
      → Has k rs'
  Attempted-Has k [] rs' p n h = absurd h
  Attempted-Has k (x ∷ xs) [] p n h = absurd p
  Attempted-Has k (x ∷ xs) (y ∷ ys) (inl e, p) n (inl e') = inl (e' ∙ sym e)
  Attempted-Has k (x ∷ xs) (y ∷ ys) (inr (inl e, o), p) n (inl e') =
      absurd (n (ap (λ (r : LocalMessage). r.id) (e' ∙ e)))
  Attempted-Has k (x ∷ xs) (y ∷ ys) (inr (inr h, o), p) n (inl e') = absurd h
  Attempted-Has k (x ∷ xs) (y ∷ ys) p n (inr h) = inr (Attempted-Has k xs ys p.1 n h)

-- What a fetched message is: a pending row of the table that meets the invariant.
abbrev pub IsDue : List LocalMessage → LocalMessage → Type 0
IsDue rs m = Has m rs × (m.status ≡ 0) × IsStored m

module _ (P : ProducerMessage → Type 0) (s : ℕ) (m : LocalMessage) where
  IsDue-behind :
      (lo : ℕ) (ms rs rs' : List LocalMessage)
      → Rowwise (Attempted P s (m ∷ [])) rs rs'
      → m.id < lo
      → Ascending lo ms
      → All (IsDue rs) ms
      → All (IsDue rs') ms
  IsDue-behind lo [] rs rs' p h a d = tt
  IsDue-behind lo (x ∷ ms) rs rs' p h a d = (
    (Attempted-Has P s m x rs rs' p (omega arith) d.0.0, d.0.1, d.0.2),
    IsDue-behind (suc x.id) ms rs rs' p (omega arith) a.1 d.1,
  )

pub Extends-trans :
    (xs ys zs : List ProducerMessage) → Extends xs ys → Extends ys zs → Extends xs zs
Extends-trans xs ys zs (a, e) (b, e') =
    (a ++ b, e' ∙ ap (λ (l : List ProducerMessage). l ++ b) e ∙ append_assoc xs a b)

pub Has-Extends :
    (x : ProducerMessage) (xs ys : List ProducerMessage) → Extends xs ys → Has x xs → Has x ys
Has-Extends x xs ys (zs, e) h = subst (Has x) (sym e) (Has-append_left x xs zs h)

module _ {S Db Session K : Type 0} (gorm : Gorm S Db Session) (producer : Producer K)
    (later : ℕ → ℕ) (view : Db → Tables S) (delivered : K → List ProducerMessage)
    (rows_laws : MessageLaws gorm view) (sends : ProducerLaws producer delivered)
    (forward : (t : ℕ) → t ≤ later t) where
  abbrev pub table : Sender Db K → List LocalMessage
  table = rows gorm producer later view delivered rows_laws sends forward

  abbrev pub Tries : List LocalMessage → Sender Db K → Sender Db K → Type 0
  Tries = Attempts gorm producer later view delivered rows_laws sends forward

  pub process_messages-Attempts :
      (ms : List LocalMessage) (s : Sender Db K) (lo hi : ℕ)
      → Ascending lo (table s)
      → Ascending hi ms
      → All (IsDue (table s)) ms
      → Tries ms s (process_messages gorm producer later ms s)
  unfolding process_messages
  process_messages-Attempts [] s lo hi a b d =
      (Rowwise-refl _ (table s) (λ r. inl refl), omega arith, ([], sym (append-nil _)))
  process_messages-Attempts (m ∷ ms) s lo hi a b d =
      let s' = process_one_message gorm producer later m s in
      let first =
        process_one_message-Attempts gorm producer later view delivered rows_laws sends forward m s
          lo a d.0.0 d.0.1 d.0.2.nonneg d.0.2.within in
      let rest =
        process_messages-Attempts ms s' lo (suc m.id)
          (Attempted-Ascending _ s.clock (m ∷ []) lo (table s) (table s') first.0 a) b.1
          (IsDue-behind _ s.clock m (suc m.id) ms (table s) (table s') first.0 (omega arith) b.1
            d.1) in
      (
        Rowwise-trans (table s) (table s') _
            (Attempted-trans m ms b.1 (λ x. Has-Extends x _ _ rest.2) first.1) first.0 rest.0,
        omega (arith, first.1, rest.1),
        Extends-trans _ _ _ first.2 rest.2,
      )
