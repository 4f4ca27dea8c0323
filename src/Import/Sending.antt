-- ===== src/Import/Sending.antt =====
-- What `ImportStudents` sends to the topic.
use student_service.Common.{
  ℕ, suc, ◌+◌, ◌≤◌, ◌≡◌, Option, none, some, List, [], ◌∷◌, ◌++◌, String, length,
}
use student_service.Model.{Student}
use student_service.Result.{Error, Result, ok, err}
use student_service.Env.{Env}
use student_service.Broker.{Producer, ProducerLaws, ProducerMessage}

module _ {S Seed K : Type 0} (env : Env S Seed) (producer : Producer K)
    (delivered : K → List ProducerMessage) (laws : ProducerLaws producer delivered) where
  -- What the topic may get for a list of students: for each that has a JSON form one record or, if
  -- its send reports an error, perhaps none. `acked` are the sends without an error.
  pub data Sent : List (Student S) → ℕ → List ProducerMessage → Type 0 where
    none_sent : Sent [] 0 []
    unmarshalled :
        (s : Student S) (e : Error) {ss : List (Student S)} {acked : ℕ} {ms : List ProducerMessage}
        → env.json.marshal_student s ≡ err e
        → Sent ss acked ms
        → Sent (s ∷ ss) acked ms
    lost_one :
        (s : Student S) (value : String) {ss : List (Student S)} {acked : ℕ}
        {ms : List ProducerMessage}
        → env.json.marshal_student s ≡ ok value
        → Sent ss acked ms
        → Sent (s ∷ ss) acked ms
    unacked :
        (s : Student S) (value : String) {ss : List (Student S)} {acked : ℕ}
        {ms : List ProducerMessage}
        → env.json.marshal_student s ≡ ok value
        → Sent ss acked ms
        → Sent
            (s ∷ ss)
            acked
            (record { topic = env.topic_import; key = s.name; value = value } ∷ ms)
    acked_one :
        (s : Student S) (value : String) {ss : List (Student S)} {acked : ℕ}
        {ms : List ProducerMessage}
        → env.json.marshal_student s ≡ ok value
        → Sent ss acked ms
        → Sent
            (s ∷ ss)
            (suc acked)
            (record { topic = env.topic_import; key = s.name; value = value } ∷ ms)

  -- How many were counted and which records the topic got.
  abbrev pub SentBy : List (Student S) → ℕ → K → ℕ × K → Type 0
  SentBy ss success k (success', k') =
      (acked : ℕ) × (ms : List ProducerMessage) × Sent ss acked ms
      × (success' ≡ success + acked)
      × (delivered k' ≡ delivered k ++ ms)

  -- How a call of `ImportStudents` ends.
  abbrev pub ImportEnds : Result (List (Student S)) → K → (ℕ × ℕ × Option Error) × K → Type 0
  ImportEnds (err e) k ((total, success, failed), k') =
      (total ≡ 0) × (success ≡ 0) × (failed ≡ some e) × (delivered k' ≡ delivered k)
  ImportEnds (ok students) k ((total, success, failed), k') =
      (ms : List ProducerMessage) × Sent students success ms
      × (success ≤ length ms)
      × (length ms ≤ total)
      × (total ≡ length students)
      × (failed ≡ none)
      × (delivered k' ≡ delivered k ++ ms)
