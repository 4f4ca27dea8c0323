-- ===== src/Broker.antt =====
-- kafka/kafka.go: the producer's side. The producer of sarama is a parameter: `send` is its
-- `SendMessage`, on a state that stands for the connection and the cluster behind it.
use student_service.Common.{
  ◌≡◌, ◌⊎◌, inl, inr, refl, Option, none, some, List, [], ◌∷◌, ◌++◌, String,
}
use student_service.Result.{Error, new_error}

-- The fields that the code sets of `sarama.ProducerMessage`.
pub record ProducerMessage : Type 0 where
  pub topic : String
  pub key : String
  pub value : String

pub record Producer (K : Type 0) : Type 0 where
  pub send : ProducerMessage → K → Option Error × K

-- A send without an error has been appended; one with an error may have been, since the broker's
-- answer can be lost.
pub record ProducerLaws {K : Type 0} (p : Producer K) (delivered : K → List ProducerMessage)
    : Type 0 where
  pub send_ok :
      (m : ProducerMessage) (k : K)
      → (p.send m k).0 ≡ none
      → delivered (p.send m k).1 ≡ delivered k ++ m ∷ []
  pub send_err :
      (m : ProducerMessage) (k : K) (e : Error)
      → (p.send m k).0 ≡ some e
      → (delivered (p.send m k).1 ≡ delivered k)
        ⊎ (delivered (p.send m k).1 ≡ delivered k ++ m ∷ [])

module _ {K : Type 0} (producer : Producer K) where
  unfoldable pub send_message : String → String → String → K → Option Error × K
  send_message topic key value = producer.send (record { topic = topic; key = key; value = value })

-- A producer in memory: what was delivered, and for each coming send whether it fails, and if so
-- whether the message got through all the same.
pub data Fate : Type 0 where
  accepted lost unacknowledged : Fate

pub record Cluster : Type 0 where
  pub log : List ProducerMessage
  pub fates : List Fate

abbrev no_brokers : Error
no_brokers = new_error "kafka: client has run out of available brokers to talk to"

abbrev pub deliver : List Fate → ProducerMessage → Cluster → Option Error × Cluster
deliver [] m k = (none, record k { log = k.log ++ m ∷ [] })
deliver (accepted ∷ fates) m k = (none, record { log = k.log ++ m ∷ []; fates = fates })
deliver (lost ∷ fates) m k = (some no_brokers, record k { fates = fates })
deliver (unacknowledged ∷ fates) m k =
    (some no_brokers, record { log = k.log ++ m ∷ []; fates = fates })

abbrev pub cluster : Producer Cluster
cluster = record { send = λ m k. deliver k.fates m k }

deliver_ok :
    (fates : List Fate) (m : ProducerMessage) (k : Cluster)
    → (deliver fates m k).0 ≡ none
    → (deliver fates m k).1.log ≡ k.log ++ m ∷ []
deliver_ok [] m k h = refl
deliver_ok (accepted ∷ fates) m k h = refl
deliver_ok (lost ∷ fates) m k h = cc
deliver_ok (unacknowledged ∷ fates) m k h = refl

deliver_err :
    (fates : List Fate) (m : ProducerMessage) (k : Cluster) (e : Error)
    → (deliver fates m k).0 ≡ some e
    → ((deliver fates m k).1.log ≡ k.log) ⊎ ((deliver fates m k).1.log ≡ k.log ++ m ∷ [])
deliver_err [] m k e h = inr refl
deliver_err (accepted ∷ fates) m k e h = inr refl
deliver_err (lost ∷ fates) m k e h = inl refl
deliver_err (unacknowledged ∷ fates) m k e h = inr refl

pub cluster-ProducerLaws : ProducerLaws cluster (λ k. k.log)
cluster-ProducerLaws = record {
  send_ok = λ m k h. deliver_ok k.fates m k h;
  send_err = λ m k e h. deliver_err k.fates m k e h;
}
