-- ===== src/Kafka/Groups.antt =====
-- kafka/kafka.go, and the starts in kafka/student_consumer.go, kafka/audit_consumer.go and
-- kafka/import_consumer.go: what sarama is configured with, and the loop around a consumer group.
-- `NewSyncProducer` and `NewConsumerGroup` are parameters that answer with an error or none.
use student_service.Common.{
  ℕ, ◌≡◌, ◌⊎◌, subst, refl, sym, ◌∙◌, Bool, true, not, ◌&&◌, Option, List, [], ◌∷◌, All, String,
  text_append, str_eq, str_eq_iff, if◌then◌else◌, Bool-cases, inl, inr,
}
use student_service.Result.{Error, Result, Result-cases, ok, new_error}
use student_service.Config.{
  Config, KafkaConfig, Viper, init_config, apply_environment, split_commas,
}
use student_service.Config.Brokers.{
  IsAddress, comma_separated, split_commas-comma_separated, map-trim_space,
}

pub data RequiredAcks : Type 0 where
  wait_for_all wait_for_local : RequiredAcks

-- The fields of `sarama.Config` that the code sets for the producer. The backoff is in milliseconds.
pub record ProducerConfig : Type 0 where
  pub return_successes : Bool
  pub return_errors : Bool
  pub required_acks : RequiredAcks
  pub retry_max : ℕ
  pub retry_backoff : ℕ

unfoldable pub producer_config : KafkaConfig → ProducerConfig
producer_config k = record {
  return_successes = true;
  return_errors = true;
  required_acks =
      if str_eq k.ack_mode "wait_for_all"
      then RequiredAcks.wait_for_all
      else if str_eq k.ack_mode "wait_for_local"
      then RequiredAcks.wait_for_local
      else RequiredAcks.wait_for_all;
  retry_max = 3;
  retry_backoff = 100;
}

pub data BalanceStrategy : Type 0 where
  round_robin : BalanceStrategy

pub data Offset : Type 0 where
  offset_oldest : Offset

-- The fields that it sets for a consumer group.
pub record ConsumerConfig : Type 0 where
  pub group_strategies : List BalanceStrategy
  pub offsets_initial : Offset

-- The handlers, with what they are made with.
pub data Handler : Type 0 where
  student_event_handler audit_log_handler : Handler
  import_handler : (batch_size : ℕ) → Handler

-- A consumer group with the topics and the handler of its loop.
pub record Membership : Type 0 where
  pub brokers : List String
  pub group_id : String
  pub config : ConsumerConfig
  pub topics : List String
  pub handler : Handler

-- `len(brokers) == 0 || brokers[0] == ""`.
abbrev no_first : List String → Bool
no_first [] = true
no_first (b ∷ bs) = str_eq b ""

unfoldable pub consumer_brokers : (String → String) → List String → List String
consumer_brokers getenv brokers =
    let env = getenv "APP_KAFKA_BROKERS" in
    if no_first brokers && not (str_eq env "") then split_commas env else brokers

-- The group that `StartConsumer` asks for.
unfoldable pub membership : (String → String) → Config → List String → Handler → String → Membership
membership getenv c topics handler group_id = record {
  brokers = consumer_brokers getenv c.kafka.brokers;
  group_id = group_id;
  config = record {
    group_strategies = BalanceStrategy.round_robin ∷ [];
    offsets_initial = Offset.offset_oldest;
  };
  topics = topics;
  handler = handler;
}

abbrev pub student_membership : (String → String) → Config → Membership
student_membership getenv c =
    membership getenv c (c.kafka.topic_student_event ∷ []) Handler.student_event_handler
      (text_append c.kafka.group_id "-student")

abbrev pub audit_membership : (String → String) → Config → Membership
audit_membership getenv c =
    membership getenv c (c.kafka.topic_audit_log ∷ []) Handler.audit_log_handler
      (text_append c.kafka.group_id "-audit")

abbrev pub import_membership : (String → String) → Config → Membership
import_membership getenv c =
    membership getenv c (c.kafka.topic_import ∷ []) (Handler.import_handler 100)
      (text_append c.kafka.group_id "-import-new")

-- What the loop of a group finds before each call: its context has ended, or not.
pub data Poll : Type 0 where
  cancelled running : Poll

-- The loop, over what it finds; `consume` is a call of `group.Consume`, whose error is logged only.
unfoldable pub consume_loop : {W : Type 0} → (W → Option Error × W) → List Poll → W → W
consume_loop consume [] w = w
consume_loop consume (Poll.cancelled ∷ polls) w = w
consume_loop consume (Poll.running ∷ polls) w = consume_loop consume polls (consume w).1

-- A configuration that was read is one of a file with the overrides.
init_config-overrides :
    {V : Type 0} (viper : Viper V) (getenv : String → String) (path : String) (c : Config)
    → init_config viper getenv path ≡ ok c
    → (file : Config) × (c ≡ apply_environment getenv file)
unfolding init_config
init_config-overrides viper getenv path c h = elim (Result-cases (viper.read_in_config path)) [
  | inr (e, r) ↦
      let k : Result.err (new_error (text_append "读取文件失败：" e.text)) ≡ ok c =
        sym (rw (init_config, r) refl) ∙ h in
      absurd (cc)
  | inl (v, r) ↦ elim (Result-cases (viper.unmarshal v)) [
    | inr (e, u) ↦
        let k : Result.err (new_error (text_append "解析文件失败：" e.text)) ≡ ok c =
          sym (rw (init_config, r, u) refl) ∙ h in
        absurd (cc)
    | inl (file, u) ↦
        let k : ok (apply_environment getenv file) ≡ ok c = sym (rw (init_config, r, u) refl) ∙ h in
        (file, cc)
  ]
]

-- The value of the variable: none, or addresses with commas between them.
abbrev pub IsBrokers : String → Type 0
IsBrokers env =
    (env ≡ "")
    ⊎ ((p : String) × ((ps : List String) × (All IsAddress (p ∷ ps)
            × (env ≡ comma_separated (p ∷ ps)))))

-- The fallback does nothing without the variable, or where it gives what is there.
consumer_brokers-same :
    (getenv : String → String) (brokers : List String)
    → (getenv "APP_KAFKA_BROKERS" ≡ "") ⊎ (split_commas (getenv "APP_KAFKA_BROKERS") ≡ brokers)
    → consumer_brokers getenv brokers ≡ brokers
unfolding consumer_brokers
consumer_brokers-same getenv brokers (inl e) = elim (Bool-cases (no_first brokers)) [
  | inl f ↦ rw (consumer_brokers, f, e) refl
  | inr f ↦ rw (consumer_brokers, f) refl
]
consumer_brokers-same getenv brokers (inr e) =
    elim (Bool-cases (no_first brokers && not (str_eq (getenv "APP_KAFKA_BROKERS") ""))) [
      | inl f ↦ rw (consumer_brokers, f, e) refl
      | inr f ↦ rw (consumer_brokers, f) refl
    ]

overridden_brokers :
    (getenv : String → String) (c : Config)
    → IsBrokers (getenv "APP_KAFKA_BROKERS")
    → let brokers = (apply_environment getenv c).kafka.brokers in
      consumer_brokers getenv brokers ≡ brokers
unfolding apply_environment split_commas
overridden_brokers getenv c (inl e) =
    consumer_brokers-same getenv (apply_environment getenv c).kafka.brokers (inl e)
overridden_brokers getenv c (inr (p, (ps, (a, e)))) =
    consumer_brokers-same getenv (apply_environment getenv c).kafka.brokers
      (elim (Bool-cases (str_eq (comma_separated (p ∷ ps)) "")) [
        | inl f ↦ inl (e ∙ (str_eq_iff _ _).0 f)
        | inr f ↦ inr (
            rw
              (
                apply_environment,
                e,
                f,
                split_commas-comma_separated p ps a,
                map-trim_space (p ∷ ps) a,
              )
              refl)
      ])

-- With a configuration that was read while APP_KAFKA_BROKERS was not set, or listed addresses without
-- commas and without spaces around them, the consumer groups have the brokers of the producer.
pub consumer_brokers-producer :
    {V : Type 0} (viper : Viper V) (getenv : String → String) (path : String) (c : Config)
    → IsBrokers (getenv "APP_KAFKA_BROKERS")
    → init_config viper getenv path ≡ ok c
    → consumer_brokers getenv c.kafka.brokers ≡ c.kafka.brokers
consumer_brokers-producer viper getenv path c b h =
    let (file, e) = init_config-overrides viper getenv path c h in
    subst (λ (c : Config). consumer_brokers getenv c.kafka.brokers ≡ c.kafka.brokers) (sym e)
      (overridden_brokers getenv file b)
