-- ===== src/Kafka/Tests.antt =====
-- The breaker and the consumer groups on small inputs.
use student_service.Common.{
  ℕ, ◌*◌, ◌≡◌, ◌+◌, show_int, ◌⊎◌, inl, inr, refl, Bool, true, false, leb, Option, none, some, List,
  [], ◌∷◌, String,
}
use student_service.Result.{Error, new_error}
use student_service.Broker.{
  ProducerMessage, Cluster, send_message, lost, unacknowledged, cluster, cluster-ProducerLaws,
}
use student_service.Kafka.Breaker.{
  Counts, Ratio, Settings, Breaker, BreakerLaws, init_breaker, ready_to_trip,
}
use student_service.Import.Cells.{trim_space, trim_left, trim_right}
use student_service.Config.{init_config, apply_environment, split_commas}
use student_service.Config.Sample.{viper, environment, loaded}
use student_service.Kafka.Groups.{consumer_brokers, consumer_brokers-producer}
use student_service.Kafka.Sends.{
  Line, Race, raced_send, send_event, IsSent, send_message_with_timeout, show_seconds,
  send_message_with_timeout-IsSent,
}
use student_service.Kafka.Landing.{SendAction, act, act_all}

-- Fractions, as pairs.
abbrev fractions : Ratio (ℕ × ℕ)
fractions = record {
  of_count = λ n. (n, 1);
  div = λ a b. (a.0 * b.1, a.1 * b.0);
  half = (1, 2);
  ge = λ a b. leb (b.0 * a.1) (a.0 * b.1);
}

-- A breaker that counts and stays open once it has tripped.
record Fuse : Type 0 where
  settings : Settings
  counts : Counts
  opened : Bool

-- One more request has ended.
abbrev counted : Option Error → Fuse → Fuse
counted none f = record f { counts = record f.counts { requests = f.counts.requests + 1 } }
counted (some e) f =
    let counts : Counts = record {
      requests = f.counts.requests + 1;
      total_failures = f.counts.total_failures + 1;
    } in
    record f { counts = counts; opened = f.settings.ready_to_trip counts }

abbrev fused : {W : Type 0} → Bool → (W → Option Error × W) → Fuse → W → Option Error × (Fuse × W)
fused true request f w = (some (new_error "circuit breaker is open"), (f, w))
fused false request f w = let r = request w in (r.0, (counted r.0 f, r.1))

abbrev fuse : {W : Type 0} → Breaker Fuse W
fuse = record {
  new_circuit_breaker = λ settings. record {
    settings = settings;
    counts = record { requests = 0; total_failures = 0 };
    opened = false;
  };
  execute = λ request f w. fused f.opened request f w;
}

fused_once :
    {W : Type 0} (opened : Bool) (request : W → Option Error × W) (f : Fuse) (w : W)
    → let (e, (f', w')) = fused opened request f w in
      ((refusal : Error) × ((e ≡ some refusal) × (w' ≡ w))) ⊎ ((e, w') ≡ request w)
fused_once true request f w = inl (new_error "circuit breaker is open", (refl, refl))
fused_once false request f w = inr refl

fuse-BreakerLaws : {W : Type 0} → BreakerLaws (fuse {W = W})
fuse-BreakerLaws = record { execute_once = λ request f w. fused_once f.opened request f w }

abbrev start : Fuse
start = init_breaker {W = Line Cluster} fractions fuse

abbrev event : String → ProducerMessage
event text = record { topic = "student-event"; key = "7"; value = text }

-- A cluster whose next sends all fail.
abbrev down : Line Cluster
down = record {
  producer_state = record { log = []; fates = lost ∷ unacknowledged ∷ lost ∷ lost ∷ [] };
  in_flight = [];
}

-- The third failure opens the breaker: the fourth event is not tried.
abbrev actions : List SendAction
actions =
    SendAction.begin (event "a") Race.answered
    ∷ SendAction.begin (event "b") Race.timed_out
    ∷ SendAction.begin (event "c") Race.answered
    ∷ SendAction.begin (event "d") Race.answered
    ∷ SendAction.land 0
    ∷ []

show_seconds_test :
    (show_seconds 2 ≡ "2s") × ((show_seconds 60 ≡ "1m0s") × (show_seconds 3725 ≡ "1h2m5s"))
unfolding show_seconds show_int
show_seconds_test = (refl, (refl, refl))

trip_test :
    (act_all cluster fuse actions (start, down)).1.producer_state
    ≡ record { log = event "c" ∷ []; fates = lost ∷ [] }
unfolding act_all act send_event send_message_with_timeout raced_send send_message init_breaker
    ready_to_trip
trip_test = refl

send_message_with_timeout-IsSent_example :
    IsSent cluster fuse
      (λ k. k.log)
      (event "a")
      2
      (send_message_with_timeout cluster fuse "student-event" "7" "a" 2 Race.answered start down).0
      down
      (send_message_with_timeout cluster fuse "student-event" "7" "a" 2 Race.answered start
        down).1.1
send_message_with_timeout-IsSent_example =
    send_message_with_timeout-IsSent cluster fuse (λ k. k.log) cluster-ProducerLaws fuse-BreakerLaws
      "student-event" "7" "a" 2 Race.answered start down

consumer_brokers-producer_example :
    consumer_brokers environment loaded.kafka.brokers ≡ loaded.kafka.brokers
unfolding init_config apply_environment split_commas trim_space trim_left trim_right
consumer_brokers-producer_example =
    consumer_brokers-producer viper environment "config/config.yaml" loaded
      (inr ("kafka-1:9092", ("kafka-2:9092" ∷ [], (((refl, refl), ((refl, refl), tt)), refl)))) refl
