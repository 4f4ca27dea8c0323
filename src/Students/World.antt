-- ===== src/Students/World.antt =====
-- The state of a request, and what it hands to the background.
use student_service.Common.{
  ℕ, ℤ, ◌+◌, ◌-◌, ◌/◌, ◌≡◌, arith, Bool, List, [], ◌∷◌, ◌++◌, String, text_append, show_int,
  if◌then◌else◌,
}
use student_service.Model.{Payload, StudentEvent}
use student_service.Result.{Result, ok, err}
use student_service.Broker.{ProducerMessage}
use student_service.Env.{Env}
use student_service.Session.{Session, uuid, time_now}

-- What a `go` statement of the services leaves to run later.
pub data Job : Type 0 where
  -- `redis.Client.Set`, with a time to live between the two bounds, in seconds.
  cache_set : String → String → ℕ × ℕ → Job
  -- A `Del`, and another after a second.
  cache_del_twice : String → Job

-- `GetRandomExpire`, as the least and the most that it returns: up to 299 seconds more than its base.
abbrev pub get_random_expire : ℕ → ℕ × ℕ
get_random_expire base = (base, base + (300 - 1))

-- `events` are the tasks in the queue of `eventPool`, each a send to Kafka with a timeout of two
-- seconds; the queue takes no more once the pool has been stopped.
pub record World (S Seed Db R : Type 0) : Type 0 where
  pub db : Db
  pub redis : R
  pub session : Session S Seed
  pub events : List ProducerMessage
  pub stopped : Bool
  pub jobs : List Job

abbrev pub student_cache_prefix : String
student_cache_prefix = "student:info:"

abbrev pub student_lock_prefix : String
student_lock_prefix = "student:lock:"

abbrev pub cache_key : ℤ → String
cache_key id = text_append student_cache_prefix (show_int id)

abbrev pub lock_key : ℤ → String
lock_key id = text_append student_lock_prefix (show_int id)

-- The string that `json.Marshal` gives beside an error is empty.
abbrev pub text_of : Result String → String
text_of (ok t) = t
text_of (err e) = ""

module _ {S Seed Db R : Type 0} (env : Env S Seed) where
  -- `pubilshStudentEvent`. A full queue makes the request wait, which does not change what is sent.
  unfoldable pub publish_student_event :
      String → ℤ → Payload S → World S Seed Db R → World S Seed Db R
  publish_student_event event_type student_id payload w =
      let (id, s) = uuid env w.session in
      let (now, s') = time_now env s in
      let event : StudentEvent S = record {
        event_id = id;
        event_type = event_type;
        student_id = student_id;
        event_data = payload;
        time = now / 1_000_000_000;
      } in
      let task : ProducerMessage = record {
        topic = env.topic_student_event;
        key = show_int student_id;
        value = text_of (env.json.marshal_event event);
      } in
      if w.stopped
      then record w { session = s' }
      else record w { session = s'; events = w.events ++ task ∷ [] }

  -- An event touches the queue of the pool and the random source only.
  pub publish_student_event-db :
      (event_type : String) (id : ℤ) (payload : Payload S) (w : World S Seed Db R)
      → (publish_student_event event_type id payload w).db ≡ w.db
  unfolding publish_student_event
  publish_student_event-db event_type id payload w = ground arith
