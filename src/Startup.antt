-- ===== src/Startup.antt =====
-- main.go, with what it calls of config/config.go, logger/logger.go, dao/db.go, redis/redis.go and
-- kafka/kafka.go: the start of the service and what runs when `main` returns. The libraries answer each
-- call with an error or none; a state is the list of the calls made. Left out are log output, the
-- breaker that `InitKafka` makes (Kafka.Breaker) and the routes (Http.Router): their set-up calls nobody.
pub mod Logger
pub mod Plan
pub mod Prefix
pub mod Runs
pub mod Order
mod Tests
use student_service.Common.{
  ℕ, ℤ, Bool, true, false, Option, none, some, List, [], ◌∷◌, ◌++◌, String, text_append, show_int,
  pos, if◌then◌else◌,
}
use student_service.Result.{Error, Result, ok, err, new_error}
use student_service.Config.{Config, RedisConfig, Viper, init_config, get_dsn}
use student_service.Startup.Logger.{Core, init_logger as logger_cores}
use student_service.Kafka.Groups.{
  ProducerConfig, producer_config, Membership, student_membership, audit_membership,
  import_membership,
}

-- The fields of `redis.Options` that the code sets.
pub record RedisOptions : Type 0 where
  pub addr : String
  pub password : String
  pub db : ℤ
  pub pool_size : ℤ

pub data Table : Type 0 where
  students classes audit_logs local_messages : Table

pub data Call : Type 0 where
  init_logger : List Core → Call
  -- gin panics on a mode that it does not know.
  set_mode : String → Call
  gorm_open : String → Call
  auto_migrate : List Table → Call
  ping : RedisOptions → Call
  new_sync_producer : List String → ProducerConfig → Call
  new_consumer_group : Membership → Call
  new_pool : (worker_num queue_size : ℕ) → Call
  start_sender : Call
  run : String → Call
  shutdown_pool cancel sync : Call

pub data Exit : Type 0 where
  panicked : String → Exit
  returned : Exit

-- What a function of the start does: its error, and the calls made so far.
abbrev pub Start : Type 0
Start = List Call → Option Error × List Call

-- An error with a text before it.
abbrev pub wrapped : String → Option Error × List Call → Option Error × List Call
wrapped text (none, t) = (none, t)
wrapped text (some e, t) = (some (new_error (text_append text e.text)), t)

unfoldable pub redis_options : RedisConfig → RedisOptions
redis_options r = record {
  addr = text_append r.host (text_append ":" (show_int r.port));
  password = r.password;
  db = r.db;
  pool_size = r.pool_size;
}

module _ (answer : Call → Option Error) where
  abbrev pub call : Call → Start
  call a t = (answer a, t ++ a ∷ [])

  -- `if err != nil { …; return err }`.
  abbrev pub and_then : Option Error × List Call → Start → Option Error × List Call
  and_then (some e, t) next = (some e, t)
  and_then (none, t) next = next t

  unfoldable pub init_db : String → Start
  init_db dsn t = and_then (call (Call.gorm_open dsn) t) (
      call (
        Call.auto_migrate
          (Table.students ∷ Table.classes ∷ Table.audit_logs ∷ Table.local_messages ∷ [])))

  unfoldable pub init_redis : Config → Start
  init_redis c t = wrapped "redis连接失败:" (call (Call.ping (redis_options c.redis)) t)

  unfoldable pub init_kafka : Config → Start
  init_kafka c t =
      wrapped "kafka生产者初始化失败:"
        (call (Call.new_sync_producer c.kafka.brokers (producer_config c.kafka)) t)

  unfoldable pub start_consumer : Membership → Start
  start_consumer m t = wrapped "kafka消费者组创建失败:" (call (Call.new_consumer_group m) t)

  -- The server: its error is logged, and `main` returns.
  unfoldable pub serve_requests : Config → List Call → Exit × List Call
  serve_requests c t =
      let t' = t ++ Call.new_pool 100 1000 ∷ Call.start_sender ∷ [] in
      let (e, t'') = call (Call.run c.server.port) t' in
      (Exit.returned, t'' ++ Call.shutdown_pool ∷ Call.cancel ∷ Call.sync ∷ [])

  module _ (getenv : String → String) where
    -- The consumers, under a context that is cancelled at the end.
    unfoldable pub start_consumers : Config → Start
    start_consumers c t = and_then (start_consumer (student_membership getenv c) t) (λ t'.
        and_then (start_consumer (audit_membership getenv c) t')
          (start_consumer (import_membership getenv c)))

    -- From the end of the start of the consumers, and from that of the connections.
    abbrev pub after_consumers : Config → Option Error × List Call → Exit × List Call
    after_consumers c (some e, t) = (Exit.returned, t ++ Call.cancel ∷ Call.sync ∷ [])
    after_consumers c (none, t) = serve_requests c t

    abbrev pub after_connecting : Config → Option Error × List Call → Exit × List Call
    after_connecting c (some e, t) = (Exit.returned, t ++ Call.sync ∷ [])
    after_connecting c (none, t) = after_consumers c (start_consumers c t)

    -- The part of `main` after the mode of gin is set.
    unfoldable pub connect : Config → List Call → Exit × List Call
    connect c t =
        after_connecting c
          (and_then (init_db (get_dsn c.mysql) t) (λ t'. and_then (init_redis c t') (init_kafka c)))

    module _ {V : Type 0} (viper : Viper V) where
      unfoldable pub main : String → Exit × List Call
      main config_path = elim (init_config viper getenv config_path) [
        | err e ↦ (Exit.panicked (text_append "配置初始化失败:" e.text), [])
        | ok c ↦
            let t = Call.init_logger (logger_cores c.logger) ∷ [] in
            let (e, t') = call (Call.set_mode c.server.mode) t in
            elim e [
              | some unknown ↦ (Exit.panicked unknown.text, t' ++ Call.sync ∷ [])
              | none ↦ connect c t'
            ]
      ]
