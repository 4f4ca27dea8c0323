-- ===== src/Startup/Plan.antt =====
-- main.go: the calls of a whole start in their order, and what has to be stopped.
use student_service.Common.{
  Bool, true, false, Option, none, some, List, [], ◌∷◌, ◌++◌, String, any, if◌then◌else◌,
}
use student_service.Result.{Error}
use student_service.Config.{Config, get_dsn}
use student_service.Kafka.Groups.{
  producer_config, student_membership, audit_membership, import_membership,
}
use student_service.Startup.Logger.{init_logger}
use student_service.Startup.{Call, Table, redis_options}

-- The calls that connect to the other services, those that start the consumers, and the rest.
abbrev pub connecting : Config → List Call
connecting c =
    Call.gorm_open (get_dsn c.mysql)
    ∷ Call.auto_migrate
        (Table.students ∷ Table.classes ∷ Table.audit_logs ∷ Table.local_messages ∷ [])
    ∷ Call.ping (redis_options c.redis)
    ∷ Call.new_sync_producer c.kafka.brokers (producer_config c.kafka)
    ∷ []

abbrev pub consuming : (String → String) → Config → List Call
consuming getenv c =
    Call.new_consumer_group (student_membership getenv c)
    ∷ Call.new_consumer_group (audit_membership getenv c)
    ∷ Call.new_consumer_group (import_membership getenv c)
    ∷ []

abbrev pub serving : Config → List Call
serving c = Call.new_pool 100 1000 ∷ Call.start_sender ∷ Call.run c.server.port ∷ []

-- The calls of a start in which nothing fails, up to the server.
abbrev pub startup : (String → String) → Config → List Call
startup getenv c =
    Call.init_logger (init_logger c.logger)
    ∷ Call.set_mode c.server.mode
    ∷ (connecting c ++ (consuming getenv c ++ serving c))

abbrev pub is_error : Option Error → Bool
is_error none = false
is_error (some e) = true

-- A call that answers with an error. The set-up of the logger, of the pool and of the sender does not.
abbrev pub fails : (Call → Option Error) → Call → Bool
fails answer (Call.init_logger cores) = false
fails answer (Call.new_pool workers queue) = false
fails answer Call.start_sender = false
fails answer a = is_error (answer a)

-- The calls up to the first that fails, and that one.
abbrev pub up_to_failure : (Call → Bool) → List Call → List Call
up_to_failure f [] = []
up_to_failure f (a ∷ calls) = a ∷ (if f a then [] else up_to_failure f calls)

abbrev pub is_group : Call → Bool
is_group (Call.new_consumer_group m) = true
is_group a = false

abbrev pub is_pool : Call → Bool
is_pool (Call.new_pool workers queue) = true
is_pool a = false

-- What is stopped, from what was started: the pool, the consumers, and the logger.
abbrev pub stops : List Call → List Call
stops calls =
    (if any is_pool calls then Call.shutdown_pool ∷ [] else [])
    ++ ((if any is_group calls then Call.cancel ∷ [] else []) ++ Call.sync ∷ [])
