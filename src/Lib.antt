-- ===== src/Lib.antt =====
-- The student service: a model of the program and what is proved of it.
--
-- The program is a web service on students. Requests read and write the table of students; every
-- write puts an audit message into the table local_message in the same transaction (an outbox), and a
-- background loop sends the pending messages to Kafka. Consumers write audit rows, handle student
-- events and import students in batches. Reads go through a cache in redis. Its parts, and the files
-- that model them:
--   Model       model/*.go: the rows of the tables, the messages on the topics, the query of a listing
--   Result      errors of the program and of its libraries, and `(value, error)` results
--   Float       float64, the type of a score
--   Store       gorm and MySQL (package dao's `DB`): the calls of the code as an interface; Store/Rows
--               has the statements as values and what they mean on rows, Store/Laws what the code
--               relies on, Store/Memory a database in memory with scripted faults that meets the laws
--   Redis       go-redis (redis/redis.go): the interface, its laws, and Redis/Memory in memory
--   Broker      kafka/kafka.go, `SendMessage`: the producer of sarama, its laws, one in memory
--   Env         encoding/json, google/uuid, the clock, and the topics of config/config.go
--   Session     the state of a request: random source, clock, pool of audit messages; and
--               `buildAuditMessage` and `SaveAuditMessage`
--   Dao         dao/*.go: one definition for each function that the services call
--   Outbox      dao/local_message.go and service/local_message_service.go: the sender of the outbox
--   Students    service/student_service.go: List (the two listings), World and Write (`AddStudent`,
--               `DeleteStudent`, `UpdateStudent`), Score (the two ways to add to a score), Get (the
--               cached read, with service/class_service.go)
--   Import      utils/excel.go and service/import_service.go; Import/Consumer is kafka/import_consumer.go,
--               one claim by itself and, in Import/Consumer/Claims, several that share the buffer
--   Audit       kafka/audit_consumer.go; Audit/Handover and Audit/Delivery follow an audit message from
--               the write of a student to the topic and to its row; Audit/Direct is
--               service/audit_service.go
--   Events      kafka/student_consumer.go; Events/Repeats is about events delivered more than once
--   Http        controller/student_controller.go and utils/response.go; Http/Router is router/router.go
--               with middleware/auth.go and middleware/ratelimit.go, Http/Observed middleware/logger.go
--               and middleware/prometheus.go
--   Pool        utils/pool.go: the pool of workers, as actions of its goroutines in any order;
--               Pool/Shutdown is about its end
--   Config      config/config.go: the file and what the environment overrides
--   Kafka       kafka/kafka.go: Breaker (`InitBreaker`), Sends and Landing (`SendMessageWithTimeout`, run
--               by the pool for each event), Groups (the settings of `InitKafka` and `StartConsumer`)
--   Startup     main.go, with dao/db.go, redis/redis.go and logger/logger.go
--   Fixture     the concrete values on which the tests run; a Tests file stands by each part
--
-- How code becomes definitions. A function keeps its name, in snake case, and takes and returns the
-- state that it touches. A Go pair of a value and an error is a `Result`, or an `Option Error` where
-- the value is nothing. A Go `int` is an ℤ, and arithmetic that the code does on it goes through
-- `int64`, which wraps; times are natural numbers of nanoseconds. A `defer` is done where the function
-- returns. What a `go` statement does later is a job in `World`; the queue of `eventPool` is a list of
-- sends. A `sync.Pool` gives back an object with whatever was in it: `build_audit_message` sets every
-- field that it sets in the code. Where other sessions may act during a sleep (`others`), what they do
-- is an argument.
--
-- Parameters. gorm, MySQL, redis, sarama, gobreaker, viper, excelize, gin, x/time/rate, encoding/json,
-- uuid and float64 are arguments of the definitions. The laws in Store/Laws, Redis and Broker say what is relied on: an update is done
-- whole or not at all, a transaction is kept whole or not at all, a send without an error was appended,
-- a `SETNX` that succeeds finds its key free. Any call may fail in between; the laws hold of the
-- databases in memory, whose faults are scripted.
--
-- Bounds. The loop of the sender is recursion on the signals that its `select` receives, a consumer's
-- loop on what its claim delivers, the loop over the rows of a sheet on the rows. The retrying addition
-- has the three rounds of the code. `GetStudentByID` calls itself after each sleep without a bound, and
-- its model takes the number of sleeps as an argument and has no answer if that is too small.
--
-- Not modelled: the functions of logger/logger.go that print and the calls of them, the routes for
-- metrics and profiles, the matching of paths by gin, and how signals of the operating system end the
-- program, since the code handles none.
pub mod Common
pub mod Model
pub mod Result
pub mod Store
pub mod Broker
pub mod Outbox
pub mod Float
pub mod Redis
pub mod Env
pub mod Session
pub mod Fixture
pub mod Dao
pub mod Students
pub mod Import
pub mod Audit
pub mod Events
pub mod Http
pub mod Pool
pub mod Config
pub mod Kafka
pub mod Startup
