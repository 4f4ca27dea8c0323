-- ===== src/Config/Sample.antt =====
-- The configuration of `config.yaml`, shortened, and an environment with two brokers.
use student_service.Common.{ℕ, true, List, [], ◌∷◌, pos, String, str_eq, if◌then◌else◌}
use student_service.Result.{ok, err, new_error}
use student_service.Config.{Config, Viper}
use student_service.Config.Brokers.{comma_separated}

abbrev pub sample : Config
sample = record {
  server = record { port = "8080"; mode = "debug" };
  mysql = record {
    username = "root";
    password = "secret";
    host = "mysql";
    port = pos 3306;
    db_name = "students";
    charset = "utf8mb4";
  };
  auth = record { token = "t"; token_header = "Authorization" };
  logger = record {
    filename = "logs/app.log";
    level = "info";
    console = true;
    max_size = pos 100;
    max_backups = pos 7;
    max_age = pos 30;
    compress = true;
  };
  redis = record { host = "redis"; port = pos 6379; password = ""; db = pos 0; pool_size = pos 10 };
  kafka = record {
    brokers = "kafka:9092" ∷ [];
    group_id = "student";
    topic_student_event = "student-event";
    ack_mode = "wait_for_all";
    topic_audit_log = "audit-log";
    topic_import = "student-import";
  };
}

-- The one file there is.
abbrev pub viper : Viper ℕ
viper = record {
  read_in_config =
      λ path. if str_eq path "config/config.yaml" then ok 0 else err (new_error "no such file");
  unmarshal = λ v. ok sample;
}

abbrev pub two_brokers : List String
two_brokers = "kafka-1:9092" ∷ "kafka-2:9092" ∷ []

abbrev pub environment : String → String
environment name = if str_eq name "APP_KAFKA_BROKERS" then comma_separated two_brokers else ""

-- The configuration that is read.
abbrev pub loaded : Config
loaded = record sample { kafka = record sample.kafka { brokers = two_brokers } }
