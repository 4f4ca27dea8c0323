-- ===== src/Config.antt =====
-- config/config.go: the configuration, read from a file and overridden by the environment. viper is a
-- parameter, and so are the environment of the process and the files.
pub mod Brokers
pub mod Sample
mod Tests
use Prim.Native.Char.{Char, code}
use Prim.Native.String.{[] as no_chars, ◌∷◌ as char_then, String}
use student_service.Common.{
  ℕ, ℤ, Bool, true, false, List, [], ◌∷◌, map, str_eq, text_append, show_int, ◌==◌, if◌then◌else◌,
}
use student_service.Result.{Error, Result, ok, err, new_error}
use student_service.Import.Cells.{trim_space}

pub record KafkaConfig : Type 0 where
  pub brokers : List String
  pub group_id : String
  pub topic_student_event : String
  pub ack_mode : String
  pub topic_audit_log : String
  pub topic_import : String

pub record ServerConfig : Type 0 where
  pub port : String
  pub mode : String

pub record MysqlConfig : Type 0 where
  pub username : String
  pub password : String
  pub host : String
  pub port : ℤ
  pub db_name : String
  pub charset : String

pub record AuthConfig : Type 0 where
  pub token : String
  pub token_header : String

pub record LoggerConfig : Type 0 where
  pub filename : String
  pub level : String
  pub console : Bool
  pub max_size : ℤ
  pub max_backups : ℤ
  pub max_age : ℤ
  pub compress : Bool

pub record RedisConfig : Type 0 where
  pub host : String
  pub port : ℤ
  pub password : String
  pub db : ℤ
  pub pool_size : ℤ

pub record Config : Type 0 where
  pub server : ServerConfig
  pub mysql : MysqlConfig
  pub auth : AuthConfig
  pub logger : LoggerConfig
  pub redis : RedisConfig
  pub kafka : KafkaConfig

-- A character in front of the first part.
abbrev pub into_first : Char → List String → List String
into_first c [] = char_then c no_chars ∷ []
into_first c (p ∷ ps) = char_then c p ∷ ps

-- `strings.Split(text, ",")`.
unfoldable pub split_commas : String → List String
split_commas no_chars = no_chars ∷ []
split_commas (char_then c s) =
    let parts = split_commas s in if code c == b',' then no_chars ∷ parts else into_first c parts

-- `ReadInConfig` of a file, and `Unmarshal` into the structs: `V` is viper with a file read.
pub record Viper (V : Type 0) : Type 0 where
  pub read_in_config : String → Result V
  pub unmarshal : V → Result Config

-- A value of the environment, in place of the one of the file if it is not empty.
abbrev pub overridden : String → String → String
overridden value host = if str_eq value "" then host else value

-- The overrides from the environment, at the end of `InitConfig`.
unfoldable pub apply_environment : (String → String) → Config → Config
apply_environment getenv c =
    let brokers = getenv "APP_KAFKA_BROKERS" in
    record c {
      kafka = record c.kafka {
        brokers =
            if str_eq brokers "" then c.kafka.brokers else map trim_space (split_commas brokers);
      };
      mysql = record c.mysql { host = overridden (getenv "APP_MYSQL_HOST") c.mysql.host };
      redis = record c.redis { host = overridden (getenv "APP_REDIS_HOST") c.redis.host };
    }

unfoldable pub init_config : {V : Type 0} → Viper V → (String → String) → String → Result Config
init_config viper getenv config_path = elim (viper.read_in_config config_path) [
  | err e ↦ err (new_error (text_append "读取文件失败：" e.text))
  | ok v ↦ elim (viper.unmarshal v) [
    | err e ↦ err (new_error (text_append "解析文件失败：" e.text))
    | ok c ↦ ok (apply_environment getenv c)
  ]
]

-- `MysqlConfig.GetDSN`.
unfoldable pub get_dsn : MysqlConfig → String
get_dsn m = text_append m.username (
    text_append ":" (
      text_append m.password (
        text_append "@tcp(" (
          text_append m.host (
            text_append ":" (
              text_append (show_int m.port) (
                text_append ")/" (
                  text_append m.db_name (
                    text_append "?charset="
                      (text_append m.charset "&parseTime=True&loc=Local"))))))))))
