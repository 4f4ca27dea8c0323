-- ===== src/Startup/Logger.antt =====
-- logger/logger.go: what zap and lumberjack are configured with. Levels, times, durations and callers
-- are printed by encoders of zap, named here, and times by one of the code's own.
use student_service.Common.{ℤ, Bool, List, [], ◌∷◌, String, str_eq, if◌then◌else◌}
use student_service.Config.{LoggerConfig}

pub data Level : Type 0 where
  debug_level info_level warn_level error_level : Level

-- The fields of `lumberjack.Logger`.
pub record FileWriter : Type 0 where
  pub filename : String
  pub max_size : ℤ
  pub max_backups : ℤ
  pub max_age : ℤ
  pub compress : Bool

pub data LevelEncoder : Type 0 where
  capital capital_color : LevelEncoder

-- `customTimeEncoder`, as its layout.
abbrev custom_time_encoder : String
custom_time_encoder = "2006-01-02 15:04:05"

-- `zapcore.EncoderConfig`. The line ends and the encoders of durations and callers are zap's.
pub record EncoderConfig : Type 0 where
  pub time_key : String
  pub level_key : String
  pub name_key : String
  pub caller_key : String
  pub message_key : String
  pub stacktrace_key : String
  pub encode_level : LevelEncoder
  pub encode_time : String

-- A core of zap: JSON to the file, or text to the standard output.
pub data Core : Type 0 where
  file_core : EncoderConfig → FileWriter → Level → Core
  console_core : EncoderConfig → Level → Core

abbrev level_of : String → Level
level_of text =
    if str_eq text "debug"
    then Level.debug_level
    else if str_eq text "warn"
    then Level.warn_level
    else if str_eq text "error"
    then Level.error_level
    else Level.info_level

-- `InitLogger`, as the cores of the logger; it never fails.
unfoldable pub init_logger : LoggerConfig → List Core
init_logger l =
    let file_writer : FileWriter = record {
      filename = l.filename;
      max_size = l.max_size;
      max_backups = l.max_backups;
      max_age = l.max_age;
      compress = l.compress;
    } in
    let level = level_of l.level in
    let encoder_config : EncoderConfig = record {
      time_key = "time";
      level_key = "level";
      name_key = "logger";
      caller_key = "caller";
      message_key = "msg";
      stacktrace_key = "stacktrace";
      encode_level = LevelEncoder.capital;
      encode_time = custom_time_encoder;
    } in
    let console_encoder_config = record encoder_config {
      encode_level = LevelEncoder.capital_color;
    } in
    let core = Core.file_core encoder_config file_writer level in
    if l.console then core ∷ Core.console_core console_encoder_config level ∷ [] else core ∷ []
