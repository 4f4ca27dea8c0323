-- ===== src/Config/Tests.antt =====
-- The configuration read from the file and the environment.
use mathlib.Core.Bool.{false≢true}
use student_service.Common.{◌≡◌, refl, ap, [], ◌∷◌, show_int, str_eq, if◌then◌else◌}
use student_service.Result.{ok}
use student_service.Import.Cells.{trim_space, trim_left, trim_right}
use student_service.Config.{init_config, apply_environment, split_commas, get_dsn}
use student_service.Config.Brokers.{init_config-comma_separated}
use student_service.Config.Sample.{sample, viper, environment, loaded}

get_dsn_test :
    get_dsn sample.mysql
    ≡ "root:secret@tcp(mysql:3306)/students?charset=utf8mb4&parseTime=True&loc=Local"
unfolding get_dsn show_int
get_dsn_test = refl

spaces_test :
    init_config viper
      (λ name. if str_eq name "APP_KAFKA_BROKERS" then " a:1 ,b:2" else "")
      "config/config.yaml"
    ≡ ok (record sample { kafka = record sample.kafka { brokers = "a:1" ∷ "b:2" ∷ [] } })
unfolding init_config apply_environment split_commas trim_space trim_left trim_right
spaces_test = refl

init_config-comma_separated_example : init_config viper environment "config/config.yaml" ≡ ok loaded
unfolding trim_space trim_left trim_right
init_config-comma_separated_example =
    init_config-comma_separated viper environment "config/config.yaml" 0 sample "kafka-1:9092"
      ("kafka-2:9092" ∷ []) refl refl ((refl, refl), ((refl, refl), tt))
      (λ h. false≢true (ap (λ s. str_eq s "") h)) refl refl refl
