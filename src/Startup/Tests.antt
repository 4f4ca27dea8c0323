-- ===== src/Startup/Tests.antt =====
-- A start at which the second consumer group cannot be joined.
use student_service.Common.{◌≡◌, refl, Option, none, some, [], ◌∷◌, ◌++◌, str_eq, if◌then◌else◌}
use student_service.Result.{Error, new_error}
use student_service.Import.Cells.{trim_space, trim_left, trim_right}
use student_service.Config.{init_config, apply_environment, split_commas}
use student_service.Config.Sample.{viper, environment, loaded}
use student_service.Kafka.Groups.{membership}
use student_service.Startup.{Call, main}
use student_service.Startup.Plan.{startup, fails, up_to_failure, stops}
use student_service.Startup.Order.{main_order}

abbrev answer : Call → Option Error
answer (Call.new_consumer_group m) =
    if str_eq m.group_id "student-audit" then some (new_error "no coordinator") else none
answer call = none

main_order_example :
    (main answer environment viper "config/config.yaml").1
    ≡ up_to_failure (fails answer) (startup environment loaded)
      ++ stops (up_to_failure (fails answer) (startup environment loaded))
unfolding init_config apply_environment split_commas trim_space trim_left trim_right
main_order_example = main_order answer environment viper "config/config.yaml" loaded refl

stops_test :
    stops (up_to_failure (fails answer) (startup environment loaded)) ≡ Call.cancel ∷ Call.sync ∷ []
unfolding membership
stops_test = refl
