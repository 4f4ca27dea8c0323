-- ===== src/Model.antt =====
-- The package model (model/*.go): the rows of the four tables, the messages on the three Kafka
-- topics, and the values that the handlers exchange. `S` is the type of a score, Go's float64.
-- A Go `int` is ℤ, a `uint64` and a time in nanoseconds are ℕ, a nullable time is an `Option`.
use student_service.Common.{ℕ, ℤ, Option, String}

-- model/class.go. `Students` is filled by a preload only, which no query of the code asks for.
pub record Class : Type 0 where
  pub id : ℤ
  pub name : String
  pub deleted_at : Option ℕ

pub record Student (S : Type 0) : Type 0 where
  pub id : ℤ
  pub name : String
  pub score : S
  pub class_id : ℤ
  pub class : Option Class
  pub version : ℤ
  pub deleted_at : Option ℕ

pub record StudentListQuery : Type 0 where
  pub class_id : ℤ
  pub page_size : ℤ
  pub last_id : ℤ

pub record LocalMessage : Type 0 where
  pub id : ℕ
  pub topic : String
  pub key : String
  pub value : String
  pub status : ℕ
  pub retry_count : ℤ
  pub max_retry : ℤ
  pub next_retry : ℕ
  pub error_msg : String
  pub updated_at : ℕ

-- What the code puts into a field of type `interface{}`: nil, a student, or a text.
pub data Payload (S : Type 0) : Type 0 where
  nil : Payload S
  student : Student S → Payload S
  text : String → Payload S

pub record AuditMessage (S : Type 0) : Type 0 where
  pub trace_id : String
  pub operate_type : ℕ
  pub module_name : String
  pub data_id : ℕ
  pub operator : String
  pub before_data : Payload S
  pub after_data : Payload S
  pub ip : String

pub record AuditLog : Type 0 where
  pub trace_id : String
  pub operate_type : ℕ
  pub module_name : String
  pub data_id : ℕ
  pub operator : String
  pub before_data : String
  pub after_data : String
  pub ip : String

pub record StudentEvent (S : Type 0) : Type 0 where
  pub event_id : String
  pub event_type : String
  pub student_id : ℤ
  pub event_data : Payload S
  pub time : ℕ

abbrev pub operate_type_create : ℕ
operate_type_create = 1

abbrev pub operate_type_update : ℕ
operate_type_update = 2

abbrev pub operate_type_delete : ℕ
operate_type_delete = 3

abbrev pub module_student : String
module_student = "student"
