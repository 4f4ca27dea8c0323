-- ===== src/Fixture.antt =====
-- Concrete values of the parameters, on which the code runs in the tests: scores in hundredths, texts
-- in place of JSON that keep a key only, a counting random source, a clock that moves by one.
use student_service.Common.{
  ℕ, ℤ, pos, ◌+◌, ◌+ℤ◌, ltb_ℤ, leb_ℤ, eqb_ℤ, Bool, false, none, some, List, [], ◌∷◌, String, str_eq,
  show_int, if◌then◌else◌, ◌≤◌, ◌≡◌, arith,
}
use student_service.Model.{Student, nil}
use student_service.Result.{ok, err, new_error}
use student_service.Float.{Float}
use student_service.Env.{Env, Json}
use student_service.Session.{Session, blank_audit}
use student_service.Store.{Gorm}
use student_service.Store.Rows.{Tables}
use student_service.Students.List.Order.{Above}
use student_service.Students.World.{World}
use student_service.Redis.Memory.{Cache}
use student_service.Store.Memory.{Memory, Fault, memory}
use student_service.Store.Rows.{select_messages}
use student_service.Broker.{Cluster, cluster}
use student_service.Outbox.Progress.{Health}

abbrev pub cents : Float ℤ
cents = record {
  zero = pos 0;
  hundred = pos 10000;
  add = ◌+ℤ◌;
  lt = ltb_ℤ;
  le = leb_ℤ;
  is_zero = eqb_ℤ (pos 0);
  parse = λ t. if str_eq t "90" then some (pos 9000) else none;
}

abbrev pub named : String → Student ℤ
named t = record {
  id = pos 0;
  name = t;
  score = pos 0;
  class_id = pos 0;
  class = none;
  version = pos 0;
  deleted_at = none;
}

abbrev pub texts : Json ℤ
texts = record {
  marshal_student = λ s. ok s.name;
  unmarshal_student =
      λ t. if str_eq t "nil" then err (new_error "invalid character") else ok (named t);
  marshal_class = λ c. ok c.name;
  unmarshal_class = λ t. ok (record { id = pos 1; name = t; deleted_at = none });
  marshal_audit = λ m. ok m.trace_id;
  unmarshal_audit = λ t. ok (record blank_audit { trace_id = t });
  marshal_payload = λ p. ok "";
  marshal_event = λ e. ok e.event_id;
  unmarshal_event = λ t.
      if str_eq t ""
      then err (new_error "unexpected end")
      else ok (record {
        event_id = t;
        event_type = "create";
        student_id = pos 1;
        event_data = nil;
        time = 0;
      });
}

abbrev pub env : Env ℤ ℕ
env = record {
  float = cents;
  json = texts;
  new_uuid = λ n. (show_int (pos n), n + 1);
  later = λ t. t + 1;
  topic_student_event = "student_event";
  topic_audit_log = "audit.log";
  topic_import = "student_import";
}

pub later_forward : (t : ℕ) → t ≤ t + 1
later_forward t = omega arith

abbrev pub exact : String → String → Bool
exact = str_eq

abbrev pub gorm : Gorm ℤ (Memory ℤ) (Session ℤ ℕ)
gorm = memory exact cents.is_zero

abbrev pub nothing : Tables ℤ
nothing = record { students = []; classes = []; messages = []; audits = [] }

abbrev pub holding : Tables ℤ → List Fault → Memory ℤ
holding t faults = record { tables = t; saved = nothing; faults = faults }

abbrev pub ann : Student ℤ
ann = record (named "ann") { id = pos 1; score = pos 9000; class_id = pos 1; version = pos 3 }

abbrev pub bob : Student ℤ
bob = record (named "bob") { id = pos 2; score = pos 8000; class_id = pos 1 }

abbrev pub cid : Student ℤ
cid = record (named "cid") { id = pos 5; score = pos 7000; class_id = pos 2 }

abbrev pub dan : Student ℤ
dan = record (named "dan") { id = pos 7; deleted_at = some 1 }

abbrev pub school : Tables ℤ
school = record nothing {
  students = ann ∷ bob ∷ cid ∷ dan ∷ [];
  classes = record { id = pos 1; name = "one"; deleted_at = none } ∷ [];
}

abbrev pub blank_session : Session ℤ ℕ
blank_session = record { seed = 0; clock = 10; pool = []; student = named "" }

pub school-Above : Above (pos 0) school.students
school-Above = ground arith

abbrev pub world : World ℤ ℕ (Memory ℤ) Cache
world = record {
  db = holding school [];
  redis = record { texts = []; refused = [] };
  session = blank_session;
  events = [];
  stopped = false;
  jobs = [];
}

-- No faults of the database are left, and none of the broker.
abbrev pub NoFaults : Memory ℤ → Type 0
NoFaults m = m.faults ≡ []

abbrev pub AllAccepted : Cluster → Type 0
AllAccepted k = k.fates ≡ []

pub in_health : Health gorm cluster NoFaults AllAccepted
in_health = record {
  find_fine = λ q m h. (select_messages q m.tables.messages, ground arith, ground arith);
  update_fine = λ cs as_ m h. ground arith;
  send_fine = λ m k h. ground arith;
}
