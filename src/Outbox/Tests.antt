-- ===== src/Outbox/Tests.antt =====
-- The outbox on concrete tables, and its theorems there.
use student_service.Common.{negsuc, ℕ, ℤ, pos, ◌≡◌, refl, List, [], ◌∷◌, arith, int64, ◌+ℤ◌}
use student_service.Model.{LocalMessage}
use student_service.Broker.{Cluster, accepted, lost, cluster, cluster-ProducerLaws, send_message}
use student_service.Store.Memory.{Memory}
use student_service.Store.Memory.Meets.{memory-MessageLaws, view}
use student_service.Session.{Session}
use student_service.Fixture.{
  NoFaults, AllAccepted, in_health, gorm, env, cents, exact, later_forward, nothing, holding,
}
use student_service.Outbox.Backoff.{backoff-waited}
use student_service.Outbox.{
  Sender, done, ticked, backoff, get_pending_messages, mark_message_sent, update_message_status,
  mark_message_failed, handle_send_failure, process_one_message, process_messages,
  send_pending_messages, start_local_message_sender,
}
use student_service.Outbox.Row.{Has, Rowwise}
use student_service.Outbox.Process.{Extends}
use student_service.Outbox.Progress.{SentAll, send_pending_messages-SentAll}
use student_service.Outbox.Scan.{due, IsTable, Scanned, send_pending_messages_attempts}
use student_service.Outbox.History.{Traced, start_local_message_sender-Traced}

abbrev message : ℕ → LocalMessage
message id = record {
  id = id;
  topic = "audit.log";
  key = "k";
  value = "v";
  status = 0;
  retry_count = pos 0;
  max_retry = pos 5;
  next_retry = 0;
  error_msg = "";
  updated_at = 0;
}

-- Three pending messages, the last with one retry left.
abbrev three : List LocalMessage
three = message 1 ∷ message 2 ∷ record (message 4) { retry_count = pos 4 } ∷ []

-- The broker takes the first, and refuses the second and the third.
abbrev sender : Sender (Memory ℤ) Cluster
sender = record {
  db = holding (record nothing { messages = three }) [];
  producer_state = record { log = []; fates = accepted ∷ lost ∷ lost ∷ [] };
  clock = 100;
}

scan_three :
    (view (send_pending_messages gorm cluster env.later sender).db).messages
    ≡ record (message 1) { status = 1; updated_at = 101 }
      ∷ record (message 2) {
        retry_count = pos 1;
        error_msg = "kafka: client has run out of available brokers to talk to";
        updated_at = 102;
        next_retry = 5_000_000_103;
      }
      ∷ record (message 4) {
        status = 2;
        retry_count = pos 4;
        error_msg = "kafka: client has run out of available brokers to talk to";
        updated_at = 104;
      }
      ∷ []
unfolding send_pending_messages get_pending_messages process_messages process_one_message
    send_message mark_message_sent handle_send_failure update_message_status mark_message_failed
    backoff int64 ◌+ℤ◌
scan_three = refl

three-IsTable : IsTable three
three-IsTable = ground arith

send_pending_messages_attempts_example :
    Scanned gorm cluster env.later view
      (λ k. k.log)
      (memory-MessageLaws (Session ℤ ℕ) exact cents.is_zero)
      cluster-ProducerLaws
      later_forward
      100
      three
      sender.producer_state
      (send_pending_messages gorm cluster env.later sender)
send_pending_messages_attempts_example =
    send_pending_messages_attempts gorm cluster env.later view (λ k. k.log)
      (memory-MessageLaws (Session ℤ ℕ) exact cents.is_zero) cluster-ProducerLaws later_forward
      sender three-IsTable

start_local_message_sender-Traced_example :
    let s' =
      start_local_message_sender gorm cluster env.later (ticked ∷ ticked ∷ done ∷ []) sender in
    IsTable (view s'.db).messages
    × Rowwise (Traced (λ x. Has x s'.producer_state.log)) three (view s'.db).messages
    × Extends [] s'.producer_state.log
start_local_message_sender-Traced_example =
    start_local_message_sender-Traced gorm cluster env.later view (λ k. k.log)
      (memory-MessageLaws (Session ℤ ℕ) exact cents.is_zero) cluster-ProducerLaws later_forward
      (ticked ∷ ticked ∷ done ∷ []) sender three-IsTable

abbrev healthy_sender : Sender (Memory ℤ) Cluster
healthy_sender = record sender {
  db = holding (record nothing { messages = three }) [];
  producer_state = record { log = []; fates = [] };
}

send_pending_messages-SentAll_example :
    SentAll gorm cluster env.later view
      (λ k. k.log)
      (memory-MessageLaws (Session ℤ ℕ) exact cents.is_zero)
      cluster-ProducerLaws
      NoFaults
      AllAccepted
      in_health
      (due 100 three)
      three
      (record { log = []; fates = [] })
      (send_pending_messages gorm cluster env.later healthy_sender)
send_pending_messages-SentAll_example =
    send_pending_messages-SentAll gorm cluster env.later view (λ k. k.log)
      (memory-MessageLaws (Session ℤ ℕ) exact cents.is_zero) cluster-ProducerLaws NoFaults
      AllAccepted in_health healthy_sender refl refl

backoff-waited_example : backoff (pos 4) ≡ pos 40_000_000_000
backoff-waited_example = backoff-waited 4 (omega arith) (omega arith)

-- The shift overflows at last.
overflow_test : backoff (pos 32) ≡ negsuc 7_709_325_833_709_551_615
unfolding backoff int64
overflow_test = refl
