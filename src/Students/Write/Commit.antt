-- ===== src/Students/Write/Commit.antt =====
-- What a transaction of the students has done once it is kept: the change of the table of students
-- together with one pending audit message.
use student_service.Common.{
  ℕ, ◌<◌, ◌≡◌, refl, ◌∙◌, ap, subst, inl, inr, none, List, [], ◌∷◌, ◌++◌, String, All, arith,
}
use student_service.Model.{Student, Payload, AuditMessage, module_student}
use student_service.Result.{ok, Result-cases}
use student_service.Store.{Gorm}
use student_service.Store.Rows.{Tables}
use student_service.Store.Laws.{MessageLaws}
use student_service.Env.{Env}
use student_service.Session.{Session, save_audit_message, audit_record}
use student_service.Dao

module _ {S Seed : Type 0} (env : Env S Seed) where
  -- From the tables `t` to `t'` with the new students, and one audit message of the operation, whose
  -- JSON stands in a message of the outbox that is pending with no retry used.
  pub record Committed (t t' : Tables S) (students' : List (Student S)) (operate_type data_id : ℕ)
      (before after : Payload S) : Type 0 where
    pub message : AuditMessage S
    pub value : String
    pub key : ℕ
    pub stamp : ℕ
    pub now : ℕ
    pub is_operation : message.operate_type ≡ operate_type
    pub is_student : message.module_name ≡ module_student
    pub is_of : message.data_id ≡ data_id
    pub has_before : message.before_data ≡ before
    pub has_after : message.after_data ≡ after
    pub encoded : env.json.marshal_audit message ≡ ok value
    pub fresh : All (λ r. r.id < key) t.messages
    pub tables : t' ≡ record t {
      students = students';
      messages =
          t.messages
          ++ record (audit_record env message.trace_id value now) { id = key; updated_at = stamp }
            ∷ [];
    }

  module _ {Db : Type 0} (gorm : Gorm S Db (Session S Seed)) (view : Db → Tables S)
      (laws : MessageLaws gorm view) where
    -- An audit message that was saved.
    pub save_audit_message-ok :
        (msg : AuditMessage S) (s : Session S Seed) (tx : Db)
        → (save_audit_message env gorm msg s tx).0 ≡ none
        → (value : String) × (k stamp : ℕ) × (env.json.marshal_audit msg ≡ ok value)
          × All (λ r. r.id < k) (view tx).messages
          × (view (save_audit_message env gorm msg s tx).2 ≡ record (view tx) {
            messages =
                (view tx).messages
                ++ record (audit_record env msg.trace_id value s.clock) {
                  id = k;
                  updated_at = stamp;
                }
                  ∷ [];
          })
          × ((save_audit_message env gorm msg s tx).1.student ≡ s.student)
    unfolding save_audit_message Dao.create_local_message
    save_audit_message-ok msg s tx h = elim (Result-cases (env.json.marshal_audit msg)) [
      | inl (value, e) ↦
          let made : (gorm.create_message (audit_record env msg.trace_id value s.clock) tx).0
              ≡ none =
            ground arith in
          let (k, stamp, fresh, after) = laws.create_message_ok _ tx made in
          (value, k, stamp, e, fresh, rw (e, save_audit_message) after, ground arith)
      | inr (x, e) ↦ absurd (ground arith)
    ]

    -- A statement on the students, then the audit message.
    pub committed :
        (t : Tables S) (students' : List (Student S)) (msg : AuditMessage S) (s : Session S Seed)
        (tx : Db)
        → view tx ≡ record t { students = students' }
        → msg.module_name ≡ module_student
        → (save_audit_message env gorm msg s tx).0 ≡ none
        → Committed t
            (view (save_audit_message env gorm msg s tx).2)
            students'
            msg.operate_type
            msg.data_id
            msg.before_data
            msg.after_data
    committed t students' msg s tx e m h =
        let (value, k, stamp, encoded, fresh, after, _) = save_audit_message-ok msg s tx h in
        record {
          message = msg;
          value = value;
          key = k;
          stamp = stamp;
          now = s.clock;
          is_operation = refl;
          is_student = m;
          is_of = refl;
          has_before = refl;
          has_after = refl;
          encoded = encoded;
          fresh = subst (λ (x : Tables S). All (λ r. r.id < k) x.messages) e fresh;
          tables =
              after
              ∙ ap
                  (λ (x : Tables S). record x {
                    messages =
                        x.messages
                        ++ record (audit_record env msg.trace_id value s.clock) {
                          id = k;
                          updated_at = stamp;
                        }
                          ∷ [];
                  })
                  e;
        }
