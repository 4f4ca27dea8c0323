-- ===== src/Events/Tests.antt =====
-- The consumer of events on a message that is delivered twice.
use student_service.Common.{◌≡◌, refl, pos, show_int, text_append, List, [], ◌∷◌, String}
use student_service.Broker.{Cluster, cluster}
use student_service.Redis.Memory.{
  Cache, cache, held, NoneRefused, cache-RedisLaws, cache-RedisAnswers,
}
use student_service.Import.Consumer.{Message}
use student_service.Events.{Consumer, consume_claim}
use student_service.Events.Repeats.{consume_claim-new_lines}
use student_service.Events.Marks.{Noted, consume_claim_marks}
use student_service.Fixture.{env}

abbrev twice : List Message
twice =
    record { offset = 1; value = "a" }
    ∷ record { offset = 2; value = "" }
    ∷ record { offset = 3; value = "a" }
    ∷ []

abbrev idle : Consumer Cache Cluster
idle = record {
  redis = record { texts = []; refused = [] };
  producer_state = record { log = []; fates = [] };
  log = [];
  marked = [];
}

consume_claim_marks_example :
    let c' = consume_claim env cache cluster twice idle in
    (ls : List String) × Noted env cache cluster twice ls
    × (c'.log ≡ ls)
    × (c'.marked ≡ twice)
    × (c'.producer_state ≡ idle.producer_state)
consume_claim_marks_example = consume_claim_marks env cache cluster twice idle

-- The second delivery is passed over.
consume_claim-new_lines_example :
    (consume_claim env cache cluster twice idle).log
    ≡ text_append "收到学生创建事件：ID=" (show_int (pos 1)) ∷ []
consume_claim-new_lines_example =
    consume_claim-new_lines env cache cluster held NoneRefused cache-RedisLaws cache-RedisAnswers
      twice idle refl
