-- ===== src/Kafka/Breaker.antt =====
-- kafka/kafka.go: the circuit breaker of the producer. gobreaker is a parameter, and so is the
-- floating point in which its counts are divided.
use student_service.Common.{ℕ, ◌*◌, ◌^◌, ◌<◌, ◌≡◌, ◌⊎◌, ◌&&◌, Bool, leb, Option, some, String}
use student_service.Result.{Error}

-- The fields of `gobreaker.Counts` that the code reads; both are `uint32`.
pub record Counts : Type 0 where
  pub requests : ℕ
  pub total_failures : ℕ

-- `float64` as the code computes with counts.
pub record Ratio (R : Type 0) : Type 0 where
  pub of_count : ℕ → R
  pub div : R → R → R
  pub half : R
  pub ge : R → R → Bool

-- Division rounds correctly and one half is a float: a quotient of two counts is not rounded across it.
pub record RatioLaws {R : Type 0} (ratio : Ratio R) : Type 0 where
  pub ge_half :
      (f r : ℕ)
      → f < 2 ^ 32
      → r < 2 ^ 32
      → 0 < r
      → ratio.ge (ratio.div (ratio.of_count f) (ratio.of_count r)) ratio.half ≡ leb r (2 * f)

-- The fields of `gobreaker.Settings` that the code sets. The timeout is in seconds.
pub record Settings : Type 0 where
  pub name : String
  pub max_requests : ℕ
  pub timeout : ℕ
  pub ready_to_trip : Counts → Bool

unfoldable pub ready_to_trip : {R : Type 0} → Ratio R → Counts → Bool
ready_to_trip ratio counts =
    let failure_ratio =
      ratio.div (ratio.of_count counts.total_failures) (ratio.of_count counts.requests) in
    leb 3 counts.requests && ratio.ge failure_ratio ratio.half

-- `NewCircuitBreaker`, and `Execute` of a request that acts on a state of type `W`.
pub record Breaker (B W : Type 0) : Type 0 where
  pub new_circuit_breaker : Settings → B
  pub execute : (W → Option Error × W) → B → W → Option Error × (B × W)

-- `Execute` either refuses with an error, or runs the request once and answers its error.
pub record BreakerLaws {B W : Type 0} (breaker : Breaker B W) : Type 0 where
  pub execute_once :
      (request : W → Option Error × W) (b : B) (w : W)
      → let (e, (b', w')) = breaker.execute request b w in
        ((refusal : Error) × ((e ≡ some refusal) × (w' ≡ w))) ⊎ ((e, w') ≡ request w)

unfoldable pub init_breaker : {R B W : Type 0} → Ratio R → Breaker B W → B
init_breaker ratio breaker = breaker.new_circuit_breaker (record {
  name = "KafkaBreaker";
  max_requests = 1;
  timeout = 5;
  ready_to_trip = ready_to_trip ratio;
})
