-- ===== src/Kafka.antt =====
-- kafka/kafka.go: the producer behind its circuit breaker, and the consumer groups.
pub mod Breaker
pub mod Sends
pub mod Landing
pub mod Groups
mod Tests
