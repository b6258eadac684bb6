-- ===== src/Kafka.antt =====
-- internal/presentation/event_broker/kafka: a worker of the broker's consumer with its retry queue
-- and dead-letter topic, the result subscriber, and the recovery subscriber.
pub mod Worker
pub mod Backoff
pub mod Publish
pub mod Subscribers
pub mod Recovery
pub mod Settled
pub mod Consumer
pub mod Wiring
pub mod Delivery
pub mod RetryQueue
pub mod RecoveryLoop
use ofm_registration_saga_se.Prelude.{ℕ, String, List}

-- kafka.Message, with the place it was read from.
pub record Message : Type 0 where
  pub offset : ℕ
  pub headers : List (String × String)
  pub value : String
