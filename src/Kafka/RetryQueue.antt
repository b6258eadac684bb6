-- ===== src/Kafka/RetryQueue.antt =====
-- broker.go: the retry queue over its redeliveries. Its runner (resilience of ofm-common) is a
-- parameter: `requeued` is the message that it writes back to the topic for an attempt.
pub mod Drained
use ofm_registration_saga_se.Prelude.{ℕ, suc, String, List, ◌∷◌, ◌++◌, ◌≡◌}
use ofm_registration_saga_se.Exec.{ok, Exec}
use ofm_registration_saga_se.Kafka.{Message}
use ofm_registration_saga_se.Kafka.Worker.{Client, Log, consume}

module _ {S : Type 0} (client : Client) (requeued : Message → ℕ → Message) (subject : String)
    (handler : String → Exec S (Unit {0})) where
  -- One entry of the queue, any of them, is written back and consumed by a worker that goes on.
  pub data Step (log : Log S) : Log S → Type 0 where
    redeliver :
        (before after : List (Message × ℕ)) (msg : Message) (attempt : ℕ)
        → log.retries ≡ before ++ ((msg, attempt) ∷ after)
        → (consume client subject handler
            (requeued msg attempt)
            (record log { retries = before ++ after })).0
          ≡ ok tt
        → Step log
            (consume client subject handler
              (requeued msg attempt)
              (record log { retries = before ++ after })).1

  -- `n` redeliveries.
  pub data Steps : ℕ → Log S → Log S → Type 0 where
    here : {log : Log S} → Steps 0 log log
    next : {n : ℕ} {l l' l'' : Log S} → Step l l' → Steps n l' l'' → Steps (suc n) l l''
