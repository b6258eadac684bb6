-- ===== src/Broker.antt =====
-- eventBrokerAdapter.wrap of internal/fx/messaging.go: a message handler that runs only if the
-- durable store of event claims (a parameter: pkg/idempotency of ofm-common) grants the event.
pub mod Once
pub mod Adapter
use ofm_registration_saga_se.Prelude.{
  String, Bool, Option, none, some, List, [], ◌∷◌, if◌then◌else◌,
}
use ofm_registration_saga_se.Domain.{Error}
use ofm_registration_saga_se.Exec.{Exec, pure, raise, handle, ignore, ◌>>=◌}

-- idempotency.Store: Claim answers whether the event was free.
pub record EventStore (S : Type 0) : Type 0 where
  pub claim : String → Exec S Bool
  pub release : String → Exec S (Unit {0})

-- A handler of the subject and the payload.
abbrev pub MessageHandler : Type 0 → Type 0
MessageHandler S = String → String → Exec S (Unit {0})

module _ {S : Type 0} (event_id : String → String → String) where
  -- The handler's error is returned after the claim is given back; an error of Release is dropped.
  unfoldable pub claimed_run : EventStore S → MessageHandler S → MessageHandler S
  claimed_run store handler subject payload =
      let id = event_id subject payload in
      do
        claimed ← store.claim id
        if claimed
            then handle (handler subject payload) (λ e. ignore (store.release id) (raise e))
                (λ _. pure tt)
            else pure tt

  -- `none` is the nil store; `event_id` is DecodeOrFingerprint.
  unfoldable pub wrap : Option (EventStore S) → MessageHandler S → MessageHandler S
  unfolding claimed_run
  wrap none handler = handler
  wrap (some store) handler = claimed_run store handler
