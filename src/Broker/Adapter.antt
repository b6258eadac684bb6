-- ===== src/Broker/Adapter.antt =====
-- eventBrokerAdapter of internal/fx/messaging.go over the broker that it is given.
use ofm_registration_saga_se.Prelude.{String, Option, none, some}
use ofm_registration_saga_se.Domain.{external}
use ofm_registration_saga_se.Exec.{Exec, raise}
use ofm_registration_saga_se.Broker.{EventStore, MessageHandler, wrap}

-- The calls of eventbroker.EventBroker on a broker's state `B`, with handlers on the state `S`;
-- `publish_realtime` is there where the broker has it.
pub record EventBroker (B : Type 0) (S : Type 0) (C : Type 0) : Type 0 where
  pub publish : String → String → Exec B (Unit {0})
  pub subscribe : String → MessageHandler S → Exec B (Unit {0})
  pub run_pull_consumer : C → MessageHandler S → Exec B (Unit {0})
  pub close : Exec B (Unit {0})
  pub publish_realtime : Option (String → Exec B (Unit {0}))

unfoldable pub realtime_or_error :
    {B : Type 0} → Option (String → Exec B (Unit {0})) → String → Exec B (Unit {0})
realtime_or_error none payload = raise (external "realtime publisher is not configured")
realtime_or_error (some publish_realtime) payload = publish_realtime payload

-- The handlers are wrapped; the other calls go through.
unfoldable pub adapter :
    {B S C : Type 0}
    → (String → String → String)
    → Option (EventStore S)
    → EventBroker B S C
    → EventBroker B S C
unfolding wrap realtime_or_error
adapter event_id store broker = record {
  publish = broker.publish;
  subscribe = λ subject handler. broker.subscribe subject (wrap event_id store handler);
  run_pull_consumer = λ cfg handler. broker.run_pull_consumer cfg (wrap event_id store handler);
  close = broker.close;
  publish_realtime = some (realtime_or_error broker.publish_realtime);
}
