-- ===== src/Nats/Broker.antt =====
-- broker.go of internal/presentation/event_broker/nats, and Create of pull_consumer_runtime.go.
use ofm_registration_saga_se.Prelude.{
  ℕ, String, Bool, not, Option, none, some, ◌∷◌, ◌==◌, if◌then◌else◌,
}
use ofm_registration_saga_se.Domain.{Error, external}
use ofm_registration_saga_se.Exec.{ok, Exec, pure, raise, ignore, ◌>>◌}
use ofm_registration_saga_se.Nats.{
  PullConsumerConfig, ConfigError, empty_stream_name, empty_subject, empty_durable_name,
  invalid_batch_size, invalid_max_wait, invalid_worker_count, invalid_queue_size, invalid_ack_wait,
  invalid_max_deliver, invalid_adaptive_check_interval, invalid_adaptive_thresholds,
  invalid_adaptive_plan, validate,
}
use ofm_registration_saga_se.Nats.Client.{
  NatsConfig, Call, published, flushed, jetstream_ready, subscribed, added_consumer,
  updated_consumer, pull_subscribed, Client, call_or, add_or_update, wrap_publish_to_nats,
  wrap_subscribe_to_nats, wrap_flush_nats_publisher, wrap_init_jetstream_context,
  wrap_ensure_consumer, wrap_create_pull_subscriber,
}
use ofm_registration_saga_se.Nats.Bootstrap.{connect}

-- The texts of error.go.
unfoldable pub config_error : ConfigError → Error
config_error empty_stream_name = external "stream name is empty"
config_error empty_subject = external "subject is empty"
config_error empty_durable_name = external "durable name is empty"
config_error invalid_batch_size = external "batch size must be greater than zero"
config_error invalid_max_wait = external "max wait must be greater than zero"
config_error invalid_worker_count = external "worker count must be greater than zero"
config_error invalid_queue_size = external "queue size must be greater than zero"
config_error invalid_ack_wait = external "ack wait must be greater than zero"
config_error invalid_max_deliver = external "max deliver must be greater than zero"
config_error invalid_adaptive_check_interval =
    external "adaptive check interval must be greater than zero"
config_error invalid_adaptive_thresholds =
    external "adaptive thresholds must satisfy: high > medium >= 0"
config_error invalid_adaptive_plan =
    external "adaptive plan batch size and max wait must be greater than zero"

-- The callback of Subscribe: an error of the handler is logged only.
unfoldable pub on_message :
    {S : Type 0} → (String → String → Exec S (Unit {0})) → String → String → Exec S (Unit {0})
on_message handler subject payload = ignore (handler subject payload) (pure tt)

module _ {H : Type 0} (fails : ℕ → Call → Option Error) (quote : String → String) where
  -- NewBroker, where the connection has the options of Connect
  unfoldable pub new_broker : Bool → NatsConfig → Exec (Client H) (Unit {0})
  unfolding connect
  new_broker has_logger cfg =
      if cfg.url == ""
      then raise (external "nats url is empty")
      else if not has_logger
      then raise (external "logger is nil")
      else connect fails quote cfg

  -- Flush; the deadline is the client library's.
  unfoldable pub flush : Exec (Client H) (Unit {0})
  unfolding call_or
  flush = call_or fails flushed wrap_flush_nats_publisher

  unfoldable pub publish : String → String → Exec (Client H) (Unit {0})
  unfolding call_or flush
  publish subject payload = do
    call_or fails (published subject payload) (wrap_publish_to_nats subject)
    flush

  unfoldable pub publish_realtime : String → Exec (Client H) (Unit {0})
  unfolding publish
  publish_realtime payload = publish "realtime" payload

  unfoldable pub subscribe : String → Exec (Client H) (Unit {0})
  unfolding call_or flush
  subscribe subject = do call_or fails (subscribed subject) (wrap_subscribe_to_nats subject); flush

  -- pullConsumerRuntimeFactory.Create: AddConsumer, or else UpdateConsumer, then PullSubscribe.
  unfoldable pub create : PullConsumerConfig → Exec (Client H) (Unit {0})
  unfolding call_or add_or_update
  create cfg = do
    call_or fails jetstream_ready wrap_init_jetstream_context
    add_or_update fails (added_consumer cfg) (updated_consumer cfg)
        (wrap_ensure_consumer quote cfg.stream cfg.durable)
    call_or fails (pull_subscribed cfg.subject cfg.durable cfg.stream)
        (wrap_create_pull_subscriber quote cfg.subject cfg.durable)

  -- runtime.Start
  unfoldable pub begin_consumer : PullConsumerConfig → H → Exec (Client H) (Unit {0})
  begin_consumer cfg handler client =
      (ok tt, record client { consumers = (cfg, handler) ∷ client.consumers })

  unfoldable pub after_validate :
      Option ConfigError → PullConsumerConfig → H → Exec (Client H) (Unit {0})
  unfolding create begin_consumer
  after_validate (some e) cfg handler = raise (config_error e)
  after_validate none cfg handler = do create cfg; begin_consumer cfg handler

  unfoldable pub run_pull_consumer : PullConsumerConfig → H → Exec (Client H) (Unit {0})
  unfolding after_validate
  run_pull_consumer cfg handler = after_validate (validate cfg) cfg handler
