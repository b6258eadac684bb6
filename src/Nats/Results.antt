-- ===== src/Nats/Results.antt =====
-- result_subscriber.go of internal/presentation/event_broker/nats: the three consumers of results
-- and their handlers. JSON decoding is a parameter.
pub mod Started
use Prim.Native.String.{◌++◌}
use ofm_registration_saga_se.Prelude.{ℕ, String, Bool, not, Option, List, [], ◌∷◌, if◌then◌else◌}
use ofm_registration_saga_se.Domain.{Error, external, message}
use ofm_registration_saga_se.Exec.{Result, Exec, pure, raise, handle, ◌>>=◌, ◌>>◌}
use ofm_registration_saga_se.World.{Env, Saga}
use ofm_registration_saga_se.Application.Mapper.{
  UserCreateResult, AuthCreatePendingResult, MailSendResult,
}
use ofm_registration_saga_se.Application.Results.{
  handle_user_create_result, handle_auth_create_pending_result, handle_mail_send_result,
}
use ofm_registration_saga_se.Kafka.Subscribers.{lift}
use ofm_registration_saga_se.Nats.{PullAdaptiveConfig, PullConsumerConfig}
use ofm_registration_saga_se.Nats.Client.{NatsConfig, Call, Client}
use ofm_registration_saga_se.Nats.Broker.{run_pull_consumer}

unfoldable pub build_adaptive_config : NatsConfig → PullAdaptiveConfig
build_adaptive_config cfg = record {
  enabled = cfg.result_adaptive.enabled;
  check_interval = cfg.result_adaptive.check_interval;
  medium_pending = cfg.result_adaptive.medium_pending;
  high_pending = cfg.result_adaptive.high_pending;
  low_batch_size = cfg.result_adaptive.low_batch_size;
  low_max_wait = cfg.result_adaptive.low_max_wait;
  medium_batch_size = cfg.result_adaptive.medium_batch_size;
  medium_max_wait = cfg.result_adaptive.medium_max_wait;
  high_batch_size = cfg.result_adaptive.high_batch_size;
  high_max_wait = cfg.result_adaptive.high_max_wait;
}

-- The configuration of the consumer of one stream, subject and durable name.
unfoldable pub result_consumer : NatsConfig → String → String → String → PullConsumerConfig
unfolding build_adaptive_config
result_consumer cfg stream subject durable = record {
  group_id = "";
  stream = stream;
  subject = subject;
  durable = durable;
  batch_size = cfg.result_batch_size;
  max_wait = cfg.result_max_wait;
  workers = cfg.result_workers;
  queue_size = cfg.result_queue_size;
  ack_wait = cfg.result_ack_wait;
  max_deliver = cfg.result_max_deliver;
  adaptive = build_adaptive_config cfg;
}

-- json.Unmarshal with its annotated error, then the service's handler.
unfoldable pub decoded : {A : Type 0} → String → Result A → (A → Saga (Unit {0})) → Saga (Unit {0})
unfolding lift
decoded what result handler =
    handle (lift result) (λ e. raise (external ("unmarshal " ++ what ++ " result: " ++ message e)))
      handler

abbrev pub Handler : Type 0
Handler = String → String → Saga (Unit {0})

module _ (env : Env) where
  unfoldable pub on_user_result : (String → Result UserCreateResult) → Handler
  unfolding decoded
  on_user_result unmarshal subject payload =
      decoded "user create" (unmarshal payload) (handle_user_create_result env)

  unfoldable pub on_auth_result : (String → Result AuthCreatePendingResult) → Handler
  unfolding decoded
  on_auth_result unmarshal subject payload =
      decoded "auth create pending registration" (unmarshal payload)
        (handle_auth_create_pending_result env)

  unfoldable pub on_mail_result : (String → Result MailSendResult) → Handler
  unfolding decoded
  on_mail_result unmarshal subject payload =
      decoded "mail send" (unmarshal payload) (handle_mail_send_result env)

-- NewResultSubscriber, by whether the broker, the service and the logger are not nil.
unfoldable pub new_result_subscriber : {S : Type 0} → Bool → Bool → Bool → Exec S (Unit {0})
new_result_subscriber has_broker has_service has_logger =
    if not has_broker
    then raise (external "event broker is nil")
    else if not has_service
    then raise (external "registration service is nil")
    else if not has_logger
    then raise (external "logger is nil")
    else pure tt

-- The consumers of Subscribe with the handlers of the user, auth and mail results.
unfoldable pub result_consumers :
    {H : Type 0} → NatsConfig → H → H → H → List (PullConsumerConfig × H)
unfolding result_consumer
result_consumers cfg user auth mail =
    (
      result_consumer cfg cfg.user_events_stream cfg.user_create_result_subject
          cfg.user_create_result_durable,
      user,
    )
    ∷ (
      result_consumer cfg cfg.auth_events_stream cfg.auth_create_pending_result_subject
          cfg.auth_create_pending_result_durable,
      auth,
    )
    ∷ (
      result_consumer cfg cfg.mail_events_stream cfg.mail_send_result_subject
          cfg.mail_send_result_durable,
      mail,
    )
    ∷ []

module _ {H : Type 0} (fails : ℕ → Call → Option Error) (quote : String → String) where
  -- RunPullConsumer for each, up to the first error.
  unfoldable pub run_all : List (PullConsumerConfig × H) → Exec (Client H) (Unit {0})
  run_all [] = pure tt
  run_all ((cfg, handler) ∷ rest) = do run_pull_consumer fails quote cfg handler; run_all rest

  unfoldable pub subscribe : NatsConfig → H → H → H → Exec (Client H) (Unit {0})
  unfolding run_all result_consumers
  subscribe cfg user auth mail = run_all (result_consumers cfg user auth mail)
