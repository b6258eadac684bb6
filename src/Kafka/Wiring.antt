-- ===== src/Kafka/Wiring.antt =====
-- broker.go, result_subscriber.go and recovery_subscriber.go: how the broker and the subscribers
-- are made, and under which consumer groups they read.
use Prim.Native.String.{◌++◌}
use text.Mathlib.Text.{starts_with}
use ofm_registration_saga_se.Prelude.{String, Bool, not, ◌&&◌, List, [], ◌∷◌, ◌==◌, if◌then◌else◌}
use ofm_registration_saga_se.Prelude.Text.{trim_space}
use ofm_registration_saga_se.Domain.{external}
use ofm_registration_saga_se.Exec.{Result, ok, err}

-- The fields of config.KafkaConfig that the adapters read.
pub record KafkaConfig : Type 0 where
  pub brokers : List String
  pub group_id : String
  pub recovery_topic : String
  pub recovery_group : String
  pub user_result_topic : String
  pub auth_result_topic : String
  pub mail_result_topic : String

pub record Broker : Type 0 where
  pub brokers : List String
  pub group : String
  pub dead_letter : String

unfoldable pub new_broker : KafkaConfig → Result Broker
new_broker cfg = elim cfg.brokers [
  | [] ↦ err (external "kafka brokers are empty")
  | _ ∷ _ ↦ ok (record {
    brokers = cfg.brokers;
    group = cfg.group_id;
    dead_letter = cfg.group_id ++ ".dead-letter";
  })
]

-- The subject and the group of config.PullConsumerConfig; RunPullConsumer reads no other field.
pub record Subscription : Type 0 where
  pub subject : String
  pub group_id : String

-- The first lines of RunPullConsumer.
unfoldable pub consumer_group : String → Subscription → String
consumer_group group cfg =
    if starts_with cfg.subject "migration.recovery.commands."
    then "registration-saga-service-recovery"
    else if not (trim_space cfg.group_id == "")
    then trim_space cfg.group_id
    else trim_space group ++ "-" ++ trim_space cfg.subject

unfoldable pub new_subscriber : String → Bool → Bool → Bool → Result (Unit {0})
new_subscriber text has_broker has_service has_logger =
    if has_broker && has_service && has_logger then ok tt else err (external text)

unfoldable pub new_result_subscriber : Bool → Bool → Bool → Result (Unit {0})
unfolding new_subscriber
new_result_subscriber = new_subscriber "invalid result subscriber dependency"

unfoldable pub new_recovery_subscriber : Bool → Bool → Bool → Result (Unit {0})
unfolding new_subscriber
new_recovery_subscriber = new_subscriber "invalid registration recovery subscriber dependency"

-- The consumers that the two subscribers run, each with its handler.
unfoldable pub result_subscriptions :
    {H : Type 0} → KafkaConfig → H → H → H → List (Subscription × H)
result_subscriptions cfg user auth mail =
    (record { subject = cfg.user_result_topic; group_id = "" }, user)
    ∷ (record { subject = cfg.auth_result_topic; group_id = "" }, auth)
    ∷ (record { subject = cfg.mail_result_topic; group_id = "" }, mail)
    ∷ []

unfoldable pub recovery_subscription : KafkaConfig → Subscription
recovery_subscription cfg = record { subject = cfg.recovery_topic; group_id = cfg.recovery_group }
