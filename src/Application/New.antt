-- ===== src/Application/New.antt =====
-- New of internal/application/service.go, and ProvideRegistrationService of
-- internal/fx/service.go.
use ofm_registration_saga_se.Prelude.{String, Bool, List, [], ◌∷◌, if◌then◌else◌}
use ofm_registration_saga_se.Domain.{external}
use ofm_registration_saga_se.Exec.{Result, ok, err}
use ofm_registration_saga_se.World.{Config}

-- Which dependencies are not nil, and whether the broker can publish in real time.
pub record Dependencies : Type 0 where
  pub sessions : Bool
  pub steps : Bool
  pub broker : Bool
  pub email_checker : Bool
  pub username_checker : Bool
  pub log : Bool
  pub realtime : Bool

-- The first missing dependency is reported.
unfoldable pub check_all : List (Bool × String) → Bool → Result Bool
check_all [] realtime = ok realtime
check_all ((present, text) ∷ rest) realtime =
    let later = check_all rest realtime in if present then later else err (external text)

-- The service, by what it can do: whether it has a realtime publisher.
unfoldable pub new_service : Dependencies → Result Bool
unfolding check_all
new_service d =
    check_all
      ((d.sessions, "session repository is nil")
        ∷ (d.steps, "step repository is nil")
        ∷ (d.broker, "event broker is nil")
        ∷ (d.email_checker, "email availability checker is nil")
        ∷ (d.username_checker, "username availability checker is nil")
        ∷ (d.log, "logger is nil")
        ∷ [])
      d.realtime

-- The topics of config.KafkaConfig that the service publishes to.
pub record ServiceTopics : Type 0 where
  pub registration_code_sent_subject : String
  pub registration_completed_subject : String
  pub registration_failed_subject : String
  pub user_create_subject : String
  pub auth_create_pending_subject : String

unfoldable pub legacy_config : ServiceTopics → Config
legacy_config kafka = record {
  registration_code_sent_subject = kafka.registration_code_sent_subject;
  registration_completed_subject = kafka.registration_completed_subject;
  registration_failed_subject = kafka.registration_failed_subject;
  user_create_subject = kafka.user_create_subject;
  auth_create_pending_subject = kafka.auth_create_pending_subject;
}
