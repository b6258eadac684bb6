-- ===== src/Tests/Fixtures.antt =====
-- Environments and worlds for the tests.
use ofm_registration_saga_se.Store.Unique.{IsConsistent}
use ofm_registration_saga_se.Prelude.{arith, zero, suc, ◌+◌, String, true, false, some, [], ◌∷◌}
use ofm_registration_saga_se.Domain.{
  Session, Step, SessionStatus, StepStatus, StepKey, user_create_profile, auth_create_pending,
  mail_send_verification_code, StartRegistrationParams, VerifyEmailParams,
}
use ofm_registration_saga_se.Store.{Db}
use ofm_registration_saga_se.World.{Env, World, done, refused, lost, Config, Payload, Notification}
use ofm_registration_saga_se.Quiet.{IsQuiet, Delivers}
use ofm_registration_saga_se.Prelude.{refl}

abbrev pub config : Config
config = record {
  registration_code_sent_subject = "migration.registration.code.sent";
  registration_completed_subject = "migration.registration.completed";
  registration_failed_subject = "migration.registration.failed";
  user_create_subject = "saga.user.create";
  auth_create_pending_subject = "saga.auth.create_pending_registration";
}

abbrev pub render : Payload → String
render p = "payload"

abbrev pub body : Notification → String
body n = n.event_type

-- Every call succeeds.
abbrev pub calm : Env
calm = record {
  outcome = λ n. done;
  others = λ n. [];
  clock = λ n. n + 100;
  answer = λ n. false;
  uuid = λ n. "uuid";
  parses_address = λ v. true;
  hash = λ n p. some "hash";
  marshal = λ p. some (render p);
  encode = λ n. some (body n);
  format_time = λ t. "now";
  has_realtime = true;
  reconciles = true;
  cfg = config;
}

pub calm-IsQuiet : IsQuiet calm
calm-IsQuiet = record { succeeds = λ n. refl; alone = λ n. refl }

pub calm-Delivers : Delivers calm render body
calm-Delivers = record { marshals = λ x. refl; encodes = λ n. refl; realtime = refl }

-- Call 1 takes effect and loses its reply; call 2 is refused.
abbrev pub faulty : Env
faulty = record calm {
  outcome = elim [
    | zero ↦ done
    | suc zero ↦ lost "timeout"
    | suc (suc zero) ↦ refused "down"
    | suc (suc (suc n)) ↦ done
  ];
}

abbrev pub ada : Session
ada = record {
  session_id = "s1";
  client_id = "c1";
  user_id = "u1";
  email = "ada@example.org";
  username = "ada";
  status = SessionStatus.in_progress;
  created_at = 1;
  updated_at = 1;
}

abbrev pub step : StepKey → StepStatus → Step
step key status = record {
  session_id = "s1";
  step_key = key;
  status = status;
  created_at = 1;
  updated_at = 1;
}

abbrev pub tables : Db
tables = record {
  sessions = ada ∷ [];
  steps =
      step user_create_profile StepStatus.in_progress
      ∷ step auth_create_pending StepStatus.in_progress
      ∷ step mail_send_verification_code StepStatus.pending
      ∷ [];
}

abbrev pub world : World
world = record { db = tables; calls = 0; trace = []; notified = []; tasks = [] }

abbrev pub bob : StartRegistrationParams
bob = record {
  session_id = "";
  client_id = "c2";
  user_id = "";
  email = " bob@example.org ";
  username = "bob";
  password = "correct horse";
  first_name = "Bob";
  surname = "B";
}

abbrev pub submission : VerifyEmailParams
submission = record { session_id = "s1"; client_id = "c1"; code = "123456" }

pub tables-IsConsistent : IsConsistent tables
tables-IsConsistent = record {
  unique = (tt, tt);
  one_of_each = (
    ((λ _ e. ground arith), ((λ _ e. ground arith), tt)),
    (((λ _ e. ground arith), tt), (tt, tt)),
  );
}
