-- ===== src/Kafka/Subscribers.antt =====
-- result_subscriber.go and recovery_subscriber.go: the handlers of the consumed topics. JSON
-- decoding and encoding are parameters.
use Prim.Native.Char.{code}
use Prim.Native.String.{◌++◌}
use ofm_registration_saga_se.Prelude.Text.{trim_space, is_code, in_range}
use ofm_registration_saga_se.Prelude.{
  ℕ, zero, suc, ◌+◌, String, Bool, true, false, ◌&&◌, Option, none, some, List, [], ◌∷◌, ◌==◌,
  if◌then◌else◌,
}
use ofm_registration_saga_se.Domain.{
  external, permanent, StartRegistrationParams, StartRegistrationResult,
}
use ofm_registration_saga_se.Exec.{Result, ok, err, pure, raise, ◌>>=◌}
use ofm_registration_saga_se.World.{Env, Saga, published, draw, send}
use ofm_registration_saga_se.Application.Mapper.{
  UserCreateResult, AuthCreatePendingResult, MailSendResult,
}
use ofm_registration_saga_se.Application.Results.{
  handle_user_create_result, handle_auth_create_pending_result, handle_mail_send_result,
}
use ofm_registration_saga_se.Application.Start.{start}

-- `return err` for the result of a call that changes nothing
unfoldable pub lift : {A : Type 0} → Result A → Saga A
lift (ok a) = pure a
lift (err e) = raise e

module _ (env : Env) where
  unfoldable pub user : (String → Result UserCreateResult) → String → Saga (Unit {0})
  unfolding lift
  user unmarshal p = do r ← lift (unmarshal p); handle_user_create_result env r

  unfoldable pub auth : (String → Result AuthCreatePendingResult) → String → Saga (Unit {0})
  unfolding lift
  auth unmarshal p = do r ← lift (unmarshal p); handle_auth_create_pending_result env r

  unfoldable pub mail : (String → Result MailSendResult) → String → Saga (Unit {0})
  unfolding lift
  mail unmarshal p = do r ← lift (unmarshal p); handle_mail_send_result env r

-- strings.EqualFold where one side is ASCII: letters by their lower case, and the long s and the
-- Kelvin sign as s and k.
abbrev fold : ℕ → ℕ
fold c =
    if in_range 65 90 c
    then c + 32
    else if is_code c 0x17f
    then 115
    else if is_code c 0x212a
    then 107
    else c

unfoldable pub equal_fold : String → String → Bool
equal_fold String.[] String.[] = true
equal_fold String.[] (String.◌∷◌ d t) = false
equal_fold (String.◌∷◌ c s) String.[] = false
equal_fold (String.◌∷◌ c s) (String.◌∷◌ d t) =
    is_code (fold (code c)) (fold (code d)) && equal_fold s t

-- The fields of events.Envelope that a recovery command uses.
pub record Command : Type 0 where
  pub event_id : String
  pub command_id : String
  pub correlation_id : String
  pub idempotency_key : String
  pub test_run_id : String
  pub operation : String
  pub aggregate_type : String
  pub aggregate_id : String
  pub payload : String

-- The envelope of migration.recovery.completed; its schema version is 1.
pub record Completed : Type 0 where
  pub event_id : String
  pub command_id : String
  pub correlation_id : String
  pub causation_id : String
  pub idempotency_key : String
  pub test_run_id : String
  pub event_type : String
  pub operation : String
  pub aggregate_type : String
  pub aggregate_id : String
  pub source_service : String
  pub occurred_at : ℕ
  pub result : StartRegistrationResult

pub record RecoveryCodec : Type 0 where
  pub decode_command : String → Result Command
  pub decode_payload : String → Result StartRegistrationParams
  pub encode_completed : Completed → Result String

-- The order in which `range` meets the three fields: any of six.
unfoldable pub named_fields : ℕ → String → String → String → List (String × String)
named_fields order session_id client_id user_id =
    let s : String × String = ("session_id", session_id) in
    let c : String × String = ("client_id", client_id) in
    let u : String × String = ("user_id", user_id) in
    elim order [
      | zero ↦ s ∷ c ∷ u ∷ []
      | suc zero ↦ s ∷ u ∷ c ∷ []
      | suc (suc zero) ↦ c ∷ s ∷ u ∷ []
      | suc (suc (suc zero)) ↦ c ∷ u ∷ s ∷ []
      | suc (suc (suc (suc zero))) ↦ u ∷ s ∷ c ∷ []
      | suc (suc (suc (suc (suc n)))) ↦ u ∷ c ∷ s ∷ []
    ]

unfoldable pub first_blank : List (String × String) → Option String
first_blank [] = none
first_blank ((field, value) ∷ rest) =
    let later = first_blank rest in if trim_space value == "" then some field else later

-- p.ClientID, after the default
abbrev pub with_client : Command → StartRegistrationParams → StartRegistrationParams
with_client cmd p = if p.client_id == "" then record p { client_id = cmd.aggregate_id } else p

module _ (env : Env) (codec : RecoveryCodec) (completed_topic : String) (order : ℕ) where
  abbrev completed : Command → StartRegistrationResult → ℕ → Completed
  completed cmd result now = record {
    event_id = cmd.event_id ++ ".completed";
    command_id = cmd.command_id;
    correlation_id = cmd.correlation_id;
    causation_id = cmd.event_id;
    idempotency_key = cmd.idempotency_key;
    test_run_id = cmd.test_run_id;
    event_type = "migration.recovery.completed";
    operation = cmd.operation;
    aggregate_type = "registration";
    aggregate_id = result.session_id;
    source_service = "registration-saga-service-recovery";
    occurred_at = now;
    result = result;
  }

  unfoldable pub recover : Command → StartRegistrationParams → Saga (Unit {0})
  unfolding lift
  recover cmd p = do
    result ← start env p
    now ← draw env.clock
    body ← lift (codec.encode_completed (completed cmd result now))
    send env (published completed_topic body)

  unfoldable pub checked : Command → StartRegistrationParams → Option String → Saga (Unit {0})
  unfolding recover
  checked cmd p (some field) =
      raise
        (permanent ("registration recovery command " ++ cmd.command_id ++ " is missing " ++ field))
  checked cmd p none = recover cmd p

  -- handle
  unfoldable pub handle_recovery : String → Saga (Unit {0})
  unfolding lift checked named_fields first_blank equal_fold
  handle_recovery raw = do
    cmd ← lift (codec.decode_command raw)
    if equal_fold cmd.aggregate_type "registration"
        then (do
          decoded ← lift (codec.decode_payload cmd.payload)
          let p = with_client cmd decoded
          checked cmd p (first_blank (named_fields order p.session_id p.client_id p.user_id)))
        else raise
            (external ("unsupported registration recovery aggregate_type=" ++ cmd.aggregate_type))
