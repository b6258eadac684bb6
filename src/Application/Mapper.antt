-- ===== src/Application/Mapper.antt =====
-- mapper.go and the result records of type.go
use ofm_registration_saga_se.Prelude.{
  String, Bool, false, not, ◌&&◌, Option, none, some, if◌then◌else◌,
}
use ofm_registration_saga_se.Domain.{
  Error, Session, SessionStatus, StartRegistrationResult, status_text, is_completed, is_failed,
  publish_user_create_command, publish_auth_create_command, publish_code_sent_event,
  publish_registration_completed_event, publish_registration_failed_event,
}
use ofm_registration_saga_se.Exec.{pure, raise, ◌>>=◌}
use ofm_registration_saga_se.World.{
  Env, Saga, user_create, auth_create_pending, code_sent, registration_completed,
  registration_failed, draw,
}

pub record UserCreateResult : Type 0 where
  pub session_id : String
  pub user_id : String
  pub status : String
  pub error : String
  pub timestamp : String

pub record AuthCreatePendingResult : Type 0 where
  pub session_id : String
  pub client_id : String
  pub user_id : String
  pub status : String
  pub error : String
  pub timestamp : String

pub record MailSendResult : Type 0 where
  pub session_id : String
  pub client_id : String
  pub user_id : String
  pub request_id : String
  pub correlation_id : String
  pub message_type : String
  pub to : String
  pub status : String
  pub error : String
  pub timestamp : String

-- jsonMarshal, with the error that the mapper returns in place of its own
unfoldable pub marshalled : Error → Option String → Saga String
marshalled e none = raise e
marshalled e (some p) = pure p

module _ (env : Env) where
  -- time.Now().UTC().Format(time.RFC3339Nano)
  unfoldable pub timestamp : Saga String
  timestamp = draw (λ n. env.format_time (env.clock n))

  unfoldable pub to_user_create_command_payload : Session → String → String → Saga String
  to_user_create_command_payload s first_name surname =
      marshalled publish_user_create_command
        (env.marshal (user_create s.session_id s.user_id s.username first_name surname))

  unfoldable pub to_auth_create_pending_command_payload : Session → String → String → Saga String
  to_auth_create_pending_command_payload s email password_hash =
      marshalled publish_auth_create_command (
        env.marshal
          (auth_create_pending s.session_id s.client_id s.user_id email s.username password_hash))

  unfoldable pub to_code_sent_event_payload : MailSendResult → Saga String
  to_code_sent_event_payload r = do
    now ← timestamp
    marshalled publish_code_sent_event (
        env.marshal
          (code_sent r.session_id r.client_id r.user_id (status_text SessionStatus.code_sent) now))

  unfoldable pub to_registration_completed_event_payload : Session → Saga String
  to_registration_completed_event_payload s = do
    now ← timestamp
    marshalled publish_registration_completed_event (
        env.marshal (
          registration_completed s.session_id s.client_id s.user_id
            (status_text SessionStatus.completed) now))

  unfoldable pub to_registration_failed_event_payload : Session → String → Saga String
  to_registration_failed_event_payload s reason = do
    now ← timestamp
    marshalled publish_registration_failed_event (
        env.marshal (
          registration_failed s.session_id s.client_id s.user_id (status_text SessionStatus.failed)
            reason now))

-- session != nil && session.Status != failed && session.Status != completed
unfoldable pub taken : Option Session → Bool
taken none = false
taken (some s) = not (is_failed s.status) && not (is_completed s.status)

unfoldable pub conflict : String → Bool → Bool → Option StartRegistrationResult
conflict state email_taken username_taken =
    if not email_taken && not username_taken
    then none
    else some (record {
      session_id = "";
      client_id = "";
      user_id = "";
      status = "conflict";
      conflict_state = state;
      username_taken = username_taken;
      email_taken = email_taken;
    })

unfoldable pub to_incomplete_conflict_result :
    Option Session → Option Session → Option StartRegistrationResult
unfolding taken conflict
to_incomplete_conflict_result email_session username_session =
    conflict "found_incomplete" (taken email_session) (taken username_session)

unfoldable pub to_completed_conflict_result : Bool → Bool → Option StartRegistrationResult
unfolding conflict
to_completed_conflict_result email_taken username_taken =
    conflict "found_completed" email_taken username_taken
