-- ===== src/Application/VerifyEmail.antt =====
-- verify_email.go: the submission of the code, the goroutine that completes the registration, and
-- the single claim of its tokens
use ofm_registration_saga_se.Prelude.Text.{trim_space}
use ofm_registration_saga_se.Prelude.{String, false, none, some, ◌==◌, if◌then◌else◌}
use ofm_registration_saga_se.Domain.{
  Error, message, Session, Step, SessionStatus, StepStatus, StepKey, verify_email_code,
  activate_user, VerifyEmailParams, VerifyEmailResult, RegistrationStatus, is_completed,
  is_in_progress, is_code_sent, invalid_session_id, invalid_client_id, invalid_verification_code,
  client_mismatch, invalid_status,
}
use ofm_registration_saga_se.Exec.{pure, raise, handle, ◌>>=◌, ◌>>◌, ignore}
use ofm_registration_saga_se.World.{
  Env, Saga, Task, dispatch_start, complete_verification, RealtimeStatus, published, verified_email,
  activated_user, deactivated_user, deactivated_auth, send, spawn,
}
use ofm_registration_saga_se.Repository.Sessions
use ofm_registration_saga_se.Repository.Steps
use ofm_registration_saga_se.Application.Mapper.{
  to_registration_completed_event_payload, to_registration_failed_event_payload,
}
use ofm_registration_saga_se.Application.Realtime.{
  publish_registration_notification, registration_error_code,
}
use ofm_registration_saga_se.Application.Progress.{sync_session_status}
use ofm_registration_saga_se.Application.Dispatch.{dispatch_start_commands}

module _ (env : Env) where
  -- A session in progress is reconciled first, and read again.
  unfoldable pub refreshed : Session → Saga Session
  refreshed session =
      if is_in_progress session.status
      then (do
        sync_session_status env session.session_id
        Sessions.get_by_id env session.session_id)
      else pure session

  abbrev pub verify_step : String → StepKey → StepStatus → Step
  verify_step session_id key status = record {
    session_id = session_id;
    step_key = key;
    status = status;
    created_at = 0;
    updated_at = 0;
  }

  unfoldable pub begin_verification : Session → String → Saga VerifyEmailResult
  begin_verification session code = do
    Steps.create env (verify_step session.session_id verify_email_code StepStatus.in_progress)
    Steps.create env (verify_step session.session_id activate_user StepStatus.pending)
    Sessions.update_status env session.session_id SessionStatus.verifying_email
    spawn (complete_verification session code)
    pure (record {
      session_id = session.session_id;
      client_id = session.client_id;
      status = SessionStatus.verifying_email;
    })

  unfoldable pub verify_session : Session → String → Saga VerifyEmailResult
  verify_session session code =
      if is_completed session.status
      then pure (record {
        session_id = session.session_id;
        client_id = session.client_id;
        status = session.status;
      })
      else do
        session' ← refreshed session
        if is_code_sent session'.status
            then begin_verification session' code
            else raise invalid_status

  unfoldable pub verify_email : VerifyEmailParams → Saga VerifyEmailResult
  verify_email params =
      let session_id = trim_space params.session_id in
      let client_id = trim_space params.client_id in
      let code = trim_space params.code in
      if session_id == ""
      then raise invalid_session_id
      else if client_id == ""
      then raise invalid_client_id
      else if code == ""
      then raise invalid_verification_code
      else do
        session ← Sessions.get_by_id env session_id
        if session.client_id == client_id
            then verify_session session code
            else raise client_mismatch

  unfoldable pub status_of : Session → SessionStatus → RegistrationStatus
  status_of session status = record {
    session_id = session.session_id;
    client_id = session.client_id;
    user_id = session.user_id;
    status = status;
  }

  -- Only the request whose claim finds the completed row reports "completed".
  unfoldable pub claimed_status : Session → Saga RegistrationStatus
  unfolding status_of
  claimed_status session =
      if is_completed session.status
      then (do
        claimed ← Sessions.claim env session.session_id
        pure (
            status_of session
              (if claimed then SessionStatus.completed else SessionStatus.tokens_claimed)))
      else pure (status_of session session.status)

  unfoldable pub get_registration_status : String → String → Saga RegistrationStatus
  get_registration_status session_id' client_id' =
      let session_id = trim_space session_id' in
      let client_id = trim_space client_id' in
      if session_id == ""
      then raise invalid_session_id
      else if client_id == ""
      then raise invalid_client_id
      else do
        session ← Sessions.get_by_id env session_id
        if session.client_id == client_id then claimed_status session else raise client_mismatch

  unfoldable pub fail_email_verification : Session → StepKey → Error → Saga (Unit {0})
  fail_email_verification session step_key e =
      ignore (Steps.update_status env session.session_id step_key StepStatus.failed) (
        ignore (Sessions.update_status env session.session_id SessionStatus.failed) (
          ignore (send env (deactivated_user session.user_id)) (
            ignore (send env (deactivated_auth session.user_id)) (
              handle (to_registration_failed_event_payload env session (message e)) (λ _. pure tt)
                (λ payload.
                  ignore (send env (published env.cfg.registration_failed_subject payload)) (
                    publish_registration_notification env session "registration.failed"
                      RealtimeStatus.failed (registration_error_code (message e)) (some false)
                      (some payload)))))))

  unfoldable pub announce_completion : Session → Saga (Unit {0})
  announce_completion session =
      handle (to_registration_completed_event_payload env session) (λ _. pure tt)
        (λ payload. ignore (send env (published env.cfg.registration_completed_subject payload)) (
          publish_registration_notification env session "registration.completed"
            RealtimeStatus.completed "" none (some payload)))

  -- One call of completeEmailVerification: an error fails the step that is named.
  abbrev or_fail : Session → StepKey → Saga (Unit {0}) → Saga (Unit {0}) → Saga (Unit {0})
  or_fail session key m rest = handle m (fail_email_verification session key) (λ _. rest)

  -- What follows once the auth service has accepted the code.
  unfoldable pub activate_and_complete : Session → Saga (Unit {0})
  activate_and_complete session =
      let id = session.session_id in
      or_fail session verify_email_code
        (Steps.update_status env id verify_email_code StepStatus.completed)
        (or_fail session activate_user (Sessions.update_status env id SessionStatus.activating_user)
          (or_fail session activate_user
            (Steps.update_status env id activate_user StepStatus.in_progress)
            (or_fail session activate_user (send env (activated_user session.user_id)) (
              or_fail session activate_user
                (Steps.update_status env id activate_user StepStatus.completed)
                (or_fail session activate_user
                  (Sessions.update_status env id SessionStatus.completed)
                  (announce_completion session))))))

  unfoldable pub complete_email_verification : Session → String → Saga (Unit {0})
  unfolding activate_and_complete
  complete_email_verification session code =
      or_fail session verify_email_code (send env (verified_email session.user_id code))
        (activate_and_complete session)

  -- A goroutine runs with a context of its own; no one waits for it.
  unfoldable pub run_task : Task → Saga (Unit {0})
  run_task (dispatch_start session input password_hash) =
      dispatch_start_commands env session input password_hash
  run_task (complete_verification session code) = complete_email_verification session code
