-- ===== src/Application/Results.antt =====
-- HandleUserCreateResult, HandleAuthCreatePendingResult and HandleMailSendResult of service.go
use ofm_registration_saga_se.Prelude.{String, Bool, Option, none, some, ◌==◌, if◌then◌else◌}
use ofm_registration_saga_se.Domain.{
  StepStatus, user_create_profile, auth_create_pending, mail_send_verification_code,
  invalid_session_id,
}
use ofm_registration_saga_se.Exec.{raise, ◌>>=◌, ◌>>◌}
use ofm_registration_saga_se.World.{Env, Saga, published, send}
use ofm_registration_saga_se.Repository.Steps
use ofm_registration_saga_se.Application.Mapper.{
  UserCreateResult, AuthCreatePendingResult, MailSendResult, to_code_sent_event_payload,
}
use ofm_registration_saga_se.Application.Realtime.{publish_code_sent_if_ready}
use ofm_registration_saga_se.Application.Progress.{
  compensate_registration_failure, sync_session_status,
}

abbrev pub succeeded : String → Bool
succeeded status = status == "success"

abbrev pub outcome_status : String → StepStatus
outcome_status status = if succeeded status then StepStatus.completed else StepStatus.failed

module _ (env : Env) where
  -- The end of every successful handler.
  unfoldable pub advance : String → Option String → Saga (Unit {0})
  advance session_id payload = do
    sync_session_status env session_id
    publish_code_sent_if_ready env session_id payload

  unfoldable pub handle_user_create_result : UserCreateResult → Saga (Unit {0})
  unfolding advance
  handle_user_create_result r = if r.session_id == "" then raise invalid_session_id else do
    Steps.update_status env r.session_id user_create_profile (outcome_status r.status)
    if succeeded r.status
        then advance r.session_id none
        else compensate_registration_failure env r.session_id r.user_id r.error

  unfoldable pub handle_auth_create_pending_result : AuthCreatePendingResult → Saga (Unit {0})
  unfolding advance
  handle_auth_create_pending_result r = if r.session_id == "" then raise invalid_session_id else do
    Steps.update_status env r.session_id auth_create_pending (outcome_status r.status)
    if succeeded r.status
        then (do
          Steps.update_status env r.session_id mail_send_verification_code StepStatus.in_progress
          advance r.session_id none)
        else compensate_registration_failure env r.session_id r.user_id r.error

  unfoldable pub handle_mail_send_result : MailSendResult → Saga (Unit {0})
  unfolding advance
  handle_mail_send_result r = if r.session_id == "" then raise invalid_session_id else do
    Steps.update_status env r.session_id mail_send_verification_code (outcome_status r.status)
    if succeeded r.status
        then (do
          payload ← to_code_sent_event_payload env r
          send env (published env.cfg.registration_code_sent_subject payload)
          advance r.session_id (some payload))
        else compensate_registration_failure env r.session_id r.user_id r.error
