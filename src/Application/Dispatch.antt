-- ===== src/Application/Dispatch.antt =====
-- start_dispatch.go: the goroutine that `Start` leaves behind
use ofm_registration_saga_se.Prelude.{String}
use ofm_registration_saga_se.Domain.{
  Session, SessionStatus, StepStatus, StepKey, user_create_profile, auth_create_pending,
}
use ofm_registration_saga_se.Exec.{pure, handle, ◌>>=◌, ◌>>◌, ignore}
use ofm_registration_saga_se.World.{Env, Saga, StartInput, published, send}
use ofm_registration_saga_se.Repository.Sessions
use ofm_registration_saga_se.Repository.Steps
use ofm_registration_saga_se.Application.Mapper.{
  to_user_create_command_payload, to_auth_create_pending_command_payload,
}

module _ (env : Env) where
  unfoldable pub mark_start_in_progress : String → Saga (Unit {0})
  mark_start_in_progress session_id = do
    Sessions.update_status env session_id SessionStatus.in_progress
    Steps.update_status env session_id user_create_profile StepStatus.in_progress
    Steps.update_status env session_id auth_create_pending StepStatus.in_progress

  unfoldable pub publish_user_create_command : Session → String → String → Saga (Unit {0})
  publish_user_create_command session first_name surname = do
    payload ← to_user_create_command_payload env session first_name surname
    send env (published env.cfg.user_create_subject payload)

  unfoldable pub publish_auth_create_command : Session → String → String → Saga (Unit {0})
  publish_auth_create_command session email password_hash = do
    payload ← to_auth_create_pending_command_payload env session email password_hash
    send env (published env.cfg.auth_create_pending_subject payload)

  unfoldable pub fail_start_step : String → StepKey → Saga (Unit {0})
  fail_start_step session_id step_key =
      ignore (Steps.update_status env session_id step_key StepStatus.failed)
        (ignore (Sessions.update_status env session_id SessionStatus.failed) (pure tt))

  unfoldable pub dispatch_start_commands : Session → StartInput → String → Saga (Unit {0})
  dispatch_start_commands session input password_hash =
      handle (mark_start_in_progress session.session_id) (λ _. pure tt)
        (λ _.
          handle (publish_user_create_command session input.first_name input.surname)
            (λ _. fail_start_step session.session_id user_create_profile)
            (λ _.
              handle (publish_auth_create_command session input.email password_hash)
                (λ _. fail_start_step session.session_id auth_create_pending) (λ _. pure tt)))
