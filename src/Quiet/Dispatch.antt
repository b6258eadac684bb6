-- ===== src/Quiet/Dispatch.antt =====
-- internal/application/start_dispatch.go: the goroutine that sends the first commands.
use native.Mathlib.Numerals.{towards_suc}
use ofm_registration_saga_se.Prelude.{◌+◌, String, [], ◌∷◌, ◌≡◌}
use ofm_registration_saga_se.Domain.{
  Session, SessionStatus, StepStatus, user_create_profile, auth_create_pending,
}
use ofm_registration_saga_se.Exec.{ok, pure, handle, resume, ◌>>=◌}
use ofm_registration_saga_se.Store.Statement.{run, update_session, update_step_status}
use ofm_registration_saga_se.World.{
  Env, World, StartInput, published, Notification, Payload, user_create,
  auth_create_pending as auth_create_pending_payload,
}
use ofm_registration_saga_se.Repository.Sessions
use ofm_registration_saga_se.Repository.Steps
use ofm_registration_saga_se.Application.Mapper.{
  marshalled, to_user_create_command_payload, to_auth_create_pending_command_payload,
}
use ofm_registration_saga_se.Application.Dispatch.{
  mark_start_in_progress, publish_user_create_command, publish_auth_create_command,
  dispatch_start_commands,
}
use ofm_registration_saga_se.Quiet.{IsQuiet, write-quiet, send-quiet, Delivers}

module _ {env : Env} {render : Payload → String} {body : Notification → String} (q : IsQuiet env)
    (d : Delivers env render body) where
  -- dispatchStartCommands marks the session and its first two steps as in progress before it
  -- publishes the command to the user service and then that to the auth service, which alone
  -- carries the hash of the password.
  pub dispatch_lem :
      (s : Session) (input : StartInput) (hash : String) (w : World)
      → dispatch_start_commands env s input hash w ≡ (
        ok tt,
        record w {
          db =
              run
                (update_session (env.clock w.calls) s.session_id SessionStatus.in_progress
                  ∷ update_step_status
                      (env.clock (w.calls + 1))
                      s.session_id
                      user_create_profile
                      StepStatus.in_progress
                  ∷ update_step_status
                      (env.clock (w.calls + 2))
                      s.session_id
                      auth_create_pending
                      StepStatus.in_progress
                  ∷ [])
                w.db;
          calls = w.calls + 5;
          trace =
              published env.cfg.auth_create_pending_subject (
                render (
                  auth_create_pending_payload s.session_id s.client_id s.user_id input.email
                    s.username hash))
              ∷ published env.cfg.user_create_subject (
                  render
                    (user_create s.session_id s.user_id s.username input.first_name input.surname))
              ∷ w.trace;
        },
      )
  unfolding dispatch_start_commands mark_start_in_progress publish_user_create_command
      publish_auth_create_command ◌>>=◌ Sessions.update_status Steps.update_status
      to_user_create_command_payload to_auth_create_pending_command_payload marshalled pure handle
      resume run
  dispatch_lem s input hash w = simp (write-quiet q, send-quiet q, d.marshals, towards_suc)
