-- ===== src/Quiet/Completion.antt =====
-- internal/application/verify_email.go: the goroutine that completes a registration.
use native.Mathlib.Numerals.{towards_suc}
use ofm_registration_saga_se.Prelude.{ℕ, suc, ◌+◌, String, none, some, List, [], ◌∷◌, ◌≡◌, arith}
use ofm_registration_saga_se.Domain.{
  Session, SessionStatus, StepStatus, verify_email_code, activate_user, status_text,
}
use ofm_registration_saga_se.Exec.{ok, pure, handle, resume, ◌>>=◌, ignore}
use ofm_registration_saga_se.Store.Statement.{run, update_session, update_step_status}
use ofm_registration_saga_se.World.{
  Env, World, Effect, published, notified_client, verified_email, activated_user, Notification,
  RealtimeStatus, Payload, registration_completed, draw,
}
use ofm_registration_saga_se.Repository.Sessions
use ofm_registration_saga_se.Repository.Steps
use ofm_registration_saga_se.Application.Mapper.{
  marshalled, timestamp, to_registration_completed_event_payload,
}
use ofm_registration_saga_se.Application.Realtime.{
  publish_encoded, publish_registration_notification,
}
use ofm_registration_saga_se.Application.VerifyEmail.{
  announce_completion, complete_email_verification,
}
use ofm_registration_saga_se.Quiet.{IsQuiet, write-quiet, send-quiet, Delivers}

-- What is seen of a completion, newest first; `t` is the time of the event.
abbrev pub completion_trace :
    Env → (Payload → String) → Session → String → ℕ → List Effect → List Effect
completion_trace env render s code t trace =
    let payload =
      render (
        registration_completed s.session_id s.client_id s.user_id "completed"
          (env.format_time t)) in
    notified_client (record {
      event_type = "registration.completed";
      session_id = s.session_id;
      status = RealtimeStatus.completed;
      error_code = "";
      retryable = none;
      payload = some payload;
    })
    ∷ published env.cfg.registration_completed_subject payload
    ∷ activated_user s.user_id
    ∷ verified_email s.user_id code
    ∷ trace

add_ten : (n : ℕ) → n + 10 ≡ suc (suc (n + 8))
add_ten n = omega arith

module _ {env : Env} {render : Payload → String} {body : Notification → String} (q : IsQuiet env)
    (d : Delivers env render body) where
  -- completeEmailVerification verifies the code, then activates the user, then completes the
  -- session, and only then announces it.
  pub complete_lem :
      (s : Session) (code : String) (w : World)
      → complete_email_verification env s code w ≡ (
        ok tt,
        record w {
          db =
              run
                (update_step_status
                    (env.clock (w.calls + 1))
                    s.session_id
                    verify_email_code
                    StepStatus.completed
                  ∷ update_session
                      (env.clock (w.calls + 2))
                      s.session_id
                      SessionStatus.activating_user
                  ∷ update_step_status
                      (env.clock (w.calls + 3))
                      s.session_id
                      activate_user
                      StepStatus.in_progress
                  ∷ update_step_status
                      (env.clock (w.calls + 5))
                      s.session_id
                      activate_user
                      StepStatus.completed
                  ∷ update_session (env.clock (w.calls + 6)) s.session_id SessionStatus.completed
                  ∷ [])
                w.db;
          calls = w.calls + 10;
          trace = completion_trace env render s code (env.clock (w.calls + 7)) w.trace;
        },
      )
  unfolding complete_email_verification announce_completion ◌>>=◌ Sessions.update_status
      Steps.update_status ignore to_registration_completed_event_payload timestamp draw marshalled
      pure handle resume publish_registration_notification publish_encoded status_text run
  complete_lem s code w =
      simp (write-quiet q, send-quiet q, d.marshals, d.encodes, d.realtime, towards_suc, add_ten)
