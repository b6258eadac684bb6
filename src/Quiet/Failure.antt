-- ===== src/Quiet/Failure.antt =====
-- compensateRegistrationFailure of internal/application/service.go.
use native.Mathlib.Numerals.{towards_suc}
use ofm_registration_saga_se.Prelude.{
  ◌+◌, ℕ, String, true, false, some, List, ◌∷◌, ◌≡◌, ◌==◌, if◌then◌else◌,
}
use ofm_registration_saga_se.Domain.{Session, SessionStatus, status_text}
use ofm_registration_saga_se.Exec.{ok, pure, handle, resume, ◌>>=◌, ignore}
use ofm_registration_saga_se.Store.{get_by_id}
use ofm_registration_saga_se.Store.Statement.{apply, update_session}
use ofm_registration_saga_se.World.{
  Env, World, Effect, published, notified_client, deactivated_user, deactivated_auth, Notification,
  RealtimeStatus, Payload, registration_failed, draw,
}
use ofm_registration_saga_se.Repository.Sessions
use ofm_registration_saga_se.Application.Mapper.{
  marshalled, timestamp, to_registration_failed_event_payload,
}
use ofm_registration_saga_se.Application.Realtime.{
  publish_encoded, publish_registration_notification, registration_error_code,
}
use ofm_registration_saga_se.Application.Progress.{
  deactivate, report_failure, compensate_registration_failure,
}
use ofm_registration_saga_se.Quiet.{IsQuiet, query-quiet, write-quiet, send-quiet, Delivers}

abbrev pub user_of : Session → String → String
user_of s user_id = if user_id == "" then s.user_id else user_id

-- What the other services and the client see of a compensation, newest first; `t` is the time of
-- the event.
abbrev pub failure_trace :
    Env → (Payload → String) → Session → String → String → ℕ → List Effect → List Effect
failure_trace env render s user reason t trace =
    let payload = render (
      registration_failed s.session_id s.client_id s.user_id "failed" reason (env.format_time t)) in
    notified_client (record {
      event_type = "registration.failed";
      session_id = s.session_id;
      status = RealtimeStatus.failed;
      error_code = "registration_failed";
      retryable = some true;
      payload = some payload;
    })
    ∷ published env.cfg.registration_failed_subject payload
    ∷ deactivated_auth user
    ∷ deactivated_user user
    ∷ trace

module _ {env : Env} {render : Payload → String} {body : Notification → String} (q : IsQuiet env)
    (d : Delivers env render body) where
  -- compensateRegistrationFailure sets the session to failed, deactivates user and auth, in this
  -- order, publishes the failed event and tells the client.
  pub compensate_lem :
      (id user_id reason : String) (s : Session) (w : World)
      → get_by_id id w.db.sessions ≡ some s
      → (user_of s user_id == "") ≡ false
      → compensate_registration_failure env id user_id reason w ≡ (
        ok tt,
        record w {
          db = apply (update_session (env.clock (w.calls + 1)) id SessionStatus.failed) w.db;
          calls = w.calls + 7;
          trace =
              failure_trace env render s
                (user_of s user_id)
                reason
                (env.clock (w.calls + 4))
                w.trace;
        },
      )
  unfolding compensate_registration_failure ◌>>=◌ Sessions.get_by_id Sessions.update_status
      deactivate ignore report_failure to_registration_failed_event_payload timestamp draw
      marshalled pure handle resume publish_registration_notification publish_encoded
      registration_error_code status_text
  compensate_lem id user_id reason s w found named = simp (
    query-quiet q,
    write-quiet q,
    send-quiet q,
    found,
    named,
    d.marshals,
    d.encodes,
    d.realtime,
    towards_suc,
  )
