-- ===== src/Quiet/Progress.antt =====
-- The handlers of internal/application/service.go on results that report success, when every call
-- succeeds and no one interferes.
use ofm_registration_saga_se.Prelude.{
  ℕ, suc, String, Bool, true, false, Option, none, some, ◌∷◌, ◌≡◌, refl, ◌==◌, inl, inr, Bool-cases,
}
use ofm_registration_saga_se.Domain.{
  Session, StepStatus, user_create_profile, auth_create_pending, mail_send_verification_code,
  is_code_sent, is_failed, status_text,
}
use ofm_registration_saga_se.Exec.{ok, pure, handle, resume, ◌>>=◌, ignore}
use ofm_registration_saga_se.Store.{Db, get_by_id, reconciled}
use ofm_registration_saga_se.Store.Identity.{get_by_id-session_id}
use ofm_registration_saga_se.Store.Reconcile.{
  any_failed, every_completed, verdict, reconciled-eq-verdict,
}
use ofm_registration_saga_se.Store.Outstanding.{get_by_id-set_status}
use ofm_registration_saga_se.Store.Statement.{Stmt, apply, reconcile, update_step_status}
use ofm_registration_saga_se.World.{
  Env, World, published, notified_client, Notification, RealtimeStatus, Payload, code_sent, draw,
}
use ofm_registration_saga_se.Repository.Sessions
use ofm_registration_saga_se.Repository.Steps
use ofm_registration_saga_se.Application.Mapper.{
  UserCreateResult, AuthCreatePendingResult, MailSendResult, to_code_sent_event_payload, marshalled,
  timestamp,
}
use ofm_registration_saga_se.Application.Realtime.{
  contains, load_or_store, publish_encoded, publish_registration_notification, notify_code_sent,
  publish_code_sent_if_ready,
}
use ofm_registration_saga_se.Application.Progress.{sync_by_reconciler, sync_session_status}
use ofm_registration_saga_se.Application.Results.{
  advance, handle_user_create_result, handle_auth_create_pending_result, handle_mail_send_result,
}
use ofm_registration_saga_se.Quiet.{IsQuiet, query-quiet, write-quiet, send-quiet, Delivers}

-- The notification that the code was sent.
abbrev pub code_sent_note : String → Option String → Notification
code_sent_note id payload = record {
  event_type = "registration.code_sent";
  session_id = id;
  status = RealtimeStatus.accepted;
  error_code = "";
  retryable = none;
  payload = payload;
}

-- The world after publishCodeSentIfReady, given whether the session has the status code_sent and
-- whether its key is in `codeSentNotified`.
abbrev pub told : String → Option String → Bool → Bool → World → World
told id payload false known w = record w { calls = suc w.calls }
told id payload true true w = record w { calls = suc w.calls }
told id payload true false w = record w {
  calls = suc (suc w.calls);
  trace = notified_client (code_sent_note id payload) ∷ w.trace;
  notified = id ∷ w.notified;
}

module _ {env : Env} {render : Payload → String} {body : Notification → String} (q : IsQuiet env)
    (d : Delivers env render body) where
  publish-told :
      (id : String) (payload : Option String) (s : Session) (w : World)
      → get_by_id id w.db.sessions ≡ some s
      → s.session_id ≡ id
      → (publish_code_sent_if_ready env id payload w).1
        ≡ told id payload (is_code_sent s.status) (contains id w.notified) w
  unfolding publish_code_sent_if_ready Sessions.get_by_id notify_code_sent load_or_store
      publish_registration_notification publish_encoded ◌>>=◌ handle resume pure ignore
  publish-told id payload s w found named = elim (Bool-cases (is_code_sent s.status)) [
    | inr e ↦ simp (d.realtime, query-quiet q, found, e)
    | inl e ↦ elim (Bool-cases (contains id w.notified)) [
      | inl k ↦ simp (d.realtime, query-quiet q, found, e, k)
      | inr k ↦ simp (d.realtime, d.encodes, query-quiet q, send-quiet q, found, e, k, named)
    ]
  ]

-- The world after a statement.
abbrev pub after : World → (ℕ → Stmt) → Env → World
after w stmt env = record w { db = apply (stmt (env.clock w.calls)) w.db; calls = suc w.calls }

pub verdict-not-failed :
    (id : String) (db : Db) → any_failed id db.steps ≡ false → is_failed (reconciled id db) ≡ false
verdict-not-failed id db h =
    rw (reconciled-eq-verdict id db, h) (at_all (every_completed id db.steps))
  where
    at_all : (b : Bool) → is_failed (verdict false b) ≡ false
    at_all true = refl
    at_all false = refl

module _ {env : Env} {render : Payload → String} {body : Notification → String} (q : IsQuiet env)
    (d : Delivers env render body) (synced : env.reconciles ≡ true) where
  sync-quiet :
      (id : String) (s : Session) (w : World)
      → get_by_id id w.db.sessions ≡ some s
      → any_failed id w.db.steps ≡ false
      → sync_session_status env id w ≡ (ok tt, after w (λ now. reconcile now id) env)
  unfolding sync_session_status sync_by_reconciler Sessions.reconcile_status ◌>>=◌ handle resume
      pure
  sync-quiet id s w found h = simp (synced, write-quiet q, found, verdict-not-failed id w.db h)

  -- The end of a handler: the status of the session is that of its steps, and the client is told.
  pub advance-told :
      (id : String) (payload : Option String) (s : Session) (w : World)
      → get_by_id id w.db.sessions ≡ some s
      → any_failed id w.db.steps ≡ false
      → (advance env id payload w).1
        ≡ told id payload
            (is_code_sent (reconciled id w.db))
            (contains id w.notified)
            (after w (λ now. reconcile now id) env)
  unfolding advance ◌>>=◌ handle resume
  advance-told id payload s w found h =
      let row = record s { status = reconciled id w.db; updated_at = env.clock w.calls } in
      rw (sync-quiet id s w found h) (
        publish-told q d id payload row (after w (λ now. reconcile now id) env)
          (unfold apply in
            get_by_id-set_status (env.clock w.calls) id (reconciled id w.db) w.db.sessions s found)
          (get_by_id-session_id id w.db.sessions found))

  pub user-quiet :
      (r : UserCreateResult) (w : World)
      → (r.session_id == "") ≡ false
      → (r.status == "success") ≡ true
      → handle_user_create_result env r w
        ≡ advance env r.session_id none (
            after w
              (λ now. update_step_status now r.session_id user_create_profile StepStatus.completed)
              env)
  unfolding handle_user_create_result ◌>>=◌ handle resume Steps.update_status
  user-quiet r w named good = simp (named, good, write-quiet q)

  pub auth-quiet :
      (r : AuthCreatePendingResult) (w : World)
      → (r.session_id == "") ≡ false
      → (r.status == "success") ≡ true
      → handle_auth_create_pending_result env r w
        ≡ advance env r.session_id none (
            after
              (after w
                (λ now.
                  update_step_status now r.session_id auth_create_pending StepStatus.completed)
                env)
              (λ now.
                update_step_status now r.session_id mail_send_verification_code
                  StepStatus.in_progress)
              env)
  unfolding handle_auth_create_pending_result ◌>>=◌ handle resume Steps.update_status
  auth-quiet r w named good = simp (named, good, write-quiet q)

  -- The event that the code was sent, as it is published.
  abbrev pub sent : MailSendResult → ℕ → String
  sent r n =
      render
        (code_sent r.session_id r.client_id r.user_id "code_sent" (env.format_time (env.clock n)))

  pub mail-quiet :
      (r : MailSendResult) (w : World)
      → (r.session_id == "") ≡ false
      → (r.status == "success") ≡ true
      → handle_mail_send_result env r w ≡ (
          let w1 =
            after w
              (λ now.
                update_step_status now r.session_id mail_send_verification_code
                  StepStatus.completed)
              env in
          advance env r.session_id (some (sent r (suc w.calls))) (record w1 {
            calls = suc (suc (suc w.calls));
            trace =
                published env.cfg.registration_code_sent_subject (sent r (suc w.calls)) ∷ w.trace;
          }))
  unfolding handle_mail_send_result ◌>>=◌ handle resume pure Steps.update_status
      to_code_sent_event_payload timestamp draw marshalled status_text
  mail-quiet r w named good = simp (named, good, write-quiet q, send-quiet q, d.marshals)
