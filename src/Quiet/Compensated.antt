-- ===== src/Quiet/Compensated.antt =====
-- internal/application/service.go: reports of a failure, and reports of success for a session of
-- which a step has failed, when every call succeeds and no one interferes.
use ofm_registration_saga_se.Prelude.{
  ℕ, suc, ◌+◌, String, Bool, true, false, ◌&&◌, Option, some, List, [], ◌∷◌, ◌≡◌, refl, ap, ◌∙◌,
  arith, ◌==◌, eq_refl,
}
use ofm_registration_saga_se.Domain.{Session, SessionStatus, status_text, is_code_sent}
use ofm_registration_saga_se.Exec.{Result, ok, pure, handle, resume, ◌>>=◌, ignore, bind-ok}
use ofm_registration_saga_se.Store.{get_by_id, reconciled}
use ofm_registration_saga_se.Store.Reconcile.{any_failed, reconciled-eq-verdict}
use ofm_registration_saga_se.Store.Outstanding.{get_by_id-set_status}
use ofm_registration_saga_se.Store.Identity.{get_by_id-session_id}
use ofm_registration_saga_se.Store.Statement.{apply, reconcile, update_session}
use ofm_registration_saga_se.World.{
  Env, World, Effect, notified_client, Notification, Payload, draw,
}
use ofm_registration_saga_se.Repository.Sessions
use ofm_registration_saga_se.Application.Mapper.{
  marshalled, timestamp, to_registration_failed_event_payload,
}
use ofm_registration_saga_se.Application.Realtime.{
  publish_encoded, publish_registration_notification, registration_error_code,
  publish_code_sent_if_ready,
}
use ofm_registration_saga_se.Application.Progress.{
  deactivate, report_failure, compensate_registration_failure, sync_by_reconciler,
  sync_session_status,
}
use ofm_registration_saga_se.Application.Results.{advance}
use ofm_registration_saga_se.Guarantee.Notified.{code_sent_count, as_number}
use ofm_registration_saga_se.Quiet.{IsQuiet, next, query-quiet, write-quiet, send-quiet, Delivers}
use ofm_registration_saga_se.Quiet.Failure.{user_of}
use ofm_registration_saga_se.Quiet.Progress.{after}

-- The notifications of a session that its registration failed.
unfoldable pub failed_count : String → List Effect → ℕ
failed_count id [] = 0
failed_count id (notified_client n ∷ rest) =
    as_number (n.session_id == id && n.event_type == "registration.failed") + failed_count id rest
failed_count id (_ ∷ rest) = failed_count id rest

-- What a compensation gives.
pub record IsCompensated (id : String) (now : ℕ) (w : World) (x : Result (Unit {0}) × World)
    : Type 0 where
  pub result : x.0 ≡ ok tt
  pub db : x.1.db ≡ apply (update_session now id SessionStatus.failed) w.db
  pub told : failed_count id x.1.trace ≡ suc (failed_count id w.trace)
  pub not_sent : code_sent_count id x.1.trace ≡ code_sent_count id w.trace

module _ {env : Env} {render : Payload → String} {body : Notification → String} (q : IsQuiet env)
    (d : Delivers env render body) (id user_id reason : String) (s : Session) (w : World)
    (found : get_by_id id w.db.sessions ≡ some s) (same : s.session_id ≡ id) where
  compensate_named :
      (b : Bool)
      → (user_of s user_id == "") ≡ b
      → IsCompensated id
          (env.clock (suc w.calls))
          w
          (compensate_registration_failure env id user_id reason w)
  unfolding compensate_registration_failure ◌>>=◌ Sessions.get_by_id Sessions.update_status
      deactivate ignore report_failure to_registration_failed_event_payload timestamp draw
      marshalled pure handle resume publish_registration_notification publish_encoded
      registration_error_code status_text code_sent_count failed_count
  compensate_named true e =
      simp (query-quiet q, write-quiet q, send-quiet q, found, e, d.marshals, d.encodes, d.realtime)
        (record {
          result = refl;
          db = refl;
          told = rw (same, eq_refl id) (omega arith);
          not_sent = ground arith;
        })
  compensate_named false e =
      simp (query-quiet q, write-quiet q, send-quiet q, found, e, d.marshals, d.encodes, d.realtime)
        (record {
          result = refl;
          db = refl;
          told = rw (same, eq_refl id) (omega arith);
          not_sent = ground arith;
        })

  -- compensateRegistrationFailure sets the session to failed and tells its client so.
  pub compensate-quiet :
      IsCompensated id
        (env.clock (suc w.calls))
        w
        (compensate_registration_failure env id user_id reason w)
  compensate-quiet = compensate_named (user_of s user_id == "") refl

module _ {env : Env} {render : Payload → String} {body : Notification → String} (q : IsQuiet env)
    (d : Delivers env render body) (synced : env.reconciles ≡ true) where
  failed-reconciled :
      (id : String) (w : World)
      → any_failed id w.db.steps ≡ true
      → reconciled id w.db ≡ SessionStatus.failed
  failed-reconciled id w h = rw (reconciled-eq-verdict id w.db, h) refl

  sync-failed :
      (id : String) (s : Session) (w : World)
      → get_by_id id w.db.sessions ≡ some s
      → any_failed id w.db.steps ≡ true
      → sync_session_status env id w
        ≡ compensate_registration_failure env id "" "registration step failed"
            (after w (λ now. reconcile now id) env)
  unfolding sync_session_status sync_by_reconciler Sessions.reconcile_status ◌>>=◌ handle resume
  sync-failed id s w found h = simp (synced, write-quiet q, found, failed-reconciled id w h)

  publish-failed :
      (id : String) (payload : Option String) (s : Session) (w : World)
      → get_by_id id w.db.sessions ≡ some s
      → s.status ≡ SessionStatus.failed
      → (publish_code_sent_if_ready env id payload w).1 ≡ next w
  unfolding publish_code_sent_if_ready Sessions.get_by_id ◌>>=◌ handle resume pure
  publish-failed id payload s w found failed =
      simp (d.realtime, query-quiet q, found, ap is_code_sent failed)

  -- The session after the compensation that ends a handler.
  abbrev pub advanced : String → World → World
  advanced id w =
      (compensate_registration_failure env id "" "registration step failed"
        (after w (λ now. reconcile now id) env)).1

  -- The end of a handler for a session of which a step has failed: it is compensated.
  pub advance-failed :
      (id : String) (payload : Option String) (s : Session) (w : World)
      → get_by_id id w.db.sessions ≡ some s
      → any_failed id w.db.steps ≡ true
      → (n : ℕ) × IsCompensated id n (after w (λ now. reconcile now id) env) (ok tt, advanced id w)
        × ((advance env id payload w).1 ≡ next (advanced id w))
  unfolding advance apply
  advance-failed id payload s w found h =
      let w1 = after w (λ now. reconcile now id) env in
      let row : Session = record s {
        status = reconciled id w.db;
        updated_at = env.clock w.calls;
      } in
      let found1 : get_by_id id w1.db.sessions ≡ some row =
        get_by_id-set_status (env.clock w.calls) id (reconciled id w.db) w.db.sessions s found in
      let c =
        compensate-quiet q d id "" "registration step failed" row w1 found1
          (get_by_id-session_id id w.db.sessions found) in
      let found2 =
        ap (λ x. get_by_id id x.sessions) c.db
        ∙ get_by_id-set_status (env.clock (suc w1.calls)) id SessionStatus.failed w1.db.sessions row
            found1 in
      (
        env.clock (suc w1.calls),
        record { result = refl; db = c.db; told = c.told; not_sent = c.not_sent },
        ap (λ x. x.1)
              (bind-ok (sync_session_status env id) (λ _. publish_code_sent_if_ready env id payload)
                (sync-failed id s w found h ∙ (λ i. (c.result i, advanced id w))))
            ∙ publish-failed id payload _ (advanced id w) found2 refl,
      )
