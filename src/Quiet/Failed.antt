-- ===== src/Quiet/Failed.antt =====
-- The handlers of internal/application/service.go once a service has reported a failure, when every
-- call succeeds and no one interferes.
pub mod Stays
pub mod Revived
use ofm_registration_saga_se.Prelude.{
  ℕ, suc, ◌+◌, ◌≤◌, String, Bool, true, false, not, ◌&&◌, ◌||◌, Option, none, some, List, [], ◌∷◌,
  ◌≡◌, refl, sym, ap, subst, ◌∙◌, arith, ◌==◌, inl, inr, Bool-cases,
}
use ofm_registration_saga_se.Domain.{
  Session, SessionStatus, StepKey, StepStatus, user_create_profile, auth_create_pending,
  mail_send_verification_code, same_key, step_failed,
}
use ofm_registration_saga_se.Exec.{Result, ok, handle, resume, ◌>>=◌}
use ofm_registration_saga_se.Store.{get_by_id, has_step}
use ofm_registration_saga_se.Store.Failing.{
  failed_at, failed_at-any_failed, failed_at-fails, failed_at-update_step,
}
use ofm_registration_saga_se.Store.Identity.{get_by_id-session_id}
use ofm_registration_saga_se.Store.Outstanding.{get_by_id-set_status}
use ofm_registration_saga_se.Store.StepOrder.{same_key_refl}
use ofm_registration_saga_se.Store.Statement.{apply, reconcile}
use ofm_registration_saga_se.World.{published, Env, World, Payload, Notification}
use ofm_registration_saga_se.Repository.Steps
use ofm_registration_saga_se.Application.Mapper.{
  UserCreateResult, AuthCreatePendingResult, MailSendResult,
}
use ofm_registration_saga_se.Application.Progress.{compensate_registration_failure}
use ofm_registration_saga_se.Application.Results.{
  advance, handle_user_create_result, handle_auth_create_pending_result, handle_mail_send_result,
}
use ofm_registration_saga_se.History.{
  Event, starts, verifies, asks_status, runs, user_result, auth_result, mail_result, serve,
  serve_all,
}
use ofm_registration_saga_se.Guarantee.Notified.{code_sent_count}
use ofm_registration_saga_se.Quiet.{IsQuiet, next, write-quiet, Delivers}
use ofm_registration_saga_se.Quiet.Progress.{after, user-quiet, auth-quiet, mail-quiet, sent}
use ofm_registration_saga_se.Quiet.OnTrack.{sets}
use ofm_registration_saga_se.Quiet.Compensated.{
  failed_count, IsCompensated, compensate-quiet, advanced, advance-failed,
}

-- A report on a step of the session.
abbrev pub Concerns : String → Event → Type 0
Concerns id (user_result r) = r.session_id ≡ id
Concerns id (auth_result r) = r.session_id ≡ id
Concerns id (mail_result r) = r.session_id ≡ id
Concerns id _ = ⊥

-- Whether a report, if it reports success, sets a step to another status than failed: the step
-- that it reports on, and that of the mail service on a report of the auth service.
abbrev pub revives : StepKey → Event → Bool
revives key (user_result r) = (r.status == "success") && same_key key user_create_profile
revives key (auth_result r) =
    (r.status == "success")
    && (same_key key auth_create_pending || same_key key mail_send_verification_code)
revives key (mail_result r) = (r.status == "success") && same_key key mail_send_verification_code
revives key _ = false

abbrev pub LeaveFailed : String → StepKey → List Event → Type 0
LeaveFailed id key [] = Unit
LeaveFailed id key (e ∷ rest) = Concerns id e × (revives key e ≡ false) × LeaveFailed id key rest

-- A stored session with a failed step, and how often its client was told that the code was sent.
record IsBroken (id : String) (key : StepKey) (n : ℕ) (w : World) : Type 0 where
  pub session : Session
  pub found : get_by_id id w.db.sessions ≡ some session
  pub step : failed_at id key w.db.steps ≡ true
  pub not_sent : code_sent_count id w.trace ≡ n

-- Such a session with the status failed, whose client was told so.
record IsFailed (id : String) (key : StepKey) (n : ℕ) (w : World) : Type 0 where
  pub broken : IsBroken id key n w
  pub status : broken.session.status ≡ SessionStatus.failed
  pub told : 1 ≤ failed_count id w.trace

module _ (env : Env) (id : String) (key : StepKey) (n : ℕ) where
  sets-IsBroken :
      (other : StepKey) (st : StepStatus) (w : World)
      → (same_key key other && not (step_failed st)) ≡ false
      → IsBroken id key n w
      → IsBroken id key n (after w (sets id other st) env)
  unfolding apply
  sets-IsBroken other st w keep t = record {
    session = t.session;
    found = t.found;
    step = failed_at-update_step (env.clock w.calls) id key other st w.db.steps keep t.step;
    not_sent = t.not_sent;
  }

  compensated-IsFailed :
      (now : ℕ) (w : World) (x : Result (Unit {0}) × World)
      → IsBroken id key n w
      → IsCompensated id now w x
      → IsFailed id key n x.1
  unfolding apply
  compensated-IsFailed now w x t c = record {
    broken = record {
      session = record t.session { status = SessionStatus.failed; updated_at = now };
      found =
          ap (λ db. get_by_id id db.sessions) c.db
          ∙ get_by_id-set_status now id SessionStatus.failed w.db.sessions t.session t.found;
      step = ap (λ db. failed_at id key db.steps) c.db ∙ t.step;
      not_sent = c.not_sent ∙ t.not_sent;
    };
    status = refl;
    told = omega (arith, c.told);
  }

  next-IsFailed : (w : World) → IsFailed id key n w → IsFailed id key n (next w)
  next-IsFailed w t = record {
    broken = record {
      session = t.broken.session;
      found = t.broken.found;
      step = t.broken.step;
      not_sent = t.broken.not_sent;
    };
    status = t.status;
    told = t.told;
  }

module _ {env : Env} {render : Payload → String} {body : Notification → String} (q : IsQuiet env)
    (d : Delivers env render body) (synced : env.reconciles ≡ true) (id : String) (key : StepKey)
    (n : ℕ) where
  advance-IsFailed :
      (payload : Option String) (w : World)
      → IsBroken id key n w
      → IsFailed id key n (advance env id payload w).1
  unfolding apply
  advance-IsFailed payload w t =
      let w1 = after w (λ now. reconcile now id) env in
      let (now, c, e) =
        advance-failed q d synced id payload t.session w t.found
          (failed_at-any_failed id key w.db.steps t.step) in
      let t1 : IsBroken id key n w1 = record {
        session = _;
        found = get_by_id-set_status (env.clock w.calls) id _ w.db.sessions t.session t.found;
        step = t.step;
        not_sent = t.not_sent;
      } in
      subst (IsFailed id key n) (sym e) (
        next-IsFailed env id key n (advanced q d synced id w)
          (compensated-IsFailed env id key n now w1 (ok tt, advanced q d synced id w) t1 c))

  compensate-IsFailed :
      (user_id reason : String) (w : World)
      → IsBroken id key n w
      → IsFailed id key n (compensate_registration_failure env id user_id reason w).1
  compensate-IsFailed user_id reason w t =
      compensated-IsFailed env id key n (env.clock (suc w.calls)) w
        (compensate_registration_failure env id user_id reason w) t
        (compensate-quiet q d id user_id reason t.session w t.found
          (get_by_id-session_id id w.db.sessions t.found))

  user-fails :
      (r : UserCreateResult) (w : World)
      → (r.session_id == "") ≡ false
      → (r.status == "success") ≡ false
      → handle_user_create_result env r w
        ≡ compensate_registration_failure env r.session_id r.user_id r.error
            (after w (sets r.session_id user_create_profile StepStatus.failed) env)
  unfolding handle_user_create_result ◌>>=◌ handle resume Steps.update_status
  user-fails r w named bad = simp (named, bad, write-quiet q)

  auth-fails :
      (r : AuthCreatePendingResult) (w : World)
      → (r.session_id == "") ≡ false
      → (r.status == "success") ≡ false
      → handle_auth_create_pending_result env r w
        ≡ compensate_registration_failure env r.session_id r.user_id r.error
            (after w (sets r.session_id auth_create_pending StepStatus.failed) env)
  unfolding handle_auth_create_pending_result ◌>>=◌ handle resume Steps.update_status
  auth-fails r w named bad = simp (named, bad, write-quiet q)

  mail-fails :
      (r : MailSendResult) (w : World)
      → (r.session_id == "") ≡ false
      → (r.status == "success") ≡ false
      → handle_mail_send_result env r w
        ≡ compensate_registration_failure env r.session_id r.user_id r.error
            (after w (sets r.session_id mail_send_verification_code StepStatus.failed) env)
  unfolding handle_mail_send_result ◌>>=◌ handle resume Steps.update_status
  mail-fails r w named bad = simp (named, bad, write-quiet q)
