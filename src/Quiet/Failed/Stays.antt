-- ===== src/Quiet/Failed/Stays.antt =====
-- internal/application/service.go: a registration that a service has failed stays failed, when every
-- call succeeds and no one interferes.
use ofm_registration_saga_se.Prelude.{
  ℕ, ◌≤◌, String, Bool, true, false, not, ◌&&◌, ◌||◌, none, some, List, [], ◌∷◌, ◌≡◌, refl, subst,
  arith, ◌==◌, inl, inr, Bool-cases, suc,
}
use ofm_registration_saga_se.Domain.{
  Session, SessionStatus, StepKey, StepStatus, user_create_profile, auth_create_pending,
  mail_send_verification_code, same_key, step_failed,
}
use ofm_registration_saga_se.Store.{get_by_id, has_step, update_step}
use ofm_registration_saga_se.Store.Failing.{failed_at, failed_at-fails}
use ofm_registration_saga_se.Store.StepOrder.{same_key-eq}
use ofm_registration_saga_se.Store.Statement.{apply}
use ofm_registration_saga_se.World.{published, Env, World, Payload, Notification}
use ofm_registration_saga_se.History.{
  Event, starts, verifies, asks_status, runs, user_result, auth_result, mail_result, serve,
  serve_all,
}
use ofm_registration_saga_se.Guarantee.Notified.{code_sent_count}
use ofm_registration_saga_se.Quiet.{IsQuiet, Delivers}
use ofm_registration_saga_se.Quiet.Progress.{after, user-quiet, auth-quiet, mail-quiet, sent}
use ofm_registration_saga_se.Quiet.OnTrack.{sets}
use ofm_registration_saga_se.Quiet.CodeSent.{reports}
use ofm_registration_saga_se.Quiet.Compensated.{failed_count}
use ofm_registration_saga_se.Quiet.Failed.{
  Concerns, revives, LeaveFailed, IsBroken, IsFailed, sets-IsBroken, advance-IsFailed,
  compensate-IsFailed, user-fails, auth-fails, mail-fails,
}

-- Whether a report is one of failure.
abbrev pub fails : Event → Bool
fails (user_result r) = not (r.status == "success")
fails (auth_result r) = not (r.status == "success")
fails (mail_result r) = not (r.status == "success")
fails _ = false

other_step : (b : Bool) → b ≡ false → (b && not (step_failed StepStatus.completed)) ≡ false
other_step b h = ground arith

moved_step : (b : Bool) → b ≡ false → (b && not (step_failed StepStatus.in_progress)) ≡ false
moved_step b h = ground arith

failed_step : (b : Bool) → (b && not (step_failed StepStatus.failed)) ≡ false
failed_step b = ground arith

negated : (b : Bool) → not b ≡ true → b ≡ false
negated b h = ground arith

neither : (a b : Bool) → (a || b) ≡ false → (a ≡ false) × (b ≡ false)
neither a b h = (ground arith, ground arith)

published-IsBroken :
    (id : String) (key : StepKey) (n : ℕ) (topic value : String) (m : ℕ) (w : World)
    → IsBroken id key n w
    → IsBroken id key n (record w { calls = m; trace = published topic value ∷ w.trace })
unfolding code_sent_count
published-IsBroken id key n topic value m w t = record {
  session = t.session;
  found = t.found;
  step = t.step;
  not_sent = omega (arith, t.not_sent);
}

module _ {env : Env} {render : Payload → String} {body : Notification → String} (q : IsQuiet env)
    (d : Delivers env render body) (synced : env.reconciles ≡ true) (id : String)
    (named : (id == "") ≡ false) (key : StepKey) (n : ℕ) where
  serve-IsFailed :
      (e : Event) (w : World)
      → Concerns id e
      → revives key e ≡ false
      → IsBroken id key n w
      → IsFailed id key n (serve env e w)
  unfolding serve apply
  serve-IsFailed (user_result r) w h g t = elim (Bool-cases (r.status == "success")) [
    | inl good ↦
        rw (serve, user-quiet q d synced r w (rw h named) good, h)
          (advance-IsFailed q d synced id key n none _ (
            sets-IsBroken env id key n user_create_profile StepStatus.completed w
              (other_step (same_key key user_create_profile) (rw good at g)) t))
    | inr bad ↦
        rw (serve, user-fails q d synced id key n r w (rw h named) bad, h)
          (compensate-IsFailed q d synced id key n r.user_id r.error _ (
            sets-IsBroken env id key n user_create_profile StepStatus.failed w
              (failed_step (same_key key user_create_profile)) t))
  ]
  serve-IsFailed (auth_result r) w h g t = elim (Bool-cases (r.status == "success")) [
    | inl good ↦
        let (not_auth, not_mail) =
          neither (same_key key auth_create_pending) (same_key key mail_send_verification_code)
            (rw good at g) in
        rw (serve, auth-quiet q d synced r w (rw h named) good, h)
          (advance-IsFailed q d synced id key n none _ (
            sets-IsBroken env id key n mail_send_verification_code StepStatus.in_progress _
              (moved_step (same_key key mail_send_verification_code) not_mail)
              (sets-IsBroken env id key n auth_create_pending StepStatus.completed w
                (other_step (same_key key auth_create_pending) not_auth) t)))
    | inr bad ↦
        rw (serve, auth-fails q d synced id key n r w (rw h named) bad, h)
          (compensate-IsFailed q d synced id key n r.user_id r.error _ (
            sets-IsBroken env id key n auth_create_pending StepStatus.failed w
              (failed_step (same_key key auth_create_pending)) t))
  ]
  serve-IsFailed (mail_result r) w h g t = elim (Bool-cases (r.status == "success")) [
    | inl good ↦
        let w1 = after w (sets id mail_send_verification_code StepStatus.completed) env in
        let topic = env.cfg.registration_code_sent_subject in
        let value = sent q d synced (record r { session_id = id }) (suc w.calls) in
        rw (serve, mail-quiet q d synced r w (rw h named) good, h)
          (advance-IsFailed q d synced id key n (some value) _ (
            published-IsBroken id key n topic value (suc (suc (suc w.calls))) w1 (
              sets-IsBroken env id key n mail_send_verification_code StepStatus.completed w
                (other_step (same_key key mail_send_verification_code) (rw good at g)) t)))
    | inr bad ↦
        rw (serve, mail-fails q d synced id key n r w (rw h named) bad, h)
          (compensate-IsFailed q d synced id key n r.user_id r.error _ (
            sets-IsBroken env id key n mail_send_verification_code StepStatus.failed w
              (failed_step (same_key key mail_send_verification_code)) t))
  ]
  serve-IsFailed (starts _) w h g t = elim h [ ]
  serve-IsFailed (verifies _) w h g t = elim h [ ]
  serve-IsFailed (asks_status _ _) w h g t = elim h [ ]
  serve-IsFailed (runs _) w h g t = elim h [ ]

  serve_all-IsFailed :
      (rs : List Event) (w : World)
      → LeaveFailed id key rs
      → IsFailed id key n w
      → IsFailed id key n (serve_all env rs w)
  unfolding serve_all
  serve_all-IsFailed [] w h t = t
  serve_all-IsFailed (e ∷ rest) w h t =
      serve_all-IsFailed rest (serve env e w) h.2 (serve-IsFailed e w h.0 h.1 t.broken)

module _ {env : Env} {render : Payload → String} {body : Notification → String} (q : IsQuiet env)
    (d : Delivers env render body) (synced : env.reconciles ≡ true) (id : String)
    (named : (id == "") ≡ false) (key : StepKey) where
  failing-IsBroken :
      (other : StepKey) (s : Session) (w : World)
      → same_key key other ≡ true
      → get_by_id id w.db.sessions ≡ some s
      → has_step id key w.db.steps ≡ true
      → IsBroken id key (code_sent_count id w.trace) (after w (sets id other StepStatus.failed) env)
  unfolding apply
  failing-IsBroken other s w this found has = record {
    session = s;
    found = found;
    step =
        subst
          (λ k.
            failed_at id key (update_step (env.clock w.calls) id k StepStatus.failed w.db.steps)
            ≡ true)
          (same_key-eq key other this) (failed_at-fails (env.clock w.calls) id key w.db.steps has);
    not_sent = refl;
  }

  first-IsFailed :
      (e : Event) (s : Session) (w : World)
      → Concerns id e
      → reports e key ≡ true
      → fails e ≡ true
      → get_by_id id w.db.sessions ≡ some s
      → has_step id key w.db.steps ≡ true
      → IsFailed id key (code_sent_count id w.trace) (serve env e w)
  unfolding serve
  first-IsFailed (user_result r) s w h this f found has =
      rw
        (
          serve,
          user-fails q d synced id key 0 r w (rw h named) (negated (r.status == "success") f),
          h,
        )
        (compensate-IsFailed q d synced id key (code_sent_count id w.trace) r.user_id r.error _
          (failing-IsBroken user_create_profile s w this found has))
  first-IsFailed (auth_result r) s w h this f found has =
      rw
        (
          serve,
          auth-fails q d synced id key 0 r w (rw h named) (negated (r.status == "success") f),
          h,
        )
        (compensate-IsFailed q d synced id key (code_sent_count id w.trace) r.user_id r.error _
          (failing-IsBroken auth_create_pending s w this found has))
  first-IsFailed (mail_result r) s w h this f found has =
      rw
        (
          serve,
          mail-fails q d synced id key 0 r w (rw h named) (negated (r.status == "success") f),
          h,
        )
        (compensate-IsFailed q d synced id key (code_sent_count id w.trace) r.user_id r.error _
          (failing-IsBroken mail_send_verification_code s w this found has))
  first-IsFailed (starts _) s w h this f found has = elim h [ ]
  first-IsFailed (verifies _) s w h this f found has = elim h [ ]
  first-IsFailed (asks_status _ _) s w h this f found has = elim h [ ]
  first-IsFailed (runs _) s w h this f found has = elim h [ ]

  -- Once the user, auth or mail service has reported that its step of a stored session failed, the
  -- session is failed and its client has been told so, and so it is after any further reports on
  -- the session, of success or failure, in any order, of which none is a success that revives the
  -- step; its client is not told anew that the code was sent.
  pub failure-stays :
      (e : Event) (rs : List Event) (s : Session) (w : World)
      → Concerns id e
      → reports e key ≡ true
      → fails e ≡ true
      → get_by_id id w.db.sessions ≡ some s
      → has_step id key w.db.steps ≡ true
      → LeaveFailed id key rs
      → (let w' = serve_all env (e ∷ rs) w in
          (t : Session) × (get_by_id id w'.db.sessions ≡ some t)
          × (t.status ≡ SessionStatus.failed)
          × (1 ≤ failed_count id w'.trace)
          × (code_sent_count id w'.trace ≡ code_sent_count id w.trace))
  unfolding serve_all
  failure-stays e rs s w h this f found has leave =
      let end =
        serve_all-IsFailed q d synced id named key (code_sent_count id w.trace) rs (serve env e w)
          leave (first-IsFailed e s w h this f found has) in
      (end.broken.session, end.broken.found, end.status, end.told, end.broken.not_sent)
