-- ===== src/Quiet/Unverified.antt =====
-- internal/application/service.go: sessions whose code is still to be checked, while the results of
-- the user, auth and mail services come in, when every call succeeds and no one interferes.
use ofm_registration_saga_se.Prelude.{
  suc, String, Bool, true, false, not, ◌&&◌, Option, none, some, List, [], ◌∷◌, ◌≡◌, ◌∙◌, ◌==◌,
}
use ofm_registration_saga_se.Domain.{
  StepKey, StepStatus, user_create_profile, auth_create_pending, mail_send_verification_code,
  verify_email_code, activate_user, is_code_sent,
}
use ofm_registration_saga_se.Store.{has_step, reconciled}
use ofm_registration_saga_se.Store.Keys.{has_step-update_step}
use ofm_registration_saga_se.Store.Statement.{apply, reconcile}
use ofm_registration_saga_se.Store.Outstanding.{without, all_but-any_failed}
use ofm_registration_saga_se.World.{published, Env, World, Payload, Notification}
use ofm_registration_saga_se.Application.Realtime.{contains}
use ofm_registration_saga_se.Application.Results.{advance}
use ofm_registration_saga_se.History.{
  Event, starts, verifies, asks_status, runs, user_result, auth_result, mail_result, serve,
  serve_all,
}
use ofm_registration_saga_se.Quiet.{IsQuiet, Delivers}
use ofm_registration_saga_se.Quiet.Progress.{
  after, told, advance-told, user-quiet, auth-quiet, mail-quiet, sent,
}
use ofm_registration_saga_se.Quiet.OnTrack.{
  IsOnTrack, sets, completed-IsOnTrack, in_progress-IsOnTrack, published-IsOnTrack,
}
use ofm_registration_saga_se.Quiet.CodeSent.{Succeeds, AllSucceed, reports, serve-IsOnTrack}

-- No goroutine is waiting, and no step of the session is one that VerifyEmail creates.
pub record IsUnverified (id : String) (w : World) : Type 0 where
  pub idle : w.tasks ≡ []
  pub no_check : has_step id verify_email_code w.db.steps ≡ false
  pub no_activation : has_step id activate_user w.db.steps ≡ false

sets-IsUnverified :
    (env : Env) (id : String) (key : StepKey) (st : StepStatus) (w : World)
    → IsUnverified id w
    → IsUnverified id (after w (sets id key st) env)
unfolding apply
sets-IsUnverified env id key st w h = record {
  idle = h.idle;
  no_check =
      has_step-update_step (env.clock w.calls) id key st id verify_email_code w.db.steps
      ∙ h.no_check;
  no_activation =
      has_step-update_step (env.clock w.calls) id key st id activate_user w.db.steps
      ∙ h.no_activation;
}

told-IsUnverified :
    (id : String) (payload : Option String) (b k : Bool) (w : World)
    → IsUnverified id w
    → IsUnverified id (told id payload b k w)
told-IsUnverified id payload false k w h = record {
  idle = h.idle;
  no_check = h.no_check;
  no_activation = h.no_activation;
}
told-IsUnverified id payload true true w h = record {
  idle = h.idle;
  no_check = h.no_check;
  no_activation = h.no_activation;
}
told-IsUnverified id payload true false w h = record {
  idle = h.idle;
  no_check = h.no_check;
  no_activation = h.no_activation;
}

module _ {env : Env} {render : Payload → String} {body : Notification → String} (q : IsQuiet env)
    (d : Delivers env render body) (synced : env.reconciles ≡ true) where
  advance-IsUnverified :
      (outstanding : StepKey → Bool) (id : String) (payload : Option String) (w : World)
      → IsOnTrack outstanding id w
      → IsUnverified id w
      → IsUnverified id (advance env id payload w).1
  unfolding apply
  advance-IsUnverified outstanding id payload w t h =
      rw
        (advance-told q d synced id payload t.session w t.found
          (all_but-any_failed outstanding id w.db.steps t.steps))
        (told-IsUnverified id payload (is_code_sent (reconciled id w.db)) (contains id w.notified)
          (after w (λ now. reconcile now id) env)
          (record { idle = h.idle; no_check = h.no_check; no_activation = h.no_activation }))

  serve-IsUnverified :
      (outstanding : StepKey → Bool) (id : String) (e : Event) (w : World)
      → (id == "") ≡ false
      → Succeeds id e
      → IsOnTrack outstanding id w
      → IsUnverified id w
      → IsUnverified id (serve env e w)
  unfolding serve apply
  serve-IsUnverified outstanding id (user_result r) w named g t h =
      rw (serve, user-quiet q d synced r w (rw g.0 named) g.1, g.0)
        (advance-IsUnverified (without outstanding user_create_profile) id none
          (after w (sets id user_create_profile StepStatus.completed) env)
          (completed-IsOnTrack env outstanding id user_create_profile w t)
          (sets-IsUnverified env id user_create_profile StepStatus.completed w h))
  serve-IsUnverified outstanding id (auth_result r) w named g t h =
      let w1 = after w (sets id auth_create_pending StepStatus.completed) env in
      rw (serve, auth-quiet q d synced r w (rw g.0 named) g.1, g.0)
        (advance-IsUnverified (without outstanding auth_create_pending) id none
          (after w1 (sets id mail_send_verification_code StepStatus.in_progress) env)
          (in_progress-IsOnTrack env (without outstanding auth_create_pending) id
            mail_send_verification_code w1
            (completed-IsOnTrack env outstanding id auth_create_pending w t))
          (sets-IsUnverified env id mail_send_verification_code StepStatus.in_progress w1
            (sets-IsUnverified env id auth_create_pending StepStatus.completed w h)))
  serve-IsUnverified outstanding id (mail_result r) w named g t h =
      let w1 = after w (sets id mail_send_verification_code StepStatus.completed) env in
      let left = without outstanding mail_send_verification_code in
      let topic = env.cfg.registration_code_sent_subject in
      let value = sent q d synced (record r { session_id = id }) (suc w.calls) in
      let n = suc (suc (suc w.calls)) in
      let u = sets-IsUnverified env id mail_send_verification_code StepStatus.completed w h in
      rw (serve, mail-quiet q d synced r w (rw g.0 named) g.1, g.0)
        (advance-IsUnverified left id (some value)
          (record w1 { calls = n; trace = published topic value ∷ w.trace })
          (published-IsOnTrack left id topic value n w1
            (completed-IsOnTrack env outstanding id mail_send_verification_code w t))
          (record { idle = u.idle; no_check = u.no_check; no_activation = u.no_activation }))
  serve-IsUnverified outstanding id (starts _) w named g t h = elim g [ ]
  serve-IsUnverified outstanding id (verifies _) w named g t h = elim g [ ]
  serve-IsUnverified outstanding id (asks_status _ _) w named g t h = elim g [ ]
  serve-IsUnverified outstanding id (runs _) w named g t h = elim g [ ]

  -- Reports of success leave a session unverified.
  pub serve_all-IsUnverified :
      (outstanding : StepKey → Bool) (id : String) (rs : List Event) (w : World)
      → (id == "") ≡ false
      → AllSucceed id rs
      → IsOnTrack outstanding id w
      → IsUnverified id w
      → IsUnverified id (serve_all env rs w)
  unfolding serve_all
  serve_all-IsUnverified outstanding id [] w named g t h = h
  serve_all-IsUnverified outstanding id (e ∷ rest) w named g t h =
      serve_all-IsUnverified (λ k. outstanding k && not (reports e k)) id rest (serve env e w) named
        g.1 (serve-IsOnTrack q d synced outstanding id e w named g.0 t).0
        (serve-IsUnverified outstanding id e w named g.0 t h)
