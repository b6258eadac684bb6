-- ===== src/Quiet/Failed/Revived.antt =====
-- internal/application/service.go: a failure of the mail service is forgotten when the auth service
-- reports success after it.
use ofm_registration_saga_se.Prelude.{
  ℕ, String, Bool, true, false, not, ◌&&◌, ◌||◌, none, some, List, [], ◌∷◌, ◌≡◌, refl, arith, ◌==◌,
  if◌then◌else◌,
}
use ofm_registration_saga_se.Domain.{
  Session, Step, StepKey, StepStatus, auth_create_pending, mail_send_verification_code, same_key,
  step_failed, step_completed, is_failed, is_code_sent,
}
use ofm_registration_saga_se.Store.{get_by_id, same_step, update_step, reconciled}
use ofm_registration_saga_se.Store.Outstanding.{get_by_id-set_status}
use ofm_registration_saga_se.Store.Reconcile.{any_failed}
use ofm_registration_saga_se.Store.Statement.{apply, reconcile}
use ofm_registration_saga_se.World.{Env, World, Payload, Notification}
use ofm_registration_saga_se.Application.Mapper.{AuthCreatePendingResult}
use ofm_registration_saga_se.Application.Realtime.{contains}
use ofm_registration_saga_se.Application.Results.{handle_auth_create_pending_result}
use ofm_registration_saga_se.Quiet.{IsQuiet, Delivers}
use ofm_registration_saga_se.Quiet.Progress.{after, auth-quiet, advance-told, verdict-not-failed}
use ofm_registration_saga_se.Quiet.OnTrack.{sets, told-db}

-- No step of the session but that of one key has failed.
unfoldable pub failed_only : String → StepKey → List Step → Bool
failed_only id key [] = true
failed_only id key (p ∷ rest) =
    (not (p.session_id == id && step_failed p.status) || same_key p.step_key key)
    && failed_only id key rest

completed_row :
    (mine is_key is_other guard failed r r' : Bool)
    → (r ≡ true → r' ≡ true)
    → ((not (mine && failed) || is_key) && r) ≡ true
    → ((not (mine && (if (mine && is_other) && guard then false else failed)) || is_key) && r')
      ≡ true
completed_row mine is_key is_other guard failed r r' f h = ground arith

row-status :
    (now : ℕ) (st : StepStatus) (p : Step) (b : Bool)
    → step_failed (if b then record p { status = st; updated_at = now } else p).status
      ≡ (if b then step_failed st else step_failed p.status)
row-status now st p true = refl
row-status now st p false = refl

row-session_id :
    (now : ℕ) (st : StepStatus) (p : Step) (b : Bool) (id : String)
    → ((if b then record p { status = st; updated_at = now } else p).session_id == id)
      ≡ (p.session_id == id)
row-session_id now st p true id = refl
row-session_id now st p false id = refl

row-key :
    (now : ℕ) (st : StepStatus) (p : Step) (b : Bool) (key : StepKey)
    → same_key (if b then record p { status = st; updated_at = now } else p).step_key key
      ≡ same_key p.step_key key
row-key now st p true key = refl
row-key now st p false key = refl

failed_only-completed :
    (now : ℕ) (id : String) (key other : StepKey) (l : List Step)
    → failed_only id key l ≡ true
    → failed_only id key (update_step now id other StepStatus.completed l) ≡ true
unfolding failed_only update_step same_step
failed_only-completed now id key other [] h = refl
failed_only-completed now id key other (p ∷ rest) h =
    rw
      (
        row-session_id now StepStatus.completed p _ id,
        row-status now StepStatus.completed p _,
        row-key now StepStatus.completed p _ key,
      )
      (completed_row (p.session_id == id) (same_key p.step_key key) (same_key p.step_key other) _
        (step_failed p.status) (failed_only id key rest) _
        (failed_only-completed now id key other rest) h)

restarted_row :
    (mine is_key completed failed r r' : Bool)
    → (failed ≡ true → completed ≡ false)
    → (r ≡ true → r' ≡ false)
    → ((not (mine && failed) || is_key) && r) ≡ true
    → ((mine && (if (mine && is_key) && not (completed && true) then false else failed)) || r')
      ≡ false
restarted_row mine is_key completed failed r r' g f h = ground arith

failed-not-completed : (st : StepStatus) → step_failed st ≡ true → step_completed st ≡ false
failed-not-completed st h = ground arith

any_failed-restarted :
    (now : ℕ) (id : String) (key : StepKey) (l : List Step)
    → failed_only id key l ≡ true
    → any_failed id (update_step now id key StepStatus.in_progress l) ≡ false
unfolding failed_only any_failed update_step same_step
any_failed-restarted now id key [] h = refl
any_failed-restarted now id key (p ∷ rest) h =
    rw (row-session_id now StepStatus.in_progress p _ id, row-status now StepStatus.in_progress p _)
      (restarted_row (p.session_id == id) (same_key p.step_key key) (step_completed p.status)
        (step_failed p.status) (failed_only id key rest) _ (failed-not-completed p.status)
        (any_failed-restarted now id key rest) h)

module _ {env : Env} {render : Payload → String} {body : Notification → String} (q : IsQuiet env)
    (d : Delivers env render body) (synced : env.reconciles ≡ true) where
  -- A success that the auth service reports for a stored session of which no step but that of the
  -- mail service has failed sets the session to a status that is not failed, also if it was failed
  -- and compensated.
  pub late_auth-revives :
      (r : AuthCreatePendingResult) (s : Session) (w : World)
      → (r.session_id == "") ≡ false
      → (r.status == "success") ≡ true
      → get_by_id r.session_id w.db.sessions ≡ some s
      → failed_only r.session_id mail_send_verification_code w.db.steps ≡ true
      → (let w' = (handle_auth_create_pending_result env r w).1 in
          (t : Session) × (get_by_id r.session_id w'.db.sessions ≡ some t)
          × (is_failed t.status ≡ false))
  unfolding apply
  late_auth-revives r s w named good found only =
      let id = r.session_id in
      let w1 = after w (sets id auth_create_pending StepStatus.completed) env in
      let w2 = after w1 (sets id mail_send_verification_code StepStatus.in_progress) env in
      let none_failed =
        any_failed-restarted (env.clock w1.calls) id mail_send_verification_code w1.db.steps (
          failed_only-completed (env.clock w.calls) id mail_send_verification_code
            auth_create_pending w.db.steps only) in
      let w3 = after w2 (λ now. reconcile now id) env in
      rw
        (
          auth-quiet q d synced r w named good,
          advance-told q d synced id none s w2 found none_failed,
          told-db id none (is_code_sent (reconciled id w2.db)) (contains id w2.notified) w3,
        )
        (
          _,
          get_by_id-set_status (env.clock w2.calls) id (reconciled id w2.db) w2.db.sessions s found,
          verdict-not-failed id w2.db none_failed,
        )
