-- ===== src/Quiet/Dispatched.antt =====
-- internal/application/start_dispatch.go: the tables after the goroutine of Start, when every call
-- succeeds and no one interferes.
use ofm_registration_saga_se.Prelude.{
  ℕ, ◌+◌, String, false, some, ◌≡◌, refl, sym, ap, subst, ◌∙◌, eq_refl,
}
use ofm_registration_saga_se.Domain.{
  Session, SessionStatus, StepKey, StepStatus, StartRegistrationParams, user_create_profile,
  auth_create_pending, verify_email_code, activate_user,
}
use ofm_registration_saga_se.Store.{
  Db, get_by_id, clashes, insert_session, has_step, same_step, insert_step,
}
use ofm_registration_saga_se.Store.Keys.{has_step-update_step}
use ofm_registration_saga_se.Store.Outstanding.{get_by_id-set_status}
use ofm_registration_saga_se.Store.Statement.{apply, run}
use ofm_registration_saga_se.World.{Env, World, Payload, Notification}
use ofm_registration_saga_se.Application.Start.{trimmed}
use ofm_registration_saga_se.Quiet.{IsQuiet, Delivers}
use ofm_registration_saga_se.Quiet.Start.{new_session, stored_session}
use ofm_registration_saga_se.Quiet.Dispatch.{dispatch_lem}
use ofm_registration_saga_se.Quiet.CodeSent.{is_start_key}
use ofm_registration_saga_se.Quiet.Registration.{
  created, created-found, IsNew, drawn, begun, dispatched,
}
use ofm_registration_saga_se.Quiet.Unverified.{IsUnverified}

created-unverified :
    (c1 c2 c3 c4 : ℕ) (s : Session) (key : StepKey) (db : Db)
    → is_start_key key ≡ false
    → clashes s db.sessions ≡ false
    → ((k : StepKey) → has_step s.session_id k db.steps ≡ false)
    → has_step s.session_id key (created c1 c2 c3 c4 s db).steps ≡ false
unfolding run apply insert_session insert_step has_step same_step
created-unverified c1 c2 c3 c4 s verify_email_code db other free fresh = simp (free, fresh, eq_refl)
created-unverified c1 c2 c3 c4 s activate_user db other free fresh = simp (free, fresh, eq_refl)
created-unverified c1 c2 c3 c4 s user_create_profile db other free fresh = cc
created-unverified c1 c2 c3 c4 s auth_create_pending db other free fresh = cc
created-unverified c1 c2 c3 c4 s StepKey.mail_send_verification_code db other free fresh = cc

module _ {env : Env} {render : Payload → String} {body : Notification → String} (q : IsQuiet env)
    (d : Delivers env render body) (params : StartRegistrationParams) (hash : String) (w : World)
    (h : IsNew env params hash w) where
  -- The session of the registration is unverified, and it is the client's that asked for it.
  pub dispatched-IsUnverified :
      IsUnverified (drawn env w) (dispatched q d params hash w)
      × ((s : Session) × (get_by_id (drawn env w) (dispatched q d params hash w).db.sessions
            ≡ some s)
          × (s.client_id ≡ (trimmed params).client_id))
  unfolding run apply
  dispatched-IsUnverified =
      let id = drawn env w in
      let s = new_session env (trimmed params) (w.calls + 4) in
      let n = w.calls + 4 in
      let no_step = λ (key : StepKey) (other : is_start_key key ≡ false).
        has_step-update_step (env.clock (n + 7 + 2)) id auth_create_pending StepStatus.in_progress
          id key _
        ∙ has_step-update_step (env.clock (n + 7 + 1)) id user_create_profile StepStatus.in_progress
            id key _
        ∙ created-unverified (env.clock (n + 2)) (env.clock (n + 3)) (env.clock (n + 4))
            (env.clock (n + 5)) s key w.db other h.free h.fresh in
      subst
        (λ (x : World).
          IsUnverified id x
          × ((t : Session) × (get_by_id id x.db.sessions ≡ some t)
              × (t.client_id ≡ (trimmed params).client_id)))
        (sym (
          ap (λ x. x.1)
            (dispatch_lem q d (stored_session env (trimmed params) n) (trimmed params) hash
              (begun q d params hash w))))
        (
          record {
            idle = refl;
            no_check = no_step verify_email_code refl;
            no_activation = no_step activate_user refl;
          },
          (
            _,
            get_by_id-set_status _ id SessionStatus.in_progress _ _ (
                created-found (env.clock (n + 2)) (env.clock (n + 3)) (env.clock (n + 4))
                  (env.clock (n + 5)) s w.db h.free h.fresh),
            refl,
          ),
        )
