-- ===== src/Quiet/Verification.antt =====
-- internal/application/verify_email.go: the verification of a code from the request to the end of
-- its goroutine, when every call succeeds and no one interferes.
use ofm_registration_saga_se.Prelude.{
  ℕ, suc, ◌+◌, String, true, false, some, [], ◌∷◌, ◌≡◌, refl, sym, ap, subst, ◌∙◌, ◌==◌, eq_refl,
}
use ofm_registration_saga_se.Prelude.Text.{trim_space}
use ofm_registration_saga_se.Domain.{
  Session, SessionStatus, StepStatus, VerifyEmailParams, verify_email_code, activate_user,
}
use ofm_registration_saga_se.Exec.{pure, handle, resume, ◌>>=◌}
use ofm_registration_saga_se.Store.{get_by_id, has_step, same_step, insert_step, set_status}
use ofm_registration_saga_se.Store.Identity.{get_by_id-session_id, sessions-insert_step}
use ofm_registration_saga_se.Store.Outstanding.{get_by_id-set_status}
use ofm_registration_saga_se.Store.Statement.{
  create_step, update_session, update_step_status, apply, run, or_same,
}
use ofm_registration_saga_se.World.{Env, World, complete_verification, spawn, Payload, Notification}
use ofm_registration_saga_se.Repository.Sessions
use ofm_registration_saga_se.Repository.Steps
use ofm_registration_saga_se.Application.VerifyEmail.{
  verify_email, verify_session, refreshed, begin_verification, verify_step, run_task,
  complete_email_verification,
}
use ofm_registration_saga_se.History.{verifies, runs, pick, run_picked, serve, serve_all}
use ofm_registration_saga_se.Quiet.{IsQuiet, next, query-quiet, write-quiet, Delivers}
use ofm_registration_saga_se.Quiet.Completion.{completion_trace, complete_lem}

-- A request that VerifyEmail accepts for the session `s`, whose code was sent and not yet checked,
-- with no goroutine waiting.
pub record IsVerifiable (p : VerifyEmailParams) (s : Session) (w : World) : Type 0 where
  pub has_session : (trim_space p.session_id == "") ≡ false
  pub has_client : (trim_space p.client_id == "") ≡ false
  pub has_code : (trim_space p.code == "") ≡ false
  pub found : get_by_id (trim_space p.session_id) w.db.sessions ≡ some s
  pub owned : (s.client_id == trim_space p.client_id) ≡ true
  pub status : s.status ≡ SessionStatus.code_sent
  pub no_check : has_step s.session_id verify_email_code w.db.steps ≡ false
  pub no_activation : has_step s.session_id activate_user w.db.steps ≡ false
  pub idle : w.tasks ≡ []

-- The world after the verification has begun.
abbrev verifying : Env → Session → String → World → World
verifying env s code w = record w {
  db =
      run
        (create_step (env.clock w.calls)
            (verify_step env s.session_id verify_email_code StepStatus.in_progress)
          ∷ create_step (env.clock (suc w.calls))
              (verify_step env s.session_id activate_user StepStatus.pending)
          ∷ update_session (env.clock (suc (suc w.calls))) s.session_id
              SessionStatus.verifying_email
          ∷ [])
        w.db;
  calls = suc (suc (suc w.calls));
  tasks = complete_verification s code ∷ [];
}

module _ {env : Env} (q : IsQuiet env) where
  -- A session whose code was sent is verified.
  verify_session-quiet :
      (s : Session) (code : String) (w : World)
      → s.status ≡ SessionStatus.code_sent
      → verify_session env s code w ≡ begin_verification env s code w
  unfolding verify_session refreshed ◌>>=◌ handle resume pure
  verify_session-quiet s code w sent = simp sent

  begin-quiet :
      (s : Session) (code : String) (w : World)
      → has_step s.session_id verify_email_code w.db.steps ≡ false
      → has_step s.session_id activate_user w.db.steps ≡ false
      → w.tasks ≡ []
      → (begin_verification env s code w).1 ≡ verifying env s code w
  unfolding begin_verification Steps.create Sessions.update_status spawn ◌>>=◌ handle resume pure
      insert_step has_step same_step apply run
  begin-quiet s code w no_check no_activation idle =
      simp (write-quiet q, no_check, no_activation, idle, eq_refl)

  verify_email-quiet :
      (p : VerifyEmailParams) (s : Session) (w : World)
      → IsVerifiable p s w
      → (verify_email env p w).1 ≡ verifying env s (trim_space p.code) (next w)
  unfolding verify_email Sessions.get_by_id ◌>>=◌ handle resume pure
  verify_email-quiet p s w h =
      rw (h.has_session, h.has_client, h.has_code, query-quiet q, h.found, h.owned)
        (ap (λ x. x.1) (verify_session-quiet s (trim_space p.code) (next w) h.status)
          ∙ begin-quiet s (trim_space p.code) (next w) h.no_check h.no_activation h.idle)

  verifying-sessions :
      (s : Session) (code : String) (w : World)
      → (verifying env s code w).db.sessions
        ≡ set_status
            (env.clock (suc (suc w.calls)))
            s.session_id
            SessionStatus.verifying_email
            w.db.sessions
  unfolding run apply
  verifying-sessions s code w =
      rw
        (
          sessions-insert_step _ _ (or_same w.db (insert_step _ _ w.db)),
          sessions-insert_step _ _ w.db,
        )
        refl

  found_by_id :
      (p : VerifyEmailParams) (s : Session) (w : World)
      → IsVerifiable p s w
      → get_by_id s.session_id w.db.sessions ≡ some s
  found_by_id p s w h =
      subst (λ id. get_by_id id w.db.sessions ≡ some s)
        (sym (get_by_id-session_id (trim_space p.session_id) w.db.sessions h.found)) h.found

  -- The session at the end of its verification.
  completed-found :
      (s : Session) (code : String) (w : World) (c1 c2 c3 c5 c6 : ℕ)
      → get_by_id s.session_id w.db.sessions ≡ some s
      → (t : Session) × (get_by_id s.session_id
            (run
              (update_step_status c1 s.session_id verify_email_code StepStatus.completed
                ∷ update_session c2 s.session_id SessionStatus.activating_user
                ∷ update_step_status c3 s.session_id activate_user StepStatus.in_progress
                ∷ update_step_status c5 s.session_id activate_user StepStatus.completed
                ∷ update_session c6 s.session_id SessionStatus.completed
                ∷ [])
              (verifying env s code w).db).sessions
          ≡ some t)
        × (t.status ≡ SessionStatus.completed)
  unfolding run apply
  completed-found s code w c1 c2 c3 c5 c6 found =
      let id = s.session_id in
      let begun =
        ap (get_by_id id) (verifying-sessions s code w)
        ∙ get_by_id-set_status (env.clock (suc (suc w.calls))) id SessionStatus.verifying_email
            w.db.sessions s found in
      (
        _,
        get_by_id-set_status c6 id SessionStatus.completed _ _
            (get_by_id-set_status c2 id SessionStatus.activating_user _ _ begun),
        refl,
      )

  -- The world in which the goroutine runs.
  abbrev started_task : Session → String → World → World
  started_task s code w = record (verifying env s code (next w)) { tasks = [] }

  module _ {render : Payload → String} {body : Notification → String}
      (d : Delivers env render body) where
    serve-quiet :
        (p : VerifyEmailParams) (s : Session) (w : World)
        → IsVerifiable p s w
        → serve_all env (verifies p ∷ runs 0 ∷ []) w
          ≡ (complete_email_verification env s
              (trim_space p.code)
              (started_task s (trim_space p.code) w)).1
    unfolding serve_all serve pick run_picked run_task
    serve-quiet p s w h = rw (verify_email-quiet p s w h) refl

    -- VerifyEmail with the code of a stored session whose code was sent and not yet checked, and
    -- the goroutine that it leaves, complete the session: the code is verified, then the user is
    -- activated, then the completion is published and the client told, and no goroutine is left.
    pub verify-completes :
        (p : VerifyEmailParams) (s : Session) (w : World)
        → IsVerifiable p s w
        → (let w' = serve_all env (verifies p ∷ runs 0 ∷ []) w in
            ((t : Session) × (get_by_id s.session_id w'.db.sessions ≡ some t)
              × (t.status ≡ SessionStatus.completed))
            × (w'.trace
                ≡ completion_trace env render s
                    (trim_space p.code)
                    (env.clock (suc (suc (suc (suc w.calls))) + 7))
                    w.trace)
            × (w'.tasks ≡ []))
    verify-completes p s w h =
        rw (serve-quiet p s w h, complete_lem q d s (trim_space p.code))
          (
            completed-found s (trim_space p.code) (next w) _ _ _ _ _ (found_by_id p s w h),
            refl,
            refl,
          )
