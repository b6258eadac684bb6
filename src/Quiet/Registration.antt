-- ===== src/Quiet/Registration.antt =====
-- internal/application: a registration from its request to the code that was sent, when every call
-- succeeds and no one interferes.
use ofm_registration_saga_se.Prelude.{
  ℕ, ◌+◌, String, Bool, true, false, none, some, List, [], ◌∷◌, ◌++◌, ◌≡◌, refl, sym, ap, subst,
  ◌∙◌, arith, ◌==◌, eq_refl,
}
use ofm_registration_saga_se.Domain.{
  Session, Step, SessionStatus, StepKey, StartRegistrationParams, user_create_profile,
  auth_create_pending, mail_send_verification_code,
}
use ofm_registration_saga_se.Store.{
  Db, get_by_id, get_by_email, get_by_username, clashes, insert_session, has_step, same_step,
  insert_step,
}
use ofm_registration_saga_se.Store.StepOrder.{same_key_refl}
use ofm_registration_saga_se.Store.Outstanding.{all_but, all_but-in_progress, get_by_id-set_status}
use ofm_registration_saga_se.Store.Statement.{create_session, create_step, apply, run}
use ofm_registration_saga_se.World.{Env, World, Payload, Notification, dispatch_start}
use ofm_registration_saga_se.Application.Realtime.{contains}
use ofm_registration_saga_se.Application.Start.{trimmed}
use ofm_registration_saga_se.Application.Dispatch.{dispatch_start_commands}
use ofm_registration_saga_se.Application.VerifyEmail.{run_task}
use ofm_registration_saga_se.History.{Event, starts, runs, pick, run_picked, serve, serve_all}
use ofm_registration_saga_se.Guarantee.Notified.{code_sent_count, as_number}
use ofm_registration_saga_se.Quiet.{IsQuiet, Delivers}
use ofm_registration_saga_se.Quiet.Start.{
  IsAcceptable, accepted, new_session, stored_session, pending_step, start-accepted,
}
use ofm_registration_saga_se.Quiet.Dispatch.{dispatch_lem}
use ofm_registration_saga_se.Quiet.OnTrack.{IsOnTrack}
use ofm_registration_saga_se.Quiet.CodeSent.{
  AllSucceed, reported_by, is_start_key, results-code_sent,
}

all_but-absent :
    (outstanding : StepKey → Bool) (id : String) (l : List Step)
    → ((key : StepKey) → has_step id key l ≡ false)
    → all_but outstanding id l ≡ true
unfolding all_but has_step same_step
all_but-absent outstanding id [] h = refl
all_but-absent outstanding id (p ∷ rest) h =
    let other : (p.session_id == id) ≡ false =
      ground (arith, h p.step_key, same_key_refl p.step_key) in
    rw other (all_but-absent outstanding id rest (λ key. rw other at (h key)))

-- The tables after Start, for the session `s` of a registration.
module _ (c1 c2 c3 c4 : ℕ) (s : Session) where
  abbrev pub created : Db → Db
  created db =
      run
        (create_session c1 s
          ∷ create_step c2 (pending_step s.session_id user_create_profile)
          ∷ create_step c3 (pending_step s.session_id auth_create_pending)
          ∷ create_step c4 (pending_step s.session_id mail_send_verification_code)
          ∷ [])
        db

  created-all_but :
      (db : Db)
      → clashes s db.sessions ≡ false
      → ((key : StepKey) → has_step s.session_id key db.steps ≡ false)
      → all_but is_start_key s.session_id (created db).steps ≡ true
  unfolding run apply insert_session insert_step has_step same_step all_but
  created-all_but db free fresh =
      simp (free, fresh, eq_refl, all_but-absent is_start_key s.session_id db.steps fresh)

  pub created-found :
      (db : Db)
      → clashes s db.sessions ≡ false
      → ((key : StepKey) → has_step s.session_id key db.steps ≡ false)
      → get_by_id s.session_id (created db).sessions
        ≡ some (record s { created_at = c1; updated_at = c1 })
  unfolding run apply insert_session insert_step has_step same_step get_by_id
  created-found db free fresh = simp (free, fresh, eq_refl)

-- The session id that Start draws.
abbrev pub drawn : Env → World → String
drawn env w = env.uuid (w.calls + 4)

-- A registration that Start accepts, which names its client only, under an id that is not in use, with no goroutine waiting.
pub record IsNew (env : Env) (params : StartRegistrationParams) (hash : String) (w : World)
    : Type 0 where
  pub acceptable : IsAcceptable env (trimmed params)
  pub no_email : get_by_email (trimmed params).email w.db.sessions ≡ none
  pub no_username : get_by_username (trimmed params).username w.db.sessions ≡ none
  pub email_free : env.answer (w.calls + 2) ≡ false
  pub username_free : env.answer (w.calls + 3) ≡ false
  pub free : clashes (new_session env (trimmed params) (w.calls + 4)) w.db.sessions ≡ false
  pub fresh : (key : StepKey) → has_step (drawn env w) key w.db.steps ≡ false
  pub hashes : env.hash (w.calls + 4 + 6) (trimmed params).password ≡ some hash
  pub named : (drawn env w == "") ≡ false
  pub told_each :
      code_sent_count (drawn env w) w.trace ≡ as_number (contains (drawn env w) w.notified)
  pub idle : w.tasks ≡ []

module _ {env : Env} {render : Payload → String} {body : Notification → String} (q : IsQuiet env)
    (d : Delivers env render body) where
  -- The world in which the goroutine of Start runs.
  abbrev pub begun : StartRegistrationParams → String → World → World
  begun params hash w =
      record (accepted env (trimmed params) hash (record w { calls = w.calls + 4 })).1 {
        tasks = [];
      }

  abbrev pub dispatched : StartRegistrationParams → String → World → World
  dispatched params hash w =
      (dispatch_start_commands env (stored_session env (trimmed params) (w.calls + 4))
        (trimmed params) hash (begun params hash w)).1

  pub serve-started :
      (params : StartRegistrationParams) (hash : String) (rs : List Event) (w : World)
      → IsNew env params hash w
      → serve_all env (starts params ∷ runs 0 ∷ rs) w ≡ serve_all env rs (dispatched params hash w)
  unfolding serve_all serve pick run_picked run_task
  serve-started params hash rs w h =
      ap (λ x. serve_all env rs (run_picked env (pick 0 x.1.tasks) x.1))
        (start-accepted q params hash w h.acceptable h.no_email h.no_username h.email_free
          h.username_free h.free h.fresh h.hashes)
      ∙ ap
          (λ tasks.
            let left =
              tasks
              ++ dispatch_start (stored_session env (trimmed params) (w.calls + 4)) (trimmed params)
                  hash
                ∷ [] in
            serve_all env rs (
              run_picked env (pick 0 left)
                (record (accepted env (trimmed params) hash (record w { calls = w.calls + 4 })).1 {
                  tasks = left;
                })))
          h.idle

  pub dispatched-IsOnTrack :
      (params : StartRegistrationParams) (hash : String) (w : World)
      → IsNew env params hash w
      → IsOnTrack is_start_key (drawn env w) (dispatched params hash w)
  unfolding run apply code_sent_count
  dispatched-IsOnTrack params hash w h =
      let id = drawn env w in
      let s = new_session env (trimmed params) (w.calls + 4) in
      let n = w.calls + 4 in
      subst (IsOnTrack is_start_key id)
        (sym (
          ap (λ x. x.1)
            (dispatch_lem q d (stored_session env (trimmed params) n) (trimmed params) hash
              (begun params hash w))))
        (record {
          session = _;
          found = get_by_id-set_status _ id SessionStatus.in_progress _ _ (
              created-found (env.clock (n + 2)) (env.clock (n + 3)) (env.clock (n + 4))
                (env.clock (n + 5)) s w.db h.free h.fresh);
          steps = all_but-in_progress is_start_key _ id auth_create_pending _ (
              all_but-in_progress is_start_key _ id user_create_profile _ (
                created-all_but (env.clock (n + 2)) (env.clock (n + 3)) (env.clock (n + 4))
                  (env.clock (n + 5)) s w.db h.free h.fresh));
          told_each = omega (arith, h.told_each);
        })

  -- Start with parameters that it accepts, under an id that is not in use and with no goroutine
  -- waiting before, the goroutine that it leaves, and the reports of the user, auth and mail
  -- services that their step of the session succeeded, in whatever order and however often they
  -- come, lead to a stored session with the status code_sent, whose client was told exactly once.
  pub registration-code_sent :
      (synced : env.reconciles ≡ true) (params : StartRegistrationParams) (hash : String)
      (rs : List Event) (w : World)
      → IsNew env params hash w
      → AllSucceed (drawn env w) rs
      → reported_by rs user_create_profile ≡ true
      → reported_by rs auth_create_pending ≡ true
      → reported_by rs mail_send_verification_code ≡ true
      → (let w' = serve_all env (starts params ∷ runs 0 ∷ rs) w in
          (s : Session) × (get_by_id (drawn env w) w'.db.sessions ≡ some s)
          × (s.status ≡ SessionStatus.code_sent)
          × (code_sent_count (drawn env w) w'.trace ≡ 1))
  registration-code_sent synced params hash rs w h all u a m =
      rw (serve-started params hash rs w h) (
        results-code_sent q d synced (drawn env w) rs (dispatched params hash w) h.named all u a m
          (dispatched-IsOnTrack params hash w h))
