-- ===== src/Quiet/Start.antt =====
-- Start of internal/application/service.go when every call succeeds and no one interferes.
use native.Mathlib.Numerals.{towards_suc}
use Prim.Native.String.{len}
use ofm_registration_saga_se.Prelude.{
  ℕ, suc, ◌+◌, String, true, false, Option, none, some, [], ◌∷◌, ◌++◌, ◌∙◌, ◌≡◌, refl, ◌==◌, ltb,
  if◌then◌else◌, eq_refl,
}
use ofm_registration_saga_se.Domain.{
  Session, Step, SessionStatus, StepStatus, StartRegistrationParams, StartRegistrationResult,
  StepKey, user_create_profile, auth_create_pending, mail_send_verification_code, status_text,
}
use ofm_registration_saga_se.Exec.{Result, ok, pure, raise, handle, resume, ◌>>=◌}
use ofm_registration_saga_se.Store
use ofm_registration_saga_se.Store.{
  Db, clashes, latest, newer, insert_session, insert_step, has_step, same_step,
}
use ofm_registration_saga_se.World.{Env, World, StartInput, draw, ask, query, spawn, dispatch_start}
use ofm_registration_saga_se.Repository.Sessions
use ofm_registration_saga_se.Repository.Steps
use ofm_registration_saga_se.Store.Statement.{apply, create_session, create_step, run}
use ofm_registration_saga_se.Application.Mapper.{
  to_incomplete_conflict_result, to_completed_conflict_result, taken, conflict,
}
use ofm_registration_saga_se.Application.Start.{
  trimmed, or_uuid, is_not_found, if_exists, or_else, normalize_start_input,
  lookup_incomplete_conflict, lookup_completed_conflict, lookup_start_conflict,
  create_start_session, create_steps, create_start_steps, hash_start_password, hashed, begin,
  unless_conflict, start,
}
use ofm_registration_saga_se.Quiet.{IsQuiet, query-quiet, write-quiet, next}

module _ {env : Env} (q : IsQuiet env) where
  pub ask-quiet : (w : World) → ask env w ≡ (ok (env.answer w.calls), next w)
  unfolding ask
  ask-quiet w = query-quiet q (λ _. ok (env.answer w.calls)) w

  found_quiet :
      (o : Option Session) (w : World)
      → resume
          (Sessions.found o)
          (λ e. if is_not_found e then pure none else raise e)
          (λ s. pure (some s))
          w
        ≡ (ok o, w)
  unfolding resume pure is_not_found
  found_quiet none w = refl
  found_quiet (some s) w = refl

  lookup-quiet :
      (f : Db → Option Session) (w : World)
      → if_exists (query env (λ db. Sessions.found (f db))) w ≡ (ok (f w.db), next w)
  unfolding if_exists handle
  lookup-quiet f w =
      rw (query-quiet q (λ db. Sessions.found (f db)) w) (found_quiet (f w.db) (next w))

  pub email-quiet :
      (v : String) (w : World)
      → if_exists (Sessions.get_by_email env v) w
        ≡ (ok (Store.get_by_email v w.db.sessions), next w)
  unfolding Sessions.get_by_email
  email-quiet v w = lookup-quiet (λ db. Store.get_by_email v db.sessions) w

  pub username-quiet :
      (v : String) (w : World)
      → if_exists (Sessions.get_by_username env v) w
        ≡ (ok (Store.get_by_username v w.db.sessions), next w)
  unfolding Sessions.get_by_username
  username-quiet v w = lookup-quiet (λ db. Store.get_by_username v db.sessions) w

-- What Start asks of its parameters, and that the client's identifier is given and the session's and
-- the user's are not. A gRPC request names neither of these two; for a blank client see Quiet/Client.
pub record IsAcceptable (env : Env) (input : StartInput) : Type 0 where
  pub parsed : env.parses_address input.email ≡ true
  pub named : (input.username == "") ≡ false
  pub long : ltb (len input.password) 8 ≡ false
  pub of_client : (input.client_id == "") ≡ false
  pub no_session : (input.session_id == "") ≡ true
  pub no_user : (input.user_id == "") ≡ true

-- The row that Start asks to be created.
abbrev pub new_session : Env → StartInput → ℕ → Session
new_session env input n = record {
  session_id = env.uuid n;
  client_id = input.client_id;
  user_id = env.uuid (suc n);
  email = input.email;
  username = input.username;
  status = SessionStatus.started;
  created_at = 0;
  updated_at = 0;
}

-- The three steps that Start asks to be created.
abbrev pub pending_step : String → StepKey → Step
pending_step id key = record {
  session_id = id;
  step_key = key;
  status = StepStatus.pending;
  created_at = 0;
  updated_at = 0;
}

-- The session of a registration, as it is stored and handed to the goroutine.
abbrev pub stored_session : Env → StartInput → ℕ → Session
stored_session env input n = record (new_session env input n) {
  created_at = env.clock (n + 2);
  updated_at = env.clock (n + 2);
}

-- The answer, and the world, after a registration was accepted whose first call of its own is
-- number `w.calls`.
abbrev pub accepted : Env → StartInput → String → World → Result StartRegistrationResult × World
accepted env input hash w = (
  ok (record {
    session_id = env.uuid w.calls;
    client_id = input.client_id;
    user_id = env.uuid (suc w.calls);
    status = "started";
    conflict_state = "";
    username_taken = false;
    email_taken = false;
  }),
  record w {
    db =
        run
          (create_session (env.clock (w.calls + 2)) (new_session env input w.calls)
            ∷ create_step (env.clock (w.calls + 3))
                (pending_step (env.uuid w.calls) user_create_profile)
            ∷ create_step (env.clock (w.calls + 4))
                (pending_step (env.uuid w.calls) auth_create_pending)
            ∷ create_step (env.clock (w.calls + 5))
                (pending_step (env.uuid w.calls) mail_send_verification_code)
            ∷ [])
          w.db;
    calls = w.calls + 7;
    tasks = w.tasks ++ dispatch_start (stored_session env input w.calls) input hash ∷ [];
  },
)

module _ {env : Env} (q : IsQuiet env) where
  begin-accepted :
      (input : StartInput) (hash : String) (w : World)
      → (input.session_id == "") ≡ true
      → (input.user_id == "") ≡ true
      → clashes (new_session env input w.calls) w.db.sessions ≡ false
      → ((key : StepKey) → has_step (env.uuid w.calls) key w.db.steps ≡ false)
      → env.hash (w.calls + 6) input.password ≡ some hash
      → begin env input w ≡ accepted env input hash w
  unfolding or_uuid begin create_start_session create_start_steps create_steps hash_start_password
      hashed ◌>>=◌ handle resume pure raise draw spawn Sessions.create Steps.create insert_session
      insert_step has_step same_step apply run status_text
  begin-accepted input hash w no_session no_user free fresh hashes =
      let hashes' = simp towards_suc at hashes in
      simp (no_session, no_user, write-quiet q, free, fresh, hashes', towards_suc, eq_refl)

  start-begin :
      (params : StartRegistrationParams) (w : World)
      → (let input = trimmed params in
          IsAcceptable env input
          → Store.get_by_email input.email w.db.sessions ≡ none
          → Store.get_by_username input.username w.db.sessions ≡ none
          → env.answer (w.calls + 2) ≡ false
          → env.answer (w.calls + 3) ≡ false
          → start env params w ≡ begin env input (record w { calls = w.calls + 4 }))
  unfolding start normalize_start_input or_uuid lookup_start_conflict lookup_incomplete_conflict
      lookup_completed_conflict or_else unless_conflict ◌>>=◌ handle resume pure raise
      to_incomplete_conflict_result to_completed_conflict_result taken conflict
  start-begin params w ok_input no_email no_username a2 a3 =
      let b2 : env.answer (suc (suc w.calls)) ≡ false = simp towards_suc at a2 in
      let b3 : env.answer (suc (suc (suc w.calls))) ≡ false = simp towards_suc at a3 in
      simp (
        ok_input.parsed,
        ok_input.named,
        ok_input.long,
        ok_input.of_client,
        email-quiet q,
        username-quiet q,
        ask-quiet q,
        no_email,
        no_username,
        b2,
        b3,
        towards_suc,
      )

  -- An acceptable registration that names its client but neither its session nor its user, of an
  -- email and a username that no session has and that the auth and user services call free, under
  -- ids and with steps that are not in use, stores a session and its three pending steps, answers "started", and leaves one goroutine, which is to dispatch
  -- the commands with the hash of the password; nothing is published yet.
  pub start-accepted :
      (params : StartRegistrationParams) (hash : String) (w : World)
      → IsAcceptable env (trimmed params)
      → Store.get_by_email (trimmed params).email w.db.sessions ≡ none
      → Store.get_by_username (trimmed params).username w.db.sessions ≡ none
      → env.answer (w.calls + 2) ≡ false
      → env.answer (w.calls + 3) ≡ false
      → clashes (new_session env (trimmed params) (w.calls + 4)) w.db.sessions ≡ false
      → ((key : StepKey) → has_step (env.uuid (w.calls + 4)) key w.db.steps ≡ false)
      → env.hash (w.calls + 4 + 6) (trimmed params).password ≡ some hash
      → start env params w ≡ accepted env (trimmed params) hash (record w { calls = w.calls + 4 })
  start-accepted params hash w ok_input no_email no_username a2 a3 free fresh hashes =
      start-begin params w ok_input no_email no_username a2 a3
      ∙ begin-accepted (trimmed params) hash (record w { calls = w.calls + 4 }) ok_input.no_session
          ok_input.no_user free fresh hashes
