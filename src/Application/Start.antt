-- ===== src/Application/Start.antt =====
-- start.go, Start of service.go and its conflict lookups
use Prim.Native.String.{len}
use ofm_registration_saga_se.Prelude.Text.{trim_space}
use ofm_registration_saga_se.Prelude.{
  String, Bool, true, false, not, Option, none, some, List, [], ◌∷◌, ◌==◌, ltb, if◌then◌else◌,
}
use ofm_registration_saga_se.Domain.{
  Error, Session, Step, SessionStatus, StepStatus, user_create_profile, auth_create_pending,
  mail_send_verification_code, StartRegistrationParams, StartRegistrationResult, status_text,
  session_not_found, invalid_email, invalid_username, invalid_password, hash_password,
}
use ofm_registration_saga_se.Exec.{pure, raise, handle, ◌>>=◌, ◌>>◌}
use ofm_registration_saga_se.World.{Env, Saga, StartInput, dispatch_start, draw, ask, spawn}
use ofm_registration_saga_se.Repository.Sessions
use ofm_registration_saga_se.Repository.Steps
use ofm_registration_saga_se.Application.Mapper.{
  to_incomplete_conflict_result, to_completed_conflict_result,
}

unfoldable pub trimmed : StartRegistrationParams → StartInput
trimmed params = record {
  session_id = trim_space params.session_id;
  email = trim_space params.email;
  username = trim_space params.username;
  password = trim_space params.password;
  client_id = trim_space params.client_id;
  user_id = trim_space params.user_id;
  first_name = trim_space params.first_name;
  surname = trim_space params.surname;
}

-- A blank identifier is drawn anew.
unfoldable pub or_uuid : Env → String → Saga String
or_uuid env id = if id == "" then draw env.uuid else pure id

unfoldable pub is_not_found : Error → Bool
is_not_found session_not_found = true
is_not_found _ = false

-- err != nil && err != domain.ErrSessionNotFound
unfoldable pub if_exists : Saga Session → Saga (Option Session)
unfolding is_not_found
if_exists m = handle m (λ e. if is_not_found e then pure none else raise e) (λ s. pure (some s))

unfoldable pub or_else : {A : Type 0} → Option A → Saga (Option A) → Saga (Option A)
or_else (some a) m = pure (some a)
or_else none m = m

module _ (env : Env) where
  unfoldable pub normalize_start_input : StartRegistrationParams → Saga StartInput
  normalize_start_input params =
      let input = trimmed params in
      if not (env.parses_address input.email)
      then raise invalid_email
      else if input.username == ""
      then raise invalid_username
      else if ltb (len input.password) 8
      then raise invalid_password
      else do client_id ← or_uuid env input.client_id; pure (record input { client_id = client_id })

  unfoldable pub lookup_incomplete_conflict :
      String → String → Saga (Option StartRegistrationResult)
  lookup_incomplete_conflict email username = do
    email_session ← if_exists (Sessions.get_by_email env email)
    username_session ← if_exists (Sessions.get_by_username env username)
    pure (to_incomplete_conflict_result email_session username_session)

  unfoldable pub lookup_completed_conflict : String → String → Saga (Option StartRegistrationResult)
  lookup_completed_conflict email username = do
    email_taken ← ask env
    username_taken ← ask env
    pure (to_completed_conflict_result email_taken username_taken)

  unfoldable pub lookup_start_conflict : String → String → Saga (Option StartRegistrationResult)
  lookup_start_conflict email username = do
    incomplete ← lookup_incomplete_conflict email username
    or_else incomplete (lookup_completed_conflict email username)

  unfoldable pub create_start_session : StartInput → Saga Session
  create_start_session input = do
    session_id ← or_uuid env input.session_id
    user_id ← or_uuid env input.user_id
    Sessions.create env (record {
      session_id = session_id;
      client_id = input.client_id;
      user_id = user_id;
      email = input.email;
      username = input.username;
      status = SessionStatus.started;
      created_at = 0;
      updated_at = 0;
    })

  unfoldable pub create_steps : List Step → Saga (Unit {0})
  create_steps [] = pure tt
  create_steps (p ∷ rest) = do Steps.create env p; create_steps rest

  abbrev pub new_step : String → StepStatus → Step
  new_step session_id status = record {
    session_id = session_id;
    step_key = user_create_profile;
    status = status;
    created_at = 0;
    updated_at = 0;
  }

  unfoldable pub create_start_steps : String → Saga (Unit {0})
  create_start_steps session_id =
      let p = new_step session_id StepStatus.pending in
      create_steps (
        p
        ∷ record p { step_key = auth_create_pending }
        ∷ record p { step_key = mail_send_verification_code }
        ∷ [])

  unfoldable pub hashed : Option String → Saga String
  hashed none = raise hash_password
  hashed (some h) = pure h

  -- bcrypt.GenerateFromPassword
  unfoldable pub hash_start_password : String → Saga String
  hash_start_password password = do h ← draw (λ n. env.hash n password); hashed h

  unfoldable pub begin : StartInput → Saga StartRegistrationResult
  begin input = do
    session ← create_start_session input
    create_start_steps session.session_id
    password_hash ← hash_start_password input.password
    spawn (dispatch_start session input password_hash)
    pure (record {
      session_id = session.session_id;
      client_id = session.client_id;
      user_id = session.user_id;
      status = status_text session.status;
      conflict_state = "";
      username_taken = false;
      email_taken = false;
    })

  unfoldable pub unless_conflict :
      Option StartRegistrationResult → StartInput → Saga StartRegistrationResult
  unless_conflict (some c) input = pure c
  unless_conflict none input = begin input

  unfoldable pub start : StartRegistrationParams → Saga StartRegistrationResult
  start params = do
    input ← normalize_start_input params
    conflict ← lookup_start_conflict input.email input.username
    unless_conflict conflict input
