-- ===== src/Guarantee/Refusals.antt =====
-- internal/application: the errors that say that a request is invalid, and who returns them.
pub mod UseCases
pub mod Untouched
use ofm_registration_saga_se.Prelude.{
  ℕ, String, Bool, true, false, Option, none, some, List, [], ◌∷◌, ◌≡◌, refl, if◌then◌else◌,
}
use ofm_registration_saga_se.Domain.{
  Error, external, permanent, Session, Step, SessionStatus, StepStatus, StepKey, session_not_found,
  unique_violation, invalid_session_id, invalid_client_id, invalid_verification_code, invalid_email,
  invalid_username, invalid_password, StartRegistrationResult,
}
use ofm_registration_saga_se.Exec.{Result, ok, err, Exec, pure, raise, handle, ◌>>=◌, ignore}
use ofm_registration_saga_se.Exec.Raises.{
  Fails, Raises, Raises-pure, Raises-raise, Raises-bind, Raises-handle, Raises-if, raises_rules,
}
use ofm_registration_saga_se.Store
use ofm_registration_saga_se.Store.{Db}
use ofm_registration_saga_se.Store.Statement.{Stmt}
use ofm_registration_saga_se.World.{
  Env, World, Saga, Outcome, done, refused, lost, finish, query, write, send, ask, draw, spawn,
  StartInput, Effect, Task,
}
use ofm_registration_saga_se.Repository.Sessions
use ofm_registration_saga_se.Repository.Steps
use ofm_registration_saga_se.Application.Mapper.{
  marshalled, timestamp, to_registration_failed_event_payload,
}
use ofm_registration_saga_se.Application.Realtime.{
  publish_encoded, publish_registration_notification,
}
use ofm_registration_saga_se.Application.Progress.{
  Scan, after_scan, some_failed, all_completed, waiting, deactivate, report_failure,
  compensate_registration_failure, sync_by_listing, sync_by_reconciler, sync_session_status,
}
use ofm_registration_saga_se.Application.Start.{
  or_uuid, is_not_found, if_exists, or_else, lookup_incomplete_conflict, lookup_completed_conflict,
  lookup_start_conflict, create_start_session, create_steps, create_start_steps, hashed,
  hash_start_password, begin, unless_conflict,
}
use ofm_registration_saga_se.Application.VerifyEmail.{
  refreshed, begin_verification, verify_session, claimed_status,
}

-- The errors that call a request invalid, and those that call a message beyond repair.
abbrev pub is_refusal : Error → Bool
is_refusal invalid_session_id = true
is_refusal invalid_client_id = true
is_refusal invalid_verification_code = true
is_refusal invalid_email = true
is_refusal invalid_username = true
is_refusal invalid_password = true
is_refusal (permanent _) = true
is_refusal _ = false

abbrev pub IsFault : Error → Type 0
IsFault e = is_refusal e ≡ false

finish-Fails :
    {A : Type 0} (o : Outcome) (r : Result A) (before after : World)
    → Fails IsFault r
    → Fails IsFault (finish o r before after).0
unfolding finish
finish-Fails done r before after h = h
finish-Fails (refused e) r before after h = refl
finish-Fails (lost e) r before after h = refl

module _ (env : Env) where
  pub query-Faults :
      {A : Type 0} (f : Db → Result A)
      → ((db : Db) → Fails IsFault (f db))
      → Raises IsFault (query env f)
  unfolding query
  query-Faults f h = record { at = λ w. finish-Fails (env.outcome w.calls) _ _ _ (h _) }

  pub write-Faults :
      {A : Type 0} (result : ℕ → Db → Result A) (stmt : ℕ → Stmt)
      → ((now : ℕ) (db : Db) → Fails IsFault (result now db))
      → Raises IsFault (write env result stmt)
  unfolding write
  write-Faults f stmt h = record { at = λ w. finish-Fails (env.outcome w.calls) _ _ _ (h _ _) }

  pub send-Faults : (e : Effect) → Raises IsFault (send env e)
  unfolding send
  send-Faults e = record { at = λ w. finish-Fails (env.outcome w.calls) _ _ _ tt }

  pub draw-Faults : {A : Type 0} (f : ℕ → A) → Raises IsFault (draw f)
  unfolding draw
  draw-Faults f = record { at = λ w. tt }

  pub spawn-Faults : (t : Task) → Raises IsFault (spawn t)
  unfolding spawn
  spawn-Faults t = record { at = λ w. tt }

  pub ask-Faults : Raises IsFault (ask env)
  unfolding ask
  ask-Faults = record { at = λ w. (query-Faults (λ _. ok (env.answer w.calls)) (λ _. tt)).at w }

  found-Fails : (o : Option Session) → Fails IsFault (Sessions.found o)
  found-Fails none = refl
  found-Fails (some s) = tt

  inserted-Fails : {A : Type 0} (a : A) (o : Option Db) → Fails IsFault (Sessions.inserted a o)
  inserted-Fails a none = refl
  inserted-Fails a (some db) = tt

  status-Fails :
      (id : String) (db : Db) (o : Option Session)
      → Fails IsFault (Sessions.status_if_found env id db o)
  status-Fails id db none = refl
  status-Fails id db (some s) = tt

  pub create_session-Faults : (s : Session) → Raises IsFault (Sessions.create env s)
  unfolding Sessions.create
  create_session-Faults s = write-Faults _ _ (λ now db. inserted-Fails _ _)

  pub get_by_id-Faults : (id : String) → Raises IsFault (Sessions.get_by_id env id)
  unfolding Sessions.get_by_id
  get_by_id-Faults id = query-Faults _ (λ db. found-Fails _)

  pub get_by_email-Faults : (v : String) → Raises IsFault (Sessions.get_by_email env v)
  unfolding Sessions.get_by_email
  get_by_email-Faults v = query-Faults _ (λ db. found-Fails _)

  pub get_by_username-Faults : (v : String) → Raises IsFault (Sessions.get_by_username env v)
  unfolding Sessions.get_by_username
  get_by_username-Faults v = query-Faults _ (λ db. found-Fails _)

  pub set_session-Faults :
      (id : String) (st : SessionStatus) → Raises IsFault (Sessions.update_status env id st)
  unfolding Sessions.update_status
  set_session-Faults id st = write-Faults _ _ (λ now db. tt)

  pub claim-Faults : (id : String) → Raises IsFault (Sessions.claim env id)
  unfolding Sessions.claim
  claim-Faults id = write-Faults _ _ (λ now db. tt)

  pub reconcile-Faults : (id : String) → Raises IsFault (Sessions.reconcile_status env id)
  unfolding Sessions.reconcile_status
  reconcile-Faults id = write-Faults _ _ (λ now db. status-Fails id db _)

  pub create_step-Faults : (p : Step) → Raises IsFault (Steps.create env p)
  unfolding Steps.create
  create_step-Faults p = write-Faults _ _ (λ now db. inserted-Fails _ _)

  pub list-Faults : (id : String) → Raises IsFault (Steps.list_by_session_id env id)
  unfolding Steps.list_by_session_id
  list-Faults id = query-Faults _ (λ db. tt)

  pub ruleset fault_rules = (
    raises_rules, send-Faults, draw-Faults, spawn-Faults, ask-Faults, create_session-Faults,
    get_by_id-Faults, get_by_email-Faults, get_by_username-Faults, set_session-Faults, claim-Faults,
    reconcile-Faults, create_step-Faults, list-Faults,
  )
