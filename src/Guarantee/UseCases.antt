-- ===== src/Guarantee/UseCases.antt =====
-- The relation of an `IsKeptThroughout`, through every use case and goroutine.
use ofm_registration_saga_se.Prelude.{String, Option, none, some, List, [], ◌∷◌}
use ofm_registration_saga_se.Domain.{
  Session, Step, StartRegistrationParams, StartRegistrationResult, VerifyEmailParams,
}
use ofm_registration_saga_se.Exec.Moves.{Moves, Moves-bind, moves_rules}
use ofm_registration_saga_se.World.{
  Env, World, Saga, StartInput, Task, dispatch_start, complete_verification,
}
use ofm_registration_saga_se.Application.Start.{
  or_uuid, if_exists, or_else, normalize_start_input, lookup_incomplete_conflict,
  lookup_completed_conflict, lookup_start_conflict, create_start_session, create_steps,
  create_start_steps, hashed, hash_start_password, begin, unless_conflict, start,
}
use ofm_registration_saga_se.Application.VerifyEmail.{
  refreshed, begin_verification, verify_session, verify_email, claimed_status,
  get_registration_status, run_task,
}
use ofm_registration_saga_se.Guarantee.{IsKeptThroughout}
use ofm_registration_saga_se.Guarantee.Calls.{create_step-Moves, call_rules}
use ofm_registration_saga_se.Guarantee.Progress.{sync-Moves, dispatch-Moves}

module _ {env : Env} {R : World → World → Type 0} (k : IsKeptThroughout env R) where
  or_uuid-Moves : (id : String) → Moves R (or_uuid env id)
  unfolding or_uuid
  or_uuid-Moves id = search (moves_rules, k.kept.preorder, k.kept.draw_moves)

  if_exists-Moves : (m : Saga Session) → Moves R m → Moves R (if_exists m)
  unfolding if_exists
  if_exists-Moves m h = search (moves_rules, k.kept.preorder) depth 8

  or_else-Moves :
      {A : Type 0} (o : Option A) (m : Saga (Option A)) → Moves R m → Moves R (or_else o m)
  unfolding or_else
  or_else-Moves (some a) m h = search (moves_rules, k.kept.preorder)
  or_else-Moves none m h = h

  normalize-Moves : (q : StartRegistrationParams) → Moves R (normalize_start_input env q)
  unfolding normalize_start_input
  normalize-Moves q = search (moves_rules, k.kept.preorder, or_uuid-Moves) depth 9

  lookup_conflict-Moves :
      (email username : String) → Moves R (lookup_start_conflict env email username)
  unfolding lookup_start_conflict lookup_incomplete_conflict lookup_completed_conflict
  lookup_conflict-Moves email username =
      search (call_rules, k.kept, k.kept.preorder, if_exists-Moves, or_else-Moves) depth 9

  create_steps-Moves : (ps : List Step) → Moves R (create_steps env ps)
  unfolding create_steps
  create_steps-Moves [] = search (moves_rules, k.kept.preorder)
  create_steps-Moves (p ∷ rest) =
      Moves-bind k.kept.preorder _ _ (create_step-Moves k.kept p) (λ _. create_steps-Moves rest)

  hashed-Moves : (o : Option String) → Moves R (hashed env o)
  unfolding hashed
  hashed-Moves none = search (moves_rules, k.kept.preorder)
  hashed-Moves (some h) = search (moves_rules, k.kept.preorder)

  begin-Moves : (input : StartInput) → Moves R (begin env input)
  unfolding begin create_start_session create_start_steps hash_start_password
  begin-Moves input =
      search
        (
          call_rules, k.kept, k.kept.preorder, k.kept.draw_moves, k.spawn_moves, or_uuid-Moves,
          create_steps-Moves, hashed-Moves,
        )
        depth 12

  unless_conflict-Moves :
      (o : Option StartRegistrationResult) (input : StartInput)
      → Moves R (unless_conflict env o input)
  unfolding unless_conflict
  unless_conflict-Moves (some c) input = search (moves_rules, k.kept.preorder)
  unless_conflict-Moves none input = begin-Moves input

  pub start-Moves : (q : StartRegistrationParams) → Moves R (start env q)
  unfolding start
  start-Moves q =
      search
        (
          moves_rules, k.kept.preorder, normalize-Moves, lookup_conflict-Moves,
          unless_conflict-Moves,
        )
        depth 8

  refreshed-Moves : (s : Session) → Moves R (refreshed env s)
  unfolding refreshed
  refreshed-Moves s = search (call_rules, k.kept, k.kept.preorder, sync-Moves)

  begin_verification-Moves : (s : Session) (code : String) → Moves R (begin_verification env s code)
  unfolding begin_verification
  begin_verification-Moves s code =
      search (call_rules, k.kept, k.kept.preorder, k.spawn_moves) depth 9

  verify_session-Moves : (s : Session) (code : String) → Moves R (verify_session env s code)
  unfolding verify_session
  verify_session-Moves s code =
      search (moves_rules, k.kept.preorder, refreshed-Moves, begin_verification-Moves) depth 8

  pub verify_email-Moves : (q : VerifyEmailParams) → Moves R (verify_email env q)
  unfolding verify_email
  verify_email-Moves q = search (call_rules, k.kept, k.kept.preorder, verify_session-Moves) depth 9

  claimed_status-Moves : (s : Session) → Moves R (claimed_status env s)
  unfolding claimed_status
  claimed_status-Moves s = search (call_rules, k.kept, k.kept.preorder) depth 8

  pub get_status-Moves :
      (session_id client_id : String) → Moves R (get_registration_status env session_id client_id)
  unfolding get_registration_status
  get_status-Moves session_id client_id =
      search (call_rules, k.kept, k.kept.preorder, claimed_status-Moves) depth 9

  pub run_task-Moves : (t : Task) → Moves R (run_task env t)
  unfolding run_task
  run_task-Moves (dispatch_start s input hash) = dispatch-Moves k.kept s input hash
  run_task-Moves (complete_verification s code) = k.complete_moves s code
