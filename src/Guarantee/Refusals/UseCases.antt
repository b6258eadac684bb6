-- ===== src/Guarantee/Refusals/UseCases.antt =====
-- internal/application: the errors of the use cases after the tests of their parameters.
use ofm_registration_saga_se.Prelude.{
  ℕ, zero, suc, String, Bool, Option, none, some, List, [], ◌∷◌, refl,
}
use ofm_registration_saga_se.Domain.{Error, Session, Step, StartRegistrationResult}
use ofm_registration_saga_se.Exec.Raises.{
  Raises, Raises-pure, Raises-raise, Raises-bind, Raises-handle, Raises-if,
}
use ofm_registration_saga_se.World.{Env, Saga, StartInput, Notification, RealtimeStatus}
use ofm_registration_saga_se.Application.Mapper.{marshalled}
use ofm_registration_saga_se.Application.Realtime.{
  publish_encoded, publish_registration_notification,
}
use ofm_registration_saga_se.Application.Progress.{
  Scan, after_scan, some_failed, all_completed, waiting, deactivate, report_failure,
  compensate_registration_failure, sync_by_listing, sync_by_reconciler, sync_session_status,
}
use ofm_registration_saga_se.Application.Start.{
  or_uuid, is_not_found, if_exists, or_else, lookup_incomplete_conflict, lookup_completed_conflict,
  lookup_start_conflict, create_start_session, create_steps, create_start_steps, hashed,
  hash_start_password, begin, unless_conflict,
}
use ofm_registration_saga_se.Application.VerifyEmail.{
  refreshed, begin_verification, verify_session, claimed_status,
}
use ofm_registration_saga_se.Guarantee.Refusals.{
  IsFault, fault_rules, create_step-Faults, list-Faults, set_session-Faults,
}

module _ (env : Env) where
  -- The rest of Start, after the parameters are tested.
  pub or_uuid-Faults : (id : String) → Raises IsFault (or_uuid env id)
  unfolding or_uuid
  or_uuid-Faults id = search fault_rules depth 6

  if_exists-Faults : (m : Saga Session) → Raises IsFault m → Raises IsFault (if_exists m)
  unfolding if_exists
  if_exists-Faults m h =
      Raises-handle IsFault m _ _ h
        (λ e k. Raises-if (is_not_found e) _ _ (Raises-pure none) (Raises-raise e k))
        (λ s. Raises-pure (some s))

  or_else-Faults :
      {A : Type 0} (o : Option A) (m : Saga (Option A))
      → Raises IsFault m
      → Raises IsFault (or_else o m)
  unfolding or_else
  or_else-Faults (some a) m h = Raises-pure (some a)
  or_else-Faults none m h = h

  pub lookup-Faults :
      (email username : String) → Raises IsFault (lookup_start_conflict env email username)
  unfolding lookup_start_conflict lookup_incomplete_conflict lookup_completed_conflict
  lookup-Faults email username = search (fault_rules, if_exists-Faults, or_else-Faults) depth 9

  create_steps-Faults : (ps : List Step) → Raises IsFault (create_steps env ps)
  unfolding create_steps
  create_steps-Faults [] = Raises-pure tt
  create_steps-Faults (p ∷ rest) =
      Raises-bind _ _ (create_step-Faults env p) (λ _. create_steps-Faults rest)

  hashed-Faults : (o : Option String) → Raises IsFault (hashed env o)
  unfolding hashed
  hashed-Faults none = Raises-raise _ refl
  hashed-Faults (some h) = Raises-pure h

  begin-Faults : (input : StartInput) → Raises IsFault (begin env input)
  unfolding begin create_start_session create_start_steps hash_start_password
  begin-Faults input =
      search (fault_rules, or_uuid-Faults, create_steps-Faults, hashed-Faults) depth 12

  pub unless_conflict-Faults :
      (o : Option StartRegistrationResult) (input : StartInput)
      → Raises IsFault (unless_conflict env o input)
  unfolding unless_conflict
  unless_conflict-Faults (some c) input = Raises-pure c
  unless_conflict-Faults none input = begin-Faults input

  marshalled-Faults : (e : Error) (o : Option String) → IsFault e → Raises IsFault (marshalled e o)
  unfolding marshalled
  marshalled-Faults e none h = Raises-raise e h
  marshalled-Faults e (some p) h = Raises-pure p

  publish_encoded-Faults :
      (n : Notification) (o : Option String) → Raises IsFault (publish_encoded env n o)
  unfolding publish_encoded
  publish_encoded-Faults n none = Raises-pure tt
  publish_encoded-Faults n (some body) = search fault_rules depth 6

  notification-Faults :
      (s : Session) (event : String) (st : RealtimeStatus) (code : String) (retry : Option Bool)
      (payload : Option String)
      → Raises IsFault (publish_registration_notification env s event st code retry payload)
  unfolding publish_registration_notification
  notification-Faults s event st code retry payload =
      Raises-if env.has_realtime _ _ (publish_encoded-Faults _ _) (Raises-pure tt)

  report_failure-Faults :
      (s : Session) (reason : String) → Raises IsFault (report_failure env s reason)
  unfolding report_failure
  report_failure-Faults s reason = search (fault_rules, notification-Faults) depth 8

  deactivate-Faults :
      (user_id : String) (rest : Saga (Unit {0}))
      → Raises IsFault rest
      → Raises IsFault (deactivate env user_id rest)
  unfolding deactivate
  deactivate-Faults user_id rest h = search fault_rules depth 8

  compensate-Faults :
      (id user_id reason : String)
      → Raises IsFault (compensate_registration_failure env id user_id reason)
  unfolding compensate_registration_failure
  compensate-Faults id user_id reason =
      search (fault_rules, report_failure-Faults, deactivate-Faults) depth 9

  after_scan-Faults :
      (c : Scan) (f d a : Saga (Unit {0}))
      → Raises IsFault f
      → Raises IsFault d
      → Raises IsFault a
      → Raises IsFault (after_scan c f d a)
  unfolding after_scan
  after_scan-Faults some_failed f d a kf kd ka = kf
  after_scan-Faults all_completed f d a kf kd ka = kd
  after_scan-Faults waiting f d a kf kd ka = ka

  sync_by_listing-Faults : (left : ℕ) (id : String) → Raises IsFault (sync_by_listing env left id)
  unfolding sync_by_listing
  sync_by_listing-Faults zero id = Raises-pure tt
  sync_by_listing-Faults (suc left) id = Raises-bind _ _ (list-Faults env id) λ steps.
      after_scan-Faults _ _ _ _ (compensate-Faults _ _ _) (set_session-Faults env _ _)
        (sync_by_listing-Faults left id)

  sync-Faults : (id : String) → Raises IsFault (sync_session_status env id)
  unfolding sync_session_status sync_by_reconciler
  sync-Faults id = search (fault_rules, compensate-Faults, sync_by_listing-Faults) depth 9

  refreshed-Faults : (s : Session) → Raises IsFault (refreshed env s)
  unfolding refreshed
  refreshed-Faults s = search (fault_rules, sync-Faults) depth 8

  begin_verification-Faults :
      (s : Session) (code : String) → Raises IsFault (begin_verification env s code)
  unfolding begin_verification
  begin_verification-Faults s code = search fault_rules depth 10

  pub verify_session-Faults :
      (s : Session) (code : String) → Raises IsFault (verify_session env s code)
  unfolding verify_session
  verify_session-Faults s code = Raises-if _ _ _ (Raises-pure _) (
      Raises-bind _ _ (refreshed-Faults s)
        λ s'. Raises-if _ _ _ (begin_verification-Faults s' code) (Raises-raise _ refl))

  pub claimed_status-Faults : (s : Session) → Raises IsFault (claimed_status env s)
  unfolding claimed_status
  claimed_status-Faults s = search fault_rules depth 8
