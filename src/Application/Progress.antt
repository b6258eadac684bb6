-- ===== src/Application/Progress.antt =====
-- syncSessionStatus and compensateRegistrationFailure of service.go. Logging and metrics are left
-- out: nothing reads them.
use ofm_registration_saga_se.Prelude.{
  ℕ, zero, suc, String, Bool, true, false, some, List, [], ◌∷◌, ◌==◌, if◌then◌else◌,
}
use ofm_registration_saga_se.Domain.{
  Session, Step, SessionStatus, is_failed, step_failed, step_completed,
}
use ofm_registration_saga_se.Exec.{pure, handle, ◌>>=◌, ◌>>◌, ignore}
use ofm_registration_saga_se.World.{
  Env, Saga, RealtimeStatus, published, deactivated_user, deactivated_auth, send,
}
use ofm_registration_saga_se.Repository.Sessions
use ofm_registration_saga_se.Repository.Steps
use ofm_registration_saga_se.Application.Mapper.{to_registration_failed_event_payload}
use ofm_registration_saga_se.Application.Realtime.{
  publish_registration_notification, registration_error_code,
}

module _ (env : Env) where
  -- DeactivateUser and DeactivateRegistrationAuth; a failure of either is only logged.
  unfoldable pub deactivate : String → Saga (Unit {0}) → Saga (Unit {0})
  deactivate user_id rest =
      ignore (send env (deactivated_user user_id))
        (ignore (send env (deactivated_auth user_id)) rest)

  unfoldable pub report_failure : Session → String → Saga (Unit {0})
  report_failure session reason =
      handle (to_registration_failed_event_payload env session reason) (λ _. pure tt)
        (λ payload. ignore (send env (published env.cfg.registration_failed_subject payload)) (
          publish_registration_notification env session "registration.failed" RealtimeStatus.failed
            (registration_error_code reason) (some true) (some payload)))

  unfoldable pub compensate_registration_failure : String → String → String → Saga (Unit {0})
  compensate_registration_failure session_id user_id reason = do
    session ← Sessions.get_by_id env session_id
    Sessions.update_status env session_id SessionStatus.failed
    let user = if user_id == "" then session.user_id else user_id
    if user == ""
        then report_failure session reason
        else deactivate user (report_failure session reason)

-- What the fallback loop finds in a list of steps: a failed step, all completed, or neither.
pub data Scan : Type 0 where
  some_failed all_completed waiting : Scan

unfoldable pub scan : Bool → List Step → Scan
scan all [] = if all then all_completed else waiting
scan all (p ∷ rest) =
    if step_failed p.status
    then some_failed
    else scan (if step_completed p.status then all else false) rest

unfoldable pub after_scan :
    Scan → Saga (Unit {0}) → Saga (Unit {0}) → Saga (Unit {0}) → Saga (Unit {0})
after_scan some_failed failed done again = failed
after_scan all_completed failed done again = done
after_scan waiting failed done again = again

module _ (env : Env) where
  -- The fallback for repositories without ReconcileStatus, with the attempts that are left.
  unfoldable pub sync_by_listing : ℕ → String → Saga (Unit {0})
  sync_by_listing zero session_id = pure tt
  sync_by_listing (suc left) session_id = do
    steps ← Steps.list_by_session_id env session_id
    after_scan (scan true steps)
        (compensate_registration_failure env session_id "" "registration step failed")
        (Sessions.update_status env session_id SessionStatus.code_sent)
        (sync_by_listing left session_id)

  unfoldable pub sync_by_reconciler : String → Saga (Unit {0})
  sync_by_reconciler session_id = do
    status ← Sessions.reconcile_status env session_id
    if is_failed status
        then compensate_registration_failure env session_id "" "registration step failed"
        else pure tt

  unfoldable pub sync_session_status : String → Saga (Unit {0})
  sync_session_status session_id =
      if env.reconciles then sync_by_reconciler session_id else sync_by_listing 3 session_id
