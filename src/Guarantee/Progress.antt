-- ===== src/Guarantee/Progress.antt =====
-- The relation of an `IsKept`, through the handlers of results and the goroutines.
use ofm_registration_saga_se.Prelude.{ℕ, zero, suc, String, Option}
use ofm_registration_saga_se.Domain.{Error, Session, verify_email_code, activate_user, StepKey}
use ofm_registration_saga_se.Exec.{handle}
use ofm_registration_saga_se.Exec.Moves.{Moves, Moves-bind, Moves-handle, moves_rules}
use ofm_registration_saga_se.World.{
  Env, World, Saga, StartInput, activated_user, verified_email, send,
}
use ofm_registration_saga_se.Application.Mapper.{
  UserCreateResult, AuthCreatePendingResult, MailSendResult,
}
use ofm_registration_saga_se.Application.Progress.{
  Scan, some_failed, all_completed, waiting, after_scan, deactivate, report_failure,
  compensate_registration_failure, sync_by_listing, sync_by_reconciler, sync_session_status,
}
use ofm_registration_saga_se.Application.Results.{
  advance, handle_user_create_result, handle_auth_create_pending_result, handle_mail_send_result,
}
use ofm_registration_saga_se.Application.Dispatch.{
  mark_start_in_progress, publish_user_create_command, publish_auth_create_command, fail_start_step,
  dispatch_start_commands,
}
use ofm_registration_saga_se.Application.VerifyEmail.{
  fail_email_verification, announce_completion, activate_and_complete, complete_email_verification,
}
use ofm_registration_saga_se.Guarantee.{IsKept}
use ofm_registration_saga_se.Guarantee.Calls.{
  list-Moves, set_session-Moves, set_step-Moves, call_rules,
}

module _ {env : Env} {R : World → World → Type 0} (k : IsKept env R) where
  report_failure-Moves : (s : Session) (reason : String) → Moves R (report_failure env s reason)
  unfolding report_failure
  report_failure-Moves s reason = search (call_rules, k.preorder, k.send_moves, k) depth 8

  deactivate-Moves :
      (user_id : String) (rest : Saga (Unit {0}))
      → Moves R rest
      → Moves R (deactivate env user_id rest)
  unfolding deactivate
  deactivate-Moves user_id rest h = search (call_rules, k.preorder, k.send_moves) depth 8

  compensate-Moves :
      (id user_id reason : String) → Moves R (compensate_registration_failure env id user_id reason)
  unfolding compensate_registration_failure
  compensate-Moves id user_id reason =
      search (call_rules, k, k.preorder, report_failure-Moves, deactivate-Moves) depth 8

  after_scan-Moves :
      (c : Scan) (f d a : Saga (Unit {0}))
      → Moves R f
      → Moves R d
      → Moves R a
      → Moves R (after_scan c f d a)
  unfolding after_scan
  after_scan-Moves some_failed f d a kf kd ka = kf
  after_scan-Moves all_completed f d a kf kd ka = kd
  after_scan-Moves waiting f d a kf kd ka = ka

  sync_by_listing-Moves : (left : ℕ) (id : String) → Moves R (sync_by_listing env left id)
  unfolding sync_by_listing
  sync_by_listing-Moves zero id = search (moves_rules, k.preorder)
  sync_by_listing-Moves (suc left) id = Moves-bind k.preorder _ _ (list-Moves k id) λ steps.
      after_scan-Moves _ _ _ _ (compensate-Moves _ _ _) (set_session-Moves k _ _)
        (sync_by_listing-Moves left id)

  pub sync-Moves : (id : String) → Moves R (sync_session_status env id)
  unfolding sync_session_status sync_by_reconciler
  sync-Moves id =
      search (call_rules, k, k.preorder, compensate-Moves, sync_by_listing-Moves) depth 8

  advance-Moves : (id : String) (payload : Option String) → Moves R (advance env id payload)
  unfolding advance
  advance-Moves id payload = search (call_rules, k, k.preorder, sync-Moves)

  pub handle_user-Moves : (r : UserCreateResult) → Moves R (handle_user_create_result env r)
  unfolding handle_user_create_result
  handle_user-Moves r = search (call_rules, k, k.preorder, sync-Moves, compensate-Moves) depth 9

  pub handle_auth-Moves :
      (r : AuthCreatePendingResult) → Moves R (handle_auth_create_pending_result env r)
  unfolding handle_auth_create_pending_result
  handle_auth-Moves r = search (call_rules, k, k.preorder, sync-Moves, compensate-Moves) depth 9

  pub handle_mail-Moves : (r : MailSendResult) → Moves R (handle_mail_send_result env r)
  unfolding handle_mail_send_result
  handle_mail-Moves r =
      search (call_rules, k, k.preorder, k.send_moves, sync-Moves, compensate-Moves) depth 10

  pub fail_verification-Moves :
      (s : Session) (key : StepKey) (e : Error) → Moves R (fail_email_verification env s key e)
  unfolding fail_email_verification
  fail_verification-Moves s key e = search (call_rules, k, k.preorder, k.send_moves) depth 12

  announce-Moves : (s : Session) → Moves R (announce_completion env s)
  unfolding announce_completion
  announce-Moves s = search (call_rules, k, k.preorder, k.send_moves) depth 8

  or_fail-Moves :
      (s : Session) (key : StepKey) (m rest : Saga (Unit {0}))
      → Moves R m
      → Moves R rest
      → Moves R (handle m (fail_email_verification env s key) (λ _. rest))
  or_fail-Moves s key m rest h g =
      Moves-handle k.preorder m _ _ h (λ e. fail_verification-Moves s key e) (λ _. g)

  pub activate-Moves :
      (s : Session)
      → Moves R (send env (activated_user s.user_id))
      → Moves R (activate_and_complete env s)
  unfolding activate_and_complete
  activate-Moves s activates = or_fail-Moves s verify_email_code _ _ (set_step-Moves k _ _ _) (
      or_fail-Moves s activate_user _ _ (set_session-Moves k _ _) (
        or_fail-Moves s activate_user _ _ (set_step-Moves k _ _ _) (
          or_fail-Moves s activate_user _ _ activates (
            or_fail-Moves s activate_user _ _ (set_step-Moves k _ _ _)
              (or_fail-Moves s activate_user _ _ (set_session-Moves k _ _) (announce-Moves s))))))

  pub complete-Moves :
      (s : Session) (code : String)
      → Moves R (send env (activated_user s.user_id))
      → Moves R (complete_email_verification env s code)
  unfolding complete_email_verification
  complete-Moves s code activates =
      Moves-handle k.preorder _ _ _ (k.send_moves (verified_email s.user_id code) tt)
        (λ e. fail_verification-Moves s verify_email_code e) (λ _. activate-Moves s activates)

  pub dispatch-Moves :
      (s : Session) (input : StartInput) (hash : String)
      → Moves R (dispatch_start_commands env s input hash)
  unfolding dispatch_start_commands mark_start_in_progress publish_user_create_command
      publish_auth_create_command fail_start_step
  dispatch-Moves s input hash = search (call_rules, k, k.preorder, k.send_moves) depth 12
