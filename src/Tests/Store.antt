-- ===== src/Tests/Store.antt =====
-- The statements of the repositories at concrete tables.
use ofm_registration_saga_se.Prelude.{◌+◌, ◌≤◌, List, [], ◌∷◌, ◌≡◌, refl, true, inl, inr}
use ofm_registration_saga_se.Domain.{
  SessionStatus, StepStatus, user_create_profile, mail_send_verification_code,
}
use ofm_registration_saga_se.Store.{Db, reconciled, get_by_key, same_step, update_step}
use ofm_registration_saga_se.Store.Statement.{
  Stmt, update_session, claim_completed, reconcile, update_step_status, run, apply,
}
use ofm_registration_saga_se.Store.Claims.{claims, completions, claimable, claims-le-completions}
use ofm_registration_saga_se.Store.Reconcile.{
  any_failed, every_completed, verdict, reconciled-eq-verdict,
}
use ofm_registration_saga_se.Store.StepOrder.{is_done, is_done-run}
use ofm_registration_saga_se.Store.Abstract.{view, Runs}
use ofm_registration_saga_se.Store.Abstract.Refines.{run-Runs}
use ofm_registration_saga_se.Tests.Fixtures.{tables, tables-IsConsistent}

abbrev twice_claimed : List Stmt
twice_claimed =
    update_session 2 "s1" SessionStatus.completed
    ∷ claim_completed 3 "s1"
    ∷ claim_completed 4 "s1"
    ∷ []

claims-le-completions_example :
    claims "s1" twice_claimed tables ≤ completions "s1" twice_claimed + claimable "s1" tables
claims-le-completions_example = claims-le-completions "s1" twice_claimed tables

reconciled-eq-verdict_example :
    reconciled "s1" tables
    ≡ verdict (any_failed "s1" tables.steps) (every_completed "s1" tables.steps)
reconciled-eq-verdict_example = reconciled-eq-verdict "s1" tables

reconciled_waits : reconciled "s1" tables ≡ SessionStatus.in_progress
unfolding reconciled
reconciled_waits = refl

abbrev mailed : Db
mailed =
    run (update_step_status 5 "s1" mail_send_verification_code StepStatus.completed ∷ []) tables

abbrev late : List Stmt
late =
    update_step_status 6 "s1" mail_send_verification_code StepStatus.in_progress
    ∷ reconcile 7 "s1"
    ∷ update_step_status 8 "s1" user_create_profile StepStatus.failed
    ∷ []

mailed-is_done : is_done "s1" mail_send_verification_code mailed ≡ true
unfolding run apply update_step get_by_key same_step
mailed-is_done = refl

is_done-run_example : is_done "s1" mail_send_verification_code (run late mailed) ≡ true
is_done-run_example =
    is_done-run "s1" mail_send_verification_code late mailed (inr refl, (tt, (inl refl, tt)))
      mailed-is_done

run-Runs_example : Runs late (view tables) (view (run late tables))
run-Runs_example = run-Runs late tables tables-IsConsistent
