-- ===== src/Tests/Quiet.antt =====
-- Runs in which every call succeeds.
use ofm_registration_saga_se.Prelude.{some, [], ◌∷◌, ◌≡◌, refl}
use ofm_registration_saga_se.Store.{get_by_id}
use ofm_registration_saga_se.World.{published, StartInput}
use ofm_registration_saga_se.Domain.{
  SessionStatus, StepStatus, verify_email_code, activate_user, user_create_profile,
  auth_create_pending,
}
use ofm_registration_saga_se.Exec.{ok}
use ofm_registration_saga_se.Store.Statement.{apply, run, update_session, update_step_status}
use ofm_registration_saga_se.Application.VerifyEmail.{complete_email_verification}
use ofm_registration_saga_se.Application.Dispatch.{dispatch_start_commands}
use ofm_registration_saga_se.Application.Progress.{compensate_registration_failure}
use ofm_registration_saga_se.Quiet.Failure.{failure_trace, compensate_lem}
use ofm_registration_saga_se.Quiet.Completion.{completion_trace, complete_lem}
use ofm_registration_saga_se.Quiet.Dispatch.{dispatch_lem}
use ofm_registration_saga_se.Tests.Fixtures.{calm, calm-IsQuiet, calm-Delivers, render, ada, world}

ada_found : get_by_id "s1" world.db.sessions ≡ some ada
unfolding get_by_id
ada_found = refl

compensate_lem_example : compensate_registration_failure calm "s1" "" "boom" world ≡ (
  ok tt,
  record world {
    db = apply (update_session 101 "s1" SessionStatus.failed) world.db;
    calls = 7;
    trace = failure_trace calm render ada "u1" "boom" 104 [];
  },
)
compensate_lem_example =
    compensate_lem calm-IsQuiet calm-Delivers "s1" "" "boom" ada world ada_found refl

complete_lem_example : complete_email_verification calm ada "123456" world ≡ (
  ok tt,
  record world {
    db =
        run
          (update_step_status 101 "s1" verify_email_code StepStatus.completed
            ∷ update_session 102 "s1" SessionStatus.activating_user
            ∷ update_step_status 103 "s1" activate_user StepStatus.in_progress
            ∷ update_step_status 105 "s1" activate_user StepStatus.completed
            ∷ update_session 106 "s1" SessionStatus.completed
            ∷ [])
          world.db;
    calls = 10;
    trace = completion_trace calm render ada "123456" 107 [];
  },
)
complete_lem_example = complete_lem calm-IsQuiet calm-Delivers ada "123456" world

abbrev ada_input : StartInput
ada_input = record {
  session_id = "s1";
  email = "ada@example.org";
  username = "ada";
  password = "correct horse";
  client_id = "c1";
  user_id = "u1";
  first_name = "Ada";
  surname = "L";
}

dispatch_lem_example : dispatch_start_commands calm ada ada_input "hash" world ≡ (
  ok tt,
  record world {
    db =
        run
          (update_session 100 "s1" SessionStatus.in_progress
            ∷ update_step_status 101 "s1" user_create_profile StepStatus.in_progress
            ∷ update_step_status 102 "s1" auth_create_pending StepStatus.in_progress
            ∷ [])
          world.db;
    calls = 5;
    trace =
        published "saga.auth.create_pending_registration" "payload"
        ∷ published "saga.user.create" "payload"
        ∷ [];
  },
)
dispatch_lem_example = dispatch_lem calm-IsQuiet calm-Delivers ada ada_input "hash" world
