-- ===== src/Tests/Failure.antt =====
-- A failure of the auth service, with results after it, and a failure of the mail service before the
-- result of the auth service.
use ofm_registration_saga_se.Prelude.{◌≤◌, true, false, some, List, [], ◌∷◌, ◌≡◌, refl}
use ofm_registration_saga_se.Domain.{
  Session, SessionStatus, StepStatus, user_create_profile, auth_create_pending,
  mail_send_verification_code, is_failed,
}
use ofm_registration_saga_se.Store.{get_by_id, has_step, same_step}
use ofm_registration_saga_se.World.{World}
use ofm_registration_saga_se.Application.Mapper.{
  UserCreateResult, AuthCreatePendingResult, MailSendResult,
}
use ofm_registration_saga_se.Application.Results.{handle_auth_create_pending_result}
use ofm_registration_saga_se.History.{Event, user_result, auth_result, mail_result, serve_all}
use ofm_registration_saga_se.Guarantee.Notified.{code_sent_count}
use ofm_registration_saga_se.Quiet.Compensated.{failed_count}
use ofm_registration_saga_se.Quiet.Failed.Stays.{failure-stays}
use ofm_registration_saga_se.Quiet.Failed.Revived.{failed_only, late_auth-revives}
use ofm_registration_saga_se.Tests.Fixtures.{
  calm, calm-IsQuiet, calm-Delivers, ada, world, tables, step,
}

abbrev user_ready : UserCreateResult
user_ready = record {
  session_id = "s1";
  user_id = "u1";
  status = "success";
  error = "";
  timestamp = "";
}

abbrev auth_ready : AuthCreatePendingResult
auth_ready = record {
  session_id = "s1";
  client_id = "c1";
  user_id = "u1";
  status = "success";
  error = "";
  timestamp = "";
}

abbrev auth_refused : AuthCreatePendingResult
auth_refused = record auth_ready { status = "failed"; error = "duplicate" }

abbrev mailed : MailSendResult
mailed = record {
  session_id = "s1";
  client_id = "c1";
  user_id = "u1";
  request_id = "";
  correlation_id = "";
  message_type = "verification";
  to = "ada@example.org";
  status = "success";
  error = "";
  timestamp = "";
}

abbrev later : List Event
later = user_result user_ready ∷ mail_result mailed ∷ auth_result auth_refused ∷ []

ada_found : get_by_id "s1" world.db.sessions ≡ some ada
unfolding get_by_id
ada_found = refl

has_auth : has_step "s1" auth_create_pending world.db.steps ≡ true
unfolding has_step same_step
has_auth = refl

failure-stays_example :
    (t : Session) × (get_by_id "s1"
        (serve_all calm (auth_result auth_refused ∷ later) world).db.sessions
      ≡ some t)
    × (t.status ≡ SessionStatus.failed)
    × (1 ≤ failed_count "s1" (serve_all calm (auth_result auth_refused ∷ later) world).trace)
    × (code_sent_count "s1" (serve_all calm (auth_result auth_refused ∷ later) world).trace
        ≡ code_sent_count "s1" world.trace)
failure-stays_example =
    failure-stays calm-IsQuiet calm-Delivers refl "s1" refl auth_create_pending
      (auth_result auth_refused) later ada world refl refl refl ada_found has_auth
      (refl, refl, (refl, refl, (refl, refl, tt)))

abbrev failed_ada : Session
failed_ada = record ada { status = SessionStatus.failed }

-- The mail service has failed; the result of the auth service is still to come.
abbrev unmailed : World
unmailed = record world {
  db = record tables {
    sessions = failed_ada ∷ [];
    steps =
        step user_create_profile StepStatus.completed
        ∷ step auth_create_pending StepStatus.in_progress
        ∷ step mail_send_verification_code StepStatus.failed
        ∷ [];
  };
}

failed_found : get_by_id "s1" unmailed.db.sessions ≡ some failed_ada
unfolding get_by_id
failed_found = refl

only_mail : failed_only "s1" mail_send_verification_code unmailed.db.steps ≡ true
unfolding failed_only
only_mail = refl

late_auth-revives_example :
    (t : Session) × (get_by_id "s1"
        (handle_auth_create_pending_result calm auth_ready unmailed).1.db.sessions
      ≡ some t)
    × (is_failed t.status ≡ false)
late_auth-revives_example =
    late_auth-revives calm-IsQuiet calm-Delivers refl auth_ready failed_ada unmailed refl refl
      failed_found only_mail
