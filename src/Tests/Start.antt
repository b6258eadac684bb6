-- ===== src/Tests/Start.antt =====
-- Registrations of a new and of a failed identity.
use ofm_registration_saga_se.Prelude.Text.{trim_space}
use ofm_registration_saga_se.Prelude.{◌++◌, true, false, some, none, List, [], ◌∷◌, ◌≡◌, refl}
use ofm_registration_saga_se.Domain.{
  Session, SessionStatus, StepKey, StartRegistrationParams, VerifyEmailParams, unique_violation,
}
use ofm_registration_saga_se.Exec.{err, ok}
use ofm_registration_saga_se.Store.{
  get_by_email, get_by_username, latest, newer, clashes, has_step, same_step,
}
use ofm_registration_saga_se.World.{World}
use ofm_registration_saga_se.Application.Start.{trimmed, start}
use ofm_registration_saga_se.Quiet.Conflict.{start-unique_violation, start-conflict}
use ofm_registration_saga_se.Quiet.Start.{IsAcceptable, accepted, new_session, start-accepted}
use ofm_registration_saga_se.Application.Realtime.{contains}
use ofm_registration_saga_se.Guarantee.Notified.{code_sent_count}
use ofm_registration_saga_se.History.{
  Event, starts, runs, verifies, user_result, auth_result, mail_result, serve_all,
}
use ofm_registration_saga_se.Quiet.EndToEnd.{IsSubmission, IsComplete, registration-completes}
use ofm_registration_saga_se.Quiet.Registration.{IsNew}
use ofm_registration_saga_se.Tests.Fixtures.{
  render, calm, calm-IsQuiet, calm-Delivers, world, bob, ada, tables,
}

bob-IsAcceptable : IsAcceptable calm (trimmed bob)
unfolding trimmed trim_space
bob-IsAcceptable = record {
  parsed = refl;
  named = refl;
  long = refl;
  of_client = refl;
  no_session = refl;
  no_user = refl;
}

bob_email : get_by_email (trimmed bob).email world.db.sessions ≡ none
unfolding get_by_email latest trimmed trim_space
bob_email = refl

bob_username : get_by_username (trimmed bob).username world.db.sessions ≡ none
unfolding get_by_username latest trimmed trim_space
bob_username = refl

bob_free : clashes (new_session calm (trimmed bob) 4) world.db.sessions ≡ false
unfolding clashes trimmed trim_space
bob_free = refl

no_steps : (key : StepKey) → has_step "uuid" key world.db.steps ≡ false
unfolding has_step same_step
no_steps key = refl

start-accepted_example :
    start calm bob world ≡ accepted calm (trimmed bob) "hash" (record world { calls = 4 })
start-accepted_example =
    start-accepted calm-IsQuiet bob "hash" world bob-IsAcceptable bob_email bob_username refl refl
      bob_free no_steps refl

-- A request with a blank client's id, the one with the id that is drawn for it, and the world after.
abbrev stranger : StartRegistrationParams
stranger = record bob { client_id = " " }

abbrev given : StartRegistrationParams
given = record bob { client_id = "uuid" }

abbrev later : World
later = record world { calls = 1 }

given-IsNew : IsNew calm given "hash" later
unfolding code_sent_count contains get_by_email get_by_username latest clashes trimmed trim_space
given-IsNew = record {
  acceptable = record {
    parsed = refl;
    named = refl;
    long = refl;
    of_client = refl;
    no_session = refl;
    no_user = refl;
  };
  no_email = refl;
  no_username = refl;
  email_free = refl;
  username_free = refl;
  free = refl;
  fresh = no_steps;
  hashes = refl;
  named = refl;
  told_each = refl;
  idle = refl;
}

abbrev bob_reports : List Event
bob_reports =
    auth_result (record {
      session_id = "uuid";
      client_id = "uuid";
      user_id = "uuid";
      status = "success";
      error = "";
      timestamp = "";
    })
    ∷ user_result (record {
      session_id = "uuid";
      user_id = "uuid";
      status = "success";
      error = "";
      timestamp = "";
    })
    ∷ mail_result (record {
      session_id = "uuid";
      client_id = "uuid";
      user_id = "uuid";
      request_id = "";
      correlation_id = "";
      message_type = "verification";
      to = "bob@example.org";
      status = "success";
      error = "";
      timestamp = "";
    })
    ∷ []

abbrev bob_code : VerifyEmailParams
bob_code = record { session_id = " uuid"; client_id = "uuid "; code = "123456" }

bob_code-IsSubmission : IsSubmission calm given bob_code later
unfolding trimmed trim_space
bob_code-IsSubmission = record { session = refl; client = refl; has_code = refl }

registration-completes_example :
    IsComplete calm render "uuid" "uuid" bob_code
      (serve_all calm (starts stranger ∷ runs 0 ∷ bob_reports) world)
      (serve_all calm
        ((starts stranger ∷ runs 0 ∷ bob_reports) ++ (verifies bob_code ∷ runs 0 ∷ []))
        world)
unfolding trimmed trim_space
registration-completes_example =
    registration-completes calm-IsQuiet calm-Delivers refl stranger "hash" bob_reports bob_code
      world refl given-IsNew ((refl, refl), ((refl, refl), ((refl, refl), tt))) refl refl refl
      bob_code-IsSubmission

abbrev failed_ada : Session
failed_ada = record ada { status = SessionStatus.failed }

abbrev after_failure : World
after_failure = record world { db = record tables { sessions = failed_ada ∷ [] } }

abbrev ada_again : StartRegistrationParams
ada_again = record bob { email = "ada@example.org"; username = "ada2" }

again-IsAcceptable : IsAcceptable calm (trimmed ada_again)
unfolding trimmed trim_space
again-IsAcceptable = record {
  parsed = refl;
  named = refl;
  long = refl;
  of_client = refl;
  no_session = refl;
  no_user = refl;
}

again_email : get_by_email (trimmed ada_again).email after_failure.db.sessions ≡ some failed_ada
unfolding get_by_email latest newer trimmed trim_space
again_email = refl

again_username : get_by_username (trimmed ada_again).username after_failure.db.sessions ≡ none
unfolding get_by_username latest trimmed trim_space
again_username = refl

start-unique_violation_example :
    start calm ada_again after_failure ≡ (err unique_violation, record after_failure { calls = 7 })
start-unique_violation_example =
    start-unique_violation calm-IsQuiet ada_again failed_ada after_failure again-IsAcceptable
      again_email refl again_username refl refl

abbrev ada_claimed : Session
ada_claimed = record ada { status = SessionStatus.tokens_claimed }

abbrev after_claim : World
after_claim = record world { db = record tables { sessions = ada_claimed ∷ [] } }

-- A registration that is complete, and whose tokens were claimed, counts as incomplete.
start-conflict_example : start calm ada_again after_claim ≡ (
  ok (record {
    session_id = "";
    client_id = "";
    user_id = "";
    status = "conflict";
    conflict_state = "found_incomplete";
    username_taken = false;
    email_taken = true;
  }),
  record after_claim { calls = 2 },
)
unfolding trimmed trim_space
start-conflict_example =
    start-conflict calm-IsQuiet ada_again after_claim again-IsAcceptable (tt, tt) refl
