-- ===== src/Tests/Progress.antt =====
-- A result that comes once more, and the verification of a code.
use ofm_registration_saga_se.Prelude.{◌+◌, some, false, [], ◌∷◌, ◌≡◌, refl}
use ofm_registration_saga_se.Domain.{
  Session, SessionStatus, StepStatus, user_create_profile, auth_create_pending,
  mail_send_verification_code,
}
use ofm_registration_saga_se.Prelude.Text.{trim_space}
use ofm_registration_saga_se.Store.{get_by_id, has_step, same_step}
use ofm_registration_saga_se.Store.Outstanding.{all_but}
use ofm_registration_saga_se.Application.Realtime.{contains}
use ofm_registration_saga_se.Application.Mapper.{UserCreateResult}
use ofm_registration_saga_se.History.{user_result, verifies, runs, serve, serve_all}
use ofm_registration_saga_se.Guarantee.Notified.{code_sent_count}
use ofm_registration_saga_se.Quiet.OnTrack.{IsOnTrack}
use ofm_registration_saga_se.Quiet.CodeSent.{repeated-code_sent}
use ofm_registration_saga_se.World.{World}
use ofm_registration_saga_se.Quiet.Completion.{completion_trace}
use ofm_registration_saga_se.Quiet.Verification.{IsVerifiable, verify-completes}
use ofm_registration_saga_se.Tests.Fixtures.{
  submission, render, calm, calm-IsQuiet, calm-Delivers, ada, world, step,
}

abbrev user_ready : UserCreateResult
user_ready = record {
  session_id = "s1";
  user_id = "u1";
  status = "success";
  error = "";
  timestamp = "";
}

-- A session whose tokens are claimed.
abbrev claimed : Session
claimed = record ada { status = SessionStatus.tokens_claimed }

abbrev finished : World
finished = record world {
  db = record {
    sessions = claimed ∷ [];
    steps =
        step user_create_profile StepStatus.completed
        ∷ step auth_create_pending StepStatus.completed
        ∷ step mail_send_verification_code StepStatus.completed
        ∷ [];
  };
}

finished-IsOnTrack : IsOnTrack (λ _. false) "s1" finished
unfolding get_by_id all_but code_sent_count contains
finished-IsOnTrack = record { session = claimed; found = refl; steps = refl; told_each = refl }

repeated-code_sent_example :
    (s : Session) × (get_by_id "s1" (serve calm (user_result user_ready) finished).db.sessions
      ≡ some s)
    × (s.status ≡ SessionStatus.code_sent)
repeated-code_sent_example =
    repeated-code_sent calm-IsQuiet calm-Delivers refl "s1" (user_result user_ready) finished refl
      (refl, refl) finished-IsOnTrack

-- A session whose code was sent.
abbrev mailed : Session
mailed = record ada { status = SessionStatus.code_sent }

abbrev mailed_world : World
mailed_world = record finished { db = record finished.db { sessions = mailed ∷ [] } }

mailed-IsVerifiable : IsVerifiable submission mailed mailed_world
unfolding trim_space get_by_id has_step same_step
mailed-IsVerifiable = record {
  has_session = refl;
  has_client = refl;
  has_code = refl;
  found = refl;
  owned = refl;
  status = refl;
  no_check = refl;
  no_activation = refl;
  idle = refl;
}

verify-completes_example :
    let w' = serve_all calm (verifies submission ∷ runs 0 ∷ []) mailed_world in
    ((t : Session) × (get_by_id "s1" w'.db.sessions ≡ some t)
      × (t.status ≡ SessionStatus.completed))
    × (w'.trace ≡ completion_trace calm render mailed (trim_space "123456") (calm.clock (4 + 7)) [])
    × (w'.tasks ≡ [])
verify-completes_example =
    verify-completes calm-IsQuiet calm-Delivers submission mailed mailed_world mailed-IsVerifiable
