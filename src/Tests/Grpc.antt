-- ===== src/Tests/Grpc.antt =====
-- Replies to concrete requests.
use ofm_registration_saga_se.Prelude.Text.{trim_space}
use ofm_registration_saga_se.Prelude.{◌≡◌, refl}
use ofm_registration_saga_se.Exec.{raise}
use ofm_registration_saga_se.Application.VerifyEmail.{verify_email}
use ofm_registration_saga_se.Grpc.{
  verify_email_rpc, to_verify_email_params, to_reply, to_start_error, VerifyEmailRequest,
}
use ofm_registration_saga_se.Grpc.Untouched.{verifies, IsInvalid, world_after, invalid-untouched}
use ofm_registration_saga_se.Tests.Fixtures.{faulty, world}

abbrev codeless : VerifyEmailRequest
codeless = record { session_id = "s1"; client_id = "c1"; code = "  " }

codeless_refused : IsInvalid faulty (verifies codeless) world "invalid verification code"
unfolding verify_email_rpc verify_email to_verify_email_params to_reply to_start_error trim_space
    raise
codeless_refused = refl

invalid-untouched_example : world_after faulty (verifies codeless) world ≡ world
invalid-untouched_example =
    invalid-untouched faulty (verifies codeless) world "invalid verification code" codeless_refused
