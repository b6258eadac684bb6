-- ===== src/Grpc/Untouched.antt =====
-- internal/presentation/grpc: the requests that are answered with InvalidArgument.
use ofm_registration_saga_se.Prelude.{String, true, ◌≡◌, refl}
use ofm_registration_saga_se.Domain.{
  Error, invalid_session_id, invalid_client_id, invalid_verification_code, invalid_email,
  invalid_username, invalid_password,
}
use ofm_registration_saga_se.Exec.{Result, ok, err}
use ofm_registration_saga_se.World.{Env, World}
use ofm_registration_saga_se.Grpc.{
  status, invalid_argument, to_start_error, to_reply, StartRegistrationRequest, VerifyEmailRequest,
  GetRegistrationStatusRequest, start_registration, verify_email_rpc, get_registration_status_rpc,
}
use ofm_registration_saga_se.Guarantee.Refusals.{is_refusal}
use ofm_registration_saga_se.Guarantee.Refusals.Untouched.{
  Leaves, start-Refuses, verify_email-Refuses, get_status-Refuses,
}

to_start_error-refusal :
    {B : Type 0} (e : Error) {text : String}
    → to_start_error {A = B} e ≡ status invalid_argument text
    → is_refusal e ≡ true
unfolding to_start_error
to_start_error-refusal invalid_session_id h = refl
to_start_error-refusal invalid_client_id h = refl
to_start_error-refusal invalid_verification_code h = refl
to_start_error-refusal invalid_email h = refl
to_start_error-refusal invalid_username h = refl
to_start_error-refusal invalid_password h = refl
to_start_error-refusal _ h = cc

to_reply-Leaves :
    {A B : Type 0} (f : A → B) (r : Result A) (w w' : World) {text : String}
    → Leaves r w w'
    → to_reply f r ≡ status invalid_argument text
    → w' ≡ w
unfolding to_reply
to_reply-Leaves f (ok a) w w' h k = cc
to_reply-Leaves f (err e) w w' h k = h (to_start_error-refusal e k)

-- The requests that the server takes, and what they make of the world.
pub data Request : Type 0 where
  starts : StartRegistrationRequest → Request
  verifies : VerifyEmailRequest → Request
  asks : GetRegistrationStatusRequest → Request

-- Whether the reply to a request is InvalidArgument, with the given text.
abbrev pub IsInvalid : Env → Request → World → String → Type 0
IsInvalid env (starts q) w text = (start_registration env q w).0 ≡ status invalid_argument text
IsInvalid env (verifies q) w text = (verify_email_rpc env q w).0 ≡ status invalid_argument text
IsInvalid env (asks q) w text =
    (get_registration_status_rpc env q w).0 ≡ status invalid_argument text

abbrev pub world_after : Env → Request → World → World
world_after env (starts q) w = (start_registration env q w).1
world_after env (verifies q) w = (verify_email_rpc env q w).1
world_after env (asks q) w = (get_registration_status_rpc env q w).1

-- A request that is answered with InvalidArgument, however the calls of the service end, has made
-- no call: the tables, the effects and the goroutines are what they were.
pub invalid-untouched :
    (env : Env) (q : Request) (w : World) (text : String)
    → IsInvalid env q w text
    → world_after env q w ≡ w
unfolding start_registration verify_email_rpc get_registration_status_rpc
invalid-untouched env (starts q) w text h = to_reply-Leaves _ _ _ _ ((start-Refuses env _).at w) h
invalid-untouched env (verifies q) w text h =
    to_reply-Leaves _ _ _ _ ((verify_email-Refuses env _).at w) h
invalid-untouched env (asks q) w text h =
    to_reply-Leaves _ _ _ _ ((get_status-Refuses env _ _).at w) h
