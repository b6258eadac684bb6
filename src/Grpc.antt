-- ===== src/Grpc.antt =====
-- internal/presentation/grpc: the mapper between messages and the domain, and the three handlers
-- of the server.
pub mod Untouched
pub mod Clients
pub mod Server
use ofm_registration_saga_se.Prelude.{String, Bool, if◌then◌else◌}
use ofm_registration_saga_se.Domain.{
  Error, status_text, StartRegistrationParams, StartRegistrationResult, VerifyEmailParams,
  VerifyEmailResult, RegistrationStatus, invalid_session_id, invalid_client_id,
  invalid_verification_code, invalid_email, invalid_username, invalid_password, session_not_found,
  client_mismatch, invalid_status,
}
use ofm_registration_saga_se.Exec.{Result, ok, err}
use ofm_registration_saga_se.World.{Env, World, Saga}
use ofm_registration_saga_se.Application.Start.{start}
use ofm_registration_saga_se.Application.VerifyEmail.{verify_email, get_registration_status}

pub data Code : Type 0 where
  invalid_argument not_found permission_denied failed_precondition internal : Code

-- A gRPC reply: a message, or an error status with its text.
pub data Reply (A : Type 0) : Type 0 where
  message : A → Reply A
  status : Code → String → Reply A

pub record StartRegistrationRequest : Type 0 where
  pub client_id : String
  pub email : String
  pub username : String
  pub password : String
  pub first_name : String
  pub surname : String

pub record StartRegistrationResponse : Type 0 where
  pub session_id : String
  pub client_id : String
  pub user_id : String
  pub status : String
  pub conflict_state : String
  pub username_taken : Bool
  pub email_taken : Bool

pub record VerifyEmailRequest : Type 0 where
  pub session_id : String
  pub client_id : String
  pub code : String

pub record VerifyEmailResponse : Type 0 where
  pub session_id : String
  pub client_id : String
  pub status : String

pub record GetRegistrationStatusRequest : Type 0 where
  pub session_id : String
  pub client_id : String

pub record GetRegistrationStatusResponse : Type 0 where
  pub session_id : String
  pub client_id : String
  pub user_id : String
  pub status : String

-- A request names no session and no user: both are drawn.
unfoldable pub to_start_params : StartRegistrationRequest → StartRegistrationParams
to_start_params req = record {
  session_id = "";
  client_id = req.client_id;
  user_id = "";
  email = req.email;
  username = req.username;
  password = req.password;
  first_name = req.first_name;
  surname = req.surname;
}

unfoldable pub to_start_response : StartRegistrationResult → StartRegistrationResponse
to_start_response result = record {
  session_id = result.session_id;
  client_id = result.client_id;
  user_id = result.user_id;
  status = result.status;
  conflict_state = result.conflict_state;
  username_taken = result.username_taken;
  email_taken = result.email_taken;
}

unfoldable pub to_verify_email_params : VerifyEmailRequest → VerifyEmailParams
to_verify_email_params req = record {
  session_id = req.session_id;
  client_id = req.client_id;
  code = req.code;
}

unfoldable pub to_verify_email_response : VerifyEmailResult → VerifyEmailResponse
to_verify_email_response result = record {
  session_id = result.session_id;
  client_id = result.client_id;
  status = status_text result.status;
}

unfoldable pub to_registration_status_response : RegistrationStatus → GetRegistrationStatusResponse
to_registration_status_response result = record {
  session_id = result.session_id;
  client_id = result.client_id;
  user_id = result.user_id;
  status = status_text result.status;
}

unfoldable pub to_start_error : {A : Type 0} → Error → Reply A
to_start_error invalid_session_id = status invalid_argument "invalid session id"
to_start_error invalid_client_id = status invalid_argument "invalid client id"
to_start_error invalid_verification_code = status invalid_argument "invalid verification code"
to_start_error invalid_email = status invalid_argument "invalid email"
to_start_error invalid_username = status invalid_argument "invalid username"
to_start_error invalid_password = status invalid_argument "invalid password"
to_start_error session_not_found = status not_found "registration session not found"
to_start_error client_mismatch = status permission_denied "registration client mismatch"
to_start_error invalid_status =
    status failed_precondition "registration is not ready for this operation"
to_start_error _ = status internal "internal server error"

-- What the server makes of a use case's result.
unfoldable pub to_reply : {A B : Type 0} → (A → B) → Result A → Reply B
to_reply f (ok a) = message (f a)
to_reply f (err e) = to_start_error e

module _ (env : Env) where
  unfoldable pub start_registration :
      StartRegistrationRequest → World → Reply StartRegistrationResponse × World
  start_registration req w =
      let (result, w') = start env (to_start_params req) w in
      (to_reply to_start_response result, w')

  unfoldable pub verify_email_rpc : VerifyEmailRequest → World → Reply VerifyEmailResponse × World
  verify_email_rpc req w =
      let (result, w') = verify_email env (to_verify_email_params req) w in
      (to_reply to_verify_email_response result, w')

  unfoldable pub get_registration_status_rpc :
      GetRegistrationStatusRequest → World → Reply GetRegistrationStatusResponse × World
  get_registration_status_rpc req w =
      let (result, w') = get_registration_status env req.session_id req.client_id w in
      (to_reply to_registration_status_response result, w')
