-- ===== src/Domain/Errors.antt =====
-- internal/domain/error.go and internal/application/error.go: the error values of the service.
-- `unique_violation` is PostgreSQL's refusal of an insert; `external` is any other error of a
-- driver or a remote service, with its text; `permanent` is one that resilience.Permanent marks.
use ofm_registration_saga_se.Prelude.{String}

pub data Error : Type 0 where
  invalid_session_id invalid_client_id invalid_user_id invalid_email invalid_username : Error
  invalid_password invalid_verification_code client_mismatch invalid_status : Error
  invalid_step_key session_not_found step_not_found : Error
  hash_password publish_user_create_command publish_auth_create_command : Error
  publish_code_sent_event publish_registration_completed_event : Error
  publish_registration_failed_event : Error
  unique_violation : Error
  external permanent : String → Error

-- err.Error()
unfoldable pub message : Error → String
message invalid_session_id = "invalid session id"
message invalid_client_id = "invalid client id"
message invalid_user_id = "invalid user id"
message invalid_email = "invalid email"
message invalid_username = "invalid username"
message invalid_password = "invalid password"
message invalid_verification_code = "invalid verification code"
message client_mismatch = "registration client mismatch"
message invalid_status = "invalid status"
message invalid_step_key = "invalid step key"
message session_not_found = "registration session not found"
message step_not_found = "registration step not found"
message hash_password = "hash password failed"
message publish_user_create_command = "publish user create command failed"
message publish_auth_create_command = "publish auth create pending registration command failed"
message publish_code_sent_event = "publish registration code sent event failed"
message publish_registration_completed_event = "publish registration completed event failed"
message publish_registration_failed_event = "publish registration failed event failed"
message unique_violation = "duplicate key value violates unique constraint"
message (external text) = text
message (permanent text) = text
