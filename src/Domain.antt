-- ===== src/Domain.antt =====
-- internal/domain: the persisted records of a registration saga, their states, and the errors.
mod Errors
mod Status
unfoldable pub use Errors.*
unfoldable pub use Status.*
use ofm_registration_saga_se.Prelude.{ℕ, String, Bool}

pub record Session : Type 0 where
  pub session_id : String
  pub client_id : String
  pub user_id : String
  pub email : String
  pub username : String
  pub status : SessionStatus
  pub created_at : ℕ
  pub updated_at : ℕ

pub record Step : Type 0 where
  pub session_id : String
  pub step_key : StepKey
  pub status : StepStatus
  pub created_at : ℕ
  pub updated_at : ℕ

pub record StartRegistrationParams : Type 0 where
  pub session_id : String
  pub client_id : String
  pub user_id : String
  pub email : String
  pub username : String
  pub password : String
  pub first_name : String
  pub surname : String

-- The status of a result is a text: that of a session, or "conflict".
pub record StartRegistrationResult : Type 0 where
  pub session_id : String
  pub client_id : String
  pub user_id : String
  pub status : String
  pub conflict_state : String
  pub username_taken : Bool
  pub email_taken : Bool

pub record VerifyEmailParams : Type 0 where
  pub session_id : String
  pub client_id : String
  pub code : String

pub record VerifyEmailResult : Type 0 where
  pub session_id : String
  pub client_id : String
  pub status : SessionStatus

pub record RegistrationStatus : Type 0 where
  pub session_id : String
  pub client_id : String
  pub user_id : String
  pub status : SessionStatus
