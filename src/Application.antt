-- ===== src/Application.antt =====
-- internal/application: the registration use cases and the handlers of step results.
pub mod New
pub mod Mapper
pub mod Realtime
pub mod Progress
pub mod Results
pub mod Start
pub mod Dispatch
pub mod VerifyEmail
