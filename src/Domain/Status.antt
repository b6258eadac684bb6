-- ===== src/Domain/Status.antt =====
-- The status and key constants of internal/domain/session.go. The service writes no other value
-- to these columns.
use Prim.Native.Nat.{ℕ}
use ofm_registration_saga_se.Prelude.{String, Bool, true, false}

pub data SessionStatus : Type 0 where
  started in_progress code_sent verifying_email activating_user : SessionStatus
  completed tokens_claimed failed : SessionStatus

-- The constants' values, as payloads and replies carry them.
unfoldable pub status_text : SessionStatus → String
status_text SessionStatus.started = "started"
status_text SessionStatus.in_progress = "in_progress"
status_text SessionStatus.code_sent = "code_sent"
status_text SessionStatus.verifying_email = "verifying_email"
status_text SessionStatus.activating_user = "activating_user"
status_text SessionStatus.completed = "completed"
status_text SessionStatus.tokens_claimed = "tokens_claimed"
status_text SessionStatus.failed = "failed"

abbrev pub is_completed : SessionStatus → Bool
is_completed SessionStatus.completed = true
is_completed _ = false

abbrev pub is_failed : SessionStatus → Bool
is_failed SessionStatus.failed = true
is_failed _ = false

abbrev pub is_code_sent : SessionStatus → Bool
is_code_sent SessionStatus.code_sent = true
is_code_sent _ = false

abbrev pub is_in_progress : SessionStatus → Bool
is_in_progress SessionStatus.in_progress = true
is_in_progress _ = false

pub data StepStatus : Type 0 where
  pending in_progress completed failed : StepStatus

abbrev pub step_completed : StepStatus → Bool
step_completed StepStatus.completed = true
step_completed _ = false

abbrev pub step_failed : StepStatus → Bool
step_failed StepStatus.failed = true
step_failed _ = false

abbrev pub step_in_progress : StepStatus → Bool
step_in_progress StepStatus.in_progress = true
step_in_progress _ = false

pub data StepKey : Type 0 where
  user_create_profile auth_create_pending mail_send_verification_code : StepKey
  verify_email_code activate_user : StepKey

-- The place of a key's text in the order of `ORDER BY step_key`.
abbrev pub rank : StepKey → ℕ
rank auth_create_pending = 0
rank verify_email_code = 1
rank mail_send_verification_code = 2
rank activate_user = 3
rank user_create_profile = 4

pub StepKey-discrete : Discrete StepKey
StepKey-discrete = hlevel

abbrev pub same_key : StepKey → StepKey → Bool
same_key user_create_profile user_create_profile = true
same_key auth_create_pending auth_create_pending = true
same_key mail_send_verification_code mail_send_verification_code = true
same_key verify_email_code verify_email_code = true
same_key activate_user activate_user = true
same_key _ _ = false
