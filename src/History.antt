-- ===== src/History.antt =====
-- The RegistrationService of internal/application/type.go over time: requests, result events and
-- the goroutines that requests left behind, in any order.
use ofm_registration_saga_se.Prelude.{ℕ, zero, suc, String, Option, none, some, List, [], ◌∷◌}
use ofm_registration_saga_se.Domain.{StartRegistrationParams, VerifyEmailParams}
use ofm_registration_saga_se.World.{Env, World, Task}
use ofm_registration_saga_se.Application.Mapper.{
  UserCreateResult, AuthCreatePendingResult, MailSendResult,
}
use ofm_registration_saga_se.Application.Results.{
  handle_user_create_result, handle_auth_create_pending_result, handle_mail_send_result,
}
use ofm_registration_saga_se.Application.Start.{start}
use ofm_registration_saga_se.Application.VerifyEmail.{
  verify_email, get_registration_status, run_task,
}

-- `runs i` lets the goroutine that stands i-th among the waiting ones run to its end.
pub data Event : Type 0 where
  starts : StartRegistrationParams → Event
  verifies : VerifyEmailParams → Event
  asks_status : (session_id client_id : String) → Event
  user_result : UserCreateResult → Event
  auth_result : AuthCreatePendingResult → Event
  mail_result : MailSendResult → Event
  runs : ℕ → Event

abbrev keep_first : Task → Option (Task × List Task) → Option (Task × List Task)
keep_first t none = none
keep_first t (some (u, rest)) = some (u, t ∷ rest)

unfoldable pub pick : ℕ → List Task → Option (Task × List Task)
pick i [] = none
pick zero (t ∷ rest) = some (t, rest)
pick (suc i) (t ∷ rest) = keep_first t (pick i rest)

unfoldable pub run_picked : Env → Option (Task × List Task) → World → World
run_picked env none w = w
run_picked env (some (t, rest)) w = (run_task env t (record w { tasks = rest })).1

unfoldable pub serve : Env → Event → World → World
unfolding pick run_picked
serve env (starts q) w = (start env q w).1
serve env (verifies q) w = (verify_email env q w).1
serve env (asks_status session_id client_id) w =
    (get_registration_status env session_id client_id w).1
serve env (user_result r) w = (handle_user_create_result env r w).1
serve env (auth_result r) w = (handle_auth_create_pending_result env r w).1
serve env (mail_result r) w = (handle_mail_send_result env r w).1
serve env (runs i) w = run_picked env (pick i w.tasks) w

unfoldable pub serve_all : Env → List Event → World → World
serve_all env [] w = w
serve_all env (q ∷ rest) w = serve_all env rest (serve env q w)
