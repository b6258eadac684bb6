-- ===== src/Guarantee.antt =====
-- What holds across every use case, handler and goroutine of internal/application: a relation
-- between worlds that each primitive call keeps is kept by all of them.
pub mod Refusals
pub mod Calls
pub mod Progress
pub mod UseCases
pub mod History
pub mod Notify
pub mod Statements
pub mod Database
pub mod ClaimedOnce
pub mod Notified
pub mod Activated
use ofm_registration_saga_se.Prelude.{
  ℕ, String, Bool, true, false, Option, none, some, List, ◌≡◌, ◌==◌,
}
use ofm_registration_saga_se.Domain.{Session}
use ofm_registration_saga_se.Exec.{Result, Exec}
use ofm_registration_saga_se.Exec.Moves.{Moves, IsPreorder}
use ofm_registration_saga_se.Store.{Db}
use ofm_registration_saga_se.Store.Statement.{Stmt}
use ofm_registration_saga_se.World.{
  Env, World, Effect, published, notified_client, verified_email, activated_user, deactivated_user,
  deactivated_auth, Task, query, write, send, ask, draw, spawn,
}
use ofm_registration_saga_se.Application.Realtime.{notify_code_sent}
use ofm_registration_saga_se.Application.VerifyEmail.{complete_email_verification}

-- Every effect but a code-sent notification and an activation, whose callers take care of more.
abbrev pub IsPlain : Effect → Type 0
IsPlain (notified_client n) = (n.event_type == "registration.code_sent") ≡ false
IsPlain (activated_user _) = ⊥
IsPlain _ = Unit

pub record IsKept (env : Env) (R : World → World → Type 0) : Type 1 where
  pub preorder : IsPreorder R
  pub query_moves : {A : Type 0} (f : Db → Result A) → Moves R (query env f)
  pub write_moves :
      {A : Type 0} (result : ℕ → Db → Result A) (stmt : ℕ → Stmt) → Moves R (write env result stmt)
  pub send_moves : (e : Effect) → IsPlain e → Moves R (send env e)
  pub draw_moves : {A : Type 0} (f : ℕ → A) → Moves R (draw f)
  pub notify_moves :
      (id : String) (s : Session) (payload : Option String)
      → s.session_id ≡ id
      → Moves R (notify_code_sent env id s payload)

pub record IsKeptThroughout (env : Env) (R : World → World → Type 0) : Type 1 where
  pub kept : IsKept env R
  pub spawn_moves : (t : Task) → Moves R (spawn t)
  pub tasks_moves : (w : World) (ts : List Task) → R w (record w { tasks = ts })
  pub complete_moves :
      (s : Session) (code : String) → Moves R (complete_email_verification env s code)
