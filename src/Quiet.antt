-- ===== src/Quiet.antt =====
-- The service when every call succeeds and no replica interferes: what each call does then.
pub mod Failure
pub mod Completion
pub mod Dispatch
pub mod Start
pub mod Conflict
pub mod Open
pub mod Progress
pub mod OnTrack
pub mod CodeSent
pub mod Verification
pub mod Registration
pub mod Unverified
pub mod Claim
pub mod Dispatched
pub mod Client
pub mod EndToEnd
pub mod Compensated
pub mod Failed
use ofm_registration_saga_se.Prelude.{
  ℕ, suc, String, Bool, Option, none, some, List, [], ◌∷◌, ◌≡◌, refl, true,
}
use ofm_registration_saga_se.Exec.{Result, ok, Exec, handle, ◌>>=◌, ignore, raise, resume}
use ofm_registration_saga_se.Store.{Db}
use ofm_registration_saga_se.Store.Statement.{Stmt, apply, run}
use ofm_registration_saga_se.World.{
  Env, World, Saga, Outcome, done, Effect, tick, finish, query, write, send, Payload, Notification,
}

pub record IsQuiet (env : Env) : Type 0 where
  pub succeeds : (n : ℕ) → env.outcome n ≡ done
  pub alone : (n : ℕ) → env.others n ≡ []

-- Payloads and notifications marshal, and the broker has the realtime capability.
pub record Delivers (env : Env) (render : Payload → String) (body : Notification → String)
    : Type 0 where
  pub marshals : (x : Payload) → env.marshal x ≡ some (render x)
  pub encodes : (n : Notification) → env.encode n ≡ some (body n)
  pub realtime : env.has_realtime ≡ true

-- The world after a call that leaves no trace in it.
abbrev pub next : World → World
next w = record w { calls = suc w.calls }

module _ {env : Env} (q : IsQuiet env) where
  pub query-quiet : {A : Type 0} (f : Db → Result A) (w : World) → query env f w ≡ (f w.db, next w)
  unfolding query run
  query-quiet f w = rw (q.succeeds w.calls, q.alone w.calls, finish, run)

  pub write-quiet :
      {A : Type 0} (result : ℕ → Db → Result A) (stmt : ℕ → Stmt) (w : World)
      → write env result stmt w ≡ (
        result (env.clock w.calls) w.db,
        record w { db = apply (stmt (env.clock w.calls)) w.db; calls = suc w.calls },
      )
  unfolding write run
  write-quiet result stmt w = rw (q.succeeds w.calls, q.alone w.calls, finish, run)

  pub send-quiet :
      (e : Effect) (w : World)
      → send env e w ≡ (ok tt, record w { calls = suc w.calls; trace = e ∷ w.trace })
  unfolding send run
  send-quiet e w = rw (q.succeeds w.calls, q.alone w.calls, finish, run)
