-- ===== src/World.antt =====
-- What the service runs in: its database, the calls it makes to other services, its goroutines,
-- and an environment that decides how each call ends and what others do to the tables meanwhile.
use ofm_registration_saga_se.Prelude.{ℕ, suc, String, Bool, Option, List, [], ◌∷◌, ◌++◌}
use ofm_registration_saga_se.Domain.{Error, external, Session}
use ofm_registration_saga_se.Exec.{Result, ok, err, Exec, resume, handle}
use ofm_registration_saga_se.Store.{Db}
use ofm_registration_saga_se.Store.Statement.{Stmt, apply, run}

-- How a call to the database, the broker or another service ends: it takes effect, it fails, or
-- it takes effect and its reply is lost.
pub data Outcome : Type 0 where
  done : Outcome
  refused lost : String → Outcome

pub data RealtimeStatus : Type 0 where
  accepted completed failed : RealtimeStatus

-- The arguments from which a realtime notification is made.
pub record Notification : Type 0 where
  pub event_type : String
  pub session_id : String
  pub status : RealtimeStatus
  pub error_code : String
  pub retryable : Option Bool
  pub payload : Option String

-- What other services and clients can see of the saga.
pub data Effect : Type 0 where
  published : String → String → Effect
  notified_client : Notification → Effect
  verified_email : String → String → Effect
  activated_user : String → Effect
  deactivated_user : String → Effect
  deactivated_auth : String → Effect

-- The payloads that the mapper builds.
pub data Payload : Type 0 where
  user_create : (session_id user_id username first_name last_name : String) → Payload
  auth_create_pending :
      (session_id client_id user_id email username password_hash : String) → Payload
  code_sent : (session_id client_id user_id status timestamp : String) → Payload
  registration_completed : (session_id client_id user_id status timestamp : String) → Payload
  registration_failed : (session_id client_id user_id status reason timestamp : String) → Payload

pub record Config : Type 0 where
  pub registration_code_sent_subject : String
  pub registration_completed_subject : String
  pub registration_failed_subject : String
  pub user_create_subject : String
  pub auth_create_pending_subject : String

-- Calls are numbered; the environment answers each by its number. `others n` is what concurrent
-- handlers and replicas do to the tables just before call n.
pub record Env : Type 0 where
  pub outcome : ℕ → Outcome
  pub others : ℕ → List Stmt
  pub clock : ℕ → ℕ
  pub answer : ℕ → Bool
  pub uuid : ℕ → String
  pub parses_address : String → Bool
  pub hash : ℕ → String → Option String
  pub marshal : Payload → Option String
  pub encode : Notification → Option String
  pub format_time : ℕ → String
  pub has_realtime : Bool
  pub reconciles : Bool
  pub cfg : Config

-- startInput: the trimmed and validated parameters of a registration.
pub record StartInput : Type 0 where
  pub session_id : String
  pub email : String
  pub username : String
  pub password : String
  pub client_id : String
  pub user_id : String
  pub first_name : String
  pub surname : String

-- The goroutines that a request leaves behind.
pub data Task : Type 0 where
  dispatch_start : (session : Session) (input : StartInput) (password_hash : String) → Task
  complete_verification : (session : Session) (code : String) → Task

-- The newest effect comes first. `notified` is `codeSentNotified`.
pub record World : Type 0 where
  pub db : Db
  pub calls : ℕ
  pub trace : List Effect
  pub notified : List String
  pub tasks : List Task

abbrev pub Saga : Type 0 → Type 0
Saga A = Exec World A

-- The world in which call number `w.calls` is served.
unfoldable pub tick : Env → World → World
tick env w = record w { db = run (env.others w.calls) w.db; calls = suc w.calls }

-- The end of a call whose effect leads from one world to another.
unfoldable pub finish : {A : Type 0} → Outcome → Result A → World → World → Result A × World
finish done r before after = (r, after)
finish (refused e) r before after = (err (external e), before)
finish (lost e) r before after = (err (external e), after)

-- A SELECT.
unfoldable pub query : {A : Type 0} → Env → (Db → Result A) → Saga A
unfolding tick finish
query env f w = let w' = tick env w in finish (env.outcome w.calls) (f w'.db) w' w'

-- A statement, with the result that its caller reads off the tables before it.
unfoldable pub write : {A : Type 0} → Env → (ℕ → Db → Result A) → (ℕ → Stmt) → Saga A
unfolding tick finish
write env result stmt w =
    let w' = tick env w in
    let now = env.clock w.calls in
    finish (env.outcome w.calls) (result now w'.db) w' (record w' { db = apply (stmt now) w'.db })

-- A publication, or a command to another service.
unfoldable pub send : Env → Effect → Saga (Unit {0})
unfolding tick finish
send env effect w =
    let w' = tick env w in
    finish (env.outcome w.calls) (ok tt) w' (record w' { trace = effect ∷ w'.trace })

-- A question to another service.
unfoldable pub ask : Env → Saga Bool
unfolding query
ask env w = query env (λ _. ok (env.answer w.calls)) w

-- uuid.NewV7, time.Now and the salt of bcrypt
unfoldable pub draw : {A : Type 0} → (ℕ → A) → Saga A
draw f w = (ok (f w.calls), record w { calls = suc w.calls })

-- go f()
unfoldable pub spawn : Task → Saga (Unit {0})
spawn t w = (ok tt, record w { tasks = w.tasks ++ t ∷ [] })

-- A call ends in the world before its effect or after it.
pub finish_cases {ℓ} :
    {A : Type 0} (P : World → Type ℓ) (o : Outcome) (r : Result A) (before after : World)
    → P before
    → P after
    → P (finish o r before after).1
unfolding finish
finish_cases P done r before after hb ha = ha
finish_cases P (refused e) r before after hb ha = hb
finish_cases P (lost e) r before after hb ha = ha

pub send_cases {ℓ} :
    (P : World → Type ℓ) (env : Env) (e : Effect) (w : World)
    → P (tick env w)
    → P (record (tick env w) { trace = e ∷ (tick env w).trace })
    → P (send env e w).1
unfolding send
send_cases P env e w hb ha = finish_cases P (env.outcome w.calls) (ok tt) _ _ hb ha

finish_then {ℓ} :
    {A B : Type 0} (P : World → Type ℓ) (o : Outcome) (a : A) (before after : World)
    (f : Error → Saga B) (g : A → Saga B)
    → ((e : Error) → P (f e before).1)
    → ((e : Error) → P (f e after).1)
    → P (g a after).1
    → (let (r, w) = finish o (ok a) before after in P (resume r f g w).1)
unfolding finish resume
finish_then P done a before after f g hb ha hg = hg
finish_then P (refused e) a before after f g hb ha hg = hb (external e)
finish_then P (lost e) a before after f g hb ha hg = ha (external e)

-- Where a call succeeded it took effect; where it failed it may have.
pub send_then {ℓ} :
    {B : Type 0} (P : World → Type ℓ) (env : Env) (e : Effect) (w : World) (f : Error → Saga B)
    (g : Unit {0} → Saga B)
    → (let after : World = record (tick env w) { trace = e ∷ (tick env w).trace } in
        ((x : Error) → P (f x (tick env w)).1)
        → ((x : Error) → P (f x after).1)
        → P (g tt after).1
        → P (handle (send env e) f g w).1)
unfolding send handle
send_then P env e w f g hb ha hg =
    finish_then P (env.outcome w.calls) tt (tick env w)
      (record (tick env w) { trace = e ∷ (tick env w).trace }) f g hb ha hg

pub write_cases {ℓ} :
    {A : Type 0} (P : World → Type ℓ) (env : Env) (result : ℕ → Db → Result A) (stmt : ℕ → Stmt)
    (w : World)
    → P (tick env w)
    → P (record (tick env w) { db = apply (stmt (env.clock w.calls)) (tick env w).db })
    → P (write env result stmt w).1
unfolding write
write_cases P env result stmt w hb ha = finish_cases P (env.outcome w.calls) _ _ _ hb ha

pub query_cases {ℓ} :
    {A : Type 0} (P : World → Type ℓ) (env : Env) (f : Db → Result A) (w : World)
    → P (tick env w)
    → P (query env f w).1
unfolding query
query_cases P env f w h = finish_cases P (env.outcome w.calls) _ _ _ h h
