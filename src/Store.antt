-- ===== src/Store.antt =====
-- internal/infra/postgres/repository.go and migration/postgres/000001: the two tables and the SQL
-- statements on them, as functions of the tables. A statement is atomic in the database.
pub mod Statement
pub mod Keys
pub mod Unique
pub mod Identity
pub mod Claims
pub mod Reconcile
pub mod StepOrder
pub mod Outstanding
pub mod Abstract
pub mod Failing
use ofm_registration_saga_se.Prelude.{
  ℕ, String, Bool, true, false, not, ◌&&◌, ◌||◌, Option, none, some, List, [], ◌∷◌, ltb, ◌==◌,
  if◌then◌else◌,
}
use ofm_registration_saga_se.Domain.{
  Session, Step, SessionStatus, StepStatus, StepKey, same_key, rank, is_completed, step_completed,
  step_failed, step_in_progress,
}

pub record Db : Type 0 where
  pub sessions : List Session
  pub steps : List Step

-- SELECT ... WHERE session_id=$1
unfoldable pub get_by_id : String → List Session → Option Session
get_by_id id [] = none
get_by_id id (s ∷ rest) = if s.session_id == id then some s else get_by_id id rest

-- ORDER BY created_at DESC LIMIT 1, over the rows that a test selects
unfoldable pub newer : Session → Option Session → Option Session
newer s none = some s
newer s (some t) = if ltb s.created_at t.created_at then some t else some s

unfoldable pub latest : (Session → Bool) → List Session → Option Session
unfolding newer
latest p [] = none
latest p (s ∷ rest) = let found = latest p rest in if p s then newer s found else found

unfoldable pub get_by_email : String → List Session → Option Session
get_by_email v = latest (λ s. s.email == v)

unfoldable pub get_by_username : String → List Session → Option Session
get_by_username v = latest (λ s. s.username == v)

-- The primary key and the two unique indexes of the table of sessions.
unfoldable pub clashes : Session → List Session → Bool
clashes s [] = false
clashes s (t ∷ rest) =
    t.session_id == s.session_id || t.email == s.email || t.username == s.username || clashes s rest

-- INSERT INTO registration_saga_sessions; `none` is a unique violation.
unfoldable pub insert_session : ℕ → Session → Db → Option Db
insert_session now s db =
    if clashes s db.sessions
    then none
    else some
        (record db { sessions = record s { created_at = now; updated_at = now } ∷ db.sessions })

-- UPDATE registration_saga_sessions SET status=$1,updated_at=$2 WHERE session_id=$3
unfoldable pub set_status : ℕ → String → SessionStatus → List Session → List Session
set_status now id st [] = []
set_status now id st (s ∷ rest) =
    (if s.session_id == id then record s { status = st; updated_at = now } else s)
    ∷ set_status now id st rest

-- The same with AND status='completed'; claims set 'tokens_claimed'.
unfoldable pub set_claimed : ℕ → String → List Session → List Session
set_claimed now id [] = []
set_claimed now id (s ∷ rest) =
    (if s.session_id == id && is_completed s.status
      then record s { status = SessionStatus.tokens_claimed; updated_at = now }
      else s)
    ∷ set_claimed now id rest

-- Whether the claim's RETURNING 1 has a row.
unfoldable pub has_completed : String → List Session → Bool
has_completed id [] = false
has_completed id (s ∷ rest) = (s.session_id == id && is_completed s.status) || has_completed id rest

unfoldable pub same_step : String → StepKey → Step → Bool
same_step id key p = p.session_id == id && same_key p.step_key key

unfoldable pub has_step : String → StepKey → List Step → Bool
has_step id key [] = false
has_step id key (p ∷ rest) = same_step id key p || has_step id key rest

-- INSERT INTO registration_saga_steps, whose primary key is (session_id,step_key).
unfoldable pub insert_step : ℕ → Step → Db → Option Db
insert_step now p db =
    if has_step p.session_id p.step_key db.steps
    then none
    else some (record db { steps = record p { created_at = now; updated_at = now } ∷ db.steps })

unfoldable pub get_by_key : String → StepKey → List Step → Option Step
get_by_key id key [] = none
get_by_key id key (p ∷ rest) = if same_step id key p then some p else get_by_key id key rest

-- UPDATE ... AND NOT (status='completed' AND $1='in_progress')
unfoldable pub update_step : ℕ → String → StepKey → StepStatus → List Step → List Step
update_step now id key st [] = []
update_step now id key st (p ∷ rest) =
    (if same_step id key p && not (step_completed p.status && step_in_progress st)
      then record p { status = st; updated_at = now }
      else p)
    ∷ update_step now id key st rest

-- SELECT ... WHERE session_id=$1 ORDER BY step_key
unfoldable pub insert_by_key : Step → List Step → List Step
insert_by_key p [] = p ∷ []
insert_by_key p (q ∷ rest) =
    if ltb (rank q.step_key) (rank p.step_key) then q ∷ insert_by_key p rest else p ∷ q ∷ rest

unfoldable pub list_by_session_id : String → List Step → List Step
unfolding insert_by_key
list_by_session_id id [] = []
list_by_session_id id (p ∷ rest) =
    let found = list_by_session_id id rest in
    if p.session_id == id then insert_by_key p found else found

-- The loop of ReconcileStatus, with its `break`, from a given value of `allCompleted`.
unfoldable pub reconcile_loop : Bool → List Step → SessionStatus
reconcile_loop all_completed [] =
    if all_completed then SessionStatus.code_sent else SessionStatus.in_progress
reconcile_loop all_completed (p ∷ rest) =
    if step_failed p.status
    then SessionStatus.failed
    else reconcile_loop (if step_completed p.status then all_completed else false) rest

unfoldable pub reconciled : String → Db → SessionStatus
unfolding reconcile_loop list_by_session_id
reconciled id db = reconcile_loop true (list_by_session_id id db.steps)
