-- ===== src/Store/Claims.antt =====
-- ClaimCompleted of internal/infra/postgres/repository.go: how often a claim can win.
use ofm_registration_saga_se.Prelude.{
  ℕ, ◌+◌, ◌≤◌, String, Bool, true, false, ◌&&◌, List, [], ◌∷◌, ◌≡◌, arith, ◌==◌, eq_iff,
  if◌then◌else◌,
}
use ofm_registration_saga_se.Domain.{Session, Step, SessionStatus, is_completed, step_completed}
use ofm_registration_saga_se.Store.{
  Db, insert_session, set_status, set_claimed, has_completed, insert_step, reconciled,
  reconcile_loop, list_by_session_id,
}
use ofm_registration_saga_se.Store.Statement.{
  Stmt, create_session, update_session, claim_completed, reconcile, create_step, update_step_status,
  or_same, apply, run,
}

abbrev pub as_number : Bool → ℕ
as_number true = 1
as_number false = 0

-- 1 if the statement is a claim for the session that finds it completed.
abbrev pub wins : String → Stmt → Db → ℕ
wins id (claim_completed now i) db = as_number (i == id && has_completed id db.sessions)
wins id _ db = 0

-- 1 if the statement writes "completed" to the session.
abbrev pub completes : String → Stmt → ℕ
completes id (update_session now i st) = as_number (i == id && is_completed st)
completes id (create_session now s) = as_number (s.session_id == id && is_completed s.status)
completes id _ = 0

-- The successful claims in a run of statements, and the writes of "completed".
pub claims : String → List Stmt → Db → ℕ
claims id [] db = 0
claims id (q ∷ rest) db = wins id q db + claims id rest (apply q db)

unfoldable pub completions : String → List Stmt → ℕ
completions id [] = 0
completions id (q ∷ rest) = completes id q + completions id rest

abbrev pub claimable : String → Db → ℕ
claimable id db = as_number (has_completed id db.sessions)

-- What an update of session `i` leaves of a completed session `id`.
has_completed-set_status :
    (now : ℕ) (i id : String) (st : SessionStatus) (l : List Session)
    → as_number (has_completed id (set_status now i st l))
      ≤ as_number (i == id && is_completed st) + as_number (has_completed id l)
unfolding has_completed set_status
has_completed-set_status now i id st [] = ground arith
has_completed-set_status now i id st (s ∷ rest) = ground (
  arith,
  has_completed-set_status now i id st rest,
  eq_iff s.session_id i,
  eq_iff s.session_id id,
  eq_iff i id,
)

-- After a claim the session is not completed.
has_completed-set_claimed :
    (now : ℕ) (i id : String) (l : List Session)
    → has_completed id (set_claimed now i l) ≡ (if i == id then false else has_completed id l)
unfolding has_completed set_claimed
has_completed-set_claimed now i id [] = ground arith
has_completed-set_claimed now i id (s ∷ rest) = ground (
  arith,
  has_completed-set_claimed now i id rest,
  eq_iff s.session_id i,
  eq_iff s.session_id id,
  eq_iff i id,
)

reconcile_loop-ne-completed : (b : Bool) (l : List Step) → is_completed (reconcile_loop b l) ≡ false
unfolding reconcile_loop
reconcile_loop-ne-completed b [] = ground arith
reconcile_loop-ne-completed b (p ∷ rest) =
    ground (arith, reconcile_loop-ne-completed (if step_completed p.status then b else false) rest)

reconciled-ne-completed : (id : String) (db : Db) → is_completed (reconciled id db) ≡ false
unfolding reconciled
reconciled-ne-completed id db = reconcile_loop-ne-completed true (list_by_session_id id db.steps)

has_completed-insert :
    (now : ℕ) (s : Session) (id : String) (db : Db)
    → claimable id (or_same db (insert_session now s db))
      ≤ completes id (create_session now s) + claimable id db
unfolding insert_session has_completed
has_completed-insert now s id db = ground arith

claimable-insert_step :
    (now : ℕ) (p : Step) (id : String) (db : Db)
    → claimable id (or_same db (insert_step now p db)) ≡ claimable id db
unfolding insert_step
claimable-insert_step now p id db = ground arith

-- A claim that wins uses up the completion.
pub wins-le :
    (id : String) (q : Stmt) (db : Db)
    → wins id q db + claimable id (apply q db) ≤ completes id q + claimable id db
unfolding apply
wins-le id (create_session now s) db = omega (arith, has_completed-insert now s id db)
wins-le id (update_session now i st) db =
    omega (arith, has_completed-set_status now i id st db.sessions)
wins-le id (claim_completed now i) db =
    ground (arith, has_completed-set_claimed now i id db.sessions)
wins-le id (reconcile now i) db = ground (
  arith,
  has_completed-set_status now i id (reconciled i db) db.sessions,
  reconciled-ne-completed i db,
)
wins-le id (create_step now p) db = ground (arith, claimable-insert_step now p id db)
wins-le id (update_step_status now i key st) db = ground arith

-- Whatever statements run, in whatever order, a session's tokens are claimed at most once for each
-- time that "completed" is written to it, and once more if it was completed at the start.
pub claims-le-completions :
    (id : String) (qs : List Stmt) (db : Db) → claims id qs db ≤ completions id qs + claimable id db
unfolding claims completions
claims-le-completions id [] db = omega arith
claims-le-completions id (q ∷ rest) db =
    omega (arith, wins-le id q db, claims-le-completions id rest (apply q db))

-- What statements leave of a completed session.
pub claimable-run :
    (id : String) (qs : List Stmt) (db : Db)
    → claimable id (run qs db) ≤ completions id qs + claimable id db
unfolding run completions
claimable-run id [] db = omega arith
claimable-run id (q ∷ rest) db = omega (arith, wins-le id q db, claimable-run id rest (apply q db))
