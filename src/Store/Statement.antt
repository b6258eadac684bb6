-- ===== src/Store/Statement.antt =====
-- The statements as data, so that what concurrent handlers do is a list of them.
use ofm_registration_saga_se.Prelude.{ℕ, String, Option, none, some, List, [], ◌∷◌, ◌++◌, ◌≡◌, refl}
use ofm_registration_saga_se.Domain.{Session, Step, SessionStatus, StepStatus, StepKey}
use ofm_registration_saga_se.Store.{
  Db, insert_session, set_status, set_claimed, insert_step, update_step, reconciled,
}

-- The first argument of each is the time that it writes.
pub data Stmt : Type 0 where
  create_session : ℕ → Session → Stmt
  update_session : ℕ → String → SessionStatus → Stmt
  claim_completed : ℕ → String → Stmt
  reconcile : ℕ → String → Stmt
  create_step : ℕ → Step → Stmt
  update_step_status : ℕ → String → StepKey → StepStatus → Stmt

-- A refused insert changes nothing.
abbrev pub or_same : Db → Option Db → Db
or_same db none = db
or_same db (some db') = db'

unfoldable pub apply : Stmt → Db → Db
apply (create_session now s) db = or_same db (insert_session now s db)
apply (update_session now id st) db = record db { sessions = set_status now id st db.sessions }
apply (claim_completed now id) db = record db { sessions = set_claimed now id db.sessions }
apply (reconcile now id) db = record db {
  sessions = set_status now id (reconciled id db) db.sessions;
}
apply (create_step now p) db = or_same db (insert_step now p db)
apply (update_step_status now id key st) db = record db {
  steps = update_step now id key st db.steps;
}

unfoldable pub run : List Stmt → Db → Db
run [] db = db
run (q ∷ rest) db = run rest (apply q db)

pub run-append : (qs rs : List Stmt) (db : Db) → run (qs ++ rs) db ≡ run rs (run qs db)
unfolding run
run-append [] rs db = refl
run-append (q ∷ qs) rs db = run-append qs rs (apply q db)
