-- ===== src/Store/Reconcile.antt =====
-- ReconcileStatus of internal/infra/postgres/repository.go and the statuses of the steps.
use ofm_registration_saga_se.Prelude.{
  String, Bool, true, false, ◌&&◌, ◌||◌, List, [], ◌∷◌, ◌≡◌, refl, arith, ◌==◌, if◌then◌else◌,
}
use ofm_registration_saga_se.Domain.{Step, SessionStatus, step_completed, step_failed}
use ofm_registration_saga_se.Store.{
  Db, insert_by_key, list_by_session_id, reconcile_loop, reconciled,
}

-- Some step of the session has failed; every step of the session is completed.
unfoldable pub any_failed : String → List Step → Bool
any_failed id [] = false
any_failed id (p ∷ rest) = (p.session_id == id && step_failed p.status) || any_failed id rest

unfoldable pub every_completed : String → List Step → Bool
every_completed id [] = true
every_completed id (p ∷ rest) =
    (if p.session_id == id then step_completed p.status else true) && every_completed id rest

-- A failure outweighs all else; the code counts as sent once every step is completed.
abbrev pub verdict : Bool → Bool → SessionStatus
verdict true all = SessionStatus.failed
verdict false true = SessionStatus.code_sent
verdict false false = SessionStatus.in_progress

abbrev some_failed : List Step → Bool
some_failed [] = false
some_failed (p ∷ rest) = step_failed p.status || some_failed rest

abbrev all_completed : List Step → Bool
all_completed [] = true
all_completed (p ∷ rest) = step_completed p.status && all_completed rest

some_failed-insert :
    (p : Step) (l : List Step) → some_failed (insert_by_key p l) ≡ some_failed (p ∷ l)
unfolding insert_by_key
some_failed-insert p [] = refl
some_failed-insert p (q ∷ rest) = ground (arith, some_failed-insert p rest)

all_completed-insert :
    (p : Step) (l : List Step) → all_completed (insert_by_key p l) ≡ all_completed (p ∷ l)
unfolding insert_by_key
all_completed-insert p [] = refl
all_completed-insert p (q ∷ rest) = ground (arith, all_completed-insert p rest)

some_failed-list :
    (id : String) (l : List Step) → some_failed (list_by_session_id id l) ≡ any_failed id l
unfolding list_by_session_id any_failed
some_failed-list id [] = refl
some_failed-list id (p ∷ rest) =
    ground (arith, some_failed-list id rest, some_failed-insert p (list_by_session_id id rest))

all_completed-list :
    (id : String) (l : List Step) → all_completed (list_by_session_id id l) ≡ every_completed id l
unfolding list_by_session_id every_completed
all_completed-list id [] = refl
all_completed-list id (p ∷ rest) =
    ground (arith, all_completed-list id rest, all_completed-insert p (list_by_session_id id rest))

reconcile_loop-eq :
    (b : Bool) (l : List Step) → reconcile_loop b l ≡ verdict (some_failed l) (b && all_completed l)
unfolding reconcile_loop
reconcile_loop-eq b [] = ground arith
reconcile_loop-eq b (p ∷ rest) =
    ground (arith, reconcile_loop-eq (if step_completed p.status then b else false) rest)

-- The ordered listing, its loop and the early `break` amount to: failed if any step of the session
-- has failed, else code_sent if all are completed, else in_progress.
pub reconciled-eq-verdict :
    (id : String) (db : Db)
    → reconciled id db ≡ verdict (any_failed id db.steps) (every_completed id db.steps)
unfolding reconciled
reconciled-eq-verdict id db =
    rw (reconcile_loop-eq, some_failed-list id db.steps, all_completed-list id db.steps)
