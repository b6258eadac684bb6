-- ===== src/Store/Abstract/Refines.antt =====
-- internal/infra/postgres: the tables of rows implement the two maps.
use ofm_registration_saga_se.Prelude.{
  ℕ, String, true, some, List, [], ◌∷◌, ◌≡◌, refl, arith, inl, inr, Bool-cases,
}
use ofm_registration_saga_se.Domain.{Session, Step, StepKey}
use ofm_registration_saga_se.Store.{
  Db, get_by_id, get_by_key, clashes, insert_session, has_step, same_step, insert_step, reconciled,
}
use ofm_registration_saga_se.Store.Statement.{
  Stmt, create_session, update_session, claim_completed, reconcile, create_step, update_step_status,
  or_same, apply, run,
}
use ofm_registration_saga_se.Store.Unique.{
  IsConsistent, run-IsConsistent, clashes-AllDiffer, HasOneOfEach-IsKeyed,
}
use ofm_registration_saga_se.Store.StepOrder.{get_by_key-update_step}
use ofm_registration_saga_se.Store.Abstract.{view, Promises, Runs, here, next}
use ofm_registration_saga_se.Store.Abstract.Sessions.{
  get_by_id-set_status, get_by_id-set_claimed, clashes-IsFree, clashes-found,
}
use ofm_registration_saga_se.Store.Abstract.Steps.{reconciled-CallsFor, absent}

insert_session-Promises :
    (now : ℕ) (s : Session) (db : Db)
    → IsConsistent db
    → Promises (create_session now s) (view db) (view (or_same db (insert_session now s db)))
unfolding insert_session
insert_session-Promises now s db h = elim (Bool-cases (clashes s db.sessions)) [
  | inl e ↦
      let (t, found, clash) = clashes-found s db.sessions h.unique e in
      rw e (inr ((t.session_id, t, found, clash), λ i. refl, λ i k. refl))
  | inr e ↦ rw e (
      inl (
        λ i t found. clashes-IsFree s i t db.sessions (clashes-AllDiffer s db.sessions e) found,
        (λ i. unfold get_by_id in refl, λ i k. refl),
      ))
]

has_step-found :
    (id : String) (k : StepKey) (l : List Step)
    → has_step id k l ≡ true
    → (q : Step) × (get_by_key id k l ≡ some q)
unfolding has_step get_by_key
has_step-found id k [] h = cc
has_step-found id k (p ∷ rest) h = elim (Bool-cases (same_step id k p)) [
  | inl e ↦ (p, rw e refl)
  | inr e ↦ let (q, found) = has_step-found id k rest (ground arith) in (q, rw e found)
]

insert_step-Promises :
    (now : ℕ) (p : Step) (db : Db)
    → Promises (create_step now p) (view db) (view (or_same db (insert_step now p db)))
unfolding insert_step
insert_step-Promises now p db = elim (Bool-cases (has_step p.session_id p.step_key db.steps)) [
  | inl e ↦ rw e (inr (has_step-found p.session_id p.step_key db.steps e, λ i. refl, λ i k. refl))
  | inr e ↦ rw e (
      inl (
        absent p.session_id p.step_key db.steps e,
        (λ i k. unfold get_by_key same_step in refl, λ i. refl),
      ))
]

apply-Promises : (q : Stmt) (db : Db) → IsConsistent db → Promises q (view db) (view (apply q db))
unfolding apply
apply-Promises (create_session now s) db h = insert_session-Promises now s db h
apply-Promises (update_session now id st) db h =
    (λ i. get_by_id-set_status i now id st db.sessions, λ i k. refl)
apply-Promises (claim_completed now id) db h =
    (λ i. get_by_id-set_claimed i now id db.sessions, λ i k. refl)
apply-Promises (reconcile now id) db h = (
  reconciled id db,
  reconciled-CallsFor id db (HasOneOfEach-IsKeyed db.steps h.one_of_each),
  (λ i. get_by_id-set_status i now id (reconciled id db) db.sessions, λ i k. refl),
)
apply-Promises (create_step now p) db h = insert_step-Promises now p db
apply-Promises (update_step_status now id key st) db h =
    (λ i k. get_by_key-update_step now id i key k st db.steps, λ i. refl)

-- Tables in which no two sessions share an id, an email or a username, and no two steps share a
-- session and a key, stand for two maps: a session for an id, and a step for an id and a key. Any
-- sequence of statements does to the maps, one after the other, what each statement promises, with
-- the order and the representation of the rows forgotten.
pub run-Runs : (qs : List Stmt) (db : Db) → IsConsistent db → Runs qs (view db) (view (run qs db))
unfolding run
run-Runs [] db h = here (λ i. refl) (λ i k. refl)
run-Runs (q ∷ rest) db h =
    next (apply-Promises q db h) (run-Runs rest (apply q db) (run-IsConsistent (q ∷ []) db h))
