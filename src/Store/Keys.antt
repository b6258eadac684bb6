-- ===== src/Store/Keys.antt =====
-- migration/postgres/000001: the primary keys and the unique indexes under the statements.
use ofm_registration_saga_se.Prelude.{
  ℕ, String, false, List, [], ◌∷◌, ◌≡◌, refl, arith, inl, inr, Bool-cases,
}
use ofm_registration_saga_se.Domain.{Session, Step, SessionStatus, StepKey, StepStatus}
use ofm_registration_saga_se.Store.{
  Db, clashes, insert_session, set_status, set_claimed, same_step, has_step, insert_step,
  update_step,
}
use ofm_registration_saga_se.Store.Statement.{
  Stmt, create_session, update_session, claim_completed, reconcile, create_step, update_step_status,
  or_same, apply, run,
}

-- As the indexes see it: no row clashes with a later one.
abbrev pub IsIndexed : List Session → Type 0
IsIndexed [] = Unit
IsIndexed (s ∷ rest) = (clashes s rest ≡ false) × IsIndexed rest

abbrev pub IsKeyed : List Step → Type 0
IsKeyed [] = Unit
IsKeyed (p ∷ rest) = (has_step p.session_id p.step_key rest ≡ false) × IsKeyed rest

-- The rows of both tables as the indexes see them.
pub record IsSound (db : Db) : Type 0 where
  pub indexed : IsIndexed db.sessions
  pub keyed : IsKeyed db.steps

clashes-set_status :
    (now : ℕ) (id : String) (st : SessionStatus) (s : Session) (l : List Session)
    → clashes s (set_status now id st l) ≡ clashes s l
unfolding clashes set_status
clashes-set_status now id st s [] = refl
clashes-set_status now id st s (t ∷ rest) = ground (arith, clashes-set_status now id st s rest)

-- An update of the status leaves the keys of a row alone.
clashes_touched :
    (now : ℕ) (st : SessionStatus) (s : Session) (l : List Session)
    → clashes (record s { status = st; updated_at = now }) l ≡ clashes s l
unfolding clashes
clashes_touched now st s [] = refl
clashes_touched now st s (t ∷ rest) = rw (clashes_touched now st s rest)

clashes_created :
    (now : ℕ) (s : Session) (l : List Session)
    → clashes (record s { created_at = now; updated_at = now }) l ≡ clashes s l
unfolding clashes
clashes_created now s [] = refl
clashes_created now s (t ∷ rest) = rw (clashes_created now s rest)

set_status-IsIndexed :
    (now : ℕ) (id : String) (st : SessionStatus) (l : List Session)
    → IsIndexed l
    → IsIndexed (set_status now id st l)
unfolding set_status
set_status-IsIndexed now id st [] h = h
set_status-IsIndexed now id st (s ∷ rest) h = (
  ground (
    arith,
    clashes_touched now st s (set_status now id st rest),
    clashes-set_status now id st s rest,
  ),
  set_status-IsIndexed now id st rest h.1,
)

clashes-set_claimed :
    (now : ℕ) (id : String) (s : Session) (l : List Session)
    → clashes s (set_claimed now id l) ≡ clashes s l
unfolding clashes set_claimed
clashes-set_claimed now id s [] = refl
clashes-set_claimed now id s (t ∷ rest) = ground (arith, clashes-set_claimed now id s rest)

set_claimed-IsIndexed :
    (now : ℕ) (id : String) (l : List Session) → IsIndexed l → IsIndexed (set_claimed now id l)
unfolding set_claimed
set_claimed-IsIndexed now id [] h = h
set_claimed-IsIndexed now id (s ∷ rest) h = (
  ground (
    arith,
    clashes_touched now SessionStatus.tokens_claimed s (set_claimed now id rest),
    clashes-set_claimed now id s rest,
  ),
  set_claimed-IsIndexed now id rest h.1,
)

pub has_step-update_step :
    (now : ℕ) (id : String) (key : StepKey) (st : StepStatus) (i : String) (k : StepKey)
    (l : List Step)
    → has_step i k (update_step now id key st l) ≡ has_step i k l
unfolding has_step update_step same_step
has_step-update_step now id key st i k [] = refl
has_step-update_step now id key st i k (p ∷ rest) =
    ground (arith, has_step-update_step now id key st i k rest)

update_step-IsKeyed :
    (now : ℕ) (id : String) (key : StepKey) (st : StepStatus) (l : List Step)
    → IsKeyed l
    → IsKeyed (update_step now id key st l)
unfolding update_step
update_step-IsKeyed now id key st [] h = h
update_step-IsKeyed now id key st (p ∷ rest) h = (
  ground (arith, has_step-update_step now id key st p.session_id p.step_key rest),
  update_step-IsKeyed now id key st rest h.1,
)

insert_session-IsSound :
    (now : ℕ) (s : Session) (db : Db) → IsSound db → IsSound (or_same db (insert_session now s db))
unfolding insert_session
insert_session-IsSound now s db h = elim (Bool-cases (clashes s db.sessions)) [
  | inl e ↦ rw (e, or_same) h
  | inr e ↦
      rw (e, or_same)
        (record {
          indexed = (rw (clashes_created now s db.sessions) e, h.indexed);
          keyed = h.keyed;
        })
]

insert_step-IsSound :
    (now : ℕ) (p : Step) (db : Db) → IsSound db → IsSound (or_same db (insert_step now p db))
unfolding insert_step
insert_step-IsSound now p db h = elim (Bool-cases (has_step p.session_id p.step_key db.steps)) [
  | inl e ↦ rw (e, or_same) h
  | inr e ↦ rw (e, or_same) (record { indexed = h.indexed; keyed = (e, h.keyed) })
]

apply-IsSound : (q : Stmt) (db : Db) → IsSound db → IsSound (apply q db)
unfolding apply
apply-IsSound (create_session now s) db h = insert_session-IsSound now s db h
apply-IsSound (update_session now id st) db h = record {
  indexed = set_status-IsIndexed now id st db.sessions h.indexed;
  keyed = h.keyed;
}
apply-IsSound (claim_completed now id) db h = record {
  indexed = set_claimed-IsIndexed now id db.sessions h.indexed;
  keyed = h.keyed;
}
apply-IsSound (reconcile now id) db h = record {
  indexed = set_status-IsIndexed now id _ db.sessions h.indexed;
  keyed = h.keyed;
}
apply-IsSound (create_step now p) db h = insert_step-IsSound now p db h
apply-IsSound (update_step_status now id key st) db h = record {
  indexed = h.indexed;
  keyed = update_step-IsKeyed now id key st db.steps h.keyed;
}

pub run-IsSound : (qs : List Stmt) (db : Db) → IsSound db → IsSound (run qs db)
unfolding run
run-IsSound [] db h = h
run-IsSound (q ∷ rest) db h = run-IsSound rest (apply q db) (apply-IsSound q db h)
