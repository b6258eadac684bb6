-- ===== src/Store/StepOrder.antt =====
-- stepRepo.UpdateStatus of internal/infra/postgres/repository.go and its guard.
use ofm_registration_saga_se.Prelude.{
  ℕ, String, Bool, true, false, ◌&&◌, Option, none, some, List, [], ◌∷◌, ◌≡◌, refl, arith, ◌==◌,
  eq_iff, ◌||◌, ◌⊎◌, ◌∙◌, inl, inr, Bool-cases, if◌then◌else◌,
}
use ofm_registration_saga_se.Domain.{
  Session, Step, StepKey, StepStatus, same_key, step_completed, step_in_progress,
}
use ofm_registration_saga_se.Store.{
  Db, insert_session, same_step, has_step, insert_step, get_by_key, update_step,
}
use ofm_registration_saga_se.Store.Statement.{
  Stmt, create_session, update_session, claim_completed, reconcile, create_step, update_step_status,
  or_same, apply, run,
}

-- What an update makes of the row that it finds.
abbrev pub updated : ℕ → StepStatus → Option Step → Option Step
updated now st none = none
updated now st (some p) =
    if step_completed p.status && step_in_progress st
    then some p
    else some (record p { status = st; updated_at = now })

pub same_key-eq : (a b : StepKey) → same_key a b ≡ true → a ≡ b
same_key-eq a b h = ground arith

pub same_key_refl : (a : StepKey) → same_key a a ≡ true
same_key_refl a = ground arith

-- Two names of a row agree.
pub same_step-same :
    (id i : String) (key k : StepKey) (p : Step)
    → same_step id key p ≡ true
    → same_step i k p ≡ (id == i && same_key key k)
unfolding same_step
same_step-same id i key k p h = ground (arith, eq_iff p.session_id id, same_key-eq p.step_key key)

-- A row that one name does not fit is not found by it.
same_step-other :
    (id i : String) (key k : StepKey) (p : Step)
    → same_step i k p ≡ true
    → same_step id key p ≡ false
    → (id == i && same_key key k) ≡ false
unfolding same_step
same_step-other id i key k p h g = ground (
  arith,
  eq_iff p.session_id i,
  eq_iff id i,
  same_key-eq p.step_key k,
  same_key-eq key k,
  same_key_refl key,
  eq_iff p.session_id id,
)

pub same_step-touched :
    (now : ℕ) (i : String) (k : StepKey) (st : StepStatus) (p : Step) (b : Bool)
    → same_step i k (if b then record p { status = st; updated_at = now } else p) ≡ same_step i k p
unfolding same_step
same_step-touched now i k st p true = refl
same_step-touched now i k st p false = refl

-- A row read after an update: the row updated if it is the one named, else the row as it was.
pub get_by_key-update_step :
    (now : ℕ) (id i : String) (key k : StepKey) (st : StepStatus) (l : List Step)
    → get_by_key i k (update_step now id key st l)
      ≡ (if id == i && same_key key k then updated now st (get_by_key i k l) else get_by_key i k l)
unfolding get_by_key update_step
get_by_key-update_step now id i key k st [] = ground arith
get_by_key-update_step now id i key k st (p ∷ rest) = elim (Bool-cases (same_step i k p)) [
  | inr other ↦
      rw (same_step-touched now i k st p _, other) (get_by_key-update_step now id i key k st rest)
  | inl this ↦
      rw (same_step-touched now i k st p _, this)
        (elim (Bool-cases (same_step id key p)) [
          | inl named ↦ rw (named, ← same_step-same id i key k p named, this) (ground arith)
          | inr not_named ↦ rw (not_named, same_step-other id i key k p this not_named) refl
        ])
]

abbrev status_done : Option Step → Bool
status_done none = false
status_done (some p) = step_completed p.status

-- The step is there and is completed.
abbrev pub is_done : String → StepKey → Db → Bool
is_done id key db = status_done (get_by_key id key db.steps)

-- The statement does not write "pending" or "failed" to the step.
abbrev pub Spares : String → StepKey → Stmt → Type 0
Spares id key (update_step_status now i k st) =
    ((i == id && same_key k key) ≡ false) ⊎ ((step_completed st || step_in_progress st) ≡ true)
Spares id key _ = Unit

abbrev pub AllSpare : String → StepKey → List Stmt → Type 0
AllSpare id key [] = Unit
AllSpare id key (q ∷ rest) = Spares id key q × AllSpare id key rest

get_by_key-absent :
    (id : String) (key : StepKey) (l : List Step)
    → has_step id key l ≡ false
    → get_by_key id key l ≡ none
unfolding has_step get_by_key
get_by_key-absent id key [] h = refl
get_by_key-absent id key (p ∷ rest) h = ground (arith, get_by_key-absent id key rest)

is_done-insert_step :
    (now : ℕ) (p : Step) (id : String) (key : StepKey) (db : Db)
    → is_done id key db ≡ true
    → is_done id key (or_same db (insert_step now p db)) ≡ true
unfolding insert_step get_by_key same_step
is_done-insert_step now p id key db h =
    ground
      (arith, get_by_key-absent id key db.steps, eq_iff p.session_id id, same_key-eq p.step_key key)

is_done-insert_session :
    (now : ℕ) (s : Session) (id : String) (key : StepKey) (db : Db)
    → is_done id key (or_same db (insert_session now s db)) ≡ is_done id key db
unfolding insert_session
is_done-insert_session now s id key db = ground arith

is_done-apply :
    (id : String) (key : StepKey) (q : Stmt) (db : Db)
    → Spares id key q
    → is_done id key db ≡ true
    → is_done id key (apply q db) ≡ true
unfolding apply
is_done-apply id key (create_session now s) db g h = is_done-insert_session now s id key db ∙ h
is_done-apply id key (update_session now i st) db g h = h
is_done-apply id key (claim_completed now i) db g h = h
is_done-apply id key (reconcile now i) db g h = h
is_done-apply id key (create_step now p) db g h = is_done-insert_step now p id key db h
is_done-apply id key (update_step_status now i k st) db g h =
    ground (arith, get_by_key-update_step now i id k key st db.steps)

-- Once a step is completed it stays so, in whatever order activations and further successes of it
-- arrive: only a write of "failed" or "pending" to the same step can change that.
pub is_done-run :
    (id : String) (key : StepKey) (qs : List Stmt) (db : Db)
    → AllSpare id key qs
    → is_done id key db ≡ true
    → is_done id key (run qs db) ≡ true
unfolding run
is_done-run id key [] db g h = h
is_done-run id key (q ∷ rest) db g h =
    is_done-run id key rest (apply q db) g.1 (is_done-apply id key q db g.0 h)
