-- ===== src/Store/Outstanding.antt =====
-- internal/infra/postgres/repository.go: the steps of a session that are still to be completed.
use mathlib.Core.Option.{some-injective}
use ofm_registration_saga_se.Prelude.{
  ℕ, String, Bool, true, false, not, ◌&&◌, ◌||◌, some, List, [], ◌∷◌, ◌≡◌, refl, arith, ◌==◌,
  if◌then◌else◌, Bool-cases, inl, inr,
}
use ofm_registration_saga_se.Domain.{
  Session, Step, SessionStatus, StepKey, StepStatus, step_completed, step_failed, same_key,
}
use ofm_registration_saga_se.Store.{Db, update_step, same_step, get_by_id, set_status, reconciled}
use ofm_registration_saga_se.Store.Reconcile.{any_failed, every_completed, reconciled-eq-verdict}

-- What is asked of a step: by whether it is the session's, its status, and whether its key is
-- outstanding.
abbrev in_order : Bool → StepStatus → Bool → Bool
in_order mine st outstanding =
    if mine then not (step_failed st) && (outstanding || step_completed st) else true

abbrev row : (StepKey → Bool) → String → Step → Bool
row outstanding id p = in_order (p.session_id == id) p.status (outstanding p.step_key)

-- No step of the session has failed, and one that is not completed has an outstanding key.
unfoldable pub all_but : (StepKey → Bool) → String → List Step → Bool
all_but outstanding id [] = true
all_but outstanding id (p ∷ rest) = row outstanding id p && all_but outstanding id rest

-- The keys that are left when one is completed.
abbrev pub without : (StepKey → Bool) → StepKey → StepKey → Bool
without outstanding key k = outstanding k && not (same_key k key)

both :
    (a b c d : Bool)
    → (a ≡ true → c ≡ true)
    → (b ≡ true → d ≡ true)
    → (a && b) ≡ true
    → (c && d) ≡ true
both true true c d f g h = rw (f refl, g refl) refl
both true false c d f g h = cc
both false b c d f g h = cc

row_if :
    (outstanding : StepKey → Bool) (id : String) (b : Bool) (p : Step) (st : StepStatus) (now : ℕ)
    → row outstanding id (if b then record p { status = st; updated_at = now } else p)
      ≡ in_order (p.session_id == id) (if b then st else p.status) (outstanding p.step_key)
row_if outstanding id true p st now = refl
row_if outstanding id false p st now = refl

completed_row :
    (mine matches outstanding : Bool) (st : StepStatus)
    → in_order mine st outstanding ≡ true
    → in_order mine
        (if (mine && matches) && not (step_completed st && false) then StepStatus.completed else st)
        (outstanding && not matches)
      ≡ true
completed_row mine matches outstanding st h = ground arith

in_progress_row :
    (mine matches outstanding : Bool) (st : StepStatus)
    → in_order mine st outstanding ≡ true
    → in_order mine
        (if (mine && matches) && not (step_completed st && true)
          then StepStatus.in_progress
          else st)
        outstanding
      ≡ true
in_progress_row mine matches outstanding st h = ground arith

pub all_but-completed :
    (outstanding : StepKey → Bool) (now : ℕ) (id : String) (key : StepKey) (l : List Step)
    → all_but outstanding id l ≡ true
    → all_but (without outstanding key) id (update_step now id key StepStatus.completed l) ≡ true
unfolding all_but update_step same_step
all_but-completed outstanding now id key [] h = refl
all_but-completed outstanding now id key (p ∷ rest) h =
    both (row outstanding id p) (all_but outstanding id rest) _ _
      (λ r. rw (row_if (without outstanding key) id _ p StepStatus.completed now) (
        completed_row (p.session_id == id) (same_key p.step_key key) (outstanding p.step_key)
          p.status r))
      (all_but-completed outstanding now id key rest) h

pub all_but-in_progress :
    (outstanding : StepKey → Bool) (now : ℕ) (id : String) (key : StepKey) (l : List Step)
    → all_but outstanding id l ≡ true
    → all_but outstanding id (update_step now id key StepStatus.in_progress l) ≡ true
unfolding all_but update_step same_step
all_but-in_progress outstanding now id key [] h = refl
all_but-in_progress outstanding now id key (p ∷ rest) h =
    both (row outstanding id p) (all_but outstanding id rest) _ _
      (λ r. rw (row_if outstanding id _ p StepStatus.in_progress now) (
        in_progress_row (p.session_id == id) (same_key p.step_key key) (outstanding p.step_key)
          p.status r))
      (all_but-in_progress outstanding now id key rest) h

pub all_but-any_failed :
    (outstanding : StepKey → Bool) (id : String) (l : List Step)
    → all_but outstanding id l ≡ true
    → any_failed id l ≡ false
unfolding all_but any_failed
all_but-any_failed outstanding id [] h = refl
all_but-any_failed outstanding id (p ∷ rest) h =
    ground (arith, all_but-any_failed outstanding id rest)

pub all_but-every_completed :
    (outstanding : StepKey → Bool) (id : String) (l : List Step)
    → ((k : StepKey) → outstanding k ≡ false)
    → all_but outstanding id l ≡ true
    → every_completed id l ≡ true
unfolding all_but every_completed
all_but-every_completed outstanding id [] none_left h = refl
all_but-every_completed outstanding id (p ∷ rest) none_left h =
    ground (arith, none_left p.step_key, all_but-every_completed outstanding id rest none_left)

-- The row of the session after an update of its status.
pub get_by_id-set_status :
    (now : ℕ) (id : String) (st : SessionStatus) (l : List Session) (s : Session)
    → get_by_id id l ≡ some s
    → get_by_id id (set_status now id st l) ≡ some (record s { status = st; updated_at = now })
unfolding get_by_id set_status
get_by_id-set_status now id st [] s h = cc
get_by_id-set_status now id st (t ∷ rest) s h = elim (Bool-cases (t.session_id == id)) [
  | inl e ↦ let same : t ≡ s = some-injective t s (rw e at h) in rw (e, e, same) refl
  | inr e ↦ rw (e, e) (get_by_id-set_status now id st rest s (rw e at h))
]

pub reconciled-code_sent :
    (outstanding : StepKey → Bool) (id : String) (db : Db)
    → ((k : StepKey) → outstanding k ≡ false)
    → all_but outstanding id db.steps ≡ true
    → reconciled id db ≡ SessionStatus.code_sent
reconciled-code_sent outstanding id db none_left h =
    rw
      (
        reconciled-eq-verdict id db,
        all_but-any_failed outstanding id db.steps h,
        all_but-every_completed outstanding id db.steps none_left h,
      )
      refl
