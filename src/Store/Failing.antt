-- ===== src/Store/Failing.antt =====
-- internal/infra/postgres/repository.go: a step that has failed, under updates of the steps.
use ofm_registration_saga_se.Prelude.{
  ℕ, String, Bool, true, false, not, ◌&&◌, ◌||◌, List, [], ◌∷◌, ◌≡◌, refl, arith, ◌==◌, eq_refl,
  Bool-cases, inl, inr, if◌then◌else◌,
}
use ofm_registration_saga_se.Domain.{
  Step, StepKey, StepStatus, same_key, step_failed, step_completed, step_in_progress,
}
use ofm_registration_saga_se.Store.{has_step, same_step, update_step}
use ofm_registration_saga_se.Store.Reconcile.{any_failed}
use ofm_registration_saga_se.Store.StepOrder.{same_step-same, same_step-touched}

-- The session's step of this key has failed.
unfoldable pub failed_at : String → StepKey → List Step → Bool
failed_at id key [] = false
failed_at id key (p ∷ rest) = (same_step id key p && step_failed p.status) || failed_at id key rest

either :
    (mine is_key failed r r' : Bool)
    → (r ≡ true → r' ≡ true)
    → ((mine && is_key && failed) || r) ≡ true
    → ((mine && failed) || r') ≡ true
either mine is_key failed r r' f h = ground arith

pub failed_at-any_failed :
    (id : String) (key : StepKey) (l : List Step)
    → failed_at id key l ≡ true
    → any_failed id l ≡ true
unfolding failed_at any_failed same_step
failed_at-any_failed id key [] h = h
failed_at-any_failed id key (p ∷ rest) h =
    either (p.session_id == id) (same_key p.step_key key) (step_failed p.status)
      (failed_at id key rest) (any_failed id rest) (failed_at-any_failed id key rest) h

-- The row that an update makes of `p`, given whether it applies.
abbrev row : ℕ → StepStatus → Step → Bool → Step
row now st p b = if b then record p { status = st; updated_at = now } else p

failing :
    (now : ℕ) (p : Step) (c : Bool)
    → step_failed (row now StepStatus.failed p (not (c && false))).status ≡ true
failing now p true = refl
failing now p false = refl

pub failed_at-fails :
    (now : ℕ) (id : String) (key : StepKey) (l : List Step)
    → has_step id key l ≡ true
    → failed_at id key (update_step now id key StepStatus.failed l) ≡ true
unfolding failed_at has_step update_step
failed_at-fails now id key [] h = h
failed_at-fails now id key (p ∷ rest) h = elim (Bool-cases (same_step id key p)) [
  | inl e ↦
      rw
        (
          same_step-touched now id key StepStatus.failed p _,
          e,
          failing now p (step_completed p.status),
        )
        refl
  | inr e ↦ rw (e, e) (failed_at-fails now id key rest (rw e at h))
]

stays :
    (now : ℕ) (st : StepStatus) (p : Step) (b : Bool)
    → (b && not (step_failed st)) ≡ false
    → step_failed p.status ≡ true
    → step_failed (row now st p b).status ≡ true
stays now st p true h g = ground arith
stays now st p false h g = g

-- The update of a step of this key is one of this step.
other_or_fails :
    (id : String) (key other : StepKey) (st : StepStatus) (p : Step) (guard : Bool)
    → same_step id key p ≡ true
    → (same_key key other && not (step_failed st)) ≡ false
    → ((same_step id other p && guard) && not (step_failed st)) ≡ false
other_or_fails id key other st p guard e keep =
    rw (same_step-same id id key other p e, eq_refl id) (ground (arith, keep))

both_true : (a b : Bool) → (a && b) ≡ true → (a ≡ true) × (b ≡ true)
both_true a b h = (ground arith, ground arith)

or_true : (a b : Bool) → b ≡ true → (a || b) ≡ true
or_true a b h = ground arith

-- An update of another step, or one that fails this step, leaves it failed.
pub failed_at-update_step :
    (now : ℕ) (id : String) (key other : StepKey) (st : StepStatus) (l : List Step)
    → (same_key key other && not (step_failed st)) ≡ false
    → failed_at id key l ≡ true
    → failed_at id key (update_step now id other st l) ≡ true
unfolding failed_at update_step
failed_at-update_step now id key other st [] keep h = h
failed_at-update_step now id key other st (p ∷ rest) keep h =
    let guard = not (step_completed p.status && step_in_progress st) in
    let later = failed_at-update_step now id key other st rest keep in
    let touched = same_step-touched now id key st p (same_step id other p && guard) in
    elim (Bool-cases (same_step id key p && step_failed p.status)) [
      | inl e ↦
          let (mine, failed) = both_true (same_step id key p) (step_failed p.status) e in
          rw
            (
              touched,
              mine,
              stays now st p (same_step id other p && guard)
                  (other_or_fails id key other st p guard mine keep) failed,
            )
            refl
      | inr e ↦ or_true _ _ (later (rw e at h))
    ]
