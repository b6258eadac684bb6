-- ===== src/Store/Abstract/Steps.antt =====
-- internal/infra/postgres/repository.go: the steps, seen through lookups by session and key.
use mathlib.Core.Option.{some-injective}
use ofm_registration_saga_se.Prelude.{
  String, Bool, true, false, not, ◌&&◌, ◌||◌, none, some, List, [], ◌∷◌, ◌≡◌, refl, subst, arith,
  ◌==◌, eq_iff, inl, inr, Bool-cases,
}
use ofm_registration_saga_se.Domain.{Step, StepKey, StepStatus, step_completed, step_failed}
use ofm_registration_saga_se.Store.{Db, same_step, has_step, get_by_key, reconciled}
use ofm_registration_saga_se.Store.Keys.{IsKeyed}
use ofm_registration_saga_se.Store.StepOrder.{same_key-eq, same_key_refl}
use ofm_registration_saga_se.Store.Reconcile.{any_failed, every_completed, reconciled-eq-verdict}
use ofm_registration_saga_se.Store.Abstract.{view, CallsFor}

-- A row of the session whose status passes a test.
abbrev some_row : (StepStatus → Bool) → String → List Step → Bool
some_row test id [] = false
some_row test id (p ∷ rest) = (p.session_id == id && test p.status) || some_row test id rest

abbrev still_open : StepStatus → Bool
still_open st = not (step_completed st)

any_failed-eq : (id : String) (l : List Step) → any_failed id l ≡ some_row step_failed id l
unfolding any_failed
any_failed-eq id [] = refl
any_failed-eq id (p ∷ rest) = rw (any_failed-eq id rest) refl

every_completed-eq :
    (id : String) (l : List Step) → every_completed id l ≡ not (some_row still_open id l)
unfolding every_completed
every_completed-eq id [] = refl
every_completed-eq id (p ∷ rest) = ground (arith, every_completed-eq id rest)

-- A step of the session, by its key, whose status passes a test, or none.
abbrev HasOne : (StepStatus → Bool) → String → List Step → Type 0
HasOne test id l =
    (k : StepKey) × (p : Step) × (get_by_key id k l ≡ some p) × (test p.status ≡ true)

abbrev HasNone : (StepStatus → Bool) → String → List Step → Type 0
HasNone test id l = (k : StepKey) (p : Step) → get_by_key id k l ≡ some p → test p.status ≡ false

at_head :
    (id : String) (p : Step) (rest : List Step)
    → (p.session_id == id) ≡ true
    → get_by_key id p.step_key (p ∷ rest) ≡ some p
unfolding get_by_key same_step
at_head id p rest h = rw (h, same_key_refl p.step_key) refl

pub absent :
    (id : String) (k : StepKey) (l : List Step) → has_step id k l ≡ false → get_by_key id k l ≡ none
unfolding has_step get_by_key
absent id k [] h = refl
absent id k (p ∷ rest) h = ground (arith, absent id k rest)

same_name :
    (id : String) (k : StepKey) (p : Step)
    → same_step id k p ≡ true
    → (p.session_id ≡ id) × (p.step_key ≡ k)
unfolding same_step
same_name id k p h =
    (ground (arith, eq_iff p.session_id id), same_key-eq p.step_key k (ground arith))

-- A row behind one of another name.
behind :
    (id : String) (k : StepKey) (p q : Step) (rest : List Step)
    → has_step p.session_id p.step_key rest ≡ false
    → get_by_key id k rest ≡ some q
    → get_by_key id k (p ∷ rest) ≡ some q
behind id k p q rest h found = elim (Bool-cases (same_step id k p)) [
  | inl same ↦
      let (is_id, is_key) = same_name id k p same in
      let none_there = absent id k rest (
        subst (λ i. has_step i k rest ≡ false) is_id
          (subst (λ x. has_step p.session_id x rest ≡ false) is_key h)) in
      cc
  | inr other ↦ unfold get_by_key in rw other found
]

some_row-HasOne :
    (test : StepStatus → Bool) (id : String) (l : List Step)
    → IsKeyed l
    → some_row test id l ≡ true
    → HasOne test id l
some_row-HasOne test id [] keyed h = cc
some_row-HasOne test id (p ∷ rest) keyed h =
    elim (Bool-cases (p.session_id == id && test p.status)) [
      | inl this ↦ (p.step_key, p, at_head id p rest (ground arith), ground arith)
      | inr other ↦
          let (k, q, found, passes) = some_row-HasOne test id rest keyed.1 (ground arith) in
          (k, q, behind id k p q rest keyed.0 found, passes)
    ]

some_row-HasNone :
    (test : StepStatus → Bool) (id : String) (l : List Step)
    → some_row test id l ≡ false
    → HasNone test id l
unfolding get_by_key
some_row-HasNone test id [] h k q found = cc
some_row-HasNone test id (p ∷ rest) h k q found = elim (Bool-cases (same_step id k p)) [
  | inl this ↦
      let same : p ≡ q = some-injective p q (rw this at found) in
      subst (λ x. test x.status ≡ false) same (head_fails (same_name id k p this).0)
  | inr other ↦ some_row-HasNone test id rest (ground arith) k q (rw other at found)
]
  where
    head_fails : p.session_id ≡ id → test p.status ≡ false
    head_fails e = ground (arith, eq_iff p.session_id id, e)

not-true : (b : Bool) → not b ≡ true → b ≡ false
not-true b h = ground arith

not-false : (b : Bool) → not b ≡ false → b ≡ true
not-false b h = ground arith

-- ReconcileStatus sets the status that the steps of the session call for.
pub reconciled-CallsFor :
    (id : String) (db : Db) → IsKeyed db.steps → CallsFor (view db) id (reconciled id db)
reconciled-CallsFor id db keyed =
    rw (reconciled-eq-verdict id db, any_failed-eq id db.steps, every_completed-eq id db.steps)
      (elim (Bool-cases (some_row step_failed id db.steps)) [
        | inl fails ↦ rw fails (inl (refl, some_row-HasOne step_failed id db.steps keyed fails))
        | inr none_fails ↦ elim (Bool-cases (some_row still_open id db.steps)) [
          | inl open_one ↦
              let (k, p, found, is_open) = some_row-HasOne still_open id db.steps keyed open_one in
              rw (none_fails, open_one)
                (inr (
                  inr (
                    refl,
                    some_row-HasNone step_failed id db.steps none_fails,
                    (k, p, found, not-true (step_completed p.status) is_open),
                  )))
          | inr none_open ↦
              rw (none_fails, none_open)
                (inr (
                  inl (
                    refl,
                    λ k p found.
                        not-false (step_completed p.status)
                          (some_row-HasNone still_open id db.steps none_open k p found),
                  )))
        ]
      ])
