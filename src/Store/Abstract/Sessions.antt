-- ===== src/Store/Abstract/Sessions.antt =====
-- internal/infra/postgres/repository.go: the statements on sessions, seen through lookups by id.
use mathlib.Core.Option.{some-injective}
use ofm_registration_saga_se.Prelude.{
  ℕ, String, Bool, true, false, ◌||◌, some, List, [], ◌∷◌, ◌≡◌, ◌≢◌, refl, sym, subst, arith, ◌==◌,
  eq_iff, eq_refl, inl, inr, ◌⊎◌, Bool-cases, if◌then◌else◌,
}
use ofm_registration_saga_se.Domain.{Session, SessionStatus}
use ofm_registration_saga_se.Store.{get_by_id, set_status, set_claimed, clashes}
use ofm_registration_saga_se.Store.Unique.{Differ, AllDiffer, IsUnique}
use ofm_registration_saga_se.Store.Abstract.{over, marked, marked_if_completed}

marked-session_id :
    (now : ℕ) (st : SessionStatus) (b : Bool) (s : Session) (i : String)
    → ((if b then marked now st s else s).session_id == i) ≡ (s.session_id == i)
marked-session_id now st true s i = refl
marked-session_id now st false s i = refl

same_ids : (a id i : String) → (a == i) ≡ true → (id == i) ≡ (a == id)
same_ids a id i h = ground (arith, eq_iff a i, eq_iff a id, eq_iff id i)

pub get_by_id-set_status :
    (i : String) (now : ℕ) (id : String) (st : SessionStatus) (l : List Session)
    → get_by_id i (set_status now id st l)
      ≡ (if id == i then over (marked now st) (get_by_id i l) else get_by_id i l)
unfolding set_status get_by_id
get_by_id-set_status i now id st [] = ground arith
get_by_id-set_status i now id st (s ∷ rest) = elim (Bool-cases (s.session_id == i)) [
  | inr other ↦ rw (marked-session_id now st _ s i, other) (get_by_id-set_status i now id st rest)
  | inl this ↦
      rw (marked-session_id now st _ s i, this, same_ids s.session_id id i this) (ground arith)
]

pub get_by_id-set_claimed :
    (i : String) (now : ℕ) (id : String) (l : List Session)
    → get_by_id i (set_claimed now id l)
      ≡ (if id == i then over (marked_if_completed now) (get_by_id i l) else get_by_id i l)
unfolding set_claimed get_by_id
get_by_id-set_claimed i now id [] = ground arith
get_by_id-set_claimed i now id (s ∷ rest) = elim (Bool-cases (s.session_id == i)) [
  | inr other ↦
      rw (marked-session_id now SessionStatus.tokens_claimed _ s i, other)
        (get_by_id-set_claimed i now id rest)
  | inl this ↦
      rw
        (
          marked-session_id now SessionStatus.tokens_claimed _ s i,
          this,
          same_ids s.session_id id i this,
        )
        (ground arith)
]

-- A row that is found differs from one that clashes with no row.
pub clashes-IsFree :
    (s : Session) (i : String) (t : Session) (l : List Session)
    → AllDiffer s l
    → get_by_id i l ≡ some t
    → Differ s t
unfolding get_by_id
clashes-IsFree s i t [] h e = cc
clashes-IsFree s i t (u ∷ rest) h e = elim (Bool-cases (u.session_id == i)) [
  | inl this ↦ let same : u ≡ t = some-injective u t (rw this at e) in subst (Differ s) same h.0
  | inr other ↦ clashes-IsFree s i t rest h.1 (rw other at e)
]

-- The row that clashes is found by its id, where ids are unique.
abbrev pub Clashing : Session → Session → Type 0
Clashing s t = (t.session_id ≡ s.session_id) ⊎ ((t.email ≡ s.email) ⊎ (t.username ≡ s.username))

pub clashes-found :
    (s : Session) (l : List Session)
    → IsUnique l
    → clashes s l ≡ true
    → (t : Session) × (get_by_id t.session_id l ≡ some t) × Clashing s t
unfolding clashes
clashes-found s [] unique h = cc
clashes-found s (t ∷ rest) unique h = elim (which t rest h) [
  | inl clash ↦ (t, at_head t rest, clash)
  | inr later ↦
      let (u, found, clash) = clashes-found s rest unique.1 later in
      (u, past_head t u rest (clashes-IsFree t u.session_id u rest unique.0 found).0 found, clash)
]
  where
    which :
        (t : Session) (rest : List Session)
        → (t.session_id == s.session_id
            || t.email == s.email
            || t.username == s.username
            || clashes s rest)
          ≡ true
        → Clashing s t ⊎ (clashes s rest ≡ true)
    which t rest h = elim (Bool-cases (t.session_id == s.session_id)) [
      | inl e ↦ inl (inl ((eq_iff t.session_id s.session_id).0 e))
      | inr n ↦ elim (Bool-cases (t.email == s.email)) [
        | inl e ↦ inl (inr (inl ((eq_iff t.email s.email).0 e)))
        | inr n' ↦ elim (Bool-cases (t.username == s.username)) [
          | inl e ↦ inl (inr (inr ((eq_iff t.username s.username).0 e)))
          | inr n'' ↦ inr (ground arith)
        ]
      ]
    ]

    at_head : (t : Session) (rest : List Session) → get_by_id t.session_id (t ∷ rest) ≡ some t
    at_head t rest = unfold get_by_id in rw (eq_refl t.session_id) refl

    past_head :
        (t u : Session) (rest : List Session)
        → u.session_id ≢ t.session_id
        → get_by_id u.session_id rest ≡ some u
        → get_by_id u.session_id (t ∷ rest) ≡ some u
    past_head t u rest n found = elim (Bool-cases (t.session_id == u.session_id)) [
      | inl e ↦ absurd (n (sym ((eq_iff t.session_id u.session_id).0 e)))
      | inr e ↦ unfold get_by_id in rw e found
    ]
