-- ===== src/Store/Identity.antt =====
-- internal/infra/postgres/repository.go: whose the sessions are, before and after a statement.
use ofm_registration_saga_se.Prelude.{
  ℕ, String, Bool, true, false, ◌&&◌, Option, none, some, List, [], ◌∷◌, ◌≡◌, refl, ◌∙◌, arith,
  ◌==◌, eq_iff, inl, inr, Bool-cases, if◌then◌else◌,
}
use ofm_registration_saga_se.Domain.{Session, Step, SessionStatus, is_completed}
use ofm_registration_saga_se.Store.{
  Db, get_by_id, clashes, insert_session, set_status, set_claimed, insert_step,
}
use ofm_registration_saga_se.Store.Statement.{
  Stmt, create_session, update_session, claim_completed, reconcile, create_step, update_step_status,
  or_same, apply, run,
}

-- Every field but the status and the time of its last change.
pub record SameIdentity (s t : Session) : Type 0 where
  pub session_id : t.session_id ≡ s.session_id
  pub client_id : t.client_id ≡ s.client_id
  pub user_id : t.user_id ≡ s.user_id
  pub email : t.email ≡ s.email
  pub username : t.username ≡ s.username
  pub created_at : t.created_at ≡ s.created_at

-- A session that is found stays found, with the same identity.
abbrev pub Persists : Option Session → Option Session → Type 0
Persists none o = Unit
Persists (some s) none = ⊥
Persists (some s) (some t) = SameIdentity s t

Persists-refl : (o : Option Session) → Persists o o
Persists-refl none = tt
Persists-refl (some s) = record {
  session_id = refl;
  client_id = refl;
  user_id = refl;
  email = refl;
  username = refl;
  created_at = refl;
}

Persists-trans : (a b c : Option Session) → Persists a b → Persists b c → Persists a c
Persists-trans none b c h g = tt
Persists-trans (some s) none c h g = elim h [ ]
Persists-trans (some s) (some t) none h g = g
Persists-trans (some s) (some t) (some u) h g = record {
  session_id = g.session_id ∙ h.session_id;
  client_id = g.client_id ∙ h.client_id;
  user_id = g.user_id ∙ h.user_id;
  email = g.email ∙ h.email;
  username = g.username ∙ h.username;
  created_at = g.created_at ∙ h.created_at;
}

abbrev restatus : ℕ → SessionStatus → Bool → Session → Session
restatus now st b s = if b then record s { status = st; updated_at = now } else s

restatus-id :
    (now : ℕ) (st : SessionStatus) (b : Bool) (s : Session)
    → (restatus now st b s).session_id ≡ s.session_id
restatus-id now st true s = refl
restatus-id now st false s = refl

restatus-SameIdentity :
    (now : ℕ) (st : SessionStatus) (b : Bool) (s : Session) → SameIdentity s (restatus now st b s)
restatus-SameIdentity now st true s = record {
  session_id = refl;
  client_id = refl;
  user_id = refl;
  email = refl;
  username = refl;
  created_at = refl;
}
restatus-SameIdentity now st false s = Persists-refl (some s)

-- One row that is updated, or not, in front of rows that persist.
Persists-cons :
    (id : String) (now : ℕ) (st : SessionStatus) (b : Bool) (s : Session) (l l' : List Session)
    → Persists (get_by_id id l) (get_by_id id l')
    → Persists (get_by_id id (s ∷ l)) (get_by_id id (restatus now st b s ∷ l'))
unfolding get_by_id
Persists-cons id now st b s l l' h = elim (Bool-cases (s.session_id == id)) [
  | inl this ↦ rw (restatus-id now st b s, this) (restatus-SameIdentity now st b s)
  | inr other ↦ rw (restatus-id now st b s, other) h
]

set_status-Persists :
    (id : String) (now : ℕ) (i : String) (st : SessionStatus) (l : List Session)
    → Persists (get_by_id id l) (get_by_id id (set_status now i st l))
unfolding set_status
set_status-Persists id now i st [] = Persists-refl (get_by_id id [])
set_status-Persists id now i st (s ∷ rest) =
    Persists-cons id now st (s.session_id == i) s rest (set_status now i st rest)
      (set_status-Persists id now i st rest)

set_claimed-Persists :
    (id : String) (now : ℕ) (i : String) (l : List Session)
    → Persists (get_by_id id l) (get_by_id id (set_claimed now i l))
unfolding set_claimed
set_claimed-Persists id now i [] = Persists-refl (get_by_id id [])
set_claimed-Persists id now i (s ∷ rest) =
    Persists-cons id now SessionStatus.tokens_claimed (s.session_id == i && is_completed s.status) s
      rest (set_claimed now i rest) (set_claimed-Persists id now i rest)

get_by_id-absent :
    (s : Session) (l : List Session) → clashes s l ≡ false → get_by_id s.session_id l ≡ none
unfolding clashes get_by_id
get_by_id-absent s [] h = refl
get_by_id-absent s (t ∷ rest) h = ground (arith, get_by_id-absent s rest)

insert_session-Persists :
    (id : String) (now : ℕ) (s : Session) (db : Db)
    → Persists
        (get_by_id id db.sessions)
        (get_by_id id (or_same db (insert_session now s db)).sessions)
unfolding insert_session
insert_session-Persists id now s db = elim (Bool-cases (clashes s db.sessions)) [
  | inl e ↦ rw (e, or_same) (Persists-refl (get_by_id id db.sessions))
  | inr e ↦
      rw (e, or_same)
        (elim (Bool-cases (s.session_id == id)) [
          | inl same ↦ rw (← (eq_iff s.session_id id).0 same, get_by_id-absent s db.sessions e) tt
          | inr other ↦ unfold get_by_id in rw other (Persists-refl (get_by_id id db.sessions))
        ])
]

pub sessions-insert_step :
    (now : ℕ) (p : Step) (db : Db) → (or_same db (insert_step now p db)).sessions ≡ db.sessions
unfolding insert_step
sessions-insert_step now p db = ground arith

apply-Persists :
    (id : String) (q : Stmt) (db : Db)
    → Persists (get_by_id id db.sessions) (get_by_id id (apply q db).sessions)
unfolding apply
apply-Persists id (create_session now s) db = insert_session-Persists id now s db
apply-Persists id (update_session now i st) db = set_status-Persists id now i st db.sessions
apply-Persists id (claim_completed now i) db = set_claimed-Persists id now i db.sessions
apply-Persists id (reconcile now i) db = set_status-Persists id now i _ db.sessions
apply-Persists id (create_step now p) db =
    rw (sessions-insert_step now p db) (Persists-refl (get_by_id id db.sessions))
apply-Persists id (update_step_status now i key st) db = Persists-refl (get_by_id id db.sessions)

-- Whatever statements run, a session that is there stays there, with its client, user, email,
-- username and time of creation.
pub run-Persists :
    (id : String) (qs : List Stmt) (db : Db)
    → Persists (get_by_id id db.sessions) (get_by_id id (run qs db).sessions)
unfolding run
run-Persists id [] db = Persists-refl (get_by_id id db.sessions)
run-Persists id (q ∷ rest) db =
    Persists-trans (get_by_id id db.sessions) (get_by_id id (apply q db).sessions)
      (get_by_id id (run rest (apply q db)).sessions) (apply-Persists id q db)
      (run-Persists id rest (apply q db))

-- A lookup by id finds a row of that id.
pub get_by_id-session_id :
    (id : String) (l : List Session) {s : Session} → get_by_id id l ≡ some s → s.session_id ≡ id
unfolding get_by_id
get_by_id-session_id id [] h = cc
get_by_id-session_id id (t ∷ rest) {s} h = elim (Bool-cases (t.session_id == id)) [
  | inl same ↦ ground (arith, eq_iff t.session_id id)
  | inr other ↦ get_by_id-session_id id rest (rw other at h)
]
