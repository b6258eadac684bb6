-- ===== src/Store/Abstract.antt =====
-- internal/infra/postgres: the tables as the repositories promise them: a session for an id and a
-- step for an id and a key, with the order of the rows forgotten, and what each statement does to
-- them.
pub mod Sessions
pub mod Steps
pub mod Refines
use ofm_registration_saga_se.Prelude.{
  ℕ, suc, String, true, false, not, ◌&&◌, Option, none, some, List, [], ◌∷◌, ◌≡◌, ◌⊎◌, ◌==◌,
  if◌then◌else◌,
}
use ofm_registration_saga_se.Domain.{
  Session, Step, SessionStatus, StepStatus, StepKey, same_key, is_completed, step_completed,
  step_failed, step_in_progress,
}
use ofm_registration_saga_se.Store.{Db, get_by_id, get_by_key}
use ofm_registration_saga_se.Store.Statement.{
  Stmt, create_session, update_session, claim_completed, reconcile, create_step, update_step_status,
}
use ofm_registration_saga_se.Store.StepOrder.{updated}
use ofm_registration_saga_se.Store.Unique.{Differ}

pub record View : Type 0 where
  pub session : String → Option Session
  pub step : String → StepKey → Option Step

abbrev pub view : Db → View
view db = record {
  session = λ id. get_by_id id db.sessions;
  step = λ id key. get_by_key id key db.steps;
}

abbrev pub over {ℓ} : {A : Type ℓ} → (A → A) → Option A → Option A
over f none = none
over f (some a) = some (f a)

abbrev pub marked : ℕ → SessionStatus → Session → Session
marked now st s = record s { status = st; updated_at = now }

abbrev pub marked_if_completed : ℕ → Session → Session
marked_if_completed now s =
    if is_completed s.status then marked now SessionStatus.tokens_claimed s else s

-- The two maps before and after: unchanged, or changed in one place.
abbrev pub SameSessions : View → View → Type 0
SameSessions v v' = (i : String) → v'.session i ≡ v.session i

abbrev pub SameSteps : View → View → Type 0
SameSteps v v' = (i : String) (k : StepKey) → v'.step i k ≡ v.step i k

abbrev pub ChangesSession : String → (Option Session → Option Session) → View → View → Type 0
ChangesSession id f v v' =
    ((i : String) → v'.session i ≡ (if id == i then f (v.session i) else v.session i))
    × SameSteps v v'

abbrev pub ChangesStep : String → StepKey → (Option Step → Option Step) → View → View → Type 0
ChangesStep id key f v v' =
    ((i : String) (k : StepKey)
      → v'.step i k ≡ (if id == i && same_key key k then f (v.step i k) else v.step i k))
    × SameSessions v v'

-- No stored session, or some stored session, has the id, the email or the username.
abbrev pub IsFree : Session → View → Type 0
IsFree s v = (i : String) (t : Session) → v.session i ≡ some t → Differ s t

abbrev pub IsTaken : Session → View → Type 0
IsTaken s v =
    (i : String) × (t : Session) × (v.session i ≡ some t)
    × ((t.session_id ≡ s.session_id) ⊎ ((t.email ≡ s.email) ⊎ (t.username ≡ s.username)))

-- The status that the steps of a session call for.
abbrev pub CallsFor : View → String → SessionStatus → Type 0
CallsFor v id st =
    ((st ≡ SessionStatus.failed)
      × ((k : StepKey) × (p : Step) × (v.step id k ≡ some p) × (step_failed p.status ≡ true)))
    ⊎ (((st ≡ SessionStatus.code_sent)
          × ((k : StepKey) (p : Step) → v.step id k ≡ some p → step_completed p.status ≡ true))
        ⊎ ((st ≡ SessionStatus.in_progress)
            × ((k : StepKey) (p : Step) → v.step id k ≡ some p → step_failed p.status ≡ false)
            × ((k : StepKey) × (p : Step) × (v.step id k ≡ some p)
                × (step_completed p.status ≡ false))))

-- What a statement promises.
abbrev pub Promises : Stmt → View → View → Type 0
Promises (create_session now s) v v' =
    (IsFree s v
      × ChangesSession s.session_id (λ _. some (record s { created_at = now; updated_at = now })) v
          v')
    ⊎ (IsTaken s v × SameSessions v v' × SameSteps v v')
Promises (update_session now id st) v v' = ChangesSession id (over (marked now st)) v v'
Promises (claim_completed now id) v v' = ChangesSession id (over (marked_if_completed now)) v v'
Promises (reconcile now id) v v' =
    (st : SessionStatus) × CallsFor v id st × ChangesSession id (over (marked now st)) v v'
Promises (create_step now p) v v' =
    ((v.step p.session_id p.step_key ≡ none)
      × ChangesStep p.session_id p.step_key
          (λ _. some (record p { created_at = now; updated_at = now })) v v')
    ⊎ (((q : Step) × (v.step p.session_id p.step_key ≡ some q))
        × SameSessions v v'
        × SameSteps v v')
Promises (update_step_status now id key st) v v' = ChangesStep id key (updated now st) v v'

-- Statements after one another.
pub data Runs : List Stmt → View → View → Type 0 where
  here : {v v' : View} → SameSessions v v' → SameSteps v v' → Runs [] v v'
  next :
      {q : Stmt} {rest : List Stmt} {v v' v'' : View}
      → Promises q v v'
      → Runs rest v' v''
      → Runs (q ∷ rest) v v''
