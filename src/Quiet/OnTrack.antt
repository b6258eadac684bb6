-- ===== src/Quiet/OnTrack.antt =====
-- internal/application/service.go: sessions whose results are still to come, when every call
-- succeeds and no one interferes.
use ofm_registration_saga_se.Prelude.{
  ℕ, String, Bool, true, false, Option, some, ◌∷◌, ◌≡◌, refl, arith, eq_refl,
}
use ofm_registration_saga_se.Domain.{Session, StepKey, StepStatus, is_code_sent}
use ofm_registration_saga_se.Store.{get_by_id, reconciled}
use ofm_registration_saga_se.Store.Statement.{Stmt, apply, reconcile, update_step_status}
use ofm_registration_saga_se.Store.Outstanding.{
  all_but, without, all_but-completed, all_but-in_progress, all_but-any_failed,
  get_by_id-set_status,
}
use ofm_registration_saga_se.World.{published, Env, World, Payload, Notification}
use ofm_registration_saga_se.Application.Realtime.{contains}
use ofm_registration_saga_se.Application.Results.{advance}
use ofm_registration_saga_se.Guarantee.Notified.{as_number, code_sent_count}
use ofm_registration_saga_se.Quiet.{IsQuiet, Delivers}
use ofm_registration_saga_se.Quiet.Progress.{told, after, advance-told}

-- A stored session of which only some keys are outstanding, and whose client was told as often as
-- `codeSentNotified` says.
pub record IsOnTrack (outstanding : StepKey → Bool) (id : String) (w : World) : Type 0 where
  pub session : Session
  pub found : get_by_id id w.db.sessions ≡ some session
  pub steps : all_but outstanding id w.db.steps ≡ true
  pub told_each : code_sent_count id w.trace ≡ as_number (contains id w.notified)

-- The status of the session is that of its steps, and the client knows if it is code_sent.
pub record IsSettled (id : String) (w : World) : Type 0 where
  pub session : Session
  pub found : get_by_id id w.db.sessions ≡ some session
  pub status : session.status ≡ reconciled id w.db
  pub known : is_code_sent session.status ≡ true → contains id w.notified ≡ true

pub told-db :
    (id : String) (payload : Option String) (b k : Bool) (w : World)
    → (told id payload b k w).db ≡ w.db
told-db id payload false k w = refl
told-db id payload true true w = refl
told-db id payload true false w = refl

module _ (id : String) (payload : Option String) where
  told-count :
      (b k : Bool) (w : World)
      → contains id w.notified ≡ k
      → code_sent_count id w.trace ≡ as_number k
      → (let w' = told id payload b k w in
          code_sent_count id w'.trace ≡ as_number (contains id w'.notified))
  unfolding code_sent_count contains
  told-count false k w e h = rw e h
  told-count true true w e h = rw e h
  told-count true false w e h = rw (eq_refl id) (omega (arith, h))

  told-known :
      (b k : Bool) (w : World)
      → contains id w.notified ≡ k
      → b ≡ true
      → contains id (told id payload b k w).notified ≡ true
  unfolding contains
  told-known false k w e h = cc
  told-known true true w e h = e
  told-known true false w e h = rw (eq_refl id) refl

-- The statement that sets a step of a session.
abbrev pub sets : String → StepKey → StepStatus → ℕ → Stmt
sets id key st now = update_step_status now id key st

module _ (env : Env) (outstanding : StepKey → Bool) (id : String) (key : StepKey) (w : World) where
  pub completed-IsOnTrack :
      IsOnTrack outstanding id w
      → IsOnTrack (without outstanding key) id (after w (sets id key StepStatus.completed) env)
  unfolding apply
  completed-IsOnTrack t = record {
    session = t.session;
    found = t.found;
    steps = all_but-completed outstanding (env.clock w.calls) id key w.db.steps t.steps;
    told_each = t.told_each;
  }

  pub in_progress-IsOnTrack :
      IsOnTrack outstanding id w
      → IsOnTrack outstanding id (after w (sets id key StepStatus.in_progress) env)
  unfolding apply
  in_progress-IsOnTrack t = record {
    session = t.session;
    found = t.found;
    steps = all_but-in_progress outstanding (env.clock w.calls) id key w.db.steps t.steps;
    told_each = t.told_each;
  }

pub published-IsOnTrack :
    (outstanding : StepKey → Bool) (id topic value : String) (n : ℕ) (w : World)
    → IsOnTrack outstanding id w
    → IsOnTrack outstanding id (record w { calls = n; trace = published topic value ∷ w.trace })
unfolding code_sent_count
published-IsOnTrack outstanding id topic value n w t = record {
  session = t.session;
  found = t.found;
  steps = t.steps;
  told_each = omega (arith, t.told_each);
}

module _ {env : Env} {render : Payload → String} {body : Notification → String} (q : IsQuiet env)
    (d : Delivers env render body) (synced : env.reconciles ≡ true) where
  pub advance-IsOnTrack :
      (outstanding : StepKey → Bool) (id : String) (payload : Option String) (w : World)
      → IsOnTrack outstanding id w
      → (let w' = (advance env id payload w).1 in IsOnTrack outstanding id w' × IsSettled id w')
  unfolding apply reconciled
  advance-IsOnTrack outstanding id payload w t =
      let st = reconciled id w.db in
      let b = is_code_sent st in
      let k = contains id w.notified in
      let w1 = after w (λ now. reconcile now id) env in
      let row : Session = record t.session { status = st; updated_at = env.clock w.calls } in
      let end = told id payload b k w1 in
      let same : end.db ≡ w1.db = told-db id payload b k w1 in
      let found : get_by_id id end.db.sessions ≡ some row =
        rw same (get_by_id-set_status (env.clock w.calls) id st w.db.sessions t.session t.found) in
      rw
        (advance-told q d synced id payload t.session w t.found
          (all_but-any_failed outstanding id w.db.steps t.steps))
        (
          record {
            session = row;
            found = found;
            steps = rw same t.steps;
            told_each = told-count id payload b k w1 refl t.told_each;
          },
          record {
            session = row;
            found = found;
            status = rw same refl;
            known = told-known id payload b k w1 refl;
          },
        )
