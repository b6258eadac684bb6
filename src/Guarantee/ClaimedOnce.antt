-- ===== src/Guarantee/ClaimedOnce.antt =====
-- GetRegistrationStatus of internal/application/verify_email.go: how often it can answer
-- "completed", which is what lets the gateway hand out tokens.
use ofm_registration_saga_se.Prelude.{
  ℕ, ◌+◌, ◌≤◌, String, Bool, true, false, ◌&&◌, List, [], ◌∷◌, ◌≡◌, refl, ap, ◌∙◌, arith, ◌==◌,
  eq_iff, if_cases, inl, inr, Bool-cases, if◌then◌else◌,
}
use ofm_registration_saga_se.Prelude.Text.{trim_space}
use ofm_registration_saga_se.Domain.{
  Error, Session, SessionStatus, RegistrationStatus, is_completed, invalid_session_id,
  invalid_client_id, client_mismatch,
}
use ofm_registration_saga_se.Exec.{Result, ok, err, pure, raise, resume, handle, ◌>>=◌}
use ofm_registration_saga_se.Store.{has_completed}
use ofm_registration_saga_se.Store.Statement.{claim_completed, apply}
use ofm_registration_saga_se.Store.Claims.{
  as_number, claimable, completions, claimable-run, wins-le,
}
use ofm_registration_saga_se.World.{
  Env, World, Saga, Outcome, done, refused, lost, tick, finish, write, query_cases,
}
use ofm_registration_saga_se.Repository.Sessions
use ofm_registration_saga_se.Application.VerifyEmail.{
  status_of, claimed_status, get_registration_status,
}

-- 1 if the answer tells that the session is completed.
abbrev pub tells_completed : String → Result RegistrationStatus → ℕ
tells_completed id (err e) = 0
tells_completed id (ok r) = as_number (r.session_id == id && is_completed r.status)

-- The answers "completed" for one session in a sequence of requests, each with its session and
-- client id.
abbrev pub completed_answers : Env → String → List (String × String) → World → ℕ
completed_answers env id [] w = 0
completed_answers env id ((session_id, client_id) ∷ rest) w =
    let (r, w') = get_registration_status env session_id client_id w in
    tells_completed id r + completed_answers env id rest w'

module _ (env : Env) (id : String) (undisturbed : (n : ℕ) → completions id (env.others n) ≡ 0) where
  -- An answer "completed" uses up the completion of the session.
  abbrev Spends : World → Result RegistrationStatus × World → Type 0
  Spends w x = tells_completed id x.0 + claimable id x.1.db ≤ claimable id w.db

  tick-le : (w : World) → claimable id (tick env w).db ≤ claimable id w.db
  unfolding tick
  tick-le w = omega (arith, claimable-run id (env.others w.calls) w.db, undisturbed w.calls)

  raise-Spends : (e : Error) (w : World) → Spends w (raise e w)
  unfolding raise
  raise-Spends e w = omega arith

  resume-Spends :
      {A : Type 0} (before after : World) (r : Result A) (f : A → Saga RegistrationStatus)
      → claimable id after.db ≤ claimable id before.db
      → ((a : A) → r ≡ ok a → Spends after (f a after))
      → Spends before (resume r raise f after)
  unfolding resume raise
  resume-Spends before after (err e) f le k = omega arith
  resume-Spends before after (ok a) f le k = omega (arith, le, k a refl)

  -- The answer to a claim that was decided on the tables `db`.
  abbrev told_claim : Session → Bool → RegistrationStatus
  told_claim s claimed =
      status_of env s (if claimed then SessionStatus.completed else SessionStatus.tokens_claimed)

  tells_if :
      (b : Bool)
      → as_number
          (is_completed (if b then SessionStatus.completed else SessionStatus.tokens_claimed))
        ≡ as_number b
  tells_if true = refl
  tells_if false = refl

  tells_not : (a b : Bool) → b ≡ false → as_number (a && b) ≡ 0
  tells_not a b h = ground arith

  Spends-tick :
      (w : World) (x : Result RegistrationStatus × World) → Spends (tick env w) x → Spends w x
  Spends-tick w x h = omega (arith, tick-le w)

  -- The answer of a claim that took effect.
  claim_this :
      (s : Session) (now : ℕ) (w : World)
      → s.session_id ≡ id
      → (b : Bool) → has_completed id w.db.sessions ≡ b
      → as_number (
            s.session_id == id
            && is_completed (
                if has_completed s.session_id w.db.sessions
                then SessionStatus.completed
                else SessionStatus.tokens_claimed))
          + claimable id (apply (claim_completed now s.session_id) w.db)
        ≤ claimable id w.db
  claim_this s now w this b e =
      let named : (s.session_id == id) ≡ true = (eq_iff s.session_id id).1 this in
      let has : has_completed s.session_id w.db.sessions ≡ b =
        ap (λ i. has_completed i w.db.sessions) this ∙ e in
      let spent = rw (named, e) at (wins-le id (claim_completed now s.session_id) w.db) in
      rw (named, has) (omega (arith, tells_if b, spent, ap as_number e))

  claim-Spends :
      (s : Session) (o : Outcome) (now : ℕ) (w : World)
      → (let after = record w { db = apply (claim_completed now s.session_id) w.db } in
          let (r, w') = finish o (ok (has_completed s.session_id w.db.sessions)) w after in
          Spends w (resume r raise (λ claimed. pure (told_claim s claimed)) w'))
  unfolding finish resume raise pure status_of
  claim-Spends s (refused e) now w = omega arith
  claim-Spends s (lost e) now w = omega (arith, wins-le id (claim_completed now s.session_id) w.db)
  claim-Spends s done now w = elim (Bool-cases (s.session_id == id)) [
    | inr other ↦ rw other (omega (arith, wins-le id (claim_completed now s.session_id) w.db))
    | inl this ↦
        claim_this s now w ((eq_iff s.session_id id).0 this) (has_completed id w.db.sessions) refl
  ]

  claimed_status-Spends : (s : Session) (w : World) → Spends w (claimed_status env s w)
  unfolding claimed_status Sessions.claim write ◌>>=◌ handle
  claimed_status-Spends s w =
      if_cases (λ (m : Saga RegistrationStatus). Spends w (m w)) (is_completed s.status)
        (λ _.
          Spends-tick w
            ((Sessions.claim env s.session_id >>= λ claimed. pure (told_claim s claimed)) w)
            (claim-Spends s (env.outcome w.calls) (env.clock w.calls) (tick env w)))
        (λ not_yet.
          unfold pure status_of in omega (arith, tells_not (s.session_id == id) _ not_yet))

  abbrev for_client : String → Session → Saga RegistrationStatus
  for_client client_id s =
      if s.client_id == client_id then claimed_status env s else raise client_mismatch

  for_client-Spends :
      (client_id : String) (s : Session) (w : World) → Spends w (for_client client_id s w)
  for_client-Spends client_id s w =
      if_cases (λ (m : Saga RegistrationStatus). Spends w (m w)) (s.client_id == client_id)
        (λ _. claimed_status-Spends s w) (λ _. raise-Spends client_mismatch w)

  read-Spends :
      (session_id client_id : String) (w : World)
      → Spends w ((Sessions.get_by_id env session_id >>= for_client client_id) w)
  unfolding Sessions.get_by_id ◌>>=◌ handle
  read-Spends session_id client_id w =
      let read = Sessions.get_by_id env session_id w in
      resume-Spends w read.1 read.0 (for_client client_id)
        (query_cases (λ w'. claimable id w'.db ≤ claimable id w.db) env _ w (tick-le w))
        (λ s _. for_client-Spends client_id s read.1)

  get_status-Spends :
      (session_id client_id : String) (w : World)
      → Spends w (get_registration_status env session_id client_id w)
  unfolding get_registration_status
  get_status-Spends session_id client_id w =
      let P : Saga RegistrationStatus → Type 0 = λ m. Spends w (m w) in
      if_cases P (trim_space session_id == "") (λ _. raise-Spends invalid_session_id w)
        (λ _.
          if_cases P (trim_space client_id == "") (λ _. raise-Spends invalid_client_id w)
            (λ _. read-Spends (trim_space session_id) (trim_space client_id) w))

  -- If no concurrent statement completes the session, then of any number of status requests, by
  -- whomever and however their calls end, at most one is answered with "completed", and none if
  -- the session is not completed at the start.
  pub completed_answers-le :
      (requests : List (String × String)) (w : World)
      → completed_answers env id requests w ≤ claimable id w.db
  completed_answers-le [] w = omega arith
  completed_answers-le ((session_id, client_id) ∷ rest) w = omega (
    arith,
    get_status-Spends session_id client_id w,
    completed_answers-le rest (get_registration_status env session_id client_id w).1,
  )
