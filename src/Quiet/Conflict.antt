-- ===== src/Quiet/Conflict.antt =====
-- Start of internal/application/service.go with an email or a username that is not free, when every call succeeds
-- and no one interferes.
use native.Mathlib.Numerals.{towards_suc}
use ofm_registration_saga_se.Prelude.{
  ℕ, suc, ◌+◌, String, Bool, true, false, ◌||◌, none, some, List, [], ◌∷◌, ◌≡◌, ap, ◌==◌, arith,
  inl, inr, Bool-cases, if◌then◌else◌,
}
use ofm_registration_saga_se.Domain.{
  Session, StartRegistrationParams, StartRegistrationResult, is_failed, unique_violation,
}
use ofm_registration_saga_se.Exec.{ok, err, pure, raise, handle, resume, ◌>>=◌}
use ofm_registration_saga_se.Store
use ofm_registration_saga_se.Store.{
  Db, clashes, latest, newer, insert_session, insert_step, has_step, same_step,
}
use ofm_registration_saga_se.Store.Unique.{IsUnique}
use ofm_registration_saga_se.World.{Env, World, draw}
use ofm_registration_saga_se.Repository.Sessions
use ofm_registration_saga_se.Store.Statement.{apply}
use ofm_registration_saga_se.Application.Mapper.{
  to_incomplete_conflict_result, to_completed_conflict_result, taken, conflict,
}
use ofm_registration_saga_se.Application.Start.{
  trimmed, or_uuid, or_else, normalize_start_input, lookup_incomplete_conflict,
  lookup_completed_conflict, lookup_start_conflict, create_start_session, begin, unless_conflict,
  start,
}
use ofm_registration_saga_se.Quiet.{IsQuiet, write-quiet}
use ofm_registration_saga_se.Quiet.Open.{has_open, unique_emails, unique_usernames, taken-has_open}
use ofm_registration_saga_se.Quiet.Start.{
  IsAcceptable, new_session, ask-quiet, email-quiet, username-quiet,
}

-- The row that a lookup by email finds clashes with a new row of that email.
latest-clashes :
    (t : Session) (l : List Session) (s : Session)
    → latest (λ r. r.email == t.email) l ≡ some s
    → clashes t l ≡ true
unfolding latest clashes
latest-clashes t [] s h = cc
latest-clashes t (r ∷ rest) s h = elim (Bool-cases (r.email == t.email)) [
  | inl e ↦ ground arith
  | inr e ↦ ground (arith, latest-clashes t rest s (rw e at h))
]

-- The answer with a conflict, by whether the rows have the email and the username, and whether the
-- other services do.
abbrev pub refusal : (e u a b : Bool) → StartRegistrationResult
refusal e u a b = record {
  session_id = "";
  client_id = "";
  user_id = "";
  status = "conflict";
  conflict_state = if e || u then "found_incomplete" else "found_completed";
  username_taken = if e || u then u else b;
  email_taken = if e || u then e else a;
}

-- The two lookups, and the two calls of the other services where they are made.
abbrev pub lookups : Bool → Bool → ℕ → ℕ
lookups e u calls = if e || u then suc (suc calls) else suc (suc (suc (suc calls)))

module _ {env : Env} (q : IsQuiet env) where
  -- An acceptable registration that names its client but neither its session nor its user, with
  -- the email of a failed session, whose username is no session's and which the auth and user services both call free, ends with a unique violation, and nothing
  -- is stored or published: an identity whose registration failed cannot register again.
  pub start-unique_violation :
      (params : StartRegistrationParams) (s : Session) (w : World)
      → IsAcceptable env (trimmed params)
      → Store.get_by_email (trimmed params).email w.db.sessions ≡ some s
      → is_failed s.status ≡ true
      → Store.get_by_username (trimmed params).username w.db.sessions ≡ none
      → env.answer (w.calls + 2) ≡ false
      → env.answer (w.calls + 3) ≡ false
      → start env params w ≡ (err unique_violation, record w { calls = w.calls + 7 })
  unfolding start normalize_start_input or_uuid lookup_start_conflict lookup_incomplete_conflict
      lookup_completed_conflict or_else unless_conflict begin create_start_session ◌>>=◌ handle
      resume pure raise draw Sessions.create to_incomplete_conflict_result
      to_completed_conflict_result taken conflict insert_session apply Store.get_by_email
  start-unique_violation params s w ok_input found failed free a2 a3 =
      let row = new_session env (trimmed params) (suc (suc (suc (suc w.calls)))) in
      let clash = latest-clashes row w.db.sessions s found in
      let b2 : env.answer (suc (suc w.calls)) ≡ false = simp towards_suc at a2 in
      let b3 : env.answer (suc (suc (suc w.calls))) ≡ false = simp towards_suc at a3 in
      simp (
        ok_input.parsed,
        ok_input.named,
        ok_input.long,
        ok_input.of_client,
        ok_input.no_session,
        ok_input.no_user,
        email-quiet q,
        username-quiet q,
        ask-quiet q,
        write-quiet q,
        found,
        failed,
        free,
        b2,
        b3,
        clash,
        towards_suc,
      )

  lookup-verdict :
      (e u a b : Bool) (email username : String) (w : World)
      → taken (Store.get_by_email email w.db.sessions) ≡ e
      → taken (Store.get_by_username username w.db.sessions) ≡ u
      → env.answer (suc (suc w.calls)) ≡ a
      → env.answer (suc (suc (suc w.calls))) ≡ b
      → (e || u || a || b) ≡ true
      → lookup_start_conflict env email username w
        ≡ (ok (some (refusal e u a b)), record w { calls = lookups e u w.calls })
  unfolding lookup_start_conflict lookup_incomplete_conflict lookup_completed_conflict or_else ◌>>=◌
      handle resume pure raise to_incomplete_conflict_result to_completed_conflict_result conflict
  lookup-verdict true u a b email username w he hu ha hb h =
      simp (email-quiet q, username-quiet q, he, hu)
  lookup-verdict false true a b email username w he hu ha hb h =
      simp (email-quiet q, username-quiet q, he, hu)
  lookup-verdict false false true b email username w he hu ha hb h =
      simp (email-quiet q, username-quiet q, ask-quiet q, he, hu, ha, hb)
  lookup-verdict false false false true email username w he hu ha hb h =
      simp (email-quiet q, username-quiet q, ask-quiet q, he, hu, ha, hb)
  lookup-verdict false false false false email username w he hu ha hb h = cc

  start-found :
      (params : StartRegistrationParams) (c : StartRegistrationResult) (w w' : World)
      → IsAcceptable env (trimmed params)
      → lookup_start_conflict env (trimmed params).email (trimmed params).username w
        ≡ (ok (some c), w')
      → start env params w ≡ (ok c, w')
  unfolding start normalize_start_input or_uuid unless_conflict ◌>>=◌ handle resume pure raise
  start-found params c w w' ok_input found =
      simp (ok_input.parsed, ok_input.named, ok_input.long, ok_input.of_client, found)

  -- Where the table has the unique indexes, an acceptable registration that names its client but
  -- neither its session nor its user, and whose email or username is that of a row with a status
  -- that is neither failed nor completed, or is taken in the auth or user service, is answered with a conflict: found_incomplete if there is such a row, and
  -- then it is the rows alone that say which of the two is taken, and the services are not asked;
  -- else found_completed, and it is the services that say so. Nothing is stored, published or left
  -- to a goroutine.
  pub start-conflict :
      (params : StartRegistrationParams) (w : World)
      → IsAcceptable env (trimmed params)
      → IsUnique w.db.sessions
      → (let e = has_open (λ s. s.email) (trimmed params).email w.db.sessions in
          let u = has_open (λ s. s.username) (trimmed params).username w.db.sessions in
          let a = env.answer (w.calls + 2) in
          let b = env.answer (w.calls + 3) in
          (e || u || a || b) ≡ true
          → start env params w ≡ (ok (refusal e u a b), record w { calls = lookups e u w.calls }))
  unfolding Store.get_by_email Store.get_by_username
  start-conflict params w ok_input unique h = start-found params _ w _ ok_input (
      lookup-verdict _ _ _ _ (trimmed params).email (trimmed params).username w
        (taken-has_open (λ s. s.email) (trimmed params).email w.db.sessions
          (unique_emails w.db.sessions unique))
        (taken-has_open (λ s. s.username) (trimmed params).username w.db.sessions
          (unique_usernames w.db.sessions unique))
        (ap env.answer (omega arith)) (ap env.answer (omega arith)) h)
