-- ===== src/Quiet/CodeSent.antt =====
-- The results of the user, auth and mail services, when every call succeeds and no one interferes:
-- how a session comes to have the status code_sent.
use ofm_registration_saga_se.Prelude.{
  suc, String, Bool, true, false, not, ◌&&◌, ◌||◌, none, some, List, [], ◌∷◌, ◌≡◌, refl, ap, ◌∙◌,
  arith, ◌==◌,
}
use ofm_registration_saga_se.Domain.{
  Session, SessionStatus, StepKey, StepStatus, user_create_profile, auth_create_pending,
  mail_send_verification_code, verify_email_code, activate_user, is_code_sent, same_key,
}
use ofm_registration_saga_se.Store.{get_by_id}
use ofm_registration_saga_se.Store.Statement.{apply}
use ofm_registration_saga_se.Store.Outstanding.{without, reconciled-code_sent}
use ofm_registration_saga_se.World.{published, Env, World, Payload, Notification}
use ofm_registration_saga_se.History.{
  Event, starts, verifies, asks_status, runs, user_result, auth_result, mail_result, serve,
  serve_all,
}
use ofm_registration_saga_se.Guarantee.Notified.{as_number, code_sent_count}
use ofm_registration_saga_se.Quiet.{IsQuiet, Delivers}
use ofm_registration_saga_se.Quiet.Progress.{after, user-quiet, auth-quiet, mail-quiet, sent}
use ofm_registration_saga_se.Quiet.OnTrack.{
  IsOnTrack, IsSettled, sets, completed-IsOnTrack, in_progress-IsOnTrack, published-IsOnTrack,
  advance-IsOnTrack,
}

-- The report that a step of the session succeeded.
abbrev pub Succeeds : String → Event → Type 0
Succeeds id (user_result r) = (r.session_id ≡ id) × ((r.status == "success") ≡ true)
Succeeds id (auth_result r) = (r.session_id ≡ id) × ((r.status == "success") ≡ true)
Succeeds id (mail_result r) = (r.session_id ≡ id) × ((r.status == "success") ≡ true)
Succeeds id _ = ⊥

abbrev pub AllSucceed : String → List Event → Type 0
AllSucceed id [] = Unit
AllSucceed id (e ∷ rest) = Succeeds id e × AllSucceed id rest

-- The step that an event reports on.
abbrev pub reports : Event → StepKey → Bool
reports (user_result r) k = same_key k user_create_profile
reports (auth_result r) k = same_key k auth_create_pending
reports (mail_result r) k = same_key k mail_send_verification_code
reports _ k = false

abbrev pub reported_by : List Event → StepKey → Bool
reported_by [] k = false
reported_by (e ∷ rest) k = reports e k || reported_by rest k

abbrev left_after : List Event → (StepKey → Bool) → StepKey → Bool
left_after [] m = m
left_after (e ∷ rest) m = left_after rest (λ k. m k && not (reports e k))

-- The steps that Start creates.
abbrev pub is_start_key : StepKey → Bool
is_start_key verify_email_code = false
is_start_key activate_user = false
is_start_key _ = true

left_after-eq :
    (rs : List Event) (m : StepKey → Bool) (k : StepKey)
    → left_after rs m k ≡ (m k && not (reported_by rs k))
left_after-eq [] m k = ground arith
left_after-eq (e ∷ rest) m k =
    left_after-eq rest (λ j. m j && not (reports e j)) k
    ∙ spread (m k) (reports e k) (reported_by rest k)
  where
    spread : (a b c : Bool) → ((a && not b) && not c) ≡ (a && not (b || c))
    spread a b c = ground arith

nothing_left :
    (rs : List Event)
    → reported_by rs user_create_profile ≡ true
    → reported_by rs auth_create_pending ≡ true
    → reported_by rs mail_send_verification_code ≡ true
    → (k : StepKey) → left_after rs is_start_key k ≡ false
nothing_left rs u a m user_create_profile =
    rw (left_after-eq rs is_start_key user_create_profile, u) refl
nothing_left rs u a m auth_create_pending =
    rw (left_after-eq rs is_start_key auth_create_pending, a) refl
nothing_left rs u a m mail_send_verification_code =
    rw (left_after-eq rs is_start_key mail_send_verification_code, m) refl
nothing_left rs u a m verify_email_code = left_after-eq rs is_start_key verify_email_code
nothing_left rs u a m activate_user = left_after-eq rs is_start_key activate_user

module _ {env : Env} {render : Payload → String} {body : Notification → String} (q : IsQuiet env)
    (d : Delivers env render body) (synced : env.reconciles ≡ true) where
  pub serve-IsOnTrack :
      (outstanding : StepKey → Bool) (id : String) (e : Event) (w : World)
      → (id == "") ≡ false
      → Succeeds id e
      → IsOnTrack outstanding id w
      → (let w' = serve env e w in
          IsOnTrack (λ k. outstanding k && not (reports e k)) id w' × IsSettled id w')
  unfolding serve apply
  serve-IsOnTrack outstanding id (user_result r) w named h t =
      rw (serve, user-quiet q d synced r w (rw h.0 named) h.1, h.0)
        (advance-IsOnTrack q d synced (without outstanding user_create_profile) id none
          (after w (sets id user_create_profile StepStatus.completed) env)
          (completed-IsOnTrack env outstanding id user_create_profile w t))
  serve-IsOnTrack outstanding id (auth_result r) w named h t =
      let w1 = after w (sets id auth_create_pending StepStatus.completed) env in
      rw (serve, auth-quiet q d synced r w (rw h.0 named) h.1, h.0)
        (advance-IsOnTrack q d synced (without outstanding auth_create_pending) id none
          (after w1 (sets id mail_send_verification_code StepStatus.in_progress) env)
          (in_progress-IsOnTrack env (without outstanding auth_create_pending) id
            mail_send_verification_code w1
            (completed-IsOnTrack env outstanding id auth_create_pending w t)))
  serve-IsOnTrack outstanding id (mail_result r) w named h t =
      let w1 = after w (sets id mail_send_verification_code StepStatus.completed) env in
      let left = without outstanding mail_send_verification_code in
      let topic = env.cfg.registration_code_sent_subject in
      let value = sent q d synced (record r { session_id = id }) (suc w.calls) in
      let n = suc (suc (suc w.calls)) in
      rw (serve, mail-quiet q d synced r w (rw h.0 named) h.1, h.0)
        (advance-IsOnTrack q d synced left id (some value)
          (record w1 { calls = n; trace = published topic value ∷ w.trace })
          (published-IsOnTrack left id topic value n w1
            (completed-IsOnTrack env outstanding id mail_send_verification_code w t)))
  serve-IsOnTrack outstanding id (starts _) w named h t = elim h [ ]
  serve-IsOnTrack outstanding id (verifies _) w named h t = elim h [ ]
  serve-IsOnTrack outstanding id (asks_status _ _) w named h t = elim h [ ]
  serve-IsOnTrack outstanding id (runs _) w named h t = elim h [ ]

  serve_all-IsOnTrack :
      (outstanding : StepKey → Bool) (id : String) (e : Event) (rest : List Event) (w : World)
      → (id == "") ≡ false
      → AllSucceed id (e ∷ rest)
      → IsOnTrack outstanding id w
      → (let w' = serve_all env (e ∷ rest) w in
          IsOnTrack (left_after (e ∷ rest) outstanding) id w' × IsSettled id w')
  unfolding serve_all
  serve_all-IsOnTrack outstanding id e [] w named h t =
      serve-IsOnTrack outstanding id e w named h.0 t
  serve_all-IsOnTrack outstanding id e (e' ∷ rest) w named h t =
      serve_all-IsOnTrack (λ k. outstanding k && not (reports e k)) id e' rest (serve env e w) named
        h.1 (serve-IsOnTrack outstanding id e w named h.0 t).0

  -- If each of the user, auth and mail services reports success for a stored session with its
  -- three steps, none of which has failed, then in whatever order the reports come, and however
  -- often each comes, the session ends with the status code_sent, and its client was told of it
  -- exactly once.
  pub results-code_sent :
      (id : String) (rs : List Event) (w : World)
      → (id == "") ≡ false
      → AllSucceed id rs
      → reported_by rs user_create_profile ≡ true
      → reported_by rs auth_create_pending ≡ true
      → reported_by rs mail_send_verification_code ≡ true
      → IsOnTrack is_start_key id w
      → (s : Session) × (get_by_id id (serve_all env rs w).db.sessions ≡ some s)
        × (s.status ≡ SessionStatus.code_sent)
        × (code_sent_count id (serve_all env rs w).trace ≡ 1)
  results-code_sent id [] w named h u a m t = cc
  results-code_sent id (e ∷ rest) w named h u a m t =
      let (track, settled) = serve_all-IsOnTrack is_start_key id e rest w named h t in
      let none_left = nothing_left (e ∷ rest) u a m in
      let status =
        settled.status
        ∙ reconciled-code_sent (left_after (e ∷ rest) is_start_key) id
            (serve_all env (e ∷ rest) w).db none_left track.steps in
      let known = settled.known (ap is_code_sent status) in
      (settled.session, settled.found, status, track.told_each ∙ ap as_number known)

  -- A success that is reported once more, for a stored session whose steps are all completed, sets
  -- the session to code_sent, whatever its status was: completed and tokens_claimed too.
  pub repeated-code_sent :
      (id : String) (e : Event) (w : World)
      → (id == "") ≡ false
      → Succeeds id e
      → IsOnTrack (λ _. false) id w
      → (s : Session) × (get_by_id id (serve env e w).db.sessions ≡ some s)
        × (s.status ≡ SessionStatus.code_sent)
  repeated-code_sent id e w named h t =
      let (track, settled) = serve-IsOnTrack (λ _. false) id e w named h t in
      (
        settled.session,
        settled.found,
        settled.status
            ∙ reconciled-code_sent (λ _. false) id (serve env e w).db (λ k. refl) track.steps,
      )
