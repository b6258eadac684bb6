-- ===== src/Quiet/EndToEnd.antt =====
-- internal/application: a registration from its request to the tokens, when every call succeeds and
-- no one interferes.
use ofm_registration_saga_se.Prelude.{
  ℕ, String, true, false, some, List, [], ◌∷◌, ◌++◌, ◌≡◌, refl, sym, ap, subst, ◌∙◌, ◌==◌, eq_iff,
}
use ofm_registration_saga_se.Prelude.Text.{trim_space}
use ofm_registration_saga_se.Domain.{
  Session, SessionStatus, StartRegistrationParams, VerifyEmailParams, user_create_profile,
  auth_create_pending, mail_send_verification_code,
}
use ofm_registration_saga_se.Exec.{ok}
use ofm_registration_saga_se.Store.{get_by_id}
use ofm_registration_saga_se.Store.Identity.{Persists, SameIdentity, get_by_id-session_id}
use ofm_registration_saga_se.World.{Env, World, Payload, Notification}
use ofm_registration_saga_se.Application.Start.{trimmed}
use ofm_registration_saga_se.Application.VerifyEmail.{get_registration_status}
use ofm_registration_saga_se.History.{Event, starts, verifies, runs, serve, serve_all}
use ofm_registration_saga_se.Guarantee.Database.{serve_all-Persists}
use ofm_registration_saga_se.Guarantee.Notified.{code_sent_count}
use ofm_registration_saga_se.Quiet.{IsQuiet, Delivers}
use ofm_registration_saga_se.Quiet.Client.{with_client, start-with_client}
use ofm_registration_saga_se.Quiet.Completion.{completion_trace}
use ofm_registration_saga_se.Quiet.CodeSent.{AllSucceed, reported_by, is_start_key}
use ofm_registration_saga_se.Quiet.Registration.{
  IsNew, drawn, dispatched, serve-started, dispatched-IsOnTrack, registration-code_sent,
}
use ofm_registration_saga_se.Quiet.Dispatched.{dispatched-IsUnverified}
use ofm_registration_saga_se.Quiet.Unverified.{serve_all-IsUnverified}
use ofm_registration_saga_se.Quiet.Verification.{IsVerifiable, verify-completes}
use ofm_registration_saga_se.Quiet.Claim.{claim-quiet}

serve_all-append :
    (env : Env) (es rs : List Event) (w : World)
    → serve_all env (es ++ rs) w ≡ serve_all env rs (serve_all env es w)
unfolding serve_all
serve_all-append env [] rs w = refl
serve_all-append env (e ∷ es) rs w = serve_all-append env es rs (serve env e w)

-- What a lookup that persists finds.
Persists-found :
    (id : String) (l l' : List Session) (s t : Session)
    → get_by_id id l ≡ some s
    → get_by_id id l' ≡ some t
    → Persists (get_by_id id l) (get_by_id id l')
    → SameIdentity s t
Persists-found id l l' s t e f h = rw (e, f) at h

-- What VerifyEmail asks of its parameters for the session that Start has drawn: the session and the
-- client of the registration, and some code.
pub record IsSubmission (env : Env) (params : StartRegistrationParams) (p : VerifyEmailParams)
    (w : World) : Type 0 where
  pub session : trim_space p.session_id ≡ drawn env w
  pub client : trim_space p.client_id ≡ (trimmed params).client_id
  pub has_code : (trim_space p.code == "") ≡ false

-- A registration that has come to its end: before the code the session was code_sent, and its
-- client had been told so once; after it, the calls of the completion stand on top of the trace, no
-- goroutine is left, and the session is the client's to claim.
abbrev pub IsComplete :
    (env : Env) (render : Payload → String) (id client : String) (p : VerifyEmailParams)
    (before after : World)
    → Type 0
IsComplete env render id client p before after =
    (s : Session) × (n : ℕ) × (code_sent_count id before.trace ≡ 1)
    × (get_by_id id before.db.sessions ≡ some s)
    × (s.status ≡ SessionStatus.code_sent)
    × (after.trace ≡ completion_trace env render s (trim_space p.code) n before.trace)
    × (after.tasks ≡ [])
    × ((get_registration_status env p.session_id p.client_id after).0
        ≡ ok (record {
          session_id = id;
          client_id = client;
          user_id = s.user_id;
          status = SessionStatus.completed;
        }))

module _ {env : Env} {render : Payload → String} {body : Notification → String} (q : IsQuiet env)
    (d : Delivers env render body) (synced : env.reconciles ≡ true) where
  -- After the reports the code can be submitted.
  code_sent-IsVerifiable :
      (params : StartRegistrationParams) (hash : String) (rs : List Event) (p : VerifyEmailParams)
      (s : Session) (w : World)
      → IsNew env params hash w
      → AllSucceed (drawn env w) rs
      → IsSubmission env params p w
      → (let w2 = serve_all env rs (dispatched q d params hash w) in
          get_by_id (drawn env w) w2.db.sessions ≡ some s
          → s.status ≡ SessionStatus.code_sent
          → IsVerifiable p s w2 × (s.client_id ≡ (trimmed params).client_id))
  code_sent-IsVerifiable params hash rs p s w h all sub found sent =
      let id = drawn env w in
      let w1 = dispatched q d params hash w in
      let (fresh, (first, at_first, of_client)) = dispatched-IsUnverified q d params hash w h in
      let u =
        serve_all-IsUnverified q d synced is_start_key id rs w1 h.named all
          (dispatched-IsOnTrack q d params hash w h) fresh in
      let same_id = get_by_id-session_id id (serve_all env rs w1).db.sessions found in
      let same_client =
        Persists-found id w1.db.sessions (serve_all env rs w1).db.sessions first s at_first found
          (serve_all-Persists env rs w1 id) in
      let owned = same_client.client_id ∙ of_client in
      (
        record {
          has_session = rw (sub.session) h.named;
          has_client = rw (sub.client) h.acceptable.of_client;
          has_code = sub.has_code;
          found = rw (sub.session) found;
          owned = (eq_iff s.client_id (trim_space p.client_id)).1 (owned ∙ sym sub.client);
          status = sent;
          no_check = rw same_id u.no_check;
          no_activation = rw same_id u.no_activation;
          idle = u.idle;
        },
        owned,
      )

  -- The registration of a request that has a client's id.
  given-completes :
      (params : StartRegistrationParams) (hash : String) (rs : List Event) (p : VerifyEmailParams)
      (w : World)
      → IsNew env params hash w
      → AllSucceed (drawn env w) rs
      → reported_by rs user_create_profile ≡ true
      → reported_by rs auth_create_pending ≡ true
      → reported_by rs mail_send_verification_code ≡ true
      → IsSubmission env params p w
      → IsComplete env render
          (drawn env w)
          (trimmed params).client_id
          p
          (serve_all env (starts params ∷ runs 0 ∷ rs) w)
          (serve_all env ((starts params ∷ runs 0 ∷ rs) ++ (verifies p ∷ runs 0 ∷ [])) w)
  given-completes params hash rs p w h all u a m sub =
      let id = drawn env w in
      let (s, found, sent, once) = registration-code_sent q d synced params hash rs w h all u a m in
      let (ready, owned) =
        code_sent-IsVerifiable params hash rs p s w h all sub
          (rw (serve-started q d params hash rs w h) at found) sent in
      let before = serve_all env (starts params ∷ runs 0 ∷ rs) w in
      let ready' : IsVerifiable p s before =
        subst (IsVerifiable p s) (sym (serve-started q d params hash rs w h)) ready in
      let same_id = get_by_id-session_id id before.db.sessions found in
      let ((t, t_found, done), trace, idle) = verify-completes q d p s before ready' in
      let end = serve_all env (verifies p ∷ runs 0 ∷ []) before in
      let same =
        Persists-found s.session_id before.db.sessions end.db.sessions s t (rw same_id found)
          t_found (serve_all-Persists env (verifies p ∷ runs 0 ∷ []) before s.session_id) in
      let claim =
        claim-quiet q p.session_id p.client_id t end ready'.has_session ready'.has_client
          (subst (λ i. get_by_id i end.db.sessions ≡ some t) (same_id ∙ sym sub.session) t_found)
          (rw (same.client_id) ready'.owned) done in
      rw (serve_all-append env (starts params ∷ runs 0 ∷ rs) (verifies p ∷ runs 0 ∷ []) w) (
        s,
        _,
        once,
        found,
        sent,
        trace,
        idle,
        claim ∙ (λ i. ok (record {
          session_id = (same.session_id ∙ same_id) i;
          client_id = (same.client_id ∙ owned) i;
          user_id = same.user_id i;
          status = SessionStatus.completed;
        })),
      )

  -- A registration with acceptable parameters that names neither its session nor its user, and its
  -- client or, with a blank id, none, comes to its end. Its session id is not blank and not in use,
  -- and has as many code-sent notifications before as entries in codeSentNotified; its email and
  -- username are no session's and free in the other services; no goroutine waits before it; the
  -- repository reconciles; and the client's id, where it is blank, is drawn with no space around
  -- it. After the goroutine of Start and success reports of the user, auth and mail services, in
  -- whatever order and however often they come, the session is code_sent and its client has been
  -- told so once. After the request with the code of the same client and its goroutine, the
  -- verification of the code, the activation of the user, the event and the notification of
  -- completion have come on top of what was seen before; no goroutine is left, and the next
  -- GetRegistrationStatus of the client answers that the session is completed.
  pub registration-completes :
      (params : StartRegistrationParams) (hash : String) (rs : List Event) (p : VerifyEmailParams)
      (w : World)
      → trim_space (env.uuid w.calls) ≡ env.uuid w.calls
      → (let (given, w1) = with_client env params w in
          IsNew env given hash w1
          → AllSucceed (drawn env w1) rs
          → reported_by rs user_create_profile ≡ true
          → reported_by rs auth_create_pending ≡ true
          → reported_by rs mail_send_verification_code ≡ true
          → IsSubmission env given p w1
          → IsComplete env render
              (drawn env w1)
              (trimmed given).client_id
              p
              (serve_all env (starts params ∷ runs 0 ∷ rs) w)
              (serve_all env ((starts params ∷ runs 0 ∷ rs) ++ (verifies p ∷ runs 0 ∷ [])) w))
  unfolding serve_all serve
  registration-completes params hash rs p w printed h all u a m sub =
      let (given, w1) = with_client env params w in
      subst
        (λ x.
          IsComplete env render (drawn env w1) (trimmed given).client_id p
            (serve_all env (runs 0 ∷ rs) x)
            (serve_all env ((runs 0 ∷ rs) ++ (verifies p ∷ runs 0 ∷ [])) x))
        (ap (λ x. x.1) (sym (start-with_client env params w printed h.acceptable)))
        (given-completes given hash rs p w1 h all u a m sub)
