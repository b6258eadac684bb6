-- ===== src/Quiet/Claim.antt =====
-- GetRegistrationStatus of internal/application/verify_email.go on a completed session, when every
-- call succeeds and no one interferes.
use mathlib.Core.Option.{some-injective}
use ofm_registration_saga_se.Prelude.{
  String, true, false, some, List, [], ◌∷◌, ◌≡◌, refl, ap, ◌∙◌, ◌==◌, inl, inr, Bool-cases,
}
use ofm_registration_saga_se.Prelude.Text.{trim_space}
use ofm_registration_saga_se.Domain.{Session, SessionStatus, is_completed}
use ofm_registration_saga_se.Exec.{ok, pure, handle, resume, ◌>>=◌}
use ofm_registration_saga_se.Store.{get_by_id, has_completed}
use ofm_registration_saga_se.Store.Identity.{get_by_id-session_id}
use ofm_registration_saga_se.World.{Env, World}
use ofm_registration_saga_se.Repository.Sessions
use ofm_registration_saga_se.Application.VerifyEmail.{
  status_of, claimed_status, get_registration_status,
}
use ofm_registration_saga_se.Quiet.{IsQuiet, query-quiet, write-quiet}

has_completed-found :
    (id : String) (l : List Session) (s : Session)
    → get_by_id id l ≡ some s
    → s.status ≡ SessionStatus.completed
    → has_completed id l ≡ true
unfolding get_by_id has_completed
has_completed-found id [] s h c = cc
has_completed-found id (t ∷ rest) s h c = elim (Bool-cases (t.session_id == id)) [
  | inl e ↦
      let same : t ≡ s = some-injective t s (rw e at h) in
      rw (e, ap is_completed (ap (λ u. u.status) same ∙ c)) refl
  | inr e ↦ rw e (has_completed-found id rest s (rw e at h) c)
]

module _ {env : Env} (q : IsQuiet env) where
  pub claim-quiet :
      (session_id client_id : String) (s : Session) (w : World)
      → (trim_space session_id == "") ≡ false
      → (trim_space client_id == "") ≡ false
      → get_by_id (trim_space session_id) w.db.sessions ≡ some s
      → (s.client_id == trim_space client_id) ≡ true
      → s.status ≡ SessionStatus.completed
      → (get_registration_status env session_id client_id w).0
        ≡ ok (record {
          session_id = s.session_id;
          client_id = s.client_id;
          user_id = s.user_id;
          status = SessionStatus.completed;
        })
  unfolding get_registration_status claimed_status status_of Sessions.get_by_id Sessions.claim ◌>>=◌
      handle resume pure
  claim-quiet session_id client_id s w named of found owned done =
      let named_s = get_by_id-session_id (trim_space session_id) w.db.sessions found in
      let has = has_completed-found (trim_space session_id) w.db.sessions s found done in
      simp (named, of, query-quiet q, found, owned, done, write-quiet q, named_s, has)
