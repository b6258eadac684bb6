-- ===== src/Repository/Sessions.antt =====
-- sessionRepo of internal/infra/postgres/repository.go
use ofm_registration_saga_se.Prelude.{String, Bool, Option, none, some, ◌≡◌, refl, arith}
use ofm_registration_saga_se.Domain.{Session, SessionStatus, session_not_found, unique_violation}
use ofm_registration_saga_se.Exec.{Result, ok, err}
use ofm_registration_saga_se.Store
use ofm_registration_saga_se.Store.{Db, has_completed, reconciled}
use ofm_registration_saga_se.Store.Statement.{
  create_session, update_session, claim_completed, reconcile,
}
use ofm_registration_saga_se.World.{
  Env, World, Saga, Outcome, done, refused, lost, finish, query, write,
}
use ofm_registration_saga_se.Store.Identity.{get_by_id-session_id}

abbrev pub found : Option Session → Result Session
found none = err session_not_found
found (some s) = ok s

abbrev pub inserted {ℓ} : {A : Type ℓ} → A → Option Db → Result A
inserted a none = err unique_violation
inserted a (some _) = ok a

module _ (env : Env) where
  unfoldable pub create : Session → Saga Session
  create s =
      write env
        (λ now db.
          inserted (record s { created_at = now; updated_at = now })
            (Store.insert_session now s db))
        (λ now. create_session now s)

  unfoldable pub get_by_id : String → Saga Session
  get_by_id id = query env (λ db. found (Store.get_by_id id db.sessions))

  found-session_id :
      (id : String) (o : Option Session) {s : Session}
      → ((t : Session) → o ≡ some t → t.session_id ≡ id)
      → found o ≡ ok s
      → s.session_id ≡ id
  found-session_id id none h g = cc
  found-session_id id (some t) h g = ground (arith, h t refl)

  finish-ok :
      {A : Type 0} (o : Outcome) (r : Result A) (before after : World) {a : A}
      → (finish o r before after).0 ≡ ok a
      → r ≡ ok a
  unfolding finish
  finish-ok done r before after h = h
  finish-ok (refused e) r before after h = cc
  finish-ok (lost e) r before after h = cc

  -- A session that is returned has the id that was asked for.
  pub get_by_id-found :
      (id : String) (w : World) {s : Session} → (get_by_id id w).0 ≡ ok s → s.session_id ≡ id
  unfolding get_by_id query
  get_by_id-found id w h =
      found-session_id id _ (λ t e. get_by_id-session_id id _ e) (finish-ok _ _ _ _ h)

  unfoldable pub get_by_email : String → Saga Session
  get_by_email v = query env (λ db. found (Store.get_by_email v db.sessions))

  unfoldable pub get_by_username : String → Saga Session
  get_by_username v = query env (λ db. found (Store.get_by_username v db.sessions))

  unfoldable pub update_status : String → SessionStatus → Saga (Unit {0})
  update_status id st = write env (λ _ _. ok tt) (λ now. update_session now id st)

  unfoldable pub claim : String → Saga Bool
  claim id = write env (λ _ db. ok (has_completed id db.sessions)) (λ now. claim_completed now id)

  abbrev pub status_if_found : String → Db → Option Session → Result SessionStatus
  status_if_found id db none = err session_not_found
  status_if_found id db (some _) = ok (reconciled id db)

  unfoldable pub reconcile_status : String → Saga SessionStatus
  reconcile_status id =
      write env (λ _ db. status_if_found id db (Store.get_by_id id db.sessions))
        (λ now. reconcile now id)
