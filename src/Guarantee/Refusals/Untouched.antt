-- ===== src/Guarantee/Refusals/Untouched.antt =====
-- internal/application: the worlds after a use case that returned one of these errors.
use ofm_registration_saga_se.Prelude.{String, Bool, true, false, ◌≡◌, ◌==◌, refl, if◌then◌else◌}
use ofm_registration_saga_se.Domain.{
  Error, StartRegistrationParams, VerifyEmailParams, client_mismatch,
}
use ofm_registration_saga_se.Exec.{Result, ok, err, pure, raise, resume, handle, ◌>>=◌}
use ofm_registration_saga_se.Exec.Raises.{Fails, Raises, raises_rules}
use ofm_registration_saga_se.World.{Env, World, Saga, StartInput}
use ofm_registration_saga_se.Repository.Sessions
use ofm_registration_saga_se.Application.Start.{
  normalize_start_input, start, or_uuid, lookup_start_conflict, unless_conflict,
}
use ofm_registration_saga_se.Application.VerifyEmail.{
  verify_email, verify_session, claimed_status, get_registration_status,
}
use ofm_registration_saga_se.Guarantee.Refusals.{is_refusal, IsFault, get_by_id-Faults}
use ofm_registration_saga_se.Guarantee.Refusals.UseCases.{
  or_uuid-Faults, lookup-Faults, unless_conflict-Faults, verify_session-Faults,
  claimed_status-Faults,
}

abbrev pub Leaves : {A : Type 0} → Result A → World → World → Type 0
Leaves (ok a) before after = Unit
Leaves (err e) before after = is_refusal e ≡ true → after ≡ before

pub record Refuses {A : Type 0} (m : Saga A) : Type 0 where
  pub at : (w : World) → Leaves (m w).0 w (m w).1

module _ {A : Type 0} where
  fault-Leaves : (r : Result A) (w w' : World) → Fails IsFault r → Leaves r w w'
  fault-Leaves (ok a) w w' h = tt
  fault-Leaves (err e) w w' h = λ k. cc

  Refuses-fault : (m : Saga A) → Raises IsFault m → Refuses m
  Refuses-fault m h = record { at = λ w. fault-Leaves (m w).0 _ _ (h.at w) }

  Refuses-raise : (e : Error) → Refuses {A = A} (raise e)
  unfolding raise
  Refuses-raise e = record { at = λ w h. refl }

  Refuses-if : (b : Bool) (m n : Saga A) → Refuses m → Refuses n → Refuses (if b then m else n)
  Refuses-if true m n h k = h
  Refuses-if false m n h k = k

module _ {A B : Type 0} where
  resume-Leaves :
      (r : Result A) (w w' : World) (g : A → Saga B)
      → Leaves r w w'
      → ((a : A) → Raises IsFault (g a))
      → (let (r', w'') = resume r raise g w' in Leaves r' w w'')
  unfolding resume raise
  resume-Leaves (ok a) w w' g h k = fault-Leaves (g a w').0 _ _ ((k a).at w')
  resume-Leaves (err e) w w' g h k = h

  Refuses-bind :
      (m : Saga A) (g : A → Saga B)
      → Refuses m
      → ((a : A) → Raises IsFault (g a))
      → Refuses (m >>= g)
  unfolding ◌>>=◌ handle
  Refuses-bind m g h k = record { at = λ w. resume-Leaves (m w).0 w (m w).1 g (h.at w) k }

ruleset refuses_rules = (Refuses-if, Refuses-raise, Refuses-bind)

module _ (env : Env) where
  draw_client-Refuses :
      (input : StartInput)
      → Refuses (or_uuid env input.client_id >>= λ id. pure (record input { client_id = id }))
  draw_client-Refuses input = Refuses-fault _ (search (raises_rules, or_uuid-Faults) depth 6)

  normalize-Refuses : (q : StartRegistrationParams) → Refuses (normalize_start_input env q)
  unfolding normalize_start_input
  normalize-Refuses q = search (refuses_rules, draw_client-Refuses) depth 9

  rest-Faults :
      (input : StartInput)
      → Raises IsFault (
          lookup_start_conflict env input.email input.username >>= λ c. unless_conflict env c input)
  rest-Faults input = search (raises_rules, lookup-Faults, unless_conflict-Faults) depth 6

  pub start-Refuses : (q : StartRegistrationParams) → Refuses (start env q)
  unfolding start
  start-Refuses q = search (refuses_rules, normalize-Refuses, rest-Faults) depth 6

  session-Refuses :
      (id client_id code : String)
      → Refuses (
          Sessions.get_by_id env id >>= λ session.
          if session.client_id == client_id
          then verify_session env session code
          else raise client_mismatch)
  session-Refuses id client_id code =
      Refuses-fault _ (search (raises_rules, get_by_id-Faults, verify_session-Faults) depth 8)

  pub verify_email-Refuses : (q : VerifyEmailParams) → Refuses (verify_email env q)
  unfolding verify_email
  verify_email-Refuses q = search (refuses_rules, session-Refuses) depth 9

  claim-Refuses :
      (id client_id : String)
      → Refuses (
          Sessions.get_by_id env id >>= λ session.
          if session.client_id == client_id
          then claimed_status env session
          else raise client_mismatch)
  claim-Refuses id client_id =
      Refuses-fault _ (search (raises_rules, get_by_id-Faults, claimed_status-Faults) depth 8)

  pub get_status-Refuses :
      (session_id client_id : String) → Refuses (get_registration_status env session_id client_id)
  unfolding get_registration_status
  get_status-Refuses session_id client_id = search (refuses_rules, claim-Refuses) depth 9
