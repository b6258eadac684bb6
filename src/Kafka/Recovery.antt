-- ===== src/Kafka/Recovery.antt =====
-- recovery_subscriber.go: commands that lack an identifier.
use Prim.Native.String.{◌++◌}
use ofm_registration_saga_se.Prelude.Text.{trim_space}
use ofm_registration_saga_se.Prelude.{
  ℕ, zero, suc, String, Bool, true, false, ◌||◌, some, List, [], ◌∷◌, ◌==◌, ◌≡◌, refl, arith, inl,
  inr, Bool-cases,
}
use ofm_registration_saga_se.Domain.{permanent, StartRegistrationParams}
use ofm_registration_saga_se.Exec.{ok, err, pure, raise, handle, resume, ◌>>=◌}
use ofm_registration_saga_se.World.{Env, World}
use ofm_registration_saga_se.Kafka.Subscribers.{
  lift, Command, RecoveryCodec, named_fields, first_blank, with_client, checked, equal_fold,
  handle_recovery,
}

abbrev blank : String → Bool
blank v = trim_space v == ""

-- Whether a list of fields has a blank one.
any_blank : List (String × String) → Bool
any_blank [] = false
any_blank ((field, value) ∷ rest) = blank value || any_blank rest

first_blank-found :
    (fields : List (String × String))
    → any_blank fields ≡ true
    → (f : String) × (first_blank fields ≡ some f)
unfolding first_blank any_blank
first_blank-found [] h = cc
first_blank-found ((field, value) ∷ rest) h = elim (Bool-cases (blank value)) [
  | inl e ↦ (field, rw e refl)
  | inr e ↦ let (f, found) = first_blank-found rest (ground arith) in (f, rw e found)
]

any_blank-named :
    (order : ℕ) (s c u : String)
    → (blank s || blank c || blank u) ≡ true
    → any_blank (named_fields order s c u) ≡ true
unfolding any_blank named_fields
any_blank-named zero s c u h = ground arith
any_blank-named (suc zero) s c u h = ground arith
any_blank-named (suc (suc zero)) s c u h = ground arith
any_blank-named (suc (suc (suc zero))) s c u h = ground arith
any_blank-named (suc (suc (suc (suc zero)))) s c u h = ground arith
any_blank-named (suc (suc (suc (suc (suc n))))) s c u h = ground arith

-- A registration command whose session, user or client id is blank, the client's after its
-- default, is refused with a permanent error, whichever field is looked at first, and the world
-- is as it was: no registration is started.
pub handle_recovery-refused :
    (env : Env) (codec : RecoveryCodec) (topic : String) (order : ℕ) (raw : String) (cmd : Command)
    (decoded : StartRegistrationParams) (w : World)
    → codec.decode_command raw ≡ ok cmd
    → equal_fold cmd.aggregate_type "registration" ≡ true
    → codec.decode_payload cmd.payload ≡ ok decoded
    → (let p = with_client cmd decoded in
        blank p.session_id || blank p.client_id || blank p.user_id)
      ≡ true
    → (text : String) × (handle_recovery env codec topic order raw w ≡ (err (permanent text), w))
unfolding handle_recovery checked lift ◌>>=◌ handle resume raise pure
handle_recovery-refused env codec topic order raw cmd decoded w dc same dp h =
    let p = with_client cmd decoded in
    let (f, found) =
      first_blank-found (named_fields order p.session_id p.client_id p.user_id)
        (any_blank-named order p.session_id p.client_id p.user_id h) in
    (
      "registration recovery command " ++ cmd.command_id ++ " is missing " ++ f,
      rw (dc, same, dp, found) refl,
    )
