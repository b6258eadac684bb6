-- ===== src/Kafka/Publish.antt =====
-- broker.go's Publish, and the mapper of migration_mapper.go. The envelope format of ofm-common and
-- the writer of kafka-go are parameters.
use text.Mathlib.Text.{starts_with}
use ofm_registration_saga_se.Prelude.{
  String, Bool, true, false, ◌||◌, Option, none, some, List, ◌∷◌, ◌==◌, ◌≡◌, refl, arith,
  if◌then◌else◌, inl, inr, ◌⊎◌,
}
use ofm_registration_saga_se.Domain.{Error, external}
use ofm_registration_saga_se.Exec.{Result, ok, err, Exec}

pub record RegistrationPayload : Type 0 where
  pub session_id : String
  pub client_id : String
  pub user_id : String

-- The fields of events.Envelope that Map sets; the others are those of events.New.
pub record Envelope : Type 0 where
  pub event_type : String
  pub payload : String
  pub aggregate_type : String
  pub aggregate_id : String
  pub session_id : String
  pub source_service : String
  pub operation : String
  pub correlation_id : String
  pub test_run_id : String

pub record Metadata : Type 0 where
  pub correlation_id : String
  pub test_run_id : String

pub record Codec : Type 0 where
  pub wrap : String → String → Result String
  pub decode : String → Result RegistrationPayload
  pub fresh : String → String → Result Envelope
  pub marshal : Envelope → Result String

-- A topic and the value written to it; the newest first. The key of a message, which is the hash of
-- its value, and its headers, which are those of the context, are left out.
abbrev pub Topics : Type 0
Topics = List (String × String)

module _ (codec : Codec) (metadata : Metadata) where
  unfoldable pub fill : String → RegistrationPayload → Envelope → Envelope
  fill subject body envelope = record envelope {
    aggregate_type = "registration";
    aggregate_id = body.session_id;
    session_id = body.session_id;
    source_service = "registration-saga-service";
    operation = subject;
    correlation_id = metadata.correlation_id;
    test_run_id = metadata.test_run_id;
  }

  abbrev and_then : {A B : Type 0} → Result A → (A → Result B) → Result B
  and_then (ok a) f = f a
  and_then (err e) f = err e

  unfoldable pub map_body : String → String → RegistrationPayload → Result String
  unfolding fill
  map_body subject payload body =
      if body.session_id == "" || body.user_id == ""
      then err (external "registration migration payload is missing session_id or user_id")
      else and_then (codec.fresh subject payload) (λ e. codec.marshal (fill subject body e))

  -- MigrationEventMapper.Map
  unfoldable pub map : String → String → Result String
  unfolding map_body
  map subject payload = and_then (codec.decode payload) (map_body subject payload)

  unfoldable pub enveloped : String → String → Result String
  unfolding map
  enveloped subject payload =
      let mapped = map subject payload in
      and_then (codec.wrap subject payload)
        (λ wrapped. if starts_with subject "migration.registration." then mapped else ok wrapped)

  -- `write_error` is the error of WriteMessages.
  unfoldable pub written : Option Error → String → Result String → Exec Topics (Unit {0})
  written o subject (err e) topics = (err e, topics)
  written none subject (ok value) topics = (ok tt, (subject, value) ∷ topics)
  written (some e) subject (ok value) topics = (err e, topics)

  unfoldable pub publish : Option Error → String → String → Exec Topics (Unit {0})
  unfolding enveloped written
  publish write_error subject payload = written write_error subject (enveloped subject payload)

  unfoldable pub publish_realtime : Option Error → String → Exec Topics (Unit {0})
  unfolding publish
  publish_realtime write_error payload = publish write_error "realtime" payload

  -- What the envelope of a migration event says of the registration.
  abbrev pub IsNamed : RegistrationPayload → String → Type 0
  IsNamed body value =
      (e : Envelope) × (codec.marshal e ≡ ok value)
      × (e.aggregate_id ≡ body.session_id)
      × (e.session_id ≡ body.session_id)
      × ((body.session_id == "") ≡ false)
      × ((body.user_id == "") ≡ false)

  fresh-IsNamed :
      (subject : String) (body : RegistrationPayload) (value : String) (r : Result Envelope)
      → (body.session_id == "" || body.user_id == "") ≡ false
      → and_then r (λ e. codec.marshal (fill subject body e)) ≡ ok value
      → IsNamed body value
  unfolding fill
  fresh-IsNamed subject body value (err x) t h = cc
  fresh-IsNamed subject body value (ok e) t h =
      (fill subject body e, h, refl, refl, ground arith, ground arith)

  -- A conditional that succeeds although its first branch is an error took the second.
  took_else :
      (b : Bool) (e : Error) (r : Result String) {v : String}
      → (if b then err e else r) ≡ ok v
      → (b ≡ false) × (r ≡ ok v)
  took_else true e r h = cc
  took_else false e r h = (refl, h)

  took_then :
      (b : Bool) (r r' : Result String) {v : String}
      → b ≡ true
      → (if b then r else r') ≡ ok v
      → r ≡ ok v
  took_then true r r' t h = h
  took_then false r r' t h = cc

  map_body-IsNamed :
      (subject payload : String) (body : RegistrationPayload) (value : String)
      → map_body subject payload body ≡ ok value
      → IsNamed body value
  unfolding map_body
  map_body-IsNamed subject payload body value h =
      let taken = took_else (body.session_id == "" || body.user_id == "") _ _ h in
      fresh-IsNamed subject body value (codec.fresh subject payload) taken.0 taken.1

  map-IsNamed :
      (subject payload value : String) (r : Result RegistrationPayload)
      → and_then r (map_body subject payload) ≡ ok value
      → (body : RegistrationPayload) × (r ≡ ok body) × IsNamed body value
  map-IsNamed subject payload value (ok body) h =
      (body, refl, map_body-IsNamed subject payload body value h)
  map-IsNamed subject payload value (err e) h = cc

  after_wrap :
      (subject : String) (mapped w : Result String) {value : String}
      → starts_with subject "migration.registration." ≡ true
      → and_then w
          (λ wrapped. if starts_with subject "migration.registration." then mapped else ok wrapped)
        ≡ ok value
      → mapped ≡ ok value
  after_wrap subject mapped (ok wrapped) t h = took_then _ mapped (ok wrapped) t h
  after_wrap subject mapped (err e) t h = cc

  written-value :
      (o : Option Error) (subject : String) (r : Result String) (topics : Topics)
      → (written o subject r topics).1 ≡ topics
        ⊎ ((value : String) × (r ≡ ok value)
            × ((written o subject r topics).1 ≡ (subject, value) ∷ topics))
  unfolding written
  written-value o subject (err e) topics = inl refl
  written-value none subject (ok v) topics = inr (v, refl, refl)
  written-value (some x) subject (ok v) topics = inl refl

  -- Publish of a migration event writes nothing, or one envelope to the topic of the subject: that
  -- of a payload that decodes and names a session and a user, under the id of this session.
  pub publish-IsNamed :
      (write_error : Option Error) (subject payload : String) (topics : Topics)
      → starts_with subject "migration.registration." ≡ true
      → (publish write_error subject payload topics).1 ≡ topics
        ⊎ ((value : String) × ((publish write_error subject payload topics).1
              ≡ (subject, value) ∷ topics)
            × ((body : RegistrationPayload) × (codec.decode payload ≡ ok body)
                × IsNamed body value))
  unfolding publish enveloped map
  publish-IsNamed o subject payload topics pre =
      elim (written-value o subject (enveloped subject payload) topics) [
        | inl e ↦ inl e
        | inr (value, e, out) ↦ inr (
          value,
          out,
          map-IsNamed subject payload value (codec.decode payload)
              (after_wrap subject (map subject payload) (codec.wrap subject payload) pre e),
        )
      ]
