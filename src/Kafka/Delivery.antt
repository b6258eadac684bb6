-- ===== src/Kafka/Delivery.antt =====
-- broker.go: what a consumer's handler is given of what Publish wrote.
use text.Mathlib.Text.{starts_with}
use ofm_registration_saga_se.Prelude.{String, false, none, ◌∷◌, ◌≡◌, refl}
use ofm_registration_saga_se.Exec.{Result, ok, err, Exec}
use ofm_registration_saga_se.Kafka.{Message}
use ofm_registration_saga_se.Kafka.Worker.{Client, Log, call_handler}
use ofm_registration_saga_se.Kafka.Publish.{Codec, Metadata, Topics, publish, enveloped, written}

-- A message of the written value is handled as the payload that was published.
abbrev pub Delivers :
    {S : Type 0}
    → Client
    → String
    → String
    → Topics
    → (String → Exec S (Unit {0}))
    → Log S
    → Result (Unit {0}) × Topics
    → Type 0
Delivers client subject payload topics handler log x =
    (value : String) × (x.1 ≡ (subject, value) ∷ topics)
    × ((msg : Message)
        → msg.value ≡ value
        → call_handler client subject handler msg (client.unwrap msg.value) log
          ≡ ((handler payload log.app).0, record log { app = (handler payload log.app).1 }))

module _ {S : Type 0} (codec : Codec) (metadata : Metadata) (client : Client)
    (unwraps : (subject payload value : String)
      → codec.wrap subject payload ≡ ok value
      → client.unwrap value ≡ ok payload) where
  wrapped-Delivers :
      (subject payload : String) (topics : Topics) (handler : String → Exec S (Unit {0}))
      (log : Log S) (w : Result String)
      → starts_with subject "migration.registration." ≡ false
      → starts_with subject "migration.recovery.commands." ≡ false
      → codec.wrap subject payload ≡ w
      → (publish codec metadata none subject payload topics).0 ≡ ok tt
      → Delivers client subject payload topics handler log
          (publish codec metadata none subject payload topics)
  unfolding publish enveloped written call_handler
  wrapped-Delivers subject payload topics handler log (err e) plain raw w h =
      let refused = rw w at h in cc
  wrapped-Delivers subject payload topics handler log (ok value) plain raw w h =
      (value, rw (w, plain) refl, λ msg same. rw (same, unwraps subject payload value w, raw) refl)

  -- If Unwrap gives back what Wrap was given, then a payload that Publish accepts, outside the
  -- migration's topics, is written once to the topic of its subject, and a consumer of this subject
  -- calls its handler with exactly that payload.
  pub publish-Delivers :
      (subject payload : String) (topics : Topics) (handler : String → Exec S (Unit {0}))
      (log : Log S)
      → starts_with subject "migration.registration." ≡ false
      → starts_with subject "migration.recovery.commands." ≡ false
      → (publish codec metadata none subject payload topics).0 ≡ ok tt
      → Delivers client subject payload topics handler log
          (publish codec metadata none subject payload topics)
  publish-Delivers subject payload topics handler log plain raw h =
      wrapped-Delivers subject payload topics handler log (codec.wrap subject payload) plain raw
        refl h
