-- ===== src/Nats/Client.antt =====
-- internal/presentation/event_broker/nats and pkg/messaging/nats: the calls of nats.go that the
-- broker, the bootstrap and the result subscriber make, and how they annotate the errors.
use Prim.Native.String.{◌++◌}
use ofm_registration_saga_se.Prelude.{
  ℕ, String, Option, none, some, List, ◌∷◌, ◌≡◌, refl, ◌⊎◌, inl, inr, Option-cases,
}
use ofm_registration_saga_se.Prelude.Counting.{count}
use ofm_registration_saga_se.Prelude.Integer.{ℤ}
use ofm_registration_saga_se.Domain.{Error, external, message}
use ofm_registration_saga_se.Exec.{ok, err, Exec, pure, raise, handle, resume}
use ofm_registration_saga_se.Nats.{PullAdaptiveConfig, PullConsumerConfig}

-- config.NATSConfig
pub record NatsConfig : Type 0 where
  pub url : String
  pub user : String
  pub password : String
  pub registration_events_stream : String
  pub user_events_stream : String
  pub auth_events_stream : String
  pub mail_events_stream : String
  pub registration_code_sent_subject : String
  pub registration_completed_subject : String
  pub registration_failed_subject : String
  pub user_create_subject : String
  pub user_create_result_subject : String
  pub auth_create_pending_subject : String
  pub auth_create_pending_result_subject : String
  pub mail_send_result_subject : String
  pub user_create_result_durable : String
  pub auth_create_pending_result_durable : String
  pub mail_send_result_durable : String
  pub result_batch_size : ℤ
  pub result_max_wait : ℤ
  pub result_workers : ℤ
  pub result_queue_size : ℤ
  pub result_ack_wait : ℤ
  pub result_max_deliver : ℤ
  pub result_adaptive : PullAdaptiveConfig

-- nats.StreamConfig. Storage, retention, replicas and age are the same for all.
pub record StreamConfig : Type 0 where
  pub name : String
  pub subjects : List String

-- The calls of nats.go that may fail. `connected` has the user and password where a user is set.
pub data Call : Type 0 where
  connected : String → Option (String × String) → Call
  published : String → String → Call
  flushed jetstream_ready : Call
  subscribed : String → Call
  added_stream updated_stream : StreamConfig → Call
  added_consumer updated_consumer : PullConsumerConfig → Call
  pull_subscribed : String → String → String → Call

-- What was called with success, the newest first, and the consumers that were started.
pub record Client (H : Type 0) : Type 0 where
  pub calls : List Call
  pub consumers : List (PullConsumerConfig × H)

module _ (fails : ℕ → Call → Option Error) where
  -- The call that is noted after others: the first of two, or, where it fails, the second.
  abbrev pub IsFirstOf : Call → Call → List Call → Call → Type 0
  IsFirstOf add update calls c =
      ((c ≡ add) × (fails (count calls) add ≡ none))
      ⊎ ((c ≡ update)
          × (fails (count calls) update ≡ none)
          × ((e : Error) × (fails (count calls) add ≡ some e)))

  -- Both fail.
  abbrev pub BothFail : Call → Call → List Call → Type 0
  BothFail add update calls =
      ((e : Error) × (fails (count calls) add ≡ some e))
      × ((e : Error) × (fails (count calls) update ≡ some e))

-- `fails` is the error of a call, after some number of successful ones.
module _ {H : Type 0} (fails : ℕ → Call → Option Error) where
  unfoldable pub answered : Option Error → Call → Exec (Client H) (Unit {0})
  answered none c client = (ok tt, record client { calls = c ∷ client.calls })
  answered (some e) c client = (err e, client)

  unfoldable pub call : Call → Exec (Client H) (Unit {0})
  unfolding answered
  call c client = answered (fails (count client.calls) c) c client

  -- A call whose error is returned under an annotation.
  unfoldable pub call_or : Call → (Error → Error) → Exec (Client H) (Unit {0})
  unfolding call
  call_or c wrap = handle (call c) (λ e. raise (wrap e)) pure

  -- A call succeeds and is noted, or its error is annotated and returned.
  pub call_or-cases :
      (c : Call) (wrap : Error → Error) (client : Client H)
      → (call_or c wrap client ≡ (ok tt, record client { calls = c ∷ client.calls }))
        ⊎ ((e : Error) × (fails (count client.calls) c ≡ some e)
            × (call_or c wrap client ≡ (err (wrap e), client)))
  unfolding call_or call answered handle resume pure raise
  call_or-cases c wrap client = elim (Option-cases (fails (count client.calls) c)) [
    | inl e ↦ inl (rw e)
    | inr (x, e) ↦ inr (x, e, rw e)
  ]

  -- if _, err := add; err != nil { if _, updateErr := update; updateErr != nil { wrap } }
  unfoldable pub add_or_update : Call → Call → (Error → Error → Error) → Exec (Client H) (Unit {0})
  unfolding call call_or
  add_or_update add update wrap = handle (call add) (λ e. call_or update (wrap e)) pure

  pub add_or_update-cases :
      (add update : Call) (wrap : Error → Error → Error) (client : Client H)
      → ((c : Call) × IsFirstOf fails add update client.calls c
          × (add_or_update add update wrap client
              ≡ (ok tt, record client { calls = c ∷ client.calls })))
        ⊎ ((e : Error) × BothFail fails add update client.calls
            × (add_or_update add update wrap client ≡ (err e, client)))
  unfolding add_or_update call_or call answered handle resume pure raise
  add_or_update-cases add update wrap client =
      elim (Option-cases (fails (count client.calls) add)) [
        | inl e ↦ inl (add, inl (refl, e), rw e)
        | inr (x, e) ↦ elim (Option-cases (fails (count client.calls) update)) [
          | inl e' ↦ inl (update, inr (refl, e', (x, e)), rw (e, e'))
          | inr (x', e') ↦ inr (wrap x x', ((x, e), (x', e')), rw (e, e'))
        ]
      ]

unfoldable pub wrap_connect_to_nats : Error → Error
wrap_connect_to_nats e = external ("connect to nats: " ++ message e)

unfoldable pub wrap_publish_to_nats : String → Error → Error
wrap_publish_to_nats subject e = external ("publish to nats (" ++ subject ++ "): " ++ message e)

unfoldable pub wrap_subscribe_to_nats : String → Error → Error
wrap_subscribe_to_nats subject e = external ("subscribe to nats (" ++ subject ++ "): " ++ message e)

unfoldable pub wrap_flush_nats_publisher : Error → Error
wrap_flush_nats_publisher e = external ("flush nats publisher: " ++ message e)

unfoldable pub wrap_init_jetstream_context : Error → Error
wrap_init_jetstream_context e = external ("init jetstream context: " ++ message e)

-- `quote` is the %q of fmt.
module _ (quote : String → String) where
  unfoldable pub wrap_ensure_consumer : String → String → Error → Error → Error
  wrap_ensure_consumer stream durable add update = external (
      "ensure consumer "
      ++ quote durable
      ++ " in stream "
      ++ quote stream
      ++ ": add err="
      ++ message add
      ++ ", update err="
      ++ message update)

  unfoldable pub wrap_create_pull_subscriber : String → String → Error → Error
  wrap_create_pull_subscriber subject durable e = external (
      "create pull subscriber subject="
      ++ quote subject
      ++ " durable="
      ++ quote durable
      ++ ": "
      ++ message e)

  unfoldable pub wrap_ensure_stream : String → Error → Error → Error
  wrap_ensure_stream name add update = external (
      "ensure stream "
      ++ quote name
      ++ ": add err="
      ++ message add
      ++ ", update err="
      ++ message update)
