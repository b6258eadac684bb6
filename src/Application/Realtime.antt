-- ===== src/Application/Realtime.antt =====
-- realtime.go, and publishCodeSentIfReady of service.go
use ofm_registration_saga_se.Prelude.{
  String, Bool, true, false, Option, none, some, List, [], ◌∷◌, ◌==◌, if◌then◌else◌, ◌||◌, ◌≡◌, inl,
  inr, Bool-cases,
}
use ofm_registration_saga_se.Domain.{Session, is_code_sent}
use ofm_registration_saga_se.Exec.{ok, pure, ◌>>=◌, ignore}
use ofm_registration_saga_se.World.{
  Env, World, Saga, Notification, RealtimeStatus, notified_client, send,
}
use ofm_registration_saga_se.Repository.Sessions

unfoldable pub contains : String → List String → Bool
contains id [] = false
contains id (x ∷ rest) = x == id || contains id rest

-- codeSentNotified.LoadOrStore: whether the key was there
unfoldable pub load_or_store : String → Saga Bool
load_or_store id w =
    if contains id w.notified
    then (ok true, w)
    else (ok false, record w { notified = id ∷ w.notified })

pub load_or_store_cases {ℓ} :
    (P : World → Type ℓ) (id : String) (w : World)
    → P w
    → (contains id w.notified ≡ false → P (record w { notified = id ∷ w.notified }))
    → P (load_or_store id w).1
unfolding load_or_store
load_or_store_cases P id w known new = elim (Bool-cases (contains id w.notified)) [
  | inl e ↦ rw (e, load_or_store) known
  | inr e ↦ rw (e, load_or_store) (new e)
]

-- registrationErrorCode
unfoldable pub registration_error_code : String → String
registration_error_code _ = "registration_failed"

module _ (env : Env) where
  -- json.Marshal of the notification; an error of it, or of the publication, is only logged.
  unfoldable pub publish_encoded : Notification → Option String → Saga (Unit {0})
  publish_encoded n none = pure tt
  publish_encoded n (some body) = ignore (send env (notified_client n)) (pure tt)

  unfoldable pub publish_registration_notification :
      Session → String → RealtimeStatus → String → Option Bool → Option String → Saga (Unit {0})
  publish_registration_notification s event_type status error_code retryable payload =
      let n : Notification = record {
        event_type = event_type;
        session_id = s.session_id;
        status = status;
        error_code = error_code;
        retryable = retryable;
        payload = payload;
      } in
      if env.has_realtime then publish_encoded n (env.encode n) else pure tt

  unfoldable pub notify_code_sent : String → Session → Option String → Saga (Unit {0})
  notify_code_sent id s payload = do
    loaded ← load_or_store id
    if loaded
        then pure tt
        else publish_registration_notification s "registration.code_sent" RealtimeStatus.accepted ""
            none payload

  unfoldable pub publish_code_sent_if_ready : String → Option String → Saga (Unit {0})
  publish_code_sent_if_ready id payload =
      if env.has_realtime
      then (do
        session ← Sessions.get_by_id env id
        if is_code_sent session.status then notify_code_sent id session payload else pure tt)
      else pure tt
