-- ===== src/Nats/Bootstrap.antt =====
-- pkg/messaging/nats/bootstrap.go: the streams that the saga needs.
pub mod Streams
use ofm_registration_saga_se.Prelude.{
  ℕ, String, Bool, true, false, not, Option, none, some, List, [], ◌∷◌, ◌==◌, if◌then◌else◌,
}
use ofm_registration_saga_se.Domain.{Error, external}
use ofm_registration_saga_se.Exec.{Exec, pure, raise, ◌>>=◌, ◌>>◌}
use ofm_registration_saga_se.Nats.Client.{
  NatsConfig, StreamConfig, Call, connected, jetstream_ready, added_stream, updated_stream, Client,
  call_or, add_or_update, wrap_connect_to_nats, wrap_init_jetstream_context, wrap_ensure_stream,
}

-- The four configurations, in the order of the code.
abbrev pub registration_stream : NatsConfig → StreamConfig
registration_stream cfg = record {
  name = cfg.registration_events_stream;
  subjects =
      cfg.registration_code_sent_subject ∷ cfg.registration_completed_subject
      ∷ cfg.registration_failed_subject ∷ [];
}

abbrev pub result_stream : String → String → StreamConfig
result_stream name subject = record { name = name; subjects = subject ∷ [] }

unfoldable pub streams : NatsConfig → List StreamConfig
streams cfg =
    registration_stream cfg
    ∷ result_stream cfg.user_events_stream cfg.user_create_result_subject
    ∷ result_stream cfg.auth_events_stream cfg.auth_create_pending_result_subject
    ∷ result_stream cfg.mail_events_stream cfg.mail_send_result_subject
    ∷ []

-- The user and the password, where a user is set.
abbrev pub credentials : NatsConfig → Option (String × String)
credentials cfg = if cfg.user == "" then none else some (cfg.user, cfg.password)

module _ {H : Type 0} (fails : ℕ → Call → Option Error) (quote : String → String) where
  unfoldable pub connect : NatsConfig → Exec (Client H) (Unit {0})
  unfolding call_or
  connect cfg = call_or fails (connected cfg.url (credentials cfg)) wrap_connect_to_nats

  -- One stream: it is added, or else updated.
  unfoldable pub ensure : StreamConfig → Exec (Client H) (Unit {0})
  unfolding add_or_update
  ensure s =
      add_or_update fails (added_stream s) (updated_stream s) (wrap_ensure_stream quote s.name)

  unfoldable pub ensure_all : List StreamConfig → Exec (Client H) (Unit {0})
  ensure_all [] = pure tt
  ensure_all (s ∷ rest) = do ensure s; ensure_all rest

  -- `has_logger` is whether the logger is not nil.
  unfoldable pub ensure_stream : Bool → NatsConfig → Exec (Client H) (Unit {0})
  unfolding connect call_or ensure_all streams
  ensure_stream has_logger cfg = if not has_logger then raise (external "logger is nil") else do
    connect cfg
    call_or fails jetstream_ready wrap_init_jetstream_context
    ensure_all (streams cfg)
