-- ===== src/Nats/Bootstrap/Streams.antt =====
-- pkg/messaging/nats/bootstrap.go: which streams are there after EnsureStream.
use ofm_registration_saga_se.Prelude.{
  ℕ, suc, String, true, Option, none, some, List, [], ◌∷◌, ◌++◌, ◌≡◌, refl, ap, ◌∙◌, sym, subst,
  ◌⊎◌, inl, inr, ◌==◌, if◌then◌else◌,
}
use ofm_registration_saga_se.Prelude.Counting.{count}
use ofm_registration_saga_se.Domain.{Error}
use ofm_registration_saga_se.Exec.{Result, ok, err, pure, bind-ok, bind-err}
use ofm_registration_saga_se.Nats.Client.{
  NatsConfig, StreamConfig, Call, connected, jetstream_ready, added_stream, updated_stream, Client,
  wrap_ensure_stream, call_or-cases, add_or_update-cases, IsFirstOf, BothFail, wrap_connect_to_nats,
  wrap_init_jetstream_context,
}
use ofm_registration_saga_se.Nats.Bootstrap.{ensure, ensure_all, ensure_stream, connect, streams}

-- The streams that the saga publishes to and reads from, in the order in which they are ensured.
abbrev pub needed : NatsConfig → List StreamConfig
needed cfg =
    record {
      name = cfg.registration_events_stream;
      subjects =
          cfg.registration_code_sent_subject ∷ cfg.registration_completed_subject
          ∷ cfg.registration_failed_subject ∷ [];
    }
    ∷ record { name = cfg.user_events_stream; subjects = cfg.user_create_result_subject ∷ [] }
    ∷ record {
      name = cfg.auth_events_stream;
      subjects = cfg.auth_create_pending_result_subject ∷ [];
    }
    ∷ record { name = cfg.mail_events_stream; subjects = cfg.mail_send_result_subject ∷ [] }
    ∷ []

-- The connection, with the password where a user is set.
abbrev pub connection : NatsConfig → Call
connection cfg = connected cfg.url (if cfg.user == "" then none else some (cfg.user, cfg.password))

module _ (fails : ℕ → Call → Option Error) where
  -- The calls after the streams were ensured in their order: each is added, or, where that fails,
  -- updated.
  abbrev pub Covers : List StreamConfig → List Call → List Call → Type 0
  Covers [] before after = after ≡ before
  Covers (s ∷ rest) before after =
      (c : Call) × IsFirstOf fails (added_stream s) (updated_stream s) before c
      × Covers rest (c ∷ before) after

  -- All are ensured, or those before one that could be neither added nor updated.
  abbrev pub Ends : List StreamConfig → Result (Unit {0}) → List Call → List Call → Type 0
  Ends ss (ok u) before after = Covers ss before after
  Ends ss (err e) before after =
      (fine : List StreamConfig) × (failed : StreamConfig) × (rest : List StreamConfig) × (ss
        ≡ fine ++ (failed ∷ rest))
      × Covers fine before after
      × BothFail fails (added_stream failed) (updated_stream failed) after

  -- A stream that was ensured before the others.
  Ends-next :
      (s : StreamConfig) (ss : List StreamConfig) (c : Call) (r : Result (Unit {0}))
      (before after : List Call)
      → IsFirstOf fails (added_stream s) (updated_stream s) before c
      → Ends ss r (c ∷ before) after
      → Ends (s ∷ ss) r before after
  Ends-next s ss c (ok u) before after h k = (c, h, k)
  Ends-next s ss c (err e) before after h (fine, failed, rest, split, covers, both) =
      (s ∷ fine, failed, rest, ap (λ x. s ∷ x) split, (c, h, covers), both)

  -- After the connection and the JetStream context the streams are ensured, or one of these two
  -- calls has failed, and with it EnsureStream.
  abbrev pub StreamEnds :
      {H : Type 0} → NatsConfig → List Call → Result (Unit {0}) × Client H → Type 0
  StreamEnds cfg before x =
      Ends (needed cfg) x.0 (jetstream_ready ∷ connection cfg ∷ before) x.1.calls
      ⊎ ((e y : Error) × (x.0 ≡ err y)
          × ((x.1.calls ≡ before × fails (count before) (connection cfg) ≡ some e)
              ⊎ (x.1.calls ≡ connection cfg ∷ before
                  × fails (suc (count before)) jetstream_ready ≡ some e)))

module _ {H : Type 0} (fails : ℕ → Call → Option Error) (quote : String → String) where
  abbrev EndsFrom : List StreamConfig → List Call → Result (Unit {0}) × Client H → Type 0
  EndsFrom ss before x = Ends fails ss x.0 before x.1.calls

  ensure_all-Ends :
      (ss : List StreamConfig) (client : Client H)
      → EndsFrom ss client.calls (ensure_all fails quote ss client)
  unfolding ensure_all ensure pure
  ensure_all-Ends [] client = refl
  ensure_all-Ends (s ∷ rest) client =
      elim (add_or_update-cases fails (added_stream s) (updated_stream s)
        (wrap_ensure_stream quote s.name) client) [
          | inl (c, h, e) ↦
              let client' = record client { calls = c ∷ client.calls } in
              subst (EndsFrom (s ∷ rest) client.calls)
                (sym (bind-ok _ (λ _. ensure_all fails quote rest) e))
                (Ends-next fails s rest c _ client.calls _ h (ensure_all-Ends rest client'))
          | inr (x, both, e) ↦
              subst (EndsFrom (s ∷ rest) client.calls)
                (sym (bind-err _ (λ _. ensure_all fails quote rest) e))
                ([], s, rest, refl, refl, both)
        ]

  -- EnsureStream connects and opens JetStream, and fails if either call fails. Then it goes
  -- through the four streams of the registration events and of the user, auth and mail results,
  -- in this order: each is added, or, where AddStream fails, updated; if both calls fail for one,
  -- EnsureStream fails, with those before it ensured and none after it touched. It succeeds only
  -- with all four.
  pub ensure_stream-StreamEnds :
      (cfg : NatsConfig) (client : Client H)
      → StreamEnds fails cfg client.calls (ensure_stream fails quote true cfg client)
  unfolding ensure_stream connect streams
  ensure_stream-StreamEnds cfg client =
      let c = connection cfg in
      let client' = record client { calls = c ∷ client.calls } in
      let client'' = record client { calls = jetstream_ready ∷ c ∷ client.calls } in
      let all = ensure_all fails quote (needed cfg) in
      elim (call_or-cases fails c wrap_connect_to_nats client) [
        | inl e ↦ elim (call_or-cases fails jetstream_ready wrap_init_jetstream_context client') [
          | inl e' ↦
              subst (StreamEnds fails cfg client.calls)
                (sym (bind-ok _ _ e ∙ bind-ok _ (λ _. all) e'))
                (inl (ensure_all-Ends (needed cfg) client''))
          | inr (x, why, e') ↦
              subst (StreamEnds fails cfg client.calls)
                (sym (bind-ok _ _ e ∙ bind-err _ (λ _. all) e')) (inr (x, _, refl, inr (refl, why)))
        ]
        | inr (x, why, e) ↦
            subst (StreamEnds fails cfg client.calls) (sym (bind-err _ _ e))
              (inr (x, _, refl, inl (refl, why)))
      ]
