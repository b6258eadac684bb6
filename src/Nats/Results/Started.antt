-- ===== src/Nats/Results/Started.antt =====
-- result_subscriber.go: which consumers run after Subscribe.
use ofm_registration_saga_se.Prelude.{
  ℕ, String, Option, some, List, [], ◌∷◌, ◌++◌, ◌≡◌, refl, ap, sym, subst, ◌⊎◌, inl, inr,
  Option-cases,
}
use ofm_registration_saga_se.Prelude.Counting.{count}
use ofm_registration_saga_se.Domain.{Error}
use ofm_registration_saga_se.Exec.{Result, ok, err, pure, raise, bind-ok, bind-err}
use ofm_registration_saga_se.Nats.{
  PullConsumerConfig, ConfigError, validate, Turn, fetch_turns, fetch_start,
}
use ofm_registration_saga_se.Nats.Plan.{IsUsable, fetch_turns-IsUsable}
use ofm_registration_saga_se.Nats.Client.{
  NatsConfig, Call, jetstream_ready, added_consumer, updated_consumer, pull_subscribed, Client,
  BothFail, call_or-cases, add_or_update-cases, wrap_init_jetstream_context, wrap_ensure_consumer,
  wrap_create_pull_subscriber,
}
use ofm_registration_saga_se.Nats.Broker.{
  create, begin_consumer, after_validate, run_pull_consumer, config_error,
}
use ofm_registration_saga_se.Nats.Results.{
  build_adaptive_config, result_consumer, run_all, result_consumers, subscribe,
}

-- A fetcher of the configuration always asks for at least one message and waits for some time.
abbrev pub AsksUsably : PullConsumerConfig → Type 0
AsksUsably cfg =
    (turns : List Turn) (now : ℕ) → IsUsable (fetch_turns cfg turns (fetch_start cfg now)).plan

-- The consumers after those of a list were started in its order, each usable.
abbrev pub Runs :
    {H : Type 0}
    → List (PullConsumerConfig × H)
    → (before after : List (PullConsumerConfig × H)) → Type 0
Runs [] before after = after ≡ before
Runs (c ∷ rest) before after = AsksUsably c.0 × Runs rest (c ∷ before) after

-- A fetcher needs a valid configuration, and the JetStream context, the consumer and the pull
-- subscription from the client library: one of these is missing. The calls are those that succeeded
-- before.
abbrev pub IsRefused : (ℕ → Call → Option Error) → PullConsumerConfig → List Call → Type 0
IsRefused fails cfg calls =
    ((x : ConfigError) × (validate cfg ≡ some x))
    ⊎ ((e : Error) × (fails (count calls) jetstream_ready ≡ some e))
    ⊎ BothFail fails (added_consumer cfg) (updated_consumer cfg) calls
    ⊎ ((e : Error) × (fails (count calls) (pull_subscribed cfg.subject cfg.durable cfg.stream)
          ≡ some e))

-- All run, or those before one that was refused.
abbrev pub Starts :
    {H : Type 0}
    → (ℕ → Call → Option Error)
    → List (PullConsumerConfig × H)
    → Result (Unit {0})
    → List (PullConsumerConfig × H)
    → Client H
    → Type 0
Starts fails cs (ok u) before client = Runs cs before client.consumers
Starts {H} fails cs (err e) before client =
    (fine : List (PullConsumerConfig × H)) × (failed : PullConsumerConfig × H) × (rest : List
      (PullConsumerConfig × H))
    × (cs ≡ fine ++ (failed ∷ rest))
    × Runs fine before client.consumers
    × IsRefused fails failed.0 client.calls

Starts-next :
    {H : Type 0} (fails : ℕ → Call → Option Error) (c : PullConsumerConfig × H)
    (cs : List (PullConsumerConfig × H)) (r : Result (Unit {0}))
    (before : List (PullConsumerConfig × H)) (client : Client H)
    → AsksUsably c.0
    → Starts fails cs r (c ∷ before) client
    → Starts fails (c ∷ cs) r before client
Starts-next fails c cs (ok u) before client h k = (h, k)
Starts-next fails c cs (err e) before client h (fine, failed, rest, split, runs, why) =
    (c ∷ fine, failed, rest, ap (λ x. c ∷ x) split, (h, runs), why)

-- What a consumer of results is to be: its stream, subject and durable name, and the batches,
-- waits, workers and backlog levels of the configuration.
abbrev pub reads : NatsConfig → String → String → String → PullConsumerConfig
reads cfg stream subject durable = record {
  group_id = "";
  stream = stream;
  subject = subject;
  durable = durable;
  batch_size = cfg.result_batch_size;
  max_wait = cfg.result_max_wait;
  workers = cfg.result_workers;
  queue_size = cfg.result_queue_size;
  ack_wait = cfg.result_ack_wait;
  max_deliver = cfg.result_max_deliver;
  adaptive = cfg.result_adaptive;
}

-- The consumers that are to run, each result with its own handler.
abbrev pub expected :
    {H : Type 0} → NatsConfig → (user auth mail : H) → List (PullConsumerConfig × H)
expected cfg user auth mail =
    (
      reads cfg cfg.user_events_stream cfg.user_create_result_subject
          cfg.user_create_result_durable,
      user,
    )
    ∷ (
      reads cfg cfg.auth_events_stream cfg.auth_create_pending_result_subject
          cfg.auth_create_pending_result_durable,
      auth,
    )
    ∷ (
      reads cfg cfg.mail_events_stream cfg.mail_send_result_subject cfg.mail_send_result_durable,
      mail,
    )
    ∷ []

module _ {H : Type 0} (fails : ℕ → Call → Option Error) (quote : String → String) where
  -- The end of a call of the client library or of several: no consumer is started, and an error
  -- is due to a refusal.
  abbrev IsTried :
      PullConsumerConfig → List (PullConsumerConfig × H) → Result (Unit {0}) × Client H → Type 0
  IsTried cfg before x =
      ((client : Client H) × (x ≡ (ok tt, client)) × (client.consumers ≡ before))
      ⊎ ((e : Error) × (client : Client H) × (x ≡ (err e, client))
          × (client.consumers ≡ before)
          × IsRefused fails cfg client.calls)

  becomes :
      (cfg : PullConsumerConfig) (before : List (PullConsumerConfig × H))
      {x y : Result (Unit {0}) × Client H}
      → x ≡ y
      → IsTried cfg before y
      → IsTried cfg before x
  becomes cfg before e = subst (IsTried cfg before) (sym e)

  create-IsTried :
      (cfg : PullConsumerConfig) (client : Client H)
      → IsTried cfg client.consumers (create fails quote cfg client)
  unfolding create
  create-IsTried cfg client =
      let client' = record client { calls = jetstream_ready ∷ client.calls } in
      let ensure = wrap_ensure_consumer quote cfg.stream cfg.durable in
      let pulled = pull_subscribed cfg.subject cfg.durable cfg.stream in
      let pull = wrap_create_pull_subscriber quote cfg.subject cfg.durable in
      elim (call_or-cases fails jetstream_ready wrap_init_jetstream_context client) [
        | inr (x, why, e) ↦
            becomes cfg client.consumers (bind-err _ _ e)
              (inr (_, client, refl, refl, inr (inl (x, why))))
        | inl e ↦
            becomes cfg client.consumers (bind-ok _ _ e)
              (elim (add_or_update-cases fails (added_consumer cfg) (updated_consumer cfg) ensure
                client') [
                  | inr (x, both, e') ↦
                      becomes cfg client.consumers (bind-err _ _ e')
                        (inr (x, client', refl, refl, inr (inr (inl both))))
                  | inl (c, first, e') ↦
                      let client'' = record client' { calls = c ∷ client'.calls } in
                      becomes cfg client.consumers (bind-ok _ _ e')
                        (elim (call_or-cases fails pulled pull client'') [
                          | inl e'' ↦ becomes cfg client.consumers e'' (inl (_, refl, refl))
                          | inr (x, why, e'') ↦
                              becomes cfg client.consumers e''
                                (inr (_, client'', refl, refl, inr (inr (inr (x, why)))))
                        ])
                ])
      ]

  -- A consumer is started under a usable configuration, or none is, for a reason.
  abbrev IsRun : PullConsumerConfig → H → Client H → Result (Unit {0}) × Client H → Type 0
  IsRun cfg handler client x =
      ((client' : Client H) × (x ≡ (ok tt, client'))
        × (client'.consumers ≡ (cfg, handler) ∷ client.consumers)
        × AsksUsably cfg)
      ⊎ ((e : Error) × (client' : Client H) × (x ≡ (err e, client'))
          × (client'.consumers ≡ client.consumers)
          × IsRefused fails cfg client'.calls)

  run_pull_consumer-IsRun :
      (cfg : PullConsumerConfig) (handler : H) (client : Client H)
      → IsRun cfg handler client (run_pull_consumer fails quote cfg handler client)
  unfolding run_pull_consumer after_validate begin_consumer raise
  run_pull_consumer-IsRun cfg handler client = elim (Option-cases (validate cfg)) [
    | inr (x, e) ↦
        subst (λ o. IsRun cfg handler client (after_validate fails quote o cfg handler client))
          (sym e) (inr (config_error x, client, refl, refl, inl (x, e)))
    | inl e ↦
        subst (λ o. IsRun cfg handler client (after_validate fails quote o cfg handler client))
          (sym e)
          (elim (create-IsTried cfg client) [
            | inl (client', e', same) ↦ inl (
              record client' { consumers = (cfg, handler) ∷ client'.consumers },
              bind-ok (create fails quote cfg) _ e',
              ap (λ cs. (cfg, handler) ∷ cs) same,
              fetch_turns-IsUsable cfg e,
            )
            | inr (x, client', e', same, why) ↦
                inr (x, client', bind-err (create fails quote cfg) _ e', same, why)
          ])
  ]

  abbrev StartsFrom :
      List (PullConsumerConfig × H)
      → List (PullConsumerConfig × H)
      → Result (Unit {0}) × Client H
      → Type 0
  StartsFrom cs before x = Starts fails cs x.0 before x.1

  run_all-Starts :
      (cs : List (PullConsumerConfig × H)) (client : Client H)
      → StartsFrom cs client.consumers (run_all fails quote cs client)
  unfolding run_all pure
  run_all-Starts [] client = refl
  run_all-Starts (c ∷ rest) client = elim (run_pull_consumer-IsRun c.0 c.1 client) [
    | inl (client', e, more, usable) ↦
        subst (StartsFrom (c ∷ rest) client.consumers)
          (sym (bind-ok _ (λ _. run_all fails quote rest) e))
          (Starts-next fails c rest _ client.consumers _ usable (
            subst (λ b. StartsFrom rest b (run_all fails quote rest client')) more
              (run_all-Starts rest client')))
    | inr (x, client', e, same, why) ↦
        subst (StartsFrom (c ∷ rest) client.consumers)
          (sym (bind-err _ (λ _. run_all fails quote rest) e)) ([], c, rest, refl, same, why)
  ]

  -- Subscribe starts the consumers of the user, the auth and the mail results in this order, each
  -- with its stream, subject, durable name and handler, under a configuration whose fetcher always
  -- asks for at least one message and waits for some time. If it fails, those before one of them
  -- are running and none after it, and this one was refused: its configuration is invalid, or the
  -- JetStream context, both AddConsumer and UpdateConsumer, or PullSubscribe failed for it.
  pub subscribe-Starts :
      (cfg : NatsConfig) (user auth mail : H) (client : Client H)
      → (let (r, client') = subscribe fails quote cfg user auth mail client in
          Starts fails (expected cfg user auth mail) r client.consumers client')
  unfolding subscribe result_consumers result_consumer build_adaptive_config
  subscribe-Starts cfg user auth mail client = run_all-Starts (expected cfg user auth mail) client
