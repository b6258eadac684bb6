-- ===== src/Nats/Plan.antt =====
-- pull_consumer_runtime.go: the plans of a fetcher whose configuration was accepted.
use ofm_registration_saga_se.Prelude.{
  ℕ, String, true, not, Option, none, some, List, [], ◌∷◌, ◌≡◌, arith, if_cases, ◌||◌,
}
use ofm_registration_saga_se.Prelude.Integer.{ℤ, is_positive, int_of_uint64, ltz}
use ofm_registration_saga_se.Nats.{
  PullConsumerConfig, PullAdaptiveConfig, validate, validate_adaptive, PullPlan, resolve_pull_plan,
  FetchState, Turn, maybe_update_adaptive_plan, fetch_start, fetch_turns, switched,
}

-- Fetch is asked for at least one message and given some time.
pub record IsUsable (p : PullPlan) : Type 0 where
  pub some_batch : is_positive p.batch ≡ true
  pub some_wait : is_positive p.wait ≡ true

validate-base :
    (cfg : PullConsumerConfig)
    → validate cfg ≡ none
    → (is_positive cfg.batch_size ≡ true) × (is_positive cfg.max_wait ≡ true)
unfolding validate
validate-base cfg h = (ground arith, ground arith)

validate-adaptive :
    (cfg : PullConsumerConfig)
    → validate cfg ≡ none
    → cfg.adaptive.enabled ≡ true
    → validate_adaptive cfg.adaptive ≡ none
unfolding validate
validate-adaptive cfg h e = ground arith

record AllPositive (a : PullAdaptiveConfig) : Type 0 where
  low : (is_positive a.low_batch_size ≡ true) × (is_positive a.low_max_wait ≡ true)
  medium : (is_positive a.medium_batch_size ≡ true) × (is_positive a.medium_max_wait ≡ true)
  high : (is_positive a.high_batch_size ≡ true) × (is_positive a.high_max_wait ≡ true)

validate_adaptive-AllPositive :
    (a : PullAdaptiveConfig) → validate_adaptive a ≡ none → AllPositive a
unfolding validate_adaptive
validate_adaptive-AllPositive a h = record {
  low = (ground arith, ground arith);
  medium = (ground arith, ground arith);
  high = (ground arith, ground arith);
}

to_IsUsable :
    {tier : String} {batch wait : ℤ}
    → (is_positive batch ≡ true) × (is_positive wait ≡ true)
    → IsUsable (record { tier = tier; batch = batch; wait = wait })
to_IsUsable h = record { some_batch = h.0; some_wait = h.1 }

module _ (cfg : PullConsumerConfig) (valid : validate cfg ≡ none) where
  resolve-IsUsable : (pending : ℤ) → IsUsable (resolve_pull_plan cfg pending)
  unfolding resolve_pull_plan
  resolve-IsUsable pending =
      if_cases IsUsable (not cfg.adaptive.enabled) (λ _. to_IsUsable (validate-base cfg valid))
        (λ on.
          let all =
            validate_adaptive-AllPositive cfg.adaptive
              (validate-adaptive cfg valid (ground arith)) in
          if_cases IsUsable (not (ltz pending cfg.adaptive.high_pending))
            (λ _. to_IsUsable all.high)
            (λ _.
              if_cases IsUsable (not (ltz pending cfg.adaptive.medium_pending))
                (λ _. to_IsUsable all.medium) (λ _. to_IsUsable all.low)))

  switched-IsUsable :
      (n : Option ℕ) (s : FetchState) → IsUsable s.plan → IsUsable (switched cfg n s).plan
  switched-IsUsable none s h = h
  switched-IsUsable (some n) s h =
      if_cases (λ (r : FetchState). IsUsable r.plan) _ (λ _. h)
        (λ _. resolve-IsUsable (int_of_uint64 n))

  update-IsUsable :
      (t : Turn) (s : FetchState)
      → IsUsable s.plan
      → IsUsable (maybe_update_adaptive_plan cfg t s).plan
  unfolding maybe_update_adaptive_plan
  update-IsUsable t s h =
      if_cases (λ (r : FetchState). IsUsable r.plan)
        (not cfg.adaptive.enabled || ltz t.since cfg.adaptive.check_interval) (λ _. h)
        (λ _. switched-IsUsable t.num_pending _ h)

  turns-IsUsable :
      (turns : List Turn) (s : FetchState)
      → IsUsable s.plan
      → IsUsable (fetch_turns cfg turns s).plan
  unfolding fetch_turns
  turns-IsUsable [] s h = h
  turns-IsUsable (t ∷ rest) s h = turns-IsUsable rest _ (update-IsUsable t s h)

  -- If Validate accepts a configuration, the fetcher always asks for at least one message and
  -- waits for a positive time, whatever backlogs ConsumerInfo reports.
  pub fetch_turns-IsUsable :
      (turns : List Turn) (now : ℕ) → IsUsable (fetch_turns cfg turns (fetch_start cfg now)).plan
  unfolding fetch_start
  fetch_turns-IsUsable turns now =
      let base = validate-base cfg valid in
      turns-IsUsable turns (fetch_start cfg now)
        (record { some_batch = base.0; some_wait = base.1 })
