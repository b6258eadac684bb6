-- ===== src/Nats.antt =====
-- internal/presentation/event_broker/nats: the validation of a pull consumer's configuration, the
-- adaptive plan of its fetcher, and its workers.
pub mod Plan
pub mod Runtime
pub mod Client
pub mod Bootstrap
pub mod Broker
pub mod Results
use ofm_registration_saga_se.Prelude.{
  ℕ, String, Bool, true, false, not, ◌&&◌, ◌||◌, Option, none, some, List, [], ◌∷◌, ◌==◌,
  if◌then◌else◌,
}
use ofm_registration_saga_se.Prelude.Integer.{ℤ, is_positive, is_negative, ltz, eqz, int_of_uint64}
use ofm_registration_saga_se.Exec.{Exec, pure, handle, ignore}

-- config/pull_consumer.go. Durations are counted in nanoseconds.
pub record PullAdaptiveConfig : Type 0 where
  pub enabled : Bool
  pub check_interval : ℤ
  pub medium_pending : ℤ
  pub high_pending : ℤ
  pub low_batch_size : ℤ
  pub low_max_wait : ℤ
  pub medium_batch_size : ℤ
  pub medium_max_wait : ℤ
  pub high_batch_size : ℤ
  pub high_max_wait : ℤ

pub record PullConsumerConfig : Type 0 where
  pub group_id : String
  pub stream : String
  pub subject : String
  pub durable : String
  pub batch_size : ℤ
  pub max_wait : ℤ
  pub workers : ℤ
  pub queue_size : ℤ
  pub ack_wait : ℤ
  pub max_deliver : ℤ
  pub adaptive : PullAdaptiveConfig

pub data ConfigError : Type 0 where
  empty_stream_name empty_subject empty_durable_name invalid_batch_size : ConfigError
  invalid_max_wait invalid_worker_count invalid_queue_size invalid_ack_wait : ConfigError
  invalid_max_deliver invalid_adaptive_check_interval invalid_adaptive_thresholds : ConfigError
  invalid_adaptive_plan : ConfigError

-- The last three tests of Validate.
unfoldable pub validate_adaptive : PullAdaptiveConfig → Option ConfigError
validate_adaptive a =
    if not (is_positive a.check_interval)
    then some invalid_adaptive_check_interval
    else if is_negative a.medium_pending || not (ltz a.medium_pending a.high_pending)
    then some invalid_adaptive_thresholds
    else if not (is_positive a.low_batch_size)
        || not (is_positive a.low_max_wait)
        || not (is_positive a.medium_batch_size)
        || not (is_positive a.medium_max_wait)
        || not (is_positive a.high_batch_size)
        || not (is_positive a.high_max_wait)
    then some invalid_adaptive_plan
    else none

-- `none` is the nil error.
unfoldable pub validate : PullConsumerConfig → Option ConfigError
unfolding validate_adaptive
validate cfg =
    if cfg.stream == ""
    then some empty_stream_name
    else if cfg.subject == ""
    then some empty_subject
    else if cfg.durable == ""
    then some empty_durable_name
    else if not (is_positive cfg.batch_size)
    then some invalid_batch_size
    else if not (is_positive cfg.max_wait)
    then some invalid_max_wait
    else if not (is_positive cfg.workers)
    then some invalid_worker_count
    else if not (is_positive cfg.queue_size)
    then some invalid_queue_size
    else if not (is_positive cfg.ack_wait)
    then some invalid_ack_wait
    else if not (is_positive cfg.max_deliver)
    then some invalid_max_deliver
    else if not cfg.adaptive.enabled
    then none
    else validate_adaptive cfg.adaptive

-- The results of ResolvePullPlan: tier, batch size and maximal wait.
pub record PullPlan : Type 0 where
  pub tier : String
  pub batch : ℤ
  pub wait : ℤ

unfoldable pub resolve_pull_plan : PullConsumerConfig → ℤ → PullPlan
resolve_pull_plan cfg pending =
    if not cfg.adaptive.enabled
    then record { tier = "base"; batch = cfg.batch_size; wait = cfg.max_wait }
    else if not (ltz pending cfg.adaptive.high_pending)
    then record {
      tier = "high";
      batch = cfg.adaptive.high_batch_size;
      wait = cfg.adaptive.high_max_wait;
    }
    else if not (ltz pending cfg.adaptive.medium_pending)
    then record {
      tier = "medium";
      batch = cfg.adaptive.medium_batch_size;
      wait = cfg.adaptive.medium_max_wait;
    }
    else record {
      tier = "low";
      batch = cfg.adaptive.low_batch_size;
      wait = cfg.adaptive.low_max_wait;
    }

-- pullConsumerFetchState
pub record FetchState : Type 0 where
  pub plan : PullPlan
  pub last_adaptive_check : ℕ

-- What the fetcher meets in one turn: the time since the last check, the time now, and the number
-- of pending messages where ConsumerInfo succeeds.
pub record Turn : Type 0 where
  pub since : ℤ
  pub now : ℕ
  pub num_pending : Option ℕ

abbrev same_plan : PullPlan → PullPlan → Bool
same_plan p q = p.tier == q.tier && eqz p.batch q.batch && eqz p.wait q.wait

abbrev pub switched : PullConsumerConfig → Option ℕ → FetchState → FetchState
switched cfg none state = state
switched cfg (some n) state =
    let next = resolve_pull_plan cfg (int_of_uint64 n) in
    if same_plan next state.plan then state else record state { plan = next }

unfoldable pub maybe_update_adaptive_plan : PullConsumerConfig → Turn → FetchState → FetchState
unfolding resolve_pull_plan
maybe_update_adaptive_plan cfg turn state =
    if not cfg.adaptive.enabled || ltz turn.since cfg.adaptive.check_interval
    then state
    else switched cfg turn.num_pending (record state { last_adaptive_check = turn.now })

-- The state of runFetcher at its start, and after a number of turns.
unfoldable pub fetch_start : PullConsumerConfig → ℕ → FetchState
fetch_start cfg now = record {
  plan = record { tier = "base"; batch = cfg.batch_size; wait = cfg.max_wait };
  last_adaptive_check = now;
}

unfoldable pub fetch_turns : PullConsumerConfig → List Turn → FetchState → FetchState
unfolding maybe_update_adaptive_plan
fetch_turns cfg [] state = state
fetch_turns cfg (t ∷ rest) state = fetch_turns cfg rest (maybe_update_adaptive_plan cfg t state)
