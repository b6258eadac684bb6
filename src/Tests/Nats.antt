-- ===== src/Tests/Nats.antt =====
-- The fetcher of a pull consumer under the defaults of config/nats.go.
use ofm_registration_saga_se.Prelude.{List, [], ◌∷◌, some, none, ◌≡◌, refl, true}
use ofm_registration_saga_se.Prelude.Integer.{pos, ltz, eqz, int_of_uint64}
use ofm_registration_saga_se.Nats.{
  PullConsumerConfig, validate, Turn, resolve_pull_plan, maybe_update_adaptive_plan, fetch_start,
  fetch_turns,
}
use ofm_registration_saga_se.Nats.Plan.{IsUsable, fetch_turns-IsUsable}

abbrev defaults : PullConsumerConfig
defaults = record {
  group_id = "";
  stream = "USER_EVENTS";
  subject = "saga.user.create.result";
  durable = "registration_saga_user_create_result";
  batch_size = pos 32;
  max_wait = pos 10000000;
  workers = pos 8;
  queue_size = pos 500;
  ack_wait = pos 30000000000;
  max_deliver = pos 5;
  adaptive = record {
    enabled = true;
    check_interval = pos 2000000000;
    medium_pending = pos 200;
    high_pending = pos 1000;
    low_batch_size = pos 8;
    low_max_wait = pos 25000000;
    medium_batch_size = pos 32;
    medium_max_wait = pos 10000000;
    high_batch_size = pos 128;
    high_max_wait = pos 2000000;
  };
}

defaults_valid : validate defaults ≡ none
unfolding validate ltz
defaults_valid = refl

abbrev turns : List Turn
turns =
    record { since = pos 5; now = 5; num_pending = some 3 }
    ∷ record { since = pos 2000000001; now = 2000000006; num_pending = some 1200 }
    ∷ []

fetch_turns-IsUsable_example : IsUsable (fetch_turns defaults turns (fetch_start defaults 0)).plan
fetch_turns-IsUsable_example = fetch_turns-IsUsable defaults defaults_valid turns 0

turns_switch : (fetch_turns defaults turns (fetch_start defaults 0)).plan.tier ≡ "high"
unfolding fetch_turns maybe_update_adaptive_plan fetch_start resolve_pull_plan ltz eqz int_of_uint64
turns_switch = refl
