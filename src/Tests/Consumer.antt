-- ===== src/Tests/Consumer.antt =====
-- The legacy NATS adapter under the defaults of config/nats.go, where the broker refuses to add
-- what is there already.
use ofm_registration_saga_se.Prelude.{
  ℕ, suc, ◌+◌, String, true, false, Option, some, none, [], ◌∷◌, ◌≡◌, refl, arith, ◌≤◌, ◌⊎◌,
}
use ofm_registration_saga_se.Prelude.Integer.{pos, to_nat, ltz}
use ofm_registration_saga_se.Domain.{Error, external}
use ofm_registration_saga_se.Exec.{ok, err, Exec}
use ofm_registration_saga_se.Nats.{
  PullConsumerConfig, fetch_start, maybe_update_adaptive_plan, Turn,
}
use ofm_registration_saga_se.Nats.Client.{NatsConfig, Call, added_stream, added_consumer, Client}
use ofm_registration_saga_se.Nats.Bootstrap.{ensure_stream}
use ofm_registration_saga_se.Nats.Bootstrap.Streams.{StreamEnds, ensure_stream-StreamEnds}
use ofm_registration_saga_se.Nats.Results.{build_adaptive_config, result_consumer, subscribe}
use ofm_registration_saga_se.Nats.Results.Started.{Starts, expected, subscribe-Starts}
use ofm_registration_saga_se.Nats.Runtime.{
  Message, Runtime, idle, acked, dispatching, waiting, drop, answer, started, handled, Steps, here,
  next, plan, fetch, queue, take, settle, closed,
}
use ofm_registration_saga_se.Nats.Runtime.Sound.{IsSound, runtime-IsSound}
use ofm_registration_saga_se.Nats.Runtime.Shutdown.{work, CanStep, shutdown-ends}

abbrev cfg : NatsConfig
cfg = record {
  url = "nats://nats:4222";
  user = "";
  password = "";
  registration_events_stream = "REGISTRATION_EVENTS";
  user_events_stream = "USER_EVENTS";
  auth_events_stream = "AUTH_EVENTS";
  mail_events_stream = "MAIL_EVENTS";
  registration_code_sent_subject = "registration.code.sent";
  registration_completed_subject = "registration.completed";
  registration_failed_subject = "registration.failed";
  user_create_subject = "saga.user.create";
  user_create_result_subject = "saga.user.create.result";
  auth_create_pending_subject = "saga.auth.create_pending_registration";
  auth_create_pending_result_subject = "saga.auth.create_pending_registration.result";
  mail_send_result_subject = "mail.send.result";
  user_create_result_durable = "registration_saga_user_create_result";
  auth_create_pending_result_durable = "registration_saga_auth_create_pending_result";
  mail_send_result_durable = "registration_saga_mail_send_result";
  result_batch_size = pos 32;
  result_max_wait = pos 10000000;
  result_workers = pos 2;
  result_queue_size = pos 500;
  result_ack_wait = pos 30000000000;
  result_max_deliver = pos 5;
  result_adaptive = record {
    enabled = false;
    check_interval = pos 2000000000;
    medium_pending = pos 200;
    high_pending = pos 1000;
    low_batch_size = pos 8;
    low_max_wait = pos 25000000;
    medium_batch_size = pos 32;
    medium_max_wait = pos 10000000;
    high_batch_size = pos 128;
    high_max_wait = pos 2000000;
  };
}

-- AddStream and AddConsumer fail.
abbrev fails : ℕ → Call → Option Error
fails n (added_stream s) = some (external "stream name already in use")
fails n (added_consumer c) = some (external "consumer name already in use")
fails n _ = none

abbrev quote : String → String
quote s = s

abbrev fresh : Client String
fresh = record { calls = []; consumers = [] }

ensure_stream-StreamEnds_example :
    StreamEnds fails cfg [] (ensure_stream fails quote true cfg fresh)
ensure_stream-StreamEnds_example = ensure_stream-StreamEnds fails quote cfg fresh

subscribe-Starts_example :
    let (r, client) = subscribe fails quote cfg "user" "auth" "mail" fresh in
    Starts fails (expected cfg "user" "auth" "mail") r [] client
subscribe-Starts_example = subscribe-Starts fails quote cfg "user" "auth" "mail" fresh

abbrev consumer : PullConsumerConfig
consumer =
    result_consumer cfg cfg.user_events_stream cfg.user_create_result_subject
      cfg.user_create_result_durable

-- It counts the messages, and fails on an empty one.
abbrev counting : String → String → Exec ℕ (Unit {0})
counting subject String.[] n = (err (external "unexpected end of JSON input"), n)
counting subject payload n = (ok tt, suc n)

abbrev msg : Message
msg = record { subject = "saga.user.create.result"; data_ = "{}" }

abbrev start : Runtime ℕ
start = started consumer 0 7

abbrev turn : Turn
turn = record { since = pos 5; now = 12; num_pending = none }

-- One message is fetched, queued, taken by the first worker, and acknowledged.
abbrev done : Runtime ℕ
done = record {
  app = 1;
  stopping = false;
  fetch_state = fetch_start consumer 7;
  fetcher = dispatching [];
  jobs = [];
  workers = idle ∷ idle ∷ [];
  fetched = msg ∷ [];
  answered = (msg, acked) ∷ [];
  dropped = [];
}

done_steps : Steps consumer counting 5 start done
unfolding started fetch_start result_consumer to_nat handled answer maybe_update_adaptive_plan ltz
    build_adaptive_config
done_steps = next (plan turn refl refl) (
    next (fetch (msg ∷ []) refl (omega arith)) (
      next (queue msg [] refl (omega arith)) (
        next (take [] (idle ∷ []) msg [] refl refl)
          (next (settle [] (idle ∷ []) msg none refl) here))))

runtime-IsSound_example : IsSound consumer done
runtime-IsSound_example = runtime-IsSound consumer counting 0 7 done_steps

-- The context is done while a message is in the channel and one is not dispatched yet.
abbrev stopping : Runtime ℕ
stopping = record start { stopping = true; fetcher = dispatching (msg ∷ []); jobs = msg ∷ [] }

abbrev dropped : Runtime ℕ
dropped = record stopping { fetcher = waiting; dropped = msg ∷ [] }

shutdown-ends_example :
    (1 + work dropped ≤ work stopping)
    × ((dropped.fetcher ≡ closed) ⊎ CanStep consumer counting dropped)
unfolding started
shutdown-ends_example =
    shutdown-ends consumer counting {r = stopping} refl (next (drop msg [] refl refl) here)
