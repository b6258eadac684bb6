-- ===== src/Tests/KafkaConsumer.antt =====
-- A Kafka consumer and its retry queue on concrete messages.
use ofm_registration_saga_se.Prelude.{
  ℕ, zero, suc, ◌+◌, ◌≤◌, String, false, Option, some, none, List, [], ◌∷◌, ◌≡◌, refl, ap, arith,
  ◌⊎◌, ◌==◌, if◌then◌else◌,
}
use ofm_registration_saga_se.Domain.{external}
use ofm_registration_saga_se.Exec.{ok, err, Exec, handle, resume, ◌>>=◌}
use ofm_registration_saga_se.Kafka.{Message}
use ofm_registration_saga_se.Kafka.Worker.{
  Client, Log, retry_attempt, consume, call_handler, give_up_or_retry, enqueue, commit_message,
  wrote, is_permanent,
}
use ofm_registration_saga_se.Kafka.Settled.{weighed}
use ofm_registration_saga_se.Kafka.Consumer.{
  Consumer, Worker, idle, handling, fetching, draining, started, turn_end, zero_message, fetch,
  send, take, settle, take_zero, Steps, here, next,
}
use ofm_registration_saga_se.Kafka.Consumer.Sound.{one, IsSound, consumer-IsSound}
use ofm_registration_saga_se.Kafka.Consumer.Closed.{IsSpinning, GoesOn, closed-spins}
use ofm_registration_saga_se.Kafka.RetryQueue
use ofm_registration_saga_se.Kafka.RetryQueue.Drained.{redeliveries, Next, drain-ends}

-- Attempts are written in strokes, and three are made.
abbrev strokes : ℕ → String
strokes zero = ""
strokes (suc n) = String.◌∷◌ "|" (strokes n)

abbrev read : String → ℕ
read String.[] = 0
read (String.◌∷◌ c s) = suc (read s)

abbrev positive : String → Option ℕ
positive String.[] = none
positive (String.◌∷◌ c s) = some (suc (read s))

-- Every call succeeds, and an envelope is any value but the empty one.
abbrev client : Client
client = record {
  max_attempts = 3;
  positive_int = positive;
  unwrap = λ v. if v == "" then err (external "unexpected end of JSON input") else ok v;
  enqueue = λ msg n e. none;
  marshal_dlq = λ msg n e. some "record";
  write_dead_letter = λ msg body. none;
  commit = λ msg. none;
}

abbrev requeued : Message → ℕ → Message
requeued msg n = record msg { headers = ("x-ofm-retry-attempt", strokes n) ∷ [] }

read-strokes : (n : ℕ) → read (strokes n) ≡ n
read-strokes zero = refl
read-strokes (suc n) = ap suc (read-strokes n)

requeued-attempt :
    (msg : Message) (n : ℕ) → n ≤ retry_attempt client.positive_int (requeued msg n).headers
unfolding retry_attempt
requeued-attempt msg zero = omega arith
requeued-attempt msg (suc n) = omega (arith, read-strokes n)

-- The handler refuses one payload.
abbrev refuses : String → Exec ℕ (Unit {0})
refuses payload n = if payload == "bad" then (err (external "no"), suc n) else (ok tt, suc n)

abbrev bad : Message
bad = record { offset = 1; headers = []; value = "bad" }

abbrev queued : Log ℕ
queued = record { app = 0; retries = (bad, 3) ∷ []; dead_letters = []; committed = [] }

abbrev buried : Log ℕ
buried = record {
  app = 1;
  retries = [];
  dead_letters = (requeued bad 3, "record") ∷ [];
  committed = requeued bad 3 ∷ [];
}

buried_steps : RetryQueue.Steps client requeued "topic" refuses 1 queued buried
unfolding consume handle resume call_handler give_up_or_retry enqueue commit_message wrote
    is_permanent retry_attempt ◌>>=◌
buried_steps =
    RetryQueue.next {l = queued} (RetryQueue.redeliver [] [] bad 3 refl refl) RetryQueue.here

abbrev is_bad : Message → ℕ
is_bad = one (λ msg. msg.value == "bad")

drain-ends_example :
    (1 + redeliveries client buried ≤ redeliveries client queued)
    × (weighed is_bad buried ≡ weighed is_bad queued)
    × ((buried.retries ≡ [])
        ⊎ Next client requeued "topic" refuses requeued-attempt is_bad (λ msg n. refl) buried)
drain-ends_example =
    drain-ends client requeued "topic" refuses requeued-attempt is_bad (λ msg n. refl) buried_steps

abbrev empty : Log ℕ
empty = record { app = 0; retries = []; dead_letters = []; committed = [] }

-- One message is fetched, sent, taken, and queued for a retry.
abbrev retried : Consumer ℕ
retried = record {
  log = record { app = 1; retries = (bad, 2) ∷ []; dead_letters = []; committed = [] };
  stopped = false;
  cancelled = false;
  errs = none;
  result = none;
  reader = fetching;
  jobs = [];
  workers = idle ∷ idle ∷ idle ∷ idle ∷ idle ∷ idle ∷ idle ∷ idle ∷ [];
  fetched = bad ∷ [];
  unsent = [];
  failed = [];
  zeros = [];
}

abbrev others : List Worker
others = idle ∷ idle ∷ idle ∷ idle ∷ idle ∷ idle ∷ idle ∷ []

retried_steps : Steps client "topic" refuses 4 (started empty) retried
unfolding started turn_end consume handle resume call_handler give_up_or_retry enqueue wrote
    is_permanent retry_attempt
retried_steps = next {c = started empty} (fetch bad refl) (
    next (send bad refl (omega arith))
      (next (take [] others bad [] refl refl) (next (settle [] others bad refl) here)))

consumer-IsSound_example : IsSound retried
consumer-IsSound_example = consumer-IsSound client "topic" refuses empty (λ p. refl) retried_steps

-- The loop has left after an error.
abbrev left : Consumer ℕ
left = record (started empty) { reader = draining; result = some (external "unexpected EOF") }

left-IsSpinning : IsSpinning left
unfolding started
left-IsSpinning = record {
  closed = refl;
  drained = refl;
  live = refl;
  some_worker = (idle, others, refl);
  turning = (tt, (tt, (tt, (tt, (tt, (tt, (tt, (tt, tt))))))));
}

abbrev turned : Consumer ℕ
turned = record left { workers = handling zero_message ∷ others; zeros = zero_message ∷ [] }

turned_steps : Steps client "topic" refuses 1 left turned
unfolding started
turned_steps = next {c = left} (take_zero [] others refl refl refl) here

not_permanent : is_permanent (external "unexpected end of JSON input") ≡ false
unfolding is_permanent
not_permanent = refl

closed-spins_example : (turned.reader ≡ draining) × GoesOn client "topic" refuses turned
unfolding started
closed-spins_example =
    closed-spins client "topic" refuses refl not_permanent refl (λ n e. refl) left-IsSpinning
      turned_steps refl
