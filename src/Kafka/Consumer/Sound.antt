-- ===== src/Kafka/Consumer/Sound.antt =====
-- broker.go: what becomes of the messages that RunPullConsumer fetched.
use ofm_registration_saga_se.Prelude.{
  ℕ, ◌+◌, ◌≤◌, String, Bool, Option, List, [], ◌∷◌, ◌++◌, ◌≡◌, refl, ap, arith, if◌then◌else◌,
}
use ofm_registration_saga_se.Prelude.Counting.{
  count, total, times, total-++, count-++, total-at, count-at,
}
use ofm_registration_saga_se.Domain.{Error}
use ofm_registration_saga_se.Exec.{Result, ok, err, Exec}
use ofm_registration_saga_se.Kafka.{Message}
use ofm_registration_saga_se.Kafka.Worker.{Client, Log, consume}
use ofm_registration_saga_se.Kafka.Settled.{weighed, EndsBy, consume-EndsBy}
use ofm_registration_saga_se.Kafka.Consumer.{
  Worker, idle, returned, handling, running, Reader, finished, sending, Consumer, queue_size,
  worker_count, zero_message, started, turn_end, Step, cancel, fetch, fetch_failed, send,
  send_failed, send_stopped, finish, take, take_zero, leave, settle, Steps, here, next,
}

abbrev pub one : (Message → Bool) → Message → ℕ
one p msg = if p msg then 1 else 0

abbrev pub in_hand : (Message → Bool) → Worker → ℕ
in_hand p idle = 0
in_hand p returned = 0
in_hand p (handling msg) = one p msg

abbrev pub in_loop : (Message → Bool) → Reader → ℕ
in_loop p (sending msg) = one p msg
in_loop p _ = 0

-- Each message that was fetched, or received as a zero value, is committed or in the retry queue,
-- in the channel, in the hands of the loop or of a worker, given up by the loop, or the last one of
-- a worker that stopped: counted by any test on messages.
abbrev pub IsConserved : {S : Type 0} → Consumer S → Type 0
IsConserved c =
    (p : Message → Bool)
    → times p c.fetched + times p c.zeros
      ≡ weighed (one p) c.log
        + times p c.jobs
        + in_loop p c.reader
        + total (in_hand p) c.workers
        + times p c.unsent
        + times p c.failed

pub record IsSound {S : Type 0} (c : Consumer S) : Type 0 where
  pub conserved : IsConserved c
  pub bounded : count c.jobs ≤ queue_size
  pub staffed : count c.workers ≡ worker_count
  pub left : c.reader ≡ finished → total running c.workers ≡ 0

module _ {S : Type 0} where
  -- A step of the loop.
  reader-IsSound :
      (c : Consumer S) (reader : Reader) (errs result : Option Error)
      (fetched unsent : List Message)
      → IsSound c
      → ((p : Message → Bool)
          → times p fetched + in_loop p c.reader + times p c.unsent
            ≡ times p c.fetched + in_loop p reader + times p unsent)
      → (reader ≡ finished → total running c.workers ≡ 0)
      → IsSound (record c {
        reader = reader;
        errs = errs;
        result = result;
        fetched = fetched;
        unsent = unsent;
      })
  reader-IsSound c reader errs result fetched unsent h kept last = record {
    conserved = λ p. omega (arith, h.conserved p, kept p);
    bounded = h.bounded;
    staffed = h.staffed;
    left = last;
  }

  -- A step of one worker.
  worker-IsSound :
      (c : Consumer S) (log : Log S) (errs : Option Error) (cancelled : Bool)
      (jobs failed zeros : List Message) (before after : List Worker) (w w' : Worker)
      → c.workers ≡ before ++ (w ∷ after)
      → IsSound c
      → ((p : Message → Bool)
          → times p zeros + weighed (one p) c.log + times p c.jobs + in_hand p w + times p c.failed
            ≡ times p c.zeros + weighed (one p) log + times p jobs + in_hand p w' + times p failed)
      → count jobs ≤ count c.jobs
      → running w ≡ 1
      → IsSound (record c {
        log = log;
        errs = errs;
        cancelled = cancelled;
        jobs = jobs;
        failed = failed;
        zeros = zeros;
        workers = before ++ (w' ∷ after);
      })
  worker-IsSound c log errs cancelled jobs failed zeros before after w w' at h kept fewer one_less =
      record {
        conserved = λ p. omega (
          arith,
          h.conserved p,
          kept p,
          total-at (in_hand p) before after w at,
          total-++ (in_hand p) before (w' ∷ after),
        );
        bounded = omega (arith, h.bounded, fewer);
        staffed =
            omega (arith, h.staffed, count-at before after w at, count-++ before (w' ∷ after));
        left = λ e. absurd (omega (arith, h.left e, one_less, total-at running before after w at));
      }

  started-IsSound :
      (log : Log S) → ((p : Message → Bool) → weighed (one p) log ≡ 0) → IsSound (started log)
  unfolding started
  started-IsSound log none_yet = record {
    conserved = λ p. omega (arith, none_yet p);
    bounded = omega arith;
    staffed = refl;
    left = λ e. cc;
  }

  turn_end-IsSound :
      (c : Consumer S) (msg : Message) (before after : List Worker) (r : Result (Unit {0}))
      (log : Log S)
      → c.workers ≡ before ++ (handling msg ∷ after)
      → IsSound c
      → ((p : Message → Bool) → EndsBy (one p msg) r (weighed (one p) c.log) (weighed (one p) log))
      → IsSound (turn_end msg before after c (r, log))
  unfolding turn_end
  turn_end-IsSound c msg before after (ok u) log at h ends =
      worker-IsSound c log _ _ c.jobs _ _ before after (handling msg) idle at h
        (λ p. omega (arith, ends p)) (omega arith) refl
  turn_end-IsSound c msg before after (err e) log at h ends =
      worker-IsSound c log _ _ c.jobs (msg ∷ c.failed) _ before after (handling msg) returned at h
        (λ p. omega (arith, ends p)) (omega arith) refl

  module _ (client : Client) (subject : String) (handler : String → Exec S (Unit {0})) where
    Step-IsSound : {c c' : Consumer S} → Step client subject handler c c' → IsSound c → IsSound c'
    Step-IsSound (cancel _) h = record {
      conserved = h.conserved;
      bounded = h.bounded;
      staffed = h.staffed;
      left = h.left;
    }
    Step-IsSound (fetch msg f) h =
        reader-IsSound _ _ _ _ _ _ h (λ p. omega (arith, ap (in_loop p) f)) (λ e. cc)
    Step-IsSound (fetch_failed x f) h =
        reader-IsSound _ _ _ _ _ _ h (λ p. omega (arith, ap (in_loop p) f)) (λ e. cc)
    Step-IsSound {c} (send msg f room) h = record {
      conserved =
          λ p. omega (arith, h.conserved p, ap (in_loop p) f, total-++ (one p) c.jobs (msg ∷ []));
      bounded = omega (arith, count-++ c.jobs (msg ∷ []));
      staffed = h.staffed;
      left = λ e. cc;
    }
    Step-IsSound (send_failed msg x f _) h =
        reader-IsSound _ _ _ _ _ _ h (λ p. omega (arith, ap (in_loop p) f)) (λ e. cc)
    Step-IsSound (send_stopped msg f _) h =
        reader-IsSound _ _ _ _ _ _ h (λ p. omega (arith, ap (in_loop p) f)) (λ e. cc)
    Step-IsSound (finish f out) h =
        reader-IsSound _ _ _ _ _ _ h (λ p. omega (arith, ap (in_loop p) f)) (λ e. out)
    Step-IsSound {c} (take before after msg rest at j) h =
        worker-IsSound c _ _ _ rest _ _ before after idle (handling msg) at h
          (λ p. omega (arith, ap (times p) j)) (omega (arith, ap count j)) refl
    Step-IsSound {c} (take_zero before after at j f) h =
        worker-IsSound c _ _ _ c.jobs _ _ before after idle (handling zero_message) at h
          (λ p. omega arith) (omega arith) refl
    Step-IsSound {c} (leave before after at _) h =
        worker-IsSound c _ _ _ c.jobs _ _ before after idle returned at h (λ p. omega arith)
          (omega arith) refl
    Step-IsSound {c} (settle before after msg at) h =
        let (r, log) = consume client subject handler msg c.log in
        turn_end-IsSound c msg before after r log at h
          (λ p. consume-EndsBy client (one p) subject handler msg c.log)

    Steps-IsSound :
        {n : ℕ} {c c' : Consumer S} → Steps client subject handler n c c' → IsSound c → IsSound c'
    Steps-IsSound here h = h
    Steps-IsSound (next s rest) h = Steps-IsSound rest (Step-IsSound s h)

    -- From a log in which nothing is settled, whatever the order of the steps and the ends of the
    -- calls, each message that was fetched or received as a zero value is committed or in the retry
    -- queue, in the channel, in the hands of the loop or of a worker, given up by the loop, or the
    -- last one of a worker that stopped, exactly once; the channel holds at most 32 messages; there
    -- are eight workers; and the consumer returns only after all of them.
    pub consumer-IsSound :
        {n : ℕ} (log : Log S) {c : Consumer S}
        → ((p : Message → Bool) → weighed (one p) log ≡ 0)
        → Steps client subject handler n (started log) c
        → IsSound c
    consumer-IsSound log none_yet steps = Steps-IsSound steps (started-IsSound log none_yet)
