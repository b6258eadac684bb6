-- ===== src/Nats/Runtime/Sound.antt =====
-- pull_consumer_runtime.go: no message that was fetched is lost or handled twice, and the channel
-- and the workers keep to their bounds.
use ofm_registration_saga_se.Prelude.{
  ℕ, zero, suc, ◌+◌, ◌≤◌, String, Bool, Option, List, [], ◌∷◌, ◌++◌, ◌≡◌, refl, ap, arith,
  if◌then◌else◌,
}
use ofm_registration_saga_se.Prelude.Counting.{
  count, total, times, total-++, count-++, total-at, count-at,
}
use ofm_registration_saga_se.Prelude.Integer.{to_nat}
use ofm_registration_saga_se.Exec.{Exec}
use ofm_registration_saga_se.Domain.{Error}
use ofm_registration_saga_se.Nats.{PullConsumerConfig, FetchState}
use ofm_registration_saga_se.Nats.Runtime.{
  Message, Worker, idle, stopped, handling, alive, Fetcher, closed, dispatching, Runtime,
  idle_workers, started, handled, Step, cancel, stop, plan, fetch_failed, fetch, queue, queued_all,
  drop, close, take, leave, settle, Steps, here, next,
}

abbrev pub in_hand : (Message → Bool) → Worker → ℕ
in_hand p idle = 0
in_hand p stopped = 0
in_hand p (handling msg) = if p msg then 1 else 0

abbrev pub undispatched : (Message → Bool) → Fetcher → ℕ
undispatched p (dispatching msgs) = times p msgs
undispatched p _ = 0

-- Each message that Fetch returned is answered, in the channel, in a worker's hands, still to be
-- dispatched, or dropped: counted by any test on messages.
abbrev pub IsConserved : {S : Type 0} → Runtime S → Type 0
IsConserved r =
    (p : Message → Bool)
    → times p r.fetched
      ≡ times (λ a. p a.0) r.answered
        + times p r.jobs
        + total (in_hand p) r.workers
        + undispatched p r.fetcher
        + times p r.dropped

pub record IsSound {S : Type 0} (cfg : PullConsumerConfig) (r : Runtime S) : Type 0 where
  pub conserved : IsConserved r
  pub bounded : count r.jobs ≤ to_nat cfg.queue_size
  pub staffed : count r.workers ≡ to_nat cfg.workers
  pub left : r.fetcher ≡ closed → total alive r.workers ≡ 0

idle_workers-total : (p : Message → Bool) (n : ℕ) → total (in_hand p) (idle_workers n) ≡ 0
idle_workers-total p zero = refl
idle_workers-total p (suc n) = omega (arith, idle_workers-total p n)

idle_workers-count : (n : ℕ) → count (idle_workers n) ≡ n
idle_workers-count zero = refl
idle_workers-count (suc n) = ap suc (idle_workers-count n)

module _ {S : Type 0} (cfg : PullConsumerConfig) where
  started-IsSound : (app : S) (now : ℕ) → IsSound cfg (started cfg app now)
  unfolding started
  started-IsSound app now = record {
    conserved = λ p. omega (arith, idle_workers-total p (to_nat cfg.workers));
    bounded = omega arith;
    staffed = idle_workers-count (to_nat cfg.workers);
    left = λ e. cc;
  }

  -- A step of the fetcher keeps to the messages, and closes the channel after the workers only.
  fetcher-IsSound :
      (r : Runtime S) (f : Fetcher) (state : FetchState) (fetched dropped : List Message)
      → IsSound cfg r
      → ((p : Message → Bool)
          → times p fetched + undispatched p r.fetcher + times p r.dropped
            ≡ times p r.fetched + undispatched p f + times p dropped)
      → (f ≡ closed → total alive r.workers ≡ 0)
      → IsSound cfg
          (record r { fetcher = f; fetch_state = state; fetched = fetched; dropped = dropped })
  fetcher-IsSound r f state fetched dropped h kept last = record {
    conserved = λ p. omega (arith, h.conserved p, kept p);
    bounded = h.bounded;
    staffed = h.staffed;
    left = last;
  }

  -- A step of one worker.
  worker-IsSound :
      (r : Runtime S) (jobs : List Message) (before after : List Worker) (w w' : Worker)
      → r.workers ≡ before ++ (w ∷ after)
      → IsSound cfg r
      → ((p : Message → Bool) → times p r.jobs + in_hand p w ≡ times p jobs + in_hand p w')
      → count jobs ≤ count r.jobs
      → alive w ≡ 1
      → IsSound cfg (record r { workers = before ++ (w' ∷ after); jobs = jobs })
  worker-IsSound r jobs before after w w' at h kept fewer one = record {
    conserved = λ p. omega (
      arith,
      h.conserved p,
      kept p,
      total-at (in_hand p) before after w at,
      total-++ (in_hand p) before (w' ∷ after),
    );
    bounded = omega (arith, h.bounded, fewer);
    staffed = omega (arith, h.staffed, count-at before after w at, count-++ before (w' ∷ after));
    left = λ e. absurd (omega (arith, h.left e, one, total-at alive before after w at));
  }

  module _ (handler : String → String → Exec S (Unit {0})) where
    handled-IsSound :
        (r : Runtime S) (before after : List Worker) (msg : Message) (ack_error : Option Error)
        → r.workers ≡ before ++ (handling msg ∷ after)
        → IsSound cfg r
        → IsSound cfg (handled cfg handler msg ack_error (before ++ (idle ∷ after)) r)
    unfolding handled
    handled-IsSound r before after msg ack_error at h = record {
      conserved = λ p. omega (
        arith,
        h.conserved p,
        total-at (in_hand p) before after _ at,
        total-++ (in_hand p) before (idle ∷ after),
      );
      bounded = h.bounded;
      staffed =
          omega (arith, h.staffed, count-at before after _ at, count-++ before (idle ∷ after));
      left = λ e. absurd (omega (arith, h.left e, total-at alive before after _ at));
    }

    Step-IsSound : {r r' : Runtime S} → Step cfg handler r r' → IsSound cfg r → IsSound cfg r'
    Step-IsSound (cancel _) h = record {
      conserved = h.conserved;
      bounded = h.bounded;
      staffed = h.staffed;
      left = h.left;
    }
    Step-IsSound (stop f _) h =
        fetcher-IsSound _ _ _ _ _ h (λ p. omega (arith, ap (undispatched p) f)) (λ e. cc)
    Step-IsSound (plan turn f _) h =
        fetcher-IsSound _ _ _ _ _ h (λ p. omega (arith, ap (undispatched p) f)) (λ e. cc)
    Step-IsSound (fetch_failed f) h =
        fetcher-IsSound _ _ _ _ _ h (λ p. omega (arith, ap (undispatched p) f)) (λ e. cc)
    Step-IsSound {r} (fetch msgs f _) h =
        fetcher-IsSound _ _ _ _ _ h
          (λ p.
            omega
              (arith, ap (undispatched p) f, total-++ (λ x. if p x then 1 else 0) msgs r.fetched))
          (λ e. cc)
    Step-IsSound {r} (queue msg rest f room) h = record {
      conserved = λ p. omega (
        arith,
        h.conserved p,
        ap (undispatched p) f,
        total-++ (λ x. if p x then 1 else 0) r.jobs (msg ∷ []),
      );
      bounded = omega (arith, count-++ r.jobs (msg ∷ []));
      staffed = h.staffed;
      left = λ e. cc;
    }
    Step-IsSound (queued_all f) h =
        fetcher-IsSound _ _ _ _ _ h (λ p. omega (arith, ap (undispatched p) f)) (λ e. cc)
    Step-IsSound {r} (drop msg rest f _) h =
        fetcher-IsSound _ _ _ _ _ h
          (λ p. omega (
            arith,
            ap (undispatched p) f,
            total-++ (λ x. if p x then 1 else 0) (msg ∷ rest) r.dropped,
          ))
          (λ e. cc)
    Step-IsSound (close f out) h =
        fetcher-IsSound _ _ _ _ _ h (λ p. omega (arith, ap (undispatched p) f)) (λ e. out)
    Step-IsSound {r} (take before after msg rest at j) h =
        worker-IsSound r rest before after idle (handling msg) at h
          (λ p. omega (arith, ap (times p) j)) (omega (arith, ap count j)) refl
    Step-IsSound {r} (leave before after at _) h =
        worker-IsSound r r.jobs before after idle stopped at h (λ p. omega arith) (omega arith) refl
    Step-IsSound {r} (settle before after msg ack_error at) h =
        handled-IsSound r before after msg ack_error at h

    Steps-IsSound :
        {n : ℕ} {r r' : Runtime S} → Steps cfg handler n r r' → IsSound cfg r → IsSound cfg r'
    Steps-IsSound here h = h
    Steps-IsSound (next s rest) h = Steps-IsSound rest (Step-IsSound s h)

    -- Whatever the order of the steps of a consumer, each message that was fetched is answered, in
    -- the channel, in a worker's hands, still to be dispatched, or dropped, exactly once; the
    -- channel holds no more than its size; there are as many workers as configured; and the channel
    -- is closed only after all workers have returned.
    pub runtime-IsSound :
        {n : ℕ} (app : S) (now : ℕ) {r : Runtime S}
        → Steps cfg handler n (started cfg app now) r
        → IsSound cfg r
    runtime-IsSound app now steps = Steps-IsSound steps (started-IsSound app now)
