-- ===== src/Nats/Runtime/Shutdown.antt =====
-- pull_consumer_runtime.go: how a consumer stops once its context is done.
use Prim.Native.Nat.{◌*◌}
use ofm_registration_saga_se.Prelude.{
  ℕ, ◌+◌, ◌≤◌, String, true, none, List, [], ◌∷◌, ◌++◌, ◌≡◌, refl, ap, arith, ◌⊎◌, inl, inr,
}
use ofm_registration_saga_se.Prelude.Counting.{count, total, total-++, count-++, total-at}
use ofm_registration_saga_se.Prelude.Integer.{to_nat}
use ofm_registration_saga_se.Exec.{Exec}
use ofm_registration_saga_se.Nats.{PullConsumerConfig}
use ofm_registration_saga_se.Nats.Runtime.{
  Worker, idle, stopped, handling, alive, Fetcher, checking, fetching, waiting, closed, dispatching,
  Runtime, handled, Step, cancel, stop, plan, fetch_failed, fetch, queue, queued_all, drop, close,
  take, leave, settle, Steps, here, next,
}

-- What is left to do: at most this many steps.
abbrev fetcher_work : ℕ → Fetcher → ℕ
fetcher_work batch closed = 0
fetcher_work batch waiting = 1
fetcher_work batch checking = 2
fetcher_work batch (dispatching msgs) = 3 + 3 * count msgs
fetcher_work batch fetching = 4 + 3 * batch

abbrev worker_work : Worker → ℕ
worker_work stopped = 0
worker_work idle = 1
worker_work (handling msg) = 2

abbrev pub work : {S : Type 0} → Runtime S → ℕ
work r =
    fetcher_work (to_nat r.fetch_state.plan.batch) r.fetcher
    + 2 * count r.jobs
    + total worker_work r.workers

-- A worker that has not returned.
abbrev Busy : List Worker → Type 0
Busy workers =
    (before : List Worker) × (after : List Worker) × (w : Worker) × (workers
      ≡ before ++ (w ∷ after))
    × (alive w ≡ 1)

later_Busy : (w : Worker) {rest : List Worker} → Busy rest → Busy (w ∷ rest)
later_Busy w (before, after, x, at, one) = (w ∷ before, after, x, ap (λ ys. w ∷ ys) at, one)

Busy-or-none : (workers : List Worker) → (total alive workers ≡ 0) ⊎ Busy workers
Busy-or-none [] = inl refl
Busy-or-none (idle ∷ rest) = inr ([], rest, idle, refl, refl)
Busy-or-none (handling msg ∷ rest) = inr ([], rest, handling msg, refl, refl)
Busy-or-none (stopped ∷ rest) = elim (Busy-or-none rest) [
  | inl e ↦ inl (omega arith)
  | inr b ↦ inr (later_Busy stopped b)
]

module _ {S : Type 0} (cfg : PullConsumerConfig)
    (handler : String → String → Exec S (Unit {0})) where
  -- Where one worker's step leaves the sums.
  worker-work :
      (workers before after : List Worker) (w w' : Worker)
      → workers ≡ before ++ (w ∷ after)
      → total worker_work (before ++ (w' ∷ after)) + worker_work w
        ≡ total worker_work workers + worker_work w'
  worker-work workers before after w w' at =
      omega
        (arith, total-at worker_work before after w at, total-++ worker_work before (w' ∷ after))

  Step-work :
      {r r' : Runtime S}
      → Step cfg handler r r'
      → r.stopping ≡ true
      → (1 + work r' ≤ work r) × (r'.stopping ≡ true)
  unfolding handled
  Step-work (cancel go) s = cc
  Step-work {r} (stop f _) s =
      (omega (arith, ap (fetcher_work (to_nat r.fetch_state.plan.batch)) f), s)
  Step-work (plan turn f go) s = cc
  Step-work {r} (fetch_failed f) s =
      (omega (arith, ap (fetcher_work (to_nat r.fetch_state.plan.batch)) f), s)
  Step-work {r} (fetch msgs f few) s =
      (omega (arith, ap (fetcher_work (to_nat r.fetch_state.plan.batch)) f), s)
  Step-work {r} (queue msg rest f room) s = (
    omega
        (arith, ap (fetcher_work (to_nat r.fetch_state.plan.batch)) f, count-++ r.jobs (msg ∷ [])),
    s,
  )
  Step-work {r} (queued_all f) s =
      (omega (arith, ap (fetcher_work (to_nat r.fetch_state.plan.batch)) f), s)
  Step-work {r} (drop msg rest f _) s =
      (omega (arith, ap (fetcher_work (to_nat r.fetch_state.plan.batch)) f), s)
  Step-work {r} (close f out) s =
      (omega (arith, ap (fetcher_work (to_nat r.fetch_state.plan.batch)) f), s)
  Step-work {r} (take before after msg rest at j) s =
      (omega (arith, ap count j, worker-work r.workers before after idle (handling msg) at), s)
  Step-work {r} (leave before after at _) s =
      (omega (arith, worker-work r.workers before after idle stopped at), s)
  Step-work {r} (settle before after msg ack_error at) s =
      (omega (arith, worker-work r.workers before after (handling msg) idle at), s)

  abbrev pub CanStep : Runtime S → Type 0
  CanStep r = (r' : Runtime S) × Step cfg handler r r'

  wait-CanStep : (r : Runtime S) → r.stopping ≡ true → r.fetcher ≡ waiting → CanStep r
  wait-CanStep r s f = elim (Busy-or-none r.workers) [
    | inl out ↦ (_, close f out)
    | inr (before, after, idle, at, one) ↦ (_, leave before after at s)
    | inr (before, after, handling msg, at, one) ↦ (_, settle before after msg none at)
    | inr (before, after, stopped, at, one) ↦ absurd (omega arith)
  ]

  at-CanStep :
      (r : Runtime S) (f : Fetcher)
      → r.stopping ≡ true
      → r.fetcher ≡ f
      → (r.fetcher ≡ closed) ⊎ CanStep r
  at-CanStep r closed s f = inl f
  at-CanStep r waiting s f = inr (wait-CanStep r s f)
  at-CanStep r checking s f = inr (_, stop f s)
  at-CanStep r fetching s f = inr (_, fetch_failed f)
  at-CanStep r (dispatching []) s f = inr (_, queued_all f)
  at-CanStep r (dispatching (msg ∷ rest)) s f = inr (_, drop msg rest f s)

  -- Once the context is done, a consumer makes no more steps than it has work left, in whatever
  -- order they come, and it does not stop before the fetcher has closed the channel.
  pub shutdown-ends :
      {n : ℕ} {r r' : Runtime S}
      → r.stopping ≡ true
      → Steps cfg handler n r r'
      → (n + work r' ≤ work r) × ((r'.fetcher ≡ closed) ⊎ CanStep r')
  shutdown-ends {r = r} s here = (omega arith, at-CanStep r r.fetcher s refl)
  shutdown-ends s (next step rest) =
      let (less, s') = Step-work step s in
      let (few, end) = shutdown-ends s' rest in (omega (arith, less, few), end)
