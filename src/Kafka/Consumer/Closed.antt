-- ===== src/Kafka/Consumer/Closed.antt =====
-- broker.go: the workers after the loop of RunPullConsumer has closed the channel. They receive
-- without the second result of `<-jobs`, so that a closed channel gives them zero messages, and
-- workerCtx is cancelled only after the wait for them.
use ofm_registration_saga_se.Prelude.{
  ℕ, String, true, false, none, List, [], ◌∷◌, ◌++◌, ◌≡◌, ◌≤◌, refl, ap, sym, subst, ◌∙◌, ltb,
  arith, ◌⊎◌, inl, inr,
}
use ofm_registration_saga_se.Prelude.Counting.{total}
use ofm_registration_saga_se.Domain.{Error}
use ofm_registration_saga_se.Exec.{Result, ok, err, Exec, handle, resume}
use ofm_registration_saga_se.Kafka.{Message}
use ofm_registration_saga_se.Kafka.Worker.{
  Client, Log, consume, call_handler, give_up_or_retry, enqueue, wrote, retry_attempt, is_permanent,
}
use ofm_registration_saga_se.Kafka.Consumer.{
  Worker, idle, returned, handling, running, draining, Consumer, zero_message, turn_end, Step,
  cancel, fetch, fetch_failed, send, send_failed, send_stopped, finish, take, take_zero, leave,
  settle, Steps, here, next,
}

-- A worker that is idle or on a zero message.
abbrev pub Turns : Worker → Type 0
Turns idle = Unit {0}
Turns returned = ⊥
Turns (handling msg) = msg ≡ zero_message

abbrev pub AllTurn : List Worker → Type 0
AllTurn [] = Unit {0}
AllTurn (w ∷ rest) = Turns w × AllTurn rest

-- The loop has closed the channel, nothing is left in it, and no worker has a reason to stop.
pub record IsSpinning {S : Type 0} (c : Consumer S) : Type 0 where
  pub closed : c.reader ≡ draining
  pub drained : c.jobs ≡ []
  pub live : c.cancelled ≡ false
  pub some_worker : (w : Worker) × (rest : List Worker) × (c.workers ≡ w ∷ rest)
  pub turning : AllTurn c.workers

AllTurn-at : (before after : List Worker) (w : Worker) → AllTurn (before ++ (w ∷ after)) → Turns w
AllTurn-at [] after w h = h.0
AllTurn-at (x ∷ before) after w h = AllTurn-at before after w h.1

AllTurn-replace :
    (before after : List Worker) (w w' : Worker)
    → AllTurn (before ++ (w ∷ after))
    → Turns w'
    → AllTurn (before ++ (w' ∷ after))
AllTurn-replace [] after w w' h t = (t, h.1)
AllTurn-replace (x ∷ before) after w w' h t = (h.0, AllTurn-replace before after w w' h.1 t)

some_worker-++ :
    (before after : List Worker) (w : Worker)
    → (x : Worker) × (rest : List Worker) × (before ++ (w ∷ after) ≡ x ∷ rest)
some_worker-++ [] after w = (w, after, refl)
some_worker-++ (x ∷ before) after w = (x, before ++ (w ∷ after), refl)

busy-total :
    (workers : List Worker)
    → (w : Worker) × (rest : List Worker) × (workers ≡ w ∷ rest)
    → AllTurn workers
    → total running workers ≡ 0
    → ⊥
busy-total [] (w, rest, at) h out = cc
busy-total (returned ∷ rest) s h out = h.0
busy-total (idle ∷ rest) s h out = omega arith
busy-total (handling msg ∷ rest) s h out = omega arith

module _ {S : Type 0} where
  turn_end-stopped :
      (msg : Message) (before after : List Worker) (c : Consumer S) (r : Result (Unit {0}))
      (log : Log S)
      → (turn_end msg before after c (r, log)).stopped ≡ c.stopped
  unfolding turn_end
  turn_end-stopped msg before after c (ok u) log = refl
  turn_end-stopped msg before after c (err e) log = refl

  worker-IsSpinning :
      (c : Consumer S) (log : Log S) (zeros : List Message) (before after : List Worker)
      (w w' : Worker)
      → c.workers ≡ before ++ (w ∷ after)
      → IsSpinning c
      → Turns w'
      → IsSpinning (record c { log = log; zeros = zeros; workers = before ++ (w' ∷ after) })
  worker-IsSpinning c log zeros before after w w' at h t = record {
    closed = h.closed;
    drained = h.drained;
    live = h.live;
    some_worker = some_worker-++ before after w';
    turning = AllTurn-replace before after w w' (subst AllTurn at h.turning) t;
  }

abbrev requeue_zero : {S : Type 0} → Log S → Log S
requeue_zero log = record log { retries = (zero_message, 2) ∷ log.retries }

-- What a worker's turn on a zero message leaves, beside the workers.
abbrev pub Writes : {S : Type 0} → Consumer S → Consumer S → Type 0
Writes c c' =
    (c'.log.retries ≡ (zero_message, 2) ∷ c.log.retries)
    × (c'.log.committed ≡ c.log.committed)
    × (c'.stopped ≡ c.stopped)

-- In two steps at most one more zero message is written to the retry queue.
abbrev pub GoesOn :
    {S : Type 0} → Client → String → (String → Exec S (Unit {0})) → Consumer S → Type 0
GoesOn {S} client subject handler c =
    (n : ℕ) × (c' : Consumer S) × Steps client subject handler n c c' × n ≤ 2 × Writes c c'

module _ {S : Type 0} (client : Client) (subject : String) (handler : String → Exec S (Unit {0}))
    {why : Error} (no_envelope : client.unwrap "" ≡ err why) (transient : is_permanent why ≡ false)
    (two_attempts : ltb 1 client.max_attempts ≡ true)
    (queues : (n : ℕ) (e : Error) → client.enqueue zero_message n e ≡ none) where
  Step-stopped :
      {c c' : Consumer S} → Step client subject handler c c' → c.stopped ≡ true → c'.stopped ≡ true
  Step-stopped (cancel _) e = refl
  Step-stopped (fetch msg f) e = e
  Step-stopped (fetch_failed x f) e = e
  Step-stopped (send msg f room) e = e
  Step-stopped (send_failed msg x f _) e = e
  Step-stopped (send_stopped msg f _) e = e
  Step-stopped (finish f out) e = e
  Step-stopped (take before after msg rest at j) e = e
  Step-stopped (take_zero before after at j f) e = e
  Step-stopped (leave before after at x) e = e
  Step-stopped {c} (settle before after msg at) e =
      turn_end-stopped msg before after c (consume client subject handler msg c.log).0
        (consume client subject handler msg c.log).1
      ∙ e

  stays_stopped :
      {n : ℕ} {c c' : Consumer S}
      → Steps client subject handler n c c'
      → c.stopped ≡ true
      → c'.stopped ≡ false
      → ⊥
  stays_stopped here e going = cc
  stays_stopped (next s steps) e going = stays_stopped steps (Step-stopped s e) going

  -- A zero message is put in the retry queue, and the worker goes on.
  zero-ok :
      (log : Log S) → consume client subject handler zero_message log ≡ (ok tt, requeue_zero log)
  unfolding consume handle resume call_handler give_up_or_retry enqueue wrote retry_attempt
      is_permanent
  zero-ok log = rw (no_envelope, transient, two_attempts, queues)

  Step-IsSpinning :
      {c c' : Consumer S}
      → Step client subject handler c c'
      → IsSpinning c
      → (c'.stopped ≡ true) ⊎ IsSpinning c'
  Step-IsSpinning (cancel _) h = inl refl
  Step-IsSpinning (fetch msg f) h = let d = h.closed in cc
  Step-IsSpinning (fetch_failed x f) h = let d = h.closed in cc
  Step-IsSpinning (send msg f room) h = let d = h.closed in cc
  Step-IsSpinning (send_failed msg x f _) h = let d = h.closed in cc
  Step-IsSpinning (send_stopped msg f _) h = let d = h.closed in cc
  Step-IsSpinning {c} (finish f out) h = absurd (busy-total c.workers h.some_worker h.turning out)
  Step-IsSpinning (take before after msg rest at j) h = let d = h.drained in cc
  Step-IsSpinning {c} (take_zero before after at j f) h =
      inr (worker-IsSpinning c _ _ before after idle (handling zero_message) at h refl)
  Step-IsSpinning (leave before after at x) h = let d = h.live in cc
  Step-IsSpinning {c} (settle before after msg at) h =
      let zero = AllTurn-at before after (handling msg) (subst AllTurn at h.turning) in
      inr (
        subst (λ x. IsSpinning (turn_end msg before after c x))
          (sym (ap (λ m. consume client subject handler m c.log) zero ∙ zero-ok c.log))
          (unfold turn_end in
            worker-IsSpinning c (requeue_zero c.log) _ before after (handling msg) idle at h tt))

  settled-Writes :
      (c : Consumer S) (msg : Message) (before after : List Worker)
      → msg ≡ zero_message
      → Writes c (turn_end msg before after c (consume client subject handler msg c.log))
  unfolding turn_end
  settled-Writes c msg before after zero =
      subst (λ x. Writes c (turn_end msg before after c x))
        (sym (ap (λ m. consume client subject handler m c.log) zero ∙ zero-ok c.log))
        (refl, refl, refl)

  -- The first worker receives a zero message, if it has none, and writes it to the retry queue.
  goes_on :
      (c : Consumer S) (w : Worker) (rest : List Worker)
      → c.workers ≡ w ∷ rest
      → Turns w
      → IsSpinning c
      → GoesOn client subject handler c
  goes_on c returned rest at t h = elim t [ ]
  goes_on c (handling msg) rest at t h =
      (1, _, next (settle [] rest msg at) here, omega arith, settled-Writes c msg [] rest t)
  goes_on c idle rest at t h = (
    2,
    _,
    next (take_zero [] rest at h.drained h.closed) (next (settle [] rest zero_message refl) here),
    omega arith,
    settled-Writes (received c rest) zero_message [] rest refl,
  )
    where
      received : Consumer S → List Worker → Consumer S
      received c rest = record c {
        workers = handling zero_message ∷ rest;
        zeros = zero_message ∷ c.zeros;
      }

  -- If the loop leaves after an error while the context is not done, and the channel is drained
  -- while no worker has failed, then, where more than one attempt is made, Unwrap refuses an empty
  -- value with an error that is not permanent and the retry queue takes it, RunPullConsumer does not return before the context is done:
  -- it stays in the wait for its workers, and from every later state in which the context is not
  -- done, the next two steps of a worker at most put one more zero message in the retry queue, with
  -- nothing committed and the context still not done.
  pub closed-spins :
      {n : ℕ} {c c' : Consumer S}
      → IsSpinning c
      → Steps client subject handler n c c'
      → c'.stopped ≡ false
      → (c'.reader ≡ draining) × GoesOn client subject handler c'
  closed-spins {c = c} h here going =
      let (w, rest, at) = h.some_worker in
      (h.closed, goes_on c w rest at (subst AllTurn at h.turning).0 h)
  closed-spins h (next s steps) going = elim (Step-IsSpinning s h) [
    | inl stopped ↦ absurd (stays_stopped steps stopped going)
    | inr h' ↦ closed-spins h' steps going
  ]
