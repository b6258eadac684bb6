-- ===== src/Kafka/RetryQueue/Drained.antt =====
-- broker.go: the retry queue is drained.
use Prim.Native.Nat.{◌-◌}
use ofm_registration_saga_se.Prelude.{
  ℕ, suc, ◌+◌, ◌≤◌, ◌<◌, String, not, ◌&&◌, Option, none, some, List, [], ◌∷◌, ◌++◌, ◌≡◌, refl, ap,
  ◌∙◌, subst, arith, ltb, if_cases, ◌⊎◌, inl, inr,
}
use ofm_registration_saga_se.Prelude.Counting.{total, total-++}
use ofm_registration_saga_se.Domain.{Error}
use ofm_registration_saga_se.Exec.{Result, ok, err, Exec, resume, handle, ◌>>=◌}
use ofm_registration_saga_se.Exec.Moves.{Moves, IsPreorder, moves_rules}
use ofm_registration_saga_se.Kafka.{Message}
use ofm_registration_saga_se.Kafka.Worker.{
  Client, Log, commit_message, enqueue, write_record, call_handler, give_up_or_retry, consume,
  wrote, is_permanent, retry_attempt,
}
use ofm_registration_saga_se.Kafka.Settled.{weighed, EndsBy, consume-EndsBy}
use ofm_registration_saga_se.Kafka.RetryQueue.{Step, redeliver, Steps, here, next}

-- The attempts that an entry has left, with the one that it waits for.
abbrev attempts_left : Client → Message × ℕ → ℕ
attempts_left client entry = suc (client.max_attempts - entry.1)

module _ {S : Type 0} (client : Client) where
  abbrev pub redeliveries : Log S → ℕ
  redeliveries log = total (attempts_left client) log.retries

  abbrev Same : Log S → Log S → Type 0
  Same log log' = log'.retries ≡ log.retries

  Same-IsPreorder : IsPreorder Same
  Same-IsPreorder = record { rel_refl = λ log. refl; rel_trans = λ e e'. e' ∙ e }

  wrote-Same :
      (o : Option Error) (log after : Log S)
      → after.retries ≡ log.retries
      → Same log (wrote client o log after).1
  unfolding wrote
  wrote-Same none log after e = e
  wrote-Same (some x) log after e = refl

  commit-Moves : (msg : Message) → Moves Same (commit_message client msg)
  unfolding commit_message
  commit-Moves msg = record { at = λ log. wrote-Same (client.commit msg) log _ refl }

  write_record-Moves :
      (msg : Message) (body : Option String) → Moves Same (write_record client msg body)
  unfolding write_record
  write_record-Moves msg none = record { at = λ log. refl }
  write_record-Moves msg (some body) = record {
    at = λ log. wrote-Same (client.write_dead_letter msg body) log _ refl;
  }

  -- The queue stays as it was, or has the message for one more attempt, of those that are left.
  abbrev Queues : Message → ℕ → List (Message × ℕ) → Log S → Type 0
  Queues msg attempts before log =
      (log.retries ≡ before)
      ⊎ ((log.retries ≡ (msg, suc attempts) ∷ before) × attempts < client.max_attempts)

  wrote-Queues :
      (msg : Message) (attempts : ℕ) (o : Option Error) (log : Log S)
      → attempts < client.max_attempts
      → Queues msg attempts log.retries
          (wrote client o log (record log { retries = (msg, suc attempts) ∷ log.retries })).1
  unfolding wrote
  wrote-Queues msg attempts none log h = inr (refl, h)
  wrote-Queues msg attempts (some e) log h = inl refl

  give_up_or_retry-Queues :
      (msg : Message) (attempts : ℕ) (e : Error) (log : Log S)
      → Queues msg attempts log.retries (give_up_or_retry client msg attempts e log).1
  unfolding give_up_or_retry enqueue
  give_up_or_retry-Queues msg attempts e log =
      if_cases (λ (m : Exec (Log S) (Unit {0})). Queues msg attempts log.retries (m log).1)
        (not (is_permanent e) && ltb attempts client.max_attempts)
        (λ few. wrote-Queues msg attempts _ log (ground arith))
        (λ _. inl ((bury-Moves msg (client.marshal_dlq msg attempts e)).at log))
    where
      bury-Moves :
          (msg : Message) (body : Option String)
          → Moves Same (write_record client msg body >>= λ _. commit_message client msg)
      bury-Moves msg body = search (moves_rules, Same-IsPreorder, write_record-Moves, commit-Moves)

  call_handler-Moves :
      (subject : String) (handler : String → Exec S (Unit {0})) (msg : Message) (p : Result String)
      → Moves Same (call_handler client subject handler msg p)
  unfolding call_handler
  call_handler-Moves subject handler msg (err e) = record { at = λ log. refl }
  call_handler-Moves subject handler msg (ok payload) = record { at = λ log. refl }

  ended-Queues :
      (msg : Message) (attempts : ℕ) (r : Result (Unit {0})) (l : Log S)
      → Queues msg attempts l.retries
          (resume r (give_up_or_retry client msg attempts) (λ _. commit_message client msg) l).1
  unfolding resume
  ended-Queues msg attempts (ok tt) l = inl ((commit-Moves msg).at l)
  ended-Queues msg attempts (err e) l = give_up_or_retry-Queues msg attempts e l

  consume-Queues :
      (subject : String) (handler : String → Exec S (Unit {0})) (msg : Message) (log : Log S)
      → Queues msg
          (retry_attempt client.positive_int msg.headers)
          log.retries
          (consume client subject handler msg log).1
  unfolding consume handle
  consume-Queues subject handler msg log =
      let attempts = retry_attempt client.positive_int msg.headers in
      let called = call_handler client subject handler msg (client.unwrap msg.value) log in
      subst
        (λ before.
          Queues msg attempts before
            (resume called.0 (give_up_or_retry client msg attempts) (λ _. commit_message client msg)
              called.1).1)
        ((call_handler-Moves subject handler msg (client.unwrap msg.value)).at log)
        (ended-Queues msg attempts called.0 called.1)

  -- A message that is queued again for the next attempt leaves fewer redeliveries.
  Queues-less :
      (before after : List (Message × ℕ)) (msg msg' : Message) (n n' : ℕ) (l : Log S)
      → n ≤ n'
      → Queues msg' n' (before ++ after) l
      → redeliveries l + 1 ≤ total (attempts_left client) (before ++ ((msg, n) ∷ after))
  Queues-less before after msg msg' n n' l h (inl same) = omega (
    arith,
    ap (total (attempts_left client)) same,
    total-++ (attempts_left client) before after,
    total-++ (attempts_left client) before ((msg, n) ∷ after),
  )
  Queues-less before after msg msg' n n' l h (inr (more, few)) = omega (
    arith,
    h,
    few,
    ap (total (attempts_left client)) more,
    total-++ (attempts_left client) before after,
    total-++ (attempts_left client) before ((msg, n) ∷ after),
  )

  consume-weighed :
      (weight : Message → ℕ) (subject : String) (handler : String → Exec S (Unit {0}))
      (msg : Message) (log : Log S) (r : Result (Unit {0}))
      → (consume client subject handler msg log).0 ≡ r
      → r ≡ ok tt
      → weighed weight (consume client subject handler msg log).1 ≡ weighed weight log + weight msg
  consume-weighed weight subject handler msg log r e goes =
      subst
        (λ x.
          EndsBy (weight msg) x (weighed weight log)
            (weighed weight (consume client subject handler msg log).1))
        (e ∙ goes) (consume-EndsBy client weight subject handler msg log)

  module _ (requeued : Message → ℕ → Message) (subject : String)
      (handler : String → Exec S (Unit {0}))
      (counts : (msg : Message) (n : ℕ)
        → n ≤ retry_attempt client.positive_int (requeued msg n).headers)
      (weight : Message → ℕ)
      (alike : (msg : Message) (n : ℕ) → weight (requeued msg n) ≡ weight msg) where
    Step-redeliveries :
        {l l' : Log S}
        → Step client requeued subject handler l l'
        → (redeliveries l' + 1 ≤ redeliveries l) × (weighed weight l' ≡ weighed weight l)
    Step-redeliveries {l} (redeliver before after msg n at goes) =
        let left = record l { retries = before ++ after } in
        let after_turn = (consume client subject handler (requeued msg n) left).1 in
        (
          omega (
            arith,
            ap (total (attempts_left client)) at,
            Queues-less before after msg (requeued msg n) n _ after_turn (counts msg n)
                (consume-Queues subject handler (requeued msg n) left),
          ),
          omega (
            arith,
            consume-weighed weight subject handler (requeued msg n) left _ refl goes,
            alike msg n,
            ap (total (λ r. weight r.0)) at,
            total-++ (λ r. weight r.0) before after,
            total-++ (λ r. weight r.0) before ((msg, n) ∷ after),
          ),
        )

    -- An entry that can be redelivered, or whose redelivery meets an error that stops the worker.
    abbrev pub Next : Log S → Type 0
    Next l =
        ((l' : Log S) × Step client requeued subject handler l l')
        ⊎ ((msg : Message) × (n : ℕ) × (rest : List (Message × ℕ)) × (e : Error) × (l.retries
              ≡ (msg, n) ∷ rest)
            × ((consume client subject handler (requeued msg n) (record l { retries = rest })).0
                ≡ err e))

    turn-Next :
        (l : Log S) (msg : Message) (n : ℕ) (rest : List (Message × ℕ)) (r : Result (Unit {0}))
        → l.retries ≡ (msg, n) ∷ rest
        → (consume client subject handler (requeued msg n) (record l { retries = rest })).0 ≡ r
        → Next l
    turn-Next l msg n rest (ok tt) at e = inl (_, redeliver [] rest msg n at e)
    turn-Next l msg n rest (err x) at e = inr (msg, n, rest, x, at, e)

    empty-or-Next :
        (l : Log S) (entries : List (Message × ℕ)) → l.retries ≡ entries → (l.retries ≡ []) ⊎ Next l
    empty-or-Next l [] at = inl at
    empty-or-Next l (entry ∷ rest) at = inr (turn-Next l entry.0 entry.1 rest _ at refl)

    -- Where each redelivery carries at least the attempt that it was queued for, the retry queue is
    -- drained, in whatever order its entries come and whatever the handler does: as long as no call
    -- of a worker fails, there are no more redeliveries than attempts left in the queue; each
    -- message that leaves the queue is committed, and only those are, counted by any weight that a
    -- message and its redelivery share; and the redeliveries go on until the queue is empty or a
    -- call fails.
    pub drain-ends :
        {n : ℕ} {l l' : Log S}
        → Steps client requeued subject handler n l l'
        → (n + redeliveries l' ≤ redeliveries l)
          × (weighed weight l' ≡ weighed weight l)
          × ((l'.retries ≡ []) ⊎ Next l')
    drain-ends {l = l} here = (omega arith, refl, empty-or-Next l l.retries refl)
    drain-ends (next step rest) =
        let (less, same) = Step-redeliveries step in
        let (few, same', end) = drain-ends rest in (omega (arith, less, few), same' ∙ same, end)
