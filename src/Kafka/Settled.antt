-- ===== src/Kafka/Settled.antt =====
-- broker.go: what a worker has settled after its messages.
use ofm_registration_saga_se.Prelude.{
  ℕ, suc, ◌+◌, ◌++◌, ap, String, not, ◌&&◌, Option, none, some, List, [], ◌∷◌, ◌≡◌, refl, arith,
  ltb, if_cases, subst,
}
use ofm_registration_saga_se.Prelude.Counting.{total}
use ofm_registration_saga_se.Domain.{Error}
use ofm_registration_saga_se.Exec.{Result, ok, err, Exec, pure, raise, resume, handle, ◌>>=◌}
use ofm_registration_saga_se.Kafka.{Message}
use ofm_registration_saga_se.Kafka.Worker.{
  Client, Log, commit_message, enqueue, write_record, call_handler, give_up_or_retry, consume,
  consume_all, wrote, is_permanent,
}

-- What is committed or in the retry queue, by a weight of messages.
abbrev pub weighed : {S : Type 0} → (Message → ℕ) → Log S → ℕ
weighed weight log = total weight log.committed + total (λ r. weight r.0) log.retries

-- A call that succeeds has settled `n` more, one that fails has settled nothing.
abbrev pub EndsBy : ℕ → Result (Unit {0}) → ℕ → ℕ → Type 0
EndsBy n (ok u) before after = after ≡ before + n
EndsBy n (err e) before after = after ≡ before

module _ {S : Type 0} (client : Client) (weight : Message → ℕ) where
  abbrev Adds : ℕ → Exec (Log S) (Unit {0}) → Type 0
  Adds n m = (log : Log S) → EndsBy n (m log).0 (weighed weight log) (weighed weight (m log).1)

  abbrev Keeps : Exec (Log S) (Unit {0}) → Type 0
  Keeps m = (log : Log S) → weighed weight (m log).1 ≡ weighed weight log

  EndsBy-resume :
      (n a : ℕ) (r : Result (Unit {0})) (log : Log S) (f : Error → Exec (Log S) (Unit {0}))
      (g : Unit {0} → Exec (Log S) (Unit {0}))
      → weighed weight log ≡ a
      → ((e : Error) → Adds n (f e))
      → Adds n (g tt)
      → (let (r', log') = resume r f g log in EndsBy n r' a (weighed weight log'))
  unfolding resume
  EndsBy-resume n a (ok tt) log f g h kf kg =
      subst (λ x. EndsBy n (g tt log).0 x (weighed weight (g tt log).1)) h (kg log)
  EndsBy-resume n a (err e) log f g h kf kg =
      subst (λ x. EndsBy n (f e log).0 x (weighed weight (f e log).1)) h (kf e log)

  Adds-handle :
      (n : ℕ) (m : Exec (Log S) (Unit {0})) (f : Error → Exec (Log S) (Unit {0}))
      (g : Unit {0} → Exec (Log S) (Unit {0}))
      → Keeps m
      → ((e : Error) → Adds n (f e))
      → Adds n (g tt)
      → Adds n (handle m f g)
  unfolding handle
  Adds-handle n m f g km kf kg log =
      EndsBy-resume n (weighed weight log) (m log).0 (m log).1 f g (km log) kf kg

  Adds-raise : (n : ℕ) (e : Error) → Adds n (raise e)
  unfolding raise
  Adds-raise n e log = refl

  wrote-EndsBy :
      (n : ℕ) (o : Option Error) (before after : Log S)
      → weighed weight after ≡ weighed weight before + n
      → (let (r, log) = wrote client o before after in
          EndsBy n r (weighed weight before) (weighed weight log))
  unfolding wrote
  wrote-EndsBy n none before after h = h
  wrote-EndsBy n (some e) before after h = refl

  commit-Adds : (msg : Message) → Adds (weight msg) (commit_message client msg)
  unfolding commit_message
  commit-Adds msg log = wrote-EndsBy (weight msg) (client.commit msg) log _ (omega arith)

  enqueue-Adds : (msg : Message) (n : ℕ) (e : Error) → Adds (weight msg) (enqueue client msg n e)
  unfolding enqueue
  enqueue-Adds msg n e log = wrote-EndsBy (weight msg) (client.enqueue msg n e) log _ (omega arith)

  write_record-Keeps : (msg : Message) (body : Option String) → Keeps (write_record client msg body)
  unfolding write_record
  write_record-Keeps msg none log = refl
  write_record-Keeps msg (some body) log = same (client.write_dead_letter msg body)
    where
      same :
          (o : Option Error)
          → weighed weight
              (wrote client o log (record log { dead_letters = (msg, body) ∷ log.dead_letters })).1
            ≡ weighed weight log
      same none = unfold wrote in refl
      same (some e) = unfold wrote in refl

  call_handler-Keeps :
      (subject : String) (handler : String → Exec S (Unit {0})) (msg : Message) (p : Result String)
      → Keeps (call_handler client subject handler msg p)
  unfolding call_handler
  call_handler-Keeps subject handler msg (err e) log = refl
  call_handler-Keeps subject handler msg (ok payload) log = refl

  abbrev bury : Message → ℕ → Error → Exec (Log S) (Unit {0})
  bury msg attempts e =
      write_record client msg (client.marshal_dlq msg attempts e) >>= λ _. commit_message client msg

  give_up_or_retry-Adds :
      (msg : Message) (attempts : ℕ) (e : Error)
      → Adds (weight msg) (give_up_or_retry client msg attempts e)
  unfolding give_up_or_retry ◌>>=◌
  give_up_or_retry-Adds msg attempts e =
      if_cases (Adds (weight msg)) (not (is_permanent e) && ltb attempts client.max_attempts)
        {x = enqueue client msg (suc attempts) e} {y = bury msg attempts e}
        (λ _. enqueue-Adds msg (suc attempts) e)
        (λ _.
          Adds-handle (weight msg) (write_record client msg (client.marshal_dlq msg attempts e))
            raise (λ _. commit_message client msg)
            (write_record-Keeps msg (client.marshal_dlq msg attempts e)) (Adds-raise (weight msg))
            (commit-Adds msg))

  -- The worker's turn on one message, by any weight.
  pub consume-EndsBy :
      (subject : String) (handler : String → Exec S (Unit {0})) (msg : Message)
      → Adds (weight msg) (consume client subject handler msg)
  unfolding consume
  consume-EndsBy subject handler msg =
      Adds-handle (weight msg) _ _ (λ _. commit_message client msg)
        (call_handler-Keeps subject handler msg _) (give_up_or_retry-Adds msg _) (commit-Adds msg)

-- A run that succeeds has settled each message, and one that fails those before the first message
-- that it could not settle.
abbrev pub Ends : (Message → ℕ) → List Message → Result (Unit {0}) → (before after : ℕ) → Type 0
Ends weight msgs (ok u) before after = after ≡ before + total weight msgs
Ends weight msgs (err e) before after =
    (fine : List Message) × (failed : Message) × (rest : List Message) × (msgs
      ≡ fine ++ (failed ∷ rest))
    × (after ≡ before + total weight fine)

Ends-next :
    (weight : Message → ℕ) (msg : Message) (rest : List Message) (r : Result (Unit {0})) (a b c : ℕ)
    → b ≡ a + weight msg
    → Ends weight rest r b c
    → Ends weight (msg ∷ rest) r a c
Ends-next weight msg rest (ok u) a b c h k = omega arith
Ends-next weight msg rest (err e) a b c h (fine, failed, later, split, k) =
    (msg ∷ fine, failed, later, ap (λ l. msg ∷ l) split, omega (arith, h, k))

module _ {S : Type 0} (client : Client) (weight : Message → ℕ) where
  abbrev After : List Message → ℕ → Result (Unit {0}) × Log S → Type 0
  After msgs a x = Ends weight msgs x.0 a (weighed weight x.1)

  Ends-seq :
      (msg : Message) (rest : List Message) (a : ℕ) (r : Result (Unit {0})) (log : Log S)
      (g : Exec (Log S) (Unit {0}))
      → EndsBy (weight msg) r a (weighed weight log)
      → ((log' : Log S) → After rest (weighed weight log') (g log'))
      → After (msg ∷ rest) a (resume r raise (λ _. g) log)
  unfolding resume raise
  Ends-seq msg rest a (err e) log g h kg = ([], msg, rest, refl, omega (arith, h))
  Ends-seq msg rest a (ok tt) log g h kg = Ends-next weight msg rest (g log).0 a _ _ h (kg log)

  -- Whatever the handler does, a worker that gets through its messages has committed each of them
  -- or put it in the retry queue, exactly once; one that stops has done so with those before the
  -- message that it stops at, and with no other. This is counted by any weight of messages, and so
  -- by any test on them.
  pub consume_all-Ends :
      (subject : String) (handler : String → Exec S (Unit {0})) (msgs : List Message) (log : Log S)
      → (let (r, log') = consume_all client subject handler msgs log in
          Ends weight msgs r (weighed weight log) (weighed weight log'))
  unfolding consume_all pure ◌>>=◌ handle
  consume_all-Ends subject handler [] log = omega arith
  consume_all-Ends subject handler (msg ∷ rest) log =
      Ends-seq msg rest (weighed weight log) _ _ (consume_all client subject handler rest)
        (consume-EndsBy client weight subject handler msg log)
        (λ log'. consume_all-Ends subject handler rest log')
