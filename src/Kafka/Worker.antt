-- ===== src/Kafka/Worker.antt =====
-- broker.go: what a worker of RunPullConsumer does with a message that it received. The writers of
-- kafka-go and the formats of ofm-common are parameters.
use text.Mathlib.Text.{starts_with}
use ofm_registration_saga_se.Prelude.{
  ℕ, suc, String, Bool, true, false, not, ◌&&◌, Option, none, some, List, [], ◌∷◌, ◌==◌, ltb,
  if◌then◌else◌,
}
use ofm_registration_saga_se.Domain.{Error, external, permanent}
use ofm_registration_saga_se.Exec.{Result, ok, err, Exec, pure, handle, ◌>>◌}
use ofm_registration_saga_se.Kafka.{Message}

-- errors.As(err, &permanent)
unfoldable pub is_permanent : Error → Bool
is_permanent (permanent _) = true
is_permanent _ = false

-- `positive_int` is strconv.Atoi where it succeeds with a positive number.
unfoldable pub retry_attempt : (String → Option ℕ) → List (String × String) → ℕ
retry_attempt positive_int [] = 1
retry_attempt positive_int ((key, value) ∷ rest) =
    let later = retry_attempt positive_int rest in
    if key == "x-ofm-retry-attempt"
    then elim (positive_int value) [ some n ↦ n | none ↦ later ]
    else later

-- The code's calls of kafka-go and ofm-common for one message; `some e` is an error of the call.
pub record Client : Type 0 where
  pub max_attempts : ℕ
  pub positive_int : String → Option ℕ
  pub unwrap : String → Result String
  pub enqueue : Message → ℕ → Error → Option Error
  pub marshal_dlq : Message → ℕ → Error → Option String
  pub write_dead_letter : Message → String → Option Error
  pub commit : Message → Option Error

-- The handler's state, and what the worker wrote: the retry queue with the number of the attempt
-- that is to come, the dead-letter topic, and the committed messages; the newest first.
pub record Log (S : Type 0) : Type 0 where
  pub app : S
  pub retries : List (Message × ℕ)
  pub dead_letters : List (Message × String)
  pub committed : List Message

module _ {S : Type 0} (client : Client) where
  -- The end of a call, by its error.
  unfoldable pub wrote : Option Error → (before after : Log S) → Result (Unit {0}) × Log S
  wrote none before after = (ok tt, after)
  wrote (some e) before after = (err e, before)

  unfoldable pub commit_message : Message → Exec (Log S) (Unit {0})
  unfolding wrote
  commit_message msg log =
      wrote (client.commit msg) log (record log { committed = msg ∷ log.committed })

  unfoldable pub enqueue : Message → ℕ → Error → Exec (Log S) (Unit {0})
  unfolding wrote
  enqueue msg attempt e log =
      wrote (client.enqueue msg attempt e) log
        (record log { retries = (msg, attempt) ∷ log.retries })

  unfoldable pub write_record : Message → Option String → Exec (Log S) (Unit {0})
  unfolding wrote
  write_record msg none log = (err (external "marshal dead letter"), log)
  write_record msg (some body) log =
      wrote (client.write_dead_letter msg body) log
        (record log { dead_letters = (msg, body) ∷ log.dead_letters })

  -- The handler on the payload that the subject calls for, or the error of Unwrap.
  unfoldable pub call_handler :
      String → (String → Exec S (Unit {0})) → Message → Result String → Exec (Log S) (Unit {0})
  call_handler subject handler msg (err e) log = (err e, log)
  call_handler subject handler msg (ok payload) log =
      let (r, s) =
        handler (if starts_with subject "migration.recovery.commands." then msg.value else payload)
          log.app in
      (r, record log { app = s })

  -- A transient error goes to the retry queue, without a commit; a permanent one, or one of the
  -- last attempt, to the dead-letter topic, with a commit.
  unfoldable pub give_up_or_retry : Message → ℕ → Error → Exec (Log S) (Unit {0})
  unfolding enqueue write_record commit_message is_permanent
  give_up_or_retry msg attempts e =
      if not (is_permanent e) && ltb attempts client.max_attempts
      then enqueue msg (suc attempts) e
      else do write_record msg (client.marshal_dlq msg attempts e); commit_message msg

  -- One message. An error stops the worker, and with it the consumer.
  unfoldable pub consume : String → (String → Exec S (Unit {0})) → Message → Exec (Log S) (Unit {0})
  unfolding call_handler give_up_or_retry commit_message retry_attempt
  consume subject handler msg =
      handle (call_handler subject handler msg (client.unwrap msg.value))
        (give_up_or_retry msg (retry_attempt client.positive_int msg.headers))
        (λ _. commit_message msg)

  -- The messages that a worker receives, up to one that stops it.
  unfoldable pub consume_all :
      String → (String → Exec S (Unit {0})) → List Message → Exec (Log S) (Unit {0})
  consume_all subject handler [] = pure tt
  consume_all subject handler (msg ∷ rest) = do
    consume subject handler msg
    consume_all subject handler rest
