-- ===== src/Kafka/Consumer.antt =====
-- broker.go's RunPullConsumer: the loop over FetchMessage and the eight workers, interleaved in any
-- order, over the channel between them. A turn of a worker (Worker.consume) is one step.
pub mod Sound
pub mod Closed
use ofm_registration_saga_se.Prelude.{
  ℕ, suc, ◌<◌, String, Bool, true, false, Option, none, some, List, [], ◌∷◌, ◌++◌, ◌≡◌,
  if◌then◌else◌,
}
use ofm_registration_saga_se.Prelude.Counting.{count, total}
use ofm_registration_saga_se.Domain.{Error, external}
use ofm_registration_saga_se.Exec.{Result, ok, err, Exec}
use ofm_registration_saga_se.Kafka.{Message}
use ofm_registration_saga_se.Kafka.Worker.{Client, Log, consume}

pub data Worker : Type 0 where
  idle returned : Worker
  handling : Message → Worker

-- What a worker counts for in the wait group.
abbrev pub running : Worker → ℕ
running returned = 0
running idle = 1
running (handling msg) = 1

-- Where the loop is: in FetchMessage, sending to the channel, in the deferred function that has
-- closed the channel and waits for the workers, or past it.
pub data Reader : Type 0 where
  fetching draining finished : Reader
  sending : Message → Reader

-- `stopped` and `cancelled` say that ctx and workerCtx are done; `errs` is the channel of one
-- error; `result` is the error to return. The last four say what became of the messages that are
-- not in the log: fetched, given up by the loop, failed in a worker that stopped, and received as
-- zero values from the closed channel; the newest first.
pub record Consumer (S : Type 0) : Type 0 where
  pub log : Log S
  pub stopped : Bool
  pub cancelled : Bool
  pub errs : Option Error
  pub result : Option Error
  pub reader : Reader
  pub jobs : List Message
  pub workers : List Worker
  pub fetched : List Message
  pub unsent : List Message
  pub failed : List Message
  pub zeros : List Message

abbrev pub queue_size : ℕ
queue_size = 32

abbrev pub worker_count : ℕ
worker_count = 8

-- kafka.Message{}
abbrev pub zero_message : Message
zero_message = record { offset = 0; headers = []; value = "" }

abbrev context_canceled : Error
context_canceled = external "context canceled"

-- The select on errs with a default.
abbrev or_default : Option Error → Error → Error
or_default none e = e
or_default (some worker_error) e = worker_error

abbrev keep_error : Option Error → Error → Option Error
keep_error none e = some e
keep_error (some first) e = some first

unfoldable pub started : {S : Type 0} → Log S → Consumer S
started log = record {
  log = log;
  stopped = false;
  cancelled = false;
  errs = none;
  result = none;
  reader = fetching;
  jobs = [];
  workers = idle ∷ idle ∷ idle ∷ idle ∷ idle ∷ idle ∷ idle ∷ idle ∷ [];
  fetched = [];
  unsent = [];
  failed = [];
  zeros = [];
}

module _ {S : Type 0} where
  -- The error of the loop after an error of FetchMessage.
  unfoldable pub fetch_error : Consumer S → Error → Error
  fetch_error c e = if c.stopped then context_canceled else or_default c.errs e

  -- The end of a worker's turn on a message: an error is reported, cancels the others, and ends
  -- the worker.
  unfoldable pub turn_end :
      Message → (before after : List Worker) → Consumer S → Result (Unit {0}) × Log S → Consumer S
  turn_end msg before after c (ok u, log) = record c {
    log = log;
    workers = before ++ (idle ∷ after);
  }
  turn_end msg before after c (err e, log) = record c {
    log = log;
    workers = before ++ (returned ∷ after);
    errs = keep_error c.errs e;
    cancelled = true;
    failed = msg ∷ c.failed;
  }

  module _ (client : Client) (subject : String) (handler : String → Exec S (Unit {0})) where
    pub data Step (c : Consumer S) : Consumer S → Type 0 where
      cancel : c.stopped ≡ false → Step c (record c { stopped = true; cancelled = true })
      -- the loop
      fetch :
          (msg : Message)
          → c.reader ≡ fetching
          → Step c (record c { reader = sending msg; fetched = msg ∷ c.fetched })
      fetch_failed :
          (e : Error)
          → c.reader ≡ fetching
          → Step c (record c { reader = draining; result = some (fetch_error c e) })
      send :
          (msg : Message)
          → c.reader ≡ sending msg
          → count c.jobs < queue_size
          → Step c (record c { reader = fetching; jobs = c.jobs ++ (msg ∷ []) })
      send_failed :
          (msg : Message) (e : Error)
          → c.reader ≡ sending msg
          → c.errs ≡ some e
          → Step c (record c {
            reader = draining;
            errs = none;
            result = some e;
            unsent = msg ∷ c.unsent;
          })
      send_stopped :
          (msg : Message)
          → c.reader ≡ sending msg
          → c.stopped ≡ true
          → Step c (record c {
            reader = draining;
            result = some context_canceled;
            unsent = msg ∷ c.unsent;
          })
      finish :
          c.reader ≡ draining
          → total running c.workers ≡ 0
          → Step c (record c { reader = finished })
      -- a worker
      take :
          (before after : List Worker) (msg : Message) (rest : List Message)
          → c.workers ≡ before ++ (idle ∷ after)
          → c.jobs ≡ msg ∷ rest
          → Step c (record c { workers = before ++ (handling msg ∷ after); jobs = rest })
      take_zero :
          (before after : List Worker)
          → c.workers ≡ before ++ (idle ∷ after)
          → c.jobs ≡ []
          → c.reader ≡ draining
          → Step c (record c {
            workers = before ++ (handling zero_message ∷ after);
            zeros = zero_message ∷ c.zeros;
          })
      leave :
          (before after : List Worker)
          → c.workers ≡ before ++ (idle ∷ after)
          → c.cancelled ≡ true
          → Step c (record c { workers = before ++ (returned ∷ after) })
      settle :
          (before after : List Worker) (msg : Message)
          → c.workers ≡ before ++ (handling msg ∷ after)
          → Step c (turn_end msg before after c (consume client subject handler msg c.log))

    -- `n` steps.
    pub data Steps : ℕ → Consumer S → Consumer S → Type 0 where
      here : {c : Consumer S} → Steps 0 c c
      next : {n : ℕ} {c c' c'' : Consumer S} → Step c c' → Steps n c' c'' → Steps (suc n) c c''
