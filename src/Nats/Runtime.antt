-- ===== src/Nats/Runtime.antt =====
-- pull_consumer_runtime.go: the fetcher and the workers of a pull consumer, interleaved in any
-- order, over the channel between them. The JetStream subscription is a parameter: a step gives
-- the messages that Fetch returned and the error of Ack.
pub mod Sound
pub mod Shutdown
use ofm_registration_saga_se.Prelude.{
  ℕ, zero, suc, ◌≤◌, ◌<◌, String, Bool, true, false, Option, none, some, List, [], ◌∷◌, ◌++◌, ◌≡◌,
}
use ofm_registration_saga_se.Prelude.Counting.{count, total}
use ofm_registration_saga_se.Prelude.Integer.{to_nat}
use ofm_registration_saga_se.Domain.{Error}
use ofm_registration_saga_se.Exec.{Result, ok, err, Exec}
use ofm_registration_saga_se.Nats.{
  PullConsumerConfig, FetchState, Turn, maybe_update_adaptive_plan, fetch_start,
}

-- nats.Msg
pub record Message : Type 0 where
  pub subject : String
  pub data_ : String

-- What a worker told the server of a message.
pub data Answer : Type 0 where
  acked ack_failed naked : Answer

pub data Worker : Type 0 where
  idle stopped : Worker
  handling : Message → Worker

-- What a worker counts for in the wait group.
abbrev pub alive : Worker → ℕ
alive stopped = 0
alive idle = 1
alive (handling msg) = 1

-- Where runFetcher is: at shouldStop, at Fetch, in dispatchFetchedMessages with the messages left,
-- in wg.Wait, or past close.
pub data Fetcher : Type 0 where
  checking fetching waiting closed : Fetcher
  dispatching : List Message → Fetcher

-- `stopping` says that the context is done. The server's view is in the last three: what Fetch has
-- returned, what the workers answered, and what the fetcher dropped; the newest first.
pub record Runtime (S : Type 0) : Type 0 where
  pub app : S
  pub stopping : Bool
  pub fetch_state : FetchState
  pub fetcher : Fetcher
  pub jobs : List Message
  pub workers : List Worker
  pub fetched : List Message
  pub answered : List (Message × Answer)
  pub dropped : List Message

-- A failed handler is answered with Nak, whose error is ignored; else the error of Ack decides.
unfoldable pub answer : Result (Unit {0}) → Option Error → Answer
answer (err e) ack_error = naked
answer (ok u) none = acked
answer (ok u) (some e) = ack_failed

abbrev pub idle_workers : ℕ → List Worker
idle_workers zero = []
idle_workers (suc n) = idle ∷ idle_workers n

module _ {S : Type 0} (cfg : PullConsumerConfig) where
  -- Create and Start
  unfoldable pub started : S → ℕ → Runtime S
  unfolding fetch_start to_nat
  started app now = record {
    app = app;
    stopping = false;
    fetch_state = fetch_start cfg now;
    fetcher = checking;
    jobs = [];
    workers = idle_workers (to_nat cfg.workers);
    fetched = [];
    answered = [];
    dropped = [];
  }

  module _ (handler : String → String → Exec S (Unit {0})) where
    -- The rest of a worker's turn: the handler, and the answer to the server.
    unfoldable pub handled : Message → Option Error → List Worker → Runtime S → Runtime S
    unfolding answer
    handled msg ack_error workers r =
        let (result, app) = handler msg.subject msg.data_ r.app in
        record r {
          app = app;
          workers = workers;
          answered = (msg, answer result ack_error) ∷ r.answered;
        }

    -- One step of the context, the fetcher or a worker.
    pub data Step (r : Runtime S) : Runtime S → Type 0 where
      cancel : r.stopping ≡ false → Step r (record r { stopping = true })
      -- the fetcher
      stop : r.fetcher ≡ checking → r.stopping ≡ true → Step r (record r { fetcher = waiting })
      plan :
          (turn : Turn)
          → r.fetcher ≡ checking
          → r.stopping ≡ false
          → Step r (record r {
            fetcher = fetching;
            fetch_state = maybe_update_adaptive_plan cfg turn r.fetch_state;
          })
      fetch_failed : r.fetcher ≡ fetching → Step r (record r { fetcher = checking })
      fetch :
          (msgs : List Message)
          → r.fetcher ≡ fetching
          → count msgs ≤ to_nat r.fetch_state.plan.batch
          → Step r (record r { fetcher = dispatching msgs; fetched = msgs ++ r.fetched })
      queue :
          (msg : Message) (rest : List Message)
          → r.fetcher ≡ dispatching (msg ∷ rest)
          → count r.jobs < to_nat cfg.queue_size
          → Step r (record r { fetcher = dispatching rest; jobs = r.jobs ++ (msg ∷ []) })
      queued_all : r.fetcher ≡ dispatching [] → Step r (record r { fetcher = checking })
      drop :
          (msg : Message) (rest : List Message)
          → r.fetcher ≡ dispatching (msg ∷ rest)
          → r.stopping ≡ true
          → Step r (record r { fetcher = waiting; dropped = (msg ∷ rest) ++ r.dropped })
      close :
          r.fetcher ≡ waiting → total alive r.workers ≡ 0 → Step r (record r { fetcher = closed })
      -- a worker
      take :
          (before after : List Worker) (msg : Message) (rest : List Message)
          → r.workers ≡ before ++ (idle ∷ after)
          → r.jobs ≡ msg ∷ rest
          → Step r (record r { workers = before ++ (handling msg ∷ after); jobs = rest })
      leave :
          (before after : List Worker)
          → r.workers ≡ before ++ (idle ∷ after)
          → r.stopping ≡ true
          → Step r (record r { workers = before ++ (stopped ∷ after) })
      settle :
          (before after : List Worker) (msg : Message) (ack_error : Option Error)
          → r.workers ≡ before ++ (handling msg ∷ after)
          → Step r (handled msg ack_error (before ++ (idle ∷ after)) r)

    -- `n` steps.
    pub data Steps : ℕ → Runtime S → Runtime S → Type 0 where
      here : {r : Runtime S} → Steps 0 r r
      next : {n : ℕ} {r r' r'' : Runtime S} → Step r r' → Steps n r' r'' → Steps (suc n) r r''
