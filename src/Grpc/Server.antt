-- ===== src/Grpc/Server.antt =====
-- server.go and InvokeRunGRPCServer of internal/fx/presentation.go: how the server is made, started
-- and shut down. Start runs in a goroutine and Shutdown in a hook: a step is one of either, and a
-- run is any sequence of steps. Memory is sequentially consistent: the source sets and reads
-- `listener` without a lock.
pub mod Stops
use ofm_registration_saga_se.Prelude.{Bool, true, false, Option, none, some, ◌≡◌, if◌then◌else◌}
use ofm_registration_saga_se.Domain.{Error, external}
use ofm_registration_saga_se.Exec.{Result, ok, err}

-- NewServer
unfoldable pub new_server : Bool → Bool → Result (Unit {0})
new_server has_service has_logger =
    if has_service
    then (if has_logger then ok tt else err (external "logger is nil"))
    else err (external "registration service is nil")

-- What net and grpc-go do: the error of Close on a listener that is open, or closed; the error of
-- Serve on a server that was stopped; whether GracefulStop leaves the listener of Serve open.
pub record Library : Type 0 where
  pub close : Bool → Option Error
  pub serve_stopped : Option Error
  pub open_after_stop : Bool

-- Where the goroutine is: before net.Listen, past it, past the assignment to `listener`, in Serve,
-- past the return of Start with nil, or past the panic that its error makes.
pub data Position : Type 0 where
  starting listened assigned serving returned panicked : Position

-- Where the hook OnStop is: before GracefulStop, past it, or past the return of Shutdown.
pub data Stop : Type 0 where
  not_yet stopped : Stop
  answered : Option Error → Stop

pub record Process : Type 0 where
  pub at : Position
  pub stop : Stop
  pub has_listener : Bool
  pub socket_open : Bool

-- OnStart, which launches the goroutine and returns.
unfoldable pub on_start : Process
on_start = record { at = starting; stop = not_yet; has_listener = false; socket_open = false }

-- if err := srv.Start(); err != nil { panic(err) }
abbrev pub after_start : Option Error → Position
after_start none = returned
after_start (some e) = panicked

abbrev pub after_graceful_stop : Library → Position → Bool → Bool
after_graceful_stop lib serving socket_open = lib.open_after_stop
after_graceful_stop lib _ socket_open = socket_open

abbrev pub is_stopping : Stop → Bool
is_stopping not_yet = false
is_stopping _ = true

abbrev pub is_alive : Position → Bool
is_alive panicked = false
is_alive _ = true

pub data Step (lib : Library) (p : Process) : Process → Type 0 where
  -- Start
  listen : p.at ≡ starting → Step lib p (record p { at = listened; socket_open = true })
  listen_failed : (e : Error) → p.at ≡ starting → Step lib p (record p { at = panicked })
  assign : p.at ≡ listened → Step lib p (record p { at = assigned; has_listener = true })
  serve : p.at ≡ assigned → p.stop ≡ not_yet → Step lib p (record p { at = serving })
  serve_refused :
      p.at ≡ assigned
      → is_stopping p.stop ≡ true
      → Step lib p (record p { at = after_start lib.serve_stopped; socket_open = false })
  serve_failed :
      (e : Error)
      → p.at ≡ serving
      → p.stop ≡ not_yet
      → Step lib p (record p { at = panicked; socket_open = false })
  serve_returned :
      p.at ≡ serving
      → is_stopping p.stop ≡ true
      → Step lib p (record p { at = returned; socket_open = false })
  -- Shutdown
  graceful_stop :
      p.stop ≡ not_yet
      → is_alive p.at ≡ true
      → Step lib p
          (record p { stop = stopped; socket_open = after_graceful_stop lib p.at p.socket_open })
  no_listener :
      p.stop ≡ stopped
      → is_alive p.at ≡ true
      → p.has_listener ≡ false
      → Step lib p (record p { stop = answered none })
  close :
      p.stop ≡ stopped
      → is_alive p.at ≡ true
      → p.has_listener ≡ true
      → Step lib p (record p { stop = answered (lib.close p.socket_open); socket_open = false })

pub data Steps (lib : Library) : Process → Process → Type 0 where
  here : {p : Process} → Steps lib p p
  next : {p p' p'' : Process} → Step lib p p' → Steps lib p' p'' → Steps lib p p''
