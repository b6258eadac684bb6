-- ===== src/Tests/Server.antt =====
-- A server that served and is shut down.
use ofm_registration_saga_se.Prelude.{true, false, none, some, refl}
use ofm_registration_saga_se.Domain.{external}
use ofm_registration_saga_se.Grpc.Server.{
  Library, returned, answered, Process, on_start, listen, assign, serve, serve_returned,
  graceful_stop, close, Steps, here, next,
}
use ofm_registration_saga_se.Grpc.Server.Stops.{IsDocumented, Ends, shutdown-Ends}

abbrev library : Library
library = record {
  close = elim [ true ↦ none | false ↦ some (external "use of closed network connection") ];
  serve_stopped = some (external "grpc: the server has been stopped");
  open_after_stop = false;
}

library-IsDocumented : IsDocumented library
library-IsDocumented = record {
  closes = refl;
  closed = (_, refl);
  refuses = (_, refl);
  stops = refl;
}

abbrev shut_down : Process
shut_down = record {
  at = returned;
  stop = answered (some (external "use of closed network connection"));
  has_listener = true;
  socket_open = false;
}

clean_stop : Steps library on_start shut_down
unfolding on_start
clean_stop = next (listen refl) (
    next (assign refl) (
      next (serve refl refl) (
        next (graceful_stop refl refl)
          (next (serve_returned refl refl) (next (close refl refl refl) here)))))

shutdown-Ends_example :
    Ends library library-IsDocumented shut_down (some (external "use of closed network connection"))
shutdown-Ends_example =
    shutdown-Ends library library-IsDocumented (some (external "use of closed network connection"))
      clean_stop refl
