-- ===== src/Tests/SocketClient.antt =====
-- src/common/ipc/pipe/socket_client.cpp with one message from the daemon.
use ocvsmd.Common.{◌≡◌, refl, true, none, [], ◌∷◌, arith, inr}
use ocvsmd.Io.SocketBuffer.{Payload}
use ocvsmd.Io.Posix.{Incoming, Outgoing, chunk, fails}
use ocvsmd.Ipc.Pipe.SocketBase.{header_bytes}
use ocvsmd.Ipc.Pipe.SocketClient
use ocvsmd.Ipc.Pipe.SocketClient.{
  SocketClient, Env, Setup, connected, message, on_readable, make, start, handle_connect,
}
use ocvsmd.Ipc.Pipe.SocketClient.Session
use ocvsmd.Ipc.Pipe.SocketClient.Session.{phase_of, expected, session_in_order}
use ocvsmd.Ipc.Pipe.SocketClient.Hearing.{run_receive, run_receive-heard}

abbrev quiet_env : Env
quiet_env = record { replies = λ e c. [] }

abbrev hello : Payload
hello = 7 ∷ 8 ∷ []

-- One frame in two pieces.
abbrev pieces : Incoming
pieces = chunk 79 (67 ∷ 86 ∷ 83 ∷ 2 ∷ []) ∷ fails 11 ∷ chunk 0 (0 ∷ 0 ∷ 7 ∷ 8 ∷ []) ∷ []

abbrev silent : Outgoing
silent = record { script = []; stream = [] }

abbrev granted : Setup
granted = record { socket = none; connect = none }

abbrev starting : SocketClient
starting = (start granted (make pieces silent)).1

starting_writable : starting.socket_callback ≡ SocketClient.on_writable
unfolding start
starting_writable = refl

session_in_order_example :
    let c = handle_connect quiet_env 0 0 starting in
    phase_of c.events ≡ expected c.socket_callback c.events
session_in_order_example =
    session_in_order quiet_env granted pieces silent (handle_connect quiet_env 0 0 starting)
      (Session.next Session.here (Session.connects 0 0 starting_writable))

-- The client once it is connected.
abbrev there : SocketClient
there = record (make pieces silent) {
  has_fd = true;
  socket_callback = on_readable;
  events = connected ∷ [];
}

run_receive-heard_example : (run_receive quiet_env 20 there).events ≡ message hello ∷ connected ∷ []
unfolding header_bytes
run_receive-heard_example =
    run_receive-heard quiet_env there (hello ∷ []) 20 refl refl (omega arith) (omega arith)
      (inr refl, tt) refl (omega arith)
