-- ===== src/Ipc/Pipe/SocketClient.antt =====
-- src/common/ipc/pipe/socket_client.cpp: the SDK's end of the pipe. The event handler is the router:
-- all it does to this object is to send, so it is given by its sends.
pub mod Session
pub mod Hearing
use ocvsmd.Common.{
  ℕ, zero, suc, Bool, true, false, not, Option, none, some, List, [], ◌∷◌, ◌==◌, if◌then◌else◌,
  has_value,
}
use ocvsmd.Error.{Error, OptError, operation_in_progress, raw_code, errno_to_error}
use ocvsmd.Io.SocketBuffer.{Payload, SocketBuffer}
use ocvsmd.Io.Posix.{Incoming, Outgoing}
use ocvsmd.Ipc.Pipe.SocketBase
use ocvsmd.Ipc.Pipe.SocketBase.{IoState, Rx, receive_data}

-- `ClientPipe::Event`
pub data Event : Type 0 where
  connected : Event
  message : Payload → Event
  disconnected : Event

-- What `socket_callback_` waits for, if it is set.
pub data Callback : Type 0 where
  idle on_writable on_readable : Callback

-- The fields, the socket, and the events given to the handler, newest first.
pub record SocketClient : Type 0 where
  pub has_fd : Bool
  pub socket_callback : Callback
  pub io_state : IoState
  pub incoming : Incoming
  pub outgoing : Outgoing
  pub events : List Event

abbrev pub make : Incoming → Outgoing → SocketClient
make incoming outgoing = record {
  has_fd = false;
  socket_callback = idle;
  io_state = SocketBase.init;
  incoming = incoming;
  outgoing = outgoing;
  events = [];
}

pub record Env : Type 0 where
  pub replies : Event → SocketClient → List SocketBuffer

-- The results of the calls of `start`.
pub record Setup : Type 0 where
  pub socket : OptError
  pub connect : OptError

-- An error of `connect` other than that it is under way.
abbrev pub refusal : OptError → OptError
refusal none = none
refusal (some e) = if raw_code e.code == raw_code operation_in_progress then none else some e

abbrev pub and_then : OptError → OptError → OptError
and_then (some e) rest = some e
and_then none rest = rest

unfoldable pub make_socket_handle : Setup → SocketClient → OptError × SocketClient
make_socket_handle setup c =
    let result = and_then setup.socket (refusal setup.connect) in
    (result, if has_value result then c else record c { has_fd = true })

unfoldable pub start : Setup → SocketClient → OptError × SocketClient
unfolding make_socket_handle
start setup c =
    let (result, c') = make_socket_handle setup c in
    (result, if has_value result then c' else record c' { socket_callback = on_writable })

abbrev pub ebadf : ℕ
ebadf = 9

-- Without a socket the system call fails.
unfoldable pub send : SocketBuffer → SocketClient → OptError × SocketClient
send sock_buff c =
    let t = SocketBase.send c.outgoing sock_buff in
    if c.has_fd
    then (t.result, record c { outgoing = t.outgoing })
    else (some (errno_to_error ebadf), c)

unfoldable pub send_all : List SocketBuffer → SocketClient → SocketClient
unfolding send
send_all [] c = c
send_all (b ∷ bs) c = send_all bs (send b c).1

module _ (env : Env) where
  -- `event_handler_`
  unfoldable pub notify : Event → SocketClient → SocketClient
  unfolding send_all
  notify e c = let c' = record c { events = e ∷ c.events } in send_all (env.replies e c') c'

  unfoldable pub handle_disconnect : SocketClient → SocketClient
  unfolding notify
  handle_disconnect c =
      notify disconnected
        (record c { has_fd = false; socket_callback = idle; io_state = SocketBase.init })

  -- `handleConnect`, with the results of `getsockopt`: its own error, or the socket's.
  unfoldable pub handle_connect : ℕ → ℕ → SocketClient → SocketClient
  unfolding handle_disconnect notify
  handle_connect err so_error c =
      if (if err == 0 then so_error else err) == 0
      then notify connected (record c { socket_callback = on_readable })
      else handle_disconnect (record c { socket_callback = idle })

  abbrev pub deliver : Option Payload → SocketClient → SocketClient
  deliver none c = c
  deliver (some payload) c = notify (message payload) c

  abbrev pub close_if : OptError → SocketClient → SocketClient
  close_if none c = c
  close_if (some e) c = handle_disconnect c

  abbrev pub received_by : Rx → SocketClient → SocketClient
  received_by rx c =
      close_if rx.result
        (deliver rx.delivered (record c { io_state = rx.state; incoming = rx.incoming }))

  unfoldable pub handle_receive : SocketClient → SocketClient
  unfolding notify handle_disconnect
  handle_receive c = received_by (receive_data c.io_state c.incoming) c
