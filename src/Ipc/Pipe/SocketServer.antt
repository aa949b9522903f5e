-- ===== src/Ipc/Pipe/SocketServer.antt =====
-- src/common/ipc/pipe/socket_server.cpp: the daemon's end of the pipe, one client context for each
-- connection. A connection is the kernel's script of what arrives and of what it accepts. The event
-- handler is the router: all it does to this object is to send, so it is given by its sends.
pub mod Sessions
pub mod Requests
use ocvsmd.Common.{
  ℕ, zero, suc, ◌+◌, ◌%◌, ◌^◌, Bool, true, false, Option, none, some, List, [], ◌∷◌, ltb, leb, ◌==◌,
  if◌then◌else◌, ◌&&◌, has_value,
}
use ocvsmd.Common.Map.{Map, lookup, insert, emplace, erase}
use ocvsmd.Error.{OptError, error, invalid_argument, errno_to_error}
use ocvsmd.Io.SocketBuffer.{Payload, SocketBuffer}
use ocvsmd.Io.Posix.{Incoming, Outgoing, Acceptance}
use ocvsmd.Ipc.Pipe.SocketBase
use ocvsmd.Ipc.Pipe.SocketBase.{IoState, Rx, Tx, receive_data}

-- `ServerPipe::Event`
pub data Event : Type 0 where
  connected : ℕ → Event
  message : ℕ → Payload → Event
  disconnected : ℕ → Event

-- `ClientContext`: the state of its receiver, and its socket.
pub record ClientContext : Type 0 where
  pub state : IoState
  pub incoming : Incoming
  pub outgoing : Outgoing

-- The fields, and the events given to the handler, newest first. `faulted` is set where the code
-- would use a null context.
pub record SocketServer : Type 0 where
  pub has_server_fd : Bool
  pub accepts : Bool
  pub unique_client_id_counter : ℕ
  pub client_id_to_context : Map ClientContext
  pub events : List Event
  pub faulted : Bool

abbrev pub init : SocketServer
init = record {
  has_server_fd = false;
  accepts = false;
  unique_client_id_counter = 0;
  client_id_to_context = [];
  events = [];
  faulted = false;
}

-- What the router sends when it is given an event.
pub record Env : Type 0 where
  pub replies : Event → SocketServer → List (ℕ × SocketBuffer)

-- The results of the calls of `start`: an error, or zero for success.
pub record Setup : Type 0 where
  pub socket : OptError
  pub reuse_address : ℕ
  pub bind : OptError
  pub listen : ℕ

abbrev pub of_errno : ℕ → OptError
of_errno zero = none
of_errno (suc e) = some (errno_to_error (suc e))

-- The first failure of two steps.
abbrev pub and_then : OptError → OptError → OptError
and_then (some e) rest = some e
and_then none rest = rest

unfoldable pub make_socket_handle : Setup → SocketServer → OptError × SocketServer
make_socket_handle setup s =
    let result = and_then setup.socket (and_then (of_errno setup.reuse_address) setup.bind) in
    (result, if has_value result then s else record s { has_server_fd = true })

unfoldable pub start : Setup → SocketServer → OptError × SocketServer
unfolding make_socket_handle
start setup s =
    let (made, s') = make_socket_handle setup s in
    let result = and_then made (of_errno setup.listen) in
    (result, if has_value result then s' else record s' { accepts = true })

abbrev pub try_find_client_context : SocketServer → ℕ → Option ClientContext
try_find_client_context s client_id = lookup client_id s.client_id_to_context

unfoldable pub send : ℕ → SocketBuffer → SocketServer → OptError × SocketServer
send client_id sock_buff s = elim (try_find_client_context s client_id) [
  | none ↦ (some (error invalid_argument), s)
  | some ctx ↦
      let t = SocketBase.send ctx.outgoing sock_buff in
      (
        t.result,
        record s {
          client_id_to_context =
              insert client_id (record ctx { outgoing = t.outgoing }) s.client_id_to_context;
        },
      )
]

unfoldable pub send_all : List (ℕ × SocketBuffer) → SocketServer → SocketServer
unfolding send
send_all [] s = s
send_all ((client_id, sock_buff) ∷ rest) s = send_all rest (send client_id sock_buff s).1

-- The kernel's two sides of an accepted connection; its handling is in the context from then on.
abbrev pub new_context : Incoming → Outgoing → ClientContext
new_context incoming outgoing = record {
  state = SocketBase.init;
  incoming = incoming;
  outgoing = outgoing;
}

abbrev pub size_mod : ℕ
size_mod = 2 ^ 64

module _ (env : Env) where
  -- `event_handler_`
  unfoldable pub notify : Event → SocketServer → SocketServer
  unfolding send_all
  notify e s = let s' = record s { events = e ∷ s.events } in send_all (env.replies e s') s'

  -- `handleAccept`: `none` where the call finds no connection.
  unfoldable pub handle_accept : Option (Incoming × Outgoing) → SocketServer → SocketServer
  unfolding notify
  handle_accept none s = s
  handle_accept (some (incoming, outgoing)) s =
      let new_client_id = (s.unique_client_id_counter + 1) % size_mod in
      notify (connected new_client_id) (record s {
        unique_client_id_counter = new_client_id;
        client_id_to_context =
            emplace new_client_id (new_context incoming outgoing) s.client_id_to_context;
      })

  -- The callback of `receiveData`, which runs once the state is back at a header.
  abbrev pub deliver : Option Payload → ℕ → SocketServer → SocketServer
  deliver none client_id s = s
  deliver (some payload) client_id s = notify (message client_id payload) s

  -- After `receiveData`: an error closes the connection.
  abbrev pub close_if : OptError → ℕ → SocketServer → SocketServer
  close_if none client_id s = s
  close_if (some e) client_id s =
      notify (disconnected client_id)
        (record s { client_id_to_context = erase client_id s.client_id_to_context })

  abbrev pub received_by : ℕ → ClientContext → Rx → SocketServer → SocketServer
  received_by client_id ctx rx s = close_if rx.result client_id (
      deliver rx.delivered client_id (record s {
        client_id_to_context =
            insert client_id (record ctx { state = rx.state; incoming = rx.incoming })
              s.client_id_to_context;
      }))

  unfoldable pub handle_client_request : ℕ → SocketServer → SocketServer
  unfolding notify
  handle_client_request client_id s = elim (try_find_client_context s client_id) [
    | none ↦ record s { faulted = true }
    | some ctx ↦ received_by client_id ctx (receive_data ctx.state ctx.incoming) s
  ]
