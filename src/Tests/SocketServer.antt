-- ===== src/Tests/SocketServer.antt =====
-- src/common/ipc/pipe/socket_server.cpp with one client.
use ocvsmd.Common.{ℕ, ◌≡◌, refl, false, some, [], ◌∷◌, arith, ◌==◌}
use ocvsmd.Common.Map.{lookup, emplace}
use ocvsmd.Io.Posix.{Incoming, Outgoing, chunk, fails}
use ocvsmd.Ipc.Pipe.SocketBase.{receive_data}
use ocvsmd.Ipc.Pipe.SocketServer
use ocvsmd.Ipc.Pipe.SocketServer.{
  SocketServer, ClientContext, Env, new_context, handle_accept, handle_client_request,
}
use ocvsmd.Ipc.Pipe.SocketServer.Requests.{
  receiver_of, after_receive, ending, delivery, handle_client_request_lem,
}
use ocvsmd.Ipc.Pipe.SocketServer.Sessions
use ocvsmd.Ipc.Pipe.SocketServer.Sessions.{phase_of, expected, sessions_in_order}

abbrev quiet_env : Env
quiet_env = record { replies = λ e s. [] }

-- A connection that is closed after one byte.
abbrev short : Incoming
short = chunk 79 [] ∷ fails 104 ∷ []

abbrev willing : Outgoing
willing = record { script = []; stream = [] }

abbrev joined : SocketServer
joined = handle_accept quiet_env (some (short, willing)) SocketServer.init

abbrev context : ClientContext
context = new_context short willing

joined_context : lookup 1 joined.client_id_to_context ≡ some context
unfolding handle_accept lookup emplace SocketServer.send_all SocketServer.notify
joined_context = refl

handle_client_request_example :
    let rx = receive_data context.state context.incoming in
    let t = handle_client_request quiet_env 1 joined in
    (receiver_of t 1 ≡ after_receive rx)
    × (t.events ≡ ending rx.result 1 (delivery rx.delivered 1 joined.events))
    × ((d : ℕ) → (1 == d) ≡ false → receiver_of t d ≡ receiver_of joined d)
handle_client_request_example = handle_client_request_lem quiet_env 1 joined context joined_context

sessions_in_order_example :
    phase_of 1 (handle_client_request quiet_env 1 joined).events
    ≡ expected (handle_client_request quiet_env 1 joined) 1
sessions_in_order_example =
    sessions_in_order quiet_env (handle_client_request quiet_env 1 joined) 1 (
      Sessions.next (Sessions.next Sessions.here (Sessions.accepts short willing (omega arith)))
        (Sessions.requests 1 context joined_context))
