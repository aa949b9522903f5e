-- ===== src/Lib.antt =====
-- The Open Cyphal Vehicle System Management Daemon: a daemon that runs a Cyphal node and serves it to
-- local processes, and the SDK that these use. Client and daemon talk over a stream socket. On each
-- side a socket pipe frames messages (src/common/ipc/pipe), and a router (src/common/ipc) multiplexes
-- channels over it: a channel has a gateway, named by a tag, which sends messages of a service with
-- sequence numbers and ends the channel. The daemon's services make channels by factories, and its
-- file provider serves the files below a list of roots to the Cyphal network.
--
-- Which file models what:
-- - Common: tests on numbers, lists over the native length, maps as association lists, integers.
-- - Error: include/ocvsmd/sdk/defines.hpp (Code, Error, OptError) and the conversions of
--   src/common/common_helpers.hpp, over the record of src/common/dsdl/ocvsmd/common/Error.0.1.dsdl.
-- - Io.SocketBuffer: src/common/io/socket_buffer.hpp. Io.Posix: posixSyscallError of
--   include/ocvsmd/platform/posix_utils.hpp around `recv` and `send`; the kernel's side of a socket is a
--   list of arrivals or acceptances, each a run of bytes or a failure.
-- - Io.Text: what is used of C strings, strtoull and fmt, on bytes. Io.SocketAddress:
--   src/common/io/socket_address.cpp, its parser; Printing is about toString, Calls about the socket calls,
--   Validity, RoundTrip and UnixNames about what parses to what. The conversions between text and Internet
--   addresses are the system's, and a parameter, `Inet`.
-- - Ipc.Pipe.SocketBase: src/common/ipc/pipe/socket_base.cpp, with receiveData and send as functions of
--   the I/O state and the socket. Frames says where a receiver stands, Receive is about one call, Rounds
--   about one call where nothing fails, Stream about many, Send about the way out.
-- - Ipc.Pipe.SocketServer: src/common/ipc/pipe/socket_server.cpp, a context for each client; Requests
--   is about one call, Sessions about the order of events. The router is given by what it sends.
-- - Ipc.Pipe.SocketClient: src/common/ipc/pipe/socket_client.cpp, likewise; Session is about the order of
--   events, Hearing about the messages. connectSocket, which nothing calls, is left out.
-- - Ipc.Gateway, Ipc.Route: the events of src/common/ipc/gateway.hpp and the messages of
--   src/common/dsdl/ocvsmd/common/ipc. The serializer is generated code and a parameter, `Codec`.
-- - Ipc.ClientRouter, Ipc.ServerRouter: client_router.cpp and server_router.cpp of src/common/ipc. The
--   state is the router's fields, the gateways alive, and the histories of posted messages and of
--   handler calls. Handlers, factories and the pipe are parameters (`Env`): a handler may change the
--   router in any way. At the client, Silence and Steps are about a gateway that has heard its end, and
--   Sequence and Numbers about the numbers of messages; at the server, Registry, Changes, Extends and
--   Steps are about registrations, and Hearing about one event. Transit joins the two routers.
-- - Ipc.Channel: src/common/ipc/channel.hpp, the typed end of a gateway; Delivery goes from a channel to
--   the other side's.
-- - Daemon.FileProvider: src/daemon/engine/cyphal/file_provider.cpp over a record of file system calls.
-- - Daemon.FileServer: the services of src/daemon/engine/svc/file_server on the file provider.
-- - Daemon.ExecCmd: src/daemon/engine/svc/node/exec_cmd_service.cpp, the state machines of the command
--   service over an environment for the Cyphal clients. Frame and Counter say what one channel leaves to
--   the others, Answers and Finish are about its nodes, Runs about any sequence of events, Sound and
--   Lifetime about the lifetime of the state machines.
-- - Daemon.CyError: src/daemon/engine/engine_helpers.hpp. Daemon.Sessions: the map of state machines that
--   the services share, and what holds of every channel of a service.
-- - Daemon.AccessRegisters: src/daemon/engine/svc/node/access_registers_service.cpp, the state machine of one
--   channel. Track says how far a node has come, Loop is about the calls of one node, Runs about any
--   sequence of events, with the inputs before the begin in Runs.Collecting, and Wrap about more registers
--   than their index can count.
-- - Daemon.ListRegisters: src/daemon/engine/svc/node/list_registers_service.cpp, likewise; Names is about a node
--   that answers. Sdk.ListRegistersClient.Listing joins the service and its client.
-- - Daemon.Relay: the raw publisher, subscriber and RPC client of src/daemon/engine/svc/relay, the state
--   machine of one channel each; Publishing, Forwarding and Calls are about what goes through them.
-- - Sdk: the clients of src/sdk/svc/node. NodeClient is what they share, over what the channel's `send` and
--   `complete` give; ExecCmdClient, ListRegistersClient and AccessRegistersClient each have their requests and
--   what they gather. Gathering is about what is gathered of a node, and Access joins the register access
--   client and its service. Sdk.Relay: the clients of src/sdk/svc/relay and the endpoints they make, with the
--   calls of the receivers as a history; Publication joins the publisher and its service, and
--   Subscription the subscriber and its service.
-- - Sdk.NodeRegistryClient, Sdk.NodeCommandClient: src/sdk/node_registry_client.cpp and
--   src/sdk/node_command_client.cpp, the requests they make.
-- - Sdk.FileServerClient: the clients of src/sdk/svc/file_server and the checks of src/sdk/file_server.cpp; Roots
--   joins the client of ListRoots and its service.
-- - Tests: concrete runs, and an instance of each result's hypotheses.
--
-- Bounds and fuel. A received payload is at most 2 ^ 20 bytes, as in the code; sequence numbers and tags
-- wrap at 2 ^ 64. `receive_all` and `run_receive` run on fuel, one unit a call; more than `measure`, the bytes and
-- arrivals of the script, are enough, since each call that gets anything uses one. `read_file` takes
-- one unit a request; one more than the bytes of the file are enough.
-- The loop of a node's calls takes one unit a round, and has one more than there are registers, and as many
-- more as the environment says: enough with fewer than 2 ^ 16 registers, where its index does not wrap.
--
-- Not modelled: logging, time, threads (the daemon has one), the allocation of memory, the generated
-- serializers, the third-party transports and executors, and the file descriptors behind a socket.
-- Destructors are operations called when a gateway's last pointer goes; when that is, is the caller's.
pub mod Common
pub mod Error
pub mod Io
pub mod Ipc
pub mod Daemon
pub mod Sdk
pub mod Tests
