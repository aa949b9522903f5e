-- ===== src/Ipc/Pipe/SocketBase.antt =====
-- src/common/ipc/pipe/socket_base.cpp and socket_base.hpp: messages framed by a header of a
-- signature and a size, over a stream socket. The header is a struct sent as it lies in memory; a
-- little-endian machine is taken. Received bytes land in a buffer at an offset, as in the code.
pub mod Frames
pub mod Receive
pub mod Rounds
pub mod Stream
pub mod Send
use ocvsmd.Common.{
  ℕ, zero, suc, ◌+◌, ◌-◌, ◌*◌, ◌/◌, ◌%◌, ◌^◌, Bool, true, false, not, ◌||◌, Option, none, some,
  List, [], ◌∷◌, ◌++◌, ltb, ◌==◌, if◌then◌else◌, take, drop, replicate, length,
}
use ocvsmd.Error.{Error, OptError, error, disconnected, invalid_argument, errno_to_error}
use ocvsmd.Error.Errno
use ocvsmd.Common.Int.{pos}
use ocvsmd.Io.SocketBuffer.{Payload, SocketBuffer, prepend}
use ocvsmd.Io.Posix.{Incoming, Received, got, failed, posix_recv, Acceptance, Outgoing, posix_send}

-- EAGAIN and EWOULDBLOCK are one number.
unfoldable pub is_not_ready_condition : ℕ → Bool
is_not_ready_condition err = err == Errno.eagain

abbrev pub msg_header_signature : ℕ
msg_header_signature = 0x5356434F

abbrev pub msg_payload_max_size : ℕ
msg_payload_max_size = 2 ^ 20

abbrev pub u32_mod : ℕ
u32_mod = 2 ^ 32

-- `sizeof(MsgHeader)`
abbrev pub header_size : ℕ
header_size = 8

-- The four bytes of a `std::uint32_t`, and the number that four bytes hold.
abbrev pub u32_bytes : ℕ → List ℕ
u32_bytes n = n % 256 ∷ n / 256 % 256 ∷ n / 65536 % 256 ∷ n / 16777216 % 256 ∷ []

abbrev pub u32_at : List ℕ → ℕ
u32_at (a ∷ b ∷ c ∷ d ∷ rest) = a + 256 * b + 65536 * c + 16777216 * d
u32_at _ = 0

-- `MsgHeader{MsgHeaderSignature, size}` as bytes.
unfoldable pub header_bytes : ℕ → List ℕ
header_bytes size = u32_bytes msg_header_signature ++ u32_bytes size

-- `MsgPart`: the header's bytes, or the payload's size and buffer.
pub data MsgPart : Type 0 where
  msg_header : List ℕ → MsgPart
  msg_payload : ℕ → List ℕ → MsgPart

pub record IoState : Type 0 where
  pub rx_partial_size : ℕ
  pub rx_msg_part : MsgPart

abbrev pub fresh_header : MsgPart
fresh_header = msg_header (replicate header_size 0)

abbrev pub init : IoState
init = record { rx_partial_size = 0; rx_msg_part = fresh_header }

-- What one call of `receiveData` leaves: the state, the socket, the call's result, and the payload
-- given to `on_rx_msg_payload`, whose own result the code drops.
pub record Rx : Type 0 where
  pub state : IoState
  pub incoming : Incoming
  pub result : OptError
  pub delivered : Option Payload

abbrev pub rx : ℕ → MsgPart → Incoming → OptError → Rx
rx off part s result = record {
  state = record { rx_partial_size = off; rx_msg_part = part };
  incoming = s;
  result = result;
  delivered = none;
}

-- `recv` into a buffer at an offset.
abbrev pub write_at : ℕ → List ℕ → List ℕ → List ℕ
write_at off bs buffer = take off buffer ++ (bs ++ drop (off + length bs) buffer)

-- The payload is complete: back to a header, and the payload goes out.
abbrev pub finish : List ℕ → Incoming → Rx
finish buffer s = record { state = init; incoming = s; result = none; delivered = some buffer }

unfoldable pub payload_received : ℕ → List ℕ → ℕ → Received × Incoming → Rx
unfolding is_not_ready_condition
payload_received size buffer off (failed err, s) =
    if is_not_ready_condition err
    then rx off (msg_payload size buffer) s none
    else rx off (msg_payload size buffer) s (some (errno_to_error err))
payload_received size buffer off (got [], s) =
    rx off (msg_payload size buffer) s (some (error disconnected))
payload_received size buffer off (got (b ∷ bs), s) =
    let off' = off + length (b ∷ bs) in
    let buffer' = write_at off (b ∷ bs) buffer in
    if ltb off' size then rx off' (msg_payload size buffer') s none else finish buffer' s

-- Part 2 of `receiveData`.
unfoldable pub receive_payload : ℕ → List ℕ → ℕ → Incoming → Rx
unfolding payload_received
receive_payload size buffer off s =
    if ltb off size
    then payload_received size buffer off (posix_recv (size - off) s)
    else finish buffer s

abbrev pub is_invalid_header : List ℕ → Bool
is_invalid_header raw =
    not (u32_at raw == msg_header_signature)
    || ((u32_at (drop 4 raw) == 0) || ltb msg_payload_max_size (u32_at (drop 4 raw)))

-- The header is complete and valid: a zeroed buffer of its size, and part 2.
unfoldable pub switch_to_payload : List ℕ → Incoming → Rx
unfolding receive_payload
switch_to_payload raw s =
    receive_payload (u32_at (drop 4 raw)) (replicate (u32_at (drop 4 raw)) 0) 0 s

unfoldable pub header_received : List ℕ → ℕ → Received × Incoming → Rx
unfolding is_not_ready_condition
header_received raw off (failed err, s) =
    if is_not_ready_condition err
    then rx off (msg_header raw) s none
    else if err == Errno.econnreset
    then rx off (msg_header raw) s
        (some (record { code = disconnected; opt_errno = some (pos err) }))
    else rx off (msg_header raw) s (some (errno_to_error err))
header_received raw off (got [], s) = rx off (msg_header raw) s (some (error disconnected))
header_received raw off (got (b ∷ bs), s) =
    let off' = off + length (b ∷ bs) in
    let raw' = write_at off (b ∷ bs) raw in
    if ltb off' header_size
    then rx off' (msg_header raw') s none
    else if is_invalid_header raw'
    then rx off' (msg_header raw') s (some (error invalid_argument))
    else switch_to_payload raw' s

-- Part 1 of `receiveData`.
unfoldable pub receive_header : List ℕ → ℕ → Incoming → Rx
unfolding header_received
receive_header raw off s =
    if ltb off header_size
    then header_received raw off (posix_recv (header_size - off) s)
    else switch_to_payload raw s

unfoldable pub receive_part : MsgPart → ℕ → Incoming → Rx
unfolding receive_header receive_payload
receive_part (msg_header raw) off s = receive_header raw off s
receive_part (msg_payload size buffer) off s = receive_payload size buffer off s

unfoldable pub receive_data : IoState → Incoming → Rx
unfolding receive_part
receive_data io s = receive_part io.rx_msg_part io.rx_partial_size s

-- What `send` leaves: its result, the kernel's side, and the buffer, now with the header.
pub record Tx : Type 0 where
  pub result : OptError
  pub outgoing : Outgoing
  pub buffer : SocketBuffer

abbrev pub after_send : ℕ → OptError
after_send zero = none
after_send (suc e) = some (errno_to_error (suc e))

-- The loop over the fragments stops at the first error.
abbrev pub unless_failed : OptError → Outgoing → OptError × Outgoing → OptError × Outgoing
unless_failed none w rest = rest
unless_failed (some e) w rest = (some e, w)

unfoldable pub send_fragments : List Payload → List Acceptance → List ℕ → OptError × Outgoing
send_fragments [] script stream = (none, record { script = script; stream = stream })
send_fragments (p ∷ ps) script stream =
    let (err, w) = posix_send p script stream in
    let rest = send_fragments ps w.script w.stream in unless_failed (after_send err) w rest

unfoldable pub send : Outgoing → SocketBuffer → Tx
unfolding send_fragments
send w sock_buff =
    let b = prepend (header_bytes (sock_buff.size % u32_mod)) sock_buff in
    let (result, w') = send_fragments b.payloads w.script w.stream in
    record { result = result; outgoing = w'; buffer = b }
