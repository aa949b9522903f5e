-- ===== src/Ipc/Route.antt =====
-- The `Route.0.2` messages of the routers (src/common/dsdl/ocvsmd/common/ipc), the serialization
-- around them (src/common/dsdl_helpers.hpp), and the routers' cut of a received payload. The
-- serializer itself is generated code: it is a parameter.
use ocvsmd.Common.{
  ◌<◌, ◌↔◌, true, ap, length-append, drop-append, arith, ℕ, ◌-◌, ◌≡◌, Bool, Option, none, some,
  List, ◌++◌, leb, if◌then◌else◌, drop, length,
}
use ocvsmd.Error.{DsdlError}
use ocvsmd.Io.SocketBuffer.{Payload}

pub record ChannelMsg : Type 0 where
  pub tag : ℕ
  pub sequence : ℕ
  pub service_id : ℕ
  pub payload_size : ℕ

pub record ChannelEnd : Type 0 where
  pub tag : ℕ
  pub keep_alive : Bool
  pub error : DsdlError

pub record Connect : Type 0 where
  pub major : ℕ
  pub minor : ℕ
  pub error : DsdlError

pub data Route : Type 0 where
  empty : Route
  connect : Connect → Route
  channel_msg : ChannelMsg → Route
  channel_end : ChannelEnd → Route

-- The generated serializer and deserializer of `Route`.
pub record Codec : Type 0 where
  pub serialize : Route → Option (List ℕ)
  pub deserialize : List ℕ → Option Route

-- What the generated code documents: a message is read back from its bytes, and bytes behind it are
-- ignored.
pub record IsFaithful (c : Codec) : Type 0 where
  pub reads_back :
      (r : Route) (bs rest : List ℕ) → c.serialize r ≡ some bs → c.deserialize (bs ++ rest) ≡ some r

-- `payload.subspan(payload.size() - payload_size)`; `none` where the offset would wrap, which is
-- undefined behaviour in the code.
unfoldable pub real_payload : Payload → ℕ → Option Payload
real_payload payload size =
    if leb size (length payload) then some (drop (length payload - size) payload) else none

-- The cut finds the payload behind any prefix.
pub real_payload-append :
    (bs p : Payload) (n : ℕ) → n ≡ length p → real_payload (bs ++ p) n ≡ some p
unfolding real_payload
real_payload-append bs p n e =
    let total = length-append bs p in
    let fits : leb n (length (bs ++ p)) ≡ true = ground arith in
    rw fits (ap some (drop-append (length (bs ++ p) - n) bs p (omega arith)))

-- The cut fails exactly when the message claims more bytes than came.
pub real_payload-eq-none_iff :
    (payload : Payload) (size : ℕ) → (real_payload payload size ≡ none) ↔ (length payload < size)
unfolding real_payload
real_payload-eq-none_iff payload size = ground arith
