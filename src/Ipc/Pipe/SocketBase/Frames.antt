-- ===== src/Ipc/Pipe/SocketBase/Frames.antt =====
-- Frames, and where the state of a receiver stands in one (src/common/ipc/pipe/socket_base.cpp).
use ocvsmd.Common.{
  ℕ, ◌+◌, ◌≤◌, ◌<◌, ◌≡◌, Option, none, some, List, [], ◌∷◌, ◌++◌, arith, take, drop, length, All,
  length-append, length-take, length-drop, take-append, append_assoc, All-append, All-take,
  All-drop,
}
use ocvsmd.Io.SocketBuffer.{Payload}
use ocvsmd.Io.Posix.{Incoming, chunk, fails, ends, posix_recv, contents, received}
use ocvsmd.Ipc.Pipe.SocketBase.{
  msg_payload_max_size, header_size, header_bytes, MsgPart, msg_header, msg_payload, IoState, Rx,
  write_at,
}

abbrev pub IsByte : ℕ → Type 0
IsByte b = b < 256

-- A payload that a header can announce.
abbrev pub Fits : Payload → Type 0
Fits p = (1 ≤ length p) × (length p ≤ msg_payload_max_size)

-- A payload as `send` writes it.
abbrev pub frame : Payload → List ℕ
frame p = header_bytes (length p) ++ p

-- Where the state stands: which bytes of the current frame have been taken.
abbrev pub pending_part : MsgPart → ℕ → List ℕ
pending_part (msg_header raw) off = take off raw
pending_part (msg_payload size buffer) off = header_bytes size ++ take off buffer

abbrev pub pending : IoState → List ℕ
pending io = pending_part io.rx_msg_part io.rx_partial_size

abbrev pub IsValidPart : MsgPart → ℕ → Type 0
IsValidPart (msg_header raw) off = (off < header_size) × (length raw ≡ header_size) × All IsByte raw
IsValidPart (msg_payload size buffer) off =
    (off < size) × (size ≤ msg_payload_max_size) × (length buffer ≡ size)

abbrev pub IsValid : IoState → Type 0
IsValid io = IsValidPart io.rx_msg_part io.rx_partial_size

abbrev pub framed : Option Payload → List ℕ
framed none = []
framed (some p) = frame p

abbrev pub FitsOpt : Option Payload → Type 0
FitsOpt none = Unit
FitsOpt (some p) = Fits p

-- What was taken before and what was to come is what was delivered, what is taken now and what is
-- to come.
pub record Keeps (before : List ℕ) (r : Rx) : Type 0 where
  pub valid : IsValid r.state
  pub fits : FitsOpt r.delivered
  pub bytes : before ≡ framed r.delivered ++ (pending r.state ++ contents r.incoming)

pub length-posix_recv : (n : ℕ) (s : Incoming) → length (received (posix_recv n s).0) ≤ n
unfolding posix_recv
length-posix_recv n [] = omega arith
length-posix_recv n (chunk b bs ∷ s) = omega (arith, length-take n (b ∷ bs))
length-posix_recv n (fails e ∷ s) = ground (arith, length-posix_recv n s)
length-posix_recv n (ends ∷ s) = omega arith

module _ (off : ℕ) (bs buffer : List ℕ) (room : off + length bs ≤ length buffer) where
  pub length-write_at : length (write_at off bs buffer) ≡ length buffer
  length-write_at = omega (
    arith,
    length-append (take off buffer) (bs ++ drop (off + length bs) buffer),
    length-append bs (drop (off + length bs) buffer),
    length-take off buffer,
    length-drop (off + length bs) buffer,
  )

  pub take-write_at : take (off + length bs) (write_at off bs buffer) ≡ take off buffer ++ bs
  take-write_at = rw (← append_assoc (take off buffer) bs (drop (off + length bs) buffer)) (
      take-append (off + length bs) (take off buffer ++ bs) (drop (off + length bs) buffer)
        (omega (arith, length-append (take off buffer) bs, length-take off buffer)))

  pub All-write_at : All IsByte bs → All IsByte buffer → All IsByte (write_at off bs buffer)
  All-write_at h k =
      All-append IsByte _ _ (All-take IsByte off buffer k)
        (All-append IsByte _ _ h (All-drop IsByte (off + length bs) buffer k))
