-- ===== src/Ipc/Pipe/SocketBase/Receive.antt =====
-- One call of `receiveData`: no byte is lost, and the state stays well formed.
use ocvsmd.Common.{
  ◌*◌, lt→ltb, ℕ, ◌+◌, ◌-◌, ◌≤◌, ◌<◌, ◌≡◌, ◌≢◌, refl, sym, ap, ◌∙◌, subst, ◌⊎◌, inl, inr, false,
  none, List, [], ◌∷◌, ◌++◌, arith, ltb, ◌==◌, take, drop, replicate, length, All, length-replicate,
  take-of_length-le, append_assoc, All-append_left, Bool-cases,
}
use ocvsmd.Error.Errno
use ocvsmd.Io.Posix.{
  Incoming, Received, got, failed, posix_recv, contents, received, contents-posix_recv,
}
use ocvsmd.Ipc.Pipe.SocketBase.{
  msg_header_signature, msg_payload_max_size, header_size, u32_bytes, u32_at, header_bytes, MsgPart,
  msg_header, msg_payload, IoState, Rx, write_at, is_invalid_header, payload_received,
  receive_payload, switch_to_payload, header_received, receive_header, receive_part, receive_data,
}
use ocvsmd.Ipc.Pipe.SocketBase.Frames.{
  All-write_at, IsByte, IsValid, IsValidPart, Keeps, frame, length-posix_recv, length-write_at,
  pending, pending_part, take-write_at,
}

-- A result, or the bytes kept.
abbrev pub KeepsOr : List ℕ → Rx → Type 0
KeepsOr before r = (r.result ≢ none) ⊎ Keeps before r

-- The parts of a frame's payload, as `receive_payload` leaves them.
module _ (size : ℕ) (buffer : List ℕ) (off : ℕ)
    (v : IsValidPart (msg_payload size buffer) off) where
  stored_eq :
      (bs : List ℕ) (s : Incoming)
      → off + length bs ≤ size
      → header_bytes size ++ (take off buffer ++ (bs ++ contents s))
        ≡ (header_bytes size ++ take (off + length bs) (write_at off bs buffer)) ++ contents s
  stored_eq bs s h = rw (take-write_at off bs buffer (omega arith)) (simp append_assoc)

  finished_eq :
      (bs : List ℕ) (s : Incoming)
      → off + length bs ≡ size
      → header_bytes size ++ (take off buffer ++ (bs ++ contents s))
        ≡ frame (write_at off bs buffer) ++ contents s
  finished_eq bs s h =
      let n = length-write_at off bs buffer (omega arith) in
      let whole : take (off + length bs) (write_at off bs buffer) ≡ write_at off bs buffer =
        take-of_length-le _ _ (omega (arith, n)) in
      let e : length (write_at off bs buffer) ≡ size = omega (arith, n) in
      stored_eq bs s (omega arith) ∙ rw (whole, e)

  payload_stored :
      (b : ℕ) (bs : List ℕ) (s : Incoming)
      → off + length (b ∷ bs) ≤ size
      → KeepsOr
          (header_bytes size ++ (take off buffer ++ ((b ∷ bs) ++ contents s)))
          (payload_received size buffer off (got (b ∷ bs), s))
  unfolding payload_received
  payload_stored b bs s h = elim (Bool-cases (ltb (off + length (b ∷ bs)) size)) [
    | inl more ↦ inr (
        rw more (record {
          valid =
              (ground arith, v.1, omega (arith, length-write_at off (b ∷ bs) buffer (omega arith)));
          fits = tt;
          bytes = stored_eq (b ∷ bs) s h;
        }))
    | inr full ↦ inr (
        rw full (record {
          valid = (omega arith, refl, omega arith);
          fits = (
            omega (arith, length-write_at off (b ∷ bs) buffer (omega arith)),
            omega (arith, length-write_at off (b ∷ bs) buffer (omega arith)),
          );
          bytes = finished_eq (b ∷ bs) s (ground arith);
        }))
  ]

  payload_received-Keeps :
      (o : Received) (s : Incoming)
      → length (received o) ≤ size - off
      → KeepsOr
          (header_bytes size ++ (take off buffer ++ (received o ++ contents s)))
          (payload_received size buffer off (o, s))
  unfolding payload_received
  payload_received-Keeps (failed e) s h = elim (Bool-cases (e == Errno.eagain)) [
    | inl idle ↦ inr (rw idle (record { valid = v; fits = tt; bytes = simp append_assoc }))
    | inr bad ↦ rw bad (inl (λ k. cc))
  ]
  payload_received-Keeps (got []) s h = inl (λ e. cc)
  payload_received-Keeps (got (b ∷ bs)) s h = payload_stored b bs s (omega arith)

  receive_payload-Keeps :
      (s : Incoming)
      → KeepsOr
          (header_bytes size ++ (take off buffer ++ contents s))
          (receive_payload size buffer off s)
  unfolding receive_payload
  receive_payload-Keeps s =
      let o = posix_recv (size - off) s in
      rw (lt→ltb off size v.0) (
        subst
          (λ c.
            KeepsOr (header_bytes size ++ (take off buffer ++ c))
              (payload_received size buffer off o))
          (contents-posix_recv (size - off) s)
          (payload_received-Keeps o.0 o.1 (length-posix_recv (size - off) s)))

u32_bytes-u32_at :
    (a b c d : ℕ) (rest : List ℕ)
    → a < 256
    → b < 256
    → c < 256
    → d < 256
    → u32_bytes (u32_at (a ∷ b ∷ c ∷ d ∷ rest)) ≡ a ∷ b ∷ c ∷ d ∷ []
u32_bytes-u32_at a b c d rest ha hb hc hd = ground arith

pub length-header_bytes : (n : ℕ) → length (header_bytes n) ≡ header_size
unfolding header_bytes
length-header_bytes n = refl

header_parts :
    (a b c d e f g h : ℕ)
    → All IsByte (a ∷ b ∷ c ∷ d ∷ e ∷ f ∷ g ∷ h ∷ [])
    → a + 256 * b + 65536 * c + 16777216 * d ≡ msg_header_signature
    → e + 256 * f + 65536 * g + 16777216 * h ≢ 0
    → e + 256 * f + 65536 * g + 16777216 * h ≤ msg_payload_max_size
    → (a ∷ b ∷ c ∷ d ∷ e ∷ f ∷ g ∷ h ∷ [] ≡ header_bytes (u32_at (e ∷ f ∷ g ∷ h ∷ [])))
      × (1 ≤ u32_at (e ∷ f ∷ g ∷ h ∷ []))
      × (u32_at (e ∷ f ∷ g ∷ h ∷ []) ≤ msg_payload_max_size)
unfolding header_bytes
header_parts a b c d e f g h v sig nonzero top =
    let tail =
      u32_bytes-u32_at e f g h [] (omega arith) (omega arith) (omega arith) (omega arith) in
    let ea : a ≡ 79 = omega arith in
    let eb : b ≡ 67 = omega arith in
    let ec : c ≡ 86 = omega arith in
    let ed : d ≡ 83 = omega arith in (cc (ea, eb, ec, ed, tail), omega arith, top)

-- A complete header that passes the checks is the one that `send` writes for its size.
valid_header :
    (raw : List ℕ)
    → length raw ≡ header_size
    → All IsByte raw
    → is_invalid_header raw ≡ false
    → (raw ≡ header_bytes (u32_at (drop 4 raw)))
      × (1 ≤ u32_at (drop 4 raw))
      × (u32_at (drop 4 raw) ≤ msg_payload_max_size)
unfolding header_bytes
valid_header (a ∷ b ∷ c ∷ d ∷ e ∷ f ∷ g ∷ h ∷ []) n v k =
    header_parts a b c d e f g h v (ground arith) (ground arith) (ground arith)
valid_header _ n v k = absurd (omega arith)

switch_to_payload-Keeps :
    (raw : List ℕ) (s : Incoming)
    → length raw ≡ header_size
    → All IsByte raw
    → is_invalid_header raw ≡ false
    → KeepsOr (raw ++ contents s) (switch_to_payload raw s)
unfolding switch_to_payload
switch_to_payload-Keeps raw s n k ok =
    let (e, low, high) = valid_header raw n k ok in
    let size = u32_at (drop 4 raw) in
    subst (λ r. KeepsOr (r ++ contents s) (receive_payload size (replicate size 0) 0 s)) (sym e)
      (receive_payload-Keeps size (replicate size 0) 0 (low, high, length-replicate size 0) s)

-- The first part, as `receive_header` leaves it.
module _ (raw : List ℕ) (off : ℕ) (v : IsValidPart (msg_header raw) off) where
  raw_stored :
      (bs : List ℕ) (s : Incoming)
      → off + length bs ≤ header_size
      → take off raw ++ (bs ++ contents s)
        ≡ take (off + length bs) (write_at off bs raw) ++ contents s
  raw_stored bs s h = rw (take-write_at off bs raw (omega arith)) (simp append_assoc)

  switched :
      (bs : List ℕ) (s : Incoming)
      → off + length bs ≡ header_size
      → All IsByte bs
      → is_invalid_header (write_at off bs raw) ≡ false
      → KeepsOr (take off raw ++ (bs ++ contents s)) (switch_to_payload (write_at off bs raw) s)
  unfolding switch_to_payload
  switched bs s h k ok =
      let n = length-write_at off bs raw (omega arith) in
      let whole : take (off + length bs) (write_at off bs raw) ≡ write_at off bs raw =
        take-of_length-le _ _ (omega (arith, n)) in
      subst (λ c. KeepsOr c (switch_to_payload (write_at off bs raw) s))
        (sym (raw_stored bs s (omega arith) ∙ ap (λ c. c ++ contents s) whole))
        (switch_to_payload-Keeps (write_at off bs raw) s (omega (arith, n))
          (All-write_at off bs raw (omega arith) k v.2) ok)

  header_stored :
      (b : ℕ) (bs : List ℕ) (s : Incoming)
      → off + length (b ∷ bs) ≤ header_size
      → All IsByte (b ∷ bs)
      → KeepsOr
          (take off raw ++ ((b ∷ bs) ++ contents s))
          (header_received raw off (got (b ∷ bs), s))
  unfolding header_received
  header_stored b bs s h k = elim (Bool-cases (ltb (off + length (b ∷ bs)) header_size)) [
    | inl more ↦ inr (
        rw more (record {
          valid = (
            ground arith,
            omega (arith, length-write_at off (b ∷ bs) raw (omega arith)),
            All-write_at off (b ∷ bs) raw (omega arith) k v.2,
          );
          fits = tt;
          bytes = raw_stored (b ∷ bs) s h;
        }))
    | inr full ↦ elim (Bool-cases (is_invalid_header (write_at off (b ∷ bs) raw))) [
      | inl bad ↦ rw (full, bad) (inl (λ e. cc))
      | inr good ↦ rw (full, good) (switched (b ∷ bs) s (ground arith) k good)
    ]
  ]

  header_received-Keeps :
      (o : Received) (s : Incoming)
      → length (received o) ≤ header_size - off
      → All IsByte (received o)
      → KeepsOr (take off raw ++ (received o ++ contents s)) (header_received raw off (o, s))
  unfolding header_received
  header_received-Keeps (failed e) s h k = elim (Bool-cases (e == Errno.eagain)) [
    | inl idle ↦ inr (rw idle (record { valid = v; fits = tt; bytes = refl }))
    | inr bad ↦ rw bad (inl (λ k. ground arith))
  ]
  header_received-Keeps (got []) s h k = inl (λ e. cc)
  header_received-Keeps (got (b ∷ bs)) s h k = header_stored b bs s (omega arith) k

  receive_header-Keeps :
      (s : Incoming)
      → All IsByte (contents s)
      → KeepsOr (take off raw ++ contents s) (receive_header raw off s)
  unfolding receive_header
  receive_header-Keeps s k =
      let o = posix_recv (header_size - off) s in
      let split = contents-posix_recv (header_size - off) s in
      rw (lt→ltb off header_size v.0) (
        subst (λ c. KeepsOr (take off raw ++ c) (header_received raw off o)) split
          (header_received-Keeps o.0 o.1 (length-posix_recv (header_size - off) s) (
            All-append_left IsByte (received o.0) (contents o.1)
              (subst (All IsByte) (sym split) k))))

receive_part-Keeps :
    (part : MsgPart) (off : ℕ) (s : Incoming)
    → IsValidPart part off
    → All IsByte (contents s)
    → KeepsOr (pending_part part off ++ contents s) (receive_part part off s)
unfolding receive_part
receive_part-Keeps (msg_header raw) off s v k = receive_header-Keeps raw off v s k
receive_part-Keeps (msg_payload size buffer) off s v k =
    rw append_assoc (receive_payload-Keeps size buffer off v s)

-- A call of `receiveData` on a well-formed state, with any script of arrivals, either reports an
-- error or keeps the state well formed and loses and makes up no byte: the taken bytes and those to
-- come are the frame of the payload that was delivered, if one was, with the bytes taken after it
-- and those still to come.
pub receive_data-Keeps :
    (io : IoState) (s : Incoming)
    → IsValid io
    → All IsByte (contents s)
    → ((receive_data io s).result ≢ none) ⊎ Keeps (pending io ++ contents s) (receive_data io s)
unfolding receive_data
receive_data-Keeps io s v k = receive_part-Keeps io.rx_msg_part io.rx_partial_size s v k
