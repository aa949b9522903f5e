-- ===== src/Ipc/Pipe/SocketBase/Rounds.antt =====
-- One call of `receiveData` on a script in which nothing goes wrong
-- (src/common/ipc/pipe/socket_base.cpp).
use ocvsmd.Common.{
  ℕ, zero, suc, ◌+◌, ◌-◌, ◌≤◌, ◌<◌, ◌≡◌, ◌≢◌, refl, sym, ap, ◌∙◌, ◌⊎◌, inl, inr, false, none, List,
  [], ◌∷◌, ◌++◌, arith, ltb, take, drop, length, All, length-append, length-drop, append-inj,
  take-of_length-le, append_assoc, Bool-cases, lt→ltb,
}
use ocvsmd.Error.Errno
use ocvsmd.Io.SocketBuffer.{Payload}
use ocvsmd.Io.Posix.{
  Incoming, chunk, fails, ends, Received, got, failed, posix_recv, contents, received,
  contents-posix_recv, put_back,
}
use ocvsmd.Ipc.Pipe.SocketBase.{
  msg_payload_max_size, header_size, u32_at, header_bytes, MsgPart, msg_header, msg_payload, Rx,
  write_at, is_invalid_header, payload_received, receive_payload, switch_to_payload,
  header_received, receive_header, receive_part,
}
use ocvsmd.Ipc.Pipe.SocketBase.Frames.{
  Fits, frame, pending_part, IsValidPart, length-posix_recv, length-write_at, take-write_at,
}
use ocvsmd.Ipc.Pipe.SocketBase.Receive.{length-header_bytes}

-- The bytes of a sequence of messages.
abbrev pub stream : List Payload → List ℕ
stream [] = []
stream (p ∷ ps) = frame p ++ stream ps

-- A script in which nothing goes wrong: pieces of any size, calls that a signal interrupts, and
-- calls that find nothing yet.
abbrev pub IsClean : Incoming → Type 0
IsClean [] = Unit
IsClean (chunk b bs ∷ s) = IsClean s
IsClean (fails e ∷ s) = ((e ≡ Errno.eintr) ⊎ (e ≡ Errno.eagain)) × IsClean s
IsClean (ends ∷ s) = ⊥

-- How much a script has left.
abbrev pub measure : Incoming → ℕ
measure [] = 0
measure (chunk b bs ∷ s) = suc (length bs) + measure s
measure (fails e ∷ s) = suc (measure s)
measure (ends ∷ s) = suc (measure s)

measure-put_back : (bs : List ℕ) (s : Incoming) → measure (put_back bs s) ≡ length bs + measure s
measure-put_back [] s = omega arith
measure-put_back (b ∷ bs) s = refl

IsClean-put_back : (bs : List ℕ) (s : Incoming) → IsClean s → IsClean (put_back bs s)
IsClean-put_back [] s h = h
IsClean-put_back (b ∷ bs) s h = h

-- What a clean script answers: some bytes, or nothing yet.
abbrev IsReady : Received → Type 0
IsReady (got []) = ⊥
IsReady (got (b ∷ bs)) = Unit
IsReady (failed e) = e ≡ Errno.eagain

posix_recv-IsReady : (n : ℕ) (s : Incoming) → IsClean s → IsReady (posix_recv (suc n) s).0
unfolding posix_recv
posix_recv-IsReady n [] h = refl
posix_recv-IsReady n (chunk b bs ∷ s) h = tt
posix_recv-IsReady n (fails e ∷ s) (inl p, h) = rw p (posix_recv-IsReady n s h)
posix_recv-IsReady n (fails e ∷ s) (inr p, h) = rw p refl
posix_recv-IsReady n (ends ∷ s) h = absurd h

posix_recv-IsClean : (n : ℕ) (s : Incoming) → IsClean s → IsClean (posix_recv n s).1
unfolding posix_recv
posix_recv-IsClean n [] h = tt
posix_recv-IsClean n (chunk b bs ∷ s) h = IsClean-put_back (drop n (b ∷ bs)) s h
posix_recv-IsClean n (fails e ∷ s) (inl p, h) = rw p (posix_recv-IsClean n s h)
posix_recv-IsClean n (fails e ∷ s) (inr p, h) = rw p h
posix_recv-IsClean n (ends ∷ s) h = absurd h

measure-posix_recv-le : (n : ℕ) (s : Incoming) → measure (posix_recv n s).1 ≤ measure s
unfolding posix_recv
measure-posix_recv-le n [] = omega arith
measure-posix_recv-le n (chunk b bs ∷ s) =
    omega (arith, measure-put_back (drop n (b ∷ bs)) s, length-drop n (b ∷ bs))
measure-posix_recv-le n (fails e ∷ s) = ground (arith, measure-posix_recv-le n s)
measure-posix_recv-le n (ends ∷ s) = omega arith

measure-posix_recv-lt :
    (n : ℕ) (s : Incoming) → IsClean s → s ≢ [] → measure (posix_recv (suc n) s).1 < measure s
unfolding posix_recv
measure-posix_recv-lt n [] h k = absurd (k refl)
measure-posix_recv-lt n (chunk b bs ∷ s) h k =
    omega (arith, measure-put_back (drop n bs) s, length-drop n bs)
measure-posix_recv-lt n (fails e ∷ s) h k = ground (arith, measure-posix_recv-le (suc n) s)
measure-posix_recv-lt n (ends ∷ s) h k = absurd h

-- A call that goes well: no error, and a clean script with at most `m` left.
pub record GoesWell (m : ℕ) (r : Rx) : Type 0 where
  pub fine : r.result ≡ none
  pub clean : IsClean r.incoming
  pub left : measure r.incoming ≤ m

payload_received-GoesWell :
    (size : ℕ) (buffer : List ℕ) (off m : ℕ) (o : Received) (s : Incoming)
    → IsReady o
    → IsClean s
    → measure s ≤ m
    → GoesWell m (payload_received size buffer off (o, s))
unfolding payload_received
payload_received-GoesWell size buffer off m (failed e) s h k l =
    rw h (record { fine = refl; clean = k; left = l })
payload_received-GoesWell size buffer off m (got []) s h k l = absurd h
payload_received-GoesWell size buffer off m (got (b ∷ bs)) s h k l =
    elim (Bool-cases (ltb (off + length (b ∷ bs)) size)) [
      | inl more ↦ rw more (record { fine = refl; clean = k; left = l })
      | inr full ↦ rw full (record { fine = refl; clean = k; left = l })
    ]

-- The three facts for a call that asks for at least one byte.
module _ (s : Incoming) (h : IsClean s) where
  ready : (n : ℕ) → 0 < n → IsReady (posix_recv n s).0
  ready zero k = elim k [ ]
  ready (suc n) k = posix_recv-IsReady n s h

  shrinks : (n : ℕ) → 0 < n → s ≢ [] → suc (measure (posix_recv n s).1) ≤ measure s
  shrinks zero k l = elim k [ ]
  shrinks (suc n) k l = measure-posix_recv-lt n s h l

receive_payload-GoesWell :
    (size : ℕ) (buffer : List ℕ) (off m : ℕ) (s : Incoming)
    → off < size
    → IsClean s
    → measure (posix_recv (size - off) s).1 ≤ m
    → GoesWell m (receive_payload size buffer off s)
unfolding receive_payload
receive_payload-GoesWell size buffer off m s v h l =
    let o = posix_recv (size - off) s in
    rw (lt→ltb off size v) (
      payload_received-GoesWell size buffer off m o.0 o.1 (ready s h (size - off) (omega arith))
        (posix_recv-IsClean (size - off) s h) l)

-- The header that `send` writes passes the checks.
header_bytes-valid :
    (n : ℕ) → 1 ≤ n → n ≤ msg_payload_max_size → is_invalid_header (header_bytes n) ≡ false
unfolding header_bytes
header_bytes-valid n low high = ground arith

-- A complete header in front of a stream of frames passes the checks.
front_valid :
    (raw rest : List ℕ) (ps : List Payload)
    → length raw ≡ header_size
    → All Fits ps
    → raw ++ rest ≡ stream ps
    → is_invalid_header raw ≡ false
front_valid raw rest [] n f e = absurd (omega (arith, ap length e, length-append raw rest))
front_valid raw rest (p ∷ ps) n f e =
    let same =
      append-inj raw rest (header_bytes (length p)) (p ++ stream ps)
        (omega (arith, length-header_bytes (length p)))
        (e ∙ append_assoc (header_bytes (length p)) p (stream ps)) in
    rw (same.0) (header_bytes-valid (length p) f.0.0 f.0.1)

switch_to_payload-GoesWell :
    (raw : List ℕ) (m : ℕ) (s : Incoming)
    → is_invalid_header raw ≡ false
    → IsClean s
    → measure s ≤ m
    → GoesWell m (switch_to_payload raw s)
unfolding switch_to_payload
switch_to_payload-GoesWell raw m s ok h l =
    receive_payload-GoesWell (u32_at (drop 4 raw)) _ 0 m s (ground arith) h
      (omega (arith, measure-posix_recv-le (u32_at (drop 4 raw) - 0) s))

module _ (raw : List ℕ) (off m : ℕ) (v : IsValidPart (msg_header raw) off) (ps : List Payload)
    (f : All Fits ps) where
  header_stored-GoesWell :
      (b : ℕ) (bs : List ℕ) (s : Incoming)
      → off + length (b ∷ bs) ≤ header_size
      → take off raw ++ ((b ∷ bs) ++ contents s) ≡ stream ps
      → IsClean s
      → measure s ≤ m
      → GoesWell m (header_received raw off (got (b ∷ bs), s))
  unfolding header_received
  header_stored-GoesWell b bs s h e k l =
      elim (Bool-cases (ltb (off + length (b ∷ bs)) header_size)) [
        | inl more ↦ rw more (record { fine = refl; clean = k; left = l })
        | inr full ↦
            let n = length-write_at off (b ∷ bs) raw (omega arith) in
            let top : off + length (b ∷ bs) ≡ header_size = ground arith in
            let whole =
              take-of_length-le (off + length (b ∷ bs)) (write_at off (b ∷ bs) raw)
                (omega (arith, n)) in
            let same : write_at off (b ∷ bs) raw ≡ take off raw ++ b ∷ bs =
              sym whole ∙ take-write_at off (b ∷ bs) raw (omega arith) in
            let ok : is_invalid_header (write_at off (b ∷ bs) raw) ≡ false =
              front_valid _ (contents s) ps (omega (arith, n)) f (
                ap (λ c. c ++ contents s) same
                ∙ append_assoc (take off raw) (b ∷ bs) (contents s)
                ∙ e) in
            rw (full, ok) (switch_to_payload-GoesWell (write_at off (b ∷ bs) raw) m s ok k l)
      ]

  header_received-GoesWell :
      (o : Received) (s : Incoming)
      → length (received o) ≤ header_size - off
      → take off raw ++ (received o ++ contents s) ≡ stream ps
      → IsReady o
      → IsClean s
      → measure s ≤ m
      → GoesWell m (header_received raw off (o, s))
  unfolding header_received
  header_received-GoesWell (failed e) s n q h k l =
      rw h (record { fine = refl; clean = k; left = l })
  header_received-GoesWell (got []) s n q h k l = absurd h
  header_received-GoesWell (got (b ∷ bs)) s n q h k l =
      header_stored-GoesWell b bs s (omega arith) q k l

  receive_header-GoesWell :
      (s : Incoming)
      → take off raw ++ contents s ≡ stream ps
      → IsClean s
      → measure (posix_recv (header_size - off) s).1 ≤ m
      → GoesWell m (receive_header raw off s)
  unfolding receive_header
  receive_header-GoesWell s e k l =
      let n = header_size - off in
      let o = posix_recv n s in
      rw (lt→ltb off header_size v.0) (
        header_received-GoesWell o.0 o.1 (length-posix_recv n s)
          (ap (λ c. take off raw ++ c) (contents-posix_recv n s) ∙ e) (ready s k n (omega arith))
          (posix_recv-IsClean n s k) l)

pub receive_part-GoesWell :
    (part : MsgPart) (off m : ℕ) (s : Incoming) (ps : List Payload)
    → IsValidPart part off
    → All Fits ps
    → pending_part part off ++ contents s ≡ stream ps
    → IsClean s
    → s ≢ []
    → measure s ≤ suc m
    → GoesWell m (receive_part part off s)
unfolding receive_part
receive_part-GoesWell (msg_header raw) off m s ps v f e k ne l =
    receive_header-GoesWell raw off m v ps f s e k
      (omega (arith, shrinks s k (header_size - off) (omega arith) ne))
receive_part-GoesWell (msg_payload size buffer) off m s ps v f e k ne l =
    receive_payload-GoesWell size buffer off m s v.0 k
      (omega (arith, shrinks s k (size - off) (omega arith) ne))
