-- ===== src/Ipc/Pipe/SocketBase/Stream.antt =====
-- Receiving a whole stream of frames, however the kernel cuts it into pieces.
use ocvsmd.Common.{
  ℕ, zero, suc, ◌+◌, ◌-◌, ◌≤◌, ◌<◌, ◌≡◌, ◌≢◌, refl, sym, ap, ◌∙◌, subst, ◌⊎◌, inl, inr, Option,
  none, some, List, [], ◌∷◌, ◌++◌, arith, take, drop, length, All, length-append, length-take,
  append-inj, append_assoc, append-nil, All-append, All-append_right,
}
use ocvsmd.Error.{OptError}
use ocvsmd.Io.SocketBuffer.{Payload}
use ocvsmd.Io.Posix.{Arrival, Incoming, chunk, fails, ends, contents}
use ocvsmd.Ipc.Pipe.SocketBase.{
  msg_payload_max_size, header_size, u32_at, header_bytes, MsgPart, msg_header, msg_payload,
  IoState, Rx, init, receive_data,
}
use ocvsmd.Ipc.Pipe.SocketBase.Frames.{
  IsByte, Fits, frame, pending, pending_part, IsValid, IsValidPart, framed, FitsOpt, Keeps,
}
use ocvsmd.Ipc.Pipe.SocketBase.Receive.{receive_data-Keeps, length-header_bytes}
use ocvsmd.Ipc.Pipe.SocketBase.Rounds.{GoesWell, IsClean, measure, receive_part-GoesWell, stream}

-- `handleReceive` as long as the socket has something and nothing fails, with the payloads that go
-- out. Each round takes something, so the rounds are bounded by what there is.
pub record Drained : Type 0 where
  pub payloads : List Payload
  pub state : IoState
  pub result : OptError

abbrev pub and_also : Option Payload → List Payload → List Payload
and_also none ps = ps
and_also (some p) ps = p ∷ ps

abbrev pub after_call : OptError → IoState → Option Payload → Drained → Drained
after_call none io d rest = record rest { payloads = and_also d rest.payloads }
after_call (some e) io d rest = record { payloads = []; state = io; result = some e }

unfoldable pub receive_all : ℕ → IoState → Incoming → Drained
receive_all zero io s = record { payloads = []; state = io; result = none }
receive_all (suc fuel) io [] = record { payloads = []; state = io; result = none }
receive_all (suc fuel) io (a ∷ s) =
    let r = receive_data io (a ∷ s) in
    let rest = receive_all fuel r.state r.incoming in after_call r.result r.state r.delivered rest

-- Between two messages.
abbrev pub IsIdle : IoState → Type 0
IsIdle io = pending io ≡ []

size_at : (n : ℕ) → n ≤ msg_payload_max_size → u32_at (drop 4 (header_bytes n)) ≡ n
unfolding header_bytes
size_at n h = omega arith

-- A header says which size it is of.
header_inj :
    (n m : ℕ)
    → n ≤ msg_payload_max_size
    → m ≤ msg_payload_max_size
    → header_bytes n ≡ header_bytes m
    → n ≡ m
header_inj n m h k e = sym (size_at n h) ∙ ap (λ r. u32_at (drop 4 r)) e ∙ size_at m k

same_size :
    (n : ℕ) (xs : List ℕ) (p : Payload) (ps : List Payload)
    → n ≤ msg_payload_max_size
    → Fits p
    → header_bytes n ++ xs ≡ stream (p ∷ ps)
    → (n ≡ length p) × (xs ≡ p ++ stream ps)
same_size n xs p ps h f e =
    let (heads, tails) =
      append-inj (header_bytes n) xs (header_bytes (length p)) (p ++ stream ps)
        (omega (arith, length-header_bytes n, length-header_bytes (length p)))
        (e ∙ append_assoc (header_bytes (length p)) p (stream ps)) in
    (header_inj n (length p) h f.1 heads, tails)

length-stream :
    (p : Payload) (ps : List Payload)
    → length (stream (p ∷ ps)) ≡ header_size + length p + length (stream ps)
length-stream p ps = omega (
  arith,
  length-append (frame p) (stream ps),
  length-append (header_bytes (length p)) p,
  length-header_bytes (length p),
)

-- A state that has taken less than a frame, at the end of a stream of frames, is between frames.
nothing_left :
    (part : MsgPart) (off : ℕ) (ps : List Payload)
    → IsValidPart part off
    → All Fits ps
    → pending_part part off ≡ stream ps
    → (ps ≡ []) × (pending_part part off ≡ [])
nothing_left part off [] v f e = (refl, e)
nothing_left (msg_header raw) off (p ∷ ps) v f e =
    absurd (omega (arith, ap length e, length-stream p ps, length-take off raw))
nothing_left (msg_payload size buffer) off (p ∷ ps) v f e =
    let (n, rest) = same_size size (take off buffer) p ps v.1 f.0 e in
    absurd
      (omega (arith, n, ap length rest, length-append p (stream ps), length-take off buffer, v.0))

-- A frame in front of a stream of frames is the first of them.
first_frame :
    (q : Payload) (rest : List ℕ) (ps : List Payload)
    → Fits q
    → All Fits ps
    → frame q ++ rest ≡ stream ps
    → (qs : List Payload) × (ps ≡ q ∷ qs) × (rest ≡ stream qs)
first_frame q rest [] g f e = absurd (
    omega (
      arith,
      ap length e,
      length-append (frame q) rest,
      length-append (header_bytes (length q)) q,
      g.0,
    ))
first_frame q rest (p ∷ ps) g f e =
    let (n, tails) =
      same_size (length q) (q ++ rest) p ps g.1 f.0
        (sym (append_assoc (header_bytes (length q)) q rest) ∙ e) in
    let (heads, rests) = append-inj q rest p (stream ps) n tails in
    (ps, ap (λ r. r ∷ ps) (sym heads), rests)

-- What is delivered comes off the front of the stream.
peel :
    (d : Option Payload) (rest : List ℕ) (ps : List Payload)
    → FitsOpt d
    → All Fits ps
    → framed d ++ rest ≡ stream ps
    → (qs : List Payload) × (ps ≡ and_also d qs) × All Fits qs × (rest ≡ stream qs)
peel none rest ps g f e = (ps, refl, f, e)
peel (some q) rest ps g f e =
    let (qs, split, rest_eq) = first_frame q rest ps g f e in
    (qs, split, (subst (All Fits) split f).1, rest_eq)

-- What a run should leave: the payloads, no error, and a state between two messages.
pub record Decodes (ps : List Payload) (d : Drained) : Type 0 where
  pub payloads : d.payloads ≡ ps
  pub idle : IsIdle d.state
  pub fine : d.result ≡ none

kept :
    {before : List ℕ} {r : Rx}
    → r.result ≡ none
    → (r.result ≢ none) ⊎ Keeps before r
    → Keeps before r
kept h (inl k) = absurd (k h)
kept h (inr k) = k

module _ (fuel : ℕ)
    (ih : (io : IoState) (s : Incoming) (ps : List Payload)
      → measure s < fuel
      → IsValid io
      → All Fits ps
      → All IsByte (stream ps)
      → IsClean s
      → pending io ++ contents s ≡ stream ps
      → Decodes ps (receive_all fuel io s)) where
  after_round :
      (r : Rx) (before : List ℕ) (ps : List Payload) (m : ℕ)
      → m < fuel
      → GoesWell m r
      → Keeps before r
      → All Fits ps
      → All IsByte (stream ps)
      → before ≡ stream ps
      → let rest = receive_all fuel r.state r.incoming in
        Decodes ps (record rest { payloads = and_also r.delivered rest.payloads })
  after_round r before ps m l g k f b e =
      let whole = sym k.bytes ∙ e in
      let (qs, split, fits, rest) =
        peel r.delivered (pending r.state ++ contents r.incoming) ps k.fits f whole in
      let b' : All IsByte (stream qs) =
        subst (All IsByte) rest
          (All-append_right IsByte (framed r.delivered) _ (subst (All IsByte) (sym whole) b)) in
      let d = ih r.state r.incoming qs (omega (arith, g.left)) k.valid fits b' g.clean rest in
      record {
        payloads = ap (and_also r.delivered) d.payloads ∙ sym split;
        idle = d.idle;
        fine = d.fine;
      }

receive_data-GoesWell :
    (io : IoState) (m : ℕ) (s : Incoming) (ps : List Payload)
    → IsValid io
    → All Fits ps
    → pending io ++ contents s ≡ stream ps
    → IsClean s
    → s ≢ []
    → measure s ≤ suc m
    → GoesWell m (receive_data io s)
unfolding receive_data
receive_data-GoesWell io m s ps v f e k ne l =
    receive_part-GoesWell io.rx_msg_part io.rx_partial_size m s ps v f e k ne l

measure-pos : (a : Arrival) (s : Incoming) → 0 < measure (a ∷ s)
measure-pos (chunk b bs) s = omega arith
measure-pos (fails e) s = omega arith
measure-pos ends s = omega arith

receive_all-Decodes :
    (fuel : ℕ) (io : IoState) (s : Incoming) (ps : List Payload)
    → measure s < fuel
    → IsValid io
    → All Fits ps
    → All IsByte (stream ps)
    → IsClean s
    → pending io ++ contents s ≡ stream ps
    → Decodes ps (receive_all fuel io s)
unfolding receive_all
receive_all-Decodes zero io s ps m v f b k e = elim m [ ]
receive_all-Decodes (suc fuel) io [] ps m v f b k e =
    let (none_left, idle) =
      nothing_left io.rx_msg_part io.rx_partial_size ps v f (sym (append-nil (pending io)) ∙ e) in
    record { payloads = sym none_left; idle = idle; fine = refl }
receive_all-Decodes (suc fuel) io (a ∷ s) ps m v f b k e =
    let g =
      receive_data-GoesWell io (measure (a ∷ s) - 1) (a ∷ s) ps v f e k (λ h. cc) (omega arith) in
    let bytes =
      All-append_right IsByte (pending io) (contents (a ∷ s)) (subst (All IsByte) (sym e) b) in
    let keeps = kept g.fine (receive_data-Keeps io (a ∷ s) v bytes) in
    rw g.fine (
      after_round fuel (receive_all-Decodes fuel) (receive_data io (a ∷ s))
        (pending io ++ contents (a ∷ s)) ps (measure (a ∷ s) - 1) (omega (arith, measure-pos a s)) g
        keeps f b e)

header_bytes-bytes : (n : ℕ) → All IsByte (header_bytes n)
unfolding header_bytes
header_bytes-bytes n = omega arith

stream-bytes : (ps : List Payload) → All (All IsByte) ps → All IsByte (stream ps)
stream-bytes [] h = tt
stream-bytes (p ∷ ps) h =
    All-append IsByte (frame p) (stream ps)
      (All-append IsByte (header_bytes (length p)) p (header_bytes-bytes (length p)) h.0)
      (stream-bytes ps h.1)

-- From a fresh state, any script without failures whose bytes are the frames of some messages, each
-- of 1 to 2 ^ 20 bytes, delivers exactly those messages in their order, reports no error and ends
-- between two messages. This holds however the bytes are cut into pieces, whatever calls are
-- interrupted or find nothing yet, and for any fuel above what the script has.
pub receive_all-stream :
    (ps : List Payload) (s : Incoming) (fuel : ℕ)
    → All Fits ps
    → All (All IsByte) ps
    → IsClean s
    → contents s ≡ stream ps
    → measure s < fuel
    → Decodes ps (receive_all fuel init s)
receive_all-stream ps s fuel f b k e m =
    receive_all-Decodes fuel init s ps m (omega arith, refl, omega arith) f (stream-bytes ps b) k e
