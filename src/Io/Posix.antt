-- ===== src/Io/Posix.antt =====
-- The system calls of a stream socket, and `posixSyscallError` around them
-- (include/ocvsmd/platform/posix_utils.hpp). The kernel's side is a script: what it has for each
-- next call. A call past the script's end finds no data, and sends all.
use ocvsmd.Common.{
  ℕ, ◌≡◌, refl, ◌≢◌, List, [], ◌∷◌, ◌++◌, arith, ◌==◌, if◌then◌else◌, take, drop, take-append-drop,
  ap, sym, ◌∙◌, append_assoc,
}
use ocvsmd.Error.Errno

-- What the kernel has for a reader: bytes, at least one; an error; or the end of the stream.
pub data Arrival : Type 0 where
  chunk : ℕ → List ℕ → Arrival
  fails : ℕ → Arrival
  ends : Arrival

abbrev pub Incoming : Type 0
Incoming = List Arrival

pub data Received : Type 0 where
  got : List ℕ → Received
  failed : ℕ → Received

-- What is left of a chunk goes back to the front.
abbrev pub put_back : List ℕ → Incoming → Incoming
put_back [] s = s
put_back (b ∷ bs) s = chunk b bs ∷ s

-- `::recv` of at most `n` bytes.
unfoldable pub recv : ℕ → Incoming → Received × Incoming
recv n [] = (failed Errno.eagain, [])
recv n (chunk b bs ∷ s) = (got (take n (b ∷ bs)), put_back (drop n (b ∷ bs)) s)
recv n (fails e ∷ s) = (failed e, s)
recv n (ends ∷ s) = (got [], ends ∷ s)

-- `posixSyscallError` of `::recv`: a call that a signal interrupted is made again.
unfoldable pub posix_recv : ℕ → Incoming → Received × Incoming
unfolding recv
posix_recv n [] = recv n []
posix_recv n (chunk b bs ∷ s) = recv n (chunk b bs ∷ s)
posix_recv n (fails e ∷ s) =
    let again = posix_recv n s in if e == Errno.eintr then again else recv n (fails e ∷ s)
posix_recv n (ends ∷ s) = recv n (ends ∷ s)

-- The bytes that are still to come, up to the end of the stream.
abbrev pub contents : Incoming → List ℕ
contents [] = []
contents (chunk b bs ∷ s) = (b ∷ bs) ++ contents s
contents (fails e ∷ s) = contents s
contents (ends ∷ s) = []

contents-put_back : (bs : List ℕ) (s : Incoming) → contents (put_back bs s) ≡ bs ++ contents s
contents-put_back [] s = refl
contents-put_back (b ∷ bs) s = refl

abbrev pub received : Received → List ℕ
received (got bs) = bs
received (failed e) = []

-- Receiving takes the bytes from the front of the stream and loses none.
pub contents-posix_recv :
    (n : ℕ) (s : Incoming) → received (posix_recv n s).0 ++ contents (posix_recv n s).1 ≡ contents s
unfolding posix_recv
contents-posix_recv n [] = refl
contents-posix_recv n (chunk b bs ∷ s) =
    ap (λ c. take n (b ∷ bs) ++ c) (contents-put_back (drop n (b ∷ bs)) s)
    ∙ sym (append_assoc (take n (b ∷ bs)) (drop n (b ∷ bs)) (contents s))
    ∙ ap (λ c. c ++ contents s) (take-append-drop n (b ∷ bs))
contents-posix_recv n (fails e ∷ s) = ground (arith, contents-posix_recv n s)
contents-posix_recv n (ends ∷ s) = refl

-- An interrupted call is never reported.
pub posix_recv-ne-eintr : (n : ℕ) (s : Incoming) → (posix_recv n s).0 ≢ failed Errno.eintr
unfolding posix_recv
posix_recv-ne-eintr n [] h = cc
posix_recv-ne-eintr n (chunk b bs ∷ s) h = cc
posix_recv-ne-eintr n (fails e ∷ s) h = ground (arith, posix_recv-ne-eintr n s)
posix_recv-ne-eintr n (ends ∷ s) h = cc

-- What the kernel does with a writer's next call.
pub data Acceptance : Type 0 where
  accepts : ℕ → Acceptance
  rejects : ℕ → Acceptance

-- A writer's socket: the answers to its next calls, and the bytes that the kernel has taken.
pub record Outgoing : Type 0 where
  pub script : List Acceptance
  pub stream : List ℕ

abbrev pub take_in : List ℕ → List Acceptance → Outgoing → Outgoing
take_in bs rest w = record { script = rest; stream = w.stream ++ bs }

-- `posixSyscallError` of `::send`: zero, or the error number. The count that `::send` returns is
-- only compared with zero.
unfoldable pub posix_send : List ℕ → List Acceptance → List ℕ → ℕ × Outgoing
posix_send p [] out = (0, record { script = []; stream = out ++ p })
posix_send p (accepts n ∷ s) out = (0, record { script = s; stream = out ++ take n p })
posix_send p (rejects e ∷ s) out =
    let again = posix_send p s out in
    if e == Errno.eintr then again else (e, record { script = s; stream = out })
