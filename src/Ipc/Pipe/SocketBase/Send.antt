-- ===== src/Ipc/Pipe/SocketBase/Send.antt =====
-- `SocketBase::send`: what a willing kernel gets, and what a short write does.
use mathlib.Core.List.{flatten}
use ocvsmd.Common.{
  ℕ, suc, ◌+◌, ◌≤◌, ◌<◌, ◌%◌, ◌≡◌, refl, sym, ap, ◌∙◌, subst, none, List, [], ◌∷◌, ◌++◌, arith,
  take, length, All, length-append, length-take, take-of_length-le, append_assoc, append-nil,
}
use ocvsmd.Error.{OptError}
use ocvsmd.Error.Errno
use ocvsmd.Io.SocketBuffer
use ocvsmd.Io.SocketBuffer.{Payload, SocketBuffer, bytes, prepend, bytes-prepend, of_payload}
use ocvsmd.Io.Posix.{Acceptance, accepts, rejects, Outgoing, posix_send, Incoming, contents}
use ocvsmd.Ipc.Pipe.SocketBase.{
  u32_mod, header_size, header_bytes, after_send, send_fragments, send, unless_failed, init,
}
use ocvsmd.Ipc.Pipe.SocketBase.Frames.{frame, Fits, IsByte}
use ocvsmd.Ipc.Pipe.SocketBase.Receive.{length-header_bytes}
use ocvsmd.Ipc.Pipe.SocketBase.Rounds.{IsClean, measure}
use ocvsmd.Ipc.Pipe.SocketBase.Stream.{Decodes, receive_all, receive_all-stream}

-- A kernel that takes up to `n` bytes in each call, and may be interrupted.
abbrev pub IsWilling : ℕ → List Acceptance → Type 0
IsWilling n [] = Unit
IsWilling n (accepts k ∷ s) = (n ≤ k) × IsWilling n s
IsWilling n (rejects e ∷ s) = (e ≡ Errno.eintr) × IsWilling n s

record Took (n : ℕ) (out : List ℕ) (r : ℕ × Outgoing) : Type 0 where
  fine : r.0 ≡ 0
  stream : r.1.stream ≡ out
  willing : IsWilling n r.1.script

posix_send-Took :
    (n : ℕ) (p : Payload) (script : List Acceptance) (out : List ℕ)
    → length p ≤ n
    → IsWilling n script
    → Took n (out ++ p) (posix_send p script out)
unfolding posix_send
posix_send-Took n p [] out h w = record { fine = refl; stream = refl; willing = tt }
posix_send-Took n p (accepts k ∷ s) out h w = record {
  fine = refl;
  stream = ap (λ c. out ++ c) (take-of_length-le k p (omega (arith, w.0)));
  willing = w.1;
}
posix_send-Took n p (rejects e ∷ s) out h w = rw (w.0) (posix_send-Took n p s out h w.1)

record Wrote (n : ℕ) (out : List ℕ) (r : OptError × Outgoing) : Type 0 where
  fine : r.0 ≡ none
  stream : r.1.stream ≡ out
  willing : IsWilling n r.1.script

abbrev AllFit : ℕ → List Payload → Type 0
AllFit n = All (λ p. length p ≤ n)

send_fragments-Wrote :
    (n : ℕ) (ps : List Payload) (script : List Acceptance) (out : List ℕ)
    → AllFit n ps
    → IsWilling n script
    → Wrote n (out ++ flatten ps) (send_fragments ps script out)
unfolding send_fragments flatten
send_fragments-Wrote n [] script out h w = record {
  fine = refl;
  stream = sym (append-nil out);
  willing = w;
}
send_fragments-Wrote n (p ∷ ps) script out h w =
    let r = posix_send p script out in
    let t = posix_send-Took n p script out h.0 w in
    let rest = send_fragments-Wrote n ps r.1.script r.1.stream h.1 t.willing in
    let same : r.1.stream ++ flatten ps ≡ out ++ (p ++ flatten ps) =
      ap (λ c. c ++ flatten ps) t.stream ∙ append_assoc out p (flatten ps) in
    subst
      (λ e.
        Wrote n (out ++ (p ++ flatten ps))
          (unless_failed (after_send e) r.1 (send_fragments ps r.1.script r.1.stream)))
      (sym t.fine) (subst (λ o. Wrote n o (send_fragments ps r.1.script r.1.stream)) same rest)

length-fragment : (ps : List Payload) → AllFit (length (flatten ps)) ps
unfolding flatten
length-fragment [] = tt
length-fragment (p ∷ ps) = (
  omega (arith, length-append p (flatten ps)),
  widen ps (omega (arith, length-append p (flatten ps))) (length-fragment ps),
)
  where
    widen :
        (qs : List Payload)
        → length (flatten ps) ≤ length (p ++ flatten ps)
        → AllFit (length (flatten ps)) qs
        → AllFit (length (p ++ flatten ps)) qs
    widen [] h k = tt
    widen (q ∷ qs) h k = (omega arith, widen qs h k.1)

-- On a kernel that takes the whole of each fragment, interrupted or not, `send` succeeds, and the
-- stream has grown by exactly the frame of the buffer's bytes: the header of their size, and they.
pub send-frame :
    (w : Outgoing) (b : SocketBuffer)
    → SocketBuffer.IsValid b
    → b.size < u32_mod
    → IsWilling (header_size + b.size) w.script
    → ((send w b).result ≡ none)
      × ((send w b).outgoing.stream ≡ w.stream ++ frame (bytes b))
      × IsWilling (header_size + b.size) (send w b).outgoing.script
unfolding send bytes
send-frame w b v h k =
    let hb = header_bytes (b.size % u32_mod) in
    let e : b.size % u32_mod ≡ b.size = omega arith in
    let whole = bytes-prepend hb b in
    let total : length (flatten (prepend hb b).payloads) ≡ header_size + b.size = omega (
      arith,
      ap length whole,
      length-append hb (bytes b),
      length-header_bytes (b.size % u32_mod),
      v.sized,
    ) in
    let wrote =
      send_fragments-Wrote (header_size + b.size) (prepend hb b).payloads w.script w.stream
        (subst (λ n. AllFit n (prepend hb b).payloads) total
          (length-fragment (prepend hb b).payloads))
        k in
    let framed_eq : hb ++ bytes b ≡ frame (bytes b) =
      ap (λ n. header_bytes n ++ bytes b) (e ∙ v.sized) in
    (wrote.fine, wrote.stream ∙ ap (λ c. w.stream ++ c) (whole ∙ framed_eq), wrote.willing)

-- The whole way: a payload sent from an empty stream by a willing kernel, and received from it by
-- a script without failures, in whatever pieces, comes out once and unchanged.
pub send-receive_all :
    (p : Payload) (script : List Acceptance) (s : Incoming) (fuel : ℕ)
    → Fits p
    → All IsByte p
    → IsWilling (header_size + length p) script
    → IsClean s
    → contents s ≡ (send (record { script = script; stream = [] }) (of_payload p)).outgoing.stream
    → measure s < fuel
    → Decodes (p ∷ []) (receive_all fuel init s)
unfolding of_payload bytes flatten
send-receive_all [] script s fuel f b k c e m = elim (f.0) [ ]
send-receive_all (x ∷ p) script s fuel f b k c e m =
    let whole = ap length (append-nil (x ∷ p)) in
    let sent =
      send-frame (record { script = script; stream = [] }) (of_payload (x ∷ p))
        (record { sized = omega (arith, whole); solid = (omega arith, tt) }) (omega arith)
        (subst (λ n. IsWilling n script) (omega arith) k) in
    receive_all-stream ((x ∷ p) ∷ []) s fuel (f, tt) (b, tt) c
      (e ∙ sent.1 ∙ ap frame (append-nil (x ∷ p)) ∙ sym (append-nil (frame (x ∷ p)))) m

-- A short write is taken for a whole one: when the kernel takes the header and only the first `k`
-- bytes of the payload, `send` reports success, and the stream holds a frame that is cut short.
pub send_short_write :
    (p : Payload) (k : ℕ)
    → Fits p
    → k < length p
    → let t =
        send
          (record { script = accepts header_size ∷ accepts k ∷ []; stream = [] })
          (of_payload p) in
      (t.result ≡ none)
      × (t.outgoing.stream ≡ header_bytes (length p) ++ take k p)
      × (length t.outgoing.stream < length (frame p))
unfolding send of_payload posix_send header_bytes prepend
send_short_write [] k f h = elim (f.0) [ ]
send_short_write (x ∷ p) k f h =
    let e : (0 + suc (length p)) % u32_mod ≡ suc (length p) = omega arith in
    rw e (refl, refl, omega (arith, length-take k (x ∷ p)))
