-- ===== src/Io/SocketBuffer.antt =====
-- src/common/io/socket_buffer.hpp: a list of references to payload fragments. A payload is its
-- bytes; a null pointer is the payload with no bytes. Sizes do not reach 2 ^ 64.
use mathlib.Core.List.{flatten}
use ocvsmd.Common.{
  ℕ, ◌+◌, ◌<◌, ◌≡◌, refl, ap, sym, ◌∙◌, Bool, true, false, List, [], ◌∷◌, ◌++◌, arith,
  if◌then◌else◌, length, length-append, All, append-nil, append_assoc,
}

abbrev pub Payload : Type 0
Payload = List ℕ

pub record SocketBuffer : Type 0 where
  pub size : ℕ
  pub payloads : List Payload

abbrev pub empty : SocketBuffer
empty = record { size = 0; payloads = [] }

unfoldable pub is_valid_payload : Payload → Bool
is_valid_payload [] = false
is_valid_payload (b ∷ bs) = true

unfoldable pub prepend : Payload → SocketBuffer → SocketBuffer
unfolding is_valid_payload
prepend p b =
    if is_valid_payload p then record { size = b.size + length p; payloads = p ∷ b.payloads } else b

unfoldable pub append : Payload → SocketBuffer → SocketBuffer
unfolding is_valid_payload
append p b =
    if is_valid_payload p
    then record { size = b.size + length p; payloads = b.payloads ++ p ∷ [] }
    else b

-- The constructor from one payload.
unfoldable pub of_payload : Payload → SocketBuffer
unfolding append
of_payload p = append p empty

-- `IFragmentsVisitor::onNext` for each fragment of a scattered buffer, in its order.
unfoldable pub on_each : List Payload → SocketBuffer → SocketBuffer
unfolding append
on_each [] b = b
on_each (p ∷ ps) b = on_each ps (append p b)

-- The constructor from a scattered buffer.
unfoldable pub of_scattered : List Payload → SocketBuffer
unfolding on_each
of_scattered ps = on_each ps empty

-- The bytes that the buffer stands for.
unfoldable pub bytes : SocketBuffer → List ℕ
bytes b = flatten b.payloads

-- The recorded size is that of the bytes, and no fragment is empty.
pub record IsValid (b : SocketBuffer) : Type 0 where
  pub sized : b.size ≡ length (flatten b.payloads)
  pub solid : All (λ p. 0 < length p) b.payloads

flatten-append : (ps qs : List Payload) → flatten (ps ++ qs) ≡ flatten ps ++ flatten qs
unfolding flatten
flatten-append [] qs = refl
flatten-append (p ∷ ps) qs =
    rw (flatten-append ps qs) (sym (append_assoc p (flatten ps) (flatten qs)))

All-snoc :
    (ps : List Payload) (p : Payload)
    → All (λ q. 0 < length q) ps
    → 0 < length p
    → All (λ q. 0 < length q) (ps ++ p ∷ [])
All-snoc [] p h k = (k, tt)
All-snoc (q ∷ ps) p h k = (h.0, All-snoc ps p h.1 k)

pub bytes-prepend : (p : Payload) (b : SocketBuffer) → bytes (prepend p b) ≡ p ++ bytes b
unfolding bytes prepend flatten
bytes-prepend [] b = refl
bytes-prepend (x ∷ p) b = refl

pub bytes-append : (p : Payload) (b : SocketBuffer) → bytes (append p b) ≡ bytes b ++ p
unfolding bytes append flatten
bytes-append [] b = sym (append-nil (flatten b.payloads))
bytes-append (x ∷ p) b =
    flatten-append b.payloads ((x ∷ p) ∷ [])
    ∙ ap (λ q. flatten b.payloads ++ q) (append-nil (x ∷ p))

pub prepend-IsValid : (p : Payload) (b : SocketBuffer) → IsValid b → IsValid (prepend p b)
unfolding prepend flatten
prepend-IsValid [] b v = v
prepend-IsValid (x ∷ p) b v = record {
  sized = omega (arith, v.sized, length-append (x ∷ p) (flatten b.payloads));
  solid = (omega arith, v.solid);
}

pub append-IsValid : (p : Payload) (b : SocketBuffer) → IsValid b → IsValid (append p b)
unfolding append flatten
append-IsValid [] b v = v
append-IsValid (x ∷ p) b v = record {
  sized = omega (
    arith,
    v.sized,
    ap length (
        flatten-append b.payloads ((x ∷ p) ∷ [])
        ∙ ap (λ q. flatten b.payloads ++ q) (append-nil (x ∷ p))),
    length-append (flatten b.payloads) (x ∷ p),
  );
  solid = All-snoc b.payloads (x ∷ p) v.solid (omega arith);
}

on_each-IsValid : (ps : List Payload) (b : SocketBuffer) → IsValid b → IsValid (on_each ps b)
unfolding on_each
on_each-IsValid [] b v = v
on_each-IsValid (p ∷ ps) b v = on_each-IsValid ps (append p b) (append-IsValid p b v)

bytes-on_each :
    (ps : List Payload) (b : SocketBuffer) → bytes (on_each ps b) ≡ bytes b ++ flatten ps
unfolding on_each flatten
bytes-on_each [] b = sym (append-nil (bytes b))
bytes-on_each (p ∷ ps) b =
    bytes-on_each ps (append p b)
    ∙ ap (λ c. c ++ flatten ps) (bytes-append p b)
    ∙ append_assoc (bytes b) p (flatten ps)

-- A buffer built from the fragments of a scattered buffer is well formed, and holds their bytes in
-- their order, whichever of them are empty.
pub of_scattered_lem :
    (ps : List Payload) → IsValid (of_scattered ps) × (bytes (of_scattered ps) ≡ flatten ps)
unfolding of_scattered bytes flatten
of_scattered_lem ps =
    (on_each-IsValid ps empty (record { sized = refl; solid = tt }), bytes-on_each ps empty)

-- Prepending keeps a buffer well formed and puts the payload's bytes first, also an empty payload.
pub prepend_lem :
    (p : Payload) (b : SocketBuffer)
    → IsValid b
    → IsValid (prepend p b) × (bytes (prepend p b) ≡ p ++ bytes b)
prepend_lem p b v = (prepend-IsValid p b v, bytes-prepend p b)
