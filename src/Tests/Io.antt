-- ===== src/Tests/Io.antt =====
-- src/common/io/socket_buffer.hpp at concrete buffers.
use mathlib.Core.List.{flatten}
use ocvsmd.Common.{◌≡◌, refl, List, [], ◌∷◌, ◌++◌}
use ocvsmd.Io.SocketBuffer.{
  Payload, IsValid, bytes, prepend, of_scattered, of_scattered_lem, prepend_lem,
}

abbrev pieces : List Payload
pieces = (1 ∷ []) ∷ [] ∷ (2 ∷ 3 ∷ []) ∷ []

of_scattered_example :
    IsValid (of_scattered pieces) × (bytes (of_scattered pieces) ≡ flatten pieces)
of_scattered_example = of_scattered_lem pieces

two_fragments : (of_scattered pieces).payloads ≡ (1 ∷ []) ∷ (2 ∷ 3 ∷ []) ∷ []
unfolding of_scattered
two_fragments = refl

prepend_example :
    IsValid (prepend (9 ∷ []) (of_scattered pieces))
    × (bytes (prepend (9 ∷ []) (of_scattered pieces)) ≡ (9 ∷ []) ++ bytes (of_scattered pieces))
prepend_example = prepend_lem (9 ∷ []) (of_scattered pieces) (of_scattered_lem pieces).0
