-- ===== src/Tests/Codec.antt =====
-- A serializer of routing messages for the tests: a number for the kind, then the fields. It stands
-- for the generated one, and reads back what it writes.
use ocvsmd.Common.{
  ℕ, zero, suc, ◌≡◌, refl, subst, Bool, true, false, Option, none, some, List, [], ◌∷◌, ◌++◌,
}
use ocvsmd.Common.Int.{ℤ, pos, negsuc}
use ocvsmd.Ipc.Route.{Route, empty, connect, channel_msg, channel_end, Codec, IsFaithful}

abbrev bit : Bool → ℕ
bit false = 0
bit true = 1

abbrev of_bit : ℕ → Bool
of_bit zero = false
of_bit (suc n) = true

abbrev sign : ℤ → ℕ
sign (pos n) = 0
sign (negsuc n) = 1

abbrev size : ℤ → ℕ
size (pos n) = n
size (negsuc n) = n

abbrev of_sign : ℕ → ℕ → ℤ
of_sign zero n = pos n
of_sign (suc k) n = negsuc n

abbrev pub write : Route → List ℕ
write empty = 0 ∷ []
write (connect c) =
    1
    ∷ c.major
    ∷ c.minor
    ∷ c.error.error_code
    ∷ sign c.error.raw_errno
    ∷ size c.error.raw_errno
    ∷ []
write (channel_msg m) = 2 ∷ m.tag ∷ m.sequence ∷ m.service_id ∷ m.payload_size ∷ []
write (channel_end e) =
    3
    ∷ e.tag
    ∷ bit e.keep_alive
    ∷ e.error.error_code
    ∷ sign e.error.raw_errno
    ∷ size e.error.raw_errno
    ∷ []

abbrev read : List ℕ → Option Route
read (zero ∷ rest) = some empty
read (suc zero ∷ major ∷ minor ∷ code ∷ s ∷ n ∷ rest) = some (
    connect (record {
      major = major;
      minor = minor;
      error = record { error_code = code; raw_errno = of_sign s n };
    }))
read (suc (suc zero) ∷ tag ∷ sequence ∷ service_id ∷ payload_size ∷ rest) = some (
    channel_msg (record {
      tag = tag;
      sequence = sequence;
      service_id = service_id;
      payload_size = payload_size;
    }))
read (suc (suc (suc zero)) ∷ tag ∷ b ∷ code ∷ s ∷ n ∷ rest) = some (
    channel_end (record {
      tag = tag;
      keep_alive = of_bit b;
      error = record { error_code = code; raw_errno = of_sign s n };
    }))
read _ = none

abbrev pub codec : Codec
codec = record { serialize = λ r. some (write r); deserialize = read }

of_bit-bit : (b : Bool) → of_bit (bit b) ≡ b
of_bit-bit true = refl
of_bit-bit false = refl

of_sign-sign : (z : ℤ) → of_sign (sign z) (size z) ≡ z
of_sign-sign (pos n) = refl
of_sign-sign (negsuc n) = refl

read-write : (r : Route) (rest : List ℕ) → read (write r ++ rest) ≡ some r
read-write empty rest = refl
read-write (connect c) rest = cc (of_sign-sign c.error.raw_errno)
read-write (channel_msg m) rest = refl
read-write (channel_end e) rest = cc (of_sign-sign e.error.raw_errno, of_bit-bit e.keep_alive)

written : (r : Route) (bs : List ℕ) → codec.serialize r ≡ some bs → write r ≡ bs
written r bs e = cc

pub codec-IsFaithful : IsFaithful codec
codec-IsFaithful = record {
  reads_back =
      λ r bs rest e. subst (λ b. read (b ++ rest) ≡ some r) (written r bs e) (read-write r rest);
}
