-- ===== src/Error/RoundTrip.antt =====
-- What survives the trip of an error through the DSDL record (src/common/common_helpers.hpp).
use ocvsmd.Common.{ℕ, zero, suc, ◌<◌, ◌≡◌, refl, ◌≢◌, Option, none, some, arith, ◌↔◌}
use ocvsmd.Common.Int.{ℤ, pos, negsuc}
use ocvsmd.Error.{
  Code, unlisted, raw_code, code_of, Error, OptError, errno_code, errno_to_error, DsdlError,
  dsdl_error_to_opt_error, opt_error_to_dsdl_error,
}

-- A code that the wire can tell from success and from the listed codes.
abbrev pub IsWireCode : Code → Type 0
IsWireCode (unlisted n) = 12 < n
IsWireCode _ = Unit

-- An `errno` that is given is not zero.
abbrev pub IsWireErrno : Option ℤ → Type 0
IsWireErrno none = Unit
IsWireErrno (some e) = e ≢ pos 0

pub record IsWire (e : Error) : Type 0 where
  pub code : IsWireCode e.code
  pub errno : IsWireErrno e.opt_errno

abbrev pub IsWireOpt : OptError → Type 0
IsWireOpt none = Unit
IsWireOpt (some e) = IsWire e

pub code_of-raw_code : (c : Code) → IsWireCode c → code_of (raw_code c) ≡ c
unfolding code_of raw_code
code_of-raw_code (unlisted n) h = ground arith
code_of-raw_code _ h = refl

raw_code-ne-zero : (c : Code) → IsWireCode c → raw_code c ≢ 0
unfolding raw_code
raw_code-ne-zero (unlisted n) h = omega arith
raw_code-ne-zero _ h = omega arith

wire_trip :
    (c : Code) (e : Option ℤ)
    → IsWireCode c
    → IsWireErrno e
    → dsdl_error_to_opt_error (opt_error_to_dsdl_error (some (record { code = c; opt_errno = e })))
      ≡ some (record { code = c; opt_errno = e })
unfolding dsdl_error_to_opt_error opt_error_to_dsdl_error
wire_trip c none h k = ground (arith, code_of-raw_code c h, raw_code-ne-zero c h)
wire_trip c (some (pos zero)) h k = absurd (k refl)
wire_trip c (some (pos (suc n))) h k = ground (arith, code_of-raw_code c h, raw_code-ne-zero c h)
wire_trip c (some (negsuc n)) h k = ground (arith, code_of-raw_code c h, raw_code-ne-zero c h)

-- An optional error that is success, or has a code other than those that the wire would confuse
-- (zero, or an unnamed one that collides) and no zero `errno`, survives the conversion to the DSDL
-- record and back unchanged.
pub dsdl_error_to_opt_error-opt_error_to_dsdl_error :
    (o : OptError) → IsWireOpt o → dsdl_error_to_opt_error (opt_error_to_dsdl_error o) ≡ o
unfolding dsdl_error_to_opt_error opt_error_to_dsdl_error
dsdl_error_to_opt_error-opt_error_to_dsdl_error none h = refl
dsdl_error_to_opt_error-opt_error_to_dsdl_error (some e) h =
    wire_trip e.code e.opt_errno h.code h.errno

errno_code-IsWireCode : (n : ℕ) → IsWireCode (errno_code n)
unfolding errno_code
errno_code-IsWireCode n = ground arith

-- An error made from a positive `errno` survives the wire, with that `errno` attached.
pub errno_to_error-IsWire : (n : ℕ) → 0 < n → IsWire (errno_to_error n)
unfolding errno_to_error
errno_to_error-IsWire zero h = elim h [ ]
errno_to_error-IsWire (suc n) h = record { code = errno_code-IsWireCode (suc n); errno = λ e. cc }

-- A record reads as success exactly when its error code is zero, whatever its `errno`.
pub opt_error-eq-none_iff :
    (d : DsdlError) → (dsdl_error_to_opt_error d ≡ none) ↔ (d.error_code ≡ 0)
unfolding dsdl_error_to_opt_error
opt_error-eq-none_iff d = ground arith
