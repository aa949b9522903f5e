-- ===== src/Error.antt =====
-- The SDK error type (include/ocvsmd/sdk/defines.hpp) and its conversions from `errno` values and
-- to and from the DSDL `Error.0.1` record (src/common/common_helpers.hpp). The `errno` constants are
-- those of Linux.
pub mod Errno
pub mod RoundTrip
use ocvsmd.Common.{ℕ, suc, Bool, true, false, Option, none, some, ◌==◌, if◌then◌else◌}
use ocvsmd.Common.Int.{ℤ, pos, is_zero}

-- `enum class Code : std::uint32_t`; a value cast from the wire that names no code is `unlisted`.
pub data Code : Type 0 where
  other busy no_entry canceled timed_out shutdown out_of_memory disconnected : Code
  not_connected already_exists invalid_argument operation_in_progress : Code
  unlisted : ℕ → Code

-- The raw value of a code.
unfoldable pub raw_code : Code → ℕ
raw_code other = 1
raw_code busy = 2
raw_code no_entry = 3
raw_code canceled = 4
raw_code timed_out = 5
raw_code shutdown = 6
raw_code out_of_memory = 7
raw_code disconnected = 8
raw_code not_connected = 9
raw_code already_exists = 10
raw_code invalid_argument = 11
raw_code operation_in_progress = 12
raw_code (unlisted n) = n

-- `static_cast<Error::Code>`
unfoldable pub code_of : ℕ → Code
code_of n =
    if n == 1
    then other
    else if n == 2
    then busy
    else if n == 3
    then no_entry
    else if n == 4
    then canceled
    else if n == 5
    then timed_out
    else if n == 6
    then shutdown
    else if n == 7
    then out_of_memory
    else if n == 8
    then disconnected
    else if n == 9
    then not_connected
    else if n == 10
    then already_exists
    else if n == 11
    then invalid_argument
    else if n == 12
    then operation_in_progress
    else unlisted n

pub record Error : Type 0 where
  pub code : Code
  pub opt_errno : Option ℤ

-- `nullopt` is success.
abbrev pub OptError : Type 0
OptError = Option Error

-- `Error{code}`
abbrev pub error : Code → Error
error c = record { code = c; opt_errno = none }

-- `operator==` of `Error`: the codes alone.
unfoldable pub error_eq : Error → Error → Bool
unfolding raw_code
error_eq lhs rhs = raw_code lhs.code == raw_code rhs.code

-- The code that `errnoToError` selects.
unfoldable pub errno_code : ℕ → Code
errno_code e =
    if e == Errno.ebusy
    then busy
    else if e == Errno.enoent
    then no_entry
    else if e == Errno.etimedout
    then timed_out
    else if e == Errno.enomem
    then out_of_memory
    else if e == Errno.eexist
    then already_exists
    else if e == Errno.einval
    then invalid_argument
    else if e == Errno.ecanceled
    then canceled
    else if e == Errno.enotconn
    then not_connected
    else if e == Errno.econnreset
    then disconnected
    else if e == Errno.eshutdown
    then shutdown
    else if e == Errno.einprogress
    then operation_in_progress
    else other

unfoldable pub errno_to_error : ℕ → Error
unfolding errno_code
errno_to_error e = record { code = errno_code e; opt_errno = some (pos e) }

-- `Error.0.1`: `uint32 error_code`, `int32 raw_errno`.
pub record DsdlError : Type 0 where
  pub error_code : ℕ
  pub raw_errno : ℤ

unfoldable pub dsdl_error_to_opt_error : DsdlError → OptError
unfolding code_of
dsdl_error_to_opt_error d =
    if d.error_code == 0
    then none
    else if is_zero d.raw_errno
    then some (error (code_of d.error_code))
    else some (record { code = code_of d.error_code; opt_errno = some d.raw_errno })

abbrev value_or_zero : Option ℤ → ℤ
value_or_zero none = pos 0
value_or_zero (some e) = e

unfoldable pub opt_error_to_dsdl_error : OptError → DsdlError
unfolding raw_code
opt_error_to_dsdl_error none = record { error_code = 0; raw_errno = pos 0 }
opt_error_to_dsdl_error (some e) = record {
  error_code = raw_code e.code;
  raw_errno = value_or_zero e.opt_errno;
}
