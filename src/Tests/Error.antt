-- ===== src/Tests/Error.antt =====
-- src/common/common_helpers.hpp at concrete errors.
use ocvsmd.Common.{◌≡◌, refl, some, none}
use ocvsmd.Common.Int.{pos, negsuc}
use ocvsmd.Error.{
  OptError, canceled, timed_out, errno_to_error, dsdl_error_to_opt_error, opt_error_to_dsdl_error,
}
use ocvsmd.Error.RoundTrip.{dsdl_error_to_opt_error-opt_error_to_dsdl_error}

abbrev late : OptError
late = some (record { code = canceled; opt_errno = some (negsuc 3) })

etimedout_code : (errno_to_error 110).code ≡ timed_out
unfolding errno_to_error
etimedout_code = refl

-- An explicit zero `errno` is lost on the wire.
zero_errno_lost :
    dsdl_error_to_opt_error
      (opt_error_to_dsdl_error (some (record { code = canceled; opt_errno = some (pos 0) })))
    ≡ some (record { code = canceled; opt_errno = none })
unfolding dsdl_error_to_opt_error opt_error_to_dsdl_error
zero_errno_lost = refl

dsdl_error_example : dsdl_error_to_opt_error (opt_error_to_dsdl_error late) ≡ late
dsdl_error_example =
    dsdl_error_to_opt_error-opt_error_to_dsdl_error late (record { code = tt; errno = λ e. cc })
