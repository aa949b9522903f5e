-- ===== src/Daemon/CyError.antt =====
-- The failures of the Cyphal presentation layer as errors of the SDK
-- (src/daemon/engine/engine_helpers.hpp). The failures are the third-party types that are converted.
use ocvsmd.Common.{ℕ, some}
use ocvsmd.Error.{
  Error, OptError, error, errno_to_error, out_of_memory, invalid_argument, already_exists,
  timed_out, busy,
}

pub data CyError : Type 0 where
  memory capacity argument anonymous serialization exists expired too_many_pending : CyError
  platform : ℕ → CyError

unfoldable pub cy_error_to_sdk_error : CyError → Error
cy_error_to_sdk_error memory = error out_of_memory
cy_error_to_sdk_error capacity = error out_of_memory
cy_error_to_sdk_error argument = error invalid_argument
cy_error_to_sdk_error anonymous = error invalid_argument
cy_error_to_sdk_error serialization = error invalid_argument
cy_error_to_sdk_error exists = error already_exists
cy_error_to_sdk_error (platform code) = errno_to_error code
cy_error_to_sdk_error expired = error timed_out
cy_error_to_sdk_error too_many_pending = error busy

abbrev pub cy_failure_to_opt_error : CyError → OptError
cy_failure_to_opt_error failure = some (cy_error_to_sdk_error failure)

-- The outcome of a call into the presentation layer.
pub data Outcome : Type 0 where
  success : Outcome
  failure : CyError → Outcome
