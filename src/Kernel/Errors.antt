-- ===== src/Kernel/Errors.antt =====
-- p2/rtos/kernel/kernel_errors.c: the names of the errors.
use Prim.Native.String.{String}
use ez_rtos.Kernel.Types.{ErrorCode}

unfoldable pub error_tostring : ErrorCode → String
error_tostring ErrorCode.no_err = "NO_ERR"
error_tostring ErrorCode.invalid_arg_err = "INVALID_ARG_ERR"
error_tostring ErrorCode.invalid_request_err = "INVALID_REQUEST_ERR"
error_tostring ErrorCode.kernel_inactive_err = "KERNEL_INACTIVE_ERR"
error_tostring ErrorCode.unprocessable_task_state_err = "UNPROCESSABLE_TASK_STATE_ERR"
error_tostring ErrorCode.max_object_err = "MAX_OBJECT_ERR"
error_tostring ErrorCode.object_not_found_err = "OBJECT_NOT_FOUND_ERR"
error_tostring ErrorCode.malloc_failed_err = "MALLOC_FAILED_ERR"
error_tostring ErrorCode.unknown_err = "UNKNOWN_ERR"
