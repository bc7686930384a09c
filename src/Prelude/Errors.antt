-- ===== src/Prelude/Errors.antt =====
-- `asio::error_code`: the success value, the values of `asio::error` that the program names, and any
-- other code that an I/O operation reports.
use Prim.Native.Nat.{ℕ}
use mathlib.Core.Bool.{Bool, true, false}

pub data ErrorCode : Type 0 where
  success eof message_size timed_out operation_aborted operation_not_supported : ErrorCode
  invalid_argument no_buffer_space not_connected connection_reset : ErrorCode
  other : ℕ → ErrorCode

-- `if (error_code)`
abbrev pub is_error : ErrorCode → Bool
is_error success = false
is_error _ = true

-- `error_code == asio::error::operation_aborted`
abbrev pub is_aborted : ErrorCode → Bool
is_aborted operation_aborted = true
is_aborted _ = false

-- `error_code == asio::error::eof`
abbrev pub is_eof : ErrorCode → Bool
is_eof eof = true
is_eof _ = false
