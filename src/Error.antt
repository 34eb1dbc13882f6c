-- ===== src/Error.antt =====
-- PacketForge_V1/include/common/error.hpp and src/common/error.cpp: error values.
use thread_pool.Base.{Bool, true, false, String}

pub data ErrorCode : Type 0 where
  success unknown_error invalid_argument connection_failed connection_closed : ErrorCode
  socket_error timeout invalid_packet serialization_error deserialization_error : ErrorCode
  protocol_error : ErrorCode

pub record Error : Type 0 where
  pub code : ErrorCode
  pub message : String

abbrev pub is_success : ErrorCode → Bool
is_success success = true
is_success _ = false

-- `Error::ok`.
abbrev pub ok : Error → Bool
ok e = is_success e.code

abbrev pub error : ErrorCode → String → Error
error c m = record { code = c; message = m }

-- `Error(ErrorCode::Success, "")`, which every operation returns when nothing went wrong.
abbrev pub no_error : Error
no_error = error success ""
