-- ===== src/Protocol/ErrorCode.antt =====
-- src/core/protocol/message.h, `enum class ErrorCode: uint16_t`. A received code may be any 16-bit
-- number, so a code is its number, with a name for each enumerator.
use rdp_ext.Common.{ℕ}

abbrev pub ErrorCode : Type 0
ErrorCode = ℕ

abbrev pub unknown : ErrorCode
unknown = 0

abbrev pub internal_error : ErrorCode
internal_error = 1

abbrev pub wrong_protocol_version : ErrorCode
wrong_protocol_version = 2

abbrev pub handshake_required : ErrorCode
handshake_required = 3

abbrev pub invalid_state : ErrorCode
invalid_state = 4

abbrev pub unsupported_message_type : ErrorCode
unsupported_message_type = 5
