-- ===== src/Errors.antt =====
-- async/async_exception.h: thrift's exceptions as error codes. A category with its number; Boost
-- tests an error code by its number alone. The numbers of thrift's enumerations and of the system
-- come from outside the repository: an exception carries the one that getType() returns, and the
-- ones that the code names itself are the fields of `Codes`.
use async_thrift.Prelude.{ℕ, ◌≢◌, Bool, not, ◌==◌}
use async_thrift.Conn.{CloseReason, proto_size_limit, proto_negative_size, io_error}

pub data Category : Type 0 where
  thrift_category application_category protocol_category transport_category : Category
  posix_category system_category : Category

pub record ErrorCode : Type 0 where
  pub category : Category
  pub value : ℕ

-- `if (ec)`
unfoldable pub failed : ErrorCode → Bool
failed ec = not (ec.value == 0)

-- What a handler's try block can throw, in the order of the catch clauses.
pub data Exception : Type 0 where
  application_exception protocol_exception transport_exception : ℕ → Exception
  thrift_exception std_exception unknown_exception : Exception

pub record Codes : Type 0 where
  pub size_limit : ℕ
  pub negative_size : ℕ
  pub bad_message : ℕ
  pub not_connected : ℕ

-- None of the numbers that the code names is 0: so it is in thrift 0.5.0 and in POSIX.
pub record AreErrors (t : Codes) : Type 0 where
  pub size_limit_ne : t.size_limit ≢ 0
  pub negative_size_ne : t.negative_size ≢ 0
  pub bad_message_ne : t.bad_message ≢ 0
  pub not_connected_ne : t.not_connected ≢ 0

abbrev pub thrift_unknown : ℕ
thrift_unknown = 0

abbrev pub thrift_has_pending_op : ℕ
thrift_has_pending_op = 1

abbrev pub success : ErrorCode
success = record { category = posix_category; value = 0 }

-- make_error_code, and the two catch clauses that assign bad_message.
unfoldable pub make_error_code : Codes → Exception → ErrorCode
make_error_code t (application_exception n) = record { category = application_category; value = n }
make_error_code t (protocol_exception n) = record { category = protocol_category; value = n }
make_error_code t (transport_exception n) = record { category = transport_category; value = n }
make_error_code t thrift_exception = record { category = thrift_category; value = thrift_unknown }
make_error_code t std_exception = record { category = posix_category; value = t.bad_message }
make_error_code t unknown_exception = record { category = posix_category; value = t.bad_message }

-- The error code that the receive side closes with.
unfoldable pub close_code : Codes → CloseReason → ErrorCode
close_code t proto_size_limit = record { category = protocol_category; value = t.size_limit }
close_code t proto_negative_size = record { category = protocol_category; value = t.negative_size }
close_code t (io_error n) = record { category = system_category; value = n }
