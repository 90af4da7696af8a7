-- ===== src/Status.antt =====
-- src/Status.h: a code and a message, returned by value.
mod Codes
use Codes.{Code}
pub use Codes.{Code}
use anu_db.Base.{Bool, true, false, [], Bytes}

pub record Status : Type 0 where
  pub code : Code
  pub msg : Bytes

abbrev pub is_ok : Status → Bool
is_ok s = elim (s.code) [ Code.okay ↦ true | _ ↦ false ]

abbrev pub is_not_found : Status → Bool
is_not_found s = elim (s.code) [ Code.not_found ↦ true | _ ↦ false ]

abbrev pub ok : Status
ok = record { code = Code.okay; msg = [] }

abbrev pub not_found : Bytes → Status
not_found m = record { code = Code.not_found; msg = m }

abbrev pub corruption : Bytes → Status
corruption m = record { code = Code.corruption; msg = m }

abbrev pub not_supported : Bytes → Status
not_supported m = record { code = Code.not_supported; msg = m }

abbrev pub invalid_argument : Bytes → Status
invalid_argument m = record { code = Code.invalid_argument; msg = m }

abbrev pub io_error : Bytes → Status
io_error m = record { code = Code.io_error; msg = m }

abbrev pub internal_error : Bytes → Status
internal_error m = record { code = Code.internal_error; msg = m }
