-- ===== src/Error.antt =====
-- mongodb-cwal-rs-master/src/error.rs: the variants of `Error` that the modelled code builds.
-- A formatted message is kept as its format string, and the payload of a foreign error as a number.
use old_mongo_rust_driver.Prelude.{String, ℕ}

pub data MaliciousServerErrorType : Type 0 where
  invalid_rnonce invalid_server_signature no_server_signature : MaliciousServerErrorType

pub data Error : Type 0 where
  io_error encoder_error decoder_error oid_error : ℕ → Error
  argument_error operation_error response_error default_error : String → Error
  malicious_server_error : MaliciousServerErrorType → Error
  cursor_not_found_error poison_lock_error : Error

-- `error::Result`, with the early return of `?` as its bind
pub data Result {ℓ} (T : Type ℓ) : Type ℓ where
  err : Error → Result T
  ok : T → Result T

infixl 5 ◌>>=◌
abbrev pub ◌>>=◌ {κ ℓ} : {T : Type κ} {U : Type ℓ} → Result T → (T → Result U) → Result U
err e >>= next = err e
ok t >>= next = next t
