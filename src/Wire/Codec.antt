-- ===== src/Wire/Codec.antt =====
-- What wire_protocol uses of the byteorder and bson crates: parameters, with what the code relies on. A
-- reader takes its bytes from the front of a list.
use old_mongo_rust_driver.Prelude.{ℕ, ◌+◌, ◌≡◌, List, arith}
use old_mongo_rust_driver.Prelude.Int.{ℤ, pos, negsuc, ◌+ℤ◌, ◌≤ℤ◌, add_i32, ◌-ℤ◌}
use old_mongo_rust_driver.Bson.{Document}
use old_mongo_rust_driver.Error.{Result}
unfoldable pub use old_mongo_rust_driver.Prelude.Int.{to_i32}

pub record Codec : Type 0 where
  pub put_i32 : ℤ → List ℕ
  pub put_i64 : ℤ → List ℕ
  pub get_i32 : List ℕ → Result (ℤ × List ℕ)
  pub get_i64 : List ℕ → Result (ℤ × List ℕ)
  pub encode_document : Document → Result (List ℕ)
  pub decode_document : List ℕ → Result (Document × List ℕ)

-- The values of an `i32`.
abbrev pub IsI32 : ℤ → Type 0
IsI32 z = (negsuc 2147483647 ≤ℤ z) × (z ≤ℤ pos 2147483647)

-- The values of an `i64`.
abbrev pub IsI64 : ℤ → Type 0
IsI64 z = (negsuc 9223372036854775807 ≤ℤ z) × (z ≤ℤ pos 9223372036854775807)

-- Sums of lengths wrap as the sum does.
pub add-to_i32 : (m n : ℕ) → add_i32 (to_i32 m) (to_i32 n) ≡ to_i32 (m + n)
unfolding add_i32 to_i32 ◌+ℤ◌ ◌-ℤ◌
add-to_i32 m n = ground arith
