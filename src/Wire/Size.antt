-- ===== src/Wire/Size.antt =====
-- mongodb-cwal-rs-master/src/wire_protocol/operations.rs: `byte_length`, the number of bytes of a document
-- or a value. Its `Result` is never an error in the source and is left out.
use old_mongo_rust_driver.Prelude.{ℕ, zero, suc, ◌/◌, leb, if◌then◌else◌, length}
use old_mongo_rust_driver.Prelude.Int.{ℤ, pos, add_i32}
use old_mongo_rust_driver.Bson.{
  Bson, floating_point, object_id, string, javascript_code, symbol, array, document, boolean, null,
  reg_exp, javascript_code_with_scope, i32, i64, time_stamp, utc_datetime, binary, Values, nil,
  cons, Document, end, field,
}
use old_mongo_rust_driver.Wire.Codec.{to_i32}

-- The loop that counts the digits of an index but for the first.
unfoldable pub more_digits : ℕ → ℕ → ℕ
more_digits zero i = 0
more_digits (suc fuel) i = let rest = more_digits fuel (i / 10) in if leb 10 i then suc rest else 0

-- The digits of an array's index; as much fuel as the index is enough, since every round divides it.
unfoldable pub digits : ℕ → ℕ
digits i = suc (more_digits i i)

unfoldable mutual
  -- The fields, from a length on.
  pub add_fields : Document → ℤ → ℤ
  add_fields end len = len
  add_fields (field k v rest) len = add_fields rest (
      add_i32 (add_i32 (add_i32 len (pos 1)) (add_i32 (to_i32 (length k)) (pos 1)))
        (value_length v))

  -- The elements from an index on, from a length on.
  pub add_elements : Values → ℕ → ℤ → ℤ
  add_elements nil i len = len
  add_elements (cons v vs) i len =
      add_elements vs (suc i)
        (add_i32 (add_i32 (add_i32 len (to_i32 (digits i))) (pos 2)) (value_length v))

  pub value_length : Bson → ℤ
  value_length (document d) = add_fields d (pos 5)
  value_length (array vs) = add_elements vs 0 (pos 5)
  value_length (object_id n) = pos 12
  value_length (boolean b) = pos 1
  value_length (utc_datetime t) = pos 8
  value_length null = pos 0
  value_length (binary subtype bytes) = add_i32 (pos 5) (to_i32 (length bytes))
  value_length (reg_exp pattern options) =
      add_i32 (add_i32 (to_i32 (length pattern)) (to_i32 (length options))) (pos 2)
  value_length (i32 n) = pos 4
  value_length (i64 n) = pos 8
  value_length (time_stamp n) = pos 8
  value_length (string s) = add_i32 (pos 5) (to_i32 (length s))
  value_length (symbol s) = add_i32 (pos 5) (to_i32 (length s))
  value_length (floating_point x) = pos 8
  value_length (javascript_code js) = add_i32 (pos 5) (to_i32 (length js))
  value_length (javascript_code_with_scope js d) =
      add_i32 (add_i32 (pos 9) (to_i32 (length js))) (add_fields d (pos 5))

unfoldable pub byte_length : Document → ℤ
byte_length d = add_fields d (pos 5)
