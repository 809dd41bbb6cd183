-- ===== src/Wire/Header.antt =====
-- mongodb-cwal-rs-master/src/wire_protocol/header.rs
use old_mongo_rust_driver.Prelude.{
  ℕ, ◌≡◌, refl, Option, none, some, List, ◌++◌, append_assoc, arith, if◌then◌else◌,
}
use old_mongo_rust_driver.Prelude.Int.{ℤ, pos, eqb_ℤ}
use old_mongo_rust_driver.Error.{response_error, Result, ok, err, ◌>>=◌}
use old_mongo_rust_driver.Wire.Codec.{Codec, IsI32}

pub data OpCode : Type 0 where
  reply update insert query get_more : OpCode

-- `as i32`
unfoldable pub code_of : OpCode → ℤ
code_of reply = pos 1
code_of update = pos 2001
code_of insert = pos 2002
code_of query = pos 2004
code_of get_more = pos 2005

unfoldable pub from_i32 : ℤ → Option OpCode
from_i32 i =
    if eqb_ℤ i (pos 1)
    then some reply
    else if eqb_ℤ i (pos 2001)
    then some update
    else if eqb_ℤ i (pos 2002)
    then some insert
    else if eqb_ℤ i (pos 2004)
    then some query
    else if eqb_ℤ i (pos 2005)
    then some get_more
    else none

pub record Header : Type 0 where
  pub message_length : ℤ
  pub request_id : ℤ
  pub response_to : ℤ
  pub op_code : OpCode

-- `Header::new_request`, which the constructors of each kind of request call
unfoldable pub new_request : ℤ → ℤ → OpCode → Header
new_request message_length request_id op_code = record {
  message_length = message_length;
  request_id = request_id;
  response_to = pos 0;
  op_code = op_code;
}

unfoldable pub read_code : Option OpCode → Result OpCode
read_code none = err (response_error "Invalid header opcode from server: {}.")
read_code (some c) = ok c

module _ (codec : Codec) where
  unfoldable pub write : Header → List ℕ
  write h =
      codec.put_i32 h.message_length
      ++ (codec.put_i32 h.request_id
          ++ (codec.put_i32 h.response_to ++ codec.put_i32 (code_of h.op_code)))

  unfoldable pub read : List ℕ → Result (Header × List ℕ)
  read bytes = codec.get_i32 bytes >>= λ (message_length, b₁).
      codec.get_i32 b₁ >>= λ (request_id, b₂). codec.get_i32 b₂ >>= λ (response_to, b₃).
      codec.get_i32 b₃ >>= λ (code, b₄). read_code (from_i32 code) >>= λ op_code. ok (
        record {
          message_length = message_length;
          request_id = request_id;
          response_to = response_to;
          op_code = op_code;
        },
        b₄,
      )

  -- `get_i32` takes off what `put_i32` wrote.
  abbrev pub ReadsI32 : Type 0
  ReadsI32 =
      (n : ℤ) (rest : List ℕ) → IsI32 n → codec.get_i32 (codec.put_i32 n ++ rest) ≡ ok (n, rest)

from_i32-code_of : (c : OpCode) → from_i32 (code_of c) ≡ some c
unfolding from_i32 code_of
from_i32-code_of reply = refl
from_i32-code_of update = refl
from_i32-code_of insert = refl
from_i32-code_of query = refl
from_i32-code_of get_more = refl

code_of-IsI32 : (c : OpCode) → IsI32 (code_of c)
unfolding code_of
code_of-IsI32 reply = (omega arith, omega arith)
code_of-IsI32 update = (omega arith, omega arith)
code_of-IsI32 insert = (omega arith, omega arith)
code_of-IsI32 query = (omega arith, omega arith)
code_of-IsI32 get_more = (omega arith, omega arith)

-- A header whose numbers are `i32` values is read back as it was written, whatever follows it, if the
-- reader of an `i32` takes off what its writer wrote.
pub read-write :
    (codec : Codec) (h : Header) (rest : List ℕ)
    → ReadsI32 codec
    → IsI32 h.message_length
    → IsI32 h.request_id
    → IsI32 h.response_to
    → read codec (write codec h ++ rest) ≡ ok (h, rest)
unfolding read write read_code
read-write codec h rest reads l i t = rw (
  append_assoc,
  append_assoc,
  append_assoc,
  reads h.message_length _ l,
  reads h.request_id _ i,
  reads h.response_to _ t,
  reads (code_of h.op_code) rest (code_of-IsI32 h.op_code),
  from_i32-code_of h.op_code,
)
