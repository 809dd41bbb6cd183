-- ===== src/Wire/Examples.antt =====
-- wire_protocol: the theorems of this component with a little-endian codec.
use old_mongo_rust_driver.Prelude.{
  ℕ, ◌+◌, ◌-◌, ◌*◌, ◌/◌, ◌%◌, ◌≡◌, refl, ap, subst, ◌∙◌, ◌<◌, List, [], ◌∷◌, ◌++◌, arith, ltb,
  if◌then◌else◌, length,
}
use old_mongo_rust_driver.Prelude.Int.{ℤ, pos, negsuc, add_i32, ◌+ℤ◌}
use old_mongo_rust_driver.Prelude.Text.{text}
use old_mongo_rust_driver.Bson.{Document, end, field}
use old_mongo_rust_driver.Error.{Result, ok, err, io_error}
use old_mongo_rust_driver.Wire.Codec.{Codec, IsI32, IsI64, to_i32}
use old_mongo_rust_driver.Wire.Size.{byte_length, add_fields}
use old_mongo_rust_driver.Wire.Header.{
  Header, reply, read, write, new_request, code_of, ReadsI32, read-write,
}
use old_mongo_rust_driver.Wire.Heads.{IsSized}
use old_mongo_rust_driver.Wire.Message.{
  op_reply, header_of, write as write_message, write_get_more, new_get_more,
}
use old_mongo_rust_driver.Wire.Reply.{
  ReadsBack, reply_bytes, read as read_message, read-reply_bytes,
}
use old_mongo_rust_driver.Wire.Lengths.{Request, get_more, message_of, write-message_length}

-- An `i32` as a number below 2 ^ 32.
abbrev bits : ℤ → ℕ
bits (pos n) = n
bits (negsuc n) = 4294967295 - n

abbrev four_bytes : ℕ → List ℕ
four_bytes m = m % 256 ∷ m / 256 % 256 ∷ m / 65536 % 256 ∷ m / 16777216 ∷ []

abbrev of_bits : ℕ → ℤ
of_bits m = if ltb m 2147483648 then pos m else negsuc (4294967295 - m)

abbrev get_four : List ℕ → Result (ℤ × List ℕ)
get_four (a ∷ b ∷ c ∷ d ∷ rest) = ok (of_bits (a + 256 * b + 65536 * c + 16777216 * d), rest)
get_four _ = err (io_error 0)

abbrev wide_bits : ℤ → ℕ
wide_bits (pos n) = n
wide_bits (negsuc n) = 18446744073709551615 - n

abbrev eight_bytes : ℕ → List ℕ
eight_bytes m = four_bytes (m % 4294967296) ++ four_bytes (m / 4294967296)

abbrev of_wide_bits : ℕ → ℤ
of_wide_bits m = if ltb m 9223372036854775808 then pos m else negsuc (18446744073709551615 - m)

abbrev get_eight : List ℕ → Result (ℤ × List ℕ)
get_eight (a ∷ b ∷ c ∷ d ∷ e ∷ f ∷ g ∷ h ∷ rest) = ok (
  of_wide_bits (
      (a + 256 * b + 65536 * c + 16777216 * d)
      + 4294967296 * (e + 256 * f + 65536 * g + 16777216 * h)),
  rest,
)
get_eight _ = err (io_error 0)

-- Only the empty document is encoded.
abbrev encode : Document → Result (List ℕ)
encode end = ok (5 ∷ 0 ∷ 0 ∷ 0 ∷ 0 ∷ [])
encode (field k v d) = err (io_error 1)

abbrev decode : List ℕ → Result (Document × List ℕ)
decode (a ∷ b ∷ c ∷ d ∷ e ∷ rest) = ok (end, rest)
decode _ = err (io_error 2)

abbrev little_endian : Codec
little_endian = record {
  put_i32 = λ n. four_bytes (bits n);
  put_i64 = λ n. eight_bytes (wide_bits n);
  get_i32 = get_four;
  get_i64 = get_eight;
  encode_document = encode;
  decode_document = decode;
}

of_wide_bits-wide_bits : (n : ℤ) → IsI64 n → of_wide_bits (wide_bits n) ≡ n
of_wide_bits-wide_bits (pos n) (l, h) = ground arith
of_wide_bits-wide_bits (negsuc n) (l, h) = ground arith

of_bits-bits : (n : ℤ) → IsI32 n → of_bits (bits n) ≡ n
of_bits-bits (pos n) (l, h) = ground arith
of_bits-bits (negsuc n) (l, h) = ground arith

four_bytes_sum :
    (m : ℕ)
    → m % 256 + 256 * (m / 256 % 256) + 65536 * (m / 65536 % 256) + 16777216 * (m / 16777216) ≡ m
four_bytes_sum m = omega arith

little_endian-ReadsI32 : ReadsI32 little_endian
little_endian-ReadsI32 n rest h =
    ap (λ z. ok (z, rest)) (ap of_bits (four_bytes_sum (bits n)) ∙ of_bits-bits n h)

abbrev written : Result (List ℕ) → List ℕ
written (ok bytes) = bytes
written (err e) = []

byte_length-encode :
    (d : Document) (bytes : List ℕ) → encode d ≡ ok bytes → byte_length d ≡ to_i32 (length bytes)
unfolding byte_length add_fields to_i32
byte_length-encode end bytes e = ap (λ r. to_i32 (length (written r))) e
byte_length-encode (field k v d) bytes e = cc

little_endian-IsSized : IsSized little_endian
little_endian-IsSized = record {
  four = λ n. refl;
  eight = λ n. refl;
  documents = byte_length-encode;
}

abbrev header : Header
header = record {
  message_length = pos 36;
  request_id = negsuc 0;
  response_to = pos 7;
  op_code = reply;
}

header_is_read_back :
    read little_endian (write little_endian header ++ (1 ∷ 2 ∷ [])) ≡ ok (header, 1 ∷ 2 ∷ [])
header_is_read_back =
    read-write little_endian header (1 ∷ 2 ∷ []) little_endian-ReadsI32 (omega arith, omega arith)
      (omega arith, omega arith) (omega arith, omega arith)

-- The bytes of a request for more documents.
abbrev more : Request
more = get_more (pos 3) (text "db.c") (pos 10) (pos 99)

abbrev more_bytes : List ℕ
more_bytes = written (write_message little_endian (message_of more))

more_written : write_message little_endian (message_of more) ≡ ok more_bytes
unfolding write_message write_get_more new_get_more
more_written = refl

write-message_length_example :
    (header_of (message_of more)).message_length ≡ to_i32 (length more_bytes)
write-message_length_example =
    write-message_length little_endian more more_bytes little_endian-IsSized more_written

more-length : length more_bytes ≡ 37
unfolding write_message write_get_more new_get_more write new_request code_of to_i32 add_i32 ◌+ℤ◌
more-length = refl

-- The bytes of a number, put together again.
abbrev sum_of : ℕ → ℕ
sum_of m = m % 256 + 256 * (m / 256 % 256) + 65536 * (m / 65536 % 256) + 16777216 * (m / 16777216)

eight_bytes_sum : (m : ℕ) → sum_of (m % 4294967296) + 4294967296 * sum_of (m / 4294967296) ≡ m
eight_bytes_sum m =
    ap (λ x. x + 4294967296 * sum_of (m / 4294967296)) (four_bytes_sum (m % 4294967296))
    ∙ ap (λ x. m % 4294967296 + 4294967296 * x) (four_bytes_sum (m / 4294967296))
    ∙ halves m
  where
    halves : (k : ℕ) → k % 4294967296 + 4294967296 * (k / 4294967296) ≡ k
    halves k = omega arith

get_eight-eight_bytes :
    (n : ℤ) (rest : List ℕ) → IsI64 n → get_eight (eight_bytes (wide_bits n) ++ rest) ≡ ok (n, rest)
get_eight-eight_bytes n rest h =
    ap (λ z. ok (z, rest))
      (ap of_wide_bits (eight_bytes_sum (wide_bits n)) ∙ of_wide_bits-wide_bits n h)

decode-encode :
    (d : Document) (bytes rest : List ℕ)
    → encode d ≡ ok bytes
    → (decode (bytes ++ rest) ≡ ok (d, rest))
      × (0 < length bytes)
      × (byte_length d ≡ to_i32 (length bytes))
unfolding byte_length add_fields to_i32
decode-encode end bytes rest e =
    subst
      (λ bs.
        (decode (bs ++ rest) ≡ ok (end, rest)) × (0 < length bs) × (pos 5 ≡ to_i32 (length bs)))
      (ap written e) (refl, omega arith, refl)
decode-encode (field k v d) bytes rest e = cc

little_endian-ReadsBack : ReadsBack little_endian
little_endian-ReadsBack = record {
  short = little_endian-ReadsI32;
  long = get_eight-eight_bytes;
  whole = decode-encode;
}

abbrev two_documents : List ℕ
two_documents = 5 ∷ 0 ∷ 0 ∷ 0 ∷ 0 ∷ 5 ∷ 0 ∷ 0 ∷ 0 ∷ 0 ∷ []

abbrev reply_header : Header
reply_header = record {
  message_length = pos 46;
  request_id = pos 3;
  response_to = pos 7;
  op_code = reply;
}

read-reply_bytes_example :
    read_message little_endian
      (λ f. f)
      (reply_bytes little_endian reply_header
        (pos 8)
        (pos 0)
        (pos 0)
        (pos 2)
        (two_documents ++ (1 ∷ [])))
    ≡ ok (op_reply reply_header (pos 8) (pos 0) (pos 0) (pos 2) (end ∷ end ∷ []), 1 ∷ [])
read-reply_bytes_example =
    read-reply_bytes little_endian (λ f. f) reply_header (pos 8) (pos 0) (pos 0) (pos 2)
      (end ∷ end ∷ []) two_documents (1 ∷ []) little_endian-ReadsBack
      (_, _, refl, (_, _, refl, refl, refl), refl) refl refl (omega arith)
      (omega arith, omega arith) (omega arith, omega arith) (omega arith, omega arith)
      (omega arith, omega arith) (omega arith, omega arith) (omega arith, omega arith)
