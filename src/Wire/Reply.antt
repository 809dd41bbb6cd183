-- ===== src/Wire/Reply.antt =====
-- mongodb-cwal-rs-master/src/wire_protocol/operations.rs: reading a reply.
use old_mongo_rust_driver.Prelude.{
  ℕ, zero, suc, ◌+◌, ◌<◌, ◌≡◌, refl, sym, ap, subst, ◌∙◌, true, List, [], ◌∷◌, ◌++◌, append_assoc,
  arith, if◌then◌else◌, length, length-append,
}
use old_mongo_rust_driver.Prelude.Int.{ℤ, pos, ltb_ℤ, sub_i32, ◌-ℤ◌}
use old_mongo_rust_driver.Bson.{Document}
use old_mongo_rust_driver.Error.{response_error, Result, ok, err, ◌>>=◌}
use old_mongo_rust_driver.Wire.Codec.{Codec, IsI32, IsI64, to_i32}
use old_mongo_rust_driver.Wire.Size.{byte_length}
use old_mongo_rust_driver.Wire.Header.{
  Header, OpCode, reply, update, insert, query, get_more, ReadsI32, read as read_header,
  write as write_header, read-write,
}
use old_mongo_rust_driver.Wire.Message.{Message, op_reply, header_length}

module _ (codec : Codec) where
  -- The loop over the documents, while the length that is left is positive. Every document takes bytes,
  -- so that one round for each byte is enough.
  unfoldable pub read_documents : ℕ → ℤ → List ℕ → Result (List Document × List ℕ)
  read_documents zero left bytes = ok ([], bytes)
  read_documents (suc fuel) left bytes =
      let go_on : Result (List Document × List ℕ) = codec.decode_document bytes >>= λ (d, rest).
      read_documents fuel (sub_i32 left (byte_length d)) rest >>= λ (ds, after).
      ok (d ∷ ds, after) in
      if ltb_ℤ (pos 0) left then go_on else ok ([], bytes)

  -- The length that is left behind the header and the four numbers.
  abbrev pub left_over : Header → ℤ
  left_over h =
      sub_i32
        (sub_i32 (sub_i32 (sub_i32 (sub_i32 h.message_length header_length) (pos 4)) (pos 8))
          (pos 4))
        (pos 4)

  -- `flags_of` is `OpReplyFlags::from_bits_truncate`.
  unfoldable pub read_reply : (ℤ → ℤ) → Header → List ℕ → Result (Message × List ℕ)
  read_reply flags_of h bytes = codec.get_i32 bytes >>= λ (flags, b₁).
      codec.get_i64 b₁ >>= λ (cursor_id, b₂). codec.get_i32 b₂ >>= λ (starting_from, b₃).
      codec.get_i32 b₃ >>= λ (number_returned, b₄).
      read_documents (suc (length b₄)) (left_over h) b₄ >>= λ (documents, rest).
      ok (op_reply h (flags_of flags) cursor_id starting_from number_returned documents, rest)

  unfoldable pub read_by_code : (ℤ → ℤ) → Header → OpCode → List ℕ → Result (Message × List ℕ)
  read_by_code flags_of h reply bytes = read_reply flags_of h bytes
  read_by_code flags_of h update bytes =
      err (response_error "Expected to read OpCode::Reply but instead found opcode {}")
  read_by_code flags_of h insert bytes =
      err (response_error "Expected to read OpCode::Reply but instead found opcode {}")
  read_by_code flags_of h query bytes =
      err (response_error "Expected to read OpCode::Reply but instead found opcode {}")
  read_by_code flags_of h get_more bytes =
      err (response_error "Expected to read OpCode::Reply but instead found opcode {}")

  unfoldable pub read : (ℤ → ℤ) → List ℕ → Result (Message × List ℕ)
  read flags_of bytes =
      read_header codec bytes >>= λ (h, rest). read_by_code flags_of h h.op_code rest

  -- What the crates' readers take off again: an `i64` as it was written, and a document as it was
  -- encoded, which has some bytes, as many as `byte_length` counts.
  pub record ReadsBack : Type 0 where
    pub short : ReadsI32 codec
    pub long :
        (n : ℤ) (rest : List ℕ) → IsI64 n → codec.get_i64 (codec.put_i64 n ++ rest) ≡ ok (n, rest)
    pub whole :
        (d : Document) (bytes rest : List ℕ)
        → codec.encode_document d ≡ ok bytes
        → (codec.decode_document (bytes ++ rest) ≡ ok (d, rest))
          × (0 < length bytes)
          × (byte_length d ≡ to_i32 (length bytes))

  -- These are the encodings of the documents, one after another.
  abbrev pub Encodes : List Document → List ℕ → Type 0
  Encodes [] bytes = bytes ≡ []
  Encodes (d ∷ ds) bytes =
      (head : List ℕ) × (more : List ℕ) × (codec.encode_document d ≡ ok head)
      × Encodes ds more
      × (bytes ≡ head ++ more)

stop :
    (codec : Codec) (fuel : ℕ) (bytes : List ℕ)
    → read_documents codec (suc fuel) (pos 0) bytes ≡ ok ([], bytes)
unfolding read_documents
stop codec fuel bytes = refl

-- What is left of a length when a part of it is taken off.
take_off : (n k : ℕ) → k + n < 2147483648 → sub_i32 (pos (k + n)) (to_i32 k) ≡ pos n
unfolding sub_i32 to_i32 ◌-ℤ◌
take_off n k low = ground arith

take_fixed : (m k n : ℕ) → m ≡ k + n → m < 2147483648 → sub_i32 (pos m) (pos k) ≡ pos n
unfolding sub_i32 ◌-ℤ◌
take_fixed m k n e low = ground arith

left_over_lem :
    (codec : Codec) (h : Header) (n : ℕ)
    → h.message_length ≡ pos (36 + n)
    → 36 + n < 2147483648
    → left_over codec h ≡ pos n
left_over_lem codec h n e low =
    ap
      (λ m.
        sub_i32 (sub_i32 (sub_i32 (sub_i32 (sub_i32 m (pos 16)) (pos 4)) (pos 8)) (pos 4)) (pos 4))
      e
    ∙ ap (λ m. sub_i32 (sub_i32 (sub_i32 (sub_i32 m (pos 4)) (pos 8)) (pos 4)) (pos 4))
        (take_fixed (36 + n) 16 (20 + n) (omega arith) (omega (arith, low)))
    ∙ ap (λ m. sub_i32 (sub_i32 (sub_i32 m (pos 8)) (pos 4)) (pos 4))
        (take_fixed (20 + n) 4 (16 + n) (omega arith) (omega (arith, low)))
    ∙ ap (λ m. sub_i32 (sub_i32 m (pos 4)) (pos 4))
        (take_fixed (16 + n) 8 (8 + n) (omega arith) (omega (arith, low)))
    ∙ ap (λ m. sub_i32 m (pos 4)) (take_fixed (8 + n) 4 (4 + n) (omega arith) (omega (arith, low)))
    ∙ take_fixed (4 + n) 4 n (omega arith) (omega (arith, low))

module _ (codec : Codec) (back : ReadsBack codec) where
  -- One round of the loop, and the rest of it.
  round :
      (fuel : ℕ) (left : ℤ) (bytes more rest : List ℕ) (d : Document) (ds : List Document)
      → ltb_ℤ (pos 0) left ≡ true
      → codec.decode_document bytes ≡ ok (d, more)
      → read_documents codec fuel (sub_i32 left (byte_length d)) more ≡ ok (ds, rest)
      → read_documents codec (suc fuel) left bytes ≡ ok (d ∷ ds, rest)
  unfolding read_documents
  round fuel left bytes more rest d ds some_left decoded go_on = rw (some_left, decoded, go_on)

  read_documents-Encodes :
      (ds : List Document) (bytes rest : List ℕ) (fuel : ℕ)
      → length bytes < fuel
      → length bytes < 2147483648
      → Encodes codec ds bytes
      → read_documents codec fuel (pos (length bytes)) (bytes ++ rest) ≡ ok (ds, rest)
  read_documents-Encodes ds bytes rest zero enough low e = absurd (omega (arith, enough))
  read_documents-Encodes [] bytes rest (suc fuel) enough low e =
      subst (λ bs. read_documents codec (suc fuel) (pos (length bs)) (bs ++ rest) ≡ ok ([], rest))
        (sym e) (stop codec fuel rest)
  read_documents-Encodes (d ∷ ds) bytes rest (suc fuel) enough low (head, more, f, g, e) =
      let (decoded, some_bytes, size) = back.whole d head (more ++ rest) f in
      let len : length bytes ≡ length head + length more = ap length e ∙ length-append head more in
      let step : sub_i32 (pos (length bytes)) (byte_length d) ≡ pos (length more) =
        ap (λ x. sub_i32 (pos x) (byte_length d)) len
        ∙ ap (sub_i32 (pos (length head + length more))) size
        ∙ take_off (length more) (length head) (omega (arith, len, low)) in
      round fuel (pos (length bytes)) (bytes ++ rest) (more ++ rest) rest d ds
        (ground (arith, len, some_bytes))
        (ap (λ bs. codec.decode_document (bs ++ rest)) e
          ∙ ap codec.decode_document (append_assoc head more rest)
          ∙ decoded)
        (ap (λ l. read_documents codec fuel l (more ++ rest)) step
          ∙ read_documents-Encodes ds more rest fuel (omega (arith, len, some_bytes, enough))
              (omega (arith, len, low)) g)

  read_reply_lem :
      (flags_of : ℤ → ℤ) (h : Header) (flags cursor_id starting_from number_returned : ℤ)
      (ds : List Document) (bytes rest : List ℕ)
      → Encodes codec ds bytes
      → h.message_length ≡ pos (36 + length bytes)
      → 36 + length bytes < 2147483648
      → IsI32 flags
      → IsI64 cursor_id
      → IsI32 starting_from
      → IsI32 number_returned
      → read_reply codec flags_of h (
          codec.put_i32 flags
          ++ (codec.put_i64 cursor_id
              ++ (codec.put_i32 starting_from
                  ++ (codec.put_i32 number_returned ++ (bytes ++ rest)))))
        ≡ ok (op_reply h (flags_of flags) cursor_id starting_from number_returned ds, rest)
  unfolding read_reply
  read_reply_lem flags_of h flags cursor_id starting_from number_returned ds bytes rest e len low f
        c sf nr =
      let all_read : read_documents codec (suc (length (bytes ++ rest))) (left_over codec h)
            (bytes ++ rest)
          ≡ ok (ds, rest) =
        ap (λ l. read_documents codec (suc (length (bytes ++ rest))) l (bytes ++ rest))
          (left_over_lem codec h (length bytes) len low)
        ∙ read_documents-Encodes ds bytes rest (suc (length (bytes ++ rest)))
            (omega (arith, length-append bytes rest)) (omega (arith, low)) e in
      rw (
        back.short flags _ f,
        back.long cursor_id _ c,
        back.short starting_from _ sf,
        back.short number_returned _ nr,
        all_read,
      )

-- The bytes of a reply: its header, four numbers, and documents.
abbrev pub reply_bytes : Codec → Header → ℤ → ℤ → ℤ → ℤ → List ℕ → List ℕ
reply_bytes codec h flags cursor_id starting_from number_returned documents =
    write_header codec h
    ++ (codec.put_i32 flags
        ++ (codec.put_i64 cursor_id
            ++ (codec.put_i32 starting_from ++ (codec.put_i32 number_returned ++ documents))))

-- A server's reply, with the length of all its bytes in its header and below 2 ^ 31 bytes, is read as the
-- reply with the same numbers and documents, and nothing behind it is taken, if its numbers are `i32`
-- values (the cursor id an `i64`), the crates' readers take off what their writers wrote, and a document
-- is some bytes, as many as `byte_length` counts.
pub read-reply_bytes :
    (codec : Codec) (flags_of : ℤ → ℤ) (h : Header)
    (flags cursor_id starting_from number_returned : ℤ) (ds : List Document) (bytes rest : List ℕ)
    → ReadsBack codec
    → Encodes codec ds bytes
    → h.op_code ≡ reply
    → h.message_length ≡ pos (36 + length bytes)
    → 36 + length bytes < 2147483648
    → IsI32 h.request_id
    → IsI32 h.response_to
    → IsI32 flags
    → IsI64 cursor_id
    → IsI32 starting_from
    → IsI32 number_returned
    → read codec flags_of
        (reply_bytes codec h flags cursor_id starting_from number_returned (bytes ++ rest))
      ≡ ok (op_reply h (flags_of flags) cursor_id starting_from number_returned ds, rest)
unfolding read read_by_code
read-reply_bytes codec flags_of h flags cursor_id starting_from number_returned ds bytes rest back e
      is_reply len low i t f c sf nr =
    ap (λ r. r >>= λ (g, more). read_by_code codec flags_of g g.op_code more)
      (read-write codec h _ back.short
        (subst IsI32 (sym len) (omega (arith, low), omega (arith, low))) i t)
    ∙ ap
        (λ c. read_by_code codec flags_of h c (
          codec.put_i32 flags
          ++ (codec.put_i64 cursor_id
              ++ (codec.put_i32 starting_from
                  ++ (codec.put_i32 number_returned ++ (bytes ++ rest))))))
        is_reply
    ∙ read_reply_lem codec back flags_of h flags cursor_id starting_from number_returned ds bytes
        rest e len low f c sf nr
