-- ===== src/Wire/Heads.antt =====
-- wire_protocol/operations.rs: the number of bytes of a message in front of its documents.
use old_mongo_rust_driver.Prelude.{ℕ, ◌+◌, ◌≡◌, List, [], ◌∷◌, ◌++◌, arith, length, length-append}
use old_mongo_rust_driver.Prelude.Int.{ℤ, pos}
use old_mongo_rust_driver.Prelude.Text.{Text}
use old_mongo_rust_driver.Bson.{Document}
use old_mongo_rust_driver.Error.{ok}
use old_mongo_rust_driver.Wire.Codec.{Codec, to_i32}
use old_mongo_rust_driver.Wire.Size.{byte_length}
use old_mongo_rust_driver.Wire.Header.{Header, code_of, write as write_header}
use old_mongo_rust_driver.Wire.Message.{terminated}

-- How many bytes the crates write, and that `byte_length` counts those of a document.
pub record IsSized (codec : Codec) : Type 0 where
  pub four : (n : ℤ) → length (codec.put_i32 n) ≡ 4
  pub eight : (n : ℤ) → length (codec.put_i64 n) ≡ 8
  pub documents :
      (d : Document) (bytes : List ℕ)
      → codec.encode_document d ≡ ok bytes
      → byte_length d ≡ to_i32 (length bytes)

module _ (codec : Codec) (sized : IsSized codec) where
  write_header-length : (h : Header) → length (write_header codec h) ≡ 16
  unfolding write_header
  write_header-length h = rw (
    length-append,
    length-append,
    length-append,
    sized.four h.message_length,
    sized.four h.request_id,
    sized.four h.response_to,
    sized.four (code_of h.op_code),
  )

  pub update-head :
      (h : Header) (namespace : Text) (flags : ℤ)
      → length (
          write_header codec h
          ++ (codec.put_i32 (pos 0) ++ terminated codec namespace (codec.put_i32 flags)))
        ≡ 16 + (length namespace + 1) + 8
  update-head h namespace flags = omega (
    arith,
    length-append (write_header codec h)
        (codec.put_i32 (pos 0) ++ terminated codec namespace (codec.put_i32 flags)),
    length-append (codec.put_i32 (pos 0)) (terminated codec namespace (codec.put_i32 flags)),
    length-append namespace (0 ∷ codec.put_i32 flags),
    write_header-length h,
    sized.four (pos 0),
    sized.four flags,
  )

  pub insert-head :
      (h : Header) (namespace : Text) (flags : ℤ)
      → length (write_header codec h ++ (codec.put_i32 flags ++ terminated codec namespace []))
        ≡ 20 + (length namespace + 1)
  insert-head h namespace flags = omega (
    arith,
    length-append (write_header codec h) (codec.put_i32 flags ++ terminated codec namespace []),
    length-append (codec.put_i32 flags) (terminated codec namespace []),
    length-append namespace (0 ∷ []),
    write_header-length h,
    sized.four flags,
  )

  pub query-head :
      (h : Header) (namespace : Text) (flags skip number : ℤ)
      → length (
          write_header codec h
          ++ (codec.put_i32 flags
              ++ terminated codec namespace (codec.put_i32 skip ++ codec.put_i32 number)))
        ≡ 28 + (length namespace + 1)
  query-head h namespace flags skip number = omega (
    arith,
    length-append (write_header codec h) (
        codec.put_i32 flags
        ++ terminated codec namespace (codec.put_i32 skip ++ codec.put_i32 number)),
    length-append (codec.put_i32 flags)
        (terminated codec namespace (codec.put_i32 skip ++ codec.put_i32 number)),
    length-append namespace (0 ∷ (codec.put_i32 skip ++ codec.put_i32 number)),
    length-append (codec.put_i32 skip) (codec.put_i32 number),
    write_header-length h,
    sized.four flags,
    sized.four skip,
    sized.four number,
  )

  pub get_more-head :
      (h : Header) (namespace : Text) (number cursor : ℤ)
      → length (
          write_header codec h
          ++ (codec.put_i32 (pos 0)
              ++ terminated codec namespace (codec.put_i32 number ++ codec.put_i64 cursor)))
        ≡ 24 + (length namespace + 1) + 8
  get_more-head h namespace number cursor = omega (
    arith,
    length-append (write_header codec h) (
        codec.put_i32 (pos 0)
        ++ terminated codec namespace (codec.put_i32 number ++ codec.put_i64 cursor)),
    length-append (codec.put_i32 (pos 0))
        (terminated codec namespace (codec.put_i32 number ++ codec.put_i64 cursor)),
    length-append namespace (0 ∷ (codec.put_i32 number ++ codec.put_i64 cursor)),
    length-append (codec.put_i32 number) (codec.put_i64 cursor),
    write_header-length h,
    sized.four (pos 0),
    sized.four number,
    sized.eight cursor,
  )
