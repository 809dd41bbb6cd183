-- ===== src/Wire/Message.antt =====
-- mongodb-cwal-rs-master/src/wire_protocol/operations.rs: messages, their construction with the length that
-- the header carries, and their writing. A namespace is its bytes, and flags are their bits. A failed
-- write gives the error; what the source had written before it is not kept.
use old_mongo_rust_driver.Prelude.{ℕ, Option, none, some, List, [], ◌∷◌, ◌++◌, length}
use old_mongo_rust_driver.Prelude.Int.{ℤ, pos, add_i32}
use old_mongo_rust_driver.Prelude.Text.{Text}
use old_mongo_rust_driver.Bson.{Document}
use old_mongo_rust_driver.Error.{argument_error, Result, ok, err, ◌>>=◌}
use old_mongo_rust_driver.Wire.Codec.{Codec, to_i32}
use old_mongo_rust_driver.Wire.Size.{byte_length}
use old_mongo_rust_driver.Wire.Header.{
  Header, update, insert, query, get_more, new_request, write as write_header,
}

pub data Message : Type 0 where
  -- header, flags, cursor id, starting from, number returned, documents
  op_reply : Header → ℤ → ℤ → ℤ → ℤ → List Document → Message
  -- header, namespace, flags, selector, update
  op_update : Header → Text → ℤ → Document → Document → Message
  -- header, flags, namespace, documents
  op_insert : Header → ℤ → Text → List Document → Message
  -- header, flags, namespace, number to skip, number to return, query, return field selector
  op_query : Header → ℤ → Text → ℤ → ℤ → Document → Option Document → Message
  -- header, namespace, number to return, cursor id
  op_get_more : Header → Text → ℤ → ℤ → Message

-- `size_of::<Header>()`: three `i32` and an operation code of two bytes, aligned to four
abbrev pub header_length : ℤ
header_length = pos 16

-- The namespace and its null byte.
abbrev pub string_length : Text → ℤ
string_length namespace = add_i32 (to_i32 (length namespace)) (pos 1)

unfoldable pub new_update : ℤ → Text → ℤ → Document → Document → Message
new_update request_id namespace flags selector changes =
    let total =
      add_i32
        (add_i32 (add_i32 (add_i32 header_length (string_length namespace)) (pos 8))
          (byte_length selector))
        (byte_length changes) in
    op_update (new_request total request_id update) namespace flags selector changes

unfoldable pub add_documents : List Document → ℤ → ℤ
add_documents [] total = total
add_documents (d ∷ ds) total = add_documents ds (add_i32 total (byte_length d))

unfoldable pub new_insert : ℤ → ℤ → Text → List Document → Message
new_insert request_id flags namespace documents =
    let total =
      add_documents documents (add_i32 (add_i32 header_length (pos 4)) (string_length namespace)) in
    op_insert (new_request total request_id insert) flags namespace documents

unfoldable pub option_length : Option Document → ℤ
option_length none = pos 0
option_length (some d) = byte_length d

unfoldable pub new_query : ℤ → ℤ → Text → ℤ → ℤ → Document → Option Document → Message
new_query request_id flags namespace number_to_skip number_to_return filter return_field_selector =
    let total =
      add_i32
        (add_i32 (add_i32 (add_i32 header_length (pos 12)) (string_length namespace))
          (byte_length filter))
        (option_length return_field_selector) in
    op_query (new_request total request_id query) flags namespace number_to_skip number_to_return
      filter return_field_selector

unfoldable pub new_get_more : ℤ → Text → ℤ → ℤ → Message
new_get_more request_id namespace number_to_return cursor_id =
    let total =
      add_i32 (add_i32 (add_i32 header_length (pos 8)) (string_length namespace)) (pos 8) in
    op_get_more (new_request total request_id get_more) namespace number_to_return cursor_id

abbrev pub header_of : Message → Header
header_of (op_reply h _ _ _ _ _) = h
header_of (op_update h _ _ _ _) = h
header_of (op_insert h _ _ _) = h
header_of (op_query h _ _ _ _ _ _) = h
header_of (op_get_more h _ _ _) = h

module _ (codec : Codec) where
  -- The bytes of a namespace with the null byte after them, then the rest.
  abbrev pub terminated : Text → List ℕ → List ℕ
  terminated namespace rest = namespace ++ 0 ∷ rest

  -- The documents' bytes, one after another.
  unfoldable pub write_documents : List Document → Result (List ℕ)
  write_documents [] = ok []
  write_documents (d ∷ ds) =
      let rest = write_documents ds in
      codec.encode_document d >>= λ bytes. rest >>= λ more. ok (bytes ++ more)

  abbrev pub after : List ℕ → Result (List ℕ) → Result (List ℕ)
  after bytes rest = rest >>= λ more. ok (bytes ++ more)

  unfoldable pub write_update : Header → Text → ℤ → Document → Document → Result (List ℕ)
  write_update h namespace flags selector changes =
      after
        (write_header codec h
          ++ (codec.put_i32 (pos 0) ++ terminated namespace (codec.put_i32 flags)))
        (write_documents (selector ∷ changes ∷ []))

  unfoldable pub write_insert : Header → ℤ → Text → List Document → Result (List ℕ)
  write_insert h flags namespace documents =
      after (write_header codec h ++ (codec.put_i32 flags ++ terminated namespace []))
        (write_documents documents)

  abbrev pub optional : Option Document → List Document
  optional none = []
  optional (some d) = d ∷ []

  unfoldable pub write_query :
      Header → ℤ → Text → ℤ → ℤ → Document → Option Document → Result (List ℕ)
  write_query h flags namespace number_to_skip number_to_return filter return_field_selector =
      after
        (write_header codec h
          ++ (codec.put_i32 flags
              ++ terminated namespace
                  (codec.put_i32 number_to_skip ++ codec.put_i32 number_to_return)))
        (write_documents (filter ∷ optional return_field_selector))

  unfoldable pub write_get_more : Header → Text → ℤ → ℤ → Result (List ℕ)
  write_get_more h namespace number_to_return cursor_id = ok (
      write_header codec h
      ++ (codec.put_i32 (pos 0)
          ++ terminated namespace (codec.put_i32 number_to_return ++ codec.put_i64 cursor_id)))

  unfoldable pub write : Message → Result (List ℕ)
  write (op_reply _ _ _ _ _ _) = err (argument_error "OP_REPLY should not be sent to the client.")
  write (op_update h namespace flags selector changes) =
      write_update h namespace flags selector changes
  write (op_insert h flags namespace documents) = write_insert h flags namespace documents
  write (op_query h flags namespace skip number filter fields) =
      write_query h flags namespace skip number filter fields
  write (op_get_more h namespace number cursor_id) = write_get_more h namespace number cursor_id
