-- ===== src/Wire/Lengths.antt =====
-- wire_protocol/operations.rs: the length that a message's header carries.
use native.Mathlib.Nat.{add-zero}
use old_mongo_rust_driver.Prelude.{
  ℕ, ◌+◌, ◌<◌, ◌≡◌, refl, sym, ap, ◌∙◌, Option, none, some, List, [], ◌∷◌, ◌++◌, arith, length,
  length-append,
}
use old_mongo_rust_driver.Prelude.Int.{ℤ, pos, ◌+ℤ◌, add_i32}
use old_mongo_rust_driver.Prelude.Text.{Text}
use old_mongo_rust_driver.Bson.{Document}
use old_mongo_rust_driver.Error.{Result, ok, err, ◌>>=◌}
use old_mongo_rust_driver.Wire.Codec.{Codec, to_i32, add-to_i32}
use old_mongo_rust_driver.Wire.Size.{byte_length}
use old_mongo_rust_driver.Wire.Header.{new_request}
use old_mongo_rust_driver.Wire.Heads.{IsSized, update-head, insert-head, query-head, get_more-head}
use old_mongo_rust_driver.Wire.Message.{
  Message, string_length, new_update, add_documents, new_insert, option_length, new_query,
  new_get_more, header_of, write_documents, after, write_update, write_insert, optional,
  write_query, write_get_more, write,
}

-- The requests that a client makes, with the arguments of their constructors.
pub data Request : Type 0 where
  update : ℤ → Text → ℤ → Document → Document → Request
  insert : ℤ → ℤ → Text → List Document → Request
  query : ℤ → ℤ → Text → ℤ → ℤ → Document → Option Document → Request
  get_more : ℤ → Text → ℤ → ℤ → Request

abbrev pub message_of : Request → Message
message_of (update id namespace flags selector changes) =
    new_update id namespace flags selector changes
message_of (insert id flags namespace documents) = new_insert id flags namespace documents
message_of (query id flags namespace skip number filter fields) =
    new_query id flags namespace skip number filter fields
message_of (get_more id namespace number cursor) = new_get_more id namespace number cursor

abbrev bytes_of : Result (List ℕ) → List ℕ
bytes_of (ok xs) = xs
bytes_of (err x) = []

-- A value, if there is one, and the rest.
joined :
    (head bytes : List ℕ) (r : Result (List ℕ))
    → (r >>= λ more. ok (head ++ more)) ≡ ok bytes
    → (more : List ℕ) × (r ≡ ok more) × (length bytes ≡ length head + length more)
joined head bytes (ok more) e =
    (more, refl, ap (λ r. length (bytes_of r)) (sym e) ∙ length-append head more)
joined head bytes (err x) e = cc

-- Two values, if there is an outcome.
both :
    (bytes : List ℕ) (r t : Result (List ℕ))
    → (r >>= λ head. t >>= λ more. ok (head ++ more)) ≡ ok bytes
    → (head : List ℕ) × (more : List ℕ) × (r ≡ ok head)
      × (t ≡ ok more)
      × (length bytes ≡ length head + length more)
both bytes (ok head) t e = let (more, f, len) = joined head bytes t e in (head, more, refl, f, len)
both bytes (err x) t e = cc

no_bytes : (bytes : List ℕ) → ◌≡◌ {A = Result (List ℕ)} (ok []) (ok bytes) → length bytes ≡ 0
no_bytes bytes e = ap (λ r. length (bytes_of r)) (sym e)

small : (n : ℕ) → n < 1000 → pos n ≡ to_i32 n
unfolding to_i32
small n low = ground arith

sum_16 : (n : ℕ) → n < 1000 → add_i32 (pos 16) (pos n) ≡ pos (16 + n)
unfolding add_i32 ◌+ℤ◌
sum_16 n low = ground arith

plus_zero : (n : ℕ) → to_i32 (n + 0) ≡ to_i32 n
plus_zero n = ap to_i32 (add-zero n)

-- The sizes in front of the documents.
prefix :
    (a : ℕ) (namespace : Text)
    → a < 1000
    → add_i32 (pos a) (string_length namespace) ≡ to_i32 (a + (length namespace + 1))
prefix a namespace low =
    ap (λ x. add_i32 x (string_length namespace)) (small a low)
    ∙ ap (λ x. add_i32 (to_i32 a) (add_i32 (to_i32 (length namespace)) x)) (small 1 (omega arith))
    ∙ ap (add_i32 (to_i32 a)) (add-to_i32 (length namespace) 1)
    ∙ add-to_i32 a (length namespace + 1)

prefix_and :
    (a : ℕ) (namespace : Text)
    → a < 1000
    → add_i32 (add_i32 (pos a) (string_length namespace)) (pos 8)
      ≡ to_i32 (a + (length namespace + 1) + 8)
prefix_and a namespace low =
    ap (λ x. add_i32 x (pos 8)) (prefix a namespace low)
    ∙ ap (add_i32 (to_i32 (a + (length namespace + 1)))) (small 8 (omega arith))
    ∙ add-to_i32 (a + (length namespace + 1)) 8

module _ (codec : Codec) (sized : IsSized codec) where
  write_documents-length :
      (ds : List Document) (bytes : List ℕ) (t : ℕ)
      → write_documents codec ds ≡ ok bytes
      → add_documents ds (to_i32 t) ≡ to_i32 (t + length bytes)
  unfolding write_documents add_documents
  write_documents-length [] bytes t e = ap to_i32 (omega (arith, no_bytes bytes e))
  write_documents-length (d ∷ ds) bytes t e =
      let (head, more, f, g, len) =
        both bytes (codec.encode_document d) (write_documents codec ds) e in
      ap (λ x. add_documents ds (add_i32 (to_i32 t) x)) (sized.documents d head f)
      ∙ ap (add_documents ds) (add-to_i32 t (length head))
      ∙ write_documents-length ds more (t + length head) g
      ∙ ap to_i32 (omega (arith, len))

  -- A head of a known size, and documents.
  after-length :
      (head bytes : List ℕ) (n : ℕ) (ds : List Document)
      → length head ≡ n
      → after codec head (write_documents codec ds) ≡ ok bytes
      → add_documents ds (to_i32 n) ≡ to_i32 (length bytes)
  after-length head bytes n ds size e =
      let (more, f, len) = joined head bytes (write_documents codec ds) e in
      write_documents-length ds more n f ∙ ap to_i32 (omega (arith, len, size))

  query_total :
      (bytes : List ℕ) (n : ℕ) (start : ℤ) (filter : Document) (fields : Option Document)
      → start ≡ to_i32 n
      → add_documents (filter ∷ optional codec fields) (to_i32 n) ≡ to_i32 (length bytes)
      → add_i32 (add_i32 start (byte_length filter)) (option_length fields) ≡ to_i32 (length bytes)
  unfolding add_documents option_length
  query_total bytes n start filter none e f =
      ap (λ x. add_i32 (add_i32 x (byte_length filter)) (pos 0)) e
      ∙ ap (λ x. add_i32 x (pos 0)) f
      ∙ ap (add_i32 (to_i32 (length bytes))) (small 0 (omega arith))
      ∙ add-to_i32 (length bytes) 0
      ∙ plus_zero (length bytes)
  query_total bytes n start filter (some d) e f =
      ap (λ x. add_i32 (add_i32 x (byte_length filter)) (byte_length d)) e ∙ f

-- Whatever request a client makes, if it can be written, then the length in its header is the number
-- of bytes written, as an `i32`, provided that the crates write integers of four and eight bytes, and a
-- document in as many bytes as `byte_length` counts.
pub write-message_length :
    (codec : Codec) (q : Request) (bytes : List ℕ)
    → IsSized codec
    → write codec (message_of q) ≡ ok bytes
    → (header_of (message_of q)).message_length ≡ to_i32 (length bytes)
unfolding write write_update write_insert write_query write_get_more new_update new_insert new_query
    new_get_more new_request add_documents
write-message_length codec (update id namespace flags selector changes) bytes sized e =
    ap (add_documents (selector ∷ changes ∷ [])) (prefix_and 16 namespace (omega arith))
    ∙ after-length codec sized _ bytes _ (selector ∷ changes ∷ [])
        (update-head codec sized _ namespace flags) e
write-message_length codec (insert id flags namespace documents) bytes sized e =
    ap (λ x. add_documents documents (add_i32 x (string_length namespace))) (sum_16 4 (omega arith))
    ∙ ap (add_documents documents) (prefix 20 namespace (omega arith))
    ∙ after-length codec sized _ bytes _ documents (insert-head codec sized _ namespace flags) e
write-message_length codec (query id flags namespace skip number filter fields) bytes sized e =
    query_total codec sized bytes _ _ filter fields
      (ap (λ x. add_i32 x (string_length namespace)) (sum_16 12 (omega arith))
        ∙ prefix 28 namespace (omega arith))
      (after-length codec sized _ bytes _ (filter ∷ optional codec fields)
        (query-head codec sized _ namespace flags skip number) e)
write-message_length codec (get_more id namespace number cursor) bytes sized e =
    ap (λ x. add_i32 (add_i32 x (string_length namespace)) (pos 8)) (sum_16 8 (omega arith))
    ∙ prefix_and 24 namespace (omega arith)
    ∙ ap to_i32 (sym (get_more-head codec sized _ namespace number cursor))
    ∙ ap (λ r. to_i32 (length (bytes_of r))) e
