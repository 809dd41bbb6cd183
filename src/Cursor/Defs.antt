-- ===== src/Cursor/Defs.antt =====
-- mongodb-cwal-rs-master/src/cursor.rs: `Cursor` and its operations. Acquiring a stream, sending a "get
-- more" request for a namespace, a batch size and a cursor id, and reading the reply are one parameter, with the
-- hooks of command monitoring left out; the read preference and the command type only choose the server and the hooks.
use old_mongo_rust_driver.Prelude.{
  ℕ, zero, suc, Bool, true, false, not, ◌&&◌, Option, none, some, List, [], ◌∷◌, ◌++◌,
  if◌then◌else◌, is_empty,
}
use old_mongo_rust_driver.Prelude.Int.{ℤ, pos, add_i32, ltb_ℤ, leb_ℤ, eqb_ℤ, pos_part}
use old_mongo_rust_driver.Prelude.Text.{Text, text}
use old_mongo_rust_driver.Bson.{
  Bson, string, array, document, i32, i64, Values, nil, cons, Document, end, get,
}
use old_mongo_rust_driver.Error.{
  operation_error, default_error, cursor_not_found_error, Result, ok, err, ◌>>=◌,
}
use old_mongo_rust_driver.Wire.Message.{
  Message, op_reply, op_update, op_insert, op_query, op_get_more,
}

pub record Cursor : Type 0 where
  pub namespace : Text
  pub batch_size : ℤ
  pub cursor_id : ℤ
  pub limit : ℤ
  pub count : ℤ
  pub buffer : List Document

-- An error code that is not ignored: neither CommandNotFound nor NamespaceNotFound.
abbrev pub matters : ℤ → Bool
matters code = not (eqb_ℤ code (pos 59)) && not (eqb_ℤ code (pos 26))

-- The error in the first document, from its code and its message.
unfoldable pub check_code : Option Bson → Option Bson → Document → Result Document
check_code (some (i32 code)) (some (string m)) d =
    if matters code then err (operation_error "{errmsg}") else ok d
check_code _ _ d = ok d

unfoldable pub check_first : List Document → Result Document
check_first [] = ok end
check_first (d ∷ ds) = check_code (get (text "code") d) (get (text "errmsg") d) d

unfoldable pub get_bson_and_cid_from_message : Message → Result (Document × List Document × ℤ)
get_bson_and_cid_from_message (op_reply h flags cursor_id starting_from number_returned docs) =
    check_first docs >>= λ first. ok (first, docs, cursor_id)
get_bson_and_cid_from_message (op_update _ _ _ _ _) = err cursor_not_found_error
get_bson_and_cid_from_message (op_insert _ _ _ _) = err cursor_not_found_error
get_bson_and_cid_from_message (op_query _ _ _ _ _ _ _) = err cursor_not_found_error
get_bson_and_cid_from_message (op_get_more _ _ _ _) = err cursor_not_found_error

-- The documents among the values.
unfoldable pub documents_in : Values → List Document
documents_in nil = []
documents_in (cons (document d) vs) = d ∷ documents_in vs
documents_in (cons _ vs) = documents_in vs

unfoldable pub cursor_fields :
    Document
    → Option Bson
    → Option Bson
    → Option Bson
    → Result (Document × List Document × ℤ × Text)
cursor_fields first (some (i64 id)) (some (string ns)) (some (array batch)) =
    ok (first, documents_in batch, id, ns)
cursor_fields first _ _ _ = err cursor_not_found_error

unfoldable pub cursor_document :
    Document → Option Bson → Result (Document × List Document × ℤ × Text)
cursor_document first (some (document c)) =
    cursor_fields first (get (text "id") c) (get (text "ns") c) (get (text "firstBatch") c)
cursor_document first _ = err cursor_not_found_error

abbrev pub cursor_of_first : List Document → Option Bson
cursor_of_first [] = none
cursor_of_first (d ∷ ds) = get (text "cursor") d

unfoldable pub get_bson_and_cursor_info_from_command_message :
    Message → Result (Document × List Document × ℤ × Text)
get_bson_and_cursor_info_from_command_message m =
    get_bson_and_cid_from_message m >>= λ (first, docs, id).
    cursor_document first (cursor_of_first docs)

-- The outside world and the cursor after a call, with what it returns.
pub record Attempt {ℓ κ} (S : Type ℓ) (A : Type κ) : Type (ℓ ⊔ κ) where
  pub outside : S
  pub cursor : Cursor
  pub result : A

module _ {ℓ} {S : Type ℓ} (get_more : Text → ℤ → ℤ → S → S × Result Message) where
  abbrev pub received :
      Cursor → S → Result (Document × List Document × ℤ) → Attempt S (Result (Unit {0}))
  received c s (err e) = record { outside = s; cursor = c; result = err e }
  received c s (ok (first, docs, id)) = record {
    outside = s;
    cursor = record c { buffer = c.buffer ++ docs };
    result = ok tt;
  }

  -- The cursor id of the reply is dropped.
  unfoldable pub get_from_stream : Cursor → S → Attempt S (Result (Unit {0}))
  get_from_stream c s =
      let (t, m) = get_more c.namespace c.batch_size c.cursor_id s in
      received c t (m >>= get_bson_and_cid_from_message)

  abbrev pub has_some : Attempt S (Result (Unit {0})) → Attempt S (Result Bool)
  has_some x = record {
    outside = x.outside;
    cursor = x.cursor;
    result = x.result >>= λ _. ok (not (is_empty c.buffer));
  }
    where
      c : Cursor
      c = x.cursor

  abbrev pub is_spent : Cursor → Bool
  is_spent c = ltb_ℤ (pos 0) c.limit && leb_ℤ c.limit c.count

  abbrev pub asks : Cursor → Bool
  asks c = is_empty c.buffer && (not (eqb_ℤ c.limit (pos 1)) && not (eqb_ℤ c.cursor_id (pos 0)))

  unfoldable pub has_next : Cursor → S → Attempt S (Result Bool)
  has_next c s =
      if is_spent c
      then record { outside = s; cursor = c; result = ok false }
      else if asks c
      then has_some (get_from_stream c s)
      else record { outside = s; cursor = c; result = ok (not (is_empty c.buffer)) }

  -- The first of the buffer, which is not empty.
  unfoldable pub pop_buffer : S → Cursor → List Document → Attempt S (Option (Result Document))
  pop_buffer s c [] = record {
    outside = s;
    cursor = record c { count = add_i32 c.count (pos 1) };
    result = none;
  }
  pop_buffer s c (d ∷ ds) = record {
    outside = s;
    cursor = record c { count = add_i32 c.count (pos 1); buffer = ds };
    result = some (ok d);
  }

  unfoldable pub after_has_next : S → Cursor → Result Bool → Attempt S (Option (Result Document))
  after_has_next s c (ok true) = pop_buffer s c c.buffer
  after_has_next s c (ok false) = record { outside = s; cursor = c; result = none }
  after_has_next s c (err e) = record { outside = s; cursor = c; result = some (err e) }

  unfoldable pub next : Cursor → S → Attempt S (Option (Result Document))
  next c s = let x = has_next c s in after_has_next x.outside x.cursor x.result

  -- The rest of the loop, when the first document of it is there.
  unfoldable pub put_first :
      Document → Attempt S (Result (List Document)) → Attempt S (Result (List Document))
  put_first d x = record {
    outside = x.outside;
    cursor = x.cursor;
    result = x.result >>= λ ds. ok (d ∷ ds);
  }

  unfoldable pub go_on :
      (Cursor → S → Attempt S (Result (List Document)))
      → S
      → Cursor
      → Option (Result Document)
      → Attempt S (Result (List Document))
  go_on rest s c none = record { outside = s; cursor = c; result = ok [] }
  go_on rest s c (some (err e)) = record { outside = s; cursor = c; result = err e }
  go_on rest s c (some (ok d)) = put_first d (rest c s)

  -- `take(n).collect()`: the loop ends at the first `None` or error.
  unfoldable pub next_n : ℕ → Cursor → S → Attempt S (Result (List Document))
  next_n zero c s = record { outside = s; cursor = c; result = ok [] }
  next_n (suc n) c s = let x = next c s in go_on (next_n n) x.outside x.cursor x.result

  unfoldable pub next_batch : Cursor → S → Attempt S (Result (List Document))
  next_batch c s =
      let size : ℤ = if eqb_ℤ c.batch_size (pos 0) then pos 20 else c.batch_size in
      if ltb_ℤ size (pos 0)
      then record {
        outside = s;
        cursor = c;
        result = err (default_error "batch size {} is out of range");
      }
      else next_n (pos_part size) c s

  abbrev pub drained : Attempt S (Result (Unit {0})) → Attempt S (Result (List Document))
  drained x = record {
    outside = x.outside;
    cursor = record c { buffer = [] };
    result = x.result >>= λ _. ok c.buffer;
  }
    where
      c : Cursor
      c = x.cursor

  unfoldable pub drain_current_batch : Cursor → S → Attempt S (Result (List Document))
  drain_current_batch c s = drained (
      if is_empty c.buffer
      then get_from_stream c s
      else record { outside = s; cursor = c; result = ok tt })
