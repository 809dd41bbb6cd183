-- ===== src/Cursor/Examples.antt =====
-- cursor.rs: the theorems of this component with a server that sends two documents for each request.
use old_mongo_rust_driver.Prelude.{ℕ, suc, ◌≡◌, refl, inr, List, [], ◌∷◌, arith, ◌+◌, ◌*◌}
use old_mongo_rust_driver.Prelude.Int.{ℤ, pos, add_i32, ◌+ℤ◌}
use old_mongo_rust_driver.Prelude.Text.{Text, text, text_eq}
use old_mongo_rust_driver.Bson.{get, Document, end, field, i32}
use old_mongo_rust_driver.Error.{Result, ok}
use old_mongo_rust_driver.Wire.Header.{reply}
use old_mongo_rust_driver.Wire.Message.{Message, op_reply}
use old_mongo_rust_driver.Cursor.Defs.{
  Cursor, next_n, drain_current_batch, go_on, put_first, next, after_has_next, pop_buffer, has_next,
  get_from_stream, get_bson_and_cid_from_message, check_first, check_code,
}
use old_mongo_rust_driver.Cursor.Limit.{Bounded, next_n-limit}
use old_mongo_rust_driver.Cursor.Buffered.{
  Gives, holding, reads, next_n-buffered, drain_current_batch-next_n,
}

abbrev numbered : ℕ → Document
numbered n = field (text "n") (i32 (pos n)) end

-- The outside is the number of requests so far; each is answered by two documents.
abbrev serve : Text → ℤ → ℤ → ℕ → ℕ × Result Message
serve ns size id n = (
  suc n,
  ok (
      op_reply
        (record {
          message_length = pos 0;
          request_id = pos n;
          response_to = pos 0;
          op_code = reply;
        })
        (pos 0) id (pos 0) (pos 2) (numbered (2 * n) ∷ numbered (2 * n + 1) ∷ [])),
)

abbrev limited : Cursor
limited = record {
  namespace = text "db.c";
  batch_size = pos 2;
  cursor_id = pos 7;
  limit = pos 3;
  count = pos 0;
  buffer = [];
}

-- Three of the five documents asked for, from two requests.
stops_at_limit : (next_n serve 5 limited 0).result ≡ ok (numbered 0 ∷ numbered 1 ∷ numbered 2 ∷ [])
unfolding next_n go_on put_first next after_has_next pop_buffer has_next get_from_stream add_i32
    get_bson_and_cid_from_message check_first check_code ◌+ℤ◌ get text_eq
stops_at_limit = refl

next_n-limit_example : Bounded serve 5 3 0 (next_n serve 5 limited 0)
next_n-limit_example =
    next_n-limit serve 5 3 0 limited 0 (omega arith) (omega arith) (omega arith) refl refl

abbrev three : List Document
three = numbered 0 ∷ numbered 1 ∷ numbered 2 ∷ []

next_n-buffered_example :
    Gives serve
      (numbered 0 ∷ numbered 1 ∷ [])
      (numbered 2 ∷ [])
      0
      (next_n serve 2 (holding serve limited three) 0)
next_n-buffered_example = next_n-buffered serve 2 limited 0 three (inr (omega arith))

drain_current_batch-next_n_example : Gives serve (numbered 2 ∷ []) [] 0 (
    drain_current_batch serve
      (reads serve 2 limited 0 three).cursor
      (reads serve 2 limited 0 three).outside)
drain_current_batch-next_n_example =
    drain_current_batch-next_n serve 2 limited 0 three (omega arith)
