-- ===== src/Coll/Results.antt =====
-- mongodb-cwal-rs-master/src/coll/error.rs: the errors and exceptions of writes, and how a server's
-- reply is checked. The text that `Debug` gives of an error is a parameter of the formatter's.
use old_mongo_rust_driver.Prelude.{Bool, true, false, Option, none, some, List, [], ◌∷◌, ◌++◌}
use old_mongo_rust_driver.Prelude.Int.{ℤ}
use old_mongo_rust_driver.Prelude.Text.{Text, text}
use old_mongo_rust_driver.Bson.{
  Bson, string, array, document, i32, Values, nil, cons, Document, get,
}
use old_mongo_rust_driver.Error.{response_error, Result, ok, err, ◌>>=◌}
use old_mongo_rust_driver.Coll.Models.{WriteModel}

-- common.rs: `WriteConcern`
pub record WriteConcern : Type 0 where
  pub w : ℤ
  pub w_timeout : ℤ
  pub j : Bool
  pub fsync : Bool

pub record WriteConcernError : Type 0 where
  pub code : ℤ
  pub details : WriteConcern
  pub message : Text

pub record WriteError : Type 0 where
  pub code : ℤ
  pub message : Text

pub record BulkWriteError : Type 0 where
  pub index : ℤ
  pub code : ℤ
  pub message : Text
  pub request : Option (WriteModel Document)

pub record WriteException : Type 0 where
  pub write_concern_error : Option WriteConcernError
  pub write_error : Option WriteError
  pub message : Text

pub record BulkWriteException : Type 0 where
  pub processed_requests : List (WriteModel Document)
  pub unprocessed_requests : List (WriteModel Document)
  pub write_errors : List BulkWriteError
  pub write_concern_error : Option WriteConcernError
  pub message : Text

-- `{:?}` of the errors
pub record Debug : Type 0 where
  pub concern_error : WriteConcernError → Text
  pub write_error : WriteError → Text
  pub bulk_error : BulkWriteError → Text

abbrev pub concern_text : Debug → Option WriteConcernError → Text
concern_text dbg none = []
concern_text dbg (some e) = dbg.concern_error e

abbrev pub error_texts : Debug → List BulkWriteError → Text
error_texts dbg [] = []
error_texts dbg (e ∷ es) = dbg.bulk_error e ++ error_texts dbg es

-- `BulkWriteException::new`
unfoldable pub new_exception :
    Debug
    → List (WriteModel Document)
    → List (WriteModel Document)
    → List BulkWriteError
    → Option WriteConcernError
    → BulkWriteException
new_exception dbg processed unprocessed errors concern = record {
  processed_requests = processed;
  unprocessed_requests = unprocessed;
  write_errors = errors;
  write_concern_error = concern;
  message = concern_text dbg concern ++ error_texts dbg errors;
}

abbrev pub error_text : Debug → Option WriteError → Text
error_text dbg none = []
error_text dbg (some e) = dbg.write_error e

-- `WriteException::new`
unfoldable pub new_write_exception :
    Debug → Option WriteConcernError → Option WriteError → WriteException
new_write_exception dbg concern error = record {
  write_concern_error = concern;
  write_error = error;
  message = concern_text dbg concern ++ error_text dbg error;
}

-- The last of the errors, without its index.
unfoldable pub last_error : List BulkWriteError → Option WriteError
last_error [] = none
last_error (e ∷ []) = some (record { code = e.code; message = e.message })
last_error (e ∷ f ∷ es) = last_error (f ∷ es)

unfoldable pub with_bulk_exception : Debug → BulkWriteException → WriteException
with_bulk_exception dbg e =
    new_write_exception dbg e.write_concern_error (last_error e.write_errors)

-- `WriteConcernError::parse`, on the two fields that it reads
unfoldable pub parse_concern_error :
    WriteConcern → Option Bson → Option Bson → Result WriteConcernError
parse_concern_error wc (some (i32 code)) (some (string m)) =
    ok (record { code = code; details = wc; message = m })
parse_concern_error wc _ _ = err (response_error "WriteConcernError document is invalid: {:?}")

-- `BulkWriteError::parse`, on the three fields that it reads
unfoldable pub parse_bulk_error : Option Bson → Option Bson → Option Bson → Result BulkWriteError
parse_bulk_error (some (i32 index)) (some (i32 code)) (some (string m)) =
    ok (record { index = index; code = code; message = m; request = none })
parse_bulk_error _ _ _ = err (response_error "WriteError document is invalid: {:?}")

unfoldable pub concern_error_in : WriteConcern → Option Bson → Result (Option WriteConcernError)
concern_error_in wc (some (document e)) =
    parse_concern_error wc (get (text "code") e) (get (text "errmsg") e) >>= λ x. ok (some x)
concern_error_in wc _ = ok none

unfoldable pub parse_error_value : Bson → Result BulkWriteError
parse_error_value (document e) =
    parse_bulk_error (get (text "index") e) (get (text "code") e) (get (text "errmsg") e)
parse_error_value _ = err (response_error "WriteError provided was not a bson document.")

unfoldable pub parse_error_values : Values → Result (List BulkWriteError)
parse_error_values nil = ok []
parse_error_values (cons v vs) =
    let rest = parse_error_values vs in parse_error_value v >>= λ e. rest >>= λ es. ok (e ∷ es)

unfoldable pub errors_in : Option Bson → Result (List BulkWriteError)
errors_in (some (array nil)) =
    err (response_error "Server indicates a write error, but none were found.")
errors_in (some (array (cons v vs))) = parse_error_values (cons v vs)
errors_in _ = ok []

-- The exception, if any error was found.
unfoldable pub exception_of :
    Debug → Option WriteConcernError → List BulkWriteError → Option BulkWriteException
exception_of dbg none [] = none
exception_of dbg none (e ∷ es) = some (new_exception dbg [] [] (e ∷ es) none)
exception_of dbg (some c) es = some (new_exception dbg [] [] es (some c))

-- `BulkWriteException::validate_bulk_write_result`, as its callers take it apart: `ok none` is `Ok(())`,
-- `ok (some e)` is `Err(BulkWriteError(e))`, `err` is any other error.
unfoldable pub validate_bulk_write_result :
    Debug → Document → WriteConcern → Result (Option BulkWriteException)
validate_bulk_write_result dbg reply wc =
    concern_error_in wc (get (text "writeConcernError") reply) >>= λ c.
    errors_in (get (text "writeErrors") reply) >>= λ es. ok (exception_of dbg c es)

abbrev pub or_else {ℓ} : {A : Type ℓ} → Option A → Option A → Option A
or_else none y = y
or_else (some x) y = some x

-- `BulkWriteException::add_unproccessed_models`
unfoldable pub add_unprocessed_models :
    List (WriteModel Document) → BulkWriteException → BulkWriteException
add_unprocessed_models models e = record e {
  unprocessed_requests = e.unprocessed_requests ++ models;
}

-- `BulkWriteException::add_bulk_write_exception`: the exception afterwards, and whether there was none.
unfoldable pub add_bulk_write_exception :
    Option BulkWriteException
    → List (WriteModel Document)
    → BulkWriteException
    → BulkWriteException × Bool
add_bulk_write_exception none models e =
    (record e { processed_requests = e.processed_requests ++ models }, true)
add_bulk_write_exception (some x) models e = (
  record {
    processed_requests = e.processed_requests ++ x.processed_requests;
    unprocessed_requests = e.unprocessed_requests ++ x.unprocessed_requests;
    write_errors = e.write_errors ++ x.write_errors;
    write_concern_error = or_else x.write_concern_error e.write_concern_error;
    message = e.message ++ x.message;
  },
  false,
)
