-- ===== src/Coll/Examples.antt =====
-- coll: the theorems of this component at concrete requests and servers.
use old_mongo_rust_driver.Prelude.{
  ℕ, zero, suc, ◌≡◌, refl, true, false, none, some, List, [], ◌∷◌, map,
}
use old_mongo_rust_driver.Prelude.Int.{pos}
use old_mongo_rust_driver.Prelude.Text.{Text, text, text_eq}
use old_mongo_rust_driver.Bson.{
  string, array, document, boolean, i32, nil, cons, Document, end, field, get,
}
use old_mongo_rust_driver.Error.{Result, ok, err, operation_error}
use old_mongo_rust_driver.Coll.Models.{
  WriteModel, insert_one, delete_one, delete_many, replace_one, update_many, get_ordered_batches,
  get_unordered_batches,
}
use old_mongo_rust_driver.Coll.Batches.{
  insertion, deletion, change, all_requests, sent_as, get_ordered_batches-requests,
}
use old_mongo_rust_driver.Coll.Runs.{Alternates, get_ordered_batches-Alternates}
use old_mongo_rust_driver.Coll.Partition.{of_kind, batch_requests, get_unordered_batches-requests}
use old_mongo_rust_driver.Coll.Results.{
  WriteConcern, Debug, validate_bulk_write_result, concern_error_in, errors_in, parse_error_values,
  parse_error_value, parse_bulk_error,
}
use old_mongo_rust_driver.Coll.Writes.{Outside, Collection, checked_command}
use old_mongo_rust_driver.Coll.Bulk.{bulk_progress, bulk_write}
use old_mongo_rust_driver.Coll.Reports.{Covers, bulk_progress-Covers}
use old_mongo_rust_driver.Coll.Lost.{is_ok, bulk_write_drops_errors}

abbrev pub named_field : Text → Document
named_field name = field name (boolean true) end

abbrev requests : List (WriteModel Document)
requests =
    insert_one (named_field (text "a"))
    ∷ insert_one (named_field (text "b"))
    ∷ delete_many (named_field (text "c"))
    ∷ replace_one (named_field (text "d")) (named_field (text "e")) (some true)
    ∷ update_many (named_field (text "f")) (named_field (text "g")) none
    ∷ insert_one (named_field (text "h"))
    ∷ delete_one (named_field (text "i"))
    ∷ []

get_ordered_batches-requests_example :
    all_requests (get_ordered_batches requests) ≡ map sent_as requests
get_ordered_batches-requests_example = get_ordered_batches-requests requests

get_ordered_batches-Alternates_example : Alternates (get_ordered_batches requests)
get_ordered_batches-Alternates_example = get_ordered_batches-Alternates requests

get_unordered_batches-requests_example :
    batch_requests (get_unordered_batches requests)
    ≡ of_kind insertion requests ∷ of_kind deletion requests ∷ of_kind change requests ∷ []
get_unordered_batches-requests_example = get_unordered_batches-requests requests

abbrev pub silent : Debug
silent = record { concern_error = λ e. []; write_error = λ e. []; bulk_error = λ e. [] }

-- A reply with one write error.
abbrev error_reply : Document
error_reply =
    field (text "writeErrors")
      (array (
        cons
          (document (
            field (text "index") (i32 (pos 0)) (
              field (text "code") (i32 (pos 11000))
                (field (text "errmsg") (string (text "duplicate key")) end))))
          nil))
      end

-- A server that fails from its third command on, and answers the second with a write error.
abbrev answer : ℕ → ℕ × Result Document
answer zero = (1, ok end)
answer (suc zero) = (2, ok error_reply)
answer (suc (suc n)) = (suc (suc n), err (operation_error "no server"))

abbrev failing : Outside ℕ
failing = record { command = λ s c. answer s; new_id = λ s. (s, ok 7); debug = silent }

-- A server that answers every command with a write error.
abbrev refusing : Outside ℕ
refusing = record { command = λ s c. (s, ok error_reply); new_id = λ s. (s, ok 7); debug = silent }

abbrev pub coll : Collection
coll = record {
  name = text "test";
  write_concern = record { w = pos 1; w_timeout = pos 0; j = false; fsync = false };
}

bulk_progress-Covers_example :
    Covers failing coll (map sent_as requests) (bulk_progress failing coll requests true 0)
bulk_progress-Covers_example = bulk_progress-Covers failing coll requests 0

checked_command-refusing :
    (cmd : Document) (wc : WriteConcern) (t : ℕ)
    → is_ok (checked_command refusing coll cmd wc t).1 ≡ true
unfolding checked_command validate_bulk_write_result concern_error_in errors_in parse_error_values
    parse_error_value parse_bulk_error get text_eq
checked_command-refusing cmd wc t = refl

bulk_write_drops_errors_example :
    (bulk_write refusing coll requests false 0).1.bulk_write_exception ≡ none
bulk_write_drops_errors_example =
    bulk_write_drops_errors refusing coll requests false 0 checked_command-refusing (λ t. refl)
