-- ===== src/Coll/SingleExamples.antt =====
-- coll/mod.rs: the writes of one request at a server that answers with no errors and keeps the commands that it got.
use old_mongo_rust_driver.Prelude.{◌≡◌, refl, true, false, none, List, [], ◌∷◌}
use old_mongo_rust_driver.Prelude.Int.{pos}
use old_mongo_rust_driver.Prelude.Text.{text, text_eq}
use old_mongo_rust_driver.Bson.{
  string, array, document, boolean, i32, i64, nil, cons, Document, end, field, get,
}
use old_mongo_rust_driver.Error.{argument_error, ok, err}
use old_mongo_rust_driver.Connstring.Find.{strip}
use old_mongo_rust_driver.Coll.Results.{
  WriteConcern, validate_bulk_write_result, concern_error_in, errors_in,
}
use old_mongo_rust_driver.Coll.Writes.{
  Outside, checked_command, bulk_delete, delete_document, insert_many,
}
use old_mongo_rust_driver.Coll.Single.{
  insert_one, delete, delete_one, replace_one, validate_replace,
}
use old_mongo_rust_driver.Coll.Concern.{concerned, insert_many_ignores_write_concern}
use old_mongo_rust_driver.Coll.Examples.{coll, silent, named_field}

abbrev keeping : Outside (List Document)
keeping = record {
  command = λ s c. (c ∷ s, ok (field (text "n") (i32 (pos 1)) end));
  new_id = λ s. (s, ok 7);
  debug = silent;
}

abbrev majority : WriteConcern
majority = record { w = pos 3; w_timeout = pos 9; j = true; fsync = false }

insert_many_ignores_write_concern_example :
    ((insert_many keeping (concerned majority coll) (named_field (text "a") ∷ []) none []).0
      ≡ (insert_many keeping coll (named_field (text "a") ∷ []) none []).0)
    × ((insert_one keeping (concerned majority coll) (named_field (text "b")) none []).0
        ≡ (insert_one keeping coll (named_field (text "b")) none []).0)
insert_many_ignores_write_concern_example =
    insert_many_ignores_write_concern keeping coll majority (named_field (text "a") ∷ []) none
      (named_field (text "b")) none []

-- A deletion sends it.
delete_one_runs :
    (delete_one keeping (concerned majority coll) (named_field (text "a")) none []).0
    ≡ field (text "delete") (string (text "test")) (
        field
          (text "deletes")
          (array (
            cons
              (document (
                field
                  (text "q")
                  (document (named_field (text "a")))
                  (field (text "limit") (i64 (pos 1)) end)))
              nil))
          (field (text "ordered") (boolean true) (
            field
              (text "writeConcern")
              (document (
                field
                  (text "w")
                  (i32 (pos 3))
                  (field (text "wtimeout") (i32 (pos 9)) (field (text "j") (boolean true) end))))
              end)))
      ∷ []
unfolding delete_one delete bulk_delete delete_document checked_command validate_bulk_write_result
    concern_error_in errors_in get text_eq
delete_one_runs = refl

replacement_with_operator :
    (replace_one keeping coll end (field (text "$set") (boolean true) end) none []).1
    ≡ err (argument_error "Replacement cannot include $ operators.")
unfolding replace_one validate_replace strip
replacement_with_operator = refl
