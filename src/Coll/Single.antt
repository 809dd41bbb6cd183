-- ===== src/Coll/Single.antt =====
-- mongodb-cwal-rs-master/src/coll/mod.rs: the writes of one request, with their results in coll/results.rs.
use old_mongo_rust_driver.Prelude.{
  Bool, true, false, not, Option, none, some, List, [], ◌∷◌, if◌then◌else◌,
}
use old_mongo_rust_driver.Prelude.Int.{ℤ}
use old_mongo_rust_driver.Prelude.Text.{text}
use old_mongo_rust_driver.Bson.{Bson, Document, end, field}
use old_mongo_rust_driver.Error.{argument_error, operation_error, Result, ok, err}
use old_mongo_rust_driver.Connstring.Find.{starts_with}
use old_mongo_rust_driver.Coll.Models.{new_delete, new_update}
use old_mongo_rust_driver.Coll.Results.{
  WriteConcern, WriteError, WriteException, BulkWriteException, Debug, with_bulk_exception,
}
use old_mongo_rust_driver.Coll.Writes.{
  Outside, Collection, BulkDeleteResult, BulkUpdateResult, ◌>=>◌, insert_documents, bulk_delete,
  bulk_update,
}

pub record InsertOneResult : Type 0 where
  pub inserted_id : Option Bson
  pub write_exception : Option WriteException

pub record DeleteResult : Type 0 where
  pub deleted_count : ℤ
  pub write_exception : Option WriteException

pub record UpdateResult : Type 0 where
  pub matched_count : ℤ
  pub modified_count : ℤ
  pub upserted_id : Option Bson
  pub write_exception : Option WriteException

-- `UpdateOptions`, which are the `ReplaceOptions` as well
pub record UpdateOptions : Type 0 where
  pub upsert : Option Bool
  pub write_concern : Option WriteConcern

abbrev pub update_options : Option UpdateOptions → UpdateOptions
update_options none = record { upsert = none; write_concern = none }
update_options (some options) = options

abbrev pub downgrade : Debug → Option BulkWriteException → Option WriteException
downgrade dbg none = none
downgrade dbg (some e) = some (with_bulk_exception dbg e)

-- `DeleteResult::with_bulk_result`
unfoldable pub delete_result : Debug → BulkDeleteResult → DeleteResult
delete_result dbg r = record {
  deleted_count = r.deleted_count;
  write_exception = downgrade dbg r.write_exception;
}

-- `UpdateResult::with_bulk_result`
unfoldable pub update_result : Debug → BulkUpdateResult → UpdateResult
update_result dbg r = record {
  matched_count = r.matched_count;
  modified_count = r.modified_count;
  upserted_id = r.upserted_ids;
  write_exception = downgrade dbg r.write_exception;
}

abbrev pub unless_error : Bson → Option WriteError → Option Bson
unless_error id none = some id
unless_error id (some e) = none

abbrev pub unless_failed : Bson → Option WriteException → Option Bson
unless_failed id none = some id
unless_failed id (some e) = unless_error id e.write_error

unfoldable pub one_result : List Bson → Option WriteException → Result InsertOneResult
one_result [] e = err (operation_error "No ids returned for insert_one.")
one_result (id ∷ ids) e = ok (record { inserted_id = unless_failed id e; write_exception = e })

unfoldable pub validate_replace : Document → Result (Unit {0})
validate_replace end = ok tt
validate_replace (field key v rest) =
    if starts_with key (text "$")
    then err (argument_error "Replacement cannot include $ operators.")
    else validate_replace rest

unfoldable pub validate_update : Document → Result (Unit {0})
validate_update end = ok tt
validate_update (field key v rest) =
    if not (starts_with key (text "$"))
    then err (argument_error "Update only works with $ operators.")
    else validate_update rest

module _ {ℓ} {S : Type ℓ} (o : Outside S) (coll : Collection) where
  unfoldable pub insert_one : Document → Option WriteConcern → S → S × Result InsertOneResult
  insert_one doc wc s =
      ◌>=>◌ o coll
        (insert_documents o coll (doc ∷ []) (some (record { ordered = none; write_concern = wc }))
          wc s)
        (λ t r. (t, one_result r.0 (downgrade o.debug r.1)))

  unfoldable pub delete : Document → Bool → Option WriteConcern → S → S × Result DeleteResult
  delete filter multi wc s =
      ◌>=>◌ o coll (bulk_delete o coll (new_delete filter multi ∷ []) true wc s)
        (λ t r. (t, ok (delete_result o.debug r)))

  unfoldable pub delete_one : Document → Option WriteConcern → S → S × Result DeleteResult
  delete_one filter wc s = delete filter false wc s

  unfoldable pub delete_many : Document → Option WriteConcern → S → S × Result DeleteResult
  delete_many filter wc s = delete filter true wc s

  unfoldable pub update :
      Document → Document → Option Bool → Bool → Option WriteConcern → S → S × Result UpdateResult
  update filter change upsert multi wc s =
      ◌>=>◌ o coll (bulk_update o coll (new_update filter change upsert multi ∷ []) true wc s)
        (λ t r. (t, ok (update_result o.debug r)))

  -- Nothing is sent if the document is not valid.
  abbrev pub if_valid : Result (Unit {0}) → S → S × Result UpdateResult → S × Result UpdateResult
  if_valid (ok _) s r = r
  if_valid (err e) s r = (s, err e)

  unfoldable pub replace_one :
      Document → Document → Option UpdateOptions → S → S × Result UpdateResult
  replace_one filter replacement options s =
      let p = update_options options in
      if_valid (validate_replace replacement) s
        (update filter replacement p.upsert false p.write_concern s)

  unfoldable pub update_one :
      Document → Document → Option UpdateOptions → S → S × Result UpdateResult
  update_one filter change options s =
      let p = update_options options in
      if_valid (validate_update change) s (update filter change p.upsert false p.write_concern s)

  unfoldable pub update_many :
      Document → Document → Option UpdateOptions → S → S × Result UpdateResult
  update_many filter change options s =
      let p = update_options options in
      if_valid (validate_update change) s (update filter change p.upsert true p.write_concern s)
