-- ===== src/Coll/Bulk.antt =====
-- mongodb-cwal-rs-master/src/coll/mod.rs: `bulk_write` and the execution of its batches, with the
-- accumulation of results in coll/results.rs.
use old_mongo_rust_driver.Prelude.{
  Bool, false, not, ◌&&◌, Option, none, some, List, [], ◌∷◌, map, if◌then◌else◌, is_empty,
}
use old_mongo_rust_driver.Prelude.Int.{ℤ, pos, add_i32, add_i64}
use old_mongo_rust_driver.Prelude.Text.{text}
use old_mongo_rust_driver.Bson.{Bson, array, document, i32, i64, Values, nil, cons, Document, get}
use old_mongo_rust_driver.Error.{Result, ok, err}
use old_mongo_rust_driver.Coll.Models.{
  WriteModel, insert_one, DeleteModel, UpdateModel, Batch, insert, delete, update, len,
  get_ordered_batches, get_unordered_batches,
}
use old_mongo_rust_driver.Coll.Batches.{delete_request, update_request}
use old_mongo_rust_driver.Coll.Results.{
  BulkWriteException, add_unprocessed_models, add_bulk_write_exception, new_exception,
}
use old_mongo_rust_driver.Coll.Writes.{
  Outside, Collection, Ids, put, InsertManyResult, BulkDeleteResult, BulkUpdateResult,
  InsertManyOptions, insert_many, bulk_delete, bulk_update,
}

-- `acknowledged` is always true, and `bulk_write_exception` is set at the end.
pub record BulkWriteResult : Type 0 where
  pub inserted_count : ℤ
  pub inserted_ids : Ids
  pub matched_count : ℤ
  pub modified_count : ℤ
  pub deleted_count : ℤ
  pub upserted_count : ℤ
  pub upserted_ids : Ids
  pub bulk_write_exception : Option BulkWriteException

-- `BulkWriteResult::new`
abbrev pub new_result : BulkWriteResult
new_result = record {
  inserted_count = pos 0;
  inserted_ids = [];
  matched_count = pos 0;
  modified_count = pos 0;
  deleted_count = pos 0;
  upserted_count = pos 0;
  upserted_ids = [];
  bulk_write_exception = none;
}

-- The state of the loop: the outside world, the result and the exception.
pub record Progress {ℓ} (S : Type ℓ) : Type ℓ where
  pub outside : S
  pub result : BulkWriteResult
  pub exception : BulkWriteException

unfoldable pub add_ids : ℤ → Ids → BulkWriteResult → BulkWriteResult
add_ids start [] r = r
add_ids start ((i, id) ∷ ids) r = add_ids start ids (record r {
  inserted_ids = put (add_i64 start i) id r.inserted_ids;
  inserted_count = add_i32 r.inserted_count (pos 1);
})

abbrev pub add_inserted : ℤ → Option Ids → BulkWriteResult → BulkWriteResult
add_inserted start none r = r
add_inserted start (some ids) r = add_ids start ids r

-- `parse_upserted_id`, on the two fields that it reads: the count, and the ids afterwards.
unfoldable pub parse_upserted_fields : Option Bson → Option Bson → ℤ → Ids → ℤ × Ids
parse_upserted_fields (some (i32 i)) (some id) start ids = (pos 1, put (add_i64 start i) id ids)
parse_upserted_fields (some (i64 i)) (some id) start ids = (pos 1, put (add_i64 start i) id ids)
parse_upserted_fields _ _ start ids = (pos 0, ids)

abbrev pub parse_upserted_id : Document → ℤ → Ids → ℤ × Ids
parse_upserted_id d = parse_upserted_fields (get (text "index") d) (get (text "_id") d)

unfoldable pub parse_upserted_value : Bson → ℤ → Ids → ℤ × Ids
parse_upserted_value (document d) start ids = parse_upserted_id d start ids
parse_upserted_value _ start ids = (pos 0, ids)

-- The loop over an array, from a count on.
unfoldable pub parse_upserted_array : Values → ℤ → ℤ × Ids → ℤ × Ids
parse_upserted_array nil start (n, ids) = (n, ids)
parse_upserted_array (cons v vs) start (n, ids) =
    let (k, more) = parse_upserted_value v start ids in
    parse_upserted_array vs start (add_i32 n k, more)

unfoldable pub parse_upserted_ids : Bson → ℤ → Ids → ℤ × Ids
parse_upserted_ids (document d) start ids = parse_upserted_id d start ids
parse_upserted_ids (array vs) start ids = parse_upserted_array vs start (pos 0, ids)
parse_upserted_ids _ start ids = (pos 0, ids)

unfoldable pub add_upserted : ℤ → Option Bson → BulkWriteResult → BulkWriteResult
add_upserted start none r = r
add_upserted start (some v) r =
    let (n, ids) = parse_upserted_ids v start r.upserted_ids in
    record r { upserted_count = add_i32 r.upserted_count n; upserted_ids = ids }

module _ {ℓ} {S : Type ℓ} where
  -- The `process_…_result` functions: the progress afterwards, and whether there was no exception.
  unfoldable pub process_insert_many_result :
      InsertManyResult → List (WriteModel Document) → ℤ → Progress S → Progress S × Bool
  process_insert_many_result x models start p =
      let (e, fine) = add_bulk_write_exception x.bulk_write_exception models p.exception in
      (record p { exception = e; result = add_inserted start x.inserted_ids p.result }, fine)

  unfoldable pub process_bulk_delete_result :
      BulkDeleteResult → List (WriteModel Document) → Progress S → Progress S × Bool
  process_bulk_delete_result x models p =
      let (e, fine) = add_bulk_write_exception x.write_exception models p.exception in
      let r : BulkWriteResult = p.result in
      (
        record p {
          exception = e;
          result = record r { deleted_count = add_i32 r.deleted_count x.deleted_count };
        },
        fine,
      )

  unfoldable pub process_bulk_update_result :
      BulkUpdateResult → List (WriteModel Document) → ℤ → Progress S → Progress S × Bool
  process_bulk_update_result x models start p =
      let (e, fine) = add_bulk_write_exception x.write_exception models p.exception in
      let r : BulkWriteResult = p.result in
      (
        record p {
          exception = e;
          result = add_upserted start x.upserted_ids (record r {
            matched_count = add_i32 r.matched_count x.matched_count;
            modified_count = add_i32 r.modified_count x.modified_count;
          });
        },
        fine,
      )

  -- A batch whose command fails leaves its models unprocessed.
  unfoldable pub finish {κ} :
      {A : Type κ}
      → (A → Progress S → Progress S × Bool)
      → List (WriteModel Document)
      → S × Result A
      → Progress S
      → Progress S × Bool
  finish process models (s, ok x) p = process x (record p { outside = s })
  finish process models (s, err e) p =
      (record p { outside = s; exception = add_unprocessed_models models p.exception }, false)

  module _ (o : Outside S) (coll : Collection) where
    unfoldable pub execute_insert_batch : List Document → ℤ → Bool → Progress S → Progress S × Bool
    execute_insert_batch docs start ordered p =
        let models : List (WriteModel Document) = map insert_one docs in
        let options : InsertManyOptions = record { ordered = some ordered; write_concern = none } in
        finish (λ x. process_insert_many_result x models start) models
          (insert_many o coll docs (some options) p.outside) p

    unfoldable pub execute_delete_batch :
        List (DeleteModel Document) → Bool → Progress S → Progress S × Bool
    execute_delete_batch ds ordered p =
        let models = map delete_request ds in
        finish (λ x. process_bulk_delete_result x models) models
          (bulk_delete o coll ds ordered none p.outside) p

    unfoldable pub execute_update_batch :
        List (UpdateModel Document) → ℤ → Bool → Progress S → Progress S × Bool
    execute_update_batch us start ordered p =
        let models = map update_request us in
        finish (λ x. process_bulk_update_result x models start) models
          (bulk_update o coll us ordered none p.outside) p

    unfoldable pub execute_batch : Batch Document → ℤ → Bool → Progress S → Progress S × Bool
    execute_batch (insert docs) start ordered p = execute_insert_batch docs start ordered p
    execute_batch (delete ds) start ordered p = execute_delete_batch ds ordered p
    execute_batch (update us) start ordered p = execute_update_batch us start ordered p

    -- The loop over the batches, which an ordered write leaves at the first failure.
    unfoldable pub execute_batches : List (Batch Document) → ℤ → Bool → Progress S → Progress S
    execute_batches [] start ordered p = p
    execute_batches (b ∷ bs) start ordered p =
        let (q, success) = execute_batch b start ordered p in
        let rest = execute_batches bs (add_i64 start (pos (len b))) ordered q in
        if not success && ordered then q else rest

    abbrev pub batches_of : List (WriteModel Document) → Bool → List (Batch Document)
    batches_of requests ordered =
        if ordered then get_ordered_batches requests else get_unordered_batches requests

    abbrev pub start_of : S → Progress S
    start_of s = record {
      outside = s;
      result = new_result;
      exception = new_exception o.debug [] [] [] none;
    }

    -- The progress at the end of the loop.
    unfoldable pub bulk_progress : List (WriteModel Document) → Bool → S → Progress S
    bulk_progress requests ordered s =
        execute_batches (batches_of requests ordered) (pos 0) ordered (start_of s)

    unfoldable pub exception_if_unprocessed : Progress S → BulkWriteResult
    exception_if_unprocessed p =
        if not (is_empty e.unprocessed_requests)
        then record r { bulk_write_exception = some e }
        else r
      where
        e : BulkWriteException
        e = p.exception

        r : BulkWriteResult
        r = p.result

    unfoldable pub bulk_write : List (WriteModel Document) → Bool → S → S × BulkWriteResult
    bulk_write requests ordered s =
        let p = bulk_progress requests ordered s in (p.outside, exception_if_unprocessed p)
