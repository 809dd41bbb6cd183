-- ===== src/Coll/Lost.antt =====
-- coll/mod.rs: the exception that `bulk_write` attaches to its result.
use old_mongo_rust_driver.Prelude.{
  ◌≡◌, inl, inr, refl, ◌∙◌, Bool, true, false, not, ◌&&◌, Option, none, some, List, [], ◌∷◌,
  Bool-cases,
}
use old_mongo_rust_driver.Prelude.Int.{ℤ, pos, add_i64}
use old_mongo_rust_driver.Prelude.Text.{text}
use old_mongo_rust_driver.Bson.{Bson, Document, get}
use old_mongo_rust_driver.Error.{Result, ok, err}
use old_mongo_rust_driver.Coll.Models.{
  WriteModel, DeleteModel, UpdateModel, Batch, insert, delete, update, len,
}
use old_mongo_rust_driver.Coll.Results.{WriteConcern, BulkWriteException, new_exception}
use old_mongo_rust_driver.Coll.Writes.{
  Outside, Collection, Ids, InsertManyOptions, ◌>=>◌, identify, identify_all, checked_command,
  concern_of, many_result, insert_documents, insert_many, bulk_delete, bulk_update,
}
use old_mongo_rust_driver.Coll.Bulk.{
  Progress, BulkWriteResult, finish, add_ids, add_inserted, add_upserted,
  process_insert_many_result, process_bulk_delete_result, process_bulk_update_result,
  execute_insert_batch, execute_delete_batch, execute_update_batch, execute_batch, execute_batches,
  bulk_progress, exception_if_unprocessed, bulk_write, batches_of, start_of,
}
use old_mongo_rust_driver.Coll.Replies.{
  OnOk, IsBare, insert_many-IsBare, bulk_delete-IsBare, bulk_update-IsBare,
}
use old_mongo_rust_driver.Coll.Reports.{
  Answered, unprocessed, insert-Answered, delete-Answered, update-Answered,
}

abbrev pub is_ok {ℓ} : {A : Type ℓ} → Result A → Bool
is_ok (ok a) = true
is_ok (err e) = false

module _ {ℓ} {S : Type ℓ} (o : Outside S) (coll : Collection) where
  ok_then {κ μ} :
      {A : Type κ} {B : Type μ} (m : S × Result A) (f : S → A → S × Result B)
      → is_ok m.1 ≡ true
      → ((t : S) (a : A) → is_ok (f t a).1 ≡ true)
      → is_ok (◌>=>◌ o coll m f).1 ≡ true
  ok_then (s, ok a) f e h = h s a
  ok_then (s, err x) f e h = cc

  finish-unprocessed {κ μ} :
      {A : Type κ} (P : A → Type μ) (process : A → Progress S → Progress S × Bool)
      (rs : List (WriteModel Document)) (out : S × Result A) (p : Progress S)
      → ((x : A) (q : Progress S) → P x → Answered rs q (process x q))
      → OnOk P out.1
      → is_ok out.1 ≡ true
      → unprocessed (finish process rs out p).0 ≡ unprocessed p
  unfolding finish
  finish-unprocessed P process rs (s, ok x) p each h e =
      elim (each x (record p { outside = s }) h.holds) [
        | inl (fine, more, same) ↦ same
        | inr (fine, kept, same) ↦ same
      ]
  finish-unprocessed P process rs (s, err x) p each h e = cc

  module _
      (answers : (cmd : Document) (wc : WriteConcern) (s : S)
        → is_ok (checked_command o coll cmd wc s).1 ≡ true)
      (ids : (s : S) → is_ok (o.new_id s).1 ≡ true) where
    identify-ok :
        (d : Document) (id : Option Bson) (s : S) → is_ok (identify o coll d id s).1 ≡ true
    unfolding identify
    identify-ok d (some id) s = refl
    identify-ok d none s = ok_then (o.new_id s) _ (ids s) (λ t n. refl)

    identify_all-ok : (docs : List Document) (s : S) → is_ok (identify_all o coll docs s).1 ≡ true
    unfolding identify_all
    identify_all-ok [] s = refl
    identify_all-ok (d ∷ ds) s =
        ok_then (identify o coll d (get (text "_id") d) s) _ (identify-ok d _ s)
          (λ t x. ok_then (identify_all o coll ds t) _ (identify_all-ok ds t) (λ u xs. refl))

    insert_many-ok :
        (docs : List Document) (options : Option InsertManyOptions) (s : S)
        → is_ok (insert_many o coll docs options s).1 ≡ true
    unfolding insert_many insert_documents
    insert_many-ok docs options s =
        ok_then (insert_documents o coll docs options (concern_of o coll options) s)
          (λ t r. (t, ok (many_result o coll r)))
          (ok_then (identify_all o coll docs s) _ (identify_all-ok docs s)
            (λ t xs. ok_then (checked_command o coll _ _ t) _ (answers _ _ t) (λ u r. refl)))
          (λ t r. refl)

    bulk_delete-ok :
        (ds : List (DeleteModel Document)) (ordered : Bool) (s : S)
        → is_ok (bulk_delete o coll ds ordered none s).1 ≡ true
    unfolding bulk_delete
    bulk_delete-ok ds ordered s =
        ok_then (checked_command o coll _ _ s) _ (answers _ _ s) (λ t r. refl)

    bulk_update-ok :
        (us : List (UpdateModel Document)) (ordered : Bool) (s : S)
        → is_ok (bulk_update o coll us ordered none s).1 ≡ true
    unfolding bulk_update
    bulk_update-ok us ordered s =
        ok_then (checked_command o coll _ _ s) _ (answers _ _ s) (λ t r. refl)

    execute_batch-unprocessed :
        (b : Batch Document) (start : ℤ) (ordered : Bool) (p : Progress S)
        → unprocessed (execute_batch o coll b start ordered p).0 ≡ unprocessed p
    unfolding execute_batch execute_insert_batch execute_delete_batch execute_update_batch
    execute_batch-unprocessed (insert docs) start ordered p =
        finish-unprocessed (λ x. IsBare x.bulk_write_exception) _ _
          (insert_many o coll docs _ p.outside) p (λ x q b. insert-Answered x _ start q b)
          (insert_many-IsBare o coll docs _ p.outside) (insert_many-ok docs _ p.outside)
    execute_batch-unprocessed (delete ds) start ordered p =
        finish-unprocessed (λ x. IsBare x.write_exception) _ _
          (bulk_delete o coll ds ordered none p.outside) p (λ x q b. delete-Answered x _ q b)
          (bulk_delete-IsBare o coll ds ordered p.outside) (bulk_delete-ok ds ordered p.outside)
    execute_batch-unprocessed (update us) start ordered p =
        finish-unprocessed (λ x. IsBare x.write_exception) _ _
          (bulk_update o coll us ordered none p.outside) p (λ x q b. update-Answered x _ start q b)
          (bulk_update-IsBare o coll us ordered p.outside) (bulk_update-ok us ordered p.outside)

    execute_batches-unprocessed :
        (bs : List (Batch Document)) (start : ℤ) (ordered : Bool) (p : Progress S)
        → unprocessed (execute_batches o coll bs start ordered p) ≡ unprocessed p
    unfolding execute_batches
    execute_batches-unprocessed [] start ordered p = refl
    execute_batches-unprocessed (b ∷ bs) start ordered p =
        elim (Bool-cases (not (execute_batch o coll b start ordered p).1 && ordered)) [
          | inl e ↦ rw e (execute_batch-unprocessed b start ordered p)
          | inr e ↦ rw e (
              execute_batches-unprocessed bs (add_i64 start (pos (len b))) ordered
                (execute_batch o coll b start ordered p).0
              ∙ execute_batch-unprocessed b start ordered p)
        ]

exception_if_unprocessed-none {ℓ} :
    {S : Type ℓ} (o : Outside S) (coll : Collection) (p : Progress S)
    → unprocessed p ≡ []
    → (exception_if_unprocessed o coll p).bulk_write_exception ≡ p.result.bulk_write_exception
unfolding exception_if_unprocessed
exception_if_unprocessed-none o coll p e = rw e

-- The exception of the result is none but at the end.
abbrev attached {ℓ} : {S : Type ℓ} → Progress S → Option BulkWriteException
attached p = p.result.bulk_write_exception

add_ids-attached :
    (start : ℤ) (ids : Ids) (r : BulkWriteResult)
    → (add_ids start ids r).bulk_write_exception ≡ r.bulk_write_exception
unfolding add_ids
add_ids-attached start [] r = refl
add_ids-attached start ((i, id) ∷ ids) r = add_ids-attached start ids _

add_inserted-attached :
    (start : ℤ) (ids : Option Ids) (r : BulkWriteResult)
    → (add_inserted start ids r).bulk_write_exception ≡ r.bulk_write_exception
add_inserted-attached start none r = refl
add_inserted-attached start (some ids) r = add_ids-attached start ids r

add_upserted-attached :
    (start : ℤ) (id : Option Bson) (r : BulkWriteResult)
    → (add_upserted start id r).bulk_write_exception ≡ r.bulk_write_exception
unfolding add_upserted
add_upserted-attached start none r = refl
add_upserted-attached start (some v) r = refl

module _ {ℓ} {S : Type ℓ} (o : Outside S) (coll : Collection) where
  finish-attached {κ} :
      {A : Type κ} (process : A → Progress S → Progress S × Bool) (rs : List (WriteModel Document))
      (out : S × Result A) (p : Progress S)
      → ((x : A) (q : Progress S) → attached (process x q).0 ≡ attached q)
      → attached (finish process rs out p).0 ≡ attached p
  unfolding finish
  finish-attached process rs (s, ok x) p each = each x (record p { outside = s })
  finish-attached process rs (s, err e) p each = refl

  execute_batch-attached :
      (b : Batch Document) (start : ℤ) (ordered : Bool) (p : Progress S)
      → attached (execute_batch o coll b start ordered p).0 ≡ attached p
  unfolding execute_batch execute_insert_batch execute_delete_batch execute_update_batch
      process_insert_many_result process_bulk_delete_result process_bulk_update_result
  execute_batch-attached (insert docs) start ordered p =
      finish-attached _ _ (insert_many o coll docs _ p.outside) p
        (λ x q. add_inserted-attached start x.inserted_ids q.result)
  execute_batch-attached (delete ds) start ordered p =
      finish-attached _ _ (bulk_delete o coll ds ordered none p.outside) p (λ x q. refl)
  execute_batch-attached (update us) start ordered p =
      finish-attached _ _ (bulk_update o coll us ordered none p.outside) p
        (λ x q. add_upserted-attached start x.upserted_ids _)

  execute_batches-attached :
      (bs : List (Batch Document)) (start : ℤ) (ordered : Bool) (p : Progress S)
      → attached (execute_batches o coll bs start ordered p) ≡ attached p
  unfolding execute_batches
  execute_batches-attached [] start ordered p = refl
  execute_batches-attached (b ∷ bs) start ordered p =
      elim (Bool-cases (not (execute_batch o coll b start ordered p).1 && ordered)) [
        | inl e ↦ rw e (execute_batch-attached b start ordered p)
        | inr e ↦ rw e (
            execute_batches-attached bs (add_i64 start (pos (len b))) ordered
              (execute_batch o coll b start ordered p).0
            ∙ execute_batch-attached b start ordered p)
      ]

-- If the server answers every command and object ids can be made, a bulk write's result carries no
-- exception: the write errors and write concern errors that the answers report are dropped.
pub bulk_write_drops_errors {ℓ} :
    {S : Type ℓ} (o : Outside S) (coll : Collection) (requests : List (WriteModel Document))
    (ordered : Bool) (s : S)
    → ((cmd : Document) (wc : WriteConcern) (t : S)
        → is_ok (checked_command o coll cmd wc t).1 ≡ true)
    → ((t : S) → is_ok (o.new_id t).1 ≡ true)
    → (bulk_write o coll requests ordered s).1.bulk_write_exception ≡ none
unfolding bulk_write bulk_progress new_exception
bulk_write_drops_errors o coll requests ordered s answers ids =
    exception_if_unprocessed-none o coll (bulk_progress o coll requests ordered s) (
      execute_batches-unprocessed o coll answers ids (batches_of o coll requests ordered) (pos 0)
        ordered (start_of o coll s))
    ∙ execute_batches-attached o coll (batches_of o coll requests ordered) (pos 0) ordered
        (start_of o coll s)
