-- ===== src/Coll/Reports.antt =====
-- coll/mod.rs: what a bulk write reports of its requests, as processed or unprocessed.
use old_mongo_rust_driver.Prelude.{
  ◌≡◌, ◌⊎◌, inl, inr, refl, ap, subst, ◌∙◌, Bool, true, false, Option, none, some, List, [], ◌∷◌,
  ◌++◌, map, append_assoc, append-nil,
}
use old_mongo_rust_driver.Prelude.Int.{ℤ, pos, add_i64}
use old_mongo_rust_driver.Bson.{Document}
use old_mongo_rust_driver.Error.{Result, ok, err}
use old_mongo_rust_driver.Coll.Models.{
  WriteModel, Batch, insert, delete, update, len, get_ordered_batches,
}
use old_mongo_rust_driver.Coll.Batches.{
  requests_of, all_requests, sent_as, get_ordered_batches-requests,
}
use old_mongo_rust_driver.Coll.Results.{
  BulkWriteException, add_unprocessed_models, add_bulk_write_exception, new_exception,
}
use old_mongo_rust_driver.Coll.Writes.{
  Outside, Collection, InsertManyResult, BulkDeleteResult, BulkUpdateResult, insert_many,
  bulk_delete, bulk_update,
}
use old_mongo_rust_driver.Coll.Bulk.{
  Progress, process_insert_many_result, process_bulk_delete_result, process_bulk_update_result,
  finish, execute_insert_batch, execute_delete_batch, execute_update_batch, execute_batch,
  execute_batches, bulk_progress, start_of,
}
use old_mongo_rust_driver.Coll.Replies.{
  OnOk, IsBare, insert_many-IsBare, bulk_delete-IsBare, bulk_update-IsBare,
}

module _ {ℓ} {S : Type ℓ} where
  abbrev pub processed : Progress S → List (WriteModel Document)
  processed p = p.exception.processed_requests

  abbrev pub unprocessed : Progress S → List (WriteModel Document)
  unprocessed p = p.exception.unprocessed_requests

  -- The requests are processed, or write errors are noted and none of them is named.
  abbrev pub Answered : List (WriteModel Document) → Progress S → Progress S × Bool → Type 0
  Answered rs p (q, fine) =
      ((fine ≡ true) × (processed q ≡ processed p ++ rs) × (unprocessed q ≡ unprocessed p))
      ⊎ ((fine ≡ false) × (processed q ≡ processed p) × (unprocessed q ≡ unprocessed p))

  -- The command failed, and all the requests are unprocessed.
  abbrev pub Failed : List (WriteModel Document) → Progress S → Progress S × Bool → Type 0
  Failed rs p (q, fine) =
      (fine ≡ false) × (processed q ≡ processed p) × (unprocessed q ≡ unprocessed p ++ rs)

  -- The exception and the flag that `add_bulk_write_exception` leaves are those of a progress.
  added-Answered :
      (x : Option BulkWriteException) (rs : List (WriteModel Document)) (p q : Progress S)
      (fine : Bool)
      → IsBare x
      → (q.exception, fine) ≡ add_bulk_write_exception x rs p.exception
      → Answered rs p (q, fine)
  unfolding add_bulk_write_exception
  added-Answered none rs p q fine b e =
      inl
        (ap (λ y. y.1) e, ap (λ y. y.0.processed_requests) e, ap (λ y. y.0.unprocessed_requests) e)
  added-Answered (some x) rs p q fine b e = inr (
    ap (λ y. y.1) e,
    ap (λ y. y.0.processed_requests) e ∙ ap (λ ys. processed p ++ ys) b.0 ∙ append-nil _,
    ap (λ y. y.0.unprocessed_requests) e ∙ ap (λ ys. unprocessed p ++ ys) b.1 ∙ append-nil _,
  )

  pub insert-Answered :
      (x : InsertManyResult) (rs : List (WriteModel Document)) (start : ℤ) (p : Progress S)
      → IsBare x.bulk_write_exception
      → Answered rs p (process_insert_many_result x rs start p)
  unfolding process_insert_many_result
  insert-Answered x rs start p b =
      added-Answered x.bulk_write_exception rs p (process_insert_many_result x rs start p).0 _ b
        refl

  pub delete-Answered :
      (x : BulkDeleteResult) (rs : List (WriteModel Document)) (p : Progress S)
      → IsBare x.write_exception
      → Answered rs p (process_bulk_delete_result x rs p)
  unfolding process_bulk_delete_result
  delete-Answered x rs p b =
      added-Answered x.write_exception rs p (process_bulk_delete_result x rs p).0 _ b refl

  pub update-Answered :
      (x : BulkUpdateResult) (rs : List (WriteModel Document)) (start : ℤ) (p : Progress S)
      → IsBare x.write_exception
      → Answered rs p (process_bulk_update_result x rs start p)
  unfolding process_bulk_update_result
  update-Answered x rs start p b =
      added-Answered x.write_exception rs p (process_bulk_update_result x rs start p).0 _ b refl

  finish-effect {κ μ} :
      {A : Type κ} (P : A → Type μ) (process : A → Progress S → Progress S × Bool)
      (rs : List (WriteModel Document)) (out : S × Result A) (p : Progress S)
      → ((x : A) (q : Progress S) → P x → Answered rs q (process x q))
      → OnOk P out.1
      → Answered rs p (finish process rs out p) ⊎ Failed rs p (finish process rs out p)
  unfolding finish add_unprocessed_models
  finish-effect P process rs (s, ok x) p each h = inl (each x (record p { outside = s }) h.holds)
  finish-effect P process rs (s, err e) p each h = inr (refl, refl, refl)

  module _ (o : Outside S) (coll : Collection) where
    execute_batch-effect :
        (b : Batch Document) (start : ℤ) (ordered : Bool) (p : Progress S)
        → Answered (requests_of b) p (execute_batch o coll b start ordered p)
          ⊎ Failed (requests_of b) p (execute_batch o coll b start ordered p)
    unfolding execute_batch execute_insert_batch execute_delete_batch execute_update_batch
        requests_of
    execute_batch-effect (insert docs) start ordered p =
        finish-effect (λ x. IsBare x.bulk_write_exception) _ _ (insert_many o coll docs _ p.outside)
          p (λ x q b. insert-Answered x _ start q b) (insert_many-IsBare o coll docs _ p.outside)
    execute_batch-effect (delete ds) start ordered p =
        finish-effect (λ x. IsBare x.write_exception) _ _
          (bulk_delete o coll ds ordered none p.outside) p (λ x q b. delete-Answered x _ q b)
          (bulk_delete-IsBare o coll ds ordered p.outside)
    execute_batch-effect (update us) start ordered p =
        finish-effect (λ x. IsBare x.write_exception) _ _
          (bulk_update o coll us ordered none p.outside) p (λ x q b. update-Answered x _ start q b)
          (bulk_update-IsBare o coll us ordered p.outside)

    -- The report of this progress covers the first of these requests, in their order.
    abbrev pub Covers : List (WriteModel Document) → Progress S → Type 0
    Covers rs r =
        (rest : List (WriteModel Document)) × ((processed r ++ unprocessed r) ++ rest ≡ rs)

    -- A stop at a batch leaves its requests and the later ones out.
    stopped :
        (rs later : List (WriteModel Document)) (p q : Progress S)
        → unprocessed p ≡ []
        → processed q ≡ processed p
        → unprocessed q ≡ unprocessed p
        → Covers (processed p ++ (rs ++ later)) q
    stopped rs later p q none_yet same_processed same_unprocessed = (
      rs ++ later,
      ap (λ xs. (xs ++ unprocessed q) ++ (rs ++ later)) same_processed
          ∙ ap (λ xs. (processed p ++ xs) ++ (rs ++ later)) (same_unprocessed ∙ none_yet)
          ∙ ap (λ xs. xs ++ (rs ++ later)) (append-nil (processed p)),
    )

    -- A failed command leaves the later requests out.
    failed :
        (rs later : List (WriteModel Document)) (p q : Progress S)
        → unprocessed p ≡ []
        → processed q ≡ processed p
        → unprocessed q ≡ unprocessed p ++ rs
        → Covers (processed p ++ (rs ++ later)) q
    failed rs later p q none_yet same_processed more = (
      later,
      ap (λ xs. (xs ++ unprocessed q) ++ later) same_processed
          ∙ ap (λ xs. (processed p ++ xs) ++ later) (more ∙ ap (λ xs. xs ++ rs) none_yet)
          ∙ append_assoc (processed p) rs later,
    )

    execute_batches-Covers :
        (bs : List (Batch Document)) (start : ℤ) (p : Progress S)
        → unprocessed p ≡ []
        → Covers (processed p ++ all_requests bs) (execute_batches o coll bs start true p)
    unfolding execute_batches
    execute_batches-Covers [] start p none_yet =
        ([], append-nil _ ∙ ap (λ xs. processed p ++ xs) none_yet)
    execute_batches-Covers (b ∷ bs) start p none_yet = elim (execute_batch-effect b start true p) [
      | inl (inl (fine, more, same)) ↦
          let (rest, e) =
            execute_batches-Covers bs (add_i64 start (pos (len b)))
              (execute_batch o coll b start true p).0 (same ∙ none_yet) in
          rw fine (
            rest,
            e
                ∙ ap (λ xs. xs ++ all_requests bs) more
                ∙ append_assoc (processed p) (requests_of b) (all_requests bs),
          )
      | inl (inr (fine, same, kept)) ↦ rw fine (
          stopped (requests_of b) (all_requests bs) p (execute_batch o coll b start true p).0
            none_yet same kept)
      | inr (fine, same, more) ↦ rw fine (
          failed (requests_of b) (all_requests bs) p (execute_batch o coll b start true p).0
            none_yet same more)
    ]

    -- What an ordered bulk write reports as processed, followed by what it reports as unprocessed, is an initial part
    -- of the requests in their order, with an update of one document in place of each replacement, which the
    -- report does not tell from it, whatever the server answers (but for an empty array `upserted`, on which
    -- the source panics).
    pub bulk_progress-Covers :
        (requests : List (WriteModel Document)) (s : S)
        → Covers (map sent_as requests) (bulk_progress o coll requests true s)
    unfolding bulk_progress new_exception
    bulk_progress-Covers requests s =
        subst (λ rs. Covers rs (bulk_progress o coll requests true s))
          (get_ordered_batches-requests requests)
          (execute_batches-Covers (get_ordered_batches requests) (pos 0) (start_of o coll s) refl)
