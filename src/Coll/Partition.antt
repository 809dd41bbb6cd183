-- ===== src/Coll/Partition.antt =====
-- coll/mod.rs: the unordered batches against the requests that they stand for.
use old_mongo_rust_driver.Prelude.{
  ◌≡◌, ap, ◌∙◌, true, false, List, [], ◌∷◌, ◌++◌, map, append_assoc, append-nil, retain,
}
use old_mongo_rust_driver.Coll.Models.{
  WriteModel, insert_one, delete_one, delete_many, replace_one, update_one, update_many,
  DeleteModel, UpdateModel, Batch, collect, get_unordered_batches, new_delete, new_update,
}
use old_mongo_rust_driver.Coll.Batches.{
  Kind, insertion, deletion, change, is_kind, kind, sent_as, delete_request, update_request,
  requests_of, map-append_one,
}

module _ {ℓ} {D : Type ℓ} where
  -- The requests of one kind, as they are sent.
  abbrev pub of_kind : Kind → List (WriteModel D) → List (WriteModel D)
  of_kind k ms = retain (λ m. is_kind k (kind m)) (map sent_as ms)

  -- The requests that a list of batches carries out, batch by batch.
  abbrev pub batch_requests : List (Batch D) → List (List (WriteModel D))
  batch_requests [] = []
  batch_requests (b ∷ bs) = requests_of b ∷ batch_requests bs

  abbrev three :
      List (WriteModel D) → List (WriteModel D) → List (WriteModel D) → List (List (WriteModel D))
  three xs ys zs = xs ∷ ys ∷ zs ∷ []

  moved : (xs ys : List (WriteModel D)) (m : WriteModel D) → (xs ++ m ∷ []) ++ ys ≡ xs ++ m ∷ ys
  moved xs ys m = append_assoc xs (m ∷ []) ys

  one_more {κ} :
      {A : Type κ} (f : A → WriteModel D) (v : List A) (x : A) (ys : List (WriteModel D))
      → map f (v ++ x ∷ []) ++ ys ≡ map f v ++ f x ∷ ys
  one_more f v x ys = ap (λ xs. xs ++ ys) (map-append_one f v x) ∙ moved (map f v) ys (f x)

  in_first :
      {xs xs' : List (WriteModel D)} (ys zs : List (WriteModel D))
      → xs ≡ xs'
      → three xs ys zs ≡ three xs' ys zs
  in_first ys zs e = ap (λ x. three x ys zs) e

  in_second :
      (xs zs : List (WriteModel D)) {ys ys' : List (WriteModel D)}
      → ys ≡ ys'
      → three xs ys zs ≡ three xs ys' zs
  in_second xs zs e = ap (λ y. three xs y zs) e

  in_third :
      (xs ys : List (WriteModel D)) {zs zs' : List (WriteModel D)}
      → zs ≡ zs'
      → three xs ys zs ≡ three xs ys zs'
  in_third xs ys e = ap (λ z. three xs ys z) e

  collect-requests :
      (is : List D) (ds : List (DeleteModel D)) (us : List (UpdateModel D))
      (ms : List (WriteModel D))
      → batch_requests (collect is ds us ms)
        ≡ three
            (map insert_one is ++ of_kind insertion ms)
            (map delete_request ds ++ of_kind deletion ms)
            (map update_request us ++ of_kind change ms)
  unfolding collect requests_of delete_request update_request
  collect-requests is ds us [] = rw (append-nil, append-nil, append-nil)
  collect-requests is ds us (insert_one d ∷ ms) =
      collect-requests (is ++ d ∷ []) ds us ms
      ∙ in_first _ _ (one_more insert_one is d (of_kind insertion ms))
  collect-requests is ds us (delete_one f ∷ ms) =
      collect-requests is (ds ++ new_delete f false ∷ []) us ms
      ∙ in_second _ _ (one_more delete_request ds (new_delete f false) (of_kind deletion ms))
  collect-requests is ds us (delete_many f ∷ ms) =
      collect-requests is (ds ++ new_delete f true ∷ []) us ms
      ∙ in_second _ _ (one_more delete_request ds (new_delete f true) (of_kind deletion ms))
  collect-requests is ds us (replace_one f u o ∷ ms) =
      collect-requests is ds (us ++ new_update f u o false ∷ []) ms
      ∙ in_third _ _ (one_more update_request us (new_update f u o false) (of_kind change ms))
  collect-requests is ds us (update_one f u o ∷ ms) =
      collect-requests is ds (us ++ new_update f u o false ∷ []) ms
      ∙ in_third _ _ (one_more update_request us (new_update f u o false) (of_kind change ms))
  collect-requests is ds us (update_many f u o ∷ ms) =
      collect-requests is ds (us ++ new_update f u o true ∷ []) ms
      ∙ in_third _ _ (one_more update_request us (new_update f u o true) (of_kind change ms))

  -- The unordered batches are three: the insertions, the deletions and the updates among the
  -- requests, each kind complete and in the order of the requests.
  pub get_unordered_batches-requests :
      (requests : List (WriteModel D))
      → batch_requests (get_unordered_batches requests)
        ≡ of_kind insertion requests ∷ of_kind deletion requests ∷ of_kind change requests ∷ []
  unfolding get_unordered_batches
  get_unordered_batches-requests requests = collect-requests [] [] [] requests
