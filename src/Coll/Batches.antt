-- ===== src/Coll/Batches.antt =====
-- coll/mod.rs: the batches of a bulk write against the requests they stand for.
use old_mongo_rust_driver.Prelude.{
  ◌≡◌, refl, sym, ap, ◌∙◌, Bool, true, false, List, [], ◌∷◌, ◌++◌, map, append_assoc, append-nil,
}
use old_mongo_rust_driver.Coll.Models.{
  WriteModel, insert_one, delete_one, delete_many, replace_one, update_one, update_many,
  DeleteModel, UpdateModel, Batch, insert, delete, update, batch_from, merge_model, after_merge,
  push_model, push_models, get_ordered_batches,
}

pub data Kind : Type 0 where
  insertion deletion change : Kind

pub Kind-discrete : Discrete Kind
Kind-discrete = hlevel

abbrev pub is_kind : Kind → Kind → Bool
is_kind insertion insertion = true
is_kind deletion deletion = true
is_kind change change = true
is_kind _ _ = false

pub map-append_one {κ μ} :
    {A : Type κ} {B : Type μ} (f : A → B) (xs : List A) (x : A)
    → map f (xs ++ x ∷ []) ≡ map f xs ++ f x ∷ []
map-append_one f [] x = refl
map-append_one f (y ∷ xs) x = ap (◌∷◌ (f y)) (map-append_one f xs x)

module _ {ℓ} {D : Type ℓ} where
  -- The original models of a batch, as `execute_delete_batch` and `execute_update_batch` rebuild them.
  unfoldable pub delete_request : DeleteModel D → WriteModel D
  delete_request m = elim m.multi [ true ↦ delete_many m.filter | false ↦ delete_one m.filter ]

  unfoldable pub update_request : UpdateModel D → WriteModel D
  update_request m = elim m.multi [
    | true ↦ update_many m.filter m.update m.upsert
    | false ↦ update_one m.filter m.update m.upsert
  ]

  unfoldable pub requests_of : Batch D → List (WriteModel D)
  requests_of (insert v) = map insert_one v
  requests_of (delete v) = map delete_request v
  requests_of (update v) = map update_request v

  abbrev pub all_requests : List (Batch D) → List (WriteModel D)
  all_requests [] = []
  all_requests (b ∷ bs) = requests_of b ++ all_requests bs

  -- A replacement is sent as an update.
  abbrev pub sent_as : WriteModel D → WriteModel D
  sent_as (replace_one f u o) = update_one f u o
  sent_as m = m

  abbrev pub kind : WriteModel D → Kind
  kind (insert_one d) = insertion
  kind (delete_one f) = deletion
  kind (delete_many f) = deletion
  kind (replace_one f u o) = change
  kind (update_one f u o) = change
  kind (update_many f u o) = change

  abbrev pub batch_kind : Batch D → Kind
  batch_kind (insert v) = insertion
  batch_kind (delete v) = deletion
  batch_kind (update v) = change

  requests-batch_from : (m : WriteModel D) → requests_of (batch_from m) ≡ sent_as m ∷ []
  unfolding requests_of batch_from delete_request update_request
  requests-batch_from (insert_one d) = refl
  requests-batch_from (delete_one f) = refl
  requests-batch_from (delete_many f) = refl
  requests-batch_from (replace_one f u o) = refl
  requests-batch_from (update_one f u o) = refl
  requests-batch_from (update_many f u o) = refl

  -- A model that is left over opens a batch of its own.
  left_over :
      (xs : List (WriteModel D)) (m : WriteModel D)
      → xs ++ (requests_of (batch_from m) ++ []) ≡ xs ++ sent_as m ∷ []
  left_over xs m = ap (λ ys. xs ++ (ys ++ [])) (requests-batch_from m)

  merge-requests :
      (b : Batch D) (m : WriteModel D)
      → all_requests (after_merge (merge_model b m)) ≡ requests_of b ++ sent_as m ∷ []
  unfolding requests_of merge_model delete_request update_request
  merge-requests (insert v) (insert_one d) = append-nil _ ∙ map-append_one insert_one v d
  merge-requests (insert v) (delete_one f) = left_over _ (delete_one f)
  merge-requests (insert v) (delete_many f) = left_over _ (delete_many f)
  merge-requests (insert v) (replace_one f u o) = left_over _ (replace_one f u o)
  merge-requests (insert v) (update_one f u o) = left_over _ (update_one f u o)
  merge-requests (insert v) (update_many f u o) = left_over _ (update_many f u o)
  merge-requests (delete v) (insert_one d) = left_over _ (insert_one d)
  merge-requests (delete v) (delete_one f) = append-nil _ ∙ map-append_one delete_request v _
  merge-requests (delete v) (delete_many f) = append-nil _ ∙ map-append_one delete_request v _
  merge-requests (delete v) (replace_one f u o) = left_over _ (replace_one f u o)
  merge-requests (delete v) (update_one f u o) = left_over _ (update_one f u o)
  merge-requests (delete v) (update_many f u o) = left_over _ (update_many f u o)
  merge-requests (update v) (insert_one d) = left_over _ (insert_one d)
  merge-requests (update v) (delete_one f) = left_over _ (delete_one f)
  merge-requests (update v) (delete_many f) = left_over _ (delete_many f)
  merge-requests (update v) (replace_one f u o) = append-nil _ ∙ map-append_one update_request v _
  merge-requests (update v) (update_one f u o) = append-nil _ ∙ map-append_one update_request v _
  merge-requests (update v) (update_many f u o) = append-nil _ ∙ map-append_one update_request v _

  push_model-requests :
      (bs : List (Batch D)) (m : WriteModel D)
      → all_requests (push_model bs m) ≡ all_requests bs ++ sent_as m ∷ []
  unfolding push_model
  push_model-requests [] m = append-nil _ ∙ requests-batch_from m
  push_model-requests (b ∷ []) m =
      merge-requests b m ∙ ap (λ xs. xs ++ sent_as m ∷ []) (sym (append-nil (requests_of b)))
  push_model-requests (b ∷ c ∷ bs) m =
      ap (λ xs. requests_of b ++ xs) (push_model-requests (c ∷ bs) m)
      ∙ sym (append_assoc (requests_of b) (all_requests (c ∷ bs)) (sent_as m ∷ []))

  push_models-requests :
      (bs : List (Batch D)) (ms : List (WriteModel D))
      → all_requests (push_models bs ms) ≡ all_requests bs ++ map sent_as ms
  unfolding push_models
  push_models-requests bs [] = sym (append-nil _)
  push_models-requests bs (m ∷ ms) =
      push_models-requests (push_model bs m) ms
      ∙ ap (λ xs. xs ++ map sent_as ms) (push_model-requests bs m)
      ∙ append_assoc (all_requests bs) (sent_as m ∷ []) (map sent_as ms)

  -- The ordered batches carry out the requests one for one and in their order; only a replacement
  -- stands as an update of one document.
  pub get_ordered_batches-requests :
      (requests : List (WriteModel D))
      → all_requests (get_ordered_batches requests) ≡ map sent_as requests
  unfolding get_ordered_batches
  get_ordered_batches-requests [] = refl
  get_ordered_batches-requests (m ∷ ms) =
      push_models-requests (batch_from m ∷ []) ms
      ∙ ap (λ xs. xs ++ map sent_as ms) (append-nil _ ∙ requests-batch_from m)
