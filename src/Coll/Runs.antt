-- ===== src/Coll/Runs.antt =====
-- coll/mod.rs: the kinds of the ordered batches.
use old_mongo_rust_driver.Prelude.{◌≡◌, ◌≢◌, refl, ◌∙◌, List, [], ◌∷◌, arith}
use old_mongo_rust_driver.Coll.Models.{
  WriteModel, insert_one, delete_one, delete_many, replace_one, update_one, update_many, Batch,
  insert, delete, update, batch_from, merge_model, after_merge, push_model, push_models,
  get_ordered_batches,
}
use old_mongo_rust_driver.Coll.Batches.{Kind, batch_kind}

module _ {ℓ} {D : Type ℓ} where
  -- Neighbours are batches of different kinds.
  abbrev pub Alternates : List (Batch D) → Type 0
  Alternates [] = Unit
  Alternates (b ∷ []) = Unit
  Alternates (b ∷ c ∷ bs) = (batch_kind b ≢ batch_kind c) × Alternates (c ∷ bs)

  -- The first batch is of this kind.
  abbrev Opens : Kind → List (Batch D) → Type 0
  Opens k [] = Unit
  Opens k (c ∷ bs) = batch_kind c ≡ k

  merge-Alternates : (b : Batch D) (m : WriteModel D) → Alternates (after_merge (merge_model b m))
  unfolding merge_model batch_from
  merge-Alternates (insert v) (insert_one d) = tt
  merge-Alternates (insert v) (delete_one f) = (λ e. cc, tt)
  merge-Alternates (insert v) (delete_many f) = (λ e. cc, tt)
  merge-Alternates (insert v) (replace_one f u o) = (λ e. cc, tt)
  merge-Alternates (insert v) (update_one f u o) = (λ e. cc, tt)
  merge-Alternates (insert v) (update_many f u o) = (λ e. cc, tt)
  merge-Alternates (delete v) (insert_one d) = (λ e. cc, tt)
  merge-Alternates (delete v) (delete_one f) = tt
  merge-Alternates (delete v) (delete_many f) = tt
  merge-Alternates (delete v) (replace_one f u o) = (λ e. cc, tt)
  merge-Alternates (delete v) (update_one f u o) = (λ e. cc, tt)
  merge-Alternates (delete v) (update_many f u o) = (λ e. cc, tt)
  merge-Alternates (update v) (insert_one d) = (λ e. cc, tt)
  merge-Alternates (update v) (delete_one f) = (λ e. cc, tt)
  merge-Alternates (update v) (delete_many f) = (λ e. cc, tt)
  merge-Alternates (update v) (replace_one f u o) = tt
  merge-Alternates (update v) (update_one f u o) = tt
  merge-Alternates (update v) (update_many f u o) = tt

  merge-Opens :
      (b : Batch D) (m : WriteModel D) → Opens (batch_kind b) (after_merge (merge_model b m))
  unfolding merge_model
  merge-Opens (insert v) m = ground arith
  merge-Opens (delete v) m = ground arith
  merge-Opens (update v) m = ground arith

  push_model-Opens :
      (b : Batch D) (bs : List (Batch D)) (m : WriteModel D)
      → Opens (batch_kind b) (push_model (b ∷ bs) m)
  unfolding push_model
  push_model-Opens b [] m = merge-Opens b m
  push_model-Opens b (c ∷ bs) m = refl

  Alternates-cons :
      (b : Batch D) (k : Kind) (bs : List (Batch D))
      → batch_kind b ≢ k
      → Opens k bs
      → Alternates bs
      → Alternates (b ∷ bs)
  Alternates-cons b k [] n o a = tt
  Alternates-cons b k (c ∷ bs) n o a = (λ e. n (e ∙ o), a)

  push_model-Alternates :
      (bs : List (Batch D)) (m : WriteModel D) → Alternates bs → Alternates (push_model bs m)
  unfolding push_model
  push_model-Alternates [] m a = tt
  push_model-Alternates (b ∷ []) m a = merge-Alternates b m
  push_model-Alternates (b ∷ c ∷ bs) m (n, a) =
      Alternates-cons b (batch_kind c) (push_model (c ∷ bs) m) n (push_model-Opens c bs m)
        (push_model-Alternates (c ∷ bs) m a)

  push_models-Alternates :
      (bs : List (Batch D)) (ms : List (WriteModel D))
      → Alternates bs
      → Alternates (push_models bs ms)
  unfolding push_models
  push_models-Alternates bs [] a = a
  push_models-Alternates bs (m ∷ ms) a =
      push_models-Alternates (push_model bs m) ms (push_model-Alternates bs m a)

  -- No two neighbours among the ordered batches are of one kind, so that each batch is as long as the
  -- order of the requests allows.
  pub get_ordered_batches-Alternates :
      (requests : List (WriteModel D)) → Alternates (get_ordered_batches requests)
  unfolding get_ordered_batches
  get_ordered_batches-Alternates [] = tt
  get_ordered_batches-Alternates (m ∷ ms) = push_models-Alternates (batch_from m ∷ []) ms tt
