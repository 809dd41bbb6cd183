-- ===== src/Coll/Models.antt =====
-- mongodb-cwal-rs-master/src/coll/batch.rs, with the write models of coll/options.rs and the batching of
-- coll/mod.rs. `D` is the type of `bson::Document`.
use old_mongo_rust_driver.Prelude.{
  ℕ, Bool, true, false, Option, none, some, List, [], ◌∷◌, ◌++◌, length,
}

module _ {ℓ} (D : Type ℓ) where
  -- A model in coll/options.rs.
  pub data WriteModel : Type ℓ where
    insert_one : D → WriteModel
    delete_one delete_many : D → WriteModel
    replace_one update_one update_many : D → D → Option Bool → WriteModel

  pub record DeleteModel : Type ℓ where
    pub filter : D
    pub multi : Bool

  pub record UpdateModel : Type ℓ where
    pub filter : D
    pub update : D
    pub upsert : Option Bool
    pub multi : Bool

  pub data Batch : Type ℓ where
    insert : List D → Batch
    delete : List DeleteModel → Batch
    update : List UpdateModel → Batch

module _ {ℓ} {D : Type ℓ} where
  abbrev pub new_delete : D → Bool → DeleteModel D
  new_delete f m = record { filter = f; multi = m }

  abbrev pub new_update : D → D → Option Bool → Bool → UpdateModel D
  new_update f u o m = record { filter = f; update = u; upsert = o; multi = m }

  -- `From<WriteModel> for Batch`
  unfoldable pub batch_from : WriteModel D → Batch D
  batch_from (insert_one d) = insert (d ∷ [])
  batch_from (delete_one f) = delete (new_delete f false ∷ [])
  batch_from (delete_many f) = delete (new_delete f true ∷ [])
  batch_from (replace_one f u o) = update (new_update f u o false ∷ [])
  batch_from (update_one f u o) = update (new_update f u o false ∷ [])
  batch_from (update_many f u o) = update (new_update f u o true ∷ [])

  unfoldable pub len : Batch D → ℕ
  len (insert v) = length v
  len (delete v) = length v
  len (update v) = length v

  -- The batch afterwards, and the model if it could not be merged.
  unfoldable pub merge_model : Batch D → WriteModel D → Batch D × Option (WriteModel D)
  merge_model (insert v) (insert_one d) = (insert (v ++ d ∷ []), none)
  merge_model (insert v) m = (insert v, some m)
  merge_model (delete v) (delete_one f) = (delete (v ++ new_delete f false ∷ []), none)
  merge_model (delete v) (delete_many f) = (delete (v ++ new_delete f true ∷ []), none)
  merge_model (delete v) m = (delete v, some m)
  merge_model (update v) (replace_one f u o) = (update (v ++ new_update f u o false ∷ []), none)
  merge_model (update v) (update_one f u o) = (update (v ++ new_update f u o false ∷ []), none)
  merge_model (update v) (update_many f u o) = (update (v ++ new_update f u o true ∷ []), none)
  merge_model (update v) m = (update v, some m)

  -- The last batch after a merge, followed by a new one if the model is left over.
  abbrev pub after_merge : Batch D × Option (WriteModel D) → List (Batch D)
  after_merge (b, none) = b ∷ []
  after_merge (b, some m) = b ∷ batch_from m ∷ []

  -- One round of the loop of `get_ordered_batches`, which merges into the last batch; there is one.
  unfoldable pub push_model : List (Batch D) → WriteModel D → List (Batch D)
  push_model [] m = batch_from m ∷ []
  push_model (b ∷ []) m = after_merge (merge_model b m)
  push_model (b ∷ c ∷ bs) m = b ∷ push_model (c ∷ bs) m

  unfoldable pub push_models : List (Batch D) → List (WriteModel D) → List (Batch D)
  push_models bs [] = bs
  push_models bs (m ∷ ms) = push_models (push_model bs m) ms

  unfoldable pub get_ordered_batches : List (WriteModel D) → List (Batch D)
  get_ordered_batches [] = []
  get_ordered_batches (m ∷ ms) = push_models (batch_from m ∷ []) ms

  -- The vectors of `get_unordered_batches`, filled in the order of the requests.
  unfoldable pub collect :
      List D → List (DeleteModel D) → List (UpdateModel D) → List (WriteModel D) → List (Batch D)
  collect is ds us [] = insert is ∷ delete ds ∷ update us ∷ []
  collect is ds us (insert_one d ∷ ms) = collect (is ++ d ∷ []) ds us ms
  collect is ds us (delete_one f ∷ ms) = collect is (ds ++ new_delete f false ∷ []) us ms
  collect is ds us (delete_many f ∷ ms) = collect is (ds ++ new_delete f true ∷ []) us ms
  collect is ds us (replace_one f u o ∷ ms) = collect is ds (us ++ new_update f u o false ∷ []) ms
  collect is ds us (update_one f u o ∷ ms) = collect is ds (us ++ new_update f u o false ∷ []) ms
  collect is ds us (update_many f u o ∷ ms) = collect is ds (us ++ new_update f u o true ∷ []) ms

  unfoldable pub get_unordered_batches : List (WriteModel D) → List (Batch D)
  get_unordered_batches = collect [] [] []
