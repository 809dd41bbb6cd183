-- ===== src/Coll/Writes.antt =====
-- mongodb-cwal-rs-master/src/coll/mod.rs: `insert`, `insert_many`, `bulk_delete` and `bulk_update`, with
-- their results in coll/results.rs. What runs a command on the server (`Database::command`) and what makes
-- an object id are parameters, functions of a state of the outside world.
use old_mongo_rust_driver.Prelude.{
  ℕ, suc, ◌+◌, Bool, true, false, Option, none, some, List, [], ◌∷◌, map, if◌then◌else◌,
}
use old_mongo_rust_driver.Prelude.Int.{ℤ, pos, ltb_ℤ, eqb_ℤ, sub_i32}
use old_mongo_rust_driver.Prelude.Text.{Text, text, text_eq}
use old_mongo_rust_driver.Bson.{
  Bson, string, array, document, boolean, object_id, i32, i64, Values, nil, cons, Document, end,
  field, get,
}
use old_mongo_rust_driver.Error.{Result, ok, err, ◌>>=◌}
use old_mongo_rust_driver.Coll.Models.{DeleteModel, UpdateModel}
use old_mongo_rust_driver.Coll.Results.{
  WriteConcern, BulkWriteError, BulkWriteException, Debug, validate_bulk_write_result,
}

-- What lies outside of the collection: the server behind its database, object ids, printing.
pub record Outside {ℓ} (S : Type ℓ) : Type ℓ where
  pub command : S → Document → S × Result Document
  pub new_id : S → S × Result ℕ
  pub debug : Debug

pub record Collection : Type 0 where
  pub name : Text
  pub write_concern : WriteConcern

-- A `BTreeMap<i64, Bson>` is its entries in the order of their keys.
abbrev pub Ids : Type 0
Ids = List (ℤ × Bson)

unfoldable pub put : ℤ → Bson → Ids → Ids
put k v [] = (k, v) ∷ []
put k v ((j, u) ∷ rest) =
    if eqb_ℤ k j
    then (k, v) ∷ rest
    else if ltb_ℤ k j
    then (k, v) ∷ (j, u) ∷ rest
    else (j, u) ∷ put k v rest

unfoldable pub remove : ℤ → Ids → Ids
remove k [] = []
remove k ((j, u) ∷ rest) = if eqb_ℤ k j then rest else (j, u) ∷ remove k rest

pub record InsertManyResult : Type 0 where
  pub inserted_ids : Option Ids
  pub bulk_write_exception : Option BulkWriteException

pub record BulkDeleteResult : Type 0 where
  pub deleted_count : ℤ
  pub write_exception : Option BulkWriteException

pub record BulkUpdateResult : Type 0 where
  pub matched_count : ℤ
  pub modified_count : ℤ
  pub upserted_ids : Option Bson
  pub write_exception : Option BulkWriteException

-- `Document::insert`: the field is replaced, or comes last.
unfoldable pub insert_field : Text → Bson → Document → Document
insert_field k v end = field k v end
insert_field k v (field j u rest) =
    if text_eq j k then field k v rest else field j u (insert_field k v rest)

abbrev pub values : List Bson → Values
values [] = nil
values (v ∷ vs) = cons v (values vs)

-- `WriteConcern::to_bson`
abbrev pub concern_document : WriteConcern → Document
concern_document wc =
    field (text "w") (i32 wc.w)
      (field (text "wtimeout") (i32 wc.w_timeout) (field (text "j") (boolean wc.j) end))

abbrev pub or_default : Option WriteConcern → WriteConcern → WriteConcern
or_default none wc = wc
or_default (some c) wc = c

-- `InsertManyOptions`, and its document
pub record InsertManyOptions : Type 0 where
  pub ordered : Option Bool
  pub write_concern : Option WriteConcern

abbrev pub concern_option : Option WriteConcern → Document
concern_option none = end
concern_option (some wc) = field (text "writeConcern") (document (concern_document wc)) end

abbrev pub ordered_option : Option Bool → Document → Document
ordered_option none rest = rest
ordered_option (some b) rest = field (text "ordered") (boolean b) rest

unfoldable pub options_document : Option InsertManyOptions → Document
options_document none = end
options_document (some o) = ordered_option o.ordered (concern_option o.write_concern)

abbrev pub i32_in : Option Bson → ℤ
i32_in (some (i32 n)) = n
i32_in _ = pos 0

abbrev pub length_values : Values → ℕ
length_values nil = 0
length_values (cons v vs) = suc (length_values vs)

abbrev pub first_value : Values → Option Bson
first_value nil = none
first_value (cons v vs) = some v

-- The number of upserts and the first of them; the source panics on an empty array, which gives none
-- here.
unfoldable pub upserts_in : Option Bson → ℤ × Option Bson
upserts_in (some (array vs)) = (pos (length_values vs), first_value vs)
upserts_in _ = (pos 0, none)

-- `BulkDeleteResult::new`
unfoldable pub new_delete_result : Document → Option BulkWriteException → BulkDeleteResult
new_delete_result reply e = record {
  deleted_count = i32_in (get (text "n") reply);
  write_exception = e;
}

-- `BulkUpdateResult::new`
unfoldable pub new_update_result : Document → Option BulkWriteException → BulkUpdateResult
new_update_result reply e =
    let (upserted, first) = upserts_in (get (text "upserted") reply) in
    record {
      matched_count = sub_i32 (i32_in (get (text "n") reply)) upserted;
      modified_count = i32_in (get (text "nModified") reply);
      upserted_ids = first;
      write_exception = e;
    }

unfoldable pub delete_document : DeleteModel Document → Bson
delete_document m = document (
    field (text "q") (document m.filter)
      (field (text "limit") (i64 (if m.multi then pos 0 else pos 1)) end))

abbrev pub multi_field : Bool → Document
multi_field true = field (text "multi") (boolean true) end
multi_field false = end

abbrev pub upsert_field : Option Bool → Document → Document
upsert_field none rest = rest
upsert_field (some b) rest = field (text "upsert") (boolean b) rest

-- `From<UpdateModel> for Document`
unfoldable pub update_document : UpdateModel Document → Bson
update_document m = document (
    field (text "q") (document m.filter)
      (field (text "u") (document m.update) (upsert_field m.upsert (multi_field m.multi))))

-- The keys 0, 1, 2, … for the ids.
unfoldable pub enumerate : ℕ → List Bson → Ids
enumerate n [] = []
enumerate n (v ∷ vs) = (pos n, v) ∷ enumerate (n + 1) vs

unfoldable pub remove_failed : List BulkWriteError → Ids → Ids
remove_failed [] ids = ids
remove_failed (e ∷ es) ids = remove_failed es (remove e.index ids)

abbrev pub without_failed : Option BulkWriteException → Ids → Ids
without_failed none ids = ids
without_failed (some e) ids = remove_failed e.write_errors ids

module _ {ℓ} {S : Type ℓ} (o : Outside S) (coll : Collection) where
  -- An outcome that the rest of the function goes on from, unless it is an error.
  infixl 5 ◌>=>◌
  abbrev pub ◌>=>◌ {κ μ} :
      {A : Type κ} {B : Type μ} → S × Result A → (S → A → S × Result B) → S × Result B
  (s, ok a) >=> f = f s a
  (s, err e) >=> f = (s, err e)

  -- The id of a document and the document with it; a missing one is generated.
  unfoldable pub identify : Document → Option Bson → S → S × Result (Bson × Bson)
  identify d (some id) s = (s, ok (id, document d))
  identify d none s = o.new_id s >=> λ t n.
      (t, ok (object_id n, document (insert_field (text "_id") (object_id n) d)))

  unfoldable pub identify_all : List Document → S → S × Result (List (Bson × Bson))
  identify_all [] s = (s, ok [])
  identify_all (d ∷ ds) s =
      identify d (get (text "_id") d) s >=> λ t x. identify_all ds t >=> λ u xs. (u, ok (x ∷ xs))

  -- A command, whose reply is checked.
  unfoldable pub checked_command :
      Document → WriteConcern → S → S × Result (Document × Option BulkWriteException)
  checked_command cmd wc s = o.command s cmd >=> λ t reply.
      (t, validate_bulk_write_result o.debug reply wc >>= λ e. ok (reply, e))

  abbrev pub insert_command : List Bson → Option InsertManyOptions → Document
  insert_command docs options =
      field (text "insert") (string coll.name)
        (field (text "documents") (array (values docs)) (options_document options))

  unfoldable pub insert_documents :
      List Document
      → Option InsertManyOptions
      → Option WriteConcern
      → S
      → S × Result (List Bson × Option BulkWriteException)
  insert_documents docs options wc s = identify_all docs s >=> λ t xs.
      checked_command (insert_command (map (λ x. x.1) xs) options)
        (or_default wc coll.write_concern) t
      >=> λ u r. (u, ok (map (λ x. x.0) xs, r.1))

  abbrev pub concern_of : Option InsertManyOptions → Option WriteConcern
  concern_of none = none
  concern_of (some x) = x.write_concern

  abbrev pub many_result : List Bson × Option BulkWriteException → InsertManyResult
  many_result (ids, e) = record {
    inserted_ids = some (without_failed e (enumerate 0 ids));
    bulk_write_exception = e;
  }

  unfoldable pub insert_many :
      List Document → Option InsertManyOptions → S → S × Result InsertManyResult
  insert_many docs options s =
      insert_documents docs options (concern_of options) s >=> λ t r. (t, ok (many_result r))

  abbrev pub models_command : Text → Text → List Bson → Bool → WriteConcern → Document
  models_command verb models vs ordered wc = field verb (string coll.name) (
      field models (array (values vs)) (
        field (text "ordered") (boolean ordered)
          (field (text "writeConcern") (document (concern_document wc)) end)))

  unfoldable pub bulk_delete :
      List (DeleteModel Document) → Bool → Option WriteConcern → S → S × Result BulkDeleteResult
  bulk_delete models ordered wc s =
      let c = or_default wc coll.write_concern in
      checked_command
        (models_command (text "delete") (text "deletes") (map delete_document models) ordered c) c s
      >=> λ t r. (t, ok (new_delete_result r.0 r.1))

  unfoldable pub bulk_update :
      List (UpdateModel Document) → Bool → Option WriteConcern → S → S × Result BulkUpdateResult
  bulk_update models ordered wc s =
      let c = or_default wc coll.write_concern in
      checked_command
        (models_command (text "update") (text "updates") (map update_document models) ordered c) c s
      >=> λ t r. (t, ok (new_update_result r.0 r.1))
