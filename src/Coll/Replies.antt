-- ===== src/Coll/Replies.antt =====
-- coll/error.rs and coll/mod.rs: the exceptions that a server's replies give.
use old_mongo_rust_driver.Prelude.{◌≡◌, refl, Bool, Option, none, some, List, [], ◌∷◌}
use old_mongo_rust_driver.Prelude.Text.{text}
use old_mongo_rust_driver.Bson.{Document, get}
use old_mongo_rust_driver.Error.{Result, ok, err, ◌>>=◌}
use old_mongo_rust_driver.Coll.Models.{DeleteModel, UpdateModel}
use old_mongo_rust_driver.Coll.Results.{
  WriteConcern, WriteConcernError, BulkWriteError, BulkWriteException, Debug, new_exception,
  exception_of, validate_bulk_write_result, concern_error_in, errors_in,
}
use old_mongo_rust_driver.Coll.Writes.{
  Outside, Collection, InsertManyOptions, insert_many, insert_documents, identify_all, bulk_delete,
  bulk_update, checked_command, ◌>=>◌, new_delete_result, new_update_result,
}

-- The value, if the result is one, has the property.
abbrev pub OfValue {ℓ κ} : {A : Type ℓ} → (A → Type κ) → Result A → Type κ
OfValue P (ok a) = P a
OfValue P (err e) = Unit

pub record OnOk {ℓ κ} {A : Type ℓ} (P : A → Type κ) (r : Result A) : Type κ where
  pub holds : OfValue P r

on_ok {ℓ κ} : {A : Type ℓ} {P : A → Type κ} {a : A} → P a → OnOk P (ok a)
on_ok p = record { holds = p }

OnOk-bind {ℓ κ μ} :
    {A : Type ℓ} {B : Type κ} (Q : B → Type μ) (m : Result A) (f : A → Result B)
    → ((a : A) → OnOk Q (f a))
    → OnOk Q (m >>= f)
OnOk-bind Q (ok a) f h = h a
OnOk-bind Q (err e) f h = record { holds = tt }

-- An exception as a reply gives it, which names no requests.
abbrev pub IsBare : Option BulkWriteException → Type 0
IsBare none = Unit
IsBare (some e) = (e.processed_requests ≡ []) × (e.unprocessed_requests ≡ [])

exception_of-IsBare :
    (dbg : Debug) (c : Option WriteConcernError) (es : List BulkWriteError)
    → IsBare (exception_of dbg c es)
unfolding exception_of new_exception
exception_of-IsBare dbg none [] = tt
exception_of-IsBare dbg none (e ∷ es) = (refl, refl)
exception_of-IsBare dbg (some c) es = (refl, refl)

validate-IsBare :
    (dbg : Debug) (reply : Document) (wc : WriteConcern)
    → OnOk IsBare (validate_bulk_write_result dbg reply wc)
unfolding validate_bulk_write_result
validate-IsBare dbg reply wc =
    OnOk-bind IsBare (concern_error_in wc (get (text "writeConcernError") reply)) _ (λ c.
      OnOk-bind IsBare (errors_in (get (text "writeErrors") reply)) _
        (λ es. on_ok (exception_of-IsBare dbg c es)))

any_result {ℓ} : {A : Type ℓ} (r : Result A) → OnOk (λ _. Unit {0}) r
any_result (ok a) = record { holds = tt }
any_result (err e) = record { holds = tt }

module _ {ℓ} {S : Type ℓ} (o : Outside S) (coll : Collection) where
  then-OnOk {κ μ ν ξ} :
      {A : Type κ} {B : Type μ} (P : A → Type ν) (Q : B → Type ξ) (m : S × Result A)
      (f : S → A → S × Result B)
      → OnOk P m.1
      → ((t : S) (a : A) → P a → OnOk Q (f t a).1)
      → OnOk Q (◌>=>◌ o coll m f).1
  then-OnOk P Q (s, ok a) f p h = h s a p.holds
  then-OnOk P Q (s, err e) f p h = record { holds = tt }

  checked_command-IsBare :
      (cmd : Document) (wc : WriteConcern) (s : S)
      → OnOk (λ r. IsBare r.1) (checked_command o coll cmd wc s).1
  unfolding checked_command
  checked_command-IsBare cmd wc s =
      then-OnOk (λ _. Unit {0}) (λ r. IsBare r.1) (o.command s cmd) _
        (any_result (o.command s cmd).1) (λ t reply _. checked t reply)
    where
      checked :
          (t : S) (reply : Document)
          → OnOk
              (λ (r : Document × Option BulkWriteException). IsBare r.1)
              (validate_bulk_write_result o.debug reply wc >>= λ e. ok (reply, e))
      checked t reply =
          with_reply (validate_bulk_write_result o.debug reply wc)
            (validate-IsBare o.debug reply wc)
        where
          with_reply :
              (r : Result (Option BulkWriteException))
              → OnOk IsBare r
              → OnOk
                  (λ (x : Document × Option BulkWriteException). IsBare x.1)
                  (r >>= λ e. ok (reply, e))
          with_reply (ok e) b = record { holds = b.holds }
          with_reply (err e) b = record { holds = tt }

  pub bulk_delete-IsBare :
      (ds : List (DeleteModel Document)) (ordered : Bool) (s : S)
      → OnOk (λ x. IsBare x.write_exception) (bulk_delete o coll ds ordered none s).1
  unfolding bulk_delete new_delete_result
  bulk_delete-IsBare ds ordered s =
      then-OnOk (λ r. IsBare r.1) (λ x. IsBare x.write_exception) (checked_command o coll _ _ s) _
        (checked_command-IsBare _ _ s) (λ t r b. record { holds = b })

  pub bulk_update-IsBare :
      (us : List (UpdateModel Document)) (ordered : Bool) (s : S)
      → OnOk (λ x. IsBare x.write_exception) (bulk_update o coll us ordered none s).1
  unfolding bulk_update new_update_result
  bulk_update-IsBare us ordered s =
      then-OnOk (λ r. IsBare r.1) (λ x. IsBare x.write_exception) (checked_command o coll _ _ s) _
        (checked_command-IsBare _ _ s) (λ t r b. record { holds = b })

  insert_documents-IsBare :
      (docs : List Document) (options : Option InsertManyOptions) (wc : Option WriteConcern) (s : S)
      → OnOk (λ x. IsBare x.1) (insert_documents o coll docs options wc s).1
  unfolding insert_documents
  insert_documents-IsBare docs options wc s =
      then-OnOk (λ _. Unit {0}) (λ x. IsBare x.1) (identify_all o coll docs s) _
        (any_result (identify_all o coll docs s).1)
        (λ t xs _.
          then-OnOk (λ r. IsBare r.1) (λ x. IsBare x.1) (checked_command o coll _ _ t) _
            (checked_command-IsBare _ _ t) (λ u r b. record { holds = b }))

  pub insert_many-IsBare :
      (docs : List Document) (options : Option InsertManyOptions) (s : S)
      → OnOk (λ x. IsBare x.bulk_write_exception) (insert_many o coll docs options s).1
  unfolding insert_many
  insert_many-IsBare docs options s =
      then-OnOk (λ r. IsBare r.1) (λ x. IsBare x.bulk_write_exception)
        (insert_documents o coll docs options _ s) _ (insert_documents-IsBare docs options _ s)
        (λ t r b. record { holds = b })
