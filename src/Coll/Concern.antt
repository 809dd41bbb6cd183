-- ===== src/Coll/Concern.antt =====
-- coll/mod.rs: insertions, and the collection's write concern.
use old_mongo_rust_driver.Prelude.{◌≡◌, refl, sym, ◌∙◌, Option, none, some, List, [], ◌∷◌, map}
use old_mongo_rust_driver.Bson.{Bson, Document, get}
use old_mongo_rust_driver.Prelude.Text.{text}
use old_mongo_rust_driver.Error.{Result, ok, err}
use old_mongo_rust_driver.Coll.Results.{WriteConcern, BulkWriteException}
use old_mongo_rust_driver.Coll.Writes.{
  Outside, Collection, InsertManyOptions, ◌>=>◌, identify, identify_all, checked_command,
  insert_command, insert_documents, insert_many, or_default, concern_of,
}
use old_mongo_rust_driver.Coll.Single.{insert_one}

abbrev pub concerned : WriteConcern → Collection → Collection
concerned wc coll = record coll { write_concern = wc }

module _ {ℓ} {S : Type ℓ} (o : Outside S) (coll : Collection) (wc : WriteConcern) where
  abbrev other : Collection
  other = concerned wc coll

  then_same {κ μ} :
      {A : Type κ} {B : Type μ} (x : S × Result A) (f g : S → A → S × Result B)
      → ((s : S) (a : A) → f s a ≡ g s a)
      → ◌>=>◌ o other x f ≡ ◌>=>◌ o coll x g
  then_same (s, ok a) f g h = h s a
  then_same (s, err e) f g h = refl

  -- Only the outside is compared.
  then_outside {κ μ} :
      {A : Type κ} {B : Type μ} (x : S × Result A) (f g : S → A → S × Result B)
      → ((s : S) (a : A) → (f s a).0 ≡ (g s a).0)
      → (◌>=>◌ o other x f).0 ≡ (◌>=>◌ o coll x g).0
  then_outside (s, ok a) f g h = h s a
  then_outside (s, err e) f g h = refl

  -- What follows leaves the outside alone.
  outside_of {κ μ} :
      {A : Type κ} {B : Type μ} (c : Collection) (x : S × Result A) (f : S → A → S × Result B)
      → ((s : S) (a : A) → (f s a).0 ≡ s)
      → (◌>=>◌ o c x f).0 ≡ x.0
  outside_of c (s, ok a) f h = h s a
  outside_of c (s, err e) f h = refl

  identify-same :
      (d : Document) (id : Option Bson) (s : S) → identify o other d id s ≡ identify o coll d id s
  unfolding identify
  identify-same d (some id) s = refl
  identify-same d none s = then_same (o.new_id s) _ _ (λ t n. refl)

  identify_all-same :
      (ds : List Document) (s : S) → identify_all o other ds s ≡ identify_all o coll ds s
  unfolding identify_all
  identify_all-same [] s = refl
  identify_all-same (d ∷ ds) s = rw (identify-same d (get (text "_id") d) s) (
      then_same (identify o coll d (get (text "_id") d) s) _ _ (λ t x.
        rw (identify_all-same ds t) (then_same (identify_all o coll ds t) _ _ (λ u xs. refl))))

  command-outside :
      (cmd : Document) (a b : WriteConcern) (s : S)
      → (checked_command o other cmd a s).0 ≡ (checked_command o coll cmd b s).0
  unfolding checked_command
  command-outside cmd a b s = then_outside (o.command s cmd) _ _ (λ t reply. refl)

  documents-outside :
      (docs : List Document) (options : Option InsertManyOptions) (c : Option WriteConcern) (s : S)
      → (insert_documents o other docs options c s).0 ≡ (insert_documents o coll docs options c s).0
  unfolding insert_documents
  documents-outside docs options c s = rw (identify_all-same docs s) (
      then_outside (identify_all o coll docs s) _ _ (λ t xs.
        let cmd = insert_command o coll (map (λ x. x.1) xs) options in
        outside_of other (checked_command o other cmd (or_default c wc) t) _ (λ u r. refl)
        ∙ command-outside cmd (or_default c wc) (or_default c coll.write_concern) t
        ∙ sym (
            outside_of coll (checked_command o coll cmd (or_default c coll.write_concern) t) _
              (λ u r. refl))))

  after_documents {κ} :
      {B : Type κ} (docs : List Document) (options : Option InsertManyOptions)
      (c : Option WriteConcern) (s : S)
      (f : S → List Bson × Option BulkWriteException → S × Result B)
      → ((t : S) (r : List Bson × Option BulkWriteException) → (f t r).0 ≡ t)
      → (◌>=>◌ o other (insert_documents o other docs options c s) f).0
        ≡ (◌>=>◌ o coll (insert_documents o coll docs options c s) f).0
  after_documents docs options c s f h =
      outside_of other (insert_documents o other docs options c s) f h
      ∙ documents-outside docs options c s
      ∙ sym (outside_of coll (insert_documents o coll docs options c s) f h)

  -- Whatever the collection's write concern, `insert_many` and `insert_one` do the same to the outside, where the
  -- server is: only the write concern of their options is sent.
  pub insert_many_ignores_write_concern :
      (docs : List Document) (options : Option InsertManyOptions) (d : Document)
      (c : Option WriteConcern) (s : S)
      → ((insert_many o (concerned wc coll) docs options s).0
          ≡ (insert_many o coll docs options s).0)
        × ((insert_one o (concerned wc coll) d c s).0 ≡ (insert_one o coll d c s).0)
  unfolding insert_many insert_one
  insert_many_ignores_write_concern docs options d c s = (
    after_documents docs options (concern_of o coll options) s _ (λ t r. refl),
    after_documents (d ∷ []) (some (record { ordered = none; write_concern = c })) c s _
        (λ t r. refl),
  )
