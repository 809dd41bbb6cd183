-- ===== src/Gridfs/Close.antt =====
-- gridfs/file.rs: `close`. The collections are a parameter: what each request answers in a state of the outside
-- world. The time and the digest of the md5 hash are parameters, too.
use old_mongo_rust_driver.Prelude.{ℕ, Option, none, some, List}
use old_mongo_rust_driver.Prelude.Text.{Text}
use old_mongo_rust_driver.Bson.{Document}
use old_mongo_rust_driver.Error.{Error, Result, ok, err}
use old_mongo_rust_driver.Gridfs.Gfs.{GfsFile, Date, dated_doc}
use old_mongo_rust_driver.Gridfs.File.{
  Mode, closed, reading, writing, File, Schedule, Outcome, done, failed, waits, err_description,
}
use old_mongo_rust_driver.Gridfs.Write.{flush, checked}

-- `insert_one` and `create_index` on the files, `create_index` and `delete_many` on the chunks
pub data Request : Type 0 where
  insert_file : Document → Request
  index_names index_chunks : Request
  delete_chunks : ℕ → Request

-- The outside world, the file and the answer.
pub record Closing {ℓ} (W : Type ℓ) : Type ℓ where
  pub world : W
  pub file : File
  pub outcome : Outcome (Unit {0})

module _ {ℓ} {W : Type ℓ} (serve : Request → W → W × Result (Unit {0})) where
  -- One request after another, up to the first error.
  unfoldable pub then_request : W × Result (Unit {0}) → Request → W × Result (Unit {0})
  then_request (w, ok _) r = serve r w
  then_request (w, err e) r = (w, err e)

  abbrev pub date_of : Date → Option Date → Date
  date_of now none = now
  date_of now (some date) = date

  -- The document of a file that is completed.
  unfoldable pub completed : Date → (List ℕ → Text) → File → GfsFile
  completed now digest f = record f.doc {
    upload_date = some (date_of now f.doc.upload_date);
    md5 = digest f.wsum;
  }

  unfoldable pub complete_file : Date → (List ℕ → Text) → File → W → W × File × Result (Unit {0})
  unfolding completed
  complete_file now digest f w =
      let doc = completed now digest f in
      let date = date_of now f.doc.upload_date in
      let (v, r) =
        then_request (then_request (serve (insert_file (dated_doc date doc)) w) index_names)
          index_chunks in
      (v, record f { doc = doc }, r)

  -- With an error, the chunks are removed instead.
  unfoldable pub complete_write :
      Date → (List ℕ → Text) → Option Error → File → W → W × File × Result (Unit {0})
  complete_write now digest none f w = complete_file now digest f w
  complete_write now digest (some e) f w =
      let (v, r) = serve (delete_chunks f.doc.id) w in (v, f, r)

  unfoldable pub wipe_cache : Mode → File → File
  wipe_cache reading f = record f { rcache = none }
  wipe_cache writing f = f
  wipe_cache closed f = f

  unfoldable pub set_closed : W × File × Result (Unit {0}) → Closing W
  unfolding wipe_cache
  set_closed (w, f, err e) = record { world = w; file = f; outcome = failed e }
  set_closed (w, f, ok _) =
      let g = wipe_cache f.mode f in
      record {
        world = w;
        file = record g { mode = closed };
        outcome = checked (ok tt) (err_description g);
      }

  unfoldable pub complete : Date → (List ℕ → Text) → Mode → File → W → Closing W
  unfolding set_closed
  complete now digest writing f w = set_closed (complete_write now digest (err_description f) f w)
  complete now digest reading f w = set_closed (w, f, ok tt)
  complete now digest closed f w = set_closed (w, f, ok tt)

  unfoldable pub after_flush : Date → (List ℕ → Text) → Outcome (Unit {0}) → File → W → Closing W
  after_flush now digest (done _) f w = complete now digest f.mode f w
  after_flush now digest (failed e) f w = record { world = w; file = f; outcome = failed e }
  after_flush now digest waits f w = record { world = w; file = f; outcome = waits }

  unfoldable pub close_in :
      Date → (List ℕ → Text) → (ℕ → Result ℕ) → Mode → File → Schedule → W → Closing W
  close_in now digest new_id writing f s w =
      let r = flush new_id f s in after_flush now digest r.outcome r.file w
  close_in now digest new_id reading f s w = complete now digest reading f w
  close_in now digest new_id closed f s w = complete now digest closed f w

  unfoldable pub close : Date → (List ℕ → Text) → (ℕ → Result ℕ) → File → Schedule → W → Closing W
  unfolding close_in after_flush
  close now digest new_id f s w = close_in now digest new_id f.mode f s w
