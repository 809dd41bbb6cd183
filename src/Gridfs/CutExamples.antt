-- ===== src/Gridfs/CutExamples.antt =====
-- gridfs/file.rs: two bytes, a flush and a third byte, in a file with chunks of four bytes.
use old_mongo_rust_driver.Prelude.{
  ℕ, ◌≡◌, refl, sym, ◌∙◌, ap, subst, Option, List, [], ◌∷◌, All, arith,
}
use old_mongo_rust_driver.Prelude.Int.{
  ℤ, pos, pos_part, add_i32, add_i64, mul_i32, to_i32, eqb_ℤ, as_usize, ◌+ℤ◌, ◌-ℤ◌,
}
use old_mongo_rust_driver.Prelude.Text.{text, text_eq}
use old_mongo_rust_driver.Bson.{Document, get}
use old_mongo_rust_driver.Error.{Result, ok}
use old_mongo_rust_driver.Gridfs.Gfs.{GfsFile, new}
use old_mongo_rust_driver.Gridfs.File.{
  reading, writing, File, Event, ends, Schedule, Run, run, done, with_gfs_file, flying, complete,
  finish, finish_all, continue, err_description, assert_mode, is_loaded, chunk_document, spawn,
  insert_chunk,
}
use old_mongo_rust_driver.Gridfs.Write.{
  await_load, await_all, number_chunk, clear_buffer, write_bytes, write, flush_sent, flush_buffer,
  flush,
}
use old_mongo_rust_driver.Gridfs.Frame.{documents}
use old_mongo_rust_driver.Gridfs.Tracking.{IsAccepted}
use old_mongo_rust_driver.Gridfs.Refinement.{read_all, cursor}
use old_mongo_rust_driver.Gridfs.Found.{Finds}
use old_mongo_rust_driver.Gridfs.RoundTrip.{upload}
use old_mongo_rust_driver.Gridfs.Cut.{read_all_misses_second_upload}
use old_mongo_rust_driver.Gridfs.Examples.{new_id, four, chunk, inserted, nth, found_by_number}

abbrev parts : List (List ℕ × List Event)
parts = (1 ∷ 2 ∷ [], []) ∷ []

abbrev more : List (List ℕ × List Event)
more = (3 ∷ [], []) ∷ []

-- The thread ends in the wait of the flush.
abbrev schedule : Schedule
schedule = (ends 0 inserted ∷ []) ∷ []

abbrev two : File
two = record (with_gfs_file four writing) {
  chunk_num = pos 1;
  wsum = 1 ∷ 2 ∷ [];
  doc = record four { len = pos 2 };
  inserts = chunk 0 (1 ∷ 2 ∷ []) ∷ [];
  made = 1;
}

abbrev three : File
three = record two {
  chunk_num = pos 2;
  wsum = 1 ∷ 2 ∷ 3 ∷ [];
  doc = record four { len = pos 3 };
  inserts = chunk 0 (1 ∷ 2 ∷ []) ∷ chunk 1 (3 ∷ []) ∷ [];
  made = 2;
}

first_runs : upload new_id parts (with_gfs_file four writing) schedule ≡ run (done tt) two []
unfolding upload continue write assert_mode with_gfs_file err_description write_bytes as_usize
    finish_all await_load is_loaded mul_i32 number_chunk insert_chunk chunk_document complete finish
    flying spawn await_all clear_buffer flush flush_buffer flush_sent add_i32 add_i64 to_i32 ◌+ℤ◌
    ◌-ℤ◌ new
first_runs = refl

second_runs : upload new_id more two schedule ≡ run (done tt) three []
unfolding upload continue write assert_mode with_gfs_file err_description write_bytes as_usize
    finish_all await_load is_loaded mul_i32 number_chunk insert_chunk chunk_document complete finish
    flying spawn await_all clear_buffer flush flush_buffer flush_sent add_i32 add_i64 to_i32 ◌+ℤ◌
    ◌-ℤ◌ new
second_runs = refl

both_run :
    upload new_id more (upload new_id parts (with_gfs_file four writing) schedule).file schedule
    ≡ run (done tt) three []
both_run = ap (λ (r : Run (Unit {0})). upload new_id more r.file schedule) first_runs ∙ second_runs

-- The collection, by the number alone.
abbrev find_one : ℕ → ℤ → Result (Option Document)
find_one id n = ok (nth (documents three.inserts) (pos_part n))

served : All (Finds find_one) three.inserts
unfolding chunk_document get text_eq
served = (
  λ id n s a b. found_by_number find_one (chunk 0 (1 ∷ 2 ∷ [])).document 0 (λ i. refl) refl id n b,
  (
    λ id n s a b. found_by_number find_one (chunk 1 (3 ∷ [])).document 1 (λ i. refl) refl id n b,
    tt,
  ),
)

abbrev opened : GfsFile
opened = record four { len = pos 3; md5 = text "0" }

read_all_misses_second_upload_example :
    let a = upload new_id parts (with_gfs_file four writing) schedule in
    let b = upload new_id more a.file schedule in
    (b.file.doc.len ≡ pos 3)
    × (read_all find_one (λ n. eqb_ℤ n (pos 1)) (1 ∷ 5 ∷ 5 ∷ []) (with_gfs_file opened reading)
        ≡ cursor (1 ∷ 5 ∷ 5 ∷ []) (1 ∷ 2 ∷ []))
unfolding new
read_all_misses_second_upload_example =
    read_all_misses_second_upload new_id 4 (omega arith) find_one (λ n. eqb_ℤ n (pos 1)) four parts
      more schedule schedule opened (1 ∷ 5 ∷ 5 ∷ []) refl refl (omega arith) (omega arith)
      (ap (λ r. r.outcome) first_runs) (ap (λ r. r.outcome) both_run)
      (subst (λ (r : Run (Unit {0})). All IsAccepted r.file.inserts) (sym first_runs) (λ e. cc, tt))
      (subst (λ (r : Run (Unit {0})). All (Finds find_one) r.file.inserts) (sym both_run) served)
      (ap (λ (r : Run (Unit {0})). r.file.doc.id) (sym both_run))
      (ap (λ (r : Run (Unit {0})). r.file.doc.len) (sym both_run))
      (ap (λ (r : Run (Unit {0})). r.file.doc.chunk_size) (sym both_run))
