-- ===== src/Gridfs/Examples.antt =====
-- gridfs/file.rs: the theorems of this component for a file in chunks of four bytes.
use old_mongo_rust_driver.Prelude.{
  ℕ, zero, suc, ◌+◌, ◌≡◌, ◌≢◌, refl, sym, ◌∙◌, ap, subst, Bool, Option, none, some, List, [], ◌∷◌,
  All, arith, map,
}
use old_mongo_rust_driver.Prelude.Int.{
  ℤ, pos, pos_part, add_i32, add_i64, mul_i32, to_i32, eqb_ℤ, as_usize, sub_usize, ◌+ℤ◌, ◌-ℤ◌,
}
use old_mongo_rust_driver.Prelude.Text.{text, text_eq}
use old_mongo_rust_driver.Bson.{Bson, object_id, i32, Document, get}
use old_mongo_rust_driver.Error.{io_error, Result, ok}
use old_mongo_rust_driver.Coll.Single.{InsertOneResult}
use old_mongo_rust_driver.Gridfs.Gfs.{GfsFile, new, to_bson, read_back, with_doc-to_bson}
use old_mongo_rust_driver.Gridfs.File.{
  reading, writing, File, Insert, Event, ends, Schedule, Run, run, stored, done, waits,
  with_gfs_file, flying, complete, finish, finish_all, continue, err_description, assert_mode,
  is_loaded, chunk_document, spawn, insert_chunk, in_flight, refused,
}
use old_mongo_rust_driver.Gridfs.Write.{
  await_load, await_all, number_chunk, send_chunk, clear_buffer, write_chunks, send_buffer,
  write_full, write_bytes, write, flush_sent, flush_buffer, flush,
}
use old_mongo_rust_driver.Gridfs.Close.{Request, close}
use old_mongo_rust_driver.Gridfs.Content.{Holds, Wrote, write-Wrote}
use old_mongo_rust_driver.Gridfs.Frame.{Ensures, documents}
use old_mongo_rust_driver.Gridfs.Tracking.{IsAccepted}
use old_mongo_rust_driver.Gridfs.Flushed.{IsUploaded}
use old_mongo_rust_driver.Gridfs.Upload.{flush-IsUploaded}
use old_mongo_rust_driver.Gridfs.Read.{find_chunk, found, data_of}
use old_mongo_rust_driver.Gridfs.Reading.{Has}
use old_mongo_rust_driver.Gridfs.Refinement.{read_all, cursor, read_all-cursor}
use old_mongo_rust_driver.Gridfs.Found.{Finds}
use old_mongo_rust_driver.Gridfs.RoundTrip.{upload, read_all-upload}
use old_mongo_rust_driver.Gridfs.Returns.{Ends}
use old_mongo_rust_driver.Gridfs.Termination.{upload_returns}
use old_mongo_rust_driver.Gridfs.Failing.{close_keeps_chunks}

-- The object ids count up.
abbrev pub new_id : ℕ → Result ℕ
new_id n = ok (100 + n)

abbrev pub four : GfsFile
four = record (new 1) { chunk_size = pos 4 }

-- What `insert_one` gives for a chunk that the server inserted.
abbrev pub inserted : Result InsertOneResult
inserted = ok (record { inserted_id = some (object_id 7); write_exception = none })

-- Nine bytes in two writes; a thread ends between them, and the others in the waits of the flush.
abbrev parts : List (List ℕ × List Event)
parts = (1 ∷ 2 ∷ 3 ∷ [], []) ∷ (4 ∷ 5 ∷ 6 ∷ 7 ∷ 8 ∷ 9 ∷ [], ends 0 inserted ∷ []) ∷ []

abbrev schedule : Schedule
schedule = (ends 1 inserted ∷ []) ∷ [] ∷ (ends 0 inserted ∷ []) ∷ []

abbrev pub chunk : ℕ → List ℕ → Insert
chunk n b = record { document = chunk_document (100 + n) 1 (pos n) b; status = stored }

-- The second write puts its bytes into the hash twice.
abbrev nine : File
nine = record (with_gfs_file four writing) {
  chunk_num = pos 3;
  wsum = 4 ∷ 5 ∷ 6 ∷ 7 ∷ 8 ∷ 9 ∷ 4 ∷ 5 ∷ 6 ∷ 7 ∷ 8 ∷ 9 ∷ 9 ∷ [];
  doc = record four { len = pos 9 };
  inserts = chunk 0 (1 ∷ 2 ∷ 3 ∷ 4 ∷ []) ∷ chunk 1 (5 ∷ 6 ∷ 7 ∷ 8 ∷ []) ∷ chunk 2 (9 ∷ []) ∷ [];
  made = 3;
}

upload_runs : upload new_id parts (with_gfs_file four writing) schedule ≡ run (done tt) nine []
unfolding upload continue write assert_mode with_gfs_file err_description write_bytes as_usize
    finish_all write_full send_buffer send_chunk await_load is_loaded mul_i32 number_chunk
    insert_chunk write_chunks chunk_document complete finish flying spawn await_all clear_buffer
    flush flush_buffer flush_sent add_i32 add_i64 sub_usize to_i32 ◌+ℤ◌ ◌-ℤ◌ new
upload_runs = refl

abbrev pub nth : List Document → ℕ → Option Document
nth [] n = none
nth (d ∷ ds) zero = some d
nth (d ∷ ds) (suc n) = nth ds n

-- The collection, by the number alone.
abbrev find_one : ℕ → ℤ → Result (Option Document)
find_one id n = ok (nth (documents nine.inserts) (pos_part n))

abbrev number : Option Bson → ℤ
number (some (i32 n)) = n
number _ = pos 0

pub found_by_number :
    (find : ℕ → ℤ → Result (Option Document)) (d : Document) (k : ℕ)
    → ((id : ℕ) → find id (pos k) ≡ ok (some d))
    → get (text "n") d ≡ some (i32 (pos k))
    → (id : ℕ) (n : ℤ) → get (text "n") d ≡ some (i32 n)
    → find id n ≡ ok (some d)
found_by_number find d k f h id n e =
    subst (λ z. find id z ≡ ok (some d)) (ap number (sym h ∙ e)) (f id)

served : All (Finds find_one) nine.inserts
unfolding chunk_document get text_eq
served = (
  λ id n s a b.
      found_by_number find_one (chunk 0 (1 ∷ 2 ∷ 3 ∷ 4 ∷ [])).document 0 (λ i. refl) refl id n b,
  (
    λ id n s a b.
        found_by_number find_one (chunk 1 (5 ∷ 6 ∷ 7 ∷ 8 ∷ [])).document 1 (λ i. refl) refl id n b,
    (
      λ id n s a b. found_by_number find_one (chunk 2 (9 ∷ [])).document 2 (λ i. refl) refl id n b,
      tt,
    ),
  ),
)

-- No preloaded chunk is late but the second.
abbrev late : ℤ → Bool
late n = eqb_ℤ n (pos 1)

abbrev opened : GfsFile
opened = record four { len = pos 9; md5 = text "0" }

read_all-upload_example :
    read_all find_one late (4 ∷ 3 ∷ 5 ∷ []) (with_gfs_file opened reading)
    ≡ cursor (4 ∷ 3 ∷ 5 ∷ []) (1 ∷ 2 ∷ 3 ∷ 4 ∷ 5 ∷ 6 ∷ 7 ∷ 8 ∷ 9 ∷ [])
unfolding new
read_all-upload_example =
    read_all-upload new_id 4 (omega arith) (omega arith) find_one late four parts schedule opened
      (4 ∷ 3 ∷ 5 ∷ []) refl refl (omega arith) (ap (λ r. r.outcome) upload_runs)
      (subst (λ (r : Run (Unit {0})). All IsAccepted r.file.inserts) (sym upload_runs)
        (λ e. cc, (λ e. cc, (λ e. cc, tt))))
      (subst (λ (r : Run (Unit {0})). All (Finds find_one) r.file.inserts) (sym upload_runs) served)
      (ap (λ (r : Run (Unit {0})). r.file.doc.id) (sym upload_runs))
      (ap (λ (r : Run (Unit {0})). r.file.doc.len) (sym upload_runs))
      (ap (λ (r : Run (Unit {0})). r.file.doc.chunk_size) (sym upload_runs))

read_runs :
    cursor (4 ∷ 3 ∷ 5 ∷ []) (1 ∷ 2 ∷ 3 ∷ 4 ∷ 5 ∷ 6 ∷ 7 ∷ 8 ∷ 9 ∷ [])
    ≡ done (1 ∷ 2 ∷ 3 ∷ 4 ∷ []) ∷ done (5 ∷ 6 ∷ 7 ∷ []) ∷ done (8 ∷ 9 ∷ []) ∷ []
unfolding cursor
read_runs = refl

-- Every wait sees the oldest thread end.
abbrev one_each : ℕ → Schedule
one_each zero = []
one_each (suc n) = (ends 0 inserted ∷ []) ∷ one_each n

each_Ends : (n : ℕ) → All Ends (one_each n)
each_Ends zero = tt
each_Ends (suc n) = (tt, each_Ends n)

upload_returns_example :
    (upload new_id parts (with_gfs_file four writing) (one_each 12)).outcome ≢ waits
upload_returns_example =
    upload_returns new_id 4 (omega arith) four parts (one_each 12) refl (each_Ends 12) (omega arith)

abbrev broken : File
broken = record (with_gfs_file four writing) { err = some (io_error 5) }

abbrev serve : Request → List Request → List Request × Result (Unit {0})
serve r rs = (r ∷ rs, ok tt)

close_keeps_chunks_example :
    let c = close serve (pos 0) (λ xs. xs) new_id broken [] [] in
    (c.world ≡ []) × (c.outcome ≢ done tt)
unfolding with_gfs_file
close_keeps_chunks_example =
    close_keeps_chunks new_id serve (pos 0) (λ xs. xs) broken [] [] (io_error 5) refl refl

with_doc-to_bson_example :
    read_back (to_bson (record opened { upload_date = some (pos 7) }))
    ≡ some (record opened { aliases = []; upload_date = some (pos 7) })
with_doc-to_bson_example =
    with_doc-to_bson (record opened { upload_date = some (pos 7) }) (pos 7) refl

held : Holds 4 [] (with_gfs_file four writing)
unfolding with_gfs_file new
held = record {
  sized = refl;
  measured = refl;
  counted = refl;
  pieces = tt;
  joined = refl;
  buffered = omega arith;
}

write-Wrote_example :
    let r = write new_id (1 ∷ 2 ∷ 3 ∷ 4 ∷ 5 ∷ []) (with_gfs_file four writing) [] in
    Wrote 4 [] (1 ∷ 2 ∷ 3 ∷ 4 ∷ 5 ∷ []) r.outcome r.file
write-Wrote_example =
    write-Wrote new_id 4 (1 ∷ 2 ∷ 3 ∷ 4 ∷ 5 ∷ []) [] (with_gfs_file four writing) [] held
      (omega arith) (omega arith) (omega arith)

-- Six bytes were written: the first four are on their way, and two are in the buffer.
abbrev six : File
six = record (with_gfs_file four writing) {
  chunk_num = pos 1;
  wpending = 1;
  wbuf = 5 ∷ 6 ∷ [];
  doc = record four { len = pos 6 };
  inserts =
      record { document = chunk_document 100 1 (pos 0) (1 ∷ 2 ∷ 3 ∷ 4 ∷ []); status = in_flight }
      ∷ [];
  made = 1;
}

six_held : Holds 4 (1 ∷ 2 ∷ 3 ∷ 4 ∷ 5 ∷ 6 ∷ []) six
unfolding with_gfs_file new chunk_document get text_eq found data_of
six_held = record {
  sized = refl;
  measured = refl;
  counted = refl;
  pieces = ((refl, refl, refl, refl), tt);
  joined = refl;
  buffered = omega arith;
}

-- What `insert_one` gives for a chunk that the server refused.
abbrev not_inserted : Result InsertOneResult
not_inserted = ok (record {
  inserted_id = none;
  write_exception = some (record {
    write_concern_error = none;
    write_error = some (record { code = pos 11000; message = text "duplicate key" });
    message = [];
  });
})

-- The flush waits for both threads: the server refuses one chunk, and inserts the other.
abbrev one_refused : Schedule
one_refused = (ends 1 not_inserted ∷ []) ∷ [] ∷ (ends 0 inserted ∷ []) ∷ []

flush-IsUploaded_example :
    Ensures (IsUploaded 4 (1 ∷ 2 ∷ 3 ∷ 4 ∷ 5 ∷ 6 ∷ [])) (flush new_id six one_refused)
unfolding with_gfs_file flying
flush-IsUploaded_example =
    flush-IsUploaded new_id 4 (omega arith) (1 ∷ 2 ∷ 3 ∷ 4 ∷ 5 ∷ 6 ∷ []) six one_refused six_held
      (record { pending = omega arith; reported = λ q. refl })

-- The flush is done all the same.
six_flushed :
    let r = flush new_id six one_refused in
    (r.outcome ≡ done tt) × (map (λ (c : Insert). c.status) r.file.inserts ≡ stored ∷ refused ∷ [])
unfolding continue assert_mode with_gfs_file err_description finish_all await_load is_loaded mul_i32
    number_chunk insert_chunk chunk_document complete finish flying spawn await_all clear_buffer
    flush flush_buffer flush_sent add_i32 to_i32 ◌+ℤ◌ ◌-ℤ◌ new
six_flushed = (refl, refl)

nine_lookup : Has (find_chunk find_one late 1) (1 ∷ 2 ∷ 3 ∷ 4 ∷ 5 ∷ 6 ∷ 7 ∷ 8 ∷ 9 ∷ []) 4
unfolding find_chunk found data_of chunk_document get text_eq
nine_lookup zero l = refl
nine_lookup (suc zero) l = refl
nine_lookup (suc (suc zero)) l = refl
nine_lookup (suc (suc (suc n))) l = absurd (omega arith)

read_all-cursor_example :
    read_all find_one late (4 ∷ 20 ∷ []) (with_gfs_file opened reading)
    ≡ cursor (4 ∷ 20 ∷ []) (1 ∷ 2 ∷ 3 ∷ 4 ∷ 5 ∷ 6 ∷ 7 ∷ 8 ∷ 9 ∷ [])
unfolding with_gfs_file new
read_all-cursor_example =
    read_all-cursor find_one late 1 (1 ∷ 2 ∷ 3 ∷ 4 ∷ 5 ∷ 6 ∷ 7 ∷ 8 ∷ 9 ∷ []) 9 4 (omega arith)
      (omega arith) (omega arith) (omega arith, λ c. refl) nine_lookup (4 ∷ 20 ∷ []) 0 0
      (with_gfs_file opened reading)
      (record {
        is_reading = refl;
        is_file = refl;
        sized = refl;
        measured = refl;
        counted = refl;
        placed = refl;
        buffered = refl;
        fetched = omega arith;
        within = omega arith;
        cached = tt;
      })
