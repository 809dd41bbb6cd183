-- ===== src/Gridfs/Write.antt =====
-- gridfs/file.rs: `write`, `flush` and `close`. The collection of files and the indexes are parameters: what
-- the insert of the file's document, the making of the two indexes and the removal of the chunks answer, and
-- the time and the digest of `close`.
use old_mongo_rust_driver.Prelude.{
  ℕ, zero, suc, ◌+◌, Bool, true, false, not, ◌&&◌, Option, none, some, List, [], ◌∷◌, ◌++◌, min,
  take, drop, length, is_empty, ltb, if◌then◌else◌,
}
use old_mongo_rust_driver.Prelude.Int.{ℤ, pos, add_i32, add_i64, as_usize, sub_usize}
use old_mongo_rust_driver.Error.{Error, Result, ok, err}
use old_mongo_rust_driver.Gridfs.File.{
  writing, File, Schedule, finish_all, Outcome, done, failed, waits, Run, run, ◌>>>◌,
  err_description, assert_mode, is_loaded, insert_chunk,
}

-- A lifted `Result`.
abbrev pub outcome_of {ℓ} : {A : Type ℓ} → Result A → Outcome A
outcome_of (ok a) = done a
outcome_of (err e) = failed e

abbrev pub stop_on : Option Error → File → Schedule → Run (Unit {0}) → Run (Unit {0})
stop_on none f s rest = rest
stop_on (some e) f s rest = run (failed e) f s

-- The wait for the load to reduce: in `write`, which stops at an error, and in `flush`.
unfoldable pub await_load : Bool → File → Schedule → Run (Unit {0})
await_load checks f [] = run (if is_loaded f then waits else done tt) f []
await_load checks f (es ∷ s) =
    let g = finish_all es f in
    let rest = await_load checks g s in
    if is_loaded f
    then if checks then stop_on (err_description g) g s rest else rest
    else run (done tt) f (es ∷ s)

-- The wait for all pending writes.
unfoldable pub await_all : File → Schedule → Run (Unit {0})
await_all f [] = run (if ltb 0 f.wpending then waits else done tt) f []
await_all f (es ∷ s) =
    let rest = await_all (finish_all es f) s in
    if ltb 0 f.wpending then rest else run (done tt) f (es ∷ s)

-- Chunk `chunk` is numbered, the bytes `hashed` go into the hash, and then it is sent when there is room.
unfoldable pub number_chunk : List ℕ → File → File
number_chunk hashed f = record f {
  chunk_num = add_i32 f.chunk_num (pos 1);
  wsum = f.wsum ++ hashed;
}

unfoldable pub clear_buffer : File → Schedule → Run (Unit {0})
clear_buffer f s = run (done tt) (record f { wbuf = [] }) s

abbrev pub extend_buffer : List ℕ → File → File
extend_buffer more f = record f { wbuf = f.wbuf ++ more }

abbrev pub lengthen : ℕ → File → File
lengthen n f = record f { doc = record f.doc { len = add_i64 f.doc.len (pos n) } }

abbrev pub checked : Result (Unit {0}) → Option Error → Outcome (Unit {0})
checked (ok _) none = done tt
checked (ok _) (some e) = failed e
checked (err e) _ = failed e

abbrev pub has_no : Option Error → Bool
has_no none = true
has_no (some e) = false

module _ (new_id : ℕ → Result ℕ) where
  unfoldable pub send_chunk : List ℕ → List ℕ → File → Schedule → Run (Unit {0})
  send_chunk hashed chunk f s = await_load true (number_chunk hashed f) s >>> λ _ g t.
      insert_chunk new_id f.chunk_num chunk g t

  -- The loop that writes full chunks, and the rest into the buffer. With a chunk size of 0 it never ends.
  unfoldable pub write_chunks : ℕ → ℕ → List ℕ → List ℕ → File → Schedule → Run (Unit {0})
  write_chunks zero chunk_size buf bytes f s = run waits f s
  write_chunks (suc n) chunk_size buf bytes f s =
      if ltb chunk_size (length bytes)
      then (send_chunk buf (take chunk_size bytes) f s >>> λ _ g t.
          write_chunks n chunk_size buf (drop chunk_size bytes) g t)
      else run (done tt) (extend_buffer bytes f) s

  -- The buffer is filled to a chunk and sent.
  unfoldable pub send_buffer : List ℕ → ℕ → File → Schedule → Run (Unit {0})
  unfolding clear_buffer
  send_buffer buf missing f s =
      let g = extend_buffer (take missing buf) f in
      send_chunk buf g.wbuf g s >>> λ _ h t. clear_buffer h t

  unfoldable pub write_full : ℕ → List ℕ → File → Schedule → Run (Unit {0})
  write_full chunk_size buf f s =
      if is_empty f.wbuf
      then write_chunks (suc (length buf)) chunk_size buf buf f s
      else let missing = min (sub_usize chunk_size (length f.wbuf)) (length buf) in
        send_buffer buf missing f s >>> λ _ g t.
        write_chunks (suc (length buf)) chunk_size buf (drop missing buf) g t

  -- With the file's length raised.
  unfoldable pub write_bytes : ℕ → List ℕ → File → Schedule → Run (Unit {0})
  write_bytes chunk_size buf f s =
      if ltb (length f.wbuf + length buf) chunk_size
      then run (done tt) (extend_buffer buf f) s
      else write_full chunk_size buf f s

  -- `io::Write::write`: how many bytes were written.
  unfoldable pub write : List ℕ → File → Schedule → Run ℕ
  write buf f s = run (checked (assert_mode writing f) (err_description f)) f s >>> λ _ f s.
      write_bytes (as_usize f.doc.chunk_size) buf (lengthen (length buf) f) s >>> λ _ f s.
      run (done (length buf)) f s

  -- The buffer is sent if there is no error, also after the wait.
  unfoldable pub flush_sent : ℤ → Option Error → File → Schedule → Run (Unit {0})
  unfolding clear_buffer
  flush_sent n none f s = insert_chunk new_id n f.wbuf f s >>> λ _ g t. clear_buffer g t
  flush_sent n (some e) f s = run (done tt) f s

  unfoldable pub flush_buffer : File → Schedule → Run (Unit {0})
  flush_buffer f s = await_load false (number_chunk f.wbuf f) s >>> λ _ g t.
      flush_sent f.chunk_num (err_description g) g t

  -- `io::Write::flush`
  unfoldable pub flush : File → Schedule → Run (Unit {0})
  flush f s = run (outcome_of (assert_mode writing f)) f s >>> λ _ f s.
      (if not (is_empty f.wbuf) && has_no (err_description f)
        then flush_buffer f s
        else run (done tt) f s)
      >>> λ _ f s. await_all f s >>> λ _ f s. run (checked (ok tt) (err_description f)) f s
