-- ===== src/Gridfs/Read.antt =====
-- gridfs/file.rs: `read`, with the chunk that a thread loads beforehand. The lookup of a chunk in the collection
-- is a parameter, a function of the file's id and the chunk's number. `late` says for which chunks the reader
-- locked the cache before its thread did: then the cache is as it was made.
use old_mongo_rust_driver.Prelude.{
  ℕ, zero, suc, Bool, true, false, ◌&&◌, Option, none, some, List, [], ◌++◌, min, take, drop,
  length, ltb, if◌then◌else◌,
}
use old_mongo_rust_driver.Prelude.Int.{ℤ, pos, pos_part, add_i32, add_i64, ltb_ℤ, eqb_ℤ, ◌*ℤ◌}
use old_mongo_rust_driver.Prelude.Text.{text}
use old_mongo_rust_driver.Bson.{Bson, binary, Document, get}
use old_mongo_rust_driver.Error.{operation_error, default_error, Result, ok, err, ◌>>=◌}
use old_mongo_rust_driver.Gridfs.File.{
  reading, File, CachedChunk, Outcome, done, failed, waits, assert_mode,
}

-- The bytes of a chunk's document.
unfoldable pub data_of : Option Bson → Result (List ℕ)
data_of (some (binary _ buf)) = ok buf
data_of _ = err (operation_error "Chunk contained no data")

unfoldable pub found : Option Document → Result (List ℕ)
unfolding data_of
found none = err (operation_error "Chunk not found")
found (some d) = data_of (get (text "data") d)

-- `CachedChunk::new`
unfoldable pub new_cached : ℤ → CachedChunk
new_cached n = record {
  n = n;
  bytes = [];
  err = some (default_error "Chunk has not yet been initialized");
}

-- What the thread makes of the lookup's answer.
unfoldable pub loaded : Result (List ℕ) → CachedChunk → CachedChunk
loaded (ok buf) c = record c { bytes = buf; err = none }
loaded (err e) c = record c { err = some e }

abbrev pub is_none {ℓ} : {A : Type ℓ} → Option A → Bool
is_none none = true
is_none (some a) = false

module _ (find_one : ℕ → ℤ → Result (Option Document)) (late : ℤ → Bool) where
  unfoldable pub find_chunk : ℕ → ℤ → Result (List ℕ)
  unfolding found
  find_chunk id n = find_one id n >>= found

  unfoldable pub preload : ℕ → ℤ → CachedChunk
  unfolding new_cached loaded
  preload id n = if late n then new_cached n else loaded (find_one id n >>= found) (new_cached n)

  -- From the cache, if it has the chunk, or from the collection.
  unfoldable pub from_cache : Option CachedChunk → ℕ → ℤ → Result (List ℕ)
  from_cache none id n = find_chunk id n
  from_cache (some c) id n = if eqb_ℤ c.n n && is_none c.err then ok c.bytes else find_chunk id n

  abbrev pub has_more : File → Bool
  has_more f = ltb_ℤ (f.chunk_num *ℤ f.doc.chunk_size) f.doc.len

  -- The next chunk is counted, and the one behind it is loaded.
  unfoldable pub advance : File → File
  advance f =
      let g : File = record f { chunk_num = add_i32 f.chunk_num (pos 1); rcache = none } in
      if has_more g then record g { rcache = some (preload f.doc.id g.chunk_num) } else g

  -- The file after `get_chunk`, and the chunk.
  unfoldable pub got : Result (List ℕ) → File → File × Result (List ℕ)
  got (err e) f = (record f { rcache = none }, err e)
  got (ok buf) f = (advance f, ok buf)

  unfoldable pub get_chunk : File → File × Result (List ℕ)
  unfolding got
  get_chunk f = got (from_cache f.rcache f.doc.id f.chunk_num) f

  abbrev pub extend : List ℕ → File → File
  extend chunk f = record f { rbuf = f.rbuf ++ chunk }

  -- The round of the loop that has read a chunk.
  unfoldable pub fill_on :
      (File → File × Outcome (Unit {0})) → File × Result (List ℕ) → File × Outcome (Unit {0})
  fill_on rest (f, err e) = (f, failed e)
  fill_on rest (f, ok chunk) = rest (extend chunk f)

  -- The loop that reads chunks into the buffer until it has as many bytes as are wanted.
  unfoldable pub fill : ℕ → ℕ → File → File × Outcome (Unit {0})
  fill zero want f = (f, waits)
  fill (suc n) want f =
      if ltb (length f.rbuf) want && has_more f
      then fill_on (fill n want) (get_chunk f)
      else (f, done tt)

  -- The first bytes of the buffer are given.
  unfoldable pub give : ℕ → File × Outcome (Unit {0}) → File × Outcome (List ℕ)
  give want (f, failed e) = (f, failed e)
  give want (f, waits) = (f, waits)
  give want (f, done _) =
      let i = min (length f.rbuf) want in
      (record f { offset = add_i64 f.offset (pos i); rbuf = drop i f.rbuf }, done (take i f.rbuf))

  unfoldable pub read_some : ℕ → File → File × Outcome (List ℕ)
  unfolding give
  read_some want f =
      if eqb_ℤ f.offset f.doc.len
      then (f, done [])
      else give want (fill (suc (pos_part f.doc.len)) want f)

  unfoldable pub read_in : Result (Unit {0}) → ℕ → File → File × Outcome (List ℕ)
  unfolding read_some
  read_in (err e) want f = (f, failed e)
  read_in (ok _) want f = read_some want f

  -- `io::Read::read` into a buffer of `want` bytes: the bytes that it gives.
  unfoldable pub read : ℕ → File → File × Outcome (List ℕ)
  unfolding read_in
  read want f = read_in (assert_mode reading f) want f
