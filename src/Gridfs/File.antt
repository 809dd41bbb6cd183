-- ===== src/Gridfs/File.antt =====
-- gridfs/file.rs: an open file, and the threads that insert its chunks.
--
-- Each chunk is inserted by a thread of its own. When its insert has ended, the thread takes the file's lock,
-- so it changes the file only while that is free: between two calls, and in each wait for the condition
-- variable. An event is the end of one thread, and a schedule lists, for each wait, the events in it; an empty
-- list is a spurious wake-up. A call that waits when its schedule is at the end has not returned. No lock is
-- poisoned. The md5 hash builder is the bytes that were put into it, and the making of object ids a parameter.
use old_mongo_rust_driver.Prelude.{
  ℕ, ◌+◌, ◌-◌, Bool, true, false, Option, none, some, List, [], ◌∷◌, ◌++◌, ltb, if◌then◌else◌,
}
use old_mongo_rust_driver.Prelude.Int.{ℤ, pos, mul_i32, to_i32, leb_ℤ}
use old_mongo_rust_driver.Prelude.Text.{text}
use old_mongo_rust_driver.Bson.{Bson, object_id, i32, binary, Document, end, field}
use old_mongo_rust_driver.Error.{Error, argument_error, operation_error, Result, ok, err}
use old_mongo_rust_driver.Coll.Single.{InsertOneResult}
use old_mongo_rust_driver.Gridfs.Gfs.{GfsFile}

pub data Mode : Type 0 where
  closed reading writing : Mode

-- The insert of a chunk: its thread runs, or the server inserted it, or refused it, or `insert_one` gave an error.
pub data Status : Type 0 where
  in_flight stored refused lost : Status

pub record Insert : Type 0 where
  pub document : Document
  pub status : Status

pub record CachedChunk : Type 0 where
  pub n : ℤ
  pub bytes : List ℕ
  pub err : Option Error

-- `inserts` are the chunks that this file sent to the collection, in the order of sending, and `made` is the
-- number of object ids asked for.
pub record File : Type 0 where
  pub mode : Mode
  pub chunk_num : ℤ
  pub offset : ℤ
  pub wpending : ℕ
  pub wbuf : List ℕ
  pub wsum : List ℕ
  pub rbuf : List ℕ
  pub rcache : Option CachedChunk
  pub err : Option Error
  pub doc : GfsFile
  pub inserts : List Insert
  pub made : ℕ

unfoldable pub with_gfs_file : GfsFile → Mode → File
with_gfs_file file mode = record {
  mode = mode;
  chunk_num = pos 0;
  offset = pos 0;
  wpending = 0;
  wbuf = [];
  wsum = [];
  rbuf = [];
  rcache = none;
  err = none;
  doc = file;
  inserts = [];
  made = 0;
}

-- The i-th of the running threads ends, with what `insert_one` gave it.
pub data Event : Type 0 where
  ends : ℕ → Result InsertOneResult → Event

abbrev pub Schedule : Type 0
Schedule = List (List Event)

-- `insert_one` gives no id if the server answered that it did not insert the document.
abbrev pub status_by : Option Bson → Status
status_by (some id) = stored
status_by none = refused

abbrev pub status_of : Result InsertOneResult → Status
status_of (ok r) = status_by r.inserted_id
status_of (err e) = lost

-- The thread looks for an error only, not for a write exception in the result.
abbrev pub error_of : Result InsertOneResult → Option Error
error_of (ok r) = none
error_of (err e) = some e

abbrev pub running : Status → ℕ
running in_flight = 1
running stored = 0
running refused = 0
running lost = 0

-- How many threads run.
unfoldable pub flying : List Insert → ℕ
flying [] = 0
flying (c ∷ cs) = running c.status + flying cs

unfoldable pub complete : ℕ → Result InsertOneResult → List Insert → List Insert
complete i r [] = []
complete i r (c ∷ cs) =
    if ltb i (running c.status)
    then record c { status = status_of r } ∷ cs
    else c ∷ complete (i - running c.status) r cs

-- The last error is kept.
abbrev pub latest : Option Error → Option Error → Option Error
latest none old = old
latest (some e) old = some e

-- The end of a thread; of none, if fewer run.
unfoldable pub finish : Event → File → File
finish (ends i r) f =
    if ltb i (flying f.inserts)
    then record f {
      inserts = complete i r f.inserts;
      wpending = f.wpending - 1;
      err = latest (error_of r) f.err;
    }
    else f

unfoldable pub finish_all : List Event → File → File
finish_all [] f = f
finish_all (e ∷ es) f = finish_all es (finish e f)

-- What a call comes to, with the file and what is left of the schedule.
pub data Outcome {ℓ} (A : Type ℓ) : Type ℓ where
  done : A → Outcome A
  failed : Error → Outcome A
  waits : Outcome A

pub record Run {ℓ} (A : Type ℓ) : Type ℓ where
  pub outcome : Outcome A
  pub file : File
  pub rest : Schedule

abbrev pub run {ℓ} : {A : Type ℓ} → Outcome A → File → Schedule → Run A
run o f s = record { outcome = o; file = f; rest = s }

-- The rest of a call, after a part of it that may end it.
unfoldable pub continue {ℓ κ} :
    {A : Type ℓ} {B : Type κ} → (A → File → Schedule → Run B) → Outcome A → File → Schedule → Run B
continue k (done a) f s = k a f s
continue k (failed e) f s = run (failed e) f s
continue k waits f s = run waits f s

infixl 5 ◌>>>◌
abbrev pub ◌>>>◌ {ℓ κ} : {A : Type ℓ} {B : Type κ} → Run A → (A → File → Schedule → Run B) → Run B
r >>> k = continue k r.outcome r.file r.rest

-- `err_description`, as the error that the callers make of it
unfoldable pub err_description : File → Option Error
err_description f = elim f.err [ none ↦ none | some e ↦ some (operation_error "{description}") ]

abbrev pub mode_eq : Mode → Mode → Bool
mode_eq closed closed = true
mode_eq reading reading = true
mode_eq writing writing = true
mode_eq _ _ = false

abbrev pub mode_message : Mode → Error
mode_message reading = argument_error "File is open for reading."
mode_message writing = argument_error "File is open for writing."
mode_message closed = argument_error "File is closed."

unfoldable pub assert_mode : Mode → File → Result (Unit {0})
assert_mode mode f = if mode_eq f.mode mode then ok tt else err (mode_message f.mode)

-- MEGABYTE
abbrev pub megabyte : ℤ
megabyte = pos 1048576

-- A megabyte of chunks is pending.
unfoldable pub is_loaded : File → Bool
is_loaded f = leb_ℤ megabyte (mul_i32 f.doc.chunk_size (to_i32 f.wpending))

unfoldable pub chunk_document : ℕ → ℕ → ℤ → List ℕ → Document
chunk_document id files_id n buf = field (text "_id") (object_id id) (
    field (text "files_id") (object_id files_id)
      (field (text "n") (i32 n) (field (text "data") (binary 0 buf) end)))

module _ (new_id : ℕ → Result ℕ) where
  unfoldable pub spawn : Result ℕ → ℤ → List ℕ → File → Schedule → Run (Unit {0})
  spawn (err e) n buf f s = run (failed e) f s
  spawn (ok id) n buf f s =
      let c : Insert = record { document = chunk_document id f.doc.id n buf; status = in_flight } in
      run (done tt) (record f { inserts = f.inserts ++ c ∷ [] }) s

  -- The pending write is counted before the object id is made, and stays if that fails.
  unfoldable pub insert_chunk : ℤ → List ℕ → File → Schedule → Run (Unit {0})
  unfolding spawn
  insert_chunk n buf f s =
      spawn (new_id f.made) n buf (record f { wpending = f.wpending + 1; made = f.made + 1 }) s
