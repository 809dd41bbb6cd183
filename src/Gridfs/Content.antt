-- ===== src/Gridfs/Content.antt =====
-- gridfs/file.rs: what a file holds after a `write`.
use old_mongo_rust_driver.Prelude.{
  ℕ, ◌+◌, ◌*◌, ◌≤◌, ◌≡◌, refl, sym, ap, subst, ◌∙◌, List, ◌++◌, length, arith, length-append,
}
use old_mongo_rust_driver.Prelude.Int.{pos, add_i64, add_i64-pos, as_usize}
use old_mongo_rust_driver.Error.{Result}
use old_mongo_rust_driver.Gridfs.File.{
  File, Schedule, Outcome, done, failed, waits, Run, run, continue,
}
use old_mongo_rust_driver.Gridfs.Write.{write_bytes, lengthen, write}
use old_mongo_rust_driver.Gridfs.Frame.{OnDone, Ensures}
use old_mongo_rust_driver.Gridfs.Writing.{IsWriter}
use old_mongo_rust_driver.Gridfs.Chunks.{write_bytes-IsWriter}

-- The file has been given these bytes, and nothing else.
abbrev pub Holds : ℕ → List ℕ → File → Type 0
Holds size bytes f = IsWriter size (length bytes) bytes f

-- What a call of `write` comes to that is made when the file holds `bytes`.
abbrev pub Wrote : ℕ → List ℕ → List ℕ → Outcome ℕ → File → Type 0
Wrote size bytes buf (done n) f = (n ≡ length buf) × Holds size (bytes ++ buf) f
Wrote size bytes buf (failed e) f = Unit
Wrote size bytes buf waits f = Unit

module _ (new_id : ℕ → Result ℕ) (size : ℕ) where
  lengthen-IsWriter :
      (total n : ℕ) (bytes : List ℕ) (f : File)
      → IsWriter size total bytes f
      → total + n ≤ 9223372036854775807
      → IsWriter size (total + n) bytes (lengthen n f)
  lengthen-IsWriter total n bytes f h b = record {
    sized = h.sized;
    measured = ap (λ z. add_i64 z (pos n)) h.measured ∙ add_i64-pos total n b;
    counted = h.counted;
    pieces = h.pieces;
    joined = h.joined;
    buffered = h.buffered;
  }

  returned :
      (buf bytes : List ℕ) (o : Outcome (Unit {0})) (g : File) (t : Schedule)
      → OnDone (IsWriter size (length bytes + length buf) (bytes ++ buf)) o g
      → let r = continue (λ _ f s. run (done (length buf)) f s) o g t in
        Wrote size bytes buf r.outcome r.file
  unfolding continue
  returned buf bytes (done a) g t h = (
    refl,
    subst (λ n. IsWriter size n (bytes ++ buf) g) (omega (arith, length-append bytes buf)) h,
  )
  returned buf bytes (failed e) g t h = tt
  returned buf bytes waits g t h = tt

  admitted :
      (buf bytes : List ℕ) (k : Unit {0} → File → Schedule → Run ℕ) (o : Outcome (Unit {0}))
      (f : File) (s : Schedule)
      → let r = k tt f s in
        Wrote size bytes buf r.outcome r.file
        → let r = continue k o f s in Wrote size bytes buf r.outcome r.file
  unfolding continue
  admitted buf bytes k (done a) f s h = h
  admitted buf bytes k (failed e) f s h = tt
  admitted buf bytes k waits f s h = tt

  -- A call of `write` that returns a number returns the length of `buf`, and the file then holds, in whole
  -- chunks with consecutive numbers and the buffer, what it held and `buf` behind it, whatever the threads
  -- do, if the chunk size is positive and the bytes make less than 2 ^ 31 chunks.
  pub write-Wrote :
      (buf bytes : List ℕ) (f : File) (s : Schedule)
      → Holds size bytes f
      → 1 ≤ size
      → size ≤ 2147483647
      → length (bytes ++ buf) ≤ 2147483647 * size
      → let r = write new_id buf f s in Wrote size bytes buf r.outcome r.file
  unfolding write as_usize
  write-Wrote buf bytes f s h p q b =
      let g = lengthen (length buf) f in
      let e : as_usize f.doc.chunk_size ≡ size = ap as_usize h.sized ∙ refl in
      let r = write_bytes new_id (as_usize f.doc.chunk_size) buf g s in
      admitted buf bytes _ _ f s (
        returned buf bytes r.outcome r.file r.rest (
          subst
            (λ n.
              Ensures (IsWriter size (length bytes + length buf) (bytes ++ buf))
                (write_bytes new_id n buf g s))
            (sym e)
            (write_bytes-IsWriter new_id size (length bytes + length buf) buf bytes g s
              (lengthen-IsWriter (length bytes) (length buf) bytes f h
                (omega (arith, length-append bytes buf)))
              p q b)))
