-- ===== src/Gridfs/Second.antt =====
-- gridfs/file.rs: what a file keeps of its first chunk while more is written into it.
use old_mongo_rust_driver.Prelude.{
  ℕ, ◌+◌, ◌≤◌, ◌<◌, ◌≡◌, sym, ap, subst, ◌∙◌, List, [], ◌∷◌, ◌++◌, length, ltb, ltb→lt, if_cases,
  arith, length-append,
}
use old_mongo_rust_driver.Prelude.Int.{ℤ, pos, add_i64, add_i64-pos, as_usize}
use old_mongo_rust_driver.Bson.{Document}
use old_mongo_rust_driver.Error.{Result, ok, err}
use old_mongo_rust_driver.Gridfs.Gfs.{GfsFile}
use old_mongo_rust_driver.Coll.Single.{InsertOneResult}
use old_mongo_rust_driver.Gridfs.File.{
  File, Insert, stored, running, flying, Event, ends, complete, finish, finish_all, Schedule,
  err_description, assert_mode, writing, spawn, insert_chunk,
}
use old_mongo_rust_driver.Gridfs.Write.{write_bytes, lengthen, checked, write, flush}
use old_mongo_rust_driver.Gridfs.Frame.{Ensures, on_done, continue-Ensures}
use old_mongo_rust_driver.Gridfs.Keeping.{finish_all-Keeps, write_bytes-Keeps, flush-Keeps}
use old_mongo_rust_driver.Gridfs.RoundTrip.{upload, concat}

-- The first chunk that was sent is this document, and it is in the collection.
abbrev pub Starts : Document → List Insert → Type 0
Starts d [] = ⊥
Starts d (c ∷ cs) = (c.document ≡ d) × (c.status ≡ stored)

pub record IsBegun (d : Document) (id size total : ℕ) (f : File) : Type 0 where
  pub starts : Starts d f.inserts
  pub is_file : f.doc.id ≡ id
  pub sized : f.doc.chunk_size ≡ pos size
  pub measured : f.doc.len ≡ pos total

Starts-complete :
    (d : Document) (i : ℕ) (r : Result InsertOneResult) (cs : List Insert)
    → Starts d cs
    → Starts d (complete i r cs)
unfolding complete
Starts-complete d i r [] h = h
Starts-complete d i r (c ∷ cs) h =
    if_cases (Starts d) (ltb i (running c.status)) _ _
      (λ e.
        let l : i < 0 = subst (λ n. i < n) (ap running h.1) (ltb→lt i (running c.status) e) in
        absurd (omega arith))
      (λ e. h)

Starts-append : (d : Document) (cs ds : List Insert) → Starts d cs → Starts d (cs ++ ds)
Starts-append d [] ds h = absurd h
Starts-append d (c ∷ cs) ds h = h

module _ (d : Document) (id size : ℕ) where
  finish-IsBegun :
      (total : ℕ) (e : Event) (f : File)
      → IsBegun d id size total f
      → IsBegun d id size total (finish e f)
  unfolding finish
  finish-IsBegun total (ends i r) f h =
      if_cases (IsBegun d id size total) (ltb i (flying f.inserts)) _ _
        (λ e. record {
          starts = Starts-complete d i r f.inserts h.starts;
          is_file = h.is_file;
          sized = h.sized;
          measured = h.measured;
        })
        (λ e. h)

  rebegun :
      (total : ℕ) (f g : File)
      → f.inserts ≡ g.inserts
      → f.wpending ≡ g.wpending
      → f.err ≡ g.err
      → f.doc ≡ g.doc
      → IsBegun d id size total f
      → IsBegun d id size total g
  rebegun total f g a b c e h = record {
    starts = subst (Starts d) a h.starts;
    is_file = ap (λ (x : GfsFile). x.id) (sym e) ∙ h.is_file;
    sized = ap (λ (x : GfsFile). x.chunk_size) (sym e) ∙ h.sized;
    measured = ap (λ (x : GfsFile). x.len) (sym e) ∙ h.measured;
  }

  lengthen-IsBegun :
      (total n : ℕ) (f : File)
      → IsBegun d id size total f
      → total + n ≤ 9223372036854775807
      → IsBegun d id size (total + n) (lengthen n f)
  lengthen-IsBegun total n f h b = record {
    starts = h.starts;
    is_file = h.is_file;
    sized = h.sized;
    measured = ap (λ z. add_i64 z (pos n)) h.measured ∙ add_i64-pos total n b;
  }

  module _ (new_id : ℕ → Result ℕ) where
    insert_chunk-IsBegun :
        (total : ℕ) (n : ℤ) (buf : List ℕ) (f : File) (s : Schedule)
        → IsBegun d id size total f
        → IsBegun d id size total (insert_chunk new_id n buf f s).file
    unfolding insert_chunk spawn
    insert_chunk-IsBegun total n buf f s h = made (new_id f.made)
      where
        made :
            (r : Result ℕ)
            → IsBegun d id size total
                (spawn new_id r n buf
                  (record f { wpending = f.wpending + 1; made = f.made + 1 })
                  s).file
        made (err e) = record {
          starts = h.starts;
          is_file = h.is_file;
          sized = h.sized;
          measured = h.measured;
        }
        made (ok x) = record {
          starts = Starts-append d f.inserts _ h.starts;
          is_file = h.is_file;
          sized = h.sized;
          measured = h.measured;
        }

    write-IsBegun :
        (total : ℕ) (buf : List ℕ) (f : File) (s : Schedule)
        → IsBegun d id size total f
        → total + length buf ≤ 9223372036854775807
        → Ensures (IsBegun d id size (total + length buf)) (write new_id buf f s)
    unfolding write
    write-IsBegun total buf f s h b =
        let o = checked (assert_mode writing f) (err_description f) in
        continue-Ensures (IsBegun d id size total) (IsBegun d id size (total + length buf)) o f s _
          (on_done (IsBegun d id size total) o f h)
          (λ _ f s h.
            let g = lengthen (length buf) f in
            let P = IsBegun d id size (total + length buf) in
            let r = write_bytes new_id (as_usize f.doc.chunk_size) buf g s in
            continue-Ensures P P r.outcome r.file r.rest _
              (on_done P r.outcome r.file (
                write_bytes-Keeps P (finish-IsBegun (total + length buf)) new_id
                  (rebegun (total + length buf)) (insert_chunk-IsBegun (total + length buf))
                  (as_usize f.doc.chunk_size) buf g s (lengthen-IsBegun total (length buf) f h b)))
              (λ _ g t k. k))

    flush-IsBegun :
        (total : ℕ) (f : File) (s : Schedule)
        → IsBegun d id size total f
        → IsBegun d id size total (flush new_id f s).file
    flush-IsBegun total =
        flush-Keeps (IsBegun d id size total) (finish-IsBegun total) new_id (rebegun total)
          (insert_chunk-IsBegun total)

    -- More is written into the file, and flushed.
    pub upload-IsBegun :
        (total : ℕ) (parts : List (List ℕ × List Event)) (f : File) (s : Schedule)
        → IsBegun d id size total f
        → total + length (concat parts) ≤ 9223372036854775807
        → Ensures (IsBegun d id size (total + length (concat parts))) (upload new_id parts f s)
    unfolding upload
    upload-IsBegun total [] f s h b =
        let r = flush new_id f s in
        let e : total ≡ total + length (concat []) = omega arith in
        on_done _ r.outcome r.file
          (subst (λ n. IsBegun d id size n r.file) e (flush-IsBegun total f s h))
    upload-IsBegun total ((buf, es) ∷ parts) f s h b =
        let r = write new_id buf f s in
        let e : (total + length buf) + length (concat parts)
            ≡ total + length (buf ++ concat parts) =
          omega (arith, length-append buf (concat parts)) in
        let l : total + length buf ≤ 9223372036854775807 = omega arith in
        continue-Ensures (IsBegun d id size (total + length buf))
          (IsBegun d id size (total + length (buf ++ concat parts))) r.outcome r.file r.rest _
          (write-IsBegun total buf f s h l)
          (λ _ g t k.
            subst (λ n. Ensures (IsBegun d id size n) (upload new_id parts (finish_all es g) t)) e
              (upload-IsBegun (total + length buf) parts (finish_all es g) t
                (finish_all-Keeps (IsBegun d id size (total + length buf))
                  (finish-IsBegun (total + length buf)) es g k)
                (omega arith)))
