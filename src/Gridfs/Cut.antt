-- ===== src/Gridfs/Cut.antt =====
-- gridfs/file.rs: a `flush` between two writes.
use old_mongo_rust_driver.Prelude.{
  ℕ, zero, suc, ◌+◌, ◌*◌, ◌≤◌, ◌≡◌, refl, sym, ap, subst, ◌∙◌, Bool, Option, List, [], ◌∷◌, ◌++◌,
  length, take, drop, ltb, arith, All, append-nil, length-append, take_past,
}
use old_mongo_rust_driver.Prelude.Int.{ℤ, pos}
use old_mongo_rust_driver.Bson.{Document}
use old_mongo_rust_driver.Error.{Result, ok}
use old_mongo_rust_driver.Gridfs.Gfs.{GfsFile}
use old_mongo_rust_driver.Gridfs.File.{
  reading, writing, Event, Insert, stored, Schedule, done, with_gfs_file,
}
use old_mongo_rust_driver.Gridfs.Read.{find_chunk}
use old_mongo_rust_driver.Gridfs.Frame.{documents, holds_then}
use old_mongo_rust_driver.Gridfs.Writing.{join, bytes_of, IsPiece}
use old_mongo_rust_driver.Gridfs.Tracking.{IsAccepted, answered-accepted}
use old_mongo_rust_driver.Gridfs.Flushed.{Layout, IsUploaded}
use old_mongo_rust_driver.Gridfs.Reading.{Has, Counts}
use old_mongo_rust_driver.Gridfs.Refinement.{read_all, cursor, read_all-cursor, opened-IsReader}
use old_mongo_rust_driver.Gridfs.Found.{Finds, found_piece}
use old_mongo_rust_driver.Gridfs.RoundTrip.{upload, concat, new_upload-IsUploaded}
use old_mongo_rust_driver.Gridfs.Second.{Starts, IsBegun, upload-IsBegun}

Layout-length :
    (id size k : ℕ) (c : Document) (ds : List Document)
    → 1 ≤ size
    → Layout id size k (c ∷ ds)
    → 1 ≤ length (join (c ∷ ds))
Layout-length id size k c [] p h = omega (arith, h.1, h.3.3, length-append (bytes_of c) [])
Layout-length id size k c (d ∷ ds) p h =
    omega (arith, h.0.3, length-append (bytes_of c) (join (d ∷ ds)))

-- The only chunk of a file has all its bytes.
pub record IsAlone (id : ℕ) (bytes : List ℕ) (d : Document) (cs : List Insert) : Type 0 where
  pub starts : Starts d cs
  pub piece : IsPiece id (length bytes) 0 d
  pub is_all : bytes_of d ≡ bytes

alone :
    (id size : ℕ) (cs : List Insert)
    → 1 ≤ size
    → Layout id size 0 (documents cs)
    → All (λ c. c.status ≡ stored) cs
    → 1 ≤ length (join (documents cs))
    → length (join (documents cs)) ≤ size
    → (d : Document) × IsAlone id (join (documents cs)) d cs
alone id size [] p h s a b = absurd (omega arith)
alone id size (c ∷ []) p h s a b =
    let e : bytes_of c.document ≡ bytes_of c.document ++ [] =
      sym (append-nil (bytes_of c.document)) in
    (
      c.document,
      record { starts = (refl, s.0); piece = (h.3.0, h.3.1, h.3.2, ap length e); is_all = e },
    )
alone id size (c ∷ e ∷ cs) p h s a b = absurd (
    omega (
      arith,
      Layout-length id size 1 e.document (documents cs) p h.1,
      h.0.3,
      length-append (bytes_of c.document) (join (documents (e ∷ cs))),
    ))

Starts-found :
    (find_one : ℕ → ℤ → Result (Option Document)) (late : ℤ → Bool) (id n : ℕ) (d : Document)
    (cs : List Insert)
    → Starts d cs
    → All (Finds find_one) cs
    → IsPiece id n 0 d
    → find_chunk find_one late id (pos 0) ≡ ok (bytes_of d)
Starts-found find_one late id n d [] h f p = absurd h
Starts-found find_one late id n d (c ∷ cs) h f p =
    subst (λ x. find_chunk find_one late id (pos 0) ≡ ok (bytes_of x)) h.0
      (found_piece find_one late id n 0 n c (subst (IsPiece id n 0) (sym h.0) p) h.1 f.0)

-- One chunk, and a length that the size of one chunk covers.
one_chunk :
    (bytes : List ℕ) (total size : ℕ)
    → 1 ≤ length bytes
    → length bytes ≤ total
    → total ≤ size
    → Counts bytes total size
one_chunk bytes total size a b c = (b, counted)
  where
    counted : (n : ℕ) → ltb (n * size) total ≡ ltb (n * size) (length bytes)
    counted zero = grind arith
    counted (suc n) = grind arith

one_chunk-Has :
    (find : ℤ → Result (List ℕ)) (bytes : List ℕ) (size : ℕ)
    → find (pos 0) ≡ ok bytes
    → length bytes ≤ size
    → Has find bytes size
one_chunk-Has find bytes size h b zero l =
    let z : 0 ≡ 0 * size = grind arith in
    h ∙ ap ok (sym (take_past size bytes b) ∙ ap (λ n. take size (drop n bytes)) z)
one_chunk-Has find bytes size h b (suc n) l = absurd (grind arith)

module _ (new_id : ℕ → Result ℕ) (size : ℕ) (q : size ≤ 2147483647)
    (find_one : ℕ → ℤ → Result (Option Document)) (late : ℤ → Bool) where
  -- If some bytes are uploaded into a new file, and then more into the same file, both uploads succeed, the
  -- server refused no chunk of the first, all bytes together are no more than a chunk, and the collection finds a
  -- stored chunk by its file and number, then a reader of the file, whose length counts all the bytes, gets those
  -- of the first upload, and never those of the second.
  pub read_all_misses_second_upload :
      (doc : GfsFile) (parts more : List (List ℕ × List Event)) (s t : Schedule) (d : GfsFile)
      (wants : List ℕ)
      → doc.chunk_size ≡ pos size
      → doc.len ≡ pos 0
      → 1 ≤ length (concat parts)
      → length (concat parts) + length (concat more) ≤ size
      → let a = upload new_id parts (with_gfs_file doc writing) s in
        let b = upload new_id more a.file t in
        a.outcome ≡ done tt
        → b.outcome ≡ done tt
        → All IsAccepted a.file.inserts
        → All (Finds find_one) b.file.inserts
        → d.id ≡ b.file.doc.id
        → d.len ≡ b.file.doc.len
        → d.chunk_size ≡ b.file.doc.chunk_size
        → (b.file.doc.len ≡ pos (length (concat parts) + length (concat more)))
          × (read_all find_one late wants (with_gfs_file d reading) ≡ cursor wants (concat parts))
  read_all_misses_second_upload doc parts more s t d wants c l n m o u acc f i j k =
      let x = concat parts in
      let a = upload new_id parts (with_gfs_file doc writing) s in
      let b = upload new_id more a.file t in
      let total = length x + length (concat more) in
      let p : 1 ≤ size = omega arith in
      let (laid, kept) =
        holds_then (IsUploaded size x) a.outcome a.file o
          (new_upload-IsUploaded new_id size p q doc parts s c l (omega arith)) in
      let (first, only) : (first : Document) × IsAlone a.file.doc.id x first a.file.inserts =
        subst (λ y. (first : Document) × IsAlone a.file.doc.id y first a.file.inserts) laid.joined
          (alone a.file.doc.id size a.file.inserts p laid.layout
            (answered-accepted a.file.inserts kept acc) (omega (arith, ap length laid.joined))
            (omega (arith, ap length laid.joined))) in
      let begun : IsBegun first a.file.doc.id size total b.file =
        holds_then (IsBegun first a.file.doc.id size total) b.outcome b.file u (
          upload-IsBegun first a.file.doc.id size new_id (length x) more a.file t
            (record {
              starts = only.starts;
              is_file = refl;
              sized = laid.sized;
              measured = laid.measured;
            })
            (omega arith)) in
      let found =
        Starts-found find_one late a.file.doc.id (length x) first b.file.inserts begun.starts f
          only.piece in
      (
        begun.measured,
        read_all-cursor find_one late a.file.doc.id x total size p q (grind arith)
            (one_chunk x total size n (omega arith) m)
            (one_chunk-Has (find_chunk find_one late a.file.doc.id) x size
              (found ∙ ap ok only.is_all) (omega arith))
            wants 0 0 (with_gfs_file d reading)
            (opened-IsReader (find_chunk find_one late a.file.doc.id) a.file.doc.id total size x d
              (i ∙ begun.is_file) (j ∙ begun.measured) (k ∙ begun.sized)),
      )
