-- ===== src/Gridfs/RoundTrip.antt =====
-- gridfs/file.rs: writing, flushing and reading back.
use mathlib.Core.Path.{ap₂}
use old_mongo_rust_driver.Prelude.{
  ℕ, ◌+◌, ◌*◌, ◌≤◌, ◌≡◌, refl, sym, ap, subst, ◌∙◌, Bool, Option, List, [], ◌∷◌, ◌++◌, take, drop,
  length, arith, All, append_assoc, append-nil, length-append,
}
use old_mongo_rust_driver.Prelude.Int.{ℤ, pos}
use old_mongo_rust_driver.Bson.{Document}
use old_mongo_rust_driver.Error.{Result, ok}
use old_mongo_rust_driver.Gridfs.Gfs.{GfsFile}
use old_mongo_rust_driver.Gridfs.File.{
  reading, writing, File, Event, Schedule, finish_all, Outcome, done, failed, waits, Run, ◌>>>◌,
  with_gfs_file, flying,
}
use old_mongo_rust_driver.Gridfs.Read.{find_chunk}
use old_mongo_rust_driver.Gridfs.Write.{write, flush}
use old_mongo_rust_driver.Gridfs.Frame.{
  documents, Ensures, OnDone, finish_all-Same, Same, continue-Ensures, holds_then,
}
use old_mongo_rust_driver.Gridfs.Writing.{join, Pieces}
use old_mongo_rust_driver.Gridfs.Content.{Holds, Wrote, write-Wrote}
use old_mongo_rust_driver.Gridfs.Tracking.{
  IsAccepted, answered-accepted, IsTracked, finish_all-IsTracked, write-IsTracked,
}
use old_mongo_rust_driver.Gridfs.Flushed.{IsUploaded}
use old_mongo_rust_driver.Gridfs.Upload.{flush-IsUploaded}
use old_mongo_rust_driver.Gridfs.Reading.{Has}
use old_mongo_rust_driver.Gridfs.Refinement.{read_all, cursor, read_all-cursor, opened-IsReader}
use old_mongo_rust_driver.Gridfs.Found.{Finds, Layout-Has}

-- Writes, each with the threads that end after it, and a flush.
unfoldable pub upload :
    (ℕ → Result ℕ) → List (List ℕ × List Event) → File → Schedule → Run (Unit {0})
upload new_id [] f s = flush new_id f s
upload new_id ((buf, es) ∷ parts) f s =
    write new_id buf f s >>> λ _ g t. upload new_id parts (finish_all es g) t

abbrev pub concat : List (List ℕ × List Event) → List ℕ
concat [] = []
concat ((buf, es) ∷ parts) = buf ++ concat parts

-- The threads do not change what the file holds.
Same-Holds :
    (size : ℕ) (bytes : List ℕ) (f g : File) → Same f g → Holds size bytes f → Holds size bytes g
Same-Holds size bytes f g s h = record {
  sized = subst (λ (x : GfsFile). x.chunk_size ≡ pos size) s.doc h.sized;
  measured = subst (λ (x : GfsFile). x.len ≡ pos (length bytes)) s.doc h.measured;
  counted = sym s.chunk_num ∙ h.counted ∙ ap (λ ds. pos (length ds)) s.sent;
  pieces =
      subst (λ (x : GfsFile). Pieces x.id size 0 (documents g.inserts)) s.doc
        (subst (Pieces f.doc.id size 0) s.sent h.pieces);
  joined = ap₂ (λ ds w. join ds ++ w) (sym s.sent) (sym s.wbuf) ∙ h.joined;
  buffered = subst (λ w. length w ≤ size) s.wbuf h.buffered;
}

module _ (new_id : ℕ → Result ℕ) (size : ℕ) (p : 1 ≤ size) (q : size ≤ 2147483647) where
  Wrote-OnDone :
      (bytes buf : List ℕ) (o : Outcome ℕ) (f : File)
      → Wrote size bytes buf o f
      → IsTracked f
      → OnDone (λ g. Holds size (bytes ++ buf) g × IsTracked g) o f
  Wrote-OnDone bytes buf (done n) f h k = (h.1, k)
  Wrote-OnDone bytes buf (failed e) f h k = tt
  Wrote-OnDone bytes buf waits f h k = tt

  upload-IsUploaded :
      (parts : List (List ℕ × List Event)) (bytes : List ℕ) (f : File) (s : Schedule)
      → Holds size bytes f
      → IsTracked f
      → length (bytes ++ concat parts) ≤ 2147483647 * size
      → Ensures (IsUploaded size (bytes ++ concat parts)) (upload new_id parts f s)
  unfolding upload
  upload-IsUploaded [] bytes f s h k b =
      subst (λ xs. Ensures (IsUploaded size xs) (flush new_id f s)) (sym (append-nil bytes))
        (flush-IsUploaded new_id size p bytes f s h k)
  upload-IsUploaded ((buf, es) ∷ parts) bytes f s h k b =
      let r = write new_id buf f s in
      let split : (bytes ++ buf) ++ concat parts ≡ bytes ++ concat ((buf, es) ∷ parts) =
        append_assoc bytes buf (concat parts) in
      continue-Ensures (λ g. Holds size (bytes ++ buf) g × IsTracked g)
        (IsUploaded size (bytes ++ concat ((buf, es) ∷ parts))) r.outcome r.file r.rest _
        (Wrote-OnDone bytes buf r.outcome r.file
          (write-Wrote new_id size buf bytes f s h p q
            (omega (arith, ap length split, length-append (bytes ++ buf) (concat parts))))
          (write-IsTracked new_id buf f s k))
        (λ _ g t x.
          subst (λ xs. Ensures (IsUploaded size xs) (upload new_id parts (finish_all es g) t)) split
            (upload-IsUploaded parts (bytes ++ buf) (finish_all es g) t
              (Same-Holds size (bytes ++ buf) g _ (finish_all-Same es g) x.0)
              (finish_all-IsTracked es g x.1)
              (subst (λ xs. length xs ≤ 2147483647 * size) (sym split) b)))

  -- A new file holds nothing.
  new-Holds :
      (doc : GfsFile)
      → doc.chunk_size ≡ pos size
      → doc.len ≡ pos 0
      → Holds size [] (with_gfs_file doc writing)
  unfolding with_gfs_file
  new-Holds doc c l = record {
    sized = c;
    measured = l;
    counted = refl;
    pieces = tt;
    joined = refl;
    buffered = omega arith;
  }

  new-IsTracked : (doc : GfsFile) → IsTracked (with_gfs_file doc writing)
  unfolding with_gfs_file flying
  new-IsTracked doc = record { pending = omega arith; reported = λ q. refl }

  -- What was written into a new file and flushed is uploaded.
  pub new_upload-IsUploaded :
      (doc : GfsFile) (parts : List (List ℕ × List Event)) (s : Schedule)
      → doc.chunk_size ≡ pos size
      → doc.len ≡ pos 0
      → length (concat parts) ≤ 2147483647 * size
      → Ensures (IsUploaded size (concat parts)) (upload new_id parts (with_gfs_file doc writing) s)
  new_upload-IsUploaded doc parts s c l b =
      upload-IsUploaded parts [] (with_gfs_file doc writing) s (new-Holds doc c l)
        (new-IsTracked doc) b

  module _ (find_one : ℕ → ℤ → Result (Option Document)) (late : ℤ → Bool) where
    -- If bytes are written into a new file, by any number of calls, while the threads end in any order, and then
    -- flushed, and all these calls succeed, and the server refused none of the chunks, then reading a file with the
    -- same id, length and chunk size gives the bytes back: each call of `read` the next ones, as many as it
    -- wants, or all that are left. The chunk size is positive, the chunks are fewer than 2 ^ 31, and the
    -- collection finds a stored chunk by its file and number.
    pub read_all-upload :
        (doc : GfsFile) (parts : List (List ℕ × List Event)) (s : Schedule) (d : GfsFile)
        (wants : List ℕ)
        → doc.chunk_size ≡ pos size
        → doc.len ≡ pos 0
        → length (concat parts) ≤ 2147483647 * size
        → let r = upload new_id parts (with_gfs_file doc writing) s in
          r.outcome ≡ done tt
          → All IsAccepted r.file.inserts
          → All (Finds find_one) r.file.inserts
          → d.id ≡ r.file.doc.id
          → d.len ≡ r.file.doc.len
          → d.chunk_size ≡ r.file.doc.chunk_size
          → read_all find_one late wants (with_gfs_file d reading) ≡ cursor wants (concat parts)
    read_all-upload doc parts s d wants c l b o a f i m n =
        let r = upload new_id parts (with_gfs_file doc writing) s in
        let (laid, kept) =
          holds_then (IsUploaded size (concat parts)) r.outcome r.file o
            (new_upload-IsUploaded doc parts s c l b) in
        let has : Has (find_chunk find_one late r.file.doc.id) (concat parts) size =
          subst (λ xs. Has (find_chunk find_one late r.file.doc.id) xs size) laid.joined
            (λ n l.
              let e : 0 + n ≡ n = omega arith in
              subst
                (λ j.
                  find_chunk find_one late r.file.doc.id (pos j)
                  ≡ ok (take size (drop (n * size) (join (documents r.file.inserts)))))
                e
                (Layout-Has find_one late r.file.doc.id size 0 r.file.inserts laid.layout
                  (answered-accepted r.file.inserts kept a) f n l)) in
        let l = length (concat parts) in
        read_all-cursor find_one late r.file.doc.id (concat parts) l size p q b
          (omega arith, λ c. refl) has wants 0 0 (with_gfs_file d reading)
          (opened-IsReader (find_chunk find_one late r.file.doc.id) r.file.doc.id l size
            (concat parts) d i (m ∙ laid.measured) (n ∙ laid.sized))
