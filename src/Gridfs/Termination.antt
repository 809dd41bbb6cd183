-- ===== src/Gridfs/Termination.antt =====
-- gridfs/file.rs: the writes and the flush of an upload, under a schedule in which threads end.
use old_mongo_rust_driver.Prelude.{
  ℕ, zero, suc, ◌+◌, ◌≤◌, ◌<◌, ◌≡◌, ◌≢◌, refl, sym, ap, subst, false, not, ◌&&◌, Option, none, some,
  List, [], ◌∷◌, min, take, drop, length, is_empty, ltb, ltb→lt, if◌then◌else◌, if_cases, arith,
  All, length-drop,
}
use old_mongo_rust_driver.Prelude.Int.{ℤ, pos, as_usize, sub_usize}
use old_mongo_rust_driver.Error.{Error, Result, ok, err}
use old_mongo_rust_driver.Gridfs.Gfs.{GfsFile}
use old_mongo_rust_driver.Gridfs.File.{
  File, Event, Schedule, finish_all, Outcome, done, failed, waits, Run, run, continue,
  err_description, assert_mode, writing, insert_chunk, with_gfs_file, flying,
}
use old_mongo_rust_driver.Gridfs.Write.{
  outcome_of, await_load, await_all, number_chunk, send_chunk, extend_buffer, write_chunks,
  clear_buffer, send_buffer, write_full, write_bytes, lengthen, checked, write, has_no, flush_sent,
  flush_buffer, flush,
}
use old_mongo_rust_driver.Gridfs.Frame.{finish_all-Same}
use old_mongo_rust_driver.Gridfs.Returns.{
  Ends, Enough, TotalIn, Total, continue-Total, finish_all-exact, await_load-Total, await_all-Total,
  insert_chunk-Total, send_chunk-Total,
}
use old_mongo_rust_driver.Gridfs.RoundTrip.{upload}

weaken : (size m k : ℕ) (f : File) (s : Schedule) → k ≤ m → Enough size m f s → Enough size k f s
weaken size m k f s l h = record {
  sized = h.sized;
  exact = h.exact;
  fair = h.fair;
  room = omega (arith, h.room);
}

module _ (new_id : ℕ → Result ℕ) (size : ℕ) (p : 1 ≤ size) where
  write_chunks-Total :
      (n k : ℕ) (buf bytes : List ℕ) (f : File) (s : Schedule)
      → length bytes < n
      → Enough size (k + length bytes) f s
      → Total (Enough size k) (write_chunks new_id n size buf bytes f s)
  unfolding write_chunks
  write_chunks-Total zero k buf bytes f s l h = absurd (omega arith)
  write_chunks-Total (suc n) k buf bytes f s l h =
      if_cases (λ (r : Run (Unit {0})). Total (Enough size k) r) (ltb size (length bytes)) _ _
        (λ e.
          let shorter : suc (length (drop size bytes)) ≤ length bytes =
            omega (arith, length-drop size bytes, ltb→lt size (length bytes) e) in
          let r = send_chunk new_id buf (take size bytes) f s in
          continue-Total (Enough size (k + length (drop size bytes))) (Enough size k) r.outcome
            r.file r.rest _
            (send_chunk-Total size new_id (k + length (drop size bytes)) buf (take size bytes) f s
              (weaken size (k + length bytes) _ f s (omega arith) h))
            (λ _ g t x. write_chunks-Total n k buf (drop size bytes) g t (omega arith) x))
        (λ e.
          let w = weaken size (k + length bytes) k f s (omega arith) h in
          record { sized = w.sized; exact = w.exact; fair = w.fair; room = w.room })

  send_buffer-Total :
      (k : ℕ) (buf : List ℕ) (missing : ℕ) (f : File) (s : Schedule)
      → Enough size (suc k) f s
      → Total (Enough size k) (send_buffer new_id buf missing f s)
  unfolding send_buffer clear_buffer
  send_buffer-Total k buf missing f s h =
      let g = extend_buffer (take missing buf) f in
      let r = send_chunk new_id buf g.wbuf g s in
      continue-Total (Enough size k) (Enough size k) r.outcome r.file r.rest _
        (send_chunk-Total size new_id k buf g.wbuf g s
          (record { sized = h.sized; exact = h.exact; fair = h.fair; room = h.room }))
        (λ _ g t x. record { sized = x.sized; exact = x.exact; fair = x.fair; room = x.room })

  write_bytes-Total :
      (k : ℕ) (buf : List ℕ) (f : File) (s : Schedule)
      → Enough size (suc (k + length buf)) f s
      → Total (Enough size k) (write_bytes new_id size buf f s)
  unfolding write_bytes write_full
  write_bytes-Total k buf f s h =
      if_cases (λ (r : Run (Unit {0})). Total (Enough size k) r)
        (ltb (length f.wbuf + length buf) size) _ _
        (λ e.
          let w = weaken size (suc (k + length buf)) k f s (omega arith) h in
          record { sized = w.sized; exact = w.exact; fair = w.fair; room = w.room })
        (λ e.
          if_cases (λ (r : Run (Unit {0})). Total (Enough size k) r) (is_empty f.wbuf) _ _
            (λ e.
              write_chunks-Total _ k buf buf f s (omega arith)
                (weaken size (suc (k + length buf)) _ f s (omega arith) h))
            (λ e.
              let missing = min (sub_usize size (length f.wbuf)) (length buf) in
              let r = send_buffer new_id buf missing f s in
              continue-Total (Enough size (k + length buf)) (Enough size k) r.outcome r.file r.rest
                _ (send_buffer-Total (k + length buf) buf missing f s h)
                (λ _ g t x.
                  write_chunks-Total _ k buf (drop missing buf) g t
                    (omega (arith, length-drop missing buf))
                    (weaken size (k + length buf) _ g t (omega (arith, length-drop missing buf))
                      x))))

  returned_on :
      (k : ℕ) (n : ℕ) (o : Outcome (Unit {0})) (f : File) (s : Schedule)
      → TotalIn (Enough size k) o f s
      → Total (Enough size k) (continue {B = ℕ} (λ _ f s. run (done n) f s) o f s)
  returned_on k n o f s h = continue-Total (Enough size k) (Enough size k) o f s _ h (λ _ g t x. x)

  checked_on :
      (k : ℕ) (r : Result (Unit {0})) (e : Option Error) (f : File) (s : Schedule)
      → Enough size k f s
      → TotalIn (Enough size k) (checked r e) f s
  checked_on k (ok _) none f s h = h
  checked_on k (ok _) (some e) f s h = tt
  checked_on k (err x) e f s h = tt

  write-Total :
      (k : ℕ) (buf : List ℕ) (f : File) (s : Schedule)
      → Enough size (suc (k + length buf)) f s
      → Total (Enough size k) (write new_id buf f s)
  unfolding write as_usize
  write-Total k buf f s h =
      continue-Total (Enough size (suc (k + length buf))) (Enough size k)
        (checked (assert_mode writing f) (err_description f)) f s _
        (checked_on _ (assert_mode writing f) (err_description f) f s h)
        (λ _ f s h.
          let g = lengthen (length buf) f in
          let e : size ≡ as_usize f.doc.chunk_size = sym (ap as_usize h.sized) in
          let r = write_bytes new_id (as_usize f.doc.chunk_size) buf g s in
          returned_on k (length buf) r.outcome r.file r.rest (
            subst (λ n. Total (Enough size k) (write_bytes new_id n buf g s)) e
              (write_bytes-Total k buf g s
                (record { sized = h.sized; exact = h.exact; fair = h.fair; room = h.room }))))

  lifted_on :
      (k : ℕ) (r : Result (Unit {0})) (f : File) (s : Schedule)
      → Enough size k f s
      → TotalIn (Enough size k) (outcome_of r) f s
  lifted_on k (ok a) f s h = h
  lifted_on k (err e) f s h = tt

  flush_sent-Total :
      (k : ℕ) (n : ℤ) (e : Option Error) (f : File) (s : Schedule)
      → Enough size (suc k) f s
      → Total (Enough size k) (flush_sent new_id n e f s)
  unfolding flush_sent clear_buffer
  flush_sent-Total k n (some e) f s h = weaken size (suc k) k f s (omega arith) h
  flush_sent-Total k n none f s h =
      let r = insert_chunk new_id n f.wbuf f s in
      continue-Total (Enough size k) (Enough size k) r.outcome r.file r.rest _
        (insert_chunk-Total size new_id k n f.wbuf f s h)
        (λ _ g t x. record { sized = x.sized; exact = x.exact; fair = x.fair; room = x.room })

  flush_buffer-Total :
      (k : ℕ) (f : File) (s : Schedule)
      → Enough size (suc k) f s
      → Total (Enough size k) (flush_buffer new_id f s)
  unfolding flush_buffer number_chunk
  flush_buffer-Total k f s h =
      let g = number_chunk f.wbuf f in
      let r = await_load false g s in
      continue-Total (Enough size (suc k)) (Enough size k) r.outcome r.file r.rest _
        (await_load-Total size false (suc k) g s
          (record { sized = h.sized; exact = h.exact; fair = h.fair; room = h.room }))
        (λ _ g t x. flush_sent-Total k f.chunk_num (err_description g) g t x)

  flush-Total :
      (k : ℕ) (f : File) (s : Schedule)
      → Enough size (suc k) f s
      → Total (Enough size k) (flush new_id f s)
  unfolding flush
  flush-Total k f s h =
      continue-Total (Enough size (suc k)) (Enough size k) (outcome_of (assert_mode writing f)) f s
        _ (lifted_on _ (assert_mode writing f) f s h)
        (λ _ f s h.
          let r =
            if not (is_empty f.wbuf) && has_no (err_description f)
            then flush_buffer new_id f s
            else run (done tt) f s in
          continue-Total (Enough size k) (Enough size k) r.outcome r.file r.rest _
            (if_cases (λ (r : Run (Unit {0})). Total (Enough size k) r)
              (not (is_empty f.wbuf) && has_no (err_description f)) _ _
              (λ e. flush_buffer-Total k f s h) (λ e. weaken size (suc k) k f s (omega arith) h))
            (λ _ g t x.
              let w = await_all g t in
              continue-Total (Enough size k) (Enough size k) w.outcome w.file w.rest _
                (await_all-Total size k g t x)
                (λ _ g t y. checked_on k (ok tt) (err_description g) g t y)))

  -- How many waits an upload needs at most.
  abbrev pub waits_of : List (List ℕ × List Event) → ℕ
  waits_of [] = 1
  waits_of ((buf, es) ∷ parts) = waits_of parts + suc (length buf)

  upload-Total :
      (parts : List (List ℕ × List Event)) (f : File) (s : Schedule)
      → Enough size (waits_of parts) f s
      → Total (Enough size 0) (upload new_id parts f s)
  unfolding upload
  upload-Total [] f s h = flush-Total 0 f s h
  upload-Total ((buf, es) ∷ parts) f s h =
      let r = write new_id buf f s in
      continue-Total (Enough size (waits_of parts)) (Enough size 0) r.outcome r.file r.rest _
        (write-Total (waits_of parts) buf f s (weaken size _ _ f s (omega arith) h))
        (λ _ g t x.
          let y = finish_all-exact es g x.exact in
          upload-Total parts (finish_all es g) t (record {
            sized =
                subst (λ (d : GfsFile). d.chunk_size ≡ pos size) (finish_all-Same es g).doc x.sized;
            exact = y.0;
            fair = x.fair;
            room = omega (arith, y.1, x.room);
          }))

  -- If the chunk size is positive, writes into a new file and a flush return, with a result or an error: no write
  -- loops, and none waits for ever, if in each wait the running thread of the oldest chunk ends first, and the
  -- schedule has a wait for each byte, each write and the flush.
  pub upload_returns :
      (doc : GfsFile) (parts : List (List ℕ × List Event)) (s : Schedule)
      → doc.chunk_size ≡ pos size
      → All Ends s
      → waits_of parts ≤ length s
      → (upload new_id parts (with_gfs_file doc writing) s).outcome ≢ waits
  unfolding with_gfs_file flying
  upload_returns doc parts s c a l =
      let r = upload new_id parts (with_gfs_file doc writing) s in
      returned_in r.outcome r.file r.rest (
        upload-Total parts (with_gfs_file doc writing) s
          (record { sized = c; exact = refl; fair = a; room = omega arith }))
    where
      returned_in :
          (o : Outcome (Unit {0})) (f : File) (s : Schedule)
          → TotalIn (Enough size 0) o f s
          → o ≢ waits
      returned_in (done a) f s h = λ e. cc
      returned_in (failed x) f s h = λ e. cc
      returned_in waits f s h = λ e. h
