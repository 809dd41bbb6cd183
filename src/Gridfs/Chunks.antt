-- ===== src/Gridfs/Chunks.antt =====
-- gridfs/file.rs: the parts of `write`, with the chunks and the buffer.
use old_mongo_rust_driver.Prelude.{
  ℕ, zero, suc, ◌+◌, ◌-◌, ◌*◌, ◌≤◌, ◌<◌, ◌≡◌, refl, sym, ap, subst, ◌∙◌, List, [], ◌++◌, min, take,
  drop, length, is_empty, is_empty-nil, ltb, ltb→lt, ltb→le, if_cases, arith, append_assoc,
  append-nil, length-append, length-take, take-append-drop,
}
use old_mongo_rust_driver.Prelude.Int.{pos, sub_usize, sub_usize_lem}
use old_mongo_rust_driver.Error.{Result}
use old_mongo_rust_driver.Gridfs.Gfs.{GfsFile}
use old_mongo_rust_driver.Gridfs.File.{File, Schedule, Run}
use old_mongo_rust_driver.Gridfs.Write.{
  send_chunk, clear_buffer, extend_buffer, write_chunks, send_buffer, write_full, write_bytes,
}
use old_mongo_rust_driver.Gridfs.Frame.{documents, Ensures, continue-Ensures, Sent, send_chunk-Sent}
use old_mongo_rust_driver.Gridfs.Writing.{join, Pieces, length-join, IsWriter, Sent-Pieces}

module _ (new_id : ℕ → Result ℕ) (size total : ℕ) where
  -- The rest of the bytes is less than a chunk, or a chunk.
  extend-IsWriter :
      (bytes more : List ℕ) (f : File)
      → IsWriter size total bytes f
      → length f.wbuf + length more ≤ size
      → IsWriter size total (bytes ++ more) (extend_buffer more f)
  extend-IsWriter bytes more f h l = record {
    sized = h.sized;
    measured = h.measured;
    counted = h.counted;
    pieces = h.pieces;
    joined =
        sym (append_assoc (join (documents f.inserts)) f.wbuf more)
        ∙ ap (λ xs. xs ++ more) h.joined;
    buffered = omega (arith, length-append f.wbuf more);
  }

  -- The number of chunks is a number of chunks that fits.
  fits :
      (bytes more : List ℕ) (f : File)
      → IsWriter size total bytes f
      → length (bytes ++ more) ≤ 2147483647 * size
      → 1 ≤ size
      → size ≤ length f.wbuf + length more
      → length (documents f.inserts) < 2147483647
  fits bytes more f h b p l =
      let n : length bytes ≡ length (documents f.inserts) * size + length f.wbuf = omega (
        arith,
        ap length h.joined,
        length-append (join (documents f.inserts)) f.wbuf,
        length-join f.doc.id size 0 (documents f.inserts) h.pieces,
      ) in
      let m : suc (length (documents f.inserts)) * size ≤ 2147483647 * size =
        grind (arith, length-append bytes more) in
      grind arith

  -- A whole chunk went out, and the buffer is empty.
  after_send :
      {hashed chunk bytes : List ℕ} {f g : File} (w : List ℕ)
      → Sent hashed chunk f g
      → f.doc.chunk_size ≡ pos size
      → f.doc.len ≡ pos total
      → f.chunk_num ≡ pos (length (documents f.inserts))
      → Pieces f.doc.id size 0 (documents f.inserts)
      → length chunk ≡ size
      → length (documents f.inserts) < 2147483647
      → join (documents f.inserts) ++ chunk ≡ bytes
      → w ≡ []
      → IsWriter size total bytes (record g { wbuf = w })
  after_send {g = g} w h d m n p l b j e =
      let q = Sent-Pieces size h n p l b in
      record {
        sized = subst (λ (x : GfsFile). x.chunk_size ≡ pos size) h.doc d;
        measured = subst (λ (x : GfsFile). x.len ≡ pos total) h.doc m;
        counted = q.0;
        pieces = q.1;
        joined =
            ap (λ xs. join (documents g.inserts) ++ xs) e
            ∙ append-nil (join (documents g.inserts))
            ∙ q.2
            ∙ j;
        buffered = let k : length w ≡ 0 = ap length e in omega arith;
      }

  write_chunks-IsWriter :
      (n : ℕ) (buf bytes more : List ℕ) (f : File) (s : Schedule)
      → IsWriter size total bytes f
      → f.wbuf ≡ []
      → 1 ≤ size
      → length (bytes ++ more) ≤ 2147483647 * size
      → Ensures (IsWriter size total (bytes ++ more)) (write_chunks new_id n size buf more f s)
  unfolding write_chunks
  write_chunks-IsWriter zero buf bytes more f s h e p b = tt
  write_chunks-IsWriter (suc n) buf bytes more f s h e p b =
      if_cases (λ (r : Run (Unit {0})). Ensures (IsWriter size total (bytes ++ more)) r)
        (ltb size (length more)) _ _
        (λ e'.
          let l : size < length more = ltb→lt _ _ e' in
          let part = take size more in
          let split : (bytes ++ part) ++ drop size more ≡ bytes ++ more =
            append_assoc bytes part (drop size more)
            ∙ ap (λ xs. bytes ++ xs) (take-append-drop size more) in
          let r = send_chunk new_id buf part f s in
          continue-Ensures (Sent buf part f) (IsWriter size total (bytes ++ more)) r.outcome r.file
            r.rest _ (send_chunk-Sent new_id buf part f s)
            (λ _ g t k.
              subst
                (λ xs.
                  Ensures (IsWriter size total xs)
                    (write_chunks new_id n size buf (drop size more) g t))
                split
                (write_chunks-IsWriter n buf (bytes ++ part) (drop size more) g t
                  (after_send g.wbuf k h.sized h.measured h.counted h.pieces
                    (omega (arith, length-take size more)) (fits bytes more f h b p (omega arith))
                    (ap (λ xs. xs ++ part)
                      (sym (append-nil (join (documents f.inserts)))
                        ∙ ap (λ w. join (documents f.inserts) ++ w) (sym e)
                        ∙ h.joined))
                    (sym k.wbuf ∙ e))
                  (sym k.wbuf ∙ e) p (subst (λ xs. length xs ≤ 2147483647 * size) (sym split) b))))
        (λ e'.
          extend-IsWriter bytes more f h (
            let k : length f.wbuf ≡ 0 = ap length e in omega (arith, ltb→le size (length more) e')))

  send_buffer-IsWriter :
      (buf bytes : List ℕ) (missing : ℕ) (f : File) (s : Schedule)
      → IsWriter size total bytes f
      → 1 ≤ size
      → length f.wbuf + missing ≡ size
      → missing ≤ length buf
      → length (bytes ++ buf) ≤ 2147483647 * size
      → Ensures
          (λ g. IsWriter size total (bytes ++ take missing buf) g × (g.wbuf ≡ []))
          (send_buffer new_id buf missing f s)
  unfolding send_buffer clear_buffer
  send_buffer-IsWriter buf bytes missing f s h p l m b =
      let part = take missing buf in
      let f' = extend_buffer part f in
      let r = send_chunk new_id buf f'.wbuf f' s in
      continue-Ensures (Sent buf f'.wbuf f')
        (λ g. IsWriter size total (bytes ++ part) g × (g.wbuf ≡ [])) r.outcome r.file r.rest _
        (send_chunk-Sent new_id buf f'.wbuf f' s)
        (λ _ g t k. (
          after_send [] k h.sized h.measured h.counted h.pieces
              (omega (arith, length-append f.wbuf part, length-take missing buf))
              (fits bytes buf f h b p (omega arith))
              (sym (append_assoc (join (documents f.inserts)) f.wbuf part)
                ∙ ap (λ xs. xs ++ part) h.joined)
              refl,
          refl,
        ))

  write_full-IsWriter :
      (buf bytes : List ℕ) (f : File) (s : Schedule)
      → IsWriter size total bytes f
      → 1 ≤ size
      → size ≤ 2147483647
      → size ≤ length f.wbuf + length buf
      → length (bytes ++ buf) ≤ 2147483647 * size
      → Ensures (IsWriter size total (bytes ++ buf)) (write_full new_id size buf f s)
  unfolding write_full
  write_full-IsWriter buf bytes f s h p q l b =
      if_cases (λ (r : Run (Unit {0})). Ensures (IsWriter size total (bytes ++ buf)) r)
        (is_empty f.wbuf) _ _
        (λ e.
          write_chunks-IsWriter (suc (length buf)) buf bytes buf f s h (is_empty-nil f.wbuf e) p b)
        (λ e.
          let missing = min (sub_usize size (length f.wbuf)) (length buf) in
          let k : missing ≡ size - length f.wbuf =
            omega (arith, sub_usize_lem size (length f.wbuf) h.buffered q) in
          let split : (bytes ++ take missing buf) ++ drop missing buf ≡ bytes ++ buf =
            append_assoc bytes (take missing buf) (drop missing buf)
            ∙ ap (λ xs. bytes ++ xs) (take-append-drop missing buf) in
          let r = send_buffer new_id buf missing f s in
          continue-Ensures (λ g. IsWriter size total (bytes ++ take missing buf) g × (g.wbuf ≡ []))
            (IsWriter size total (bytes ++ buf)) r.outcome r.file r.rest _
            (send_buffer-IsWriter buf bytes missing f s h p (omega (arith, h.buffered))
              (omega arith) b)
            (λ _ g t x.
              subst
                (λ xs.
                  Ensures (IsWriter size total xs)
                    (write_chunks new_id (suc (length buf)) size buf (drop missing buf) g t))
                split
                (write_chunks-IsWriter (suc (length buf)) buf (bytes ++ take missing buf)
                  (drop missing buf) g t x.0 x.1 p
                  (subst (λ xs. length xs ≤ 2147483647 * size) (sym split) b))))

  pub write_bytes-IsWriter :
      (buf bytes : List ℕ) (f : File) (s : Schedule)
      → IsWriter size total bytes f
      → 1 ≤ size
      → size ≤ 2147483647
      → length (bytes ++ buf) ≤ 2147483647 * size
      → Ensures (IsWriter size total (bytes ++ buf)) (write_bytes new_id size buf f s)
  unfolding write_bytes
  write_bytes-IsWriter buf bytes f s h p q b =
      if_cases (λ (r : Run (Unit {0})). Ensures (IsWriter size total (bytes ++ buf)) r)
        (ltb (length f.wbuf + length buf) size) _ _
        (λ e. extend-IsWriter bytes buf f h (omega (arith, ltb→lt _ _ e)))
        (λ e. write_full-IsWriter buf bytes f s h p q (ltb→le _ _ e) b)
