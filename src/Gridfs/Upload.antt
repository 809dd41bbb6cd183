-- ===== src/Gridfs/Upload.antt =====
-- gridfs/file.rs: `flush` on a file that holds bytes.
use old_mongo_rust_driver.Prelude.{
  ℕ, ◌+◌, ◌≤◌, ◌≡◌, refl, sym, ap, subst, ◌∙◌, Bool, true, false, not, ◌&&◌, Option, none, some,
  List, [], ◌∷◌, ◌++◌, length, is_empty, is_empty-nil, if◌then◌else◌, if_cases, arith, append-nil,
  and-eq-true, and-eq-false, inl, inr,
}
use old_mongo_rust_driver.Prelude.Int.{pos}
use old_mongo_rust_driver.Error.{Error, Result, ok}
use old_mongo_rust_driver.Gridfs.Gfs.{GfsFile}
use old_mongo_rust_driver.Gridfs.File.{
  File, Schedule, Outcome, done, failed, waits, Run, run, err_description, assert_mode, writing,
  chunk_document, insert_chunk,
}
use old_mongo_rust_driver.Gridfs.Write.{
  outcome_of, await_load, await_all, number_chunk, clear_buffer, checked, has_no, flush_sent,
  flush_buffer, flush,
}
use old_mongo_rust_driver.Gridfs.Frame.{
  documents, Ensures, OnDone, continue-Ensures, on_done, Same, Sent, insert_chunk-Sent,
  await_load-Same, await_all-Same,
}
use old_mongo_rust_driver.Gridfs.Writing.{
  join, join-append, IsPiece, chunk_document-IsPiece, bytes_of-chunk_document,
}
use old_mongo_rust_driver.Gridfs.Content.{Holds}
use old_mongo_rust_driver.Gridfs.Tracking.{
  IsTracked, nothing_left, await_all-IsTracked, flush_buffer-IsTracked,
}
use old_mongo_rust_driver.Gridfs.Flushed.{
  Layout, Layout-Pieces, Layout-last, IsLaidOut, IsUploaded, await_all-none, await_all-err,
  err_description-none, err_description-some, has_no-false, Same-IsLaidOut,
}

both :
    (P Q : File → Type 0) (r : Run (Unit {0})) → Ensures P r → Q r.file → Ensures (λ f. P f × Q f) r
both P Q r h k = both_in r.outcome h
  where
    both_in : (o : Outcome (Unit {0})) → OnDone P o r.file → OnDone (λ f. P f × Q f) o r.file
    both_in (done a) x = (x, k)
    both_in (failed e) x = tt
    both_in waits x = tt

not-true : (b : Bool) → not b ≡ true → b ≡ false
not-true true h = cc
not-true false h = refl

not-false : (b : Bool) → not b ≡ false → b ≡ true
not-false true h = refl
not-false false h = cc

module _ (new_id : ℕ → Result ℕ) (size : ℕ) (p : 1 ≤ size) where
  -- The buffer, which is not empty, went out as the last chunk.
  last_out :
      {hashed : List ℕ} (bytes : List ℕ) (f g : File)
      → Holds size bytes f
      → is_empty f.wbuf ≡ false
      → Sent hashed f.wbuf f g
      → IsLaidOut size bytes (record g { wbuf = [] })
  last_out bytes f g h e k = record {
    sized = subst (λ (x : GfsFile). x.chunk_size ≡ pos size) k.doc h.sized;
    measured = subst (λ (x : GfsFile). x.len ≡ pos (length bytes)) k.doc h.measured;
    layout =
        subst (λ (x : GfsFile). Layout x.id size 0 (documents g.inserts)) k.doc
          (subst (Layout f.doc.id size 0) k.sent (
            Layout-last f.doc.id size 0 (length f.wbuf) (documents f.inserts) _ h.pieces
              (filled f.wbuf e) h.buffered
              (subst
                (λ z.
                  IsPiece f.doc.id (length f.wbuf) (0 + length (documents f.inserts))
                    (chunk_document k.id f.doc.id z f.wbuf))
                (sym h.counted)
                (subst
                  (λ n.
                    IsPiece f.doc.id (length f.wbuf) n
                      (chunk_document k.id f.doc.id (pos (length (documents f.inserts))) f.wbuf))
                  (omega arith)
                  (chunk_document-IsPiece k.id f.doc.id (length (documents f.inserts))
                    (length f.wbuf) f.wbuf refl)))));
    joined =
        sym (ap join k.sent)
        ∙ join-append (documents f.inserts) _
        ∙ ap (λ xs. join (documents f.inserts) ++ xs)
            (append-nil _ ∙ bytes_of-chunk_document k.id f.doc.id f.chunk_num f.wbuf)
        ∙ h.joined;
    emptied = refl;
  }
    where
      filled : (xs : List ℕ) → is_empty xs ≡ false → 1 ≤ length xs
      filled [] q = cc
      filled (x ∷ xs) q = omega arith

  -- The part of `flush` before the wait for all: with no error, the chunks make up the bytes.
  abbrev Ready : List ℕ → File → Type 0
  Ready bytes f = (f.err ≡ none → IsLaidOut size bytes f) × IsTracked f

  flush_sent-Ready :
      (bytes : List ℕ) (f g : File) (t : Schedule) (e : Option Error)
      → Holds size bytes f
      → is_empty f.wbuf ≡ false
      → Same (number_chunk f.wbuf f) g
      → err_description g ≡ e
      → Ensures (λ x. x.err ≡ none → IsLaidOut size bytes x) (flush_sent new_id f.chunk_num e g t)
  unfolding flush_sent clear_buffer number_chunk
  flush_sent-Ready bytes f g t none h n k q =
      let r = insert_chunk new_id f.chunk_num g.wbuf g t in
      continue-Ensures (Sent f.wbuf g.wbuf f) (λ x. x.err ≡ none → IsLaidOut size bytes x) r.outcome
        r.file r.rest _ (insert_chunk-Sent new_id f.wbuf g.wbuf f g t k)
        (λ _ x u l _. last_out bytes f x h n (subst (λ w. Sent f.wbuf w f x) (sym k.wbuf) l))
  flush_sent-Ready bytes f g t (some x) h n k q = λ c. absurd (err_description-some g x q c)

  flush_buffer-Ready :
      (bytes : List ℕ) (f : File) (s : Schedule)
      → Holds size bytes f
      → is_empty f.wbuf ≡ false
      → Ensures (λ x. x.err ≡ none → IsLaidOut size bytes x) (flush_buffer new_id f s)
  unfolding flush_buffer
  flush_buffer-Ready bytes f s h n =
      let r = await_load false (number_chunk f.wbuf f) s in
      continue-Ensures (Same (number_chunk f.wbuf f)) (λ x. x.err ≡ none → IsLaidOut size bytes x)
        r.outcome r.file r.rest _
        (on_done (Same (number_chunk f.wbuf f)) r.outcome r.file (await_load-Same false _ s))
        (λ _ g t k. flush_sent-Ready bytes f g t (err_description g) h n k refl)

  -- An empty buffer.
  settled : (bytes : List ℕ) (f : File) → Holds size bytes f → f.wbuf ≡ [] → IsLaidOut size bytes f
  settled bytes f h e = record {
    sized = h.sized;
    measured = h.measured;
    layout = Layout-Pieces f.doc.id size 0 (documents f.inserts) p h.pieces;
    joined =
        sym (append-nil (join (documents f.inserts)))
        ∙ ap (λ w. join (documents f.inserts) ++ w) (sym e)
        ∙ h.joined;
    emptied = e;
  }

  -- All is sent, and then waited for.
  waited :
      (bytes : List ℕ) (f : File) (s : Schedule)
      → Ready bytes f
      → Ensures (λ g. (g.wpending ≡ 0) × Ready bytes g) (await_all f s)
  waited bytes f s (h, k) =
      both (λ g. g.wpending ≡ 0) (Ready bytes) (await_all f s) (await_all-none f s)
        (
          λ q. Same-IsLaidOut size bytes f _ (await_all-Same f s) (h (await_all-err f s q)),
          await_all-IsTracked f s k,
        )

  checked-IsUploaded :
      (bytes : List ℕ) (f : File) (s : Schedule)
      → Ready bytes f
      → f.wpending ≡ 0
      → Ensures (IsUploaded size bytes) (run (checked (ok tt) (err_description f)) f s)
  checked-IsUploaded bytes f s (h, k) z = by_error (err_description f) refl
    where
      by_error :
          (e : Option Error)
          → err_description f ≡ e
          → Ensures (IsUploaded size bytes) (run (checked (ok tt) e) f s)
      by_error none q =
          let c : f.err ≡ none = err_description-none f q in
          (h c, nothing_left f.inserts (omega (arith, k.pending)) (k.reported c))
      by_error (some e) q = tt

  -- The buffer goes out if there is one.
  emptied-Ready :
      (bytes : List ℕ) (f : File) (s : Schedule)
      → Holds size bytes f
      → IsTracked f
      → Ensures (Ready bytes) (
          if not (is_empty f.wbuf) && has_no (err_description f)
          then flush_buffer new_id f s
          else run (done tt) f s)
  emptied-Ready bytes f s h k =
      if_cases (λ (r : Run (Unit {0})). Ensures (Ready bytes) r)
        (not (is_empty f.wbuf) && has_no (err_description f)) _ _
        (λ e.
          both (λ x. x.err ≡ none → IsLaidOut size bytes x) IsTracked (flush_buffer new_id f s)
            (flush_buffer-Ready bytes f s h (not-true _ (and-eq-true _ _ e).0))
            (flush_buffer-IsTracked new_id f s k))
        (λ e. (
          λ q. elim (and-eq-false _ _ e) [
            | inl a ↦ settled bytes f h (is_empty-nil f.wbuf (not-false _ a))
            | inr b ↦ absurd (has_no-false f b q)
          ],
          k,
        ))

  -- A `flush` that is done on a file that holds `bytes` has emptied the buffer, and no insert of the file's chunks is
  -- pending or gave an error: the server inserted each chunk, or refused it, which `flush` does not see. The
  -- chunks have consecutive numbers from 0 and the chunk size, which is positive, but for the last, which has at
  -- most as many bytes, and make up `bytes` together.
  pub flush-IsUploaded :
      (bytes : List ℕ) (f : File) (s : Schedule)
      → Holds size bytes f
      → IsTracked f
      → Ensures (IsUploaded size bytes) (flush new_id f s)
  unfolding flush
  flush-IsUploaded bytes f s h k =
      continue-Ensures (λ g. Holds size bytes g × IsTracked g) (IsUploaded size bytes)
        (outcome_of (assert_mode writing f)) f s _
        (on_done (λ g. Holds size bytes g × IsTracked g) (outcome_of (assert_mode writing f)) f
          (h, k))
        (λ _ f s x.
          let r =
            if not (is_empty f.wbuf) && has_no (err_description f)
            then flush_buffer new_id f s
            else run (done tt) f s in
          continue-Ensures (Ready bytes) (IsUploaded size bytes) r.outcome r.file r.rest _
            (emptied-Ready bytes f s x.0 x.1)
            (λ _ g t y.
              let w = await_all g t in
              continue-Ensures (λ g. (g.wpending ≡ 0) × Ready bytes g) (IsUploaded size bytes)
                w.outcome w.file w.rest _ (waited bytes g t y)
                (λ _ g t z. checked-IsUploaded bytes g t z.1 z.0)))
