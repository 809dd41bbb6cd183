-- ===== src/Gridfs/Keeping.antt =====
-- gridfs/file.rs: properties of a file that its calls keep.
use old_mongo_rust_driver.Prelude.{
  ℕ, zero, suc, ◌+◌, ◌≡◌, refl, Bool, Option, none, some, List, [], ◌∷◌, min, take, drop, length,
  is_empty, ltb, not, ◌&&◌, if_cases, if◌then◌else◌, true, false,
}
use old_mongo_rust_driver.Prelude.Int.{ℤ, sub_usize}
use old_mongo_rust_driver.Error.{Error, Result}
use old_mongo_rust_driver.Gridfs.File.{
  File, Event, Schedule, finish, finish_all, Outcome, done, failed, waits, Run, run, continue,
  is_loaded, err_description, assert_mode, writing, insert_chunk,
}
use old_mongo_rust_driver.Gridfs.Write.{
  outcome_of, stop_on, await_load, await_all, number_chunk, send_chunk, extend_buffer, write_chunks,
  clear_buffer, send_buffer, write_full, write_bytes, flush_sent, flush_buffer, flush, has_no,
}

module _ (P : File → Type 0) (finished : (e : Event) (f : File) → P f → P (finish e f)) where
  pub finish_all-Keeps : (es : List Event) (f : File) → P f → P (finish_all es f)
  unfolding finish_all
  finish_all-Keeps [] f h = h
  finish_all-Keeps (e ∷ es) f h = finish_all-Keeps es (finish e f) (finished e f h)

  -- Every outcome leaves the property.
  abbrev pub Keeps {ℓ} : {A : Type ℓ} → Run A → Type 0
  Keeps r = P r.file

  pub continue-Keeps {ℓ κ} :
      {A : Type ℓ} {B : Type κ} (k : A → File → Schedule → Run B) (o : Outcome A) (f : File)
      (s : Schedule)
      → P f
      → ((a : A) (g : File) (t : Schedule) → P g → Keeps (k a g t))
      → Keeps (continue k o f s)
  unfolding continue
  continue-Keeps k (done a) f s h next = next a f s h
  continue-Keeps k (failed e) f s h next = h
  continue-Keeps k waits f s h next = h

  stop_on-Keeps :
      (e : Option Error) (g : File) (s : Schedule) (r : Run (Unit {0}))
      → P g
      → Keeps r
      → Keeps (stop_on e g s r)
  stop_on-Keeps none g s r a b = b
  stop_on-Keeps (some e) g s r a b = a

  await_load-Keeps : (checks : Bool) (f : File) (s : Schedule) → P f → Keeps (await_load checks f s)
  unfolding await_load
  await_load-Keeps checks f [] h = h
  await_load-Keeps checks f (es ∷ s) h =
      let g = finish_all es f in
      let k : P g = finish_all-Keeps es f h in
      let more : Keeps (await_load checks g s) = await_load-Keeps checks g s k in
      if_cases (λ (r : Run (Unit {0})). Keeps r) (is_loaded f) _ _
        (λ e.
          if_cases (λ (r : Run (Unit {0})). Keeps r) checks _ _
            (λ c. stop_on-Keeps (err_description g) g s _ k more) (λ c. more))
        (λ e. h)

  pub await_all-Keeps : (f : File) (s : Schedule) → P f → Keeps (await_all f s)
  unfolding await_all
  await_all-Keeps f [] h = h
  await_all-Keeps f (es ∷ s) h =
      if_cases (λ (r : Run (Unit {0})). Keeps r) (ltb 0 f.wpending) _ _
        (λ e. await_all-Keeps (finish_all es f) s (finish_all-Keeps es f h)) (λ e. h)

  -- `changed` is for the variables of a call: the chunk number, the hash and the buffer.
  module _ (new_id : ℕ → Result ℕ)
      (changed : (f g : File)
        → f.inserts ≡ g.inserts
        → f.wpending ≡ g.wpending
        → f.err ≡ g.err
        → f.doc ≡ g.doc
        → P f
        → P g)
      (inserted : (n : ℤ) (buf : List ℕ) (f : File) (s : Schedule)
        → P f
        → Keeps (insert_chunk new_id n buf f s)) where
    send_chunk-Keeps :
        (hashed chunk : List ℕ) (f : File) (s : Schedule)
        → P f
        → Keeps (send_chunk new_id hashed chunk f s)
    unfolding send_chunk number_chunk
    send_chunk-Keeps hashed chunk f s h =
        let r = await_load true (number_chunk hashed f) s in
        continue-Keeps _ r.outcome r.file r.rest
          (await_load-Keeps true _ s (changed f _ refl refl refl refl h))
          (λ _ g t k. inserted f.chunk_num chunk g t k)

    write_chunks-Keeps :
        (n size : ℕ) (buf bytes : List ℕ) (f : File) (s : Schedule)
        → P f
        → Keeps (write_chunks new_id n size buf bytes f s)
    unfolding write_chunks
    write_chunks-Keeps zero size buf bytes f s h = h
    write_chunks-Keeps (suc n) size buf bytes f s h =
        if_cases (λ (r : Run (Unit {0})). Keeps r) (ltb size (length bytes)) _ _
          (λ e.
            let r = send_chunk new_id buf (take size bytes) f s in
            continue-Keeps _ r.outcome r.file r.rest (send_chunk-Keeps buf (take size bytes) f s h)
              (λ _ g t k. write_chunks-Keeps n size buf (drop size bytes) g t k))
          (λ e. changed f _ refl refl refl refl h)

    send_buffer-Keeps :
        (buf : List ℕ) (missing : ℕ) (f : File) (s : Schedule)
        → P f
        → Keeps (send_buffer new_id buf missing f s)
    unfolding send_buffer clear_buffer
    send_buffer-Keeps buf missing f s h =
        let g = extend_buffer (take missing buf) f in
        let r = send_chunk new_id buf g.wbuf g s in
        continue-Keeps _ r.outcome r.file r.rest
          (send_chunk-Keeps buf g.wbuf g s (changed f g refl refl refl refl h))
          (λ _ g t k. changed g _ refl refl refl refl k)

    pub write_bytes-Keeps :
        (size : ℕ) (buf : List ℕ) (f : File) (s : Schedule)
        → P f
        → Keeps (write_bytes new_id size buf f s)
    unfolding write_bytes write_full
    write_bytes-Keeps size buf f s h =
        if_cases (λ (r : Run (Unit {0})). Keeps r) (ltb (length f.wbuf + length buf) size) _ _
          (λ e. changed f _ refl refl refl refl h)
          (λ e.
            if_cases (λ (r : Run (Unit {0})). Keeps r) (is_empty f.wbuf) _ _
              (λ e. write_chunks-Keeps _ size buf buf f s h)
              (λ e.
                let missing = min (sub_usize size (length f.wbuf)) (length buf) in
                let r = send_buffer new_id buf missing f s in
                continue-Keeps _ r.outcome r.file r.rest (send_buffer-Keeps buf missing f s h)
                  (λ _ g t k. write_chunks-Keeps _ size buf (drop missing buf) g t k)))

    flush_sent-Keeps :
        (n : ℤ) (e : Option Error) (f : File) (s : Schedule)
        → P f
        → Keeps (flush_sent new_id n e f s)
    unfolding flush_sent clear_buffer
    flush_sent-Keeps n (some e) f s h = h
    flush_sent-Keeps n none f s h =
        let r = insert_chunk new_id n f.wbuf f s in
        continue-Keeps _ r.outcome r.file r.rest (inserted n f.wbuf f s h)
          (λ _ g t k. changed g _ refl refl refl refl k)

    pub flush_buffer-Keeps : (f : File) (s : Schedule) → P f → Keeps (flush_buffer new_id f s)
    unfolding flush_buffer number_chunk
    flush_buffer-Keeps f s h =
        let g = number_chunk f.wbuf f in
        let r = await_load false g s in
        continue-Keeps _ r.outcome r.file r.rest
          (await_load-Keeps false g s (changed f g refl refl refl refl h))
          (λ _ g t k. flush_sent-Keeps f.chunk_num (err_description g) g t k)

    pub flush-Keeps : (f : File) (s : Schedule) → P f → Keeps (flush new_id f s)
    unfolding flush
    flush-Keeps f s h = continue-Keeps _ (outcome_of (assert_mode writing f)) f s h (λ _ f s h.
        let r =
          if not (is_empty f.wbuf) && has_no (err_description f)
          then flush_buffer new_id f s
          else run (done tt) f s in
        continue-Keeps _ r.outcome r.file r.rest
          (if_cases (λ (r : Run (Unit {0})). Keeps r)
            (not (is_empty f.wbuf) && has_no (err_description f)) _ _
            (λ _. flush_buffer-Keeps f s h) (λ _. h))
          (λ _ g t k.
            let w = await_all g t in
            continue-Keeps _ w.outcome w.file w.rest (await_all-Keeps g t k) (λ _ x u y. y)))
