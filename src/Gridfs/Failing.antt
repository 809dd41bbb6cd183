-- ===== src/Gridfs/Failing.antt =====
-- gridfs/file.rs: `close` after a failed insert.
use old_mongo_rust_driver.Prelude.{
  ℕ, ◌+◌, ◌≡◌, sym, ◌≢◌, refl, subst, ◌∙◌, Bool, false, not, ◌&&◌, Option, none, some, List, [],
  ◌∷◌, is_empty, if◌then◌else◌, if_cases,
}
use old_mongo_rust_driver.Prelude.Int.{ℤ}
use old_mongo_rust_driver.Prelude.Text.{Text}
use old_mongo_rust_driver.Error.{Error, Result, ok, err}
use old_mongo_rust_driver.Gridfs.Gfs.{Date}
use old_mongo_rust_driver.Gridfs.File.{
  writing, File, Schedule, finish_all, Outcome, done, failed, waits, Run, run, err_description,
  assert_mode, is_loaded, spawn, insert_chunk,
}
use old_mongo_rust_driver.Gridfs.Write.{
  outcome_of, stop_on, await_load, await_all, number_chunk, clear_buffer, checked, has_no,
  flush_sent, flush_buffer, flush,
}
use old_mongo_rust_driver.Gridfs.Close.{Request, close, close_in, after_flush}
use old_mongo_rust_driver.Gridfs.Frame.{Ensures, OnDone, continue-Ensures, on_done}
use old_mongo_rust_driver.Gridfs.Flushed.{finish_all-err, await_all-err, err_description-none}

-- An error that was there is still there.
abbrev Since : File → File → Type 0
Since f g = g.err ≡ none → f.err ≡ none

stop_on-Since :
    (f : File) (e : Option Error) (g : File) (s : Schedule) (r : Run (Unit {0}))
    → Since f g
    → Since f r.file
    → Since f (stop_on e g s r).file
stop_on-Since f none g s r a b = b
stop_on-Since f (some e) g s r a b = a

await_load-Since : (checks : Bool) (f : File) (s : Schedule) → Since f (await_load checks f s).file
unfolding await_load
await_load-Since checks f [] = λ h. h
await_load-Since checks f (es ∷ s) =
    let g = finish_all es f in
    let more : Since f (await_load checks g s).file =
      λ h. finish_all-err es f (await_load-Since checks g s h) in
    if_cases (λ (r : Run (Unit {0})). Since f r.file) (is_loaded f) _ _
      (λ e.
        if_cases (λ (r : Run (Unit {0})). Since f r.file) checks _ _
          (λ c. stop_on-Since f (err_description g) g s _ (finish_all-err es f) more) (λ c. more))
      (λ e h. h)

map_done :
    (P Q : File → Type 0) (o : Outcome (Unit {0})) (f : File)
    → (P f → Q f)
    → OnDone P o f
    → OnDone Q o f
map_done P Q (done a) f k h = k h
map_done P Q (failed e) f k h = tt
map_done P Q waits f k h = tt

checked-none :
    (f g : File) (e : Option Error)
    → err_description g ≡ e
    → Since f g
    → OnDone (λ _. f.err ≡ none) (checked (ok tt) e) g
checked-none f g none q k = k (err_description-none g q)
checked-none f g (some e) q k = tt

module _ (new_id : ℕ → Result ℕ) where
  spawn-Since :
      (r : Result ℕ) (n : ℤ) (buf : List ℕ) (f : File) (s : Schedule)
      → Ensures (Since f) (spawn new_id r n buf f s)
  unfolding spawn
  spawn-Since (err e) n buf f s = tt
  spawn-Since (ok id) n buf f s = λ h. h

  flush_sent-Since :
      (n : ℤ) (e : Option Error) (f : File) (s : Schedule)
      → Ensures (Since f) (flush_sent new_id n e f s)
  unfolding flush_sent clear_buffer insert_chunk
  flush_sent-Since n (some e) f s = λ h. h
  flush_sent-Since n none f s =
      let r = insert_chunk new_id n f.wbuf f s in
      continue-Ensures (Since f) (Since f) r.outcome r.file r.rest _
        (spawn-Since (new_id f.made) n f.wbuf
          (record f { wpending = f.wpending + 1; made = f.made + 1 }) s)
        (λ _ g t k. k)

  flush_buffer-Since : (f : File) (s : Schedule) → Ensures (Since f) (flush_buffer new_id f s)
  unfolding flush_buffer number_chunk
  flush_buffer-Since f s =
      let r = await_load false (number_chunk f.wbuf f) s in
      continue-Ensures (Since f) (Since f) r.outcome r.file r.rest _
        (on_done (Since f) r.outcome r.file (await_load-Since false _ s))
        (λ _ g t k.
          let o = flush_sent new_id f.chunk_num (err_description g) g t in
          map_done (Since g) (Since f) o.outcome o.file (λ h q. k (h q))
            (flush_sent-Since f.chunk_num (err_description g) g t))

  -- A `flush` is done only on a file without an error.
  flush-errorless : (f : File) (s : Schedule) → Ensures (λ g. f.err ≡ none) (flush new_id f s)
  unfolding flush
  flush-errorless f s =
      continue-Ensures (Since f) (λ _. f.err ≡ none) (outcome_of (assert_mode writing f)) f s _
        (on_done (Since f) (outcome_of (assert_mode writing f)) f (λ h. h))
        (λ _ g t x.
          let r =
            if not (is_empty g.wbuf) && has_no (err_description g)
            then flush_buffer new_id g t
            else run (done tt) g t in
          continue-Ensures (Since f) (λ _. f.err ≡ none) r.outcome r.file r.rest _
            (if_cases (λ (r : Run (Unit {0})). Ensures (Since f) r)
              (not (is_empty g.wbuf) && has_no (err_description g)) _ _
              (λ e.
                let o = flush_buffer new_id g t in
                map_done (Since g) (Since f) o.outcome o.file (λ h q. x (h q))
                  (flush_buffer-Since g t))
              (λ e. x))
            (λ _ h u y.
              let w = await_all h u in
              continue-Ensures (Since f) (λ _. f.err ≡ none) w.outcome w.file w.rest _
                (on_done (Since f) w.outcome w.file (λ q. y (await_all-err h u q)))
                (λ _ j v z. checked-none f j (err_description j) refl z)))

  module _ {ℓ} {W : Type ℓ} (serve : Request → W → W × Result (Unit {0})) where
    -- `close` on a file that is written, one of whose inserts failed, is not done, and sends no request: the chunks
    -- stay in the collection, although the code has a branch that removes them.
    pub close_keeps_chunks :
        (now : Date) (digest : List ℕ → Text) (f : File) (s : Schedule) (w : W) (e : Error)
        → f.mode ≡ writing
        → f.err ≡ some e
        → let c = close serve now digest new_id f s w in (c.world ≡ w) × (c.outcome ≢ done tt)
    unfolding close close_in after_flush
    close_keeps_chunks now digest f s w e m x =
        subst
          (λ mode.
            let c = close_in serve now digest new_id mode f s w in
            (c.world ≡ w) × (c.outcome ≢ done tt))
          (sym m) (let r = flush new_id f s in unsent r.outcome r.file (flush-errorless f s))
      where
        unsent :
            (o : Outcome (Unit {0})) (g : File)
            → OnDone (λ _. f.err ≡ none) o g
            → let c = after_flush serve now digest o g w in (c.world ≡ w) × (c.outcome ≢ done tt)
        unsent (done a) g h = absurd (clash h)
          where
            clash : f.err ≢ none
            clash q = cc (sym x ∙ q)
        unsent (failed y) g h = (refl, λ q. cc)
        unsent waits g h = (refl, λ q. cc)
