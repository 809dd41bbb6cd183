-- ===== src/Gridfs/Frame.antt =====
-- gridfs/file.rs: what the ends of threads, the waits and the sending of a chunk leave alone.
use mathlib.Core.Path.{ap₂}
use old_mongo_rust_driver.Prelude.{
  ℕ, ◌+◌, ◌-◌, ◌≡◌, refl, sym, ap, ◌∙◌, Bool, true, Option, none, some, List, [], ◌∷◌, ◌++◌, ltb,
  if_cases,
}
use old_mongo_rust_driver.Prelude.Int.{pos, add_i32}
use old_mongo_rust_driver.Bson.{Document}
use old_mongo_rust_driver.Error.{Error, Result, ok, err}
use old_mongo_rust_driver.Gridfs.Gfs.{GfsFile}
use old_mongo_rust_driver.Coll.Single.{InsertOneResult}
use old_mongo_rust_driver.Gridfs.File.{
  File, Insert, running, flying, Event, ends, Schedule, complete, finish, finish_all, Outcome, done,
  failed, waits, Run, continue, err_description, is_loaded, chunk_document, spawn, insert_chunk,
}
use old_mongo_rust_driver.Gridfs.Write.{stop_on, await_load, await_all, number_chunk, send_chunk}

-- The documents of the chunks.
abbrev pub documents : List Insert → List Document
documents [] = []
documents (c ∷ cs) = c.document ∷ documents cs

pub documents-append : (cs ds : List Insert) → documents (cs ++ ds) ≡ documents cs ++ documents ds
documents-append [] ds = refl
documents-append (c ∷ cs) ds = ap (λ xs. c.document ∷ xs) (documents-append cs ds)

-- A property of the file when a call is done.
abbrev pub OnDone {ℓ κ} : {A : Type ℓ} → (File → Type κ) → Outcome A → File → Type κ
OnDone P (done a) f = P f
OnDone P (failed e) f = Unit
OnDone P waits f = Unit

abbrev pub Ensures {ℓ κ} : {A : Type ℓ} → (File → Type κ) → Run A → Type κ
Ensures P r = OnDone P r.outcome r.file

module _ {ℓ κ μ ν} {A : Type ℓ} {B : Type κ} (P : File → Type μ) (Q : File → Type ν) where
  pub continue-Ensures :
      (o : Outcome A) (f : File) (s : Schedule) (k : A → File → Schedule → Run B)
      → OnDone P o f
      → ((a : A) (g : File) (t : Schedule) → P g → Ensures Q (k a g t))
      → Ensures Q (continue k o f s)
  unfolding continue
  continue-Ensures (done a) f s k h next = next a f s h
  continue-Ensures (failed e) f s k h next = tt
  continue-Ensures waits f s k h next = tt

-- The files agree in all that the threads do not change.
pub record Same (f g : File) : Type 0 where
  pub mode : f.mode ≡ g.mode
  pub chunk_num : f.chunk_num ≡ g.chunk_num
  pub wbuf : f.wbuf ≡ g.wbuf
  pub wsum : f.wsum ≡ g.wsum
  pub doc : f.doc ≡ g.doc
  pub sent : documents f.inserts ≡ documents g.inserts

pub Same-refl : (f : File) → Same f f
Same-refl f = record {
  mode = refl;
  chunk_num = refl;
  wbuf = refl;
  wsum = refl;
  doc = refl;
  sent = refl;
}

pub Same-trans : (f g h : File) → Same f g → Same g h → Same f h
Same-trans f g h a b = record {
  mode = a.mode ∙ b.mode;
  chunk_num = a.chunk_num ∙ b.chunk_num;
  wbuf = a.wbuf ∙ b.wbuf;
  wsum = a.wsum ∙ b.wsum;
  doc = a.doc ∙ b.doc;
  sent = a.sent ∙ b.sent;
}

documents-complete :
    (i : ℕ) (r : Result InsertOneResult) (cs : List Insert)
    → documents cs ≡ documents (complete i r cs)
unfolding complete
documents-complete i r [] = refl
documents-complete i r (c ∷ cs) =
    if_cases (λ ds. documents (c ∷ cs) ≡ documents ds) (ltb i (running c.status)) _ _ (λ e. refl)
      (λ e. ap (λ xs. c.document ∷ xs) (documents-complete (i - running c.status) r cs))

finish-Same : (e : Event) (f : File) → Same f (finish e f)
unfolding finish
finish-Same (ends i r) f =
    if_cases (Same f) (ltb i (flying f.inserts)) _ _
      (λ e. record {
        mode = refl;
        chunk_num = refl;
        wbuf = refl;
        wsum = refl;
        doc = refl;
        sent = documents-complete i r f.inserts;
      })
      (λ e. Same-refl f)

pub finish_all-Same : (es : List Event) (f : File) → Same f (finish_all es f)
unfolding finish_all
finish_all-Same [] f = Same-refl f
finish_all-Same (e ∷ es) f =
    Same-trans f (finish e f) _ (finish-Same e f) (finish_all-Same es (finish e f))

stop_on-Same :
    (f : File) (e : Option Error) (g : File) (s : Schedule) (r : Run (Unit {0}))
    → Same f g
    → Same f r.file
    → Same f (stop_on e g s r).file
stop_on-Same f none g s r a b = b
stop_on-Same f (some e) g s r a b = a

pub await_load-Same :
    (checks : Bool) (f : File) (s : Schedule) → Same f (await_load checks f s).file
unfolding await_load
await_load-Same checks f [] = Same-refl f
await_load-Same checks f (es ∷ s) =
    let g = finish_all es f in
    let more : Same f (await_load checks g s).file =
      Same-trans f g _ (finish_all-Same es f) (await_load-Same checks g s) in
    if_cases (λ (r : Run (Unit {0})). Same f r.file) (is_loaded f) _ _
      (λ e.
        if_cases (λ (r : Run (Unit {0})). Same f r.file) checks _ _
          (λ c. stop_on-Same f (err_description g) g s _ (finish_all-Same es f) more) (λ c. more))
      (λ e. Same-refl f)

pub await_all-Same : (f : File) (s : Schedule) → Same f (await_all f s).file
unfolding await_all
await_all-Same f [] = Same-refl f
await_all-Same f (es ∷ s) =
    if_cases (λ (r : Run (Unit {0})). Same f r.file) (ltb 0 f.wpending) _ _
      (λ e.
        Same-trans f (finish_all es f) _ (finish_all-Same es f)
          (await_all-Same (finish_all es f) s))
      (λ e. Same-refl f)

pub on_done {ℓ} : {A : Type ℓ} (P : File → Type 0) (o : Outcome A) (f : File) → P f → OnDone P o f
on_done P (done a) f h = h
on_done P (failed e) f h = tt
on_done P waits f h = tt

pub holds_then :
    (P : File → Type 0) (o : Outcome (Unit {0})) (f : File) → o ≡ done tt → OnDone P o f → P f
holds_then P (done a) f e h = h
holds_then P (failed x) f e h = cc
holds_then P waits f e h = cc

-- The chunk has been sent, under the file's chunk number.
pub record Sent (hashed chunk : List ℕ) (f g : File) : Type 0 where
  pub mode : f.mode ≡ g.mode
  pub counted : g.chunk_num ≡ add_i32 f.chunk_num (pos 1)
  pub wbuf : f.wbuf ≡ g.wbuf
  pub wsum : f.wsum ++ hashed ≡ g.wsum
  pub doc : f.doc ≡ g.doc
  pub id : ℕ
  pub sent :
      documents f.inserts ++ chunk_document id f.doc.id f.chunk_num chunk ∷ [] ≡ documents g.inserts

module _ (new_id : ℕ → Result ℕ) where
  spawn-Sent :
      (r : Result ℕ) (hashed chunk : List ℕ) (f g : File) (s : Schedule)
      → Same (number_chunk hashed f) g
      → Ensures (Sent hashed chunk f) (spawn new_id r f.chunk_num chunk g s)
  unfolding spawn number_chunk
  spawn-Sent (err e) hashed chunk f g s h = tt
  spawn-Sent (ok id) hashed chunk f g s h = record {
    mode = h.mode;
    counted = sym h.chunk_num;
    wbuf = h.wbuf;
    wsum = h.wsum;
    doc = h.doc;
    id = id;
    sent =
        ap₂ (λ ds (d : GfsFile). ds ++ chunk_document id d.id f.chunk_num chunk ∷ []) h.sent h.doc
        ∙ sym (documents-append g.inserts _);
  }

  pub insert_chunk-Sent :
      (hashed chunk : List ℕ) (f g : File) (s : Schedule)
      → Same (number_chunk hashed f) g
      → Ensures (Sent hashed chunk f) (insert_chunk new_id f.chunk_num chunk g s)
  unfolding insert_chunk
  insert_chunk-Sent hashed chunk f g s h =
      spawn-Sent (new_id g.made) hashed chunk f
        (record g { wpending = g.wpending + 1; made = g.made + 1 }) s
        (record {
          mode = h.mode;
          chunk_num = h.chunk_num;
          wbuf = h.wbuf;
          wsum = h.wsum;
          doc = h.doc;
          sent = h.sent;
        })

  pub send_chunk-Sent :
      (hashed chunk : List ℕ) (f : File) (s : Schedule)
      → Ensures (Sent hashed chunk f) (send_chunk new_id hashed chunk f s)
  unfolding send_chunk
  send_chunk-Sent hashed chunk f s =
      let r = await_load true (number_chunk hashed f) s in
      continue-Ensures (Same (number_chunk hashed f)) (Sent hashed chunk f) r.outcome r.file r.rest
        _ (on_done (Same (number_chunk hashed f)) r.outcome r.file (await_load-Same true _ s))
        (λ _ g t h. insert_chunk-Sent hashed chunk f g t h)
