-- ===== src/Gridfs/Tracking.antt =====
-- gridfs/file.rs: the count of pending writes, and the error that failed inserts leave.
use old_mongo_rust_driver.Bson.{Bson}
use old_mongo_rust_driver.Prelude.{
  ◌⊎◌, inl, inr, ◌≢◌, ℕ, suc, ◌+◌, ◌-◌, ◌≤◌, ◌<◌, ◌≡◌, refl, subst, length, ◌∙◌, Option, none, some,
  List, [], ◌∷◌, ◌++◌, ltb, ltb→lt, if_cases, arith, All,
}
use old_mongo_rust_driver.Prelude.Int.{ℤ, as_usize}
use old_mongo_rust_driver.Error.{Result, ok, err}
use old_mongo_rust_driver.Coll.Single.{InsertOneResult}
use old_mongo_rust_driver.Gridfs.File.{
  File, Insert, Status, in_flight, stored, refused, lost, status_by, status_of, running, flying,
  Event, ends, Schedule, complete, finish, finish_all, assert_mode, writing, err_description, spawn,
  insert_chunk,
}
use old_mongo_rust_driver.Gridfs.Write.{
  await_all, write_bytes, lengthen, checked, write, flush_buffer,
}
use old_mongo_rust_driver.Gridfs.Keeping.{
  finish_all-Keeps, await_all-Keeps, continue-Keeps, write_bytes-Keeps, flush_buffer-Keeps,
}

abbrev failures : Status → ℕ
failures in_flight = 0
failures stored = 0
failures refused = 0
failures lost = 1

-- How many inserts ended with an error.
abbrev pub losses : List Insert → ℕ
losses [] = 0
losses (c ∷ cs) = failures c.status + losses cs

pub record IsTracked (f : File) : Type 0 where
  pub pending : flying f.inserts ≤ f.wpending
  pub reported : f.err ≡ none → losses f.inserts ≡ 0

running-failures : (s : Status) → running s + failures s ≤ 1
running-failures in_flight = omega arith
running-failures stored = omega arith
running-failures refused = omega arith
running-failures lost = omega arith

running-status_of : (r : Result InsertOneResult) → running (status_of r) ≡ 0
running-status_of (ok r) = by_id r.inserted_id
  where
    by_id : (id : Option Bson) → running (status_by id) ≡ 0
    by_id none = refl
    by_id (some id) = refl
running-status_of (err e) = refl

failures-status_by : (id : Option Bson) → failures (status_by id) ≡ 0
failures-status_by none = refl
failures-status_by (some id) = refl

pub flying-complete :
    (i : ℕ) (r : Result InsertOneResult) (cs : List Insert)
    → i < flying cs
    → suc (flying (complete i r cs)) ≡ flying cs
unfolding complete flying
flying-complete i r [] h = absurd (omega arith)
flying-complete i r (c ∷ cs) h = ground (
  arith,
  running-failures c.status,
  running-status_of r,
  flying-complete (i - running c.status) r cs,
)

losses-complete :
    (i : ℕ) (x : InsertOneResult) (cs : List Insert)
    → i < flying cs
    → losses (complete i (ok x) cs) ≡ losses cs
unfolding complete flying
losses-complete i x [] h = refl
losses-complete i x (c ∷ cs) h = ground (
  arith,
  running-failures c.status,
  failures-status_by x.inserted_id,
  losses-complete (i - running c.status) x cs,
)

pub flying-append : (cs ds : List Insert) → flying (cs ++ ds) ≡ flying cs + flying ds
unfolding flying
flying-append [] ds = omega arith
flying-append (c ∷ cs) ds = omega (arith, flying-append cs ds)

losses-append : (cs ds : List Insert) → losses (cs ++ ds) ≡ losses cs + losses ds
losses-append [] ds = omega arith
losses-append (c ∷ cs) ds = omega (arith, losses-append cs ds)

-- The server inserted the chunk, or refused it.
abbrev pub IsAnswered : Insert → Type 0
IsAnswered c = (c.status ≡ stored) ⊎ (c.status ≡ refused)

abbrev pub IsAccepted : Insert → Type 0
IsAccepted c = c.status ≢ refused

pub answered-accepted :
    (cs : List Insert) → All IsAnswered cs → All IsAccepted cs → All (λ c. c.status ≡ stored) cs
answered-accepted [] a b = tt
answered-accepted (c ∷ cs) (inl h, a) b = (h, answered-accepted cs a b.1)
answered-accepted (c ∷ cs) (inr h, a) b = absurd (b.0 h)

-- Nothing runs and nothing failed.
pub nothing_left : (cs : List Insert) → flying cs ≡ 0 → losses cs ≡ 0 → All IsAnswered cs
unfolding flying
nothing_left [] h k = tt
nothing_left (c ∷ cs) h k =
    (settled c.status (omega arith) (omega arith), nothing_left cs (omega arith) (omega arith))
  where
    settled : (s : Status) → running s ≡ 0 → failures s ≡ 0 → (s ≡ stored) ⊎ (s ≡ refused)
    settled in_flight a b = absurd (omega arith)
    settled stored a b = inl refl
    settled refused a b = inr refl
    settled lost a b = absurd (omega arith)

finish-IsTracked : (e : Event) (f : File) → IsTracked f → IsTracked (finish e f)
unfolding finish
finish-IsTracked (ends i (ok x)) f h =
    if_cases IsTracked (ltb i (flying f.inserts)) _ _
      (λ e.
        let l = ltb→lt i (flying f.inserts) e in
        record {
          pending = omega (arith, h.pending, flying-complete i (ok x) f.inserts l);
          reported = λ q. losses-complete i x f.inserts l ∙ h.reported q;
        })
      (λ e. h)
finish-IsTracked (ends i (err e)) f h =
    if_cases IsTracked (ltb i (flying f.inserts)) _ _
      (λ l. record {
        pending = omega (arith, h.pending, flying-complete i (err e) f.inserts (ltb→lt _ _ l));
        reported = λ q. cc;
      })
      (λ l. h)

pub finish_all-IsTracked : (es : List Event) (f : File) → IsTracked f → IsTracked (finish_all es f)
finish_all-IsTracked = finish_all-Keeps IsTracked finish-IsTracked

pub await_all-IsTracked : (f : File) (s : Schedule) → IsTracked f → IsTracked (await_all f s).file
await_all-IsTracked = await_all-Keeps IsTracked finish-IsTracked

-- What the calls change in their own variables is not tracked.
retracked :
    (f g : File)
    → f.inserts ≡ g.inserts
    → f.wpending ≡ g.wpending
    → f.err ≡ g.err
    → f.doc ≡ g.doc
    → IsTracked f
    → IsTracked g
retracked f g a b c d h = record {
  pending = subst (λ n. flying g.inserts ≤ n) b (subst (λ cs. flying cs ≤ f.wpending) a h.pending);
  reported = λ q. subst (λ cs. losses cs ≡ 0) a (h.reported (c ∙ q));
}

module _ (new_id : ℕ → Result ℕ) where
  spawn-IsTracked :
      (r : Result ℕ) (n : ℤ) (buf : List ℕ) (f : File) (s : Schedule)
      → suc (flying f.inserts) ≤ f.wpending
      → (f.err ≡ none → losses f.inserts ≡ 0)
      → IsTracked (spawn new_id r n buf f s).file
  unfolding spawn flying
  spawn-IsTracked (err e) n buf f s h k = record { pending = omega arith; reported = k }
  spawn-IsTracked (ok id) n buf f s h k = record {
    pending = omega (arith, flying-append f.inserts (_ ∷ []));
    reported = λ q. omega (arith, losses-append f.inserts (_ ∷ []), k q);
  }

  pub insert_chunk-IsTracked :
      (n : ℤ) (buf : List ℕ) (f : File) (s : Schedule)
      → IsTracked f
      → IsTracked (insert_chunk new_id n buf f s).file
  unfolding insert_chunk
  insert_chunk-IsTracked n buf f s h =
      spawn-IsTracked (new_id f.made) n buf _ s (omega (arith, h.pending)) h.reported

  pub write-IsTracked :
      (buf : List ℕ) (f : File) (s : Schedule) → IsTracked f → IsTracked (write new_id buf f s).file
  unfolding write
  write-IsTracked buf f s h =
      continue-Keeps IsTracked finish-IsTracked _
        (checked (assert_mode writing f) (err_description f)) f s h
        (λ _ f s h.
          let g = lengthen (length buf) f in
          let r = write_bytes new_id (as_usize f.doc.chunk_size) buf g s in
          continue-Keeps IsTracked finish-IsTracked _ r.outcome r.file r.rest
            (write_bytes-Keeps IsTracked finish-IsTracked new_id retracked insert_chunk-IsTracked
              (as_usize f.doc.chunk_size) buf g s
              (record { pending = h.pending; reported = h.reported }))
            (λ _ g t k. k))

  pub flush_buffer-IsTracked :
      (f : File) (s : Schedule) → IsTracked f → IsTracked (flush_buffer new_id f s).file
  flush_buffer-IsTracked =
      flush_buffer-Keeps IsTracked finish-IsTracked new_id retracked insert_chunk-IsTracked
