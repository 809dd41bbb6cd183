-- ===== src/Gridfs/Returns.antt =====
-- gridfs/file.rs: the waits of a file and the sending of a chunk, under a schedule in which threads end.
use old_mongo_rust_driver.Prelude.{
  ℕ, zero, suc, ◌+◌, ◌*◌, ◌≤◌, ◌≡◌, subst, Bool, true, Option, none, some, List, [], ◌∷◌, length,
  ltb, ltb→lt, if_cases, arith, All,
}
use old_mongo_rust_driver.Prelude.Int.{ℤ, pos, mul_i32, to_i32, leb_ℤ, low_word}
use old_mongo_rust_driver.Error.{Error, Result, ok, err}
use old_mongo_rust_driver.Gridfs.Gfs.{GfsFile}
use old_mongo_rust_driver.Coll.Single.{InsertOneResult}
use old_mongo_rust_driver.Gridfs.File.{
  File, flying, Event, ends, Schedule, finish, finish_all, Outcome, done, failed, waits, Run,
  continue, err_description, is_loaded, megabyte, spawn, insert_chunk,
}
use old_mongo_rust_driver.Gridfs.Write.{stop_on, await_load, await_all, number_chunk, send_chunk}
use old_mongo_rust_driver.Gridfs.Frame.{finish_all-Same}
use old_mongo_rust_driver.Gridfs.Tracking.{flying-complete, flying-append}

-- One thread ends first.
abbrev pub Ends : List Event → Type 0
Ends [] = ⊥
Ends (ends zero r ∷ es) = Unit
Ends (ends (suc i) r ∷ es) = ⊥

-- The schedule lets `k` more chunks be sent.
pub record Enough (size k : ℕ) (f : File) (s : Schedule) : Type 0 where
  pub sized : f.doc.chunk_size ≡ pos size
  pub exact : f.wpending ≡ flying f.inserts
  pub fair : All Ends s
  pub room : f.wpending + k ≤ length s

-- The call has returned, and with a result it leaves this.
abbrev pub TotalIn {ℓ} :
    {A : Type ℓ} → (File → Schedule → Type 0) → Outcome A → File → Schedule → Type 0
TotalIn P (done a) f s = P f s
TotalIn P (failed e) f s = Unit
TotalIn P waits f s = ⊥

abbrev pub Total {ℓ} : {A : Type ℓ} → (File → Schedule → Type 0) → Run A → Type 0
Total P r = TotalIn P r.outcome r.file r.rest

module _ {ℓ κ} {A : Type ℓ} {B : Type κ} (P Q : File → Schedule → Type 0) where
  pub continue-Total :
      (o : Outcome A) (f : File) (s : Schedule) (k : A → File → Schedule → Run B)
      → TotalIn P o f s
      → ((a : A) (g : File) (t : Schedule) → P g t → Total Q (k a g t))
      → Total Q (continue k o f s)
  unfolding continue
  continue-Total (done a) f s k h next = next a f s h
  continue-Total (failed e) f s k h next = tt
  continue-Total waits f s k h next = h

-- The end of a thread keeps the count exact, and lowers it if one runs.
finish-exact :
    (e : Event) (f : File)
    → f.wpending ≡ flying f.inserts
    → (finish e f).wpending ≡ flying (finish e f).inserts
unfolding finish
finish-exact (ends i r) f h =
    if_cases (λ (g : File). g.wpending ≡ flying g.inserts) (ltb i (flying f.inserts)) _ _
      (λ e. omega (arith, flying-complete i r f.inserts (ltb→lt _ _ e))) (λ e. h)

finish-le : (e : Event) (f : File) → (finish e f).wpending ≤ f.wpending
unfolding finish
finish-le (ends i r) f = ground arith

pub finish_all-exact :
    (es : List Event) (f : File)
    → f.wpending ≡ flying f.inserts
    → ((finish_all es f).wpending ≡ flying (finish_all es f).inserts)
      × ((finish_all es f).wpending ≤ f.wpending)
unfolding finish_all
finish_all-exact [] f h = (h, omega arith)
finish_all-exact (e ∷ es) f h =
    let x = finish_all-exact es (finish e f) (finish-exact e f h) in
    (x.0, omega (arith, x.1, finish-le e f))

finish-lower :
    (r : Result InsertOneResult) (f : File)
    → f.wpending ≡ flying f.inserts
    → 1 ≤ f.wpending
    → suc (finish (ends 0 r) f).wpending ≤ f.wpending
unfolding finish
finish-lower r f e p = ground arith

oldest_lowers :
    (es : List Event) (f : File)
    → Ends es
    → f.wpending ≡ flying f.inserts
    → 1 ≤ f.wpending
    → suc (finish_all es f).wpending ≤ f.wpending
unfolding finish_all
oldest_lowers [] f h e p = absurd h
oldest_lowers (ends (suc i) r ∷ es) f h e p = absurd h
oldest_lowers (ends zero r ∷ es) f h e p = omega (
  arith,
  finish-lower r f e p,
  (finish_all-exact es (finish (ends 0 r) f) (finish-exact (ends 0 r) f e)).1,
)

loaded_pending : (f : File) → is_loaded f ≡ true → 1 ≤ f.wpending
unfolding is_loaded mul_i32 to_i32
loaded_pending f h = from_count f.wpending h
  where
    from_count : (w : ℕ) → leb_ℤ megabyte (mul_i32 f.doc.chunk_size (to_i32 w)) ≡ true → 1 ≤ w
    from_count zero e = let z : low_word f.doc.chunk_size * 0 ≡ 0 = omega arith in cc (rw z at e)
    from_count (suc w) e = omega arith

stop_on-Total :
    (P : File → Schedule → Type 0) (e : Option Error) (g : File) (s : Schedule) (r : Run (Unit {0}))
    → Total P r
    → Total P (stop_on e g s r)
stop_on-Total P none g s r h = h
stop_on-Total P (some e) g s r h = tt

module _ (size : ℕ) where
  -- After a wait that was needed.
  Enough-ends :
      (k : ℕ) (es : List Event) (f : File) (s : Schedule)
      → Enough size k f (es ∷ s)
      → 1 ≤ f.wpending
      → Enough size k (finish_all es f) s
  Enough-ends k es f s h p = record {
    sized = subst (λ (x : GfsFile). x.chunk_size ≡ pos size) (finish_all-Same es f).doc h.sized;
    exact = (finish_all-exact es f h.exact).0;
    fair = h.fair.1;
    room = omega (arith, h.room, oldest_lowers es f h.fair.0 h.exact p);
  }

  pub await_load-Total :
      (checks : Bool) (k : ℕ) (f : File) (s : Schedule)
      → Enough size k f s
      → Total (Enough size k) (await_load checks f s)
  unfolding await_load
  await_load-Total checks k f [] h =
      if_cases (λ (o : Outcome (Unit {0})). TotalIn (Enough size k) o f []) (is_loaded f) _ _
        (λ e. absurd (omega (arith, h.room, loaded_pending f e))) (λ e. h)
  await_load-Total checks k f (es ∷ s) h =
      let g = finish_all es f in
      if_cases (λ (r : Run (Unit {0})). Total (Enough size k) r) (is_loaded f) _ _
        (λ e.
          let more : Total (Enough size k) (await_load checks g s) =
            await_load-Total checks k g s (Enough-ends k es f s h (loaded_pending f e)) in
          if_cases (λ (r : Run (Unit {0})). Total (Enough size k) r) checks _ _
            (λ c. stop_on-Total (Enough size k) (err_description g) g s _ more) (λ c. more))
        (λ e. h)

  pub await_all-Total :
      (k : ℕ) (f : File) (s : Schedule) → Enough size k f s → Total (Enough size k) (await_all f s)
  unfolding await_all
  await_all-Total k f [] h =
      if_cases (λ (o : Outcome (Unit {0})). TotalIn (Enough size k) o f []) (ltb 0 f.wpending) _ _
        (λ e. absurd (omega (arith, h.room, ltb→lt 0 f.wpending e))) (λ e. h)
  await_all-Total k f (es ∷ s) h =
      if_cases (λ (r : Run (Unit {0})). Total (Enough size k) r) (ltb 0 f.wpending) _ _
        (λ e.
          await_all-Total k (finish_all es f) s (Enough-ends k es f s h (ltb→lt 0 f.wpending e)))
        (λ e. h)

  module _ (new_id : ℕ → Result ℕ) where
    spawn-Total :
        (k : ℕ) (r : Result ℕ) (n : ℤ) (buf : List ℕ) (f : File) (s : Schedule)
        → Enough size (suc k) f s
        → Total
            (Enough size k)
            (spawn new_id r n buf (record f { wpending = f.wpending + 1; made = f.made + 1 }) s)
    unfolding spawn flying
    spawn-Total k (err e) n buf f s h = tt
    spawn-Total k (ok id) n buf f s h = record {
      sized = h.sized;
      exact = omega (arith, h.exact, flying-append f.inserts (_ ∷ []));
      fair = h.fair;
      room = omega (arith, h.room);
    }

    pub insert_chunk-Total :
        (k : ℕ) (n : ℤ) (buf : List ℕ) (f : File) (s : Schedule)
        → Enough size (suc k) f s
        → Total (Enough size k) (insert_chunk new_id n buf f s)
    unfolding insert_chunk
    insert_chunk-Total k n buf f s h = spawn-Total k (new_id f.made) n buf f s h

    pub send_chunk-Total :
        (k : ℕ) (hashed chunk : List ℕ) (f : File) (s : Schedule)
        → Enough size (suc k) f s
        → Total (Enough size k) (send_chunk new_id hashed chunk f s)
    unfolding send_chunk number_chunk
    send_chunk-Total k hashed chunk f s h =
        let g = number_chunk hashed f in
        let r = await_load true g s in
        continue-Total (Enough size (suc k)) (Enough size k) r.outcome r.file r.rest _
          (await_load-Total true (suc k) g s
            (record { sized = h.sized; exact = h.exact; fair = h.fair; room = h.room }))
          (λ _ g t x. insert_chunk-Total k f.chunk_num chunk g t x)
