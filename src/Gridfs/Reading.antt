-- ===== src/Gridfs/Reading.antt =====
-- gridfs/file.rs: the reading of a file's chunks into its buffer.
use old_mongo_rust_driver.Prelude.{
  ℕ, zero, suc, ◌+◌, ◌*◌, ◌≤◌, ◌<◌, ◌≡◌, ◌⊎◌, inl, inr, refl, sym, ap, subst, ◌∙◌, Bool, true,
  false, ◌&&◌, Option, none, some, List, ◌++◌, take, drop, length, ltb, ltb→lt, ltb→le, and-eq-true,
  and-eq-false, arith, Bool-cases, Option-cases, if_cases, drop_past, next_piece, append_assoc,
  append-nil,
}
use old_mongo_rust_driver.Prelude.Int.{
  ℤ, pos, add_i32, add_i32-one, ltb_ℤ, eqb_ℤ, eqb_ℤ_iff, *ℤ-pos, ◌*ℤ◌,
}
use old_mongo_rust_driver.Bson.{Document}
use old_mongo_rust_driver.Error.{Result, ok, err}
use old_mongo_rust_driver.Gridfs.File.{reading, File, CachedChunk, Outcome, done, failed, waits}
use old_mongo_rust_driver.Gridfs.Read.{
  new_cached, loaded, find_chunk, preload, from_cache, has_more, advance, got, get_chunk, extend,
  fill_on, fill,
}

-- A cached chunk without an error is what the lookup gives.
abbrev pub Coherent : (ℤ → Result (List ℕ)) → Option CachedChunk → Type 0
Coherent find none = Unit
Coherent find (some c) = c.err ≡ none → find c.n ≡ ok c.bytes

-- A length of `total` bytes makes the reader fetch the chunks of the content, and no more.
abbrev pub Counts : List ℕ → ℕ → ℕ → Type 0
Counts content total size =
    (length content ≤ total) × ((c : ℕ) → ltb (c * size) total ≡ ltb (c * size) (length content))

-- The file, whose length is `total`, reads `content`, in chunks of `size` bytes: `c` chunks were fetched and `o`
-- bytes given, and the bytes between are in the buffer.
pub record IsReader (find : ℤ → Result (List ℕ)) (id : ℕ) (content : List ℕ) (total size c o : ℕ)
    (f : File) : Type 0 where
  pub is_reading : f.mode ≡ reading
  pub is_file : f.doc.id ≡ id
  pub sized : f.doc.chunk_size ≡ pos size
  pub measured : f.doc.len ≡ pos total
  pub counted : f.chunk_num ≡ pos c
  pub placed : f.offset ≡ pos o
  pub buffered : f.rbuf ++ drop (c * size) content ≡ drop o content
  pub fetched : c ≤ length content
  pub within : o ≤ length content
  pub cached : Coherent find f.rcache

-- The collection has the chunks of the content.
abbrev pub Has : (ℤ → Result (List ℕ)) → List ℕ → ℕ → Type 0
Has find content size =
    (n : ℕ) → n * size < length content → find (pos n) ≡ ok (take size (drop (n * size) content))

more-pos :
    (c size n : ℕ) (a b l : ℤ)
    → a ≡ pos c
    → b ≡ pos size
    → l ≡ pos n
    → ltb_ℤ (a *ℤ b) l ≡ ltb (c * size) n
more-pos c size n a b l e f g = rw (e, f, g, *ℤ-pos) (ground arith)

module _ (find_one : ℕ → ℤ → Result (Option Document)) (late : ℤ → Bool) where
  from_cache-eq-find_chunk :
      (id : ℕ) (n : ℤ) (r : Option CachedChunk)
      → Coherent (find_chunk find_one late id) r
      → from_cache find_one late r id n ≡ find_chunk find_one late id n
  unfolding from_cache
  from_cache-eq-find_chunk id n none h = refl
  from_cache-eq-find_chunk id n (some c) h = elim (Bool-cases (eqb_ℤ c.n n)) [
    | inl e ↦ elim (Option-cases c.err) [
      | inl q ↦ rw (e, q) (sym (h q) ∙ ap (find_chunk find_one late id) ((eqb_ℤ_iff c.n n).0 e))
      | inr (x, q) ↦ rw (e, q) refl
    ]
    | inr e ↦ rw e refl
  ]

  loaded-Coherent :
      (find : ℤ → Result (List ℕ)) (n : ℤ) (x : Result (List ℕ))
      → find n ≡ x
      → Coherent find (some (loaded x (new_cached n)))
  unfolding loaded new_cached
  loaded-Coherent find n (ok buf) e = λ q. e
  loaded-Coherent find n (err x) e = λ q. cc

  preload-Coherent :
      (id : ℕ) (n : ℤ) → Coherent (find_chunk find_one late id) (some (preload find_one late id n))
  unfolding preload find_chunk new_cached
  preload-Coherent id n =
      if_cases (λ c. Coherent (find_chunk find_one late id) (some c)) (late n) _ _ (λ e q. cc)
        (λ e. loaded-Coherent (find_chunk find_one late id) n _ refl)

  module _ (id : ℕ) (content : List ℕ) (total size : ℕ) (p : 1 ≤ size) (q : size ≤ 2147483647)
      (r : length content ≤ 2147483647 * size) (counts : Counts content total size)
      (has : Has (find_chunk find_one late id) content size) where
    abbrev pub find : ℤ → Result (List ℕ)
    find = find_chunk find_one late id

    abbrev chunk : ℕ → List ℕ
    chunk c = take size (drop (c * size) content)

    has_more_iff :
        (c o : ℕ) (f : File)
        → IsReader find id content total size c o f
        → has_more find_one late f ≡ ltb (c * size) (length content)
    has_more_iff c o f h =
        more-pos c size total f.chunk_num f.doc.chunk_size f.doc.len h.counted h.sized h.measured
        ∙ counts.1 c

    get_chunk-found :
        (c o : ℕ) (f : File)
        → IsReader find id content total size c o f
        → c * size < length content
        → get_chunk find_one late f ≡ (advance find_one late f, ok (chunk c))
    unfolding get_chunk got
    get_chunk-found c o f h m =
        ap (λ x. got find_one late x f) {y = ok (chunk c)}
          (from_cache-eq-find_chunk f.doc.id f.chunk_num f.rcache
              (subst (λ i. Coherent (find_chunk find_one late i) f.rcache) (sym h.is_file) h.cached)
            ∙ rw (h.is_file, h.counted) (has c m))

    small : (c : ℕ) → c * size < length content → suc c ≤ 2147483647
    small c m = grind arith

    moved :
        (c o : ℕ) (f : File)
        → IsReader find id content total size c o f
        → c * size < length content
        → (x : Option CachedChunk) → Coherent find x
        → IsReader find id content total size (suc c) o (
            extend find_one late
              (chunk c)
              (record f { chunk_num = add_i32 f.chunk_num (pos 1); rcache = x }))
    moved c o f h m x k = record {
      is_reading = h.is_reading;
      is_file = h.is_file;
      sized = h.sized;
      measured = h.measured;
      counted = ap (λ z. add_i32 z (pos 1)) h.counted ∙ add_i32-one c (small c m);
      placed = h.placed;
      buffered =
          append_assoc f.rbuf (chunk c) (drop (suc c * size) content)
          ∙ ap (λ xs. f.rbuf ++ xs) (next_piece c size content)
          ∙ h.buffered;
      fetched = grind arith;
      within = h.within;
      cached = k;
    }

    advance-IsReader :
        (c o : ℕ) (f : File)
        → IsReader find id content total size c o f
        → c * size < length content
        → IsReader find id content total size
            (suc c)
            o
            (extend find_one late (chunk c) (advance find_one late f))
    unfolding advance
    advance-IsReader c o f h m =
        if_cases
          (λ (g : File).
            IsReader find id content total size (suc c) o (extend find_one late (chunk c) g))
          _ _ _
          (λ e. moved c o f h m _ (
            subst
              (λ i. Coherent find (some (preload find_one late i (add_i32 f.chunk_num (pos 1)))))
              (sym h.is_file) (preload-Coherent id _)))
          (λ e. moved c o f h m none tt)

    -- The loop ends with as many bytes as are wanted, or with all that there are.
    abbrev pub Filled : ℕ → ℕ → File × Outcome (Unit {0}) → Type 0
    Filled want o (f, failed e) = ⊥
    Filled want o (f, waits) = ⊥
    Filled want o (f, done _) =
        (c : ℕ) × IsReader find id content total size c o f
        × ((want ≤ length f.rbuf) ⊎ (f.rbuf ≡ drop o content))

    enough :
        {want : ℕ} (c o : ℕ) (f : File)
        → IsReader find id content total size c o f
        → (ltb (length f.rbuf) want ≡ false) ⊎ (has_more find_one late f ≡ false)
        → (want ≤ length f.rbuf) ⊎ (f.rbuf ≡ drop o content)
    enough c o f h (inl e) = inl (ltb→le _ _ e)
    enough c o f h (inr e) =
        let over : length content ≤ c * size = ltb→le _ _ (sym (has_more_iff c o f h) ∙ e) in
        inr (
          sym (append-nil f.rbuf)
          ∙ ap (λ xs. f.rbuf ++ xs) (sym (drop_past (c * size) content over))
          ∙ h.buffered)

    pub fill-Filled :
        (n want c o : ℕ) (f : File)
        → IsReader find id content total size c o f
        → suc (length content) ≤ n + c
        → Filled want o (fill find_one late n want f)
    unfolding fill fill_on
    fill-Filled zero want c o f h m = absurd (omega (arith, h.fetched))
    fill-Filled (suc n) want c o f h m =
        if_cases (Filled want o) (ltb (length f.rbuf) want && has_more find_one late f) _ _
          (λ e.
            let more : (ltb (length f.rbuf) want ≡ true) × (has_more find_one late f ≡ true) =
              and-eq-true _ _ e in
            let before : c * size < length content =
              ltb→lt _ _ (sym (has_more_iff c o f h) ∙ more.1) in
            subst (λ x. Filled want o (fill_on find_one late (fill find_one late n want) x))
              (sym (get_chunk-found c o f h before))
              (fill-Filled n want (suc c) o _ (advance-IsReader c o f h before) (omega arith)))
          (λ e. (c, h, enough c o f h (and-eq-false _ _ e)))
