-- ===== src/Gridfs/Refinement.antt =====
-- gridfs/file.rs: calls of `read`, and a cursor over the file's bytes.
use mathlib.Core.Path.{ap₂}
use old_mongo_rust_driver.Prelude.{
  ℕ, ◌+◌, ◌*◌, ◌≤◌, ◌≡◌, ◌⊎◌, inl, inr, refl, sym, ap, subst, ◌∙◌, Bool, Option, List, [], ◌∷◌, min,
  take, drop, length, arith, if_cases, drop-drop, drop_past, take-append, drop-append,
  take-min-length, take_nil, drop-length-take, if◌then◌else◌, length-drop, length-append,
  length-take,
}
use old_mongo_rust_driver.Prelude.Int.{ℤ, pos, pos_part, add_i64, eqb_ℤ, eqb_ℤ_iff, add_i64-pos}
use old_mongo_rust_driver.Bson.{Document}
use old_mongo_rust_driver.Error.{Result, ok, err}
use old_mongo_rust_driver.Gridfs.Gfs.{GfsFile}
use old_mongo_rust_driver.Gridfs.File.{
  with_gfs_file, File, Outcome, done, failed, waits, reading, assert_mode, mode_eq, mode_message,
}
use old_mongo_rust_driver.Gridfs.Read.{find_chunk, give, read_in, read}
use old_mongo_rust_driver.Gridfs.Reading.{IsReader, Counts, Has, Filled, fill-Filled}

-- A client that reads into buffers of these lengths, one after another.
unfoldable pub read_all :
    (ℕ → ℤ → Result (Option Document)) → (ℤ → Bool) → List ℕ → File → List (Outcome (List ℕ))
read_all find_one late [] f = []
read_all find_one late (want ∷ wants) f =
    let (g, r) = read find_one late want f in r ∷ read_all find_one late wants g

-- A cursor over the bytes that are left: each read gives as many as are wanted, or all.
unfoldable pub cursor : List ℕ → List ℕ → List (Outcome (List ℕ))
cursor [] rest = []
cursor (want ∷ wants) rest = done (take want rest) ∷ cursor wants (drop want rest)

-- A file that has just been opened.
pub opened-IsReader :
    (find : ℤ → Result (List ℕ)) (id total size : ℕ) (bytes : List ℕ) (d : GfsFile)
    → d.id ≡ id
    → d.len ≡ pos total
    → d.chunk_size ≡ pos size
    → IsReader find id bytes total size 0 0 (with_gfs_file d reading)
unfolding with_gfs_file
opened-IsReader find id total size bytes d a b c = record {
  is_reading = refl;
  is_file = a;
  sized = c;
  measured = b;
  counted = refl;
  placed = refl;
  buffered = let z : 0 * size ≡ 0 = grind arith in ap (λ n. drop n bytes) z;
  fetched = omega arith;
  within = omega arith;
  cached = tt;
}

module _ (find_one : ℕ → ℤ → Result (Option Document)) (late : ℤ → Bool) (id : ℕ) (content : List ℕ)
    (total size : ℕ) (p : 1 ≤ size) (q : size ≤ 2147483647) (r : length content ≤ 2147483647 * size)
    (counts : Counts content total size)
    (has : Has (find_chunk find_one late id) content size) where
  -- What a read of `want` bytes at offset `o` does.
  abbrev pub ReadsAt : ℕ → ℕ → File × Outcome (List ℕ) → Type 0
  ReadsAt want o (g, failed e) = ⊥
  ReadsAt want o (g, waits) = ⊥
  ReadsAt want o (g, done bytes) =
      (bytes ≡ take want (drop o content))
      × (c : ℕ) × IsReader (find_chunk find_one late id) id content total size c (o + length bytes)
          g

  given :
      (want o c : ℕ) (f : File)
      → IsReader (find_chunk find_one late id) id content total size c o f
      → (want ≤ length f.rbuf) ⊎ (f.rbuf ≡ drop o content)
      → take (min (length f.rbuf) want) f.rbuf ≡ take want (drop o content)
  given want o c f h (inl e) =
      let k : min (length f.rbuf) want ≡ want = omega arith in
      ap (λ i. take i f.rbuf) k
      ∙ sym (take-append want f.rbuf (drop (c * size) content) e)
      ∙ ap (take want) h.buffered
  given want o c f h (inr e) = take-min-length want f.rbuf ∙ ap (take want) e

  fits :
      (i o c : ℕ) (f : File)
      → IsReader (find_chunk find_one late id) id content total size c o f
      → i ≤ length f.rbuf
      → o + i ≤ length content
  fits i o c f h l = omega (
    arith,
    h.within,
    ap length h.buffered,
    length-append f.rbuf (drop (c * size) content),
    length-drop o content,
  )

  bound : (o i : ℕ) → o + i ≤ length content → o + i ≤ 9223372036854775807
  bound o i h = omega arith

  left :
      (i o c : ℕ) (f : File)
      → IsReader (find_chunk find_one late id) id content total size c o f
      → i ≤ length f.rbuf
      → IsReader
          (find_chunk find_one late id)
          id
          content
          total
          size
          c
          (o + i)
          (record f { offset = add_i64 f.offset (pos i); rbuf = drop i f.rbuf })
  left i o c f h l = record {
    is_reading = h.is_reading;
    is_file = h.is_file;
    sized = h.sized;
    measured = h.measured;
    counted = h.counted;
    placed = ap (λ z. add_i64 z (pos i)) h.placed ∙ add_i64-pos o i (bound o i (fits i o c f h l));
    buffered =
        sym (drop-append i f.rbuf (drop (c * size) content) l)
        ∙ ap (drop i) h.buffered
        ∙ drop-drop i o content;
    fetched = h.fetched;
    within = fits i o c f h l;
    cached = h.cached;
  }

  give-ReadsAt :
      (want o : ℕ) (x : File × Outcome (Unit {0}))
      → Filled find_one late id content total size p q r counts has want o x
      → ReadsAt want o (give find_one late want x)
  unfolding give
  give-ReadsAt want o (f, failed e) h = h
  give-ReadsAt want o (f, waits) h = h
  give-ReadsAt want o (f, done _) (c, h, b) =
      let i = min (length f.rbuf) want in
      (
        given want o c f h b,
        c,
        subst
            (λ n.
              IsReader (find_chunk find_one late id) id content total size c (o + n)
                (record f { offset = add_i64 f.offset (pos i); rbuf = drop i f.rbuf }))
            (omega (arith, length-take i f.rbuf)) (left i o c f h (omega arith)),
      )

  -- At the end of the file nothing is given.
  ended :
      (want o c : ℕ) (f : File)
      → IsReader (find_chunk find_one late id) id content total size c o f
      → f.offset ≡ f.doc.len
      → ReadsAt want o (f, done [])
  ended want o c f h e =
      let last : o ≡ total = ap pos_part (sym h.placed ∙ e ∙ h.measured) in
      (
        sym (ap (take want) (drop_past o content (omega (arith, counts.0))) ∙ take_nil want),
        c,
        subst (λ n. IsReader (find_chunk find_one late id) id content total size c n f)
            (omega arith) h,
      )

  may_read : (f : File) → f.mode ≡ reading → assert_mode reading f ≡ ok tt
  unfolding assert_mode
  may_read f e =
      subst
        (λ m.
          ◌≡◌ {A = Result (Unit {0})} (if mode_eq m reading then ok tt else err (mode_message m))
            (ok tt))
        (sym e) refl

  -- `read` on a file that is a reader at offset `o` returns, with the next bytes of the content: `want` of them,
  -- or all that are left.
  read-ReadsAt :
      (want o c : ℕ) (f : File)
      → IsReader (find_chunk find_one late id) id content total size c o f
      → ReadsAt want o (read find_one late want f)
  unfolding read
  read-ReadsAt want o c f h =
      subst (λ x. ReadsAt want o (read_in find_one late x want f)) (sym (may_read f h.is_reading))
        (if_cases (ReadsAt want o) (eqb_ℤ f.offset f.doc.len) _ _
          (λ e. ended want o c f h ((eqb_ℤ_iff _ _).0 e))
          (λ e. give-ReadsAt want o _ (
            fill-Filled find_one late id content total size p q r counts has _ want c o f h
              (omega (arith, ap pos_part h.measured, counts.0)))))

  after_read :
      (want o : ℕ) (wants : List ℕ) (x : File × Outcome (List ℕ))
      → ReadsAt want o x
      → ((o c : ℕ) (f : File)
          → IsReader (find_chunk find_one late id) id content total size c o f
          → read_all find_one late wants f ≡ cursor wants (drop o content))
      → x.1 ∷ read_all find_one late wants x.0
        ≡ done (take want (drop o content)) ∷ cursor wants (drop want (drop o content))
  after_read want o wants (g, failed e) h ih = absurd h
  after_read want o wants (g, waits) h ih = absurd h
  after_read want o wants (g, done bytes) (e, c, h) ih =
      ap₂ (λ b t. done b ∷ t) e
        (ih (o + length bytes) c g h
          ∙ ap (cursor wants) (
              sym (drop-drop (length bytes) o content)
              ∙ ap (λ b. drop (length b) (drop o content)) e
              ∙ drop-length-take want (drop o content)))

  -- Calls of `read` on a file in reading mode, at any offset, return one after another what a cursor over the rest
  -- of the content gives: as many bytes as each wants, or all that are left, whichever chunks come from the
  -- cache, if the collection has the chunks of the content, and the file's length covers these and no more.
  pub read_all-cursor :
      (wants : List ℕ) (o c : ℕ) (f : File)
      → IsReader (find_chunk find_one late id) id content total size c o f
      → read_all find_one late wants f ≡ cursor wants (drop o content)
  unfolding read_all cursor
  read_all-cursor [] o c f h = refl
  read_all-cursor (want ∷ wants) o c f h =
      after_read want o wants _ (read-ReadsAt want o c f h) (read_all-cursor wants)
