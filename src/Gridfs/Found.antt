-- ===== src/Gridfs/Found.antt =====
-- gridfs/file.rs: the lookup of a file's stored chunks.
use old_mongo_rust_driver.Prelude.{
  ℕ, zero, suc, ◌+◌, ◌*◌, ◌<◌, ◌≡◌, sym, ap, subst, ◌∙◌, Bool, Option, some, List, [], ◌∷◌, ◌++◌,
  take, drop, length, arith, All, append-nil, length-append, take_past, take-length_append,
  drop-length_append, drop-drop,
}
use old_mongo_rust_driver.Prelude.Int.{ℤ, pos}
use old_mongo_rust_driver.Prelude.Text.{text}
use old_mongo_rust_driver.Bson.{object_id, i32, Document, get}
use old_mongo_rust_driver.Error.{Result, ok, ◌>>=◌}
use old_mongo_rust_driver.Gridfs.File.{Insert, stored}
use old_mongo_rust_driver.Gridfs.Read.{found, find_chunk}
use old_mongo_rust_driver.Gridfs.Frame.{documents}
use old_mongo_rust_driver.Gridfs.Writing.{join, bytes_of, IsPiece}
use old_mongo_rust_driver.Gridfs.Flushed.{Layout}

-- A lookup by the file's id and the number finds the chunk that is stored under them.
abbrev pub Finds : (ℕ → ℤ → Result (Option Document)) → Insert → Type 0
Finds find_one c =
    (id : ℕ) (n : ℤ)
    → c.status ≡ stored
    → get (text "files_id") c.document ≡ some (object_id id)
    → get (text "n") c.document ≡ some (i32 n)
    → find_one id n ≡ ok (some c.document)

module _ (find_one : ℕ → ℤ → Result (Option Document)) (late : ℤ → Bool) (id size : ℕ) where
  pub found_piece :
      (k n : ℕ) (c : Insert)
      → IsPiece id n k c.document
      → c.status ≡ stored
      → Finds find_one c
      → find_chunk find_one late id (pos k) ≡ ok (bytes_of c.document)
  unfolding find_chunk
  found_piece k n c h s f = ap (λ r. r >>= found) (f id (pos k) s h.0 h.1) ∙ h.2

  first :
      (k : ℕ) (xs ys : List ℕ)
      → take size (xs ++ ys) ≡ xs
      → find_chunk find_one late id (pos k) ≡ ok xs
      → find_chunk find_one late id (pos (k + 0)) ≡ ok (take size (drop (0 * size) (xs ++ ys)))
  first k xs ys t h =
      let e : k ≡ k + 0 = omega arith in
      let z : 0 ≡ 0 * size = grind arith in
      subst (λ j. find_chunk find_one late id (pos j) ≡ ok (take size (drop (0 * size) (xs ++ ys))))
        e (h ∙ ap ok (sym t ∙ ap (λ m. take size (drop m (xs ++ ys))) z))

  behind :
      (n : ℕ) (xs ys : List ℕ)
      → length xs ≡ size
      → drop (suc n * size) (xs ++ ys) ≡ drop (n * size) ys
  behind n xs ys e =
      let m : suc n * size ≡ length xs + n * size = grind arith in
      ap (λ j. drop j (xs ++ ys)) m
      ∙ sym (drop-drop (n * size) (length xs) (xs ++ ys))
      ∙ ap (drop (n * size)) (drop-length_append xs ys)

  -- The stored chunks of a file are the pieces of its bytes.
  pub Layout-Has :
      (k : ℕ) (cs : List Insert)
      → Layout id size k (documents cs)
      → All (λ c. c.status ≡ stored) cs
      → All (Finds find_one) cs
      → (n : ℕ) → n * size < length (join (documents cs))
      → find_chunk find_one late id (pos (k + n))
        ≡ ok (take size (drop (n * size) (join (documents cs))))
  Layout-Has k [] h s f n l = absurd (omega arith)
  Layout-Has k (c ∷ []) h s f zero l =
      first k (bytes_of c.document) []
        (ap (take size) (append-nil (bytes_of c.document))
          ∙ take_past size (bytes_of c.document) (omega (arith, h.3.3, h.2)))
        (found_piece k h.0 c h.3 s.0 f.0)
  Layout-Has k (c ∷ []) h s f (suc n) l =
      absurd (grind (arith, length-append (bytes_of c.document) [], h.3.3, h.2))
  Layout-Has k (c ∷ e ∷ cs) h s f zero l =
      first k (bytes_of c.document) (join (documents (e ∷ cs)))
        (ap (λ j. take j (bytes_of c.document ++ join (documents (e ∷ cs)))) (sym h.0.3)
          ∙ take-length_append (bytes_of c.document) (join (documents (e ∷ cs))))
        (found_piece k size c h.0 s.0 f.0)
  Layout-Has k (c ∷ e ∷ cs) h s f (suc n) l =
      let rest = join (documents (e ∷ cs)) in
      let m : k + suc n ≡ suc k + n = omega arith in
      ap (λ j. find_chunk find_one late id (pos j)) m
      ∙ Layout-Has (suc k) (e ∷ cs) h.1 s.1 f.1 n
          (grind (arith, length-append (bytes_of c.document) rest, h.0.3))
      ∙ ap (λ xs. ok (take size xs)) (sym (behind n (bytes_of c.document) rest h.0.3))
