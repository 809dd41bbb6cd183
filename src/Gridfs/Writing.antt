-- ===== src/Gridfs/Writing.antt =====
-- gridfs/file.rs: the chunks that `write` sends, the buffer, and the bytes that were written.
use old_mongo_rust_driver.Prelude.{
  ℕ, suc, ◌+◌, ◌*◌, ◌≤◌, ◌<◌, ◌≡◌, refl, sym, ap, subst, ◌∙◌, some, List, [], ◌∷◌, ◌++◌, length,
  arith, append_assoc, append-nil, length-append,
}
use old_mongo_rust_driver.Prelude.Int.{ℤ, pos, add_i32, add_i32-one}
use old_mongo_rust_driver.Prelude.Text.{text, text_eq}
use old_mongo_rust_driver.Bson.{object_id, i32, Document, get}
use old_mongo_rust_driver.Error.{Result, ok, err}
use old_mongo_rust_driver.Gridfs.Gfs.{GfsFile}
use old_mongo_rust_driver.Gridfs.File.{File, chunk_document}
use old_mongo_rust_driver.Gridfs.Read.{found}
use old_mongo_rust_driver.Gridfs.Frame.{documents, Sent}

abbrev pub ok_or_nil : Result (List ℕ) → List ℕ
ok_or_nil (ok b) = b
ok_or_nil (err e) = []

-- The bytes in a chunk's document.
abbrev pub bytes_of : Document → List ℕ
bytes_of d = ok_or_nil (found (some d))

abbrev pub join : List Document → List ℕ
join [] = []
join (d ∷ ds) = bytes_of d ++ join ds

pub join-append : (ds es : List Document) → join (ds ++ es) ≡ join ds ++ join es
join-append [] es = refl
join-append (d ∷ ds) es =
    ap (λ xs. bytes_of d ++ xs) (join-append ds es)
    ∙ sym (append_assoc (bytes_of d) (join ds) (join es))

-- The `k`-th chunk of a file, with `n` bytes.
abbrev pub IsPiece : ℕ → ℕ → ℕ → Document → Type 0
IsPiece id n k d =
    (get (text "files_id") d ≡ some (object_id id))
    × (get (text "n") d ≡ some (i32 (pos k)))
    × (found (some d) ≡ ok (bytes_of d))
    × (length (bytes_of d) ≡ n)

-- The chunks from the `k`-th on, each with `size` bytes.
abbrev pub Pieces : ℕ → ℕ → ℕ → List Document → Type 0
Pieces id size k [] = Unit
Pieces id size k (d ∷ ds) = IsPiece id size k d × Pieces id size (suc k) ds

pub chunk_document-IsPiece :
    (x id k n : ℕ) (b : List ℕ) → length b ≡ n → IsPiece id n k (chunk_document x id (pos k) b)
unfolding chunk_document get text_eq found
chunk_document-IsPiece x id k n b h = (refl, refl, refl, h)

pub bytes_of-chunk_document :
    (x id : ℕ) (n : ℤ) (b : List ℕ) → bytes_of (chunk_document x id n b) ≡ b
unfolding chunk_document get text_eq found
bytes_of-chunk_document x id n b = refl

pub Pieces-append :
    (id size k : ℕ) (ds : List Document) (d : Document)
    → Pieces id size k ds
    → IsPiece id size (k + length ds) d
    → Pieces id size k (ds ++ d ∷ [])
Pieces-append id size k [] d h p = (subst (λ n. IsPiece id size n d) (omega arith) p, tt)
Pieces-append id size k (e ∷ ds) d h p =
    (h.0, Pieces-append id size (suc k) ds d h.1 (subst (λ n. IsPiece id size n d) (omega arith) p))

pub length-join :
    (id size k : ℕ) (ds : List Document) → Pieces id size k ds → length (join ds) ≡ length ds * size
length-join id size k [] h = omega arith
length-join id size k (d ∷ ds) h =
    grind (arith, length-append (bytes_of d) (join ds), length-join id size (suc k) ds h.1, h.0.3)

-- The file holds `bytes`, in chunks of `size` bytes and the buffer; its document says that there are `total`.
pub record IsWriter (size total : ℕ) (bytes : List ℕ) (f : File) : Type 0 where
  pub sized : f.doc.chunk_size ≡ pos size
  pub measured : f.doc.len ≡ pos total
  pub counted : f.chunk_num ≡ pos (length (documents f.inserts))
  pub pieces : Pieces f.doc.id size 0 (documents f.inserts)
  pub joined : join (documents f.inserts) ++ f.wbuf ≡ bytes
  pub buffered : length f.wbuf ≤ size

-- A whole chunk is sent from a file; the buffer is not looked at.
pub Sent-Pieces :
    {hashed chunk : List ℕ} {f g : File} (size : ℕ)
    → Sent hashed chunk f g
    → f.chunk_num ≡ pos (length (documents f.inserts))
    → Pieces f.doc.id size 0 (documents f.inserts)
    → length chunk ≡ size
    → length (documents f.inserts) < 2147483647
    → (g.chunk_num ≡ pos (length (documents g.inserts)))
      × Pieces g.doc.id size 0 (documents g.inserts)
      × (join (documents g.inserts) ≡ join (documents f.inserts) ++ chunk)
Sent-Pieces {chunk = chunk} {f = f} {g = g} size h n p l b =
    let ds = documents f.inserts in
    let d = chunk_document h.id f.doc.id f.chunk_num chunk in
    let piece : IsPiece f.doc.id size (0 + length ds) d =
      subst (λ z. IsPiece f.doc.id size (0 + length ds) (chunk_document h.id f.doc.id z chunk))
        (sym n)
        (subst (λ k. IsPiece f.doc.id size k (chunk_document h.id f.doc.id (pos (length ds)) chunk))
          (omega arith) (chunk_document-IsPiece h.id f.doc.id (length ds) size chunk l)) in
    (
      h.counted
          ∙ ap (λ z. add_i32 z (pos 1)) n
          ∙ add_i32-one (length ds) b
          ∙ ap pos (omega (arith, ap length h.sent, length-append ds (d ∷ []))),
      subst (λ (e : GfsFile). Pieces e.id size 0 (documents g.inserts)) h.doc
          (subst (Pieces f.doc.id size 0) h.sent (Pieces-append f.doc.id size 0 ds d p piece)),
      sym (ap join h.sent)
          ∙ join-append ds (d ∷ [])
          ∙ ap (λ xs. join ds ++ xs)
              (append-nil (bytes_of d) ∙ bytes_of-chunk_document h.id f.doc.id f.chunk_num chunk),
    )
