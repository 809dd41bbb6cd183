-- ===== src/Gridfs/Flushed.antt =====
-- gridfs/file.rs: a file and its chunks after a `flush`.
use old_mongo_rust_driver.Prelude.{
  ℕ, suc, ◌+◌, ◌≤◌, ◌≡◌, ◌≢◌, sym, ap, subst, ◌∙◌, false, none, some, List, [], ◌∷◌, ◌++◌, length,
  ltb, ltb→le, if_cases, arith, All,
}
use old_mongo_rust_driver.Prelude.Int.{pos}
use old_mongo_rust_driver.Bson.{Document}
use old_mongo_rust_driver.Error.{Error, ok, err}
use old_mongo_rust_driver.Gridfs.Gfs.{GfsFile}
use old_mongo_rust_driver.Gridfs.File.{
  File, flying, Event, ends, Schedule, finish, finish_all, Outcome, Run, err_description,
}
use old_mongo_rust_driver.Gridfs.Write.{await_all, has_no}
use old_mongo_rust_driver.Gridfs.Frame.{documents, Same, Ensures, OnDone}
use old_mongo_rust_driver.Gridfs.Tracking.{IsAnswered}
use old_mongo_rust_driver.Gridfs.Writing.{join, IsPiece, Pieces}

-- All chunks but the last have `size` bytes; the last has at most as many, and is not empty.
abbrev pub Layout : ℕ → ℕ → ℕ → List Document → Type 0
Layout id size k [] = Unit
Layout id size k (d ∷ []) = (n : ℕ) × (1 ≤ n) × (n ≤ size) × IsPiece id n k d
Layout id size k (d ∷ e ∷ ds) = IsPiece id size k d × Layout id size (suc k) (e ∷ ds)

pub Layout-Pieces :
    (id size k : ℕ) (ds : List Document) → 1 ≤ size → Pieces id size k ds → Layout id size k ds
Layout-Pieces id size k [] p h = tt
Layout-Pieces id size k (d ∷ []) p h = (size, p, omega arith, h.0)
Layout-Pieces id size k (d ∷ e ∷ ds) p h = (h.0, Layout-Pieces id size (suc k) (e ∷ ds) p h.1)

pub Layout-last :
    (id size k n : ℕ) (ds : List Document) (d : Document)
    → Pieces id size k ds
    → 1 ≤ n
    → n ≤ size
    → IsPiece id n (k + length ds) d
    → Layout id size k (ds ++ d ∷ [])
Layout-last id size k n [] d h p q l = (n, p, q, subst (λ j. IsPiece id n j d) (omega arith) l)
Layout-last id size k n (c ∷ []) d h p q l =
    (h.0, (n, p, q, subst (λ j. IsPiece id n j d) (omega arith) l))
Layout-last id size k n (c ∷ e ∷ ds) d h p q l = (
  h.0,
  Layout-last id size (suc k) n (e ∷ ds) d h.1 p q (subst (λ j. IsPiece id n j d) (omega arith) l),
)

-- The chunks that were sent make up `bytes`, and the buffer is empty.
pub record IsLaidOut (size : ℕ) (bytes : List ℕ) (f : File) : Type 0 where
  pub sized : f.doc.chunk_size ≡ pos size
  pub measured : f.doc.len ≡ pos (length bytes)
  pub layout : Layout f.doc.id size 0 (documents f.inserts)
  pub joined : join (documents f.inserts) ≡ bytes
  pub emptied : f.wbuf ≡ []

-- Besides, the server answered every insert: the chunk is in the collection, or was refused.
abbrev pub IsUploaded : ℕ → List ℕ → File → Type 0
IsUploaded size bytes f = IsLaidOut size bytes f × All IsAnswered f.inserts

-- An error stays.
finish-err : (e : Event) (f : File) → (finish e f).err ≡ none → f.err ≡ none
unfolding finish
finish-err (ends i (ok x)) f =
    if_cases (λ (g : File). g.err ≡ none → f.err ≡ none) (ltb i (flying f.inserts)) _ _ (λ e h. h)
      (λ e h. h)
finish-err (ends i (err x)) f =
    if_cases (λ (g : File). g.err ≡ none → f.err ≡ none) (ltb i (flying f.inserts)) _ _ (λ e h. cc)
      (λ e h. h)

pub finish_all-err : (es : List Event) (f : File) → (finish_all es f).err ≡ none → f.err ≡ none
unfolding finish_all
finish_all-err [] f h = h
finish_all-err (e ∷ es) f h = finish-err e f (finish_all-err es (finish e f) h)

pub await_all-err : (f : File) (s : Schedule) → (await_all f s).file.err ≡ none → f.err ≡ none
unfolding await_all
await_all-err f [] = λ h. h
await_all-err f (es ∷ s) =
    if_cases (λ (r : Run (Unit {0})). r.file.err ≡ none → f.err ≡ none) (ltb 0 f.wpending) _ _
      (λ e h. finish_all-err es f (await_all-err (finish_all es f) s h)) (λ e h. h)

-- When the wait for all pending writes is over, none is pending.
pub await_all-none : (f : File) (s : Schedule) → Ensures (λ g. g.wpending ≡ 0) (await_all f s)
unfolding await_all
await_all-none f [] =
    if_cases (λ (o : Outcome (Unit {0})). OnDone (λ g. g.wpending ≡ 0) o f) (ltb 0 f.wpending) _ _
      (λ e. tt) (λ e. omega (arith, ltb→le 0 f.wpending e))
await_all-none f (es ∷ s) =
    if_cases (λ (r : Run (Unit {0})). Ensures (λ g. g.wpending ≡ 0) r) (ltb 0 f.wpending) _ _
      (λ e. await_all-none (finish_all es f) s) (λ e. omega (arith, ltb→le 0 f.wpending e))

pub err_description-none : (f : File) → err_description f ≡ none → f.err ≡ none
unfolding err_description
err_description-none f h = ground arith

pub err_description-some : (f : File) (e : Error) → err_description f ≡ some e → f.err ≢ none
unfolding err_description
err_description-some f e h q = ground arith

pub has_no-false : (f : File) → has_no (err_description f) ≡ false → f.err ≢ none
unfolding err_description
has_no-false f h q = ground arith

pub Same-IsLaidOut :
    (size : ℕ) (bytes : List ℕ) (f g : File)
    → Same f g
    → IsLaidOut size bytes f
    → IsLaidOut size bytes g
Same-IsLaidOut size bytes f g s h = record {
  sized = subst (λ (x : GfsFile). x.chunk_size ≡ pos size) s.doc h.sized;
  measured = subst (λ (x : GfsFile). x.len ≡ pos (length bytes)) s.doc h.measured;
  layout =
      subst (λ (x : GfsFile). Layout x.id size 0 (documents g.inserts)) s.doc
        (subst (Layout f.doc.id size 0) s.sent h.layout);
  joined = ap join (sym s.sent) ∙ h.joined;
  emptied = sym s.wbuf ∙ h.emptied;
}
