-- ===== src/Cursor/Buffered.antt =====
-- cursor.rs: a cursor without a limit, while its buffer lasts, and when the server has no more for it.
use old_mongo_rust_driver.Prelude.{
  ℕ, zero, suc, ◌≡◌, refl, ap, sym, ◌∙◌, false, is_empty, subst, none, ◌≤◌, ◌⊎◌, inl, inr, List, [],
  ◌∷◌, arith, length, take, drop,
}
use old_mongo_rust_driver.Prelude.Int.{ℤ, pos, add_i32}
use old_mongo_rust_driver.Prelude.Text.{Text}
use old_mongo_rust_driver.Bson.{Document}
use old_mongo_rust_driver.Error.{Result, ok, ◌>>=◌}
use old_mongo_rust_driver.Wire.Message.{Message}
use old_mongo_rust_driver.Cursor.Defs.{
  Cursor, Attempt, has_next, pop_buffer, after_has_next, next, put_first, go_on, next_n,
  drain_current_batch,
}

module _ {ℓ} {S : Type ℓ} (get_more : Text → ℤ → ℤ → S → S × Result Message) where
  -- What the call returns, what it leaves in the buffer, and what the outside is.
  abbrev pub Gives : List Document → List Document → S → Attempt S (Result (List Document)) → Type ℓ
  Gives ds rest s x = (x.result ≡ ok ds) × (x.cursor.buffer ≡ rest) × (x.outside ≡ s)

  -- The cursor without a limit, with these documents in its buffer.
  abbrev pub holding : Cursor → List Document → Cursor
  holding c ds = record c { limit = pos 0; buffer = ds }

  next-empty :
      (c : Cursor) (s : S)
      → c.cursor_id ≡ pos 0
      → next get_more (holding c []) s
        ≡ record { outside = s; cursor = holding c []; result = none }
  unfolding next has_next after_has_next
  next-empty c s e =
      subst
        (λ id. next get_more (record c { cursor_id = id; limit = pos 0; buffer = [] }) s ≡ record {
          outside = s;
          cursor = record c { cursor_id = id; limit = pos 0; buffer = [] };
          result = none;
        })
        (sym e) refl

  -- Without a limit (a limit of 0), `next_n(n)` gives the first `n` documents of the buffer (all, if it
  -- has fewer), leaves the others in it and sends nothing, if the buffer has that many or the server holds
  -- no cursor (an id of 0).
  pub next_n-buffered :
      (n : ℕ) (c : Cursor) (s : S) (ds : List Document)
      → (c.cursor_id ≡ pos 0) ⊎ (n ≤ length ds)
      → Gives (take n ds) (drop n ds) s (next_n get_more n (holding c ds) s)
  unfolding next_n next has_next after_has_next pop_buffer go_on put_first
  next_n-buffered zero c s ds h = (refl, refl, refl)
  next_n-buffered (suc n) c s [] (inl e) =
      subst (λ x. Gives [] [] s (go_on get_more (next_n get_more n) x.outside x.cursor x.result))
        (sym (next-empty c s e)) (refl, refl, refl)
  next_n-buffered (suc n) c s [] (inr h) = ground arith
  next_n-buffered (suc n) c s (d ∷ ds) (inl e) =
      let x = next_n-buffered n (record c { count = add_i32 c.count (pos 1) }) s ds (inl e) in
      (ap (λ r. r >>= λ ds. ok (d ∷ ds)) x.0, x.1, x.2)
  next_n-buffered (suc n) c s (d ∷ ds) (inr h) =
      let x =
        next_n-buffered n (record c { count = add_i32 c.count (pos 1) }) s ds (inr (omega arith)) in
      (ap (λ r. r >>= λ ds. ok (d ∷ ds)) x.0, x.1, x.2)

  drain_of :
      (x : Attempt S (Result (List Document))) (ds : List Document)
      → is_empty ds ≡ false
      → x.cursor.buffer ≡ ds
      → Gives ds [] x.outside (drain_current_batch get_more x.cursor x.outside)
  unfolding drain_current_batch
  drain_of x ds n e = rw (e, n, drain_current_batch) (refl, refl, refl)

  abbrev pub reads : ℕ → Cursor → S → List Document → Attempt S (Result (List Document))
  reads n c s ds = next_n get_more n (holding c ds) s

  drop-is_empty : (n : ℕ) (ds : List Document) → suc n ≤ length ds → is_empty (drop n ds) ≡ false
  drop-is_empty zero [] h = ground arith
  drop-is_empty (suc n) [] h = ground arith
  drop-is_empty zero (d ∷ ds) h = refl
  drop-is_empty (suc n) (d ∷ ds) h = drop-is_empty n ds (omega arith)

  -- If `next_n(n)`, without a limit, is called while the buffer has more than `n` documents, a call of
  -- `drain_current_batch` after it gives exactly the others, in their order, leaves none, and nothing is
  -- sent.
  pub drain_current_batch-next_n :
      (n : ℕ) (c : Cursor) (s : S) (ds : List Document)
      → suc n ≤ length ds
      → Gives
          (drop n ds)
          []
          s
          (drain_current_batch get_more (reads n c s ds).cursor (reads n c s ds).outside)
  drain_current_batch-next_n n c s ds h =
      let x = next_n-buffered n c s ds (inr (omega arith)) in
      let y = drain_of (reads n c s ds) (drop n ds) (drop-is_empty n ds h) x.1 in
      (y.0, y.1, y.2 ∙ x.2)
