-- ===== src/Cursor/Limit.antt =====
-- cursor.rs: a cursor with a limit.
use old_mongo_rust_driver.Prelude.{
  ℕ, zero, suc, ◌≡◌, refl, ap, ◌∙◌, ◌+◌, ◌≤◌, Bool, true, false, not, ◌&&◌, Option, none, some,
  List, [], ◌∷◌, arith, if_cases, is_empty, length,
}
use old_mongo_rust_driver.Prelude.Int.{ℤ, pos, add_i32, ltb_ℤ, leb_ℤ, add_i32-one}
use old_mongo_rust_driver.Prelude.Text.{Text}
use old_mongo_rust_driver.Bson.{Document}
use old_mongo_rust_driver.Error.{Result, ok, err, ◌>>=◌}
use old_mongo_rust_driver.Wire.Message.{Message}
use old_mongo_rust_driver.Cursor.Defs.{
  Cursor, Attempt, received, get_from_stream, has_some, is_spent, asks, has_next, pop_buffer,
  after_has_next, next, put_first, go_on, next_n,
}

unspent :
    (limit k : ℕ) (l c : ℤ)
    → l ≡ pos limit
    → c ≡ pos k
    → 1 ≤ limit
    → (ltb_ℤ (pos 0) l && leb_ℤ l c) ≡ false
    → suc k ≤ limit
unspent limit k l c a b p u = ground (arith, a, b, u)

-- What the call of `next` counts.
abbrev Counted : ℕ → ℕ → ℤ → Option (Result Document) → Type 0
Counted limit k count none = count ≡ pos k
Counted limit k count (some (ok d)) = (count ≡ pos (suc k)) × (suc k ≤ limit)
Counted limit k count (some (err e)) = Unit

module _ {ℓ} {S : Type ℓ} (get_more : Text → ℤ → ℤ → S → S × Result Message) where
  abbrev Ready : Cursor → Attempt S (Result Bool) → Type 0
  Ready c x =
      (x.cursor.limit ≡ c.limit)
      × (x.cursor.count ≡ c.count)
      × (x.result ≡ ok true → (is_empty x.cursor.buffer ≡ false) × (is_spent get_more c ≡ false))

  not-true : (b : Bool) → ◌≡◌ {A = Result Bool} (ok (not b)) (ok true) → b ≡ false
  not-true true e = cc
  not-true false e = refl

  received-Ready :
      (c : Cursor) (s : S) (r : Result (Document × List Document × ℤ))
      → is_spent get_more c ≡ false
      → Ready c (has_some get_more (received get_more c s r))
  received-Ready c s (err e) u = (refl, refl, λ q. cc)
  received-Ready c s (ok (first, docs, id)) u = (refl, refl, λ q. (not-true _ q, u))

  has_next-Ready : (c : Cursor) (s : S) → Ready c (has_next get_more c s)
  unfolding has_next get_from_stream
  has_next-Ready c s =
      if_cases (Ready c) (is_spent get_more c) _ _ (λ e. (refl, refl, λ q. cc))
        λ u.
          if_cases (Ready c) (asks get_more c) _ _ (λ e. received-Ready c _ _ u)
            λ e. (refl, refl, λ q. (not-true _ q, u))

  abbrev Steps : ℕ → ℕ → Attempt S (Option (Result Document)) → Type 0
  Steps limit k x = (x.cursor.limit ≡ pos limit) × Counted limit k x.cursor.count x.result

  module _ (limit k : ℕ) (small : limit ≤ 2147483647) where
    pop_buffer-Steps :
        (s : S) (c : Cursor) (ds : List Document)
        → is_empty ds ≡ false
        → c.limit ≡ pos limit
        → c.count ≡ pos k
        → suc k ≤ limit
        → Steps limit k (pop_buffer get_more s c ds)
    unfolding pop_buffer
    pop_buffer-Steps s c [] n l e h = cc
    pop_buffer-Steps s c (d ∷ ds) n l e h =
        (l, (ap (λ z. add_i32 z (pos 1)) e ∙ add_i32-one k (omega arith), h))

    after_has_next-Steps :
        (c d : Cursor) (s : S) (r : Result Bool)
        → c.limit ≡ pos limit
        → c.count ≡ pos k
        → 1 ≤ limit
        → Ready c (record { outside = s; cursor = d; result = r })
        → Steps limit k (after_has_next get_more s d r)
    unfolding after_has_next
    after_has_next-Steps c d s (ok true) l e p (dl, de, r) =
        pop_buffer-Steps s d d.buffer (r refl).0 (dl ∙ l) (de ∙ e)
          (unspent limit k c.limit c.count l e p (r refl).1)
    after_has_next-Steps c d s (ok false) l e p (dl, de, r) = (dl ∙ l, de ∙ e)
    after_has_next-Steps c d s (err x) l e p (dl, de, r) = (dl ∙ l, tt)

    next-Steps :
        (c : Cursor) (s : S)
        → c.limit ≡ pos limit
        → c.count ≡ pos k
        → 1 ≤ limit
        → Steps limit k (next get_more c s)
    unfolding next
    next-Steps c s l e p = after_has_next-Steps c _ _ _ l e p (has_next-Ready c s)

  -- What the loop gives, from a count of `k`.
  abbrev pub Within : ℕ → ℕ → ℕ → ℤ → Result (List Document) → Type 0
  Within n limit k count (ok ds) =
      (length ds ≤ n) × (k + length ds ≤ limit) × (count ≡ pos (k + length ds))
  Within n limit k count (err e) = Unit

  abbrev pub Bounded : ℕ → ℕ → ℕ → Attempt S (Result (List Document)) → Type 0
  Bounded n limit k x = Within n limit k x.cursor.count x.result

  cons-Within :
      (n limit k : ℕ) (d : Document) (count : ℤ) (r : Result (List Document))
      → Within n limit (suc k) count r
      → Within (suc n) limit k count (r >>= λ ds. ok (d ∷ ds))
  cons-Within n limit k d count (ok ds) (b, l, e) =
      (omega arith, omega arith, e ∙ ap pos (omega arith))
  cons-Within n limit k d count (err x) h = tt

  go_on-Bounded :
      (n limit k : ℕ) (rest : Cursor → S → Attempt S (Result (List Document))) (s : S) (c : Cursor)
      (r : Option (Result Document))
      → k ≤ limit
      → c.limit ≡ pos limit
      → Counted limit k c.count r
      → ((c : Cursor) (s : S)
          → suc k ≤ limit
          → c.limit ≡ pos limit
          → c.count ≡ pos (suc k)
          → Bounded n limit (suc k) (rest c s))
      → Bounded (suc n) limit k (go_on get_more rest s c r)
  unfolding go_on put_first
  go_on-Bounded n limit k rest s c none h l e f =
      (omega arith, omega arith, e ∙ ap pos (omega arith))
  go_on-Bounded n limit k rest s c (some (err x)) h l e f = tt
  go_on-Bounded n limit k rest s c (some (ok d)) h l (e, b) f =
      cons-Within n limit k d _ _ (f c s b l e)

  -- From a cursor whose limit is above 0 (and an `i32`) and whose count is at most the limit, `next_n(n)`
  -- gives an error or at most `n` documents, as many as its count goes up by, and the count stays within
  -- the limit, whatever the server answers.
  pub next_n-limit :
      (n limit k : ℕ) (c : Cursor) (s : S)
      → 1 ≤ limit
      → limit ≤ 2147483647
      → k ≤ limit
      → c.limit ≡ pos limit
      → c.count ≡ pos k
      → Bounded n limit k (next_n get_more n c s)
  unfolding next_n
  next_n-limit zero limit k c s p b h l e = (omega arith, omega arith, e ∙ ap pos (omega arith))
  next_n-limit (suc n) limit k c s p b h l e =
      let x = next-Steps limit k b c s l e p in
      go_on-Bounded n limit k (next_n get_more n) _ _ _ h x.0 x.1
        (λ c s h l e. next_n-limit n limit (suc k) c s p b h l e)
