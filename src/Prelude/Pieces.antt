-- ===== src/Prelude/Pieces.antt =====
-- Parts of lists: `take` and `drop` across an append, past the end, and in pieces of one size.
use Prim.Native.Nat.{ℕ, zero, suc, ◌+◌, ◌*◌, ◌≤◌, min}
use mathlib.Core.Path.{◌≡◌, refl, sym, ap, ◌∙◌}
use mathlib.Core.List.{List, [], ◌∷◌, ◌++◌}
use native.Mathlib.Omega.{arith}
use old_mongo_rust_driver.Prelude.Lists.{length, take, drop, take-append-drop}

module _ {ℓ} {A : Type ℓ} where
  pub drop-drop : (m n : ℕ) (xs : List A) → drop m (drop n xs) ≡ drop (n + m) xs
  drop-drop m zero xs = ap (λ k. drop k xs) (omega arith)
  drop-drop m (suc n) [] =
      let e : suc n + m ≡ suc (n + m) = omega arith in rw (e, drop) (drop_nil m)
    where
      drop_nil : (m : ℕ) → drop {A = A} m [] ≡ []
      drop_nil zero = refl
      drop_nil (suc m) = refl
  drop-drop m (suc n) (x ∷ xs) =
      let e : suc n + m ≡ suc (n + m) = omega arith in rw (e, drop) (drop-drop m n xs)

  pub drop_past : (n : ℕ) (xs : List A) → length xs ≤ n → drop n xs ≡ []
  drop_past zero [] h = refl
  drop_past (suc n) [] h = refl
  drop_past zero (x ∷ xs) h = absurd (omega arith)
  drop_past (suc n) (x ∷ xs) h = drop_past n xs (omega arith)

  pub take_past : (n : ℕ) (xs : List A) → length xs ≤ n → take n xs ≡ xs
  take_past zero [] h = refl
  take_past (suc n) [] h = refl
  take_past zero (x ∷ xs) h = absurd (omega arith)
  take_past (suc n) (x ∷ xs) h = ap (◌∷◌ x) (take_past n xs (omega arith))

  pub take-append : (n : ℕ) (xs ys : List A) → n ≤ length xs → take n (xs ++ ys) ≡ take n xs
  take-append zero xs ys h = refl
  take-append (suc n) [] ys h = absurd (omega arith)
  take-append (suc n) (x ∷ xs) ys h = ap (◌∷◌ x) (take-append n xs ys (omega arith))

  pub drop-append : (n : ℕ) (xs ys : List A) → n ≤ length xs → drop n (xs ++ ys) ≡ drop n xs ++ ys
  drop-append zero xs ys h = refl
  drop-append (suc n) [] ys h = absurd (omega arith)
  drop-append (suc n) (x ∷ xs) ys h = drop-append n xs ys (omega arith)

  -- The part from `c` pieces of `size` on is the next piece and the part behind it.
  pub next_piece :
      (c size : ℕ) (xs : List A)
      → take size (drop (c * size) xs) ++ drop (suc c * size) xs ≡ drop (c * size) xs
  next_piece c size xs =
      let e : c * size + size ≡ suc c * size = grind arith in
      ap (λ k. take size (drop (c * size) xs) ++ drop k xs) (sym e)
      ∙ ap (λ ys. take size (drop (c * size) xs) ++ ys) (sym (drop-drop size (c * size) xs))
      ∙ take-append-drop size (drop (c * size) xs)

  pub take-min-length : (n : ℕ) (xs : List A) → take (min (length xs) n) xs ≡ take n xs
  take-min-length zero xs = let e : min (length xs) 0 ≡ 0 = omega arith in rw (e, take) refl
  take-min-length (suc n) [] = let e : min 0 (suc n) ≡ 0 = omega arith in rw (e, take) refl
  take-min-length (suc n) (x ∷ xs) =
      let e : min (suc (length xs)) (suc n) ≡ suc (min (length xs) n) = omega arith in
      rw (e, take) (ap (◌∷◌ x) (take-min-length n xs))

  pub take_nil : (n : ℕ) → take n (let xs : List A = [] in xs) ≡ []
  take_nil zero = refl
  take_nil (suc n) = refl

  pub drop-length-take : (n : ℕ) (xs : List A) → drop (length (take n xs)) xs ≡ drop n xs
  drop-length-take zero xs = refl
  drop-length-take (suc n) [] = refl
  drop-length-take (suc n) (x ∷ xs) = drop-length-take n xs
