-- ===== src/Auth/Bytes.antt =====
-- The operators of Rust that auth.rs uses on bytes: `^` on `u8`, and the check of `String::from_utf8`.
use old_mongo_rust_driver.Prelude.{
  ℕ, zero, suc, ◌+◌, ◌*◌, ◌/◌, ◌%◌, ◌^◌, ◌<◌, ◌≡◌, refl, ap, ◌∙◌, Bool, true, false, ◌&&◌, List, [],
  ◌∷◌, ◌==◌, leb, ltb, All, arith, length, if◌then◌else◌,
}

-- Of two numbers of `w` bits.
unfoldable pub xor : ℕ → ℕ → ℕ → ℕ
xor zero a b = 0
xor (suc w) a b = (a + b) % 2 + 2 * xor w (a / 2) (b / 2)

-- `zip` ends with the shorter list.
unfoldable pub xor_bytes : List ℕ → List ℕ → List ℕ
xor_bytes [] bs = []
xor_bytes (a ∷ xs) [] = []
xor_bytes (a ∷ xs) (b ∷ bs) = xor 8 a b ∷ xor_bytes xs bs

pub xor-xor : (w a b : ℕ) → a < 2 ^ w → xor w (xor w a b) b ≡ a
unfolding xor
xor-xor zero a b h = omega arith
xor-xor (suc w) a b h =
    let r = xor w (a / 2) (b / 2) in
    let x = (a + b) % 2 + 2 * r in
    let half : x / 2 ≡ r = omega arith in
    let same : xor w r (b / 2) ≡ a / 2 = xor-xor w (a / 2) (b / 2) (omega (arith, h)) in
    ap (λ h. (x + b) % 2 + 2 * xor w h (b / 2)) half
    ∙ ap (λ h. (x + b) % 2 + 2 * h) same
    ∙ omega arith

pub xor_bytes-xor_bytes :
    (xs bs : List ℕ)
    → All (λ a. a < 256) xs
    → length xs ≡ length bs
    → xor_bytes (xor_bytes xs bs) bs ≡ xs
unfolding xor_bytes
xor_bytes-xor_bytes [] bs h e = refl
xor_bytes-xor_bytes (a ∷ xs) [] h e = ground (arith, e)
xor_bytes-xor_bytes (a ∷ xs) (b ∷ bs) h e =
    rw (xor-xor 8 a b h.0, xor_bytes-xor_bytes xs bs h.1 (omega (arith, e)))

-- For a first byte: how many bytes follow it, and the bounds of the next one.
abbrev pub lead : ℕ → Bool × ℕ × ℕ × ℕ
lead c =
    if ltb c 128
    then (true, 0, 0, 0)
    else if leb 194 c && leb c 223
    then (true, 1, 128, 191)
    else if c == 224
    then (true, 2, 160, 191)
    else if c == 237
    then (true, 2, 128, 159)
    else if leb 225 c && leb c 239
    then (true, 2, 128, 191)
    else if c == 240
    then (true, 3, 144, 191)
    else if leb 241 c && leb c 243
    then (true, 3, 128, 191)
    else if c == 244
    then (true, 3, 128, 143)
    else (false, 0, 0, 0)

-- Where `n` bytes of a character are missing, and the next one has bounds.
unfoldable pub is_utf8_from : ℕ → ℕ → ℕ → List ℕ → Bool
is_utf8_from n low high [] = n == 0
is_utf8_from zero low high (c ∷ s) = let (b, n, l, h) = lead c in b && is_utf8_from n l h s
is_utf8_from (suc n) low high (c ∷ s) = leb low c && leb c high && is_utf8_from n 128 191 s

unfoldable pub is_utf8 : List ℕ → Bool
is_utf8 = is_utf8_from 0 0 0
