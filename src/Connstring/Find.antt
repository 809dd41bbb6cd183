-- ===== src/Connstring/Find.antt =====
-- The operations of `str` that connstring.rs uses, on bytes, and its `partition`, `rpartition` and `rsplit`.
use old_mongo_rust_driver.Prelude.{
  ℕ, ◌+◌, ◌-◌, ◌*◌, Bool, true, false, ◌&&◌, Option, none, some, List, [], ◌∷◌, ◌++◌, ◌==◌, ltb,
  leb, map, if◌then◌else◌,
}
use old_mongo_rust_driver.Prelude.Text.{Text}

-- The rest behind a prefix.
unfoldable pub strip : Text → Text → Option Text
strip [] s = some s
strip (x ∷ xs) [] = none
strip (x ∷ xs) (y ∷ ys) = if x == y then strip xs ys else none

abbrev pub is_some {ℓ} : {A : Type ℓ} → Option A → Bool
is_some none = false
is_some (some a) = true

abbrev pub starts_with : Text → Text → Bool
starts_with s prefix = is_some (strip prefix s)

abbrev pub Parts : Type 0
Parts = Option (Text × Text)

abbrev pub longer : ℕ → Parts → Parts
longer c none = none
longer c (some (a, b)) = some (c ∷ a, b)

abbrev pub at_start : Option Text → Parts → Parts
at_start (some rest) other = some ([], rest)
at_start none other = other

abbrev pub or_at_start : Parts → Option Text → Parts
or_at_start (some p) here = some p
or_at_start none (some rest) = some ([], rest)
or_at_start none none = none

-- What stands before and behind the first occurrence of a separator, which is not empty.
unfoldable pub cut_first : Text → Text → Parts
cut_first sep [] = none
cut_first sep (c ∷ s) = at_start (strip sep (c ∷ s)) (longer c (cut_first sep s))

-- The same for the last occurrence.
unfoldable pub cut_last : Text → Text → Parts
cut_last sep [] = none
cut_last sep (c ∷ s) = or_at_start (longer c (cut_last sep s)) (strip sep (c ∷ s))

abbrev pub contains : Text → Text → Bool
contains s sep = is_some (cut_first sep s)

abbrev pub whole_or : Text → Parts → Text × Text
whole_or s none = (s, [])
whole_or s (some p) = p

unfoldable pub partition : Text → Text → Text × Text
partition s sep = whole_or s (cut_first sep s)

unfoldable pub rpartition : Text → Text → Text × Text
rpartition s sep = whole_or s (cut_last sep s)

abbrev pub with_sep : Text → Text → Parts → Text × Text
with_sep s sep none = (s, [])
with_sep s sep (some (a, b)) = (a ++ sep, b)

unfoldable pub rsplit : Text → Text → Text × Text
rsplit s sep = with_sep s sep (cut_last sep s)

abbrev pub cons_part : ℕ → List Text → List Text
cons_part c [] = (c ∷ []) ∷ []
cons_part c (p ∷ ps) = (c ∷ p) ∷ ps

-- `split` at a byte: one part more than there are separators.
unfoldable pub split : ℕ → Text → List Text
split sep [] = [] ∷ []
split sep (c ∷ s) = let rest = split sep s in if sep == c then [] ∷ rest else cons_part c rest

unfoldable pub lower_byte : ℕ → ℕ
lower_byte c = if leb b'A' c && leb c b'Z' then c + 32 else c

unfoldable pub to_ascii_lowercase : Text → Text
to_ascii_lowercase = map lower_byte

abbrev pub is_digit : ℕ → Bool
is_digit c = leb b'0' c && leb c b'9'

-- `u16::from_str` behind the sign: at least one digit, and each value below 2 ^ 16.
unfoldable pub more_of_u16 : Text → ℕ → Option ℕ
more_of_u16 [] n = some n
more_of_u16 (c ∷ s) n =
    let next = n * 10 + (c - b'0') in
    let rest = more_of_u16 s next in if is_digit c && ltb next 65536 then rest else none

unfoldable pub digits_of_u16 : Text → Option ℕ
digits_of_u16 [] = none
digits_of_u16 (c ∷ s) = more_of_u16 (c ∷ s) 0

unfoldable pub parse_u16 : Text → Option ℕ
parse_u16 [] = none
parse_u16 (c ∷ s) = if c == b'+' then digits_of_u16 s else digits_of_u16 (c ∷ s)
