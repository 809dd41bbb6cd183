-- ===== src/Connstring/Cuts.antt =====
-- connstring.rs: where `partition`, `rpartition` and `split` cut a text that is put together with separators.
use old_mongo_rust_driver.Prelude.{
  ℕ, ◌≡◌, refl, ap, ◌∙◌, true, false, none, some, List, [], ◌∷◌, ◌++◌, ◌==◌, is_empty, All, ==_iff,
}
use old_mongo_rust_driver.Prelude.Text.{Text}
use old_mongo_rust_driver.Connstring.Find.{
  strip, longer, cut_first, cut_last, partition, rpartition, contains, cons_part, split, whole_or,
  is_some, starts_with,
}

-- The byte does not occur.
abbrev pub Lacks : ℕ → Text → Type 0
Lacks c s = All (λ x. (c == x) ≡ false) s

pub Lacks-append : (c : ℕ) (s t : Text) → Lacks c s → Lacks c t → Lacks c (s ++ t)
Lacks-append c [] t h k = k
Lacks-append c (x ∷ s) t h k = (h.0, Lacks-append c s t h.1 k)

strip_self : (c : ℕ) (s : Text) → strip (c ∷ []) (c ∷ s) ≡ some s
unfolding strip
strip_self c s = rw ((==_iff c c).1 refl)

strip_other : (c x : ℕ) (s : Text) → (c == x) ≡ false → strip (c ∷ []) (x ∷ s) ≡ none
unfolding strip
strip_other c x s e = rw e

pub cut_first-append :
    (c : ℕ) (a b : Text) → Lacks c a → cut_first (c ∷ []) (a ++ c ∷ b) ≡ some (a, b)
unfolding cut_first
cut_first-append c [] b h = rw (strip_self c b)
cut_first-append c (x ∷ a) b h =
    rw (strip_other c x (a ++ c ∷ b) h.0) (ap (longer x) (cut_first-append c a b h.1))

pub cut_first-none : (c : ℕ) (a : Text) → Lacks c a → cut_first (c ∷ []) a ≡ none
unfolding cut_first
cut_first-none c [] h = refl
cut_first-none c (x ∷ a) h = rw (strip_other c x a h.0) (ap (longer x) (cut_first-none c a h.1))

pub cut_last-none : (c : ℕ) (a : Text) → Lacks c a → cut_last (c ∷ []) a ≡ none
unfolding cut_last
cut_last-none c [] h = refl
cut_last-none c (x ∷ a) h = rw (strip_other c x a h.0, cut_last-none c a h.1)

pub cut_last-append :
    (c : ℕ) (a b : Text) → Lacks c b → cut_last (c ∷ []) (a ++ c ∷ b) ≡ some (a, b)
unfolding cut_last
cut_last-append c [] b h = rw (strip_self c b, cut_last-none c b h)
cut_last-append c (x ∷ a) b h = rw (cut_last-append c a b h)

pub partition-append : (c : ℕ) (a b : Text) → Lacks c a → partition (a ++ c ∷ b) (c ∷ []) ≡ (a, b)
unfolding partition
partition-append c a b h = ap (whole_or (a ++ c ∷ b)) (cut_first-append c a b h)

pub rpartition-append : (c : ℕ) (a b : Text) → Lacks c b → rpartition (a ++ c ∷ b) (c ∷ []) ≡ (a, b)
unfolding rpartition
rpartition-append c a b h = ap (whole_or (a ++ c ∷ b)) (cut_last-append c a b h)

pub contains-none : (c : ℕ) (a : Text) → Lacks c a → contains a (c ∷ []) ≡ false
contains-none c a h = ap is_some (cut_first-none c a h)

pub contains-append : (c : ℕ) (a b : Text) → Lacks c a → contains (a ++ c ∷ b) (c ∷ []) ≡ true
contains-append c a b h = ap is_some (cut_first-append c a b h)

-- Parts with a separator between them.
abbrev pub join : ℕ → List Text → Text
join c [] = []
join c (s ∷ []) = s
join c (s ∷ t ∷ ts) = s ++ c ∷ join c (t ∷ ts)

pub join-Lacks :
    (c d : ℕ) (ts : List Text) → (c == d) ≡ false → All (Lacks c) ts → Lacks c (join d ts)
join-Lacks c d [] q h = tt
join-Lacks c d (s ∷ []) q h = h.0
join-Lacks c d (s ∷ t ∷ ts) q h =
    Lacks-append c s (d ∷ join d (t ∷ ts)) h.0 (q, join-Lacks c d (t ∷ ts) q h.1)

-- A text that is not empty does not start with a byte that it lacks.
pub starts_with-none :
    (c : ℕ) (s t : Text) → Lacks c s → is_empty s ≡ false → starts_with (s ++ t) (c ∷ []) ≡ false
starts_with-none c [] t h e = cc
starts_with-none c (x ∷ s) t h e = ap is_some (strip_other c x (s ++ t) h.0)

split_one : (c : ℕ) (s : Text) → Lacks c s → split c s ≡ s ∷ []
unfolding split
split_one c [] h = refl
split_one c (x ∷ s) h = rw h.0 (ap (cons_part x) (split_one c s h.1))

split-append : (c : ℕ) (s t : Text) → Lacks c s → split c (s ++ c ∷ t) ≡ s ∷ split c t
unfolding split
split-append c [] t h = rw ((==_iff c c).1 refl)
split-append c (x ∷ s) t h = rw h.0 (ap (cons_part x) (split-append c s t h.1))

pub split-join :
    (c : ℕ) (s : Text) (ts : List Text)
    → All (Lacks c) (s ∷ ts)
    → split c (join c (s ∷ ts)) ≡ s ∷ ts
split-join c s [] h = split_one c s h.0
split-join c s (t ∷ ts) h =
    split-append c s (join c (t ∷ ts)) h.0 ∙ ap (λ xs. s ∷ xs) (split-join c t ts h.1)
