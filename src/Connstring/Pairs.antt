-- ===== src/Connstring/Pairs.antt =====
-- connstring.rs: options that are put together from keys and values, and what `split_options` makes of them.
use old_mongo_rust_driver.Prelude.{
  ◌≡◌, refl, ap, ◌∙◌, sym, subst, Bool, true, false, List, [], ◌∷◌, ◌++◌, All, map, if◌then◌else◌,
  Bool-cases, inl, inr, append_assoc, append-nil,
}
use old_mongo_rust_driver.Prelude.Text.{Text, text, text_eq}
use old_mongo_rust_driver.Error.{ok}
use old_mongo_rust_driver.Connstring.Find.{to_ascii_lowercase}
use old_mongo_rust_driver.Connstring.Cuts.{
  Lacks, partition-append, contains-none, contains-append, join, join-Lacks, split-join,
}
use old_mongo_rust_driver.Connstring.Data.{ConnectionOptions, insert}
use old_mongo_rust_driver.Connstring.Options.{put_option, put_options, parse_options, split_options}

abbrev pub pair_text : Text × Text → Text
pair_text (key, val) = key ++ b'=' ∷ val

-- `key=value&key=value`
abbrev pub pairs_text : List (Text × Text) → Text
pairs_text ps = join b'&' (map pair_text ps)

-- A pair whose text has no separators but the one between its key and value.
abbrev pub IsPair : Text × Text → Type 0
IsPair (key, val) = Lacks b'=' key × Lacks b'&' (key ++ b'=' ∷ val) × Lacks b';' (key ++ b'=' ∷ val)

abbrev pub is_tag : Text → Bool
is_tag key = text_eq (to_ascii_lowercase key) (text "readpreferencetags")

abbrev pub plain : List (Text × Text) → List (Text × Text)
plain [] = []
plain ((key, val) ∷ ps) = if is_tag key then plain ps else (key, val) ∷ plain ps

abbrev pub tags : List (Text × Text) → List Text
tags [] = []
tags ((key, val) ∷ ps) = if is_tag key then val ∷ tags ps else tags ps

-- No key stands twice.
abbrev pub Distinct : List (Text × Text) → Type 0
Distinct [] = Unit
Distinct ((key, val) ∷ ps) = All (λ p. text_eq key p.0 ≡ false) ps × Distinct ps

All-middle :
    (P : Text × Text → Type 0) (m : List (Text × Text)) (p : Text × Text) (ps : List (Text × Text))
    → All P (m ++ p ∷ ps)
    → P p
All-middle P [] p ps h = h.0
All-middle P (x ∷ m) p ps h = All-middle P m p ps h.1

-- A new key comes last.
insert-new :
    (key val : Text) (m ps : List (Text × Text))
    → Distinct (m ++ (key, val) ∷ ps)
    → insert key val m ≡ m ++ (key, val) ∷ []
unfolding insert
insert-new key val [] ps h = refl
insert-new key val ((j, w) ∷ m) ps h =
    rw (All-middle (λ p. text_eq j p.0 ≡ false) m (key, val) ps h.0)
      (ap (λ xs. (j, w) ∷ xs) (insert-new key val m ps h.1))

put_pair :
    (key val : Text) (opts : List Text) (o : ConnectionOptions)
    → Lacks b'=' key
    → put_options (pair_text (key, val) ∷ opts) o ≡ put_options opts (put_option (key, val) o)
unfolding put_options
put_pair key val opts o h =
    ap (λ x. put_options opts (put_option x o)) (partition-append b'=' key val h)

-- What is there after some of the pairs.
abbrev after : List (Text × Text) → List Text → List (Text × Text) → ConnectionOptions
after m t ps = record { options = m ++ plain ps; read_pref_tags = t ++ tags ps }

after-tag :
    (key val : Text) (m ps : List (Text × Text)) (t : List Text)
    → is_tag key ≡ true
    → after m (t ++ val ∷ []) ps ≡ after m t ((key, val) ∷ ps)
after-tag key val m ps t e = rw e (
    ap (λ xs. record { options = m ++ plain ps; read_pref_tags = xs })
      (append_assoc t (val ∷ []) (tags ps)))

after-plain :
    (key val : Text) (m ps : List (Text × Text)) (t : List Text)
    → is_tag key ≡ false
    → after (m ++ (key, val) ∷ []) t ps ≡ after m t ((key, val) ∷ ps)
after-plain key val m ps t e = rw e (
    ap (λ xs. record { options = xs; read_pref_tags = t ++ tags ps })
      (append_assoc m ((key, val) ∷ []) (plain ps)))

-- The two branches of a pair, for a tag and for another option.
abbrev branch :
    List (Text × Text) → List Text → Text → Text → List (Text × Text) → Bool → ConnectionOptions
branch m t key val ps b =
    let o : ConnectionOptions = record { options = m; read_pref_tags = t } in
    put_options (map pair_text ps) (
      if b
      then record o { read_pref_tags = t ++ val ∷ [] }
      else record o { options = insert key val m })

abbrev Kept : List (Text × Text) → Text → Text → List (Text × Text) → Bool → Type 0
Kept m key val ps b = Distinct (m ++ (if b then plain ps else (key, val) ∷ plain ps))

put_options-pairs :
    (ps m : List (Text × Text)) (t : List Text)
    → All IsPair ps
    → Distinct (m ++ plain ps)
    → put_options (map pair_text ps) (record { options = m; read_pref_tags = t }) ≡ after m t ps
unfolding put_options
put_options-pairs [] m t h d = rw (append-nil m, append-nil t)
put_options-pairs ((key, val) ∷ ps) m t h d =
    put_pair key val (map pair_text ps) (record { options = m; read_pref_tags = t }) h.0.0
    ∙ elim (Bool-cases (is_tag key)) [
      | inl e ↦
          ap (branch m t key val ps) e
          ∙ put_options-pairs ps m (t ++ val ∷ []) h.1 (subst (Kept m key val ps) e d)
          ∙ after-tag key val m ps t e
      | inr e ↦
          let k : Distinct (m ++ (key, val) ∷ plain ps) = subst (Kept m key val ps) e d in
          ap (branch m t key val ps) e
          ∙ ap (λ xs. put_options (map pair_text ps) (record { options = xs; read_pref_tags = t }))
              (insert-new key val m (plain ps) k)
          ∙ put_options-pairs ps (m ++ (key, val) ∷ []) t h.1
              (subst Distinct (sym (append_assoc m ((key, val) ∷ []) (plain ps))) k)
          ∙ after-plain key val m ps t e
    ]

All-texts :
    (P : Text → Type 0) (ps : List (Text × Text))
    → ((p : Text × Text) → IsPair p → P (pair_text p))
    → All IsPair ps
    → All P (map pair_text ps)
All-texts P [] f h = tt
All-texts P (p ∷ ps) f h = (f p h.0, All-texts P ps f h.1)

-- What `split_options` makes of pairs.
abbrev pub options_of : List (Text × Text) → ConnectionOptions
options_of ps = record { options = plain ps; read_pref_tags = tags ps }

pub split_options-pairs_text :
    (p : Text × Text) (ps : List (Text × Text))
    → All IsPair (p ∷ ps)
    → Distinct (plain (p ∷ ps))
    → split_options (pairs_text (p ∷ ps)) ≡ ok (options_of (p ∷ ps))
unfolding split_options parse_options
split_options-pairs_text (key, val) [] h d =
    rw
      (
        contains-none b'&' (key ++ b'=' ∷ val) h.0.1,
        contains-none b';' (key ++ b'=' ∷ val) h.0.2,
        contains-append b'=' key val h.0.0,
      )
      (ap ok (put_options-pairs ((key, val) ∷ []) [] [] h d))
split_options-pairs_text (key, val) (q ∷ ps) h d =
    let semicolon : Lacks b';' (pairs_text ((key, val) ∷ q ∷ ps)) =
      join-Lacks b';' b'&' (map pair_text ((key, val) ∷ q ∷ ps)) refl
        (All-texts (Lacks b';') ((key, val) ∷ q ∷ ps) (λ p k. k.2) h) in
    let ampersand : All (Lacks b'&') (map pair_text ((key, val) ∷ q ∷ ps)) =
      All-texts (Lacks b'&') ((key, val) ∷ q ∷ ps) (λ p k. k.1) h in
    rw
      (
        contains-append b'&' (key ++ b'=' ∷ val) (pairs_text (q ∷ ps)) h.0.1,
        contains-none b';' (pairs_text ((key, val) ∷ q ∷ ps)) semicolon,
      )
      (ap (λ ts. ok (put_options ts (record { options = []; read_pref_tags = [] })))
          (split-join b'&' (pair_text (key, val)) (map pair_text (q ∷ ps)) ampersand)
        ∙ ap ok (put_options-pairs ((key, val) ∷ q ∷ ps) [] [] h d))
