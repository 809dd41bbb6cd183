-- ===== src/Connstring/Errors.antt =====
-- connstring.rs: what holds of every host list that is read, bad options, and IPv6 literals.
use old_mongo_rust_driver.Prelude.{
  ℕ, ◌+◌, ◌-◌, ◌*◌, ◌≤◌, ◌<◌, ◌≡◌, refl, ◌∙◌, subst, false, ◌&&◌, Option, none, some, List, [], ◌∷◌,
  ◌++◌, ◌==◌, All, arith, is_empty, ltb, ltb→lt, length, if_cases, and-eq-true,
}
use old_mongo_rust_driver.Prelude.Text.{Text, text}
use old_mongo_rust_driver.Error.{Error, Result, ok, err, ◌>>=◌}
use old_mongo_rust_driver.Connstring.Host.{Host, new, with_ipc, default_port}
use old_mongo_rust_driver.Connstring.Find.{
  strip, starts_with, contains, cut_first, partition, split, cons_part, to_ascii_lowercase,
  parse_u16, more_of_u16, digits_of_u16, is_digit, Parts,
}
use old_mongo_rust_driver.Connstring.Cuts.{Lacks, contains-append}
use old_mongo_rust_driver.Connstring.Options.{split_options}
use old_mongo_rust_driver.Connstring.Parse.{
  host_on, tail, bracketed, parse_ipv6_literal_host, host_and_port, parse_host, parse_entities,
  split_hosts, collect_options, assemble, parse,
}
use old_mongo_rust_driver.Connstring.Print.{Uri, IsPrintable, print}
use old_mongo_rust_driver.Connstring.RoundTrip.{parse-assembled}

-- A port that is read is a `u16`.
abbrev pub IsPort : Option ℕ → Type 0
IsPort none = Unit
IsPort (some n) = n < 65536

more_of_u16-IsPort : (s : Text) (n : ℕ) → n < 65536 → IsPort (more_of_u16 s n)
unfolding more_of_u16
more_of_u16-IsPort [] n h = h
more_of_u16-IsPort (c ∷ s) n h =
    let next = n * 10 + (c - b'0') in
    if_cases IsPort (is_digit c && ltb next 65536) (more_of_u16 s next) none
      (λ e. more_of_u16-IsPort s next (ltb→lt _ _ (and-eq-true _ _ e).1)) (λ e. tt)

digits_of_u16-IsPort : (s : Text) → IsPort (digits_of_u16 s)
unfolding digits_of_u16
digits_of_u16-IsPort [] = tt
digits_of_u16-IsPort (c ∷ s) = more_of_u16-IsPort (c ∷ s) 0 (omega arith)

parse_u16-IsPort : (s : Text) → IsPort (parse_u16 s)
unfolding parse_u16
parse_u16-IsPort [] = tt
parse_u16-IsPort (c ∷ s) =
    if_cases IsPort (c == b'+') _ _ (λ e. digits_of_u16-IsPort s)
      (λ e. digits_of_u16-IsPort (c ∷ s))

abbrev HasPort : Result Host → Type 0
HasPort (ok h) = h.port < 65536
HasPort (err e) = Unit

host_on-HasPort : (e : Error) (s : Text) (p : Option ℕ) → IsPort p → HasPort (host_on e s p)
unfolding new
host_on-HasPort e s none h = tt
host_on-HasPort e s (some n) h = h

bracketed-HasPort : (s : Text) (p : Parts) → HasPort (bracketed s p)
unfolding new
bracketed-HasPort s none = omega arith
bracketed-HasPort s (some (a, port)) =
    host_on-HasPort _ (tail a) (parse_u16 port) (parse_u16-IsPort port)

host_and_port-HasPort : (p : Text × Text) → HasPort (host_and_port p)
host_and_port-HasPort (host, port) =
    if_cases HasPort (contains port (text ":")) _ _ (λ e. tt)
      (λ e. host_on-HasPort _ host (parse_u16 port) (parse_u16-IsPort port))

parse_host-HasPort : (s : Text) → HasPort (parse_host s)
unfolding parse_host parse_ipv6_literal_host new with_ipc
parse_host-HasPort s =
    if_cases HasPort (starts_with s (text "[")) _ _
      (λ e.
        if_cases HasPort (contains s (text "]")) _ _
          (λ e. bracketed-HasPort s (cut_first (text "]:") s)) (λ e. tt))
      (λ e.
        if_cases HasPort (contains s (text ":")) _ _
          (λ e. host_and_port-HasPort (partition s (text ":")))
          (λ e.
            if_cases HasPort (contains s (text ".sock")) _ _ (λ e. omega arith) (λ e. omega arith)))

-- What a list of hosts is like that was read from `n` entities.
abbrev pub IsRead : ℕ → Result (List Host) → Type 0
IsRead n (ok hs) = (length hs ≡ n) × All (λ h. h.port < 65536) hs
IsRead n (err e) = Unit

add_host :
    (n : ℕ) (h : Result Host) (rest : Result (List Host))
    → HasPort h
    → IsRead n rest
    → IsRead (1 + n) (h >>= λ x. rest >>= λ xs. ok (x ∷ xs))
add_host n (err e) rest a b = tt
add_host n (ok h) (err e) a b = tt
add_host n (ok h) (ok hs) a b = (omega (arith, b.0), (a, b.1))

parse_entities-IsRead : (es : List Text) → IsRead (length es) (parse_entities es)
unfolding parse_entities
parse_entities-IsRead [] = (refl, tt)
parse_entities-IsRead (e ∷ es) =
    if_cases (IsRead (length (e ∷ es))) (is_empty e) _ _ (λ q. tt)
      (λ q.
        subst (λ n. IsRead n (parse_host e >>= λ h. parse_entities es >>= λ hs. ok (h ∷ hs)))
          (omega arith)
          (add_host (length es) (parse_host e) (parse_entities es) (parse_host-HasPort e)
            (parse_entities-IsRead es)))

one_part : (c : ℕ) (s : Text) → 1 ≤ length (split c s)
unfolding split
one_part c [] = omega arith
one_part c (x ∷ s) =
    if_cases (λ (ps : List Text). 1 ≤ length ps) (c == x) _ _ (λ e. omega arith)
      (λ e. some_part (split c s))
  where
    some_part : (ps : List Text) → 1 ≤ length (cons_part x ps)
    some_part [] = omega arith
    some_part (p ∷ ps) = omega arith

-- Whatever text is read as a list of hosts, there is a host for each part between commas, so at least one, and
-- every port is below 2 ^ 16.
pub split_hosts-IsRead :
    (s : Text) → (1 ≤ length (split b',' s)) × IsRead (length (split b',' s)) (split_hosts s)
unfolding split_hosts
split_hosts-IsRead s = (one_part b',' s, parse_entities-IsRead (split b',' s))

-- The end of an IPv6 literal, with and without a port.
strip_two : (c d x : ℕ) (s : Text) → (c == x) ≡ false → strip (c ∷ d ∷ []) (x ∷ s) ≡ none
unfolding strip
strip_two c d x s e = rw e

closing : (s : Text) → Lacks b']' s → cut_first (text "]:") (s ++ b']' ∷ []) ≡ none
unfolding cut_first strip
closing [] h = refl
closing (x ∷ s) h = rw (strip_two b']' b':' x (s ++ b']' ∷ []) h.0, closing s h.1)

closing_port :
    (s port : Text)
    → Lacks b']' s
    → cut_first (text "]:") (s ++ b']' ∷ b':' ∷ port) ≡ some (s, port)
unfolding cut_first strip
closing_port [] port h = refl
closing_port (x ∷ s) port h =
    rw (strip_two b']' b':' x (s ++ b']' ∷ b':' ∷ port) h.0, closing_port s port h.1)

-- An IPv6 literal that is not followed by a port keeps its closing bracket in the host name; with a port it is
-- the name without the brackets.
pub parse_host_keeps_bracket :
    (s port : Text) (n : ℕ)
    → Lacks b']' s
    → parse_u16 port ≡ some n
    → (parse_host (b'[' ∷ s ++ b']' ∷ [])
        ≡ ok (new (to_ascii_lowercase (s ++ b']' ∷ [])) default_port))
      × (parse_host (b'[' ∷ s ++ b']' ∷ b':' ∷ port) ≡ ok (new (to_ascii_lowercase s) n))
unfolding parse_host parse_ipv6_literal_host strip
parse_host_keeps_bracket s port n h q = (
  rw (contains-append b']' (b'[' ∷ s) [] (refl, h), closing (b'[' ∷ s) (refl, h)),
  rw (
    contains-append b']' (b'[' ∷ s) (b':' ∷ port) (refl, h),
    closing_port (b'[' ∷ s) port (refl, h),
    q,
  ),
)

-- Where `split_options` gives an error for the options of a printable connection string (with a user, hosts with
-- ports and a path, in which no part contains a separator around it), `parse` panics and gives no error.
pub parse_panics :
    (u : Uri) (e : Error) → IsPrintable u → split_options u.opts ≡ err e → parse (print u) ≡ none
unfolding assemble collect_options
parse_panics u e h q = parse-assembled u h ∙ rw (h.opts_some, q)
