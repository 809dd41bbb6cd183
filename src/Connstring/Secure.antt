-- ===== src/Connstring/Secure.antt =====
-- connstring.rs: connection strings of the scheme `mongodb+srv`.
use old_mongo_rust_driver.Prelude.{
  ◌≡◌, refl, ap, true, ◌&&◌, Option, none, some, List, [], ◌∷◌, ◌++◌, is_empty, arith, if_cases,
  ltb, length,
}
use old_mongo_rust_driver.Prelude.Text.{Text, text, text_eq_refl}
use old_mongo_rust_driver.Error.{Result, ok, err, ◌>>=◌}
use old_mongo_rust_driver.Connstring.Find.{is_some, contains, strip, rpartition, split}
use old_mongo_rust_driver.Connstring.Data.{
  Dns, ConnectionOptions, ConnectionProtocol, dns, hosts, ConnectionString, insert, get, num_hosts,
}
use old_mongo_rust_driver.Connstring.Parse.{
  uri_scheme_dns_seedlist, parse_dns_addr, parse_user_info, parse_protocol, Authority, with_user,
  parse_authority, Target, enable_ssl, or_default, assemble, located, parse_parts, split_path,
  parse,
}

get-insert : (k v : Text) (m : List (Text × Text)) → get k (insert k v m) ≡ some v
unfolding get insert
get-insert k v [] = rw (text_eq_refl k)
get-insert k v ((j, w) ∷ m) = ground (arith, text_eq_refl k, get-insert k v m)

-- The option `ssl` is there.
abbrev pub AsksSsl : Option ConnectionOptions → Type 0
AsksSsl none = ⊥
AsksSsl (some o) = is_some (get (text "ssl") o.options) ≡ true

enable_ssl-AsksSsl : (o : ConnectionOptions) → AsksSsl (some (enable_ssl o))
enable_ssl-AsksSsl o =
    if_cases (λ p. AsksSsl (some p)) (is_some (get (text "ssl") o.options)) _ _ (λ e. e)
      (λ e. ap is_some (get-insert (text "ssl") (text "true") o.options))

-- The hosts are to be discovered, none is known.
abbrev pub IsDns : ConnectionProtocol → Type 0
IsDns (dns d) = num_hosts (dns d) ≡ 0
IsDns (hosts hs) = ⊥

abbrev pub IsSecure : Option (Result ConnectionString) → Type 0
IsSecure none = Unit
IsSecure (some (err e)) = Unit
IsSecure (some (ok c)) = AsksSsl c.options × IsDns c.protocol

abbrev Seeds : Result ConnectionProtocol → Type 0
Seeds (err e) = Unit
Seeds (ok p) = IsDns p

abbrev IsNew : Result Dns → Type 0
IsNew (err e) = Unit
IsNew (ok d) = IsDns (dns d)

parse_dns_addr-IsNew : (s : Text) → IsNew (parse_dns_addr s)
unfolding parse_dns_addr num_hosts
parse_dns_addr-IsNew s =
    if_cases IsNew (ltb (length (split b'.' s)) 3) _ _ (λ e. tt)
      (λ e.
        if_cases IsNew (contains s (text ":")) _ _ (λ e. tt)
          (λ e. if_cases IsNew (contains s (text ",")) _ _ (λ e. tt) (λ e. refl)))

with_dns : (r : Result Dns) → IsNew r → Seeds (r >>= λ d. ok (dns d))
with_dns (err e) h = tt
with_dns (ok d) h = h

parse_protocol-Seeds : (s : Text) → Seeds (parse_protocol true s)
unfolding parse_protocol
parse_protocol-Seeds s = with_dns (parse_dns_addr s) (parse_dns_addr-IsNew s)

abbrev IsSeeded : Result Authority → Type 0
IsSeeded (err e) = Unit
IsSeeded (ok a) = IsDns a.protocol

seeded :
    (user password : Option Text) (p : Result ConnectionProtocol)
    → Seeds p
    → IsSeeded (p >>= λ q. ok (record { user = user; password = password; protocol = q }))
seeded user password (err e) h = tt
seeded user password (ok q) h = h

with_user-IsSeeded : (p : Text × Text) → IsSeeded (with_user true p)
with_user-IsSeeded (info, host) = by_info (parse_user_info info)
  where
    by_info :
        (i : Result (Text × Text))
        → IsSeeded (
            i >>= λ (user, password). parse_protocol true host >>= λ q.
            ok (record { user = some user; password = some password; protocol = q }))
    by_info (err e) = tt
    by_info (ok (user, password)) =
        seeded (some user) (some password) (parse_protocol true host) (parse_protocol-Seeds host)

parse_authority-IsSeeded : (s : Text) → IsSeeded (parse_authority true s)
unfolding parse_authority
parse_authority-IsSeeded s =
    if_cases IsSeeded (contains s (text "@")) _ _
      (λ e. with_user-IsSeeded (rpartition s (text "@")))
      (λ e. seeded none none (parse_protocol true s) (parse_protocol-Seeds s))

assemble-IsSecure :
    (address : Text) (a : Authority) (t : Target) (o : Option (Option ConnectionOptions))
    → IsDns a.protocol
    → IsSecure (assemble true address a t o)
unfolding assemble
assemble-IsSecure address a t none h = tt
assemble-IsSecure address a t (some o) h = (enable_ssl-AsksSsl (or_default o), h)

located-IsSecure :
    (address path : Text) (a : Result Authority)
    → IsSeeded a
    → IsSecure (located true address path a)
located-IsSecure address path (err e) h = tt
located-IsSecure address path (ok a) h = assemble-IsSecure address a _ _ h

parse_parts-IsSecure : (address : Text) (p : Text × Text) → IsSecure (parse_parts true address p)
unfolding parse_parts
parse_parts-IsSecure address (host, path) =
    if_cases IsSecure (is_empty path && contains host (text "?")) _ _ (λ e. tt)
      (λ e.
        located-IsSecure address path (parse_authority true host) (parse_authority-IsSeeded host))

-- Whatever follows the scheme `mongodb+srv`, a connection string that is made of it has the option `ssl`, and its
-- hosts are to be discovered: none is taken from the text.
pub parse-IsSecure : (s : Text) → IsSecure (parse (uri_scheme_dns_seedlist ++ s))
unfolding parse strip
parse-IsSecure s = parse_parts-IsSecure (uri_scheme_dns_seedlist ++ s) (split_path s)
