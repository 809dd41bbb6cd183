-- ===== src/Connstring/Parse.antt =====
-- connstring.rs: the parsing of a connection string. `none` is a panic.
use old_mongo_rust_driver.Prelude.{
  ℕ, Bool, true, false, ◌&&◌, ◌||◌, Option, none, some, List, [], ◌∷◌, length, is_empty, ltb,
  if◌then◌else◌,
}
use old_mongo_rust_driver.Prelude.Text.{Text, text}
use old_mongo_rust_driver.Error.{Error, argument_error, Result, ok, err, ◌>>=◌}
use old_mongo_rust_driver.Connstring.Host.{Host, default_port, new, with_ipc}
use old_mongo_rust_driver.Connstring.Find.{
  is_some, starts_with, strip, cut_first, contains, partition, rpartition, rsplit, split,
  to_ascii_lowercase, parse_u16, Parts,
}
use old_mongo_rust_driver.Connstring.Data.{
  Dns, dns_of, ConnectionOptions, ConnectionProtocol, dns, hosts, ConnectionString, insert, get,
}
use old_mongo_rust_driver.Connstring.Options.{split_options}

-- URI_SCHEME and URI_SCHEME_DNS_SEEDLIST
abbrev pub uri_scheme : Text
uri_scheme = text "mongodb://"

abbrev pub uri_scheme_dns_seedlist : Text
uri_scheme_dns_seedlist = text "mongodb+srv://"

unfoldable pub parse_dns_addr : Text → Result Dns
parse_dns_addr s =
    if ltb (length (split b'.' s)) 3
    then err (argument_error "DNS must consists of a least a hostname, a domain name and a TLD")
    else if contains s (text ":")
    then err (argument_error "Connection string using DNS MUST not contains a port")
    else if contains s (text ",")
    then err (argument_error "Connection string using DNS can't contains more than one host name")
    else ok (dns_of s)

abbrev pub check_user_info : Text → Text × Text → Result (Text × Text)
check_user_info info (user, password) =
    if contains info (text "@") || contains user (text ":")
    then err (
        argument_error
          "':' or '@' characters in a username or password must be escaped according to RFC 2396.")
    else if is_empty user
    then err (argument_error "The empty string is not a valid username.")
    else ok (user, password)

unfoldable pub parse_user_info : Text → Result (Text × Text)
parse_user_info info = check_user_info info (rpartition info (text ":"))

abbrev pub host_on : Error → Text → Option ℕ → Result Host
host_on e name (some port) = ok (new (to_ascii_lowercase name) port)
host_on e name none = err e

-- Behind the first byte.
abbrev pub tail : Text → Text
tail [] = []
tail (c ∷ s) = s

-- The name in brackets is `entity[1..idx]`; without a port it is `entity[1..]`, with the closing bracket.
abbrev pub bracketed : Text → Parts → Result Host
bracketed entity (some (a, port)) =
    host_on (argument_error "Port must be an integer.") (tail a) (parse_u16 port)
bracketed entity none = ok (new (to_ascii_lowercase (tail entity)) default_port)

unfoldable pub parse_ipv6_literal_host : Text → Result Host
parse_ipv6_literal_host entity =
    if contains entity (text "]")
    then bracketed entity (cut_first (text "]:") entity)
    else err
        (argument_error "An IPv6 address must be enclosed in '[' and ']' according to RFC 2732.")

abbrev pub host_and_port : Text × Text → Result Host
host_and_port (host, port) =
    if contains port (text ":")
    then err (
        argument_error
          "Reserved characters such as ':' must\n                        be escaped according to RFC 2396. An IPv6 address literal\n                        must be enclosed in '[' and according to RFC 2732.")
    else host_on (argument_error "Port must be an unsigned integer.") host (parse_u16 port)

unfoldable pub parse_host : Text → Result Host
parse_host entity =
    if starts_with entity (text "[")
    then parse_ipv6_literal_host entity
    else if contains entity (text ":")
    then host_and_port (partition entity (text ":"))
    else if contains entity (text ".sock")
    then ok (with_ipc (to_ascii_lowercase entity))
    else ok (new (to_ascii_lowercase entity) default_port)

-- The loop over the entities.
unfoldable pub parse_entities : List Text → Result (List Host)
parse_entities [] = ok []
parse_entities (e ∷ es) =
    let rest = parse_entities es in
    if is_empty e
    then err (argument_error "Empty host, or extra comma in host list.")
    else parse_host e >>= λ h. rest >>= λ hs. ok (h ∷ hs)

unfoldable pub split_hosts : Text → Result (List Host)
split_hosts s = parse_entities (split b',' s)

-- The host part and the path.
abbrev pub behind_slash : Text × Text → Text × Text
behind_slash (host, path) = if starts_with path (text "/") then (host, tail path) else (host, path)

unfoldable pub split_path : Text → Text × Text
split_path addr =
    if contains addr (text ".sock")
    then behind_slash (rsplit addr (text ".sock"))
    else partition addr (text "/")

unfoldable pub parse_protocol : Bool → Text → Result ConnectionProtocol
parse_protocol true s = parse_dns_addr s >>= λ d. ok (dns d)
parse_protocol false s = split_hosts s >>= λ hs. ok (hosts hs)

-- The credentials and the hosts.
pub record Authority : Type 0 where
  pub user : Option Text
  pub password : Option Text
  pub protocol : ConnectionProtocol

abbrev pub with_user : Bool → Text × Text → Result Authority
with_user seedlist (info, host) = parse_user_info info >>= λ (user, password).
    parse_protocol seedlist host >>= λ p.
    ok (record { user = some user; password = some password; protocol = p })

unfoldable pub parse_authority : Bool → Text → Result Authority
parse_authority seedlist s =
    if contains s (text "@")
    then with_user seedlist (rpartition s (text "@"))
    else parse_protocol seedlist s >>= λ p.
        ok (record { user = none; password = none; protocol = p })

-- The database, the collection and the text of the options.
pub record Target : Type 0 where
  pub database : Option Text
  pub collection : Option Text
  pub opts : Text

abbrev pub named : Text × Text → Text → Target
named (database, collection) opts = record {
  database = some database;
  collection = some collection;
  opts = opts;
}

unfoldable pub parse_target : Text → Target
parse_target path =
    if is_empty path
    then record { database = some (text "test"); collection = none; opts = [] }
    else if starts_with path (text "?")
    then record { database = some (text "test"); collection = none; opts = tail path }
    else let (base, opts) = partition path (text "?") in named (partition base (text ".")) opts

abbrev pub unwrap : Result ConnectionOptions → Option (Option ConnectionOptions)
unwrap (ok o) = some (some o)
unwrap (err e) = none

-- The options, whose errors are unwrapped.
unfoldable pub collect_options : Text → Option (Option ConnectionOptions)
collect_options opts = if is_empty opts then some none else unwrap (split_options opts)

abbrev pub or_default : Option ConnectionOptions → ConnectionOptions
or_default none = record { options = []; read_pref_tags = [] }
or_default (some o) = o

abbrev pub enable_ssl : ConnectionOptions → ConnectionOptions
enable_ssl o =
    if is_some (get (text "ssl") o.options)
    then o
    else record o { options = insert (text "ssl") (text "true") o.options }

abbrev pub implied : Bool → Option ConnectionOptions → Option ConnectionOptions
implied true o = some (enable_ssl (or_default o))
implied false o = o

unfoldable pub assemble :
    Bool
    → Text
    → Authority
    → Target
    → Option (Option ConnectionOptions)
    → Option (Result ConnectionString)
assemble seedlist address a t none = none
assemble seedlist address a t (some o) = some (
    ok (record {
      protocol = a.protocol;
      string = some address;
      user = a.user;
      password = a.password;
      database = t.database;
      collection = t.collection;
      options = implied seedlist o;
    }))

abbrev pub located : Bool → Text → Text → Result Authority → Option (Result ConnectionString)
located seedlist address path (err e) = some (err e)
located seedlist address path (ok a) =
    let t = parse_target path in assemble seedlist address a t (collect_options t.opts)

unfoldable pub parse_parts : Bool → Text → Text × Text → Option (Result ConnectionString)
parse_parts seedlist address (host, path) =
    if is_empty path && contains host (text "?")
    then some (err (argument_error "A '/' is required between the host list and any options."))
    else located seedlist address path (parse_authority seedlist host)

abbrev pub parse_scheme : Text → Option Text → Option Text → Option (Result ConnectionString)
parse_scheme address (some addr) _ = parse_parts true address (split_path addr)
parse_scheme address none (some addr) = parse_parts false address (split_path addr)
parse_scheme address none none = some (
    err (
      argument_error "MongoDB connection string must start with 'mongodb://' or 'mongodb+srv://'."))

unfoldable pub parse : Text → Option (Result ConnectionString)
parse address =
    parse_scheme address (strip uri_scheme_dns_seedlist address) (strip uri_scheme address)
