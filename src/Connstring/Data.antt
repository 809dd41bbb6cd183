-- ===== src/Connstring/Data.antt =====
-- connstring.rs: what a connection string is parsed into. A map of options is the list of its entries, each key once,
-- in the order in which the keys were first put in.
use old_mongo_rust_driver.Prelude.{
  ℕ, Option, none, some, List, [], ◌∷◌, ◌++◌, length, map, if◌then◌else◌,
}
use old_mongo_rust_driver.Prelude.Text.{Text, text, text_eq}
use old_mongo_rust_driver.Error.{Result, ok, ◌>>=◌}
use old_mongo_rust_driver.Connstring.Host.{Host, new}

pub record Dns : Type 0 where
  pub name : Text
  pub discovered_hosts : List Host

pub record ConnectionOptions : Type 0 where
  pub options : List (Text × Text)
  pub read_pref_tags : List Text

pub data ConnectionProtocol : Type 0 where
  dns : Dns → ConnectionProtocol
  hosts : List Host → ConnectionProtocol

-- The field `hosts` of the source is `protocol`.
pub record ConnectionString : Type 0 where
  pub protocol : ConnectionProtocol
  pub string : Option Text
  pub user : Option Text
  pub password : Option Text
  pub database : Option Text
  pub collection : Option Text
  pub options : Option ConnectionOptions

-- `DNS::new`
abbrev pub dns_of : Text → Dns
dns_of name = record { name = name; discovered_hosts = [] }

-- The lookup of the service records of a name, each a target and a port, is a parameter.
unfoldable pub discover_hosts : (Text → Result (List (Text × ℕ))) → Dns → Result Dns
discover_hosts lookup_srv d = lookup_srv (text "_mongodb._tcp." ++ d.name) >>= λ records.
    ok (record d {
      discovered_hosts = d.discovered_hosts ++ map (λ (target, port). new target port) records;
    })

unfoldable pub hosts_of : ConnectionProtocol → List Host
hosts_of (dns d) = d.discovered_hosts
hosts_of (hosts hs) = hs

unfoldable pub num_hosts : ConnectionProtocol → ℕ
num_hosts (dns d) = length d.discovered_hosts
num_hosts (hosts hs) = length hs

unfoldable pub with_host : Host → ConnectionString
with_host host = record {
  protocol = hosts (host ∷ []);
  string = none;
  user = none;
  password = none;
  database = some (text "test");
  collection = none;
  options = none;
}

abbrev pub with_address : Text → ℕ → ConnectionString
with_address host_name port = with_host (new host_name port)

-- `BTreeMap::insert` and `BTreeMap::get`
unfoldable pub insert : Text → Text → List (Text × Text) → List (Text × Text)
insert k v [] = (k, v) ∷ []
insert k v ((j, w) ∷ m) = if text_eq j k then (k, v) ∷ m else (j, w) ∷ insert k v m

unfoldable pub get : Text → List (Text × Text) → Option Text
get k [] = none
get k ((j, w) ∷ m) = if text_eq j k then some w else get k m
