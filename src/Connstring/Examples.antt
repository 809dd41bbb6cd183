-- ===== src/Connstring/Examples.antt =====
-- connstring.rs: the definitions on concrete connection strings, and the theorems applied to them.
use old_mongo_rust_driver.Prelude.{◌≡◌, refl, none, some, [], ◌∷◌, ◌++◌, length, ◌≤◌, List, All}
use old_mongo_rust_driver.Prelude.Text.{Text, text, text_eq}
use old_mongo_rust_driver.Error.{argument_error, ok, err}
use old_mongo_rust_driver.Connstring.Host.{default_port, new}
use old_mongo_rust_driver.Connstring.Find.{
  strip, cut_first, cut_last, partition, rsplit, split, lower_byte, to_ascii_lowercase, more_of_u16,
  digits_of_u16, parse_u16,
}
use old_mongo_rust_driver.Connstring.Data.{
  dns, dns_of, hosts, discover_hosts, ConnectionOptions, with_host, with_address, insert, get,
}
use old_mongo_rust_driver.Connstring.Options.{put_options, parse_options, split_options}
use old_mongo_rust_driver.Connstring.Parse.{
  uri_scheme_dns_seedlist, parse_dns_addr, parse_host, parse_entities, split_hosts, split_path,
  parse_protocol, parse_authority, parse_target, collect_options, assemble, parse_parts, parse,
}
use old_mongo_rust_driver.Connstring.Print.{Entry, Uri, IsEntry, IsPrintable, print, meant}
use old_mongo_rust_driver.Connstring.RoundTrip.{with_pairs, parse-print}
use old_mongo_rust_driver.Connstring.Pairs.{IsPair, Distinct, plain, options_of}
use old_mongo_rust_driver.Connstring.Errors.{
  IsRead, split_hosts-IsRead, parse_host_keeps_bracket, parse_panics,
}
use old_mongo_rust_driver.Connstring.Secure.{IsSecure, parse-IsSecure}

abbrev entry : Entry
entry = record { name = text "H"; port_text = text "80"; port = 80 }

abbrev uri : Uri
uri = record {
  user = text "u";
  password = text "p";
  entry = entry;
  entries = entry ∷ [];
  database = text "d";
  collection = text "c";
  opts = text "a=1&b=2";
}

abbrev bad_uri : Uri
bad_uri = record uri { opts = text "a" }

abbrev two_options : ConnectionOptions
two_options = record {
  options = (text "a", text "1") ∷ (text "b", text "2") ∷ [];
  read_pref_tags = [];
}

entry-IsEntry : IsEntry entry
unfolding strip cut_first parse_u16 digits_of_u16 more_of_u16
entry-IsEntry = record {
  name_start = refl;
  name_colon = (refl, tt);
  port_colon = (refl, (refl, tt));
  comma = (refl, (refl, (refl, (refl, tt))));
  at = (refl, (refl, (refl, (refl, tt))));
  slash = (refl, (refl, (refl, (refl, tt))));
  reads = refl;
}

uri-IsPrintable : IsPrintable uri
unfolding strip cut_first
uri-IsPrintable = record {
  user_some = refl;
  user_colon = (refl, tt);
  password_colon = (refl, tt);
  user_at = (refl, (refl, (refl, tt)));
  user_slash = (refl, (refl, (refl, tt)));
  all_entries = (entry-IsEntry, (entry-IsEntry, tt));
  database_dot = (refl, tt);
  database_mark = (refl, tt);
  collection_mark = (refl, tt);
  opts_some = refl;
  no_socket = refl;
}

bad_uri-IsPrintable : IsPrintable bad_uri
unfolding strip cut_first
bad_uri-IsPrintable = record {
  user_some = refl;
  user_colon = (refl, tt);
  password_colon = (refl, tt);
  user_at = (refl, (refl, (refl, tt)));
  user_slash = (refl, (refl, (refl, tt)));
  all_entries = (entry-IsEntry, (entry-IsEntry, tt));
  database_dot = (refl, tt);
  database_mark = (refl, tt);
  collection_mark = (refl, tt);
  opts_some = refl;
  no_socket = refl;
}

options_read : split_options uri.opts ≡ ok two_options
unfolding split_options parse_options put_options strip cut_first partition split insert
    to_ascii_lowercase lower_byte text_eq
options_read = refl

options_bad :
    split_options bad_uri.opts
    ≡ err (argument_error "InvalidURI: MongoDB URI options are key=value pairs.")
unfolding split_options strip cut_first
options_bad = refl

eighty : parse_u16 (text "80") ≡ some 80
unfolding parse_u16 digits_of_u16 more_of_u16
eighty = refl

abbrev pairs : List (Text × Text)
pairs = (text "b", text "2") ∷ []

pairs-IsPair : All IsPair ((text "a", text "1") ∷ pairs)
pairs-IsPair = (
  ((refl, tt), (refl, (refl, (refl, tt))), (refl, (refl, (refl, tt)))),
  (((refl, tt), (refl, (refl, (refl, tt))), (refl, (refl, (refl, tt)))), tt),
)

pairs-Distinct : Distinct (plain ((text "a", text "1") ∷ pairs))
unfolding text_eq to_ascii_lowercase lower_byte
pairs-Distinct = ((refl, tt), (tt, tt))

parse-print_example :
    parse (print (with_pairs uri ((text "a", text "1") ∷ pairs)))
    ≡ some (
        ok (
          meant
            (with_pairs uri ((text "a", text "1") ∷ pairs))
            (options_of ((text "a", text "1") ∷ pairs))))
parse-print_example =
    parse-print uri (text "a", text "1") pairs uri-IsPrintable pairs-IsPair pairs-Distinct

options_meant : options_of ((text "a", text "1") ∷ pairs) ≡ two_options
unfolding text_eq to_ascii_lowercase lower_byte
options_meant = refl

bad_options_panic : parse (print bad_uri) ≡ none
bad_options_panic = parse_panics bad_uri _ bad_uri-IsPrintable options_bad

bracket_kept :
    (parse_host (text "[::1]") ≡ ok (new (to_ascii_lowercase (text "::1]")) default_port))
    × (parse_host (text "[::1]:80") ≡ ok (new (to_ascii_lowercase (text "::1")) 80))
bracket_kept =
    parse_host_keeps_bracket (text "::1") (text "80") 80 (refl, (refl, (refl, tt))) eighty

split_hosts-IsRead_example :
    (1 ≤ length (split b',' (text "a:1,b")))
    × IsRead (length (split b',' (text "a:1,b"))) (split_hosts (text "a:1,b"))
split_hosts-IsRead_example = split_hosts-IsRead (text "a:1,b")

parse-IsSecure_example : IsSecure (parse (uri_scheme_dns_seedlist ++ text "a.b.c/?x=1"))
parse-IsSecure_example = parse-IsSecure (text "a.b.c/?x=1")

two_hosts : split_hosts (text "a:1,B") ≡ ok (new (text "a") 1 ∷ new (text "b") 27017 ∷ [])
unfolding split_hosts parse_entities parse_host strip cut_first partition split to_ascii_lowercase
    lower_byte parse_u16 digits_of_u16 more_of_u16
two_hosts = refl

seed :
    parse (text "mongodb+srv://a.b.c/?x=1")
    ≡ some (
        ok (record {
          protocol = dns (dns_of (text "a.b.c"));
          string = some (text "mongodb+srv://a.b.c/?x=1");
          user = none;
          password = none;
          database = some (text "test");
          collection = none;
          options = some (record {
            options = (text "x", text "1") ∷ (text "ssl", text "true") ∷ [];
            read_pref_tags = [];
          });
        }))
unfolding parse parse_parts split_path parse_authority parse_protocol parse_dns_addr parse_target
    collect_options assemble split_options parse_options put_options strip cut_first partition split
    insert get to_ascii_lowercase lower_byte text_eq
seed = refl

discovered :
    discover_hosts (λ name. ok ((text "h", 7) ∷ [])) (dns_of (text "a.b.c"))
    ≡ ok (record { name = text "a.b.c"; discovered_hosts = new (text "h") 7 ∷ [] })
unfolding discover_hosts
discovered = refl

mixed_options :
    split_options (text "a=1&b=2;c=3")
    ≡ err (argument_error "Cannot mix '&' and ';' for option separators.")
unfolding split_options strip cut_first
mixed_options = refl

socket : split_path (text "/tmp/a.sock/db") ≡ (text "/tmp/a.sock", text "db")
unfolding split_path strip cut_first cut_last rsplit
socket = refl

local : (with_address (text "localhost") 1).protocol ≡ hosts (new (text "localhost") 1 ∷ [])
unfolding with_host
local = refl
