-- ===== src/Connstring/RoundTrip.antt =====
-- connstring.rs: `parse` on a connection string that is put together from its parts.
use old_mongo_rust_driver.Prelude.{
  ℕ, ◌≡◌, refl, ap, ◌∙◌, false, some, List, [], ◌∷◌, ◌++◌, All, map, is_empty,
}
use old_mongo_rust_driver.Prelude.Text.{Text}
use old_mongo_rust_driver.Error.{ok}
use old_mongo_rust_driver.Connstring.Find.{strip}
use old_mongo_rust_driver.Connstring.Cuts.{
  Lacks, Lacks-append, partition-append, rpartition-append, contains-none, contains-append,
  split-join, join-Lacks, starts_with-none,
}
use old_mongo_rust_driver.Connstring.Data.{ConnectionOptions, hosts}
use old_mongo_rust_driver.Connstring.Options.{split_options}
use old_mongo_rust_driver.Connstring.Parse.{
  parse_user_info, parse_host, parse_entities, split_hosts, split_path, parse_protocol, Authority,
  parse_authority, named, parse_target, collect_options, assemble, parse_parts, parse,
}
use old_mongo_rust_driver.Connstring.Pairs.{
  pairs_text, IsPair, Distinct, plain, options_of, split_options-pairs_text,
}
use old_mongo_rust_driver.Connstring.Print.{
  Entry, entity, host_of, IsEntry, Uri, user_info, host_text, authority, path, address, print,
  IsPrintable, meant,
}

is_empty-append : (c : ℕ) (s t : Text) → is_empty (s ++ c ∷ t) ≡ false
is_empty-append c [] t = refl
is_empty-append c (x ∷ s) t = refl

parse_host-entity : (e : Entry) → IsEntry e → parse_host (entity e) ≡ ok (host_of e)
unfolding parse_host
parse_host-entity e h =
    rw
      (
        h.name_start,
        contains-append b':' e.name e.port_text h.name_colon,
        partition-append b':' e.name e.port_text h.name_colon,
      )
      (rw (contains-none b':' e.port_text h.port_colon, h.reads))

parse_entities-entities :
    (es : List Entry) → All IsEntry es → parse_entities (map entity es) ≡ ok (map host_of es)
unfolding parse_entities
parse_entities-entities [] h = refl
parse_entities-entities (e ∷ es) h = rw (
  is_empty-append b':' e.name e.port_text,
  parse_host-entity e h.0,
  parse_entities-entities es h.1,
)

All-entities :
    (P : Text → Type 0) (es : List Entry)
    → ((e : Entry) → IsEntry e → P (entity e))
    → All IsEntry es
    → All P (map entity es)
All-entities P [] f h = tt
All-entities P (e ∷ es) f h = (f e h.0, All-entities P es f h.1)

split_hosts-host_text :
    (u : Uri)
    → All IsEntry (u.entry ∷ u.entries)
    → split_hosts (host_text u) ≡ ok (map host_of (u.entry ∷ u.entries))
unfolding split_hosts
split_hosts-host_text u h =
    ap parse_entities (
      split-join b',' (entity u.entry) (map entity u.entries)
        (All-entities (Lacks b',') (u.entry ∷ u.entries) (λ e k. k.comma) h))
    ∙ parse_entities-entities (u.entry ∷ u.entries) h

parse_authority-authority :
    (u : Uri)
    → IsPrintable u
    → parse_authority false (authority u)
      ≡ ok (record {
        user = some u.user;
        password = some u.password;
        protocol = hosts (map host_of (u.entry ∷ u.entries));
      })
unfolding parse_authority parse_user_info parse_protocol
parse_authority-authority u h =
    rw
      (
        contains-append b'@' (user_info u) (host_text u) h.user_at,
        rpartition-append b'@' (user_info u) (host_text u) (
            join-Lacks b'@' b',' (map entity (u.entry ∷ u.entries)) refl
              (All-entities (Lacks b'@') (u.entry ∷ u.entries) (λ e k. k.at) h.all_entries)),
        rpartition-append b':' u.user u.password h.password_colon,
      )
      (rw (
        contains-none b'@' (user_info u) h.user_at,
        contains-none b':' u.user h.user_colon,
        h.user_some,
        split_hosts-host_text u h.all_entries,
      ))

parse_target-path :
    (u : Uri) → IsPrintable u → parse_target (path u) ≡ named (u.database, u.collection) u.opts
unfolding parse_target
parse_target-path u h =
    let base = u.database ++ b'.' ∷ u.collection in
    let lacks : Lacks b'?' base =
      Lacks-append b'?' u.database (b'.' ∷ u.collection) h.database_mark
        (refl, h.collection_mark) in
    rw (
      is_empty-append b'?' base u.opts,
      starts_with-none b'?' base (b'?' ∷ u.opts) lacks
          (is_empty-append b'.' u.database u.collection),
      partition-append b'?' base u.opts lacks,
      partition-append b'.' u.database u.collection h.database_dot,
    )

collected :
    (opts : Text) (o : ConnectionOptions)
    → is_empty opts ≡ false
    → split_options opts ≡ ok o
    → collect_options opts ≡ some (some o)
unfolding collect_options
collected opts o e h = rw (e, h)

split_path-address : (u : Uri) → IsPrintable u → split_path (address u) ≡ (authority u, path u)
unfolding split_path
split_path-address u h = rw h.no_socket (
    partition-append b'/' (authority u) (path u) (
      Lacks-append b'/' (user_info u) (b'@' ∷ host_text u) h.user_slash (
        refl,
        join-Lacks b'/' b',' (map entity (u.entry ∷ u.entries)) refl
            (All-entities (Lacks b'/') (u.entry ∷ u.entries) (λ e k. k.slash) h.all_entries),
      )))

abbrev pub credentials : Uri → Authority
credentials u = record {
  user = some u.user;
  password = some u.password;
  protocol = hosts (map host_of (u.entry ∷ u.entries));
}

-- What becomes of the parts depends on the options.
pub parse-assembled :
    (u : Uri)
    → IsPrintable u
    → parse (print u)
      ≡ assemble false
          (print u)
          (credentials u)
          (named (u.database, u.collection) u.opts)
          (collect_options u.opts)
unfolding parse strip parse_parts
parse-assembled u h =
    ap (parse_parts false (print u)) (split_path-address u h)
    ∙ rw (
      is_empty-append b'?' (u.database ++ b'.' ∷ u.collection) u.opts,
      parse_authority-authority u h,
      parse_target-path u h,
    )

-- With the text of these options.
abbrev pub with_pairs : Uri → List (Text × Text) → Uri
with_pairs u ps = record u { opts = pairs_text ps }

-- A connection string that is put together from a user, a password, hosts with ports, a database, a collection and
-- options is parsed into these parts: the host names in lower case, the values of the options
-- `readPreferenceTags`, in whatever case, as the list of tags, and all others as the options, each value under
-- its key. The user and the options are not empty, no two of the other options have one key, `.sock` stands
-- nowhere, no host starts with `[`, each port reads as its number, and no part
-- contains the separators that stand around it, nor an option `;`.
pub parse-print :
    (u : Uri) (p : Text × Text) (ps : List (Text × Text))
    → IsPrintable (with_pairs u (p ∷ ps))
    → All IsPair (p ∷ ps)
    → Distinct (plain (p ∷ ps))
    → parse (print (with_pairs u (p ∷ ps)))
      ≡ some (ok (meant (with_pairs u (p ∷ ps)) (options_of (p ∷ ps))))
unfolding assemble
parse-print u p ps h k d =
    parse-assembled (with_pairs u (p ∷ ps)) h
    ∙ rw (
        collected (pairs_text (p ∷ ps)) (options_of (p ∷ ps)) h.opts_some
          (split_options-pairs_text p ps k d))
