-- ===== src/Topology/Answer.antt =====
-- topology/monitor.rs: `IsMasterResult::new`, the reading of an isMaster answer. A float is its 64 bits. The
-- reading of an object id from a string is the bson crate's.
use old_mongo_rust_driver.Prelude.{
  ℕ, Bool, false, not, ◌||◌, ◌==◌, Option, none, some, List, [], ◌∷◌,
}
use old_mongo_rust_driver.Prelude.Int.{ℤ, pos, negsuc, eqb_ℤ}
use old_mongo_rust_driver.Prelude.Text.{Text, text}
use old_mongo_rust_driver.Error.{argument_error, Result, ok, err, ◌>>=◌}
use old_mongo_rust_driver.Bson.{
  Bson, Values, nil, cons, Document, end, field, floating_point, object_id, string, array, document,
  boolean, i32, i64, utc_datetime, get,
}
use old_mongo_rust_driver.Connstring.Host.{Host}
use old_mongo_rust_driver.Connstring.Data.{insert}
use old_mongo_rust_driver.Connstring.Parse.{parse_host}
use old_mongo_rust_driver.Topology.Server.{IsMasterResult}

-- `v != 0.0` is false of both zeros.
abbrev pub is_zero_float : ℕ → Bool
is_zero_float v = v == 0 || v == 9223372036854775808

unfoldable pub read_ok : Option Bson → Result Bool
read_ok (some (i32 v)) = ok (not (eqb_ℤ v (pos 0)))
read_ok (some (i64 v)) = ok (not (eqb_ℤ v (pos 0)))
read_ok (some (floating_point v)) = ok (not (is_zero_float v))
read_ok _ = err (argument_error "result does not contain `ok`.")

-- DEFAULT_MAX_BSON_OBJECT_SIZE and DEFAULT_MAX_MESSAGE_SIZE_BYTES
abbrev pub default_max_bson_object_size : ℤ
default_max_bson_object_size = pos 16777216

abbrev pub default_max_message_size_bytes : ℤ
default_max_message_size_bytes = pos 48000000

unfoldable pub bool_or : Bool → Option Bson → Bool
bool_or b (some (boolean c)) = c
bool_or b _ = b

unfoldable pub i64_or : ℤ → Option Bson → ℤ
i64_or z (some (i64 v)) = v
i64_or z _ = z

unfoldable pub some_i64 : Option Bson → Option ℤ
some_i64 (some (i64 v)) = some v
some_i64 _ = none

unfoldable pub some_time : Option Bson → Option ℤ
some_time (some (utc_datetime t)) = some t
some_time _ = none

unfoldable pub text_or_empty : Option Bson → Text
text_or_empty (some (string s)) = s
text_or_empty _ = []

abbrev pub found_host : Result Host → Result (Option Host)
found_host r = r >>= λ h. ok (some h)

unfoldable pub some_host : Option Bson → Result (Option Host)
some_host (some (string s)) = found_host (parse_host s)
some_host _ = ok none

abbrev pub add_host : Result Host → List Host → List Host
add_host (ok h) hs = h ∷ hs
add_host (err e) hs = hs

unfoldable pub hosts_in : Values → List Host
hosts_in nil = []
hosts_in (cons (string s) vs) = add_host (parse_host s) (hosts_in vs)
hosts_in (cons _ vs) = hosts_in vs

unfoldable pub hosts_or_empty : Option Bson → List Host
hosts_or_empty (some (array vs)) = hosts_in vs
hosts_or_empty _ = []

unfoldable pub tags_in : Document → List (Text × Text) → List (Text × Text)
tags_in end m = m
tags_in (field k (string tag) rest) m = tags_in rest (insert k tag m)
tags_in (field k _ rest) m = tags_in rest m

unfoldable pub tags_or_empty : Option Bson → List (Text × Text)
tags_or_empty (some (document d)) = tags_in d []
tags_or_empty _ = []

module _ (with_string : Text → Result ℕ) where
  abbrev pub some_oid : Option Bson → Result (Option ℕ)
  some_oid (some (string s)) = with_string s >>= λ id. ok (some id)
  some_oid _ = ok none

  unfoldable pub read_election_id : Option Bson → Result (Option ℕ)
  read_election_id (some (object_id id)) = ok (some id)
  read_election_id (some (document d)) = some_oid (get (text "$oid") d)
  read_election_id _ = ok none

  unfoldable pub new : Document → Result IsMasterResult
  new d = read_ok (get (text "ok") d) >>= λ is_ok. some_host (get (text "me") d) >>= λ me.
      some_host (get (text "primary") d) >>= λ primary.
      read_election_id (get (text "electionId") d) >>= λ election_id. ok (record {
        is_ok = is_ok;
        is_master = bool_or false (get (text "ismaster") d);
        max_bson_object_size = default_max_bson_object_size;
        max_message_size_bytes = default_max_message_size_bytes;
        local_time = some_time (get (text "localTime") d);
        min_wire_version = i64_or (negsuc 0) (get (text "minWireVersion") d);
        max_wire_version = i64_or (negsuc 0) (get (text "maxWireVersion") d);
        msg = text_or_empty (get (text "msg") d);
        is_replica_set = bool_or false (get (text "isreplicaset") d);
        is_secondary = bool_or false (get (text "secondary") d);
        me = me;
        hosts = hosts_or_empty (get (text "hosts") d);
        passives = hosts_or_empty (get (text "passives") d);
        arbiters = hosts_or_empty (get (text "arbiters") d);
        arbiter_only = bool_or false (get (text "arbiterOnly") d);
        tags = tags_or_empty (get (text "tags") d);
        set_name = text_or_empty (get (text "setName") d);
        election_id = election_id;
        primary = primary;
        hidden = bool_or false (get (text "hidden") d);
        set_version = some_i64 (get (text "setVersion") d);
      })
