-- ===== src/Topology/Server.antt =====
-- mongodb-cwal-rs-master/src/topology/server.rs, and `IsMasterResult` of topology/monitor.rs.
-- An ObjectId is the number that its twelve bytes spell, most significant first, which has the order
-- of the bytes. A tag map is the list of its entries.
use old_mongo_rust_driver.Prelude.{
  ℕ, Bool, true, false, not, ◌&&◌, Option, none, some, List, [], if◌then◌else◌, is_empty,
}
use old_mongo_rust_driver.Prelude.Int.{ℤ, pos, ◌+ℤ◌, div_trunc, scale}
use old_mongo_rust_driver.Prelude.Text.{Text, text, text_eq}
use old_mongo_rust_driver.Error.{Error, operation_error, Result, ok}
use old_mongo_rust_driver.Connstring.Host.{Host}

pub data ServerType : Type 0 where
  standalone mongos rs_primary rs_secondary rs_arbiter rs_other rs_ghost unknown : ServerType

pub ServerType-discrete : Discrete ServerType
ServerType-discrete = hlevel

abbrev pub is_primary : ServerType → Bool
is_primary rs_primary = true
is_primary _ = false

abbrev pub is_unknown : ServerType → Bool
is_unknown unknown = true
is_unknown _ = false

-- `FromStr::from_str`, which never fails
unfoldable pub from_str : Text → Result ServerType
from_str s = ok (
    if text_eq s (text "Standalone")
    then standalone
    else if text_eq s (text "Mongos")
    then mongos
    else if text_eq s (text "RSPrimary")
    then rs_primary
    else if text_eq s (text "RSSecondary")
    then rs_secondary
    else if text_eq s (text "RSArbiter")
    then rs_arbiter
    else if text_eq s (text "RSOther")
    then rs_other
    else if text_eq s (text "RSGhost")
    then rs_ghost
    else unknown)

pub record ServerDescription : Type 0 where
  pub server_type : ServerType
  pub error : Option Error
  pub round_trip_time : Option ℤ
  pub min_wire_version : ℤ
  pub max_wire_version : ℤ
  pub me : Option Host
  pub hosts : List Host
  pub passives : List Host
  pub arbiters : List Host
  pub tags : List (Text × Text)
  pub set_name : Text
  pub election_id : Option ℕ
  pub primary : Option Host
  pub set_version : Option ℤ

pub record IsMasterResult : Type 0 where
  pub is_ok : Bool
  pub is_master : Bool
  pub max_bson_object_size : ℤ
  pub max_message_size_bytes : ℤ
  pub local_time : Option ℤ
  pub min_wire_version : ℤ
  pub max_wire_version : ℤ
  pub msg : Text
  pub is_replica_set : Bool
  pub is_secondary : Bool
  pub me : Option Host
  pub hosts : List Host
  pub passives : List Host
  pub arbiters : List Host
  pub arbiter_only : Bool
  pub tags : List (Text × Text)
  pub set_name : Text
  pub election_id : Option ℕ
  pub primary : Option Host
  pub hidden : Bool
  pub set_version : Option ℤ

-- `ServerDescription::new`, the derived default
abbrev pub new : ServerDescription
new = record {
  server_type = unknown;
  error = none;
  round_trip_time = none;
  min_wire_version = pos 0;
  max_wire_version = pos 0;
  me = none;
  hosts = [];
  passives = [];
  arbiters = [];
  tags = [];
  set_name = [];
  election_id = none;
  primary = none;
  set_version = none;
}

unfoldable pub clear : ServerDescription → ServerDescription
clear d = record d {
  election_id = none;
  round_trip_time = none;
  server_type = unknown;
  set_name = [];
}

unfoldable pub set_err : Error → ServerDescription → ServerDescription
unfolding clear
set_err e d = clear (record d { error = some e })

-- ROUND_TRIP_DIVISOR
abbrev pub round_trip_divisor : ℕ
round_trip_divisor = 5

-- The parts lie within a fifth and four fifths of an `i64`, so their sum does not overflow.
unfoldable pub average_rtt : Option ℤ → ℤ → ℤ
average_rtt (some old) rtt =
    div_trunc rtt round_trip_divisor +ℤ scale 4 (div_trunc old round_trip_divisor)
average_rtt none rtt = rtt

unfoldable pub classify : IsMasterResult → ServerType
classify m =
    let set_name_empty = is_empty m.set_name in
    let msg_empty = is_empty m.msg in
    if msg_empty && set_name_empty && not m.is_replica_set
    then standalone
    else if not msg_empty
    then mongos
    else if m.is_master && not set_name_empty
    then rs_primary
    else if m.is_secondary && not set_name_empty && not m.hidden
    then rs_secondary
    else if m.arbiter_only && not set_name_empty
    then rs_arbiter
    else if not set_name_empty
    then rs_other
    else if m.is_replica_set
    then rs_ghost
    else unknown

unfoldable pub update : IsMasterResult → ℤ → ServerDescription → ServerDescription
unfolding classify average_rtt set_err
update m rtt d =
    if not m.is_ok
    then set_err (operation_error "ismaster returned a not-ok response.") d
    else record d {
      min_wire_version = m.min_wire_version;
      max_wire_version = m.max_wire_version;
      me = m.me;
      hosts = m.hosts;
      passives = m.passives;
      arbiters = m.arbiters;
      tags = m.tags;
      set_name = m.set_name;
      election_id = m.election_id;
      primary = m.primary;
      set_version = m.set_version;
      round_trip_time = some (average_rtt d.round_trip_time rtt);
      server_type = classify m;
    }
