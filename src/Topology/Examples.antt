-- ===== src/Topology/Examples.antt =====
-- topology: the theorems of this component at a concrete replica set.
use old_mongo_rust_driver.Prelude.{
  ℕ, zero, suc, ◌≡◌, ◌≤◌, ◌↔◌, refl, min, max, true, false, none, some, [], ◌∷◌, ◌+◌, arith, retain,
}
use old_mongo_rust_driver.Prelude.Int.{pos, ◌+ℤ◌, add_i64}
use old_mongo_rust_driver.Prelude.Text.{Text, text, text_eq}
use old_mongo_rust_driver.Error.{Result, ok}
use old_mongo_rust_driver.Connstring.Host.{Host, host_eq}
use old_mongo_rust_driver.Topology.Server.{
  ServerDescription, rs_primary, rs_secondary, unknown, IsMasterResult, average_rtt, update,
  new as new_description,
}
use old_mongo_rust_driver.Topology.State.{
  World, Server, replica_set_with_primary, default, contains_key, find,
}
use old_mongo_rust_driver.Topology.Update.{
  has_primary, is_stale, adopt_set_name, update_rs_from_primary, update_private,
}
use old_mongo_rust_driver.Topology.Cases.{named}
use old_mongo_rust_driver.Topology.Invariant.{IsWf, update_private-IsWf}
use old_mongo_rust_driver.Topology.Election.{Follows, update_private-Follows}
use old_mongo_rust_driver.Topology.Transitions.{Step, update_private-Step}
use old_mongo_rust_driver.Topology.Primary.{IsTaken, update_rs_from_primary-IsTaken}
use old_mongo_rust_driver.Topology.Missed.{IsMistaken, update_private_misses_lost_primary}
use old_mongo_rust_driver.Topology.Classify.{update-unknown_iff, average_rtt_bounds}
use old_mongo_rust_driver.Topology.Selection.{
  secondary_preferred, ReadPreference, choose_hosts, choose, choose_member, hosts_where,
  choose_write_hosts, choose_for_writes, filter_hosts, filter_latency_hosts, within_latency,
  shortest_from, shorter, rtt,
}
use old_mongo_rust_driver.Topology.Selection.Latency.{Timed, is_near, filter_latency_hosts_lem}
use old_mongo_rust_driver.Topology.Selection.Roles.{suits, suits_writes, passes}
use old_mongo_rust_driver.Topology.Selection.Streams.{
  random_round, drawn_round, draw, get_rand_from_vec, query_flags, acquire_chosen, acquire_stream,
  acquire_write_stream,
}
use old_mongo_rust_driver.Topology.Selection.Acquire.{
  acquire_stream-Serves, acquire_write_stream-Serves,
}

abbrev host : Text → Host
host name = record { host_name = name; ipc = []; port = 27017 }

abbrev a : Host
a = host (text "a")

abbrev b : Host
b = host (text "b")

abbrev c : Host
c = host (text "c")

-- The primary `a` names itself and `c`; it was the primary until `b` said that it is one.
abbrev primary_description : ServerDescription
primary_description = record new_description {
  server_type = rs_primary;
  hosts = a ∷ c ∷ [];
  set_name = text "rs";
  set_version = some (pos 3);
  election_id = some 9;
  round_trip_time = some (pos 10);
}

abbrev other_description : ServerDescription
other_description = record new_description {
  server_type = rs_primary;
  set_name = text "rs";
  round_trip_time = some (pos 40);
}

abbrev cells : ℕ → ServerDescription
cells zero = primary_description
cells (suc n) = other_description

abbrev entry : Host → ℕ → Host × Server
entry h n = (h, record { host = h; description = n })

abbrev pub two_primaries : World
two_primaries = record {
  top = record default {
    topology_type = replica_set_with_primary;
    set_name = text "rs";
    servers = entry a 0 ∷ entry b 1 ∷ [];
    max_set_version = some (pos 3);
    max_election_id = some 8;
  };
  heap = record { cell = cells; next = 2 };
  log = [];
}

pub two_primaries-IsWf : IsWf two_primaries
unfolding contains_key host_eq text_eq
two_primaries-IsWf = record {
  entries =
      (refl, refl, omega arith, (λ e. omega (arith, e), tt), (refl, refl, omega arith, tt, tt));
}

update_private-IsWf_example : IsWf (update_private true a 0 two_primaries)
update_private-IsWf_example = update_private-IsWf true a 0 two_primaries two_primaries-IsWf

update_private-Follows_example : Follows two_primaries (update_private true a 0 two_primaries)
update_private-Follows_example = update_private-Follows true a 0 two_primaries

update_private-Step_example :
    Step replica_set_with_primary (update_private true a 0 two_primaries).topology_type
update_private-Step_example = update_private-Step true a 0 two_primaries

set_name-named : text_eq (named 0 two_primaries).set_name (text "rs") ≡ true
unfolding text_eq adopt_set_name
set_name-named = refl

a-known : contains_key a two_primaries.servers ≡ true
unfolding contains_key host_eq text_eq
a-known = refl

a-fresh : is_stale (some (pos 3)) (some 9) (some (pos 3)) (some 8) ≡ false
unfolding is_stale
a-fresh = refl

update_rs_from_primary-IsTaken_example :
    IsTaken a (a ∷ c ∷ []) (update_rs_from_primary true a 0 two_primaries)
update_rs_from_primary-IsTaken_example =
    update_rs_from_primary-IsTaken true a 0 two_primaries two_primaries-IsWf (omega arith) a-known
      set_name-named a-fresh

-- The set when `a`, which names itself, has stepped down and no other server is known as primary.
abbrev stepped_down : World
stepped_down = record two_primaries {
  heap = record {
    cell = λ q. record primary_description { server_type = rs_secondary; me = some a };
    next = 2;
  };
}

stepped_down-IsMistaken : IsMistaken stepped_down
unfolding has_primary
stepped_down-IsMistaken = record { claim = refl; truth = refl }

update_private_misses_lost_primary_example : IsMistaken (update_private true a 0 stepped_down)
update_private_misses_lost_primary_example =
    update_private_misses_lost_primary true a 0 a stepped_down refl refl stepped_down-IsMistaken

-- A server that answers, but not with ok.
abbrev not_ok : IsMasterResult
not_ok = record {
  is_ok = false;
  is_master = false;
  max_bson_object_size = pos 0;
  max_message_size_bytes = pos 0;
  local_time = none;
  min_wire_version = pos 0;
  max_wire_version = pos 0;
  msg = [];
  is_replica_set = false;
  is_secondary = false;
  me = none;
  hosts = [];
  passives = [];
  arbiters = [];
  arbiter_only = false;
  tags = [];
  set_name = [];
  election_id = none;
  primary = none;
  hidden = false;
  set_version = none;
}

not_ok_is_unknown :
    ((update not_ok (pos 12) primary_description).server_type ≡ unknown) ↔ (false ≡ false)
not_ok_is_unknown = update-unknown_iff not_ok (pos 12) primary_description

average_of_two_times :
    (x : ℕ) × (average_rtt (some (pos 14)) (pos 9) ≡ pos x) × (x ≤ max 14 9) × (min 14 9 ≤ x + 4)
average_of_two_times = average_rtt_bounds 14 9

a-Timed : Timed two_primaries a
unfolding find host_eq text_eq rtt ◌+ℤ◌
a-Timed = record { known = refl; low = omega arith; high = omega arith; room = λ _. omega arith }

b-Timed : Timed two_primaries b
unfolding find host_eq text_eq rtt ◌+ℤ◌
b-Timed = record { known = refl; low = omega arith; high = omega arith; room = λ _. omega arith }

filter_latency_hosts_lem_example :
    filter_latency_hosts two_primaries (a ∷ b ∷ [])
    ≡ retain (is_near two_primaries (a ∷ b ∷ [])) (a ∷ b ∷ [])
filter_latency_hosts_lem_example =
    filter_latency_hosts_lem two_primaries (a ∷ b ∷ []) (a-Timed, (b-Timed, tt)) (omega arith)

-- Every server gives a stream, its port.
abbrev pub ports : Host → Result ℕ
ports h = ok h.port

abbrev pub first : ℕ → ℕ
first n = 0

abbrev pub prefer_secondary : ReadPreference
prefer_secondary = record { mode = secondary_preferred; tag_sets = [] }

pub acquire_stream-ports :
    (acquire_stream ports first two_primaries prefer_secondary).result ≡ ok (27017, true, false)
unfolding acquire_stream acquire_chosen choose_hosts choose choose_member hosts_where filter_hosts
    filter_latency_hosts within_latency shortest_from shorter rtt find host_eq text_eq add_i64 ◌+ℤ◌
    get_rand_from_vec draw drawn_round random_round query_flags
acquire_stream-ports = refl

acquire_stream-Serves_example :
    (h : Host) × (passes (suits replica_set_with_primary secondary_preferred) two_primaries h
      ≡ true)
    × (ports h ≡ ok 27017)
acquire_stream-Serves_example =
    acquire_stream-Serves ports first two_primaries prefer_secondary 27017 true false
      two_primaries-IsWf acquire_stream-ports

acquire_write_stream-ports : (acquire_write_stream ports first two_primaries).result ≡ ok 27017
unfolding acquire_write_stream choose_write_hosts choose_for_writes hosts_where get_rand_from_vec
    draw drawn_round random_round find host_eq text_eq
acquire_write_stream-ports = refl

acquire_write_stream-Serves_example :
    (h : Host) × (passes (suits_writes replica_set_with_primary) two_primaries h ≡ true)
    × (ports h ≡ ok 27017)
acquire_write_stream-Serves_example =
    acquire_write_stream-Serves ports first two_primaries 27017 two_primaries-IsWf
      acquire_write_stream-ports
