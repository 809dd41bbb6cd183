-- ===== src/Topology/Selection.antt =====
-- mongodb-cwal-rs-master/src/topology/mod.rs: which servers an operation may use, and whose stream it
-- gets. `acquire`, a server's `acquire_stream`, gives a stream or an error for each host, and `random`
-- stands for `gen_range(0, len)`.
pub mod Latency
pub mod Streams
pub mod Roles
pub mod Chosen
pub mod Acquire
use Prim.Native.Nat.{compare}
use old_mongo_rust_driver.Prelude.{
  ℕ, suc, ◌+◌, ◌<◌, ◌%◌, ◌≡◌, Bool, true, false, not, ◌&&◌, Option, none, some, List, [], ◌∷◌, ◌++◌,
  map, ltb, leb, ◌==◌, if◌then◌else◌, retain, length, any, is_empty, take, drop,
}
use old_mongo_rust_driver.Prelude.Int.{ℤ, pos, i64_max, ltb_ℤ, leb_ℤ, eqb_ℤ, add_i64}
use old_mongo_rust_driver.Prelude.Text.{Text, text, text_eq}
use old_mongo_rust_driver.Error.{Error, argument_error, operation_error, Result, ok, err}
use old_mongo_rust_driver.Connstring.Host.{Host}
use old_mongo_rust_driver.Topology.Server.{
  ServerDescription, ServerType, standalone, mongos, rs_primary, rs_secondary, rs_arbiter, rs_other,
  rs_ghost, unknown, is_primary, is_unknown,
}
use old_mongo_rust_driver.Topology.State.{
  World, TopologyType, single, replica_set_no_primary, replica_set_with_primary, sharded,
  undiscovered, Server, Heap, find, type_of,
}

-- common.rs: `ReadMode`
pub data ReadMode : Type 0 where
  primary primary_preferred secondary secondary_preferred nearest : ReadMode

-- `ReadMode::from_str`
unfoldable pub from_str : Text → Result ReadMode
from_str s =
    if text_eq s (text "Primary")
    then ok primary
    else if text_eq s (text "PrimaryPreferred")
    then ok primary_preferred
    else if text_eq s (text "Secondary")
    then ok secondary
    else if text_eq s (text "SecondaryPreferred")
    then ok secondary_preferred
    else if text_eq s (text "Nearest")
    then ok nearest
    else err (argument_error "Could not convert '{}' to ReadMode.")

-- A tag set, as its entries in the order of their keys.
abbrev pub Tags : Type 0
Tags = List (Text × Text)

pub record ReadPreference : Type 0 where
  pub mode : ReadMode
  pub tag_sets : List Tags

abbrev pub is_secondary : ServerType → Bool
is_secondary rs_secondary = true
is_secondary _ = false

-- The hosts of the servers whose type passes a test.
unfoldable pub hosts_where : (ServerType → Bool) → Heap → List (Host × Server) → List Host
hosts_where p heap xs = map (λ e. e.0) (retain (λ e. p (type_of heap e.1)) xs)

abbrev pub keys : List (Host × Server) → List Host
keys = map λ e. e.0

abbrev pub first_unless_empty : List Host → List Host → List Host
first_unless_empty xs ys = if is_empty xs then ys else xs

-- The choice among the members of a replica set.
unfoldable pub choose_member : ReadMode → Heap → List (Host × Server) → List Host × Bool
choose_member nearest heap xs = (hosts_where (λ t. not (is_unknown t)) heap xs, false)
choose_member primary heap xs = (hosts_where is_primary heap xs, true)
choose_member primary_preferred heap xs =
    (first_unless_empty (hosts_where is_primary heap xs) (hosts_where is_secondary heap xs), true)
choose_member secondary heap xs = (hosts_where is_secondary heap xs, true)
choose_member secondary_preferred heap xs =
    (first_unless_empty (hosts_where is_secondary heap xs) (hosts_where is_primary heap xs), true)

-- The choice, by the topology's type.
unfoldable pub choose : TopologyType → ReadMode → Heap → List (Host × Server) → List Host × Bool
choose undiscovered m heap xs = ([], true)
choose single m heap xs = (keys xs, true)
choose sharded m heap xs = (keys xs, false)
choose replica_set_no_primary m heap xs = choose_member m heap xs
choose replica_set_with_primary m heap xs = choose_member m heap xs

unfoldable pub choose_hosts : World → ReadPreference → List Host × Bool
choose_hosts w pref =
    if is_empty w.servers then ([], true) else choose w.topology_type pref.mode w.heap w.servers

unfoldable pub choose_for_writes : TopologyType → Heap → List (Host × Server) → List Host × Bool
choose_for_writes undiscovered heap xs = ([], true)
choose_for_writes single heap xs = (keys xs, true)
choose_for_writes sharded heap xs = (keys xs, false)
choose_for_writes replica_set_no_primary heap xs = (hosts_where is_primary heap xs, true)
choose_for_writes replica_set_with_primary heap xs = (hosts_where is_primary heap xs, true)

unfoldable pub choose_write_hosts : World → List Host × Bool
choose_write_hosts w =
    if is_empty w.servers then ([], true) else choose_for_writes w.topology_type w.heap w.servers

-- The description of a host's server.
abbrev pub described_by : World → Option Server → Option ServerDescription
described_by w none = none
described_by w (some s) = some (w.heap.cell s.description)

abbrev pub description_of : World → Host → Option ServerDescription
description_of w h = described_by w (find h w.servers)

-- The value of a tag.
unfoldable pub tag_value : Text → Tags → Option Text
tag_value k [] = none
tag_value k ((j, v) ∷ rest) = if text_eq j k then some v else tag_value k rest

abbrev pub is_value : Text → Option Text → Bool
is_value v none = false
is_value v (some u) = text_eq v u

-- Every tag of the set is a tag of the server, with the same value.
unfoldable pub has_tags : Tags → Tags → Bool
has_tags [] have = true
has_tags ((k, v) ∷ tags) have = is_value v (tag_value k have) && has_tags tags have

abbrev pub described_has : Tags → Option ServerDescription → Bool
described_has tags none = false
described_has tags (some d) = has_tags tags d.tags

unfoldable pub host_has : World → Tags → Host → Bool
host_has w tags h = described_has tags (description_of w h)

-- The first tag set that some host has.
unfoldable pub tag_filter : World → List Host → List Tags → Option Tags
tag_filter w hosts [] = none
tag_filter w hosts (tags ∷ sets) =
    if any (host_has w tags) hosts then some tags else tag_filter w hosts sets

abbrev pub described_is_primary : Option ServerDescription → Bool
described_is_primary none = false
described_is_primary (some d) = is_primary d.server_type

-- A primary that may stand in when no host has the tags.
abbrev pub allows_primary : TopologyType → ReadMode → Bool
allows_primary replica_set_with_primary primary = true
allows_primary replica_set_with_primary primary_preferred = true
allows_primary _ _ = false

unfoldable pub filter_by : World → ReadMode → Option Tags → List Host → List Host
filter_by w m none hosts =
    if allows_primary w.topology_type m
    then retain (λ h. described_is_primary (description_of w h)) hosts
    else []
filter_by w m (some tags) hosts = retain (host_has w tags) hosts

unfoldable pub filter_hosts : World → ReadPreference → List Host → List Host
filter_hosts w pref hosts =
    if is_empty pref.tag_sets
    then hosts
    else filter_by w pref.mode (tag_filter w hosts pref.tag_sets) hosts

-- `unwrap_or(i64::MAX)` on a round-trip time
abbrev pub rtt_or_max : Option ℤ → ℤ
rtt_or_max none = i64_max
rtt_or_max (some t) = t

abbrev pub described_rtt : Option ServerDescription → ℤ
described_rtt none = i64_max
described_rtt (some d) = rtt_or_max d.round_trip_time

unfoldable pub rtt : World → Host → ℤ
rtt w h = described_rtt (description_of w h)

abbrev pub is_known : Option ServerDescription → Bool
is_known none = false
is_known (some d) = true

-- One step of the fold over the hosts.
unfoldable pub shorter : World → ℤ → Host → ℤ
shorter w acc h =
    if is_known (description_of w h) then if ltb_ℤ acc (rtt w h) then acc else rtt w h else acc

unfoldable pub shortest_from : World → ℤ → List Host → ℤ
shortest_from w acc [] = acc
shortest_from w acc (h ∷ hs) = shortest_from w (shorter w acc h) hs

-- The latency window, closed at both ends.
abbrev pub in_window : World → ℤ → ℤ → Host → Bool
in_window w low high h =
    is_known (description_of w h) && (leb_ℤ low (rtt w h) && leb_ℤ (rtt w h) high)

unfoldable pub within_latency : World → ℤ → List Host → List Host
within_latency w shortest hosts =
    if eqb_ℤ shortest i64_max
    then hosts
    else retain (in_window w shortest (add_i64 shortest w.local_threshold_ms)) hosts

unfoldable pub filter_latency_hosts : World → List Host → List Host
filter_latency_hosts w [] = []
filter_latency_hosts w (h ∷ hs) =
    if is_empty hs then h ∷ hs else within_latency w (shortest_from w (rtt w h) (h ∷ hs)) (h ∷ hs)
