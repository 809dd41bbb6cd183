-- ===== src/Topology/Update.antt =====
-- mongodb-cwal-rs-master/src/topology/mod.rs: how a changed server description updates the topology.
use old_mongo_rust_driver.Prelude.{
  ℕ, ◌+◌, Bool, true, false, not, ◌&&◌, ◌||◌, Option, none, some, List, [], ◌∷◌, ◌++◌, ltb, ◌==◌,
  if◌then◌else◌, length, any, is_empty,
}
use old_mongo_rust_driver.Prelude.Int.{ℤ, ltb_ℤ, eqb_ℤ}
use old_mongo_rust_driver.Prelude.Text.{Text, text_eq}
use old_mongo_rust_driver.Connstring.Host.{Host, host_eq}
use old_mongo_rust_driver.Topology.Server.{
  ServerDescription, ServerType, standalone, mongos, rs_primary, rs_secondary, rs_arbiter, rs_other,
  rs_ghost, unknown, is_primary, new as new_description,
}
use old_mongo_rust_driver.Topology.State.{
  TopologyType, single, replica_set_no_primary, replica_set_with_primary, sharded, undiscovered,
  Server, TopologyDescription, Heap, write, monitor_started, World, contains_key, contains, find,
  retain_servers, remove_server, type_of,
}

abbrev pub set_type : TopologyType → World → World
set_type t w = record w { top = record top { topology_type = t } }
  where
    open w use {top}

unfoldable pub has_primary : Heap → List (Host × Server) → Bool
has_primary heap = any λ e. is_primary (type_of heap e.1)

unfoldable pub check_if_has_primary : World → World
check_if_has_primary w =
    set_type
      (if has_primary w.heap w.servers then replica_set_with_primary else replica_set_no_primary) w

unfoldable pub update_unknown_with_standalone : Host → World → World
update_unknown_with_standalone host w =
    if not (contains_key host w.servers)
    then w
    else if length w.servers == 1
    then set_type single w
    else remove_server host w

-- `hosts`, `passives` and `arbiters` of a description, in this order
abbrev pub all_hosts : ServerDescription → List Host
all_hosts d = d.hosts ++ (d.passives ++ d.arbiters)

-- `Server::new` with its entry in the map; the monitor's thread is spawned if `run_monitor`.
unfoldable pub add_server : Bool → Host → World → World
add_server run_monitor host w = record w {
  top = record top {
    servers = w.servers ++ (host, record { host = host; description = heap.next }) ∷ [];
  };
  heap = record (write heap heap.next new_description) { next = heap.next + 1 };
  log = if run_monitor then log ++ monitor_started host ∷ [] else log;
}
  where
    open w use {top, heap, log}

unfoldable pub add_hosts : Bool → List Host → World → World
add_hosts run_monitor [] w = w
add_hosts run_monitor (host ∷ hosts) w =
    add_hosts run_monitor hosts
      (if not (contains_key host w.servers) then add_server run_monitor host w else w)

unfoldable pub add_missing_hosts : Bool → ℕ → World → World
add_missing_hosts run_monitor r w = add_hosts run_monitor (all_hosts (w.heap.cell r)) w

-- What the source writes into the description of a primary that is none any more.
abbrev pub demote : ServerDescription → ServerDescription
demote d = record d { server_type = unknown; set_name = []; election_id = none }

abbrev pub demote_at : ℕ → Heap → Heap
demote_at r heap = write heap r (demote (heap.cell r))

-- One round of the loop over the servers, which skips `host`.
unfoldable pub invalidate_one : Host → Host → Server → Heap → Heap
invalidate_one host h s heap =
    if not (host_eq h host) && is_primary (type_of heap s)
    then demote_at s.description heap
    else heap

unfoldable pub invalidate_others : Host → List (Host × Server) → Heap → Heap
invalidate_others host [] heap = heap
invalidate_others host ((h, s) ∷ rest) heap =
    invalidate_others host rest (invalidate_one host h s heap)

-- The test for a stale primary, on values that are there.
abbrev pub is_older : ℤ → ℕ → ℤ → ℕ → Bool
is_older sv eid max_sv max_eid = ltb_ℤ sv max_sv || eqb_ℤ max_sv sv && ltb eid max_eid

-- The set version and election id of the primary, then the largest ones seen.
unfoldable pub is_stale : Option ℤ → Option ℕ → Option ℤ → Option ℕ → Bool
is_stale (some sv) (some eid) (some max_sv) (some max_eid) = is_older sv eid max_sv max_eid
is_stale (some sv) (some eid) (some max_sv) none = false
is_stale (some sv) (some eid) none max_eid = false
is_stale (some sv) none max_sv max_eid = false
is_stale none eid max_sv max_eid = false

-- The largest election id is taken over with a set version only.
unfoldable pub next_election_id : Option ℤ → Option ℕ → Option ℕ → Option ℕ
next_election_id (some sv) (some eid) old = some eid
next_election_id (some sv) none old = old
next_election_id none eid old = old

unfoldable pub next_set_version : Option ℤ → Option ℤ → Option ℤ
next_set_version none old = old
next_set_version (some sv) none = some sv
next_set_version (some sv) (some old) = if ltb_ℤ old sv then some sv else some old

unfoldable pub demote_found : Option Server → Heap → Heap
demote_found none heap = heap
demote_found (some s) heap = demote_at s.description heap

-- The part of `update_rs_from_primary` behind its early returns.
unfoldable pub accept_primary : Bool → Host → ℕ → World → World
accept_primary run_monitor host r w =
    let d : ServerDescription = w.heap.cell r in
    let t : TopologyDescription = w.top in
    let bumped : TopologyDescription = record t {
      max_election_id = next_election_id d.set_version d.election_id t.max_election_id;
      max_set_version = next_set_version d.set_version t.max_set_version;
    } in
    let w₁ : World = record w { top = bumped; heap = invalidate_others host w.servers w.heap } in
    let w₂ = add_missing_hosts run_monitor r w₁ in
    check_if_has_primary (retain_servers (λ h. contains h (all_hosts (w₂.heap.cell r))) w₂)

-- The set name that the topology takes over if it has none.
unfoldable pub adopt_set_name : Text → World → World
adopt_set_name name w =
    if is_empty w.set_name then record w { top = record top { set_name = name } } else w
  where
    open w use {top}

unfoldable pub update_rs_from_primary : Bool → Host → ℕ → World → World
update_rs_from_primary run_monitor host r w =
    let d : ServerDescription = w.heap.cell r in
    let w₁ = adopt_set_name d.set_name w in
    if not (contains_key host w.servers)
    then w
    else if not (text_eq w₁.set_name d.set_name)
    then check_if_has_primary (remove_server host w)
    else if is_stale d.set_version d.election_id w.max_set_version w.max_election_id
    then check_if_has_primary (record w₁ { heap = demote_found (find host w.servers) w.heap })
    else accept_primary run_monitor host r w₁

abbrev pub remove_unless_me : Host → Host → World → World
remove_unless_me host me w = if not (host_eq host me) then remove_server host w else w

unfoldable pub check_me_without_primary : Host → Option Host → World → World
check_me_without_primary host none w = w
check_me_without_primary host (some me) w =
    if not (host_eq host me) then check_if_has_primary (remove_server host w) else w

unfoldable pub update_rs_without_primary : Bool → Host → ℕ → World → World
update_rs_without_primary run_monitor host r w =
    let d : ServerDescription = w.heap.cell r in
    let w₀ = set_type replica_set_no_primary w in
    let w₁ = adopt_set_name d.set_name w₀ in
    let w₂ = add_missing_hosts run_monitor r w₁ in
    if not (contains_key host w.servers)
    then w₀
    else if not (text_eq w₁.set_name d.set_name)
    then check_if_has_primary (remove_server host w₀)
    else check_me_without_primary host (w₂.heap.cell r).me w₂

unfoldable pub check_me_with_primary : Host → Option Host → World → World
check_me_with_primary host none w = check_if_has_primary w
check_me_with_primary host (some me) w = remove_unless_me host me w

unfoldable pub update_rs_with_primary_from_member : Host → ℕ → World → World
update_rs_with_primary_from_member host r w =
    let d : ServerDescription = w.heap.cell r in
    let w₁ = if not (text_eq w.set_name d.set_name) then remove_server host w else w in
    if not (contains_key host w.servers) then w else check_me_with_primary host d.me w₁

unfoldable pub update_unknown : ServerType → Bool → Host → ℕ → World → World
update_unknown standalone run_monitor host r w = update_unknown_with_standalone host w
update_unknown mongos run_monitor host r w = set_type sharded w
update_unknown rs_primary run_monitor host r w = update_rs_from_primary run_monitor host r w
update_unknown rs_secondary run_monitor host r w = update_rs_without_primary run_monitor host r w
update_unknown rs_arbiter run_monitor host r w = update_rs_without_primary run_monitor host r w
update_unknown rs_other run_monitor host r w = update_rs_without_primary run_monitor host r w
update_unknown rs_ghost run_monitor host r w = w
update_unknown unknown run_monitor host r w = w

unfoldable pub update_no_primary : ServerType → Bool → Host → ℕ → World → World
update_no_primary standalone run_monitor host r w = check_if_has_primary (remove_server host w)
update_no_primary mongos run_monitor host r w = check_if_has_primary (remove_server host w)
update_no_primary rs_primary run_monitor host r w = update_rs_from_primary run_monitor host r w
update_no_primary rs_secondary run_monitor host r w = update_rs_without_primary run_monitor host r w
update_no_primary rs_arbiter run_monitor host r w = update_rs_without_primary run_monitor host r w
update_no_primary rs_other run_monitor host r w = update_rs_without_primary run_monitor host r w
update_no_primary rs_ghost run_monitor host r w = check_if_has_primary w
update_no_primary unknown run_monitor host r w = check_if_has_primary w

unfoldable pub update_with_primary : ServerType → Bool → Host → ℕ → World → World
update_with_primary standalone run_monitor host r w = check_if_has_primary (remove_server host w)
update_with_primary mongos run_monitor host r w = check_if_has_primary (remove_server host w)
update_with_primary rs_primary run_monitor host r w = update_rs_from_primary run_monitor host r w
update_with_primary rs_secondary run_monitor host r w = update_rs_with_primary_from_member host r w
update_with_primary rs_arbiter run_monitor host r w = update_rs_with_primary_from_member host r w
update_with_primary rs_other run_monitor host r w = update_rs_with_primary_from_member host r w
update_with_primary rs_ghost run_monitor host r w = check_if_has_primary w
update_with_primary unknown run_monitor host r w = check_if_has_primary w

unfoldable pub update_sharded : ServerType → Host → World → World
update_sharded unknown host w = w
update_sharded mongos host w = w
update_sharded _ host w = remove_server host w

unfoldable pub dispatch : TopologyType → ServerType → Bool → Host → ℕ → World → World
dispatch undiscovered t run_monitor host r w = update_unknown t run_monitor host r w
dispatch replica_set_no_primary t run_monitor host r w = update_no_primary t run_monitor host r w
dispatch replica_set_with_primary t run_monitor host r w =
    update_with_primary t run_monitor host r w
dispatch sharded t run_monitor host r w = update_sharded t host w
dispatch single t run_monitor host r w = w

unfoldable pub update_private : Bool → Host → ℕ → World → World
update_private run_monitor host r w =
    dispatch w.topology_type (w.heap.cell r).server_type run_monitor host r w

unfoldable pub update : Host → ℕ → World → World
update = update_private true

unfoldable pub update_without_monitor : Host → ℕ → World → World
update_without_monitor = update_private false
