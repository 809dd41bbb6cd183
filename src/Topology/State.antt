-- ===== src/Topology/State.antt =====
-- mongodb-cwal-rs-master/src/topology/mod.rs: `TopologyDescription`, with the descriptions that it
-- shares with the monitors. An `Arc<RwLock<ServerDescription>>` is a number into a heap of
-- descriptions, so that two holders of one description see each other's writes; locks are never
-- poisoned. A `HashMap` is the list of its entries in the order of its iteration, which is arbitrary.
-- A monitor's thread is seen only in the log of monitors started and stopped.
use old_mongo_rust_driver.Prelude.{
  ℕ, Bool, true, false, not, Option, none, some, List, [], ◌∷◌, ◌++◌, ◌==◌, if◌then◌else◌, retain,
}
use old_mongo_rust_driver.Prelude.Int.{ℤ, pos}
use old_mongo_rust_driver.Prelude.Text.{Text, text, text_eq}
use old_mongo_rust_driver.Error.{Result, ok}
use old_mongo_rust_driver.Connstring.Host.{Host, host_eq}
use old_mongo_rust_driver.Topology.Server.{ServerDescription, ServerType}

-- The topology's type; `Unknown` is `undiscovered`.
pub data TopologyType : Type 0 where
  single replica_set_no_primary replica_set_with_primary sharded undiscovered : TopologyType

pub TopologyType-discrete : Discrete TopologyType
TopologyType-discrete = hlevel

-- `FromStr::from_str`, which never fails
unfoldable pub from_str : Text → Result TopologyType
from_str s = ok (
    if text_eq s (text "Single")
    then single
    else if text_eq s (text "ReplicaSetNoPrimary")
    then replica_set_no_primary
    else if text_eq s (text "ReplicaSetWithPrimary")
    then replica_set_with_primary
    else if text_eq s (text "Sharded")
    then sharded
    else undiscovered)

-- The pool and the monitor of a server are models of their own.
pub record Server : Type 0 where
  pub host : Host
  pub description : ℕ

pub record TopologyDescription : Type 0 where
  pub topology_type : TopologyType
  pub set_name : Text
  pub servers : List (Host × Server)
  pub heartbeat_frequency_ms : ℕ
  pub local_threshold_ms : ℤ
  pub server_selection_timeout_ms : ℤ
  pub max_election_id : Option ℕ
  pub compatible : Bool
  pub max_set_version : Option ℤ
  pub compat_error : Text

-- `Default::default`, with the constants at the top of the source
abbrev pub default : TopologyDescription
default = record {
  topology_type = undiscovered;
  set_name = [];
  servers = [];
  heartbeat_frequency_ms = 10000;
  local_threshold_ms = pos 15;
  server_selection_timeout_ms = pos 30000;
  max_election_id = none;
  compatible = true;
  max_set_version = none;
  compat_error = [];
}

-- The descriptions that are shared, and the next free place.
pub record Heap : Type 0 where
  pub cell : ℕ → ServerDescription
  pub next : ℕ

abbrev pub write : Heap → ℕ → ServerDescription → Heap
write h r d = record h { cell = λ q. if r == q then d else h.cell q }

pub data Event : Type 0 where
  monitor_started monitor_stopped : Host → Event

pub record World : Type 0 where
  pub top : TopologyDescription
  pub open top use *
  pub heap : Heap
  pub log : List Event

-- `HashMap::get`
unfoldable pub find : Host → List (Host × Server) → Option Server
find k [] = none
find k ((h, s) ∷ rest) = if host_eq h k then some s else find k rest

-- `HashMap::contains_key`
unfoldable pub contains_key : Host → List (Host × Server) → Bool
contains_key k [] = false
contains_key k ((h, s) ∷ rest) = if host_eq h k then true else contains_key k rest

-- `Vec::contains`
unfoldable pub contains : Host → List Host → Bool
contains k [] = false
contains k (h ∷ hs) = if host_eq h k then true else contains k hs

-- The log when the entries that fail a test are dropped: `Server::drop` stops their monitors.
unfoldable pub stops : (Host → Bool) → List (Host × Server) → List Event
stops keep [] = []
stops keep ((h, s) ∷ rest) =
    if keep h then stops keep rest else monitor_stopped s.host ∷ stops keep rest

-- `HashMap::retain` on the servers, by their hosts
unfoldable pub retain_servers : (Host → Bool) → World → World
retain_servers keep w = record w {
  top = record top { servers = retain (λ e. keep e.0) w.servers };
  log = w.log ++ stops keep w.servers;
}
  where
    open w use {top}

-- `HashMap::remove`
unfoldable pub remove_server : Host → World → World
remove_server k w = retain_servers (λ h. not (host_eq h k)) w

-- The type of a server as its shared description has it.
abbrev pub type_of : Heap → Server → ServerType
type_of heap s = (heap.cell s.description).server_type
