-- ===== src/Topology/Handle.antt =====
-- mongodb-cwal-rs-master/src/topology/mod.rs: the `Topology` that a client holds, how it is made, and the loop that
-- selects a server for an operation. The monitors may change the description between two rounds of the loop, so a
-- round has what it finds: the description, the servers' `acquire_stream`, the random numbers, and the time (in
-- milliseconds) and the timeout that the code reads after a failed attempt. The loop has not returned when the rounds are at an end.
use old_mongo_rust_driver.Prelude.{
  ℕ, Bool, true, false, not, ◌&&◌, Option, none, some, List, [], ◌∷◌, ltb, is_empty, if◌then◌else◌,
}
use old_mongo_rust_driver.Prelude.Int.{ℤ, sub_i64, leb_ℤ}
use old_mongo_rust_driver.Prelude.Text.{Text, text}
use old_mongo_rust_driver.Error.{argument_error, Result, ok, err, ◌>>=◌}
use old_mongo_rust_driver.Connstring.Host.{Host}
use old_mongo_rust_driver.Connstring.Data.{ConnectionString, ConnectionOptions, num_hosts, get}
use old_mongo_rust_driver.Topology.State.{
  World, TopologyType, single, replica_set_no_primary, TopologyDescription, default,
}
use old_mongo_rust_driver.Topology.Selection.{ReadPreference}
use old_mongo_rust_driver.Topology.Selection.Streams.{
  acquire_stream as acquire_read, acquire_write_stream as acquire_write,
}

pub record Topology : Type 0 where
  pub config : ConnectionString
  pub description : TopologyDescription

abbrev pub is_single : TopologyType → Bool
is_single single = true
is_single _ = false

abbrev pub is_no_primary : TopologyType → Bool
is_no_primary replica_set_no_primary = true
is_no_primary _ = false

abbrev pub or_default : Option TopologyDescription → TopologyDescription
or_default none = default
or_default (some d) = d

abbrev pub with_name : Option Text → TopologyDescription → TopologyDescription
with_name none d = d
with_name (some name) d = record d { set_name = name; topology_type = replica_set_no_primary }

-- The set's name in the options of the connection string.
unfoldable pub apply_options : Option ConnectionOptions → TopologyDescription → TopologyDescription
apply_options none d = d
apply_options (some o) d = with_name (get (text "replicaSet") o.options) d

-- `Topology::new`
unfoldable pub new : ConnectionString → Option TopologyDescription → Result Topology
new config description =
    let options = or_default description in
    let named = apply_options config.options options in
    if ltb 1 (num_hosts config.protocol) && is_single options.topology_type
    then err (argument_error "TopologyType::Single cannot be used with multiple seeds.")
    else if not (is_empty named.set_name) && not (is_no_primary named.topology_type)
    then err (argument_error "TopologyType must be ReplicaSetNoPrimary if set_name is provided.")
    else ok (record { config = config; description = named })

pub record Round {ℓ} (S : Type ℓ) : Type ℓ where
  pub world : World
  pub acquire : Host → Result S
  pub random : ℕ → ℕ
  pub end_ms : ℤ
  pub timeout_ms : ℤ

module _ {ℓ} {S : Type ℓ} where
  -- One attempt, for a read with a preference or for a write.
  unfoldable pub attempt : Option ReadPreference → Round S → Result (S × Bool × Bool)
  attempt (some pref) r = (acquire_read r.acquire r.random r.world pref).result
  attempt none r = (acquire_write r.acquire r.random r.world).result >>= λ s. ok (s, false, false)

  -- After an attempt: a stream ends the loop, and so does an error when the time is over.
  unfoldable pub decide :
      ℤ
      → Round S
      → Result (S × Bool × Bool)
      → Option (Result (S × Bool × Bool))
      → Option (Result (S × Bool × Bool))
  decide start_ms r (ok s) rest = some (ok s)
  decide start_ms r (err e) rest =
      if leb_ℤ r.timeout_ms (sub_i64 r.end_ms start_ms) then some (err e) else rest

  unfoldable pub acquire_stream_private :
      Option ReadPreference → ℤ → List (Round S) → Option (Result (S × Bool × Bool))
  acquire_stream_private pref start_ms [] = none
  acquire_stream_private pref start_ms (r ∷ rs) =
      decide start_ms r (attempt pref r) (acquire_stream_private pref start_ms rs)

  unfoldable pub acquire_stream :
      ReadPreference → ℤ → List (Round S) → Option (Result (S × Bool × Bool))
  acquire_stream pref start_ms rs = acquire_stream_private (some pref) start_ms rs

  abbrev pub stream_only : Result (S × Bool × Bool) → Result S
  stream_only r = r >>= λ x. ok x.0

  abbrev pub map_some : Option (Result (S × Bool × Bool)) → Option (Result S)
  map_some none = none
  map_some (some r) = some (stream_only r)

  unfoldable pub acquire_write_stream : ℤ → List (Round S) → Option (Result S)
  acquire_write_stream start_ms rs = map_some (acquire_stream_private none start_ms rs)
