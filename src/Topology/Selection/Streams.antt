-- ===== src/Topology/Selection/Streams.antt =====
-- mongodb-cwal-rs-master/src/topology/mod.rs: the stream of the nearest or of a random host, and the
-- whole of `TopologyDescription::acquire_stream` and `acquire_write_stream`.
use old_mongo_rust_driver.Prelude.{
  ℕ, zero, suc, Bool, true, false, not, ◌&&◌, Option, none, some, List, [], ◌∷◌, ◌++◌,
  if◌then◌else◌, length, is_empty, take, drop,
}
use old_mongo_rust_driver.Prelude.Int.{ℤ, leb_ℤ}
use old_mongo_rust_driver.Error.{Error, operation_error, Result, ok, err, ◌>>=◌}
use old_mongo_rust_driver.Connstring.Host.{Host}
use old_mongo_rust_driver.Topology.Server.{ServerDescription, ServerType, mongos}
use old_mongo_rust_driver.Topology.State.{
  World, TopologyType, single, replica_set_no_primary, replica_set_with_primary, sharded,
  undiscovered,
}
use old_mongo_rust_driver.Topology.Selection.{
  ReadMode, primary, primary_preferred, secondary, secondary_preferred, nearest, ReadPreference,
  choose_hosts, choose_write_hosts, filter_hosts, filter_latency_hosts, rtt, description_of, keys,
}

-- `sort_by` on the round-trip times, a stable sort
unfoldable pub insert : World → Host → List Host → List Host
insert w h [] = h ∷ []
insert w h (g ∷ gs) = if leb_ℤ (rtt w h) (rtt w g) then h ∷ g ∷ gs else g ∷ insert w h gs

unfoldable pub sort : World → List Host → List Host
sort w [] = []
sort w (h ∷ hs) = insert w h (sort w hs)

abbrev pub none_available : Error
none_available = operation_error "No servers available for the provided ReadPreference."

abbrev pub nth : List Host → ℕ → Option Host
nth [] n = none
nth (h ∷ hs) zero = some h
nth (h ∷ hs) (suc n) = nth hs n

-- The flags `slave_ok` and `send_read_pref` of a query, from the read mode and whether it has no tags.
unfoldable pub mongos_flags : ReadMode → Bool → Bool × Bool
mongos_flags primary no_tags = (false, false)
mongos_flags secondary_preferred no_tags = (true, not no_tags)
mongos_flags secondary no_tags = (true, true)
mongos_flags primary_preferred no_tags = (true, true)
mongos_flags nearest no_tags = (true, true)

abbrev pub member_flags : ReadMode → Bool × Bool
member_flags primary = (false, false)
member_flags _ = (true, false)

abbrev pub single_flags : ServerType → ReadMode → Bool → Bool × Bool
single_flags mongos m no_tags = mongos_flags m no_tags
single_flags _ m no_tags = (true, false)

unfoldable pub query_flags : TopologyType → ServerType → ReadMode → Bool → Bool × Bool
query_flags undiscovered t m no_tags = (false, false)
query_flags single t m no_tags = single_flags t m no_tags
query_flags replica_set_with_primary t m no_tags = member_flags m
query_flags replica_set_no_primary t m no_tags = member_flags m
query_flags sharded t m no_tags = mongos_flags m no_tags

-- What an acquisition gives, with the hosts whose monitors are asked for an update meanwhile.
pub record Outcome {ℓ} (A : Type ℓ) : Type ℓ where
  pub requested : List Host
  pub result : Result A

module _ {ℓ} {S : Type ℓ} (acquire : Host → Result S) (random : ℕ → ℕ) (w : World) where
  -- One round of the loop of `get_nearest_from_vec`: a server without a round-trip time ends it.
  unfoldable pub timed_round :
      Option ℤ → ServerType → Result S → Result (S × ServerType) → Result (S × ServerType)
  timed_round none t a rest = err none_available
  timed_round (some time) t (ok s) rest = ok (s, t)
  timed_round (some time) t (err e) rest = rest

  unfoldable pub nearest_round :
      Option ServerDescription → Result S → Result (S × ServerType) → Result (S × ServerType)
  nearest_round none a rest = rest
  nearest_round (some d) a rest = timed_round d.round_trip_time d.server_type a rest

  unfoldable pub try_each : List Host → Result (S × ServerType)
  try_each [] = err none_available
  try_each (h ∷ hs) = nearest_round (description_of w h) (acquire h) (try_each hs)

  unfoldable pub get_nearest_from_vec : List Host → Result (S × ServerType)
  get_nearest_from_vec hosts = try_each (sort w hosts)

  unfoldable pub random_round :
      Option ServerDescription → Result S → Result (S × ServerType) → Result (S × ServerType)
  random_round none a rest = rest
  random_round (some d) (ok s) rest = ok (s, d.server_type)
  random_round (some d) (err e) rest = rest

  -- A host drawn from the vector (an index out of it, which is never drawn, gives none), then the rounds that follow when it gives no stream.
  unfoldable pub drawn_round : Option Host → Result (S × ServerType) → Result (S × ServerType)
  drawn_round none rest = rest
  drawn_round (some h) rest = random_round (description_of w h) (acquire h) rest

  -- The loop of `get_rand_from_vec`, which removes a host in each round.
  unfoldable pub draw : ℕ → List Host → Result (S × ServerType)
  draw zero hosts = err none_available
  draw (suc fuel) [] = err none_available
  draw (suc fuel) (h ∷ hs) =
      let i = random (length (h ∷ hs)) in
      drawn_round (nth (h ∷ hs) i) (draw fuel (take i (h ∷ hs) ++ drop (suc i) (h ∷ hs)))

  unfoldable pub get_rand_from_vec : List Host → Result (S × ServerType)
  get_rand_from_vec hosts = draw (length hosts) hosts

  abbrev pub get_from_vec : Bool → List Host → Result (S × ServerType)
  get_from_vec rand hosts = if rand then get_rand_from_vec hosts else get_nearest_from_vec hosts

  -- `request_update` on every monitor, if no server is available
  abbrev pub requests : List Host → List Host
  requests hosts = if is_empty hosts then keys w.servers else []

  abbrev pub with_pair : S → Bool × Bool → Result (S × Bool × Bool)
  with_pair s (slave_ok, send_read_pref) = ok (s, slave_ok, send_read_pref)

  abbrev pub with_flags : ReadPreference → S × ServerType → Result (S × Bool × Bool)
  with_flags pref (s, t) =
      with_pair s (query_flags w.topology_type t pref.mode (is_empty pref.tag_sets))

  abbrev pub filters_tags : TopologyType → Bool
  filters_tags sharded = false
  filters_tags single = false
  filters_tags _ = true

  abbrev pub tagged_hosts : ReadPreference → List Host
  tagged_hosts pref =
      if filters_tags w.topology_type
      then filter_hosts w pref (choose_hosts w pref).0
      else (choose_hosts w pref).0

  -- `acquire_stream` behind its special case
  unfoldable pub acquire_chosen : ReadPreference → Outcome (S × Bool × Bool)
  acquire_chosen pref = record {
    requested = requests (tagged_hosts pref);
    result =
        get_from_vec (choose_hosts w pref).1 (filter_latency_hosts w (tagged_hosts pref))
        >>= with_flags pref;
  }

  abbrev pub falls_back : ReadMode → Bool
  falls_back secondary_preferred = true
  falls_back _ = false

  unfoldable pub acquire_stream : ReadPreference → Outcome (S × Bool × Bool)
  acquire_stream pref =
      if is_empty (tagged_hosts pref) && falls_back pref.mode
      then acquire_chosen (record pref { mode = primary_preferred })
      else acquire_chosen pref

  abbrev pub stream_of : S × ServerType → Result S
  stream_of (s, t) = ok s

  unfoldable pub acquire_write_stream : Outcome S
  acquire_write_stream = record {
    requested = requests (choose_write_hosts w).0;
    result = get_from_vec (choose_write_hosts w).1 (choose_write_hosts w).0 >>= stream_of;
  }
