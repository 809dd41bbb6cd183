-- ===== src/Topology/Rule.antt =====
-- A rule for what the updates of topology/mod.rs keep.
use old_mongo_rust_driver.Prelude.{ℕ, ◌≡◌, Bool, false}
use old_mongo_rust_driver.Connstring.Host.{Host}
use old_mongo_rust_driver.Topology.Server.{
  ServerType, standalone, mongos, rs_primary, rs_secondary, rs_arbiter, rs_other, rs_ghost, unknown,
}
use old_mongo_rust_driver.Topology.State.{
  World, TopologyType, single, replica_set_no_primary, replica_set_with_primary, sharded,
  undiscovered, remove_server,
}
use old_mongo_rust_driver.Topology.Update.{
  set_type, add_missing_hosts, check_if_has_primary, is_stale, accept_primary,
  update_rs_from_primary, update_rs_without_primary, update_rs_with_primary_from_member,
  update_unknown, update_no_primary, update_with_primary, update_sharded, dispatch, update_private,
}
use old_mongo_rust_driver.Topology.Cases.{
  named, stale_world, update_rs_from_primary_cases, update_rs_without_primary_cases,
  update_rs_with_primary_from_member_cases, update_unknown_with_standalone_cases,
  check_me_without_primary_cases, check_me_with_primary_cases,
}

module _ {ℓ} (P : World → Type ℓ) (run_monitor : Bool) (k : Host) (r : ℕ) (w : World)
    (typed : (t : TopologyType) (v : World) → P v → P (set_type t v))
    (removed : (v : World) → P v → P (remove_server k v))
    (naming : (v : World) → P v → P (named r v))
    (adding : (v : World) → P v → P (add_missing_hosts run_monitor r v))
    (stale : P w → P (stale_world k r w))
    (accepting : P w
      → is_stale
          (w.heap.cell r).set_version
          (w.heap.cell r).election_id
          w.max_set_version
          w.max_election_id
        ≡ false
      → P (accept_primary run_monitor k r (named r w)))
    (m : P w) where
  checked : (v : World) → P v → P (check_if_has_primary v)
  unfolding check_if_has_primary
  checked v p = typed _ v p

  remove_checked : (v : World) → P v → P (check_if_has_primary (remove_server k v))
  remove_checked v p = checked _ (removed v p)

  update_rs_from_primary_keeps : P (update_rs_from_primary run_monitor k r w)
  update_rs_from_primary_keeps =
      update_rs_from_primary_cases P k r w run_monitor (λ _. m) (λ _ _. remove_checked w m)
        (λ _ _ _. checked _ (stale m)) (λ _ _ fresh. accepting m fresh)

  update_rs_without_primary_keeps : P (update_rs_without_primary run_monitor k r w)
  update_rs_without_primary_keeps =
      let v = typed replica_set_no_primary w m in
      let added =
        adding (named r (set_type replica_set_no_primary w))
          (naming (set_type replica_set_no_primary w) v) in
      update_rs_without_primary_cases P k r w run_monitor (λ _. v)
        (λ _. remove_checked (set_type replica_set_no_primary w) v)
        (λ _. check_me_without_primary_cases P k r _ _ added (remove_checked _ added))

  update_rs_with_primary_from_member_keeps : P (update_rs_with_primary_from_member k r w)
  update_rs_with_primary_from_member_keeps =
      let gone = removed w m in
      update_rs_with_primary_from_member_cases P k r w (λ _. m)
        (check_me_with_primary_cases P k r _ _ (checked _ gone) gone (removed _ gone))
        (check_me_with_primary_cases P k r w _ (checked w m) m gone)

  update_unknown_keeps : (t : ServerType) → P (update_unknown t run_monitor k r w)
  unfolding update_unknown
  update_unknown_keeps standalone =
      update_unknown_with_standalone_cases P k r w m (λ _. typed single w m) (removed w m)
  update_unknown_keeps mongos = typed sharded w m
  update_unknown_keeps rs_primary = update_rs_from_primary_keeps
  update_unknown_keeps rs_secondary = update_rs_without_primary_keeps
  update_unknown_keeps rs_arbiter = update_rs_without_primary_keeps
  update_unknown_keeps rs_other = update_rs_without_primary_keeps
  update_unknown_keeps rs_ghost = m
  update_unknown_keeps unknown = m

  update_no_primary_keeps : (t : ServerType) → P (update_no_primary t run_monitor k r w)
  unfolding update_no_primary
  update_no_primary_keeps standalone = remove_checked w m
  update_no_primary_keeps mongos = remove_checked w m
  update_no_primary_keeps rs_primary = update_rs_from_primary_keeps
  update_no_primary_keeps rs_secondary = update_rs_without_primary_keeps
  update_no_primary_keeps rs_arbiter = update_rs_without_primary_keeps
  update_no_primary_keeps rs_other = update_rs_without_primary_keeps
  update_no_primary_keeps rs_ghost = checked w m
  update_no_primary_keeps unknown = checked w m

  update_with_primary_keeps : (t : ServerType) → P (update_with_primary t run_monitor k r w)
  unfolding update_with_primary
  update_with_primary_keeps standalone = remove_checked w m
  update_with_primary_keeps mongos = remove_checked w m
  update_with_primary_keeps rs_primary = update_rs_from_primary_keeps
  update_with_primary_keeps rs_secondary = update_rs_with_primary_from_member_keeps
  update_with_primary_keeps rs_arbiter = update_rs_with_primary_from_member_keeps
  update_with_primary_keeps rs_other = update_rs_with_primary_from_member_keeps
  update_with_primary_keeps rs_ghost = checked w m
  update_with_primary_keeps unknown = checked w m

  update_sharded_keeps : (t : ServerType) → P (update_sharded t k w)
  unfolding update_sharded
  update_sharded_keeps unknown = m
  update_sharded_keeps mongos = m
  update_sharded_keeps _ = removed w m

  dispatch_keeps : (s : TopologyType) (t : ServerType) → P (dispatch s t run_monitor k r w)
  unfolding dispatch
  dispatch_keeps undiscovered t = update_unknown_keeps t
  dispatch_keeps replica_set_no_primary t = update_no_primary_keeps t
  dispatch_keeps replica_set_with_primary t = update_with_primary_keeps t
  dispatch_keeps sharded t = update_sharded_keeps t
  dispatch_keeps single t = m

  pub update_private_keeps : P (update_private run_monitor k r w)
  unfolding update_private
  update_private_keeps = dispatch_keeps w.topology_type (w.heap.cell r).server_type
