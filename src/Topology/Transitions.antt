-- ===== src/Topology/Transitions.antt =====
-- How the topology's type in topology/mod.rs may change, and how it agrees with the servers.
use mathlib.Core.Path.{subst₂}
use old_mongo_rust_driver.Prelude.{
  ℕ, ◌≡◌, refl, sym, subst, ◌∙◌, ◌⊎◌, inl, inr, Bool, Option, arith,
}
use old_mongo_rust_driver.Connstring.Host.{Host}
use old_mongo_rust_driver.Topology.Server.{
  ServerType, standalone, mongos, rs_primary, rs_secondary, rs_arbiter, rs_other, rs_ghost, unknown,
}
use old_mongo_rust_driver.Topology.State.{
  World, TopologyType, single, replica_set_no_primary, replica_set_with_primary, sharded,
  undiscovered, retain_servers, remove_server,
}
use old_mongo_rust_driver.Topology.Update.{
  add_server, add_missing_hosts, check_if_has_primary, accept_primary, update_rs_from_primary,
  update_rs_without_primary, update_rs_with_primary_from_member, check_me_with_primary,
  update_unknown, update_no_primary, update_with_primary, update_sharded, dispatch, update_private,
}
use old_mongo_rust_driver.Topology.Cases.{
  named, adopt_set_name_cases, update_rs_from_primary_cases, update_rs_without_primary_cases,
  update_rs_with_primary_from_member_cases, update_unknown_with_standalone_cases,
  check_me_without_primary_cases, check_me_with_primary_cases, add_hosts_keeps,
}

-- The life of a topology: a single server and a sharded cluster are final, a replica set stays one and
-- gains or loses its primary.
pub data Step : TopologyType → TopologyType → Type 0 where
  stay : (t : TopologyType) → Step t t
  find_single : Step undiscovered single
  find_sharded : Step undiscovered sharded
  find_set : Step undiscovered replica_set_no_primary
  find_primary : Step undiscovered replica_set_with_primary
  elect : Step replica_set_no_primary replica_set_with_primary
  lose : Step replica_set_with_primary replica_set_no_primary

-- A replica set.
abbrev pub IsReplicaSet : TopologyType → Type 0
IsReplicaSet t = (t ≡ replica_set_no_primary) ⊎ (t ≡ replica_set_with_primary)

check_if_has_primary-IsReplicaSet :
    (w : World) → IsReplicaSet (check_if_has_primary w).topology_type
unfolding check_if_has_primary
check_if_has_primary-IsReplicaSet w = ground arith

remove_server-type : (k : Host) (w : World) → (remove_server k w).topology_type ≡ w.topology_type
unfolding remove_server retain_servers
remove_server-type k w = refl

accept_primary-IsReplicaSet :
    (run_monitor : Bool) (k : Host) (r : ℕ) (w : World)
    → IsReplicaSet (accept_primary run_monitor k r w).topology_type
unfolding accept_primary
accept_primary-IsReplicaSet run_monitor k r w = check_if_has_primary-IsReplicaSet _

set_to_set : {s t : TopologyType} → IsReplicaSet s → IsReplicaSet t → Step s t
set_to_set (inl p) (inl q) = subst₂ Step (sym p) (sym q) (stay replica_set_no_primary)
set_to_set (inl p) (inr q) = subst₂ Step (sym p) (sym q) elect
set_to_set (inr p) (inl q) = subst₂ Step (sym p) (sym q) lose
set_to_set (inr p) (inr q) = subst₂ Step (sym p) (sym q) (stay replica_set_with_primary)

found_set : {t : TopologyType} → IsReplicaSet t → Step undiscovered t
found_set (inl q) = subst (Step undiscovered) (sym q) find_set
found_set (inr q) = subst (Step undiscovered) (sym q) find_primary

module _ (run_monitor : Bool) (k : Host) (r : ℕ) (w : World) (s : TopologyType)
    (here : w.topology_type ≡ s) (to_set : (t : TopologyType) → IsReplicaSet t → Step s t) where
  same : (v : World) → v.topology_type ≡ w.topology_type → Step s v.topology_type
  same v e = subst (Step s) (sym (e ∙ here)) (stay s)

  checked : (v : World) → Step s (check_if_has_primary v).topology_type
  checked v = to_set _ (check_if_has_primary-IsReplicaSet v)

  from_primary : Step s (update_rs_from_primary run_monitor k r w).topology_type
  from_primary =
      update_rs_from_primary_cases (λ v. Step s v.topology_type) k r w run_monitor
        (λ _. same w refl) (λ _ _. checked _) (λ _ _ _. checked _)
        (λ _ _ _. to_set _ (accept_primary-IsReplicaSet run_monitor k r _))

  named_type :
      (v : World)
      → v.topology_type ≡ replica_set_no_primary
      → (named r v).topology_type ≡ replica_set_no_primary
  named_type v e =
      adopt_set_name_cases (λ u. u.topology_type ≡ replica_set_no_primary) k r v _ (λ _. e) (λ _. e)

  added_type :
      (v : World)
      → v.topology_type ≡ replica_set_no_primary
      → (add_missing_hosts run_monitor r v).topology_type ≡ replica_set_no_primary
  unfolding add_missing_hosts add_server
  added_type v e =
      add_hosts_keeps (λ u. u.topology_type ≡ replica_set_no_primary) run_monitor _ (λ h u _ f. f) v
        e

  without_primary : Step s (update_rs_without_primary run_monitor k r w).topology_type
  without_primary =
      update_rs_without_primary_cases (λ v. Step s v.topology_type) k r w run_monitor
        (λ _. to_set _ (inl refl)) (λ _. checked _)
        (λ _.
          check_me_without_primary_cases (λ v. Step s v.topology_type) k r _ _
            (to_set _ (inl (added_type _ (named_type _ refl)))) (checked _))

  check_me :
      (v : World) (me : Option Host)
      → v.topology_type ≡ w.topology_type
      → Step s (check_me_with_primary k me v).topology_type
  check_me v me e =
      check_me_with_primary_cases (λ u. Step s u.topology_type) k r v me (checked v) (same v e)
        (same (remove_server k v) (remove_server-type k v ∙ e))

  with_primary_from_member : Step s (update_rs_with_primary_from_member k r w).topology_type
  with_primary_from_member =
      update_rs_with_primary_from_member_cases (λ v. Step s v.topology_type) k r w
        (λ _. same w refl) (check_me _ _ (remove_server-type k w)) (check_me w _ refl)

module _ (run_monitor : Bool) (k : Host) (r : ℕ) (w : World) where
  from_undiscovered :
      (t : ServerType)
      → w.topology_type ≡ undiscovered
      → Step undiscovered (update_unknown t run_monitor k r w).topology_type
  unfolding update_unknown
  from_undiscovered standalone e =
      update_unknown_with_standalone_cases (λ v. Step undiscovered v.topology_type) k r w
        (subst (Step undiscovered) (sym e) (stay undiscovered)) (λ _. find_single)
        (subst (Step undiscovered) (sym (remove_server-type k w ∙ e)) (stay undiscovered))
  from_undiscovered mongos e = find_sharded
  from_undiscovered rs_primary e = from_primary run_monitor k r w undiscovered e (λ t. found_set)
  from_undiscovered rs_secondary e =
      without_primary run_monitor k r w undiscovered e (λ t. found_set)
  from_undiscovered rs_arbiter e = without_primary run_monitor k r w undiscovered e (λ t. found_set)
  from_undiscovered rs_other e = without_primary run_monitor k r w undiscovered e (λ t. found_set)
  from_undiscovered rs_ghost e = subst (Step undiscovered) (sym e) (stay undiscovered)
  from_undiscovered unknown e = subst (Step undiscovered) (sym e) (stay undiscovered)

  from_no_primary :
      (t : ServerType)
      → w.topology_type ≡ replica_set_no_primary
      → Step replica_set_no_primary (update_no_primary t run_monitor k r w).topology_type
  unfolding update_no_primary
  from_no_primary rs_primary e =
      from_primary run_monitor k r w replica_set_no_primary e (λ t. set_to_set (inl refl))
  from_no_primary rs_secondary e =
      without_primary run_monitor k r w replica_set_no_primary e (λ t. set_to_set (inl refl))
  from_no_primary rs_arbiter e =
      without_primary run_monitor k r w replica_set_no_primary e (λ t. set_to_set (inl refl))
  from_no_primary rs_other e =
      without_primary run_monitor k r w replica_set_no_primary e (λ t. set_to_set (inl refl))
  from_no_primary standalone e = set_to_set (inl refl) (check_if_has_primary-IsReplicaSet _)
  from_no_primary mongos e = set_to_set (inl refl) (check_if_has_primary-IsReplicaSet _)
  from_no_primary rs_ghost e = set_to_set (inl refl) (check_if_has_primary-IsReplicaSet _)
  from_no_primary unknown e = set_to_set (inl refl) (check_if_has_primary-IsReplicaSet _)

  from_with_primary :
      (t : ServerType)
      → w.topology_type ≡ replica_set_with_primary
      → Step replica_set_with_primary (update_with_primary t run_monitor k r w).topology_type
  unfolding update_with_primary
  from_with_primary rs_primary e =
      from_primary run_monitor k r w replica_set_with_primary e (λ t. set_to_set (inr refl))
  from_with_primary rs_secondary e =
      with_primary_from_member run_monitor k r w replica_set_with_primary e
        (λ t. set_to_set (inr refl))
  from_with_primary rs_arbiter e =
      with_primary_from_member run_monitor k r w replica_set_with_primary e
        (λ t. set_to_set (inr refl))
  from_with_primary rs_other e =
      with_primary_from_member run_monitor k r w replica_set_with_primary e
        (λ t. set_to_set (inr refl))
  from_with_primary standalone e = set_to_set (inr refl) (check_if_has_primary-IsReplicaSet _)
  from_with_primary mongos e = set_to_set (inr refl) (check_if_has_primary-IsReplicaSet _)
  from_with_primary rs_ghost e = set_to_set (inr refl) (check_if_has_primary-IsReplicaSet _)
  from_with_primary unknown e = set_to_set (inr refl) (check_if_has_primary-IsReplicaSet _)

  from_sharded :
      (t : ServerType)
      → w.topology_type ≡ sharded
      → Step sharded (update_sharded t k w).topology_type
  unfolding update_sharded
  from_sharded unknown e = subst (Step sharded) (sym e) (stay sharded)
  from_sharded mongos e = subst (Step sharded) (sym e) (stay sharded)
  from_sharded _ e = subst (Step sharded) (sym (remove_server-type k w ∙ e)) (stay sharded)

  dispatch-Step :
      (s : TopologyType) (t : ServerType)
      → w.topology_type ≡ s
      → Step s (dispatch s t run_monitor k r w).topology_type
  unfolding dispatch
  dispatch-Step undiscovered t e = from_undiscovered t e
  dispatch-Step replica_set_no_primary t e = from_no_primary t e
  dispatch-Step replica_set_with_primary t e = from_with_primary t e
  dispatch-Step sharded t e = from_sharded t e
  dispatch-Step single t e = subst (Step single) (sym e) (stay single)

-- Every update moves the topology's type along the life of a topology: an undiscovered one becomes
-- single, sharded or a replica set, a replica set gains or loses its primary and never becomes
-- anything else, and single and sharded topologies stay what they are.
pub update_private-Step :
    (run_monitor : Bool) (k : Host) (r : ℕ) (w : World)
    → Step w.topology_type (update_private run_monitor k r w).topology_type
unfolding update_private
update_private-Step run_monitor k r w = dispatch-Step run_monitor k r w w.topology_type _ refl
