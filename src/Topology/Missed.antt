-- ===== src/Topology/Missed.antt =====
-- topology/mod.rs: the loss of a primary that a member's description tells.
use old_mongo_rust_driver.Prelude.{
  ℕ, ◌≡◌, refl, sym, subst, inl, inr, Bool, false, Option, none, some, List, [], ◌∷◌, arith,
  Bool-cases, any, retain,
}
use old_mongo_rust_driver.Connstring.Host.{Host, host_eq}
use old_mongo_rust_driver.Topology.Server.{rs_secondary}
use old_mongo_rust_driver.Topology.State.{
  World, replica_set_with_primary, retain_servers, remove_server,
}
use old_mongo_rust_driver.Topology.Update.{
  has_primary, check_me_with_primary, update_rs_with_primary_from_member, update_with_primary,
  dispatch, update_private,
}
use old_mongo_rust_driver.Topology.Cases.{update_rs_with_primary_from_member_cases}

any-retain {ℓ} :
    {A : Type ℓ} (p q : A → Bool) (xs : List A) → any p xs ≡ false → any p (retain q xs) ≡ false
any-retain p q [] h = refl
any-retain p q (x ∷ xs) h = ground (arith, any-retain p q xs)

-- The topology claims a primary that none of its servers is.
pub record IsMistaken (w : World) : Type 0 where
  pub claim : w.topology_type ≡ replica_set_with_primary
  pub truth : has_primary w.heap w.servers ≡ false

remove_server-IsMistaken : (k : Host) (w : World) → IsMistaken w → IsMistaken (remove_server k w)
unfolding remove_server retain_servers has_primary
remove_server-IsMistaken k w m = record {
  claim = m.claim;
  truth = any-retain _ _ w.servers m.truth;
}

module _ (k : Host) (r : ℕ) (me : Host) where
  check_me-IsMistaken :
      (o : Option Host) (w : World)
      → o ≡ some me
      → IsMistaken w
      → IsMistaken (check_me_with_primary k o w)
  unfolding check_me_with_primary
  check_me-IsMistaken none w e m = cc
  check_me-IsMistaken (some h) w e m = elim (Bool-cases (host_eq k h)) [
    | inl f ↦ rw f m
    | inr f ↦ rw f (remove_server-IsMistaken k w m)
  ]

  from_member-IsMistaken :
      (w : World)
      → (w.heap.cell r).me ≡ some me
      → IsMistaken w
      → IsMistaken (update_rs_with_primary_from_member k r w)
  from_member-IsMistaken w e m =
      update_rs_with_primary_from_member_cases IsMistaken k r w (λ _. m)
        (check_me-IsMistaken _ _ e (remove_server-IsMistaken k w m)) (check_me-IsMistaken _ w e m)

-- If the primary of a replica set was lost (its description says secondary by now, and no other server is
-- a primary), and the description names the server's own address, then the update by it leaves the type
-- `ReplicaSetWithPrimary`, although no server is a primary.
pub update_private_misses_lost_primary :
    (run_monitor : Bool) (k : Host) (r : ℕ) (me : Host) (w : World)
    → (w.heap.cell r).server_type ≡ rs_secondary
    → (w.heap.cell r).me ≡ some me
    → IsMistaken w
    → IsMistaken (update_private run_monitor k r w)
unfolding update_private dispatch update_with_primary
update_private_misses_lost_primary run_monitor k r me w secondary named m =
    subst (λ t. IsMistaken (dispatch t (w.heap.cell r).server_type run_monitor k r w)) (sym m.claim)
      (subst (λ t. IsMistaken (update_with_primary t run_monitor k r w)) (sym secondary)
        (from_member-IsMistaken k r me w named m))
