-- ===== src/Topology/Invariant.antt =====
-- The shape of the server map of topology/mod.rs under the updates.
use old_mongo_rust_driver.Prelude.{
  ℕ, ◌+◌, ◌<◌, ◌≡◌, refl, sym, subst, ◌∙◌, ◌≢◌, inl, inr, Bool, false, not, Option, none, some,
  List, [], ◌∷◌, ◌++◌, arith, retain, All, All-append, Bool-cases,
}
use old_mongo_rust_driver.Connstring.Host.{Host, host_eq, host_eq_iff}
use old_mongo_rust_driver.Topology.State.{
  Server, Heap, World, contains_key, find, retain_servers, remove_server,
}
use old_mongo_rust_driver.Topology.Update.{
  demote_found, add_hosts, add_server, add_missing_hosts, check_if_has_primary, accept_primary,
  update_private,
}
use old_mongo_rust_driver.Topology.Cases.{named, stale_world, adopt_set_name_cases}
use old_mongo_rust_driver.Topology.Rule.{update_private_keeps}
use old_mongo_rust_driver.Topology.Servers.{
  contains_key-append, contains_key-retain, All-retain, invalidate_others-all_hosts,
}

-- The entries of a map: each host once, with a server of that host, whose description is allocated
-- and is no other server's.
abbrev pub IsMap : ℕ → List (Host × Server) → Type 0
IsMap n [] = Unit
IsMap n ((h, s) ∷ rest) =
    (s.host ≡ h)
    × (contains_key h rest ≡ false)
    × (s.description < n)
    × All (λ e. e.1.description ≢ s.description) rest
    × IsMap n rest

pub record IsWf (w : World) : Type 0 where
  pub entries : IsMap w.heap.next w.servers

IsMap-retain :
    (n : ℕ) (keep : Host → Bool) (xs : List (Host × Server))
    → IsMap n xs
    → IsMap n (retain (λ e. keep e.0) xs)
IsMap-retain n keep [] m = tt
IsMap-retain n keep ((h, s) ∷ xs) (named, once, low, own, m) = elim (Bool-cases (keep h)) [
  | inl e ↦
      rw (e, IsMap, retain)
        (
          named,
          contains_key-retain keep h xs ∙ ground arith,
          low,
          All-retain (λ e. e.1.description ≢ s.description) (λ e. keep e.0) xs own,
          IsMap-retain n keep xs m,
        )
  | inr e ↦ rw (e, IsMap, retain) (IsMap-retain n keep xs m)
]

pub retain_servers-IsWf : (keep : Host → Bool) (w : World) → IsWf w → IsWf (retain_servers keep w)
unfolding retain_servers
retain_servers-IsWf keep w m = record {
  entries = IsMap-retain w.heap.next keep w.servers m.entries;
}

pub remove_server-IsWf : (k : Host) (w : World) → IsWf w → IsWf (remove_server k w)
unfolding remove_server
remove_server-IsWf k w m = retain_servers-IsWf (λ h. not (host_eq h k)) w m

IsMap-new :
    (n : ℕ) (k : Host) (xs : List (Host × Server))
    → IsMap n xs
    → contains_key k xs ≡ false
    → IsMap (n + 1) (xs ++ (k, record { host = k; description = n }) ∷ [])
unfolding contains_key
IsMap-new n k [] m c = (refl, refl, omega arith, tt, tt)
IsMap-new n k ((h, s) ∷ xs) (named, once, low, own, m) c = (
  named,
  contains_key-append h k (record { host = k; description = n }) xs
      ∙ ground (arith, host_eq_iff h k, host_eq_iff k h),
  omega arith,
  All-append (λ e. e.1.description ≢ s.description) xs _ own (omega arith, tt),
  IsMap-new n k xs m (ground arith),
)

pub add_server-IsWf :
    (run_monitor : Bool) (k : Host) (w : World)
    → IsWf w
    → contains_key k w.servers ≡ false
    → IsWf (add_server run_monitor k w)
unfolding add_server
add_server-IsWf run_monitor k w m c = record {
  entries = IsMap-new w.heap.next k w.servers m.entries c;
}

pub add_hosts-IsWf :
    (run_monitor : Bool) (hosts : List Host) (w : World)
    → IsWf w
    → IsWf (add_hosts run_monitor hosts w)
unfolding add_hosts
add_hosts-IsWf run_monitor [] w m = m
add_hosts-IsWf run_monitor (k ∷ hosts) w m = elim (Bool-cases (contains_key k w.servers)) [
  | inl old ↦ rw (old, add_hosts) (add_hosts-IsWf run_monitor hosts w m)
  | inr new ↦
      rw (new, add_hosts)
        (add_hosts-IsWf run_monitor hosts (add_server run_monitor k w)
          (add_server-IsWf run_monitor k w m new))
]

pub add_missing_hosts-IsWf :
    (run_monitor : Bool) (r : ℕ) (w : World) → IsWf w → IsWf (add_missing_hosts run_monitor r w)
unfolding add_missing_hosts
add_missing_hosts-IsWf run_monitor r w m = add_hosts-IsWf run_monitor _ w m

check_if_has_primary-IsWf : (w : World) → IsWf w → IsWf (check_if_has_primary w)
unfolding check_if_has_primary
check_if_has_primary-IsWf w m = record { entries = m.entries }

adopt_set_name-IsWf : (k : Host) (r : ℕ) (w : World) → IsWf w → IsWf (named r w)
adopt_set_name-IsWf k r w m =
    adopt_set_name_cases IsWf k r w _ (λ _. record { entries = m.entries }) (λ _. m)

demote_found-next : (o : Option Server) (heap : Heap) → (demote_found o heap).next ≡ heap.next
unfolding demote_found
demote_found-next none heap = refl
demote_found-next (some s) heap = refl

stale_world-IsWf : (k : Host) (r : ℕ) (w : World) → IsWf w → IsWf (stale_world k r w)
stale_world-IsWf k r w m =
    let same =
      subst (λ n. IsMap n w.servers) (sym (demote_found-next (find k w.servers) w.heap))
        m.entries in
    adopt_set_name_cases (λ v. IsWf (record v { heap = demote_found (find k w.servers) w.heap })) k
      r w _ (λ _. record { entries = same }) (λ _. record { entries = same })

accept_primary-IsWf :
    (run_monitor : Bool) (k : Host) (r : ℕ) (w : World)
    → IsWf w
    → IsWf (accept_primary run_monitor k r w)
unfolding accept_primary
accept_primary-IsWf run_monitor k r w m = check_if_has_primary-IsWf _ (
    retain_servers-IsWf _ _ (
      add_missing_hosts-IsWf run_monitor r _ (record {
        entries =
            subst (λ n. IsMap n w.servers)
              (sym (invalidate_others-all_hosts k w.servers w.heap r).1) m.entries;
      })))

-- An update by any server description keeps the server map in shape: each host stands in it once,
-- under its own name, and no two servers share a description.
pub update_private-IsWf :
    (run_monitor : Bool) (k : Host) (r : ℕ) (w : World)
    → IsWf w
    → IsWf (update_private run_monitor k r w)
update_private-IsWf run_monitor k r w m =
    update_private_keeps IsWf run_monitor k r w (λ t v p. record { entries = p.entries })
      (remove_server-IsWf k) (adopt_set_name-IsWf k r) (add_missing_hosts-IsWf run_monitor r)
      (stale_world-IsWf k r w)
      (λ p _. accept_primary-IsWf run_monitor k r _ (adopt_set_name-IsWf k r w p)) m
