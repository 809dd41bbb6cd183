-- ===== src/Topology/Reported.antt =====
-- topology/mod.rs and topology/monitor.rs: where the type of a server's description comes from.
use old_mongo_rust_driver.Prelude.{
  ℕ, ◌<◌, ◌≡◌, ◌⊎◌, refl, inr, Bool, false, not, ◌&&◌, Option, none, some, List, [], ◌∷◌, arith,
  ◌==◌, if_cases,
}
use old_mongo_rust_driver.Connstring.Host.{Host, host_eq}
use old_mongo_rust_driver.Topology.Server.{ServerDescription, ServerType, unknown, is_primary}
use old_mongo_rust_driver.Topology.State.{
  World, Server, Heap, type_of, find, retain_servers, remove_server,
}
use old_mongo_rust_driver.Topology.Update.{
  demote_at, demote_found, invalidate_one, invalidate_others, accept_primary, add_server,
  add_missing_hosts, check_if_has_primary, update_private,
}
use old_mongo_rust_driver.Topology.Cases.{adopt_set_name_cases, add_hosts_keeps, named}
use old_mongo_rust_driver.Topology.Rule.{update_private_keeps}

-- An update of the topology leaves a description's type as it is, or makes it unknown.
module _ (r : ℕ) (t : ServerType) where
  abbrev pub Reads : Heap → Type 0
  Reads heap =
      (r < heap.next) × (((heap.cell r).server_type ≡ t) ⊎ ((heap.cell r).server_type ≡ unknown))

  demote_at-Reads : (q : ℕ) (heap : Heap) → Reads heap → Reads (demote_at q heap)
  demote_at-Reads q heap h = (
    h.0,
    if_cases (λ (d : ServerDescription). (d.server_type ≡ t) ⊎ (d.server_type ≡ unknown)) (q == r) _
        _ (λ _. inr refl) (λ _. h.1),
  )

  invalidate_others-Reads :
      (k : Host) (es : List (Host × Server)) (heap : Heap)
      → Reads heap
      → Reads (invalidate_others k es heap)
  unfolding invalidate_others invalidate_one
  invalidate_others-Reads k [] heap h = h
  invalidate_others-Reads k ((g, s) ∷ es) heap h = invalidate_others-Reads k es _ (
      if_cases Reads (not (host_eq g k) && is_primary (type_of heap s)) _ _
        (λ _. demote_at-Reads s.description heap h) (λ _. h))

  demote_found-Reads : (o : Option Server) (heap : Heap) → Reads heap → Reads (demote_found o heap)
  unfolding demote_found
  demote_found-Reads none heap h = h
  demote_found-Reads (some s) heap h = demote_at-Reads s.description heap h

  add_server-Reads :
      (run_monitor : Bool) (k : Host) (w : World)
      → Reads w.heap
      → Reads (add_server run_monitor k w).heap
  unfolding add_server
  add_server-Reads run_monitor k w h =
      let other : (w.heap.next == r) ≡ false = ground (arith, h.0) in
      (omega (arith, h.0), rw other h.1)

  add_missing_hosts-Reads :
      (run_monitor : Bool) (q : ℕ) (w : World)
      → Reads w.heap
      → Reads (add_missing_hosts run_monitor q w).heap
  unfolding add_missing_hosts
  add_missing_hosts-Reads run_monitor q w h =
      add_hosts_keeps (λ v. Reads v.heap) run_monitor _
        (λ k v _ p. add_server-Reads run_monitor k v p) w h

  accept_primary-Reads :
      (run_monitor : Bool) (k : Host) (q : ℕ) (w : World)
      → Reads w.heap
      → Reads (accept_primary run_monitor k q w).heap
  unfolding accept_primary check_if_has_primary retain_servers
  accept_primary-Reads run_monitor k q w h =
      add_missing_hosts-Reads run_monitor q _ (invalidate_others-Reads k w.servers w.heap h)

  named-Reads : (q : ℕ) (w : World) → Reads w.heap → Reads (named q w).heap
  named-Reads q w h =
      adopt_set_name_cases (λ v. Reads v.heap) (record { host_name = []; ipc = []; port = 0 }) q w _
        (λ _. h) (λ _. h)

  pub update_private-Reads :
      (run_monitor : Bool) (k : Host) (q : ℕ) (w : World)
      → Reads w.heap
      → Reads (update_private run_monitor k q w).heap
  unfolding remove_server retain_servers
  update_private-Reads run_monitor k q w h =
      update_private_keeps (λ v. Reads v.heap) run_monitor k q w (λ _ v p. p) (λ v p. p)
        (named-Reads q) (add_missing_hosts-Reads run_monitor q)
        (λ p. demote_found-Reads (find k w.servers) w.heap p)
        (λ p _. accept_primary-Reads run_monitor k q (named q w) (named-Reads q w p)) h
