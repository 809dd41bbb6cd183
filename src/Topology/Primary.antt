-- ===== src/Topology/Primary.antt =====
-- topology/mod.rs: what `accept_primary`, the accepted report of a primary, leaves of a topology.
use old_mongo_rust_driver.Prelude.{
  ℕ, ◌+◌, ◌<◌, ◌≤◌, ◌≡◌, refl, sym, ap, subst, ◌∙◌, inl, inr, Bool, true, false, List, [], ◌∷◌,
  arith, if◌then◌else◌, Bool-cases, All, All-append,
}
use old_mongo_rust_driver.Prelude.Text.{text_eq}
use old_mongo_rust_driver.Connstring.Host.{Host, host_eq, host_eq_iff}
use old_mongo_rust_driver.Topology.Server.{ServerDescription, new as new_description}
use old_mongo_rust_driver.Topology.State.{
  Server, Heap, write, World, replica_set_no_primary, replica_set_with_primary, contains_key,
  contains, retain_servers,
}
use old_mongo_rust_driver.Topology.Update.{
  all_hosts, add_server, add_hosts, add_missing_hosts, is_stale, accept_primary,
  update_rs_from_primary, check_if_has_primary, has_primary,
}
use old_mongo_rust_driver.Topology.Cases.{named, adopt_set_name_cases, add_hosts_keeps}
use old_mongo_rust_driver.Topology.Invariant.{IsMap, IsWf, add_server-IsWf}
use old_mongo_rust_driver.Topology.Servers.{
  contains_key-append, contains_key-retain, All-retain, IsAlone, NotPrimary,
  invalidate_others-IsAlone, invalidate_others-all_hosts,
}

same_key :
    (h j : Host) (xs : List (Host × Server))
    → host_eq h j ≡ true
    → contains_key j xs ≡ contains_key h xs
same_key h j xs e = ap (λ x. contains_key x xs) (sym ((host_eq_iff h j).0 e))

added_key :
    (run_monitor : Bool) (h j : Host) (w : World)
    → contains_key j (add_server run_monitor h w).servers
      ≡ (if contains_key j w.servers then true else host_eq h j)
unfolding add_server
added_key run_monitor h j w = contains_key-append j h _ w.servers

-- A host is known when its loop is over just if it was known or is one of the list.
add_hosts-contains_key :
    (run_monitor : Bool) (j : Host) (hosts : List Host) (w : World)
    → contains_key j (add_hosts run_monitor hosts w).servers
      ≡ (if contains_key j w.servers then true else contains j hosts)
unfolding add_hosts contains
add_hosts-contains_key run_monitor j [] w = ground arith
add_hosts-contains_key run_monitor j (h ∷ hosts) w = elim (Bool-cases (contains_key h w.servers)) [
  | inl e ↦
      rw (e, add_hosts)
        (add_hosts-contains_key run_monitor j hosts w ∙ ground (arith, same_key h j w.servers))
  | inr e ↦
      rw (e, add_hosts)
        (add_hosts-contains_key run_monitor j hosts (add_server run_monitor h w)
          ∙ ground (arith, added_key run_monitor h j w))
]

-- The descriptions that were allocated stay as they are.
record Extends (old : Heap) (w : World) : Type 0 where
  more : old.next ≤ w.heap.next
  same : (q : ℕ) → q < old.next → w.heap.cell q ≡ old.cell q

add_server-Extends :
    (run_monitor : Bool) (old : Heap) (h : Host) (w : World)
    → Extends old w
    → Extends old (add_server run_monitor h w)
unfolding add_server
add_server-Extends run_monitor old h w e = record {
  more = omega (arith, e.more);
  same = λ q lt. ground (arith, e.more, e.same q lt);
}

add_missing_hosts-Extends :
    (run_monitor : Bool) (r : ℕ) (w : World) → Extends w.heap (add_missing_hosts run_monitor r w)
unfolding add_missing_hosts
add_missing_hosts-Extends run_monitor r w =
    add_hosts_keeps (Extends w.heap) run_monitor _
      (λ h v _ e. add_server-Extends run_monitor w.heap h v e) w
      (record { more = omega arith; same = λ q _. refl })

-- Every server but that of the host is no primary, in a map that is in shape.
record IsQuiet (k : Host) (w : World) : Type 0 where
  shape : IsWf w
  quiet : IsAlone k w.heap w.servers

low_entries : (n : ℕ) (xs : List (Host × Server)) → IsMap n xs → All (λ e. e.1.description < n) xs
low_entries n [] m = tt
low_entries n ((h, s) ∷ xs) (named, once, low, own, m) = (low, low_entries n xs m)

IsAlone-write :
    (k : Host) (heap : Heap) (d : ServerDescription) (n : ℕ) (xs : List (Host × Server))
    → All (λ e. e.1.description < heap.next) xs
    → IsAlone k heap xs
    → IsAlone k (record (write heap heap.next d) { next = n }) xs
IsAlone-write k heap d n [] low a = tt
IsAlone-write k heap d n ((h, s) ∷ xs) (l, low) (a, rest) =
    (λ other. ground (arith, l, a other), IsAlone-write k heap d n xs low rest)

add_server-IsQuiet :
    (run_monitor : Bool) (k h : Host) (w : World)
    → contains_key h w.servers ≡ false
    → IsQuiet k w
    → IsQuiet k (add_server run_monitor h w)
unfolding add_server
add_server-IsQuiet run_monitor k h w new q = record {
  shape = add_server-IsWf run_monitor h w q.shape new;
  quiet =
      All-append
        (λ e.
          host_eq e.0 k ≡ false
          → NotPrimary
              (record (write w.heap w.heap.next new_description) { next = w.heap.next + 1 })
              e.1.description)
        w.servers _
        (IsAlone-write k w.heap new_description (w.heap.next + 1) w.servers
          (low_entries w.heap.next w.servers q.shape.entries) q.quiet)
        (λ other. ground arith, tt);
}

-- What an accepted primary's report makes of the topology: the servers are those that it names, no
-- other is a primary, and the type says whether there is one.
pub record IsTaken (k : Host) (hosts : List Host) (w : World) : Type 0 where
  pub members : (h : Host) → contains_key h w.servers ≡ contains h hosts
  pub alone : IsAlone k w.heap w.servers
  pub typed :
      w.topology_type
      ≡ (if has_primary w.heap w.servers then replica_set_with_primary else replica_set_no_primary)

module _ (run_monitor : Bool) (k : Host) (r : ℕ) where
  retained-IsTaken :
      (hosts : List Host) (w : World)
      → IsQuiet k w
      → all_hosts (w.heap.cell r) ≡ hosts
      → ((h : Host) → contains h hosts ≡ true → contains_key h w.servers ≡ true)
      → IsTaken k hosts
          (check_if_has_primary (retain_servers (λ h. contains h (all_hosts (w.heap.cell r))) w))
  unfolding check_if_has_primary retain_servers
  retained-IsTaken hosts w q same all_known = record {
    members = λ h.
        contains_key-retain (λ j. contains j (all_hosts (w.heap.cell r))) h w.servers
        ∙ ap (λ l. if contains h l then contains_key h w.servers else false) same
        ∙ ground (arith, all_known h);
    alone = All-retain _ _ w.servers q.quiet;
    typed = refl;
  }

  added-IsTaken :
      (hosts : List Host) (w : World)
      → IsQuiet k w
      → r < w.heap.next
      → all_hosts (w.heap.cell r) ≡ hosts
      → let v = add_missing_hosts run_monitor r w in
        IsTaken k hosts
          (check_if_has_primary (retain_servers (λ h. contains h (all_hosts (v.heap.cell r))) v))
  unfolding add_missing_hosts
  added-IsTaken hosts w q low named =
      retained-IsTaken hosts (add_missing_hosts run_monitor r w)
        (add_hosts_keeps (IsQuiet k) run_monitor (all_hosts (w.heap.cell r))
          (λ h v new p. add_server-IsQuiet run_monitor k h v new p) w q)
        (ap all_hosts ((add_missing_hosts-Extends run_monitor r w).same r low) ∙ named)
        (λ h e.
          add_hosts-contains_key run_monitor h (all_hosts (w.heap.cell r)) w
          ∙ ground (arith, e, ap (contains h) named))

  accept_primary-IsTaken :
      (w : World)
      → IsWf w
      → r < w.heap.next
      → IsTaken k (all_hosts (w.heap.cell r)) (accept_primary run_monitor k r w)
  unfolding accept_primary
  accept_primary-IsTaken w m low =
      let same = invalidate_others-all_hosts k w.servers w.heap r in
      added-IsTaken (all_hosts (w.heap.cell r)) _
        (record {
          shape = record { entries = subst (λ n. IsMap n w.servers) (sym same.1) m.entries };
          quiet = invalidate_others-IsAlone k w.servers w.heap;
        })
        (subst (λ n. r < n) (sym same.1) low) same.0

-- If a known host's description says that it is the primary, of the topology's set and not a stale one,
-- the update leaves exactly the servers that the description names, each other server no primary, and
-- the type `ReplicaSetWithPrimary` just if one of the servers is a primary.
pub update_rs_from_primary-IsTaken :
    (run_monitor : Bool) (k : Host) (r : ℕ) (w : World)
    → IsWf w
    → r < w.heap.next
    → contains_key k w.servers ≡ true
    → text_eq (named r w).set_name (w.heap.cell r).set_name ≡ true
    → is_stale
        (w.heap.cell r).set_version
        (w.heap.cell r).election_id
        w.max_set_version
        w.max_election_id
      ≡ false
    → IsTaken k (all_hosts (w.heap.cell r)) (update_rs_from_primary run_monitor k r w)
unfolding update_rs_from_primary
update_rs_from_primary-IsTaken run_monitor k r w m low known own fresh =
    rw (known, own, fresh, update_rs_from_primary)
      (adopt_set_name_cases
        (λ v. IsTaken k (all_hosts (w.heap.cell r)) (accept_primary run_monitor k r v)) k r w _
        (λ _. accept_primary-IsTaken run_monitor k r _ (record { entries = m.entries }) low)
        (λ _. accept_primary-IsTaken run_monitor k r w m low))
