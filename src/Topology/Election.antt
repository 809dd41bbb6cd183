-- ===== src/Topology/Election.antt =====
-- The largest set version and election id that topology/mod.rs keeps, to tell a stale primary.
use old_mongo_rust_driver.Prelude.{
  ℕ, ◌≤◌, ◌≡◌, refl, ◌⊎◌, inl, inr, Bool, false, Option, none, some, arith, Bool-cases,
}
use old_mongo_rust_driver.Prelude.Int.{ℤ, ◌≤ℤ◌, ◌<ℤ◌, ltb_ℤ}
use old_mongo_rust_driver.Connstring.Host.{Host}
use old_mongo_rust_driver.Topology.State.{World, find, retain_servers, remove_server}
use old_mongo_rust_driver.Topology.Update.{
  demote_found, is_stale, is_older, next_election_id, next_set_version, accept_primary, add_server,
  add_missing_hosts, check_if_has_primary, update_private,
}
use old_mongo_rust_driver.Topology.Cases.{adopt_set_name_cases, add_hosts_keeps}
use old_mongo_rust_driver.Topology.Rule.{update_private_keeps}

-- The pair `b y` is no earlier than `a x`: by set version first, then by election id. Nothing is asked
-- of a pair where no set version was known.
abbrev pub Advances : Option ℤ → Option ℕ → Option ℤ → Option ℕ → Type 0
Advances none x b y = Unit
Advances (some a) none b y = (c : ℤ) × (b ≡ some c) × (a ≤ℤ c)
Advances (some a) (some x) b y =
    (c : ℤ) × (z : ℕ) × (b ≡ some c) × (y ≡ some z) × ((a <ℤ c) ⊎ ((a ≡ c) × (x ≤ z)))

Advances-refl : (a : Option ℤ) (x : Option ℕ) → Advances a x a x
Advances-refl none x = tt
Advances-refl (some a) none = (a, refl, omega arith)
Advances-refl (some a) (some x) = (a, x, refl, refl, inr (refl, omega arith))

not_older :
    (sv : ℤ) (eid : ℕ) (a : ℤ) (x : ℕ) → ltb_ℤ a sv ≡ false → is_older sv eid a x ≡ false → x ≤ eid
not_older sv eid a x e h = ground arith

next-Advances :
    (sv : Option ℤ) (eid : Option ℕ) (a : Option ℤ) (x : Option ℕ)
    → is_stale sv eid a x ≡ false
    → Advances a x (next_set_version sv a) (next_election_id sv eid x)
unfolding is_stale next_set_version next_election_id
next-Advances sv eid none x h = tt
next-Advances none eid (some a) x h = Advances-refl (some a) x
next-Advances (some sv) none (some a) none h = elim (Bool-cases (ltb_ℤ a sv)) [
  | inl e ↦ (sv, rw e, ground arith)
  | inr e ↦ (a, rw e, omega arith)
]
next-Advances (some sv) none (some a) (some x) h = elim (Bool-cases (ltb_ℤ a sv)) [
  | inl e ↦ (sv, x, rw e, refl, inl (ground arith))
  | inr e ↦ (a, x, rw e, refl, inr (refl, omega arith))
]
next-Advances (some sv) (some eid) (some a) none h = elim (Bool-cases (ltb_ℤ a sv)) [
  | inl e ↦ (sv, rw e, ground arith)
  | inr e ↦ (a, rw e, omega arith)
]
next-Advances (some sv) (some eid) (some a) (some x) h = elim (Bool-cases (ltb_ℤ a sv)) [
  | inl e ↦ (sv, eid, rw e, refl, inl (ground arith))
  | inr e ↦ (a, eid, rw e, refl, inr (refl, not_older sv eid a x e h))
]

-- The largest values of one topology against those of another.
abbrev pub Follows : World → World → Type 0
Follows w v = Advances w.max_set_version w.max_election_id v.max_set_version v.max_election_id

remove_server-Follows :
    (w : World) (k : Host) (v : World) → Follows w v → Follows w (remove_server k v)
unfolding remove_server retain_servers
remove_server-Follows w k v p = p

add_missing_hosts-Follows :
    (w : World) (run_monitor : Bool) (r : ℕ) (v : World)
    → Follows w v
    → Follows w (add_missing_hosts run_monitor r v)
unfolding add_missing_hosts add_server
add_missing_hosts-Follows w run_monitor r v p =
    add_hosts_keeps (Follows w) run_monitor _ (λ h u _ q. q) v p

accept_primary-Follows :
    (run_monitor : Bool) (k : Host) (r : ℕ) (w : World)
    → is_stale
        (w.heap.cell r).set_version
        (w.heap.cell r).election_id
        w.max_set_version
        w.max_election_id
      ≡ false
    → Follows w (accept_primary run_monitor k r w)
unfolding accept_primary check_if_has_primary retain_servers
accept_primary-Follows run_monitor k r w h = add_missing_hosts-Follows w run_monitor r _ (
    next-Advances (w.heap.cell r).set_version (w.heap.cell r).election_id w.max_set_version
      w.max_election_id h)

-- No update by any server description moves the largest known set version and election id back.
pub update_private-Follows :
    (run_monitor : Bool) (k : Host) (r : ℕ) (w : World)
    → Follows w (update_private run_monitor k r w)
update_private-Follows run_monitor k r w =
    update_private_keeps (Follows w) run_monitor k r w (λ t v p. p) (remove_server-Follows w k)
      (λ v p. adopt_set_name_cases (Follows w) k r v _ (λ _. p) (λ _. p))
      (add_missing_hosts-Follows w run_monitor r)
      (λ p.
        adopt_set_name_cases
          (λ v. Follows w (record v { heap = demote_found (find k w.servers) w.heap })) k r w _
          (λ _. p) (λ _. p))
      (λ p fresh.
        adopt_set_name_cases (λ v. Follows w (accept_primary run_monitor k r v)) k r w _
          (λ _.
            accept_primary-Follows run_monitor k r
              (record w { top = record (w.top) { set_name = (w.heap.cell r).set_name } }) fresh)
          (λ _. accept_primary-Follows run_monitor k r w fresh))
      (Advances-refl w.max_set_version w.max_election_id)
