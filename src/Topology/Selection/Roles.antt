-- ===== src/Topology/Selection/Roles.antt =====
-- topology/mod.rs: `choose_hosts` and `choose_write_hosts`, and the hosts that suit an operation.
use old_mongo_rust_driver.Prelude.{
  ℕ, ◌≡◌, refl, inl, inr, Bool, true, false, not, ◌||◌, Option, none, some, List, [], ◌∷◌, arith,
  All, Bool-cases, is_empty,
}
use old_mongo_rust_driver.Connstring.Host.{Host, host_eq, host_eq_iff}
use old_mongo_rust_driver.Topology.Server.{ServerDescription, ServerType, is_primary, is_unknown}
use old_mongo_rust_driver.Topology.State.{
  World, TopologyType, single, replica_set_no_primary, replica_set_with_primary, sharded,
  undiscovered, Server, find, contains_key, type_of,
}
use old_mongo_rust_driver.Topology.Invariant.{IsWf, IsMap}
use old_mongo_rust_driver.Topology.Servers.{host_eq_self}
use old_mongo_rust_driver.Topology.Selection.{
  ReadMode, primary, primary_preferred, secondary, secondary_preferred, nearest, ReadPreference,
  is_secondary, hosts_where, keys, first_unless_empty, choose_member, choose, choose_hosts,
  choose_for_writes, choose_write_hosts, description_of,
}

-- The server types that a replica set's read mode accepts.
abbrev pub member_suits : ReadMode → ServerType → Bool
member_suits primary t = is_primary t
member_suits secondary t = is_secondary t
member_suits primary_preferred t = is_primary t || is_secondary t
member_suits secondary_preferred t = is_primary t || is_secondary t
member_suits nearest t = not (is_unknown t)

-- The server types that a read accepts, by the topology's type.
abbrev pub suits : TopologyType → ReadMode → ServerType → Bool
suits undiscovered m t = false
suits single m t = true
suits sharded m t = true
suits replica_set_no_primary m t = member_suits m t
suits replica_set_with_primary m t = member_suits m t

-- The server types that a write accepts.
abbrev pub suits_writes : TopologyType → ServerType → Bool
suits_writes undiscovered t = false
suits_writes single t = true
suits_writes sharded t = true
suits_writes replica_set_no_primary t = is_primary t
suits_writes replica_set_with_primary t = is_primary t

abbrev pub described_passes : (ServerType → Bool) → Option ServerDescription → Bool
described_passes p none = false
described_passes p (some d) = p d.server_type

-- The host has a server, whose type passes the test.
unfoldable pub passes : (ServerType → Bool) → World → Host → Bool
passes p w h = described_passes p (description_of w h)

others_differ :
    (h : Host) (xs : List (Host × Server))
    → contains_key h xs ≡ false
    → All (λ e. host_eq h e.0 ≡ false) xs
unfolding contains_key
others_differ h [] c = tt
others_differ h ((g, s) ∷ xs) c =
    (ground (arith, host_eq_iff h g, host_eq_iff g h), others_differ h xs (ground arith))

-- In a map, each entry is what its host finds.
find-entry : (n : ℕ) (xs : List (Host × Server)) → IsMap n xs → All (λ e. find e.0 xs ≡ some e.1) xs
unfolding find
find-entry n [] m = tt
find-entry n ((h, s) ∷ xs) (named, once, low, own, m) =
    (ground (arith, host_eq_self h), find-tail xs (others_differ h xs once) (find-entry n xs m))
  where
    find-tail :
        (ys : List (Host × Server))
        → All (λ e. host_eq h e.0 ≡ false) ys
        → All (λ e. find e.0 xs ≡ some e.1) ys
        → All (λ e. find e.0 ((h, s) ∷ xs) ≡ some e.1) ys
    find-tail [] d f = tt
    find-tail (y ∷ ys) (d, ds) (f, fs) = (rw (d, f, find), find-tail ys ds fs)

module _ (w : World) (m : IsWf w) where
  hosts_of :
      (p q : ServerType → Bool)
      → ((t : ServerType) → p t ≡ true → q t ≡ true)
      → (xs : List (Host × Server)) → All (λ e. find e.0 w.servers ≡ some e.1) xs
      → All (λ h. passes q w h ≡ true) (hosts_where p w.heap xs)
  unfolding hosts_where passes
  hosts_of p q imp [] f = tt
  hosts_of p q imp ((h, s) ∷ xs) (f, fs) = elim (Bool-cases (p (type_of w.heap s))) [
    | inl e ↦ rw e (rw f (imp _ e), hosts_of p q imp xs fs)
    | inr e ↦ rw e (hosts_of p q imp xs fs)
  ]

  pub hosts_where-passes :
      (p q : ServerType → Bool)
      → ((t : ServerType) → p t ≡ true → q t ≡ true)
      → All (λ h. passes q w h ≡ true) (hosts_where p w.heap w.servers)
  hosts_where-passes p q imp =
      hosts_of p q imp w.servers (find-entry w.heap.next w.servers m.entries)

  keys_of :
      (q : ServerType → Bool)
      → ((t : ServerType) → q t ≡ true)
      → (xs : List (Host × Server)) → All (λ e. find e.0 w.servers ≡ some e.1) xs
      → All (λ h. passes q w h ≡ true) (keys xs)
  unfolding passes
  keys_of q every [] f = tt
  keys_of q every ((h, s) ∷ xs) (f, fs) = (rw f (every _), keys_of q every xs fs)

  keys-passes :
      (q : ServerType → Bool)
      → ((t : ServerType) → q t ≡ true)
      → All (λ h. passes q w h ≡ true) (keys w.servers)
  keys-passes q every = keys_of q every w.servers (find-entry w.heap.next w.servers m.entries)

  either :
      (q : ServerType → Bool) (xs ys : List Host)
      → All (λ h. passes q w h ≡ true) xs
      → All (λ h. passes q w h ≡ true) ys
      → All (λ h. passes q w h ≡ true) (first_unless_empty xs ys)
  either q [] ys a b = b
  either q (x ∷ xs) ys a b = a

  choose_member-suits :
      (mode : ReadMode)
      → All (λ h. passes (member_suits mode) w h ≡ true) (choose_member mode w.heap w.servers).0
  unfolding choose_member
  choose_member-suits nearest = hosts_where-passes _ _ (λ t e. e)
  choose_member-suits primary = hosts_where-passes _ _ (λ t e. e)
  choose_member-suits secondary = hosts_where-passes _ _ (λ t e. e)
  choose_member-suits primary_preferred =
      either _ _ _
        (hosts_where-passes is_primary (member_suits primary_preferred) (λ t e. ground arith))
        (hosts_where-passes is_secondary (member_suits primary_preferred) (λ t e. ground arith))
  choose_member-suits secondary_preferred =
      either _ _ _
        (hosts_where-passes is_secondary (member_suits secondary_preferred) (λ t e. ground arith))
        (hosts_where-passes is_primary (member_suits secondary_preferred) (λ t e. ground arith))

  choose-suits :
      (t : TopologyType) (mode : ReadMode)
      → All (λ h. passes (suits t mode) w h ≡ true) (choose t mode w.heap w.servers).0
  unfolding choose
  choose-suits undiscovered mode = tt
  choose-suits single mode = keys-passes _ (λ t. refl)
  choose-suits sharded mode = keys-passes _ (λ t. refl)
  choose-suits replica_set_no_primary mode = choose_member-suits mode
  choose-suits replica_set_with_primary mode = choose_member-suits mode

  pub choose_hosts-suits :
      (pref : ReadPreference)
      → All (λ h. passes (suits w.topology_type pref.mode) w h ≡ true) (choose_hosts w pref).0
  unfolding choose_hosts
  choose_hosts-suits pref = elim (Bool-cases (is_empty w.servers)) [
    | inl e ↦ rw e tt
    | inr e ↦ rw e (choose-suits w.topology_type pref.mode)
  ]

  choose_for_writes-suits :
      (t : TopologyType)
      → All (λ h. passes (suits_writes t) w h ≡ true) (choose_for_writes t w.heap w.servers).0
  unfolding choose_for_writes
  choose_for_writes-suits undiscovered = tt
  choose_for_writes-suits single = keys-passes _ (λ t. refl)
  choose_for_writes-suits sharded = keys-passes _ (λ t. refl)
  choose_for_writes-suits replica_set_no_primary = hosts_where-passes _ _ (λ t e. e)
  choose_for_writes-suits replica_set_with_primary = hosts_where-passes _ _ (λ t e. e)

  pub choose_write_hosts-suits :
      All (λ h. passes (suits_writes w.topology_type) w h ≡ true) (choose_write_hosts w).0
  unfolding choose_write_hosts
  choose_write_hosts-suits = elim (Bool-cases (is_empty w.servers)) [
    | inl e ↦ rw e tt
    | inr e ↦ rw e (choose_for_writes-suits w.topology_type)
  ]
