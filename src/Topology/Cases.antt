-- ===== src/Topology/Cases.antt =====
-- The branches of the updates in topology/mod.rs, each as a rule: what holds of the outcome of every
-- branch, under the tests that lead to it, holds of the update.
use old_mongo_rust_driver.Prelude.{
  ℕ, ◌≡◌, inl, inr, Bool, true, false, Option, none, some, List, [], ◌∷◌, ◌==◌, Bool-cases, length,
  is_empty,
}
use old_mongo_rust_driver.Prelude.Text.{Text, text_eq}
use old_mongo_rust_driver.Connstring.Host.{Host, host_eq}
use old_mongo_rust_driver.Topology.State.{
  World, single, replica_set_no_primary, contains_key, find, remove_server,
}
use old_mongo_rust_driver.Topology.Update.{
  set_type, demote_found, add_server, add_hosts, add_missing_hosts, check_if_has_primary, is_stale,
  accept_primary, adopt_set_name, check_me_without_primary, check_me_with_primary,
  update_unknown_with_standalone, update_rs_from_primary, update_rs_without_primary,
  update_rs_with_primary_from_member,
}

-- The topology when the description at `r` has given it a set name, if it had none.
abbrev pub named : ℕ → World → World
named r w = adopt_set_name (w.heap.cell r).set_name w

abbrev pub stale_world : Host → ℕ → World → World
stale_world k r w = record (named r w) { heap = demote_found (find k w.servers) w.heap }

module _ {ℓ} (P : World → Type ℓ) (k : Host) (r : ℕ) (w : World) where
  pub adopt_set_name_cases :
      (name : Text)
      → (is_empty w.set_name ≡ true → P (record w { top = record (w.top) { set_name = name } }))
      → (is_empty w.set_name ≡ false → P w)
      → P (adopt_set_name name w)
  unfolding adopt_set_name
  adopt_set_name_cases name f g = elim (Bool-cases (is_empty w.set_name)) [
    | inl e ↦ rw e (f e)
    | inr e ↦ rw e (g e)
  ]

  pub update_rs_from_primary_cases :
      (run_monitor : Bool)
      → (contains_key k w.servers ≡ false → P w)
      → (contains_key k w.servers ≡ true
          → text_eq (named r w).set_name (w.heap.cell r).set_name ≡ false
          → P (check_if_has_primary (remove_server k w)))
      → (contains_key k w.servers ≡ true
          → text_eq (named r w).set_name (w.heap.cell r).set_name ≡ true
          → is_stale
              (w.heap.cell r).set_version
              (w.heap.cell r).election_id
              w.max_set_version
              w.max_election_id
            ≡ true
          → P (check_if_has_primary (stale_world k r w)))
      → (contains_key k w.servers ≡ true
          → text_eq (named r w).set_name (w.heap.cell r).set_name ≡ true
          → is_stale
              (w.heap.cell r).set_version
              (w.heap.cell r).election_id
              w.max_set_version
              w.max_election_id
            ≡ false
          → P (accept_primary run_monitor k r (named r w)))
      → P (update_rs_from_primary run_monitor k r w)
  unfolding update_rs_from_primary
  update_rs_from_primary_cases run_monitor absent other stale accepted =
      elim (Bool-cases (contains_key k w.servers)) [
        | inr e ↦ rw (e, update_rs_from_primary) (absent e)
        | inl e ↦ elim (Bool-cases (text_eq (named r w).set_name (w.heap.cell r).set_name)) [
          | inr f ↦ rw (e, f, update_rs_from_primary) (other e f)
          | inl f ↦
              elim (Bool-cases (
                is_stale (w.heap.cell r).set_version (w.heap.cell r).election_id w.max_set_version
                  w.max_election_id)) [
                    | inl g ↦ rw (e, f, g, update_rs_from_primary) (stale e f g)
                    | inr g ↦ rw (e, f, g, update_rs_from_primary) (accepted e f g)
                  ]
        ]
      ]

  pub update_rs_without_primary_cases :
      (run_monitor : Bool)
      → (contains_key k w.servers ≡ false → P (set_type replica_set_no_primary w))
      → (contains_key k w.servers ≡ true
          → P (check_if_has_primary (remove_server k (set_type replica_set_no_primary w))))
      → (contains_key k w.servers ≡ true
          → let v = add_missing_hosts run_monitor r (named r (set_type replica_set_no_primary w)) in
            P (check_me_without_primary k (v.heap.cell r).me v))
      → P (update_rs_without_primary run_monitor k r w)
  unfolding update_rs_without_primary
  update_rs_without_primary_cases run_monitor absent other member =
      elim (Bool-cases (contains_key k w.servers)) [
        | inr e ↦ rw (e, update_rs_without_primary) (absent e)
        | inl e ↦
            elim (Bool-cases (
              text_eq (named r (set_type replica_set_no_primary w)).set_name
                (w.heap.cell r).set_name)) [
                  | inr f ↦ rw (e, f, update_rs_without_primary) (other e)
                  | inl f ↦ rw (e, f, update_rs_without_primary) (member e)
                ]
      ]

  pub update_rs_with_primary_from_member_cases :
      (contains_key k w.servers ≡ false → P w)
      → P (check_me_with_primary k (w.heap.cell r).me (remove_server k w))
      → P (check_me_with_primary k (w.heap.cell r).me w)
      → P (update_rs_with_primary_from_member k r w)
  unfolding update_rs_with_primary_from_member
  update_rs_with_primary_from_member_cases absent other member =
      elim (Bool-cases (contains_key k w.servers)) [
        | inr e ↦ rw (e, update_rs_with_primary_from_member) (absent e)
        | inl e ↦ elim (Bool-cases (text_eq w.set_name (w.heap.cell r).set_name)) [
          | inr f ↦ rw (e, f, update_rs_with_primary_from_member) other
          | inl f ↦ rw (e, f, update_rs_with_primary_from_member) member
        ]
      ]

  pub update_unknown_with_standalone_cases :
      P w
      → ((length w.servers == 1) ≡ true → P (set_type single w))
      → P (remove_server k w)
      → P (update_unknown_with_standalone k w)
  unfolding update_unknown_with_standalone
  update_unknown_with_standalone_cases absent alone several =
      elim (Bool-cases (contains_key k w.servers)) [
        | inr e ↦ rw (e, update_unknown_with_standalone) absent
        | inl e ↦ elim (Bool-cases (length w.servers == 1)) [
          | inl f ↦ rw (e, f, update_unknown_with_standalone) (alone f)
          | inr f ↦ rw (e, f, update_unknown_with_standalone) several
        ]
      ]

  pub check_me_without_primary_cases :
      (me : Option Host)
      → P w
      → P (check_if_has_primary (remove_server k w))
      → P (check_me_without_primary k me w)
  unfolding check_me_without_primary
  check_me_without_primary_cases none same other = same
  check_me_without_primary_cases (some me) same other = elim (Bool-cases (host_eq k me)) [
    | inl e ↦ rw e same
    | inr e ↦ rw e other
  ]

  pub check_me_with_primary_cases :
      (me : Option Host)
      → P (check_if_has_primary w)
      → P w
      → P (remove_server k w)
      → P (check_me_with_primary k me w)
  unfolding check_me_with_primary
  check_me_with_primary_cases none checked same other = checked
  check_me_with_primary_cases (some me) checked same other = elim (Bool-cases (host_eq k me)) [
    | inl e ↦ rw e same
    | inr e ↦ rw e other
  ]

-- What survives a new server survives the loop that adds the missing ones.
pub add_hosts_keeps {ℓ} :
    (P : World → Type ℓ) (run_monitor : Bool) (hosts : List Host)
    → ((h : Host) (v : World)
        → contains_key h v.servers ≡ false
        → P v
        → P (add_server run_monitor h v))
    → (v : World) → P v
    → P (add_hosts run_monitor hosts v)
unfolding add_hosts
add_hosts_keeps P run_monitor [] keep v p = p
add_hosts_keeps P run_monitor (h ∷ hosts) keep v p = elim (Bool-cases (contains_key h v.servers)) [
  | inl e ↦ rw (e, add_hosts) (add_hosts_keeps P run_monitor hosts keep v p)
  | inr e ↦
      rw (e, add_hosts)
        (add_hosts_keeps P run_monitor hosts keep (add_server run_monitor h v) (keep h v e p))
]
