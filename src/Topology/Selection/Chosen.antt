-- ===== src/Topology/Selection/Chosen.antt =====
-- topology/mod.rs: the steps of server selection, and what holds of every host.
use old_mongo_rust_driver.Prelude.{
  ℕ, zero, suc, inl, inr, Option, none, some, List, [], ◌∷◌, All, Bool-cases, is_empty, take, drop,
}
use old_mongo_rust_driver.Prelude.Int.{ℤ, leb_ℤ, eqb_ℤ, i64_max}
use old_mongo_rust_driver.Connstring.Host.{Host}
use old_mongo_rust_driver.Topology.State.{World}
use old_mongo_rust_driver.Topology.Servers.{All-retain}
use old_mongo_rust_driver.Topology.Selection.{
  ReadMode, ReadPreference, allows_primary, filter_by, filter_hosts, tag_filter, within_latency,
  filter_latency_hosts, rtt,
}
use old_mongo_rust_driver.Topology.Selection.Streams.{insert, sort, nth}

module _ {ℓ κ} {A : Type ℓ} (P : A → Type κ) where
  pub All-take : (n : ℕ) (xs : List A) → All P xs → All P (take n xs)
  All-take zero xs h = tt
  All-take (suc n) [] h = tt
  All-take (suc n) (x ∷ xs) h = (h.0, All-take n xs h.1)

  pub All-drop : (n : ℕ) (xs : List A) → All P xs → All P (drop n xs)
  All-drop zero xs h = h
  All-drop (suc n) [] h = tt
  All-drop (suc n) (x ∷ xs) h = All-drop n xs h.1

-- The element, if there is one, has the property.
abbrev pub Holds {κ} : (Host → Type κ) → Option Host → Type κ
Holds P none = Unit
Holds P (some h) = P h

module _ {κ} (P : Host → Type κ) (w : World) where
  pub nth-Holds : (hs : List Host) (n : ℕ) → All P hs → Holds P (nth hs n)
  nth-Holds [] n a = tt
  nth-Holds (h ∷ hs) zero a = a.0
  nth-Holds (h ∷ hs) (suc n) a = nth-Holds hs n a.1

  insert-All : (h : Host) (hs : List Host) → P h → All P hs → All P (insert w h hs)
  unfolding insert
  insert-All h [] p a = (p, tt)
  insert-All h (g ∷ gs) p a = elim (Bool-cases (leb_ℤ (rtt w h) (rtt w g))) [
    | inl e ↦ rw (e, All, insert) (p, a)
    | inr e ↦ rw (e, All, insert) (a.0, insert-All h gs p a.1)
  ]

  pub sort-All : (hs : List Host) → All P hs → All P (sort w hs)
  unfolding sort
  sort-All [] a = tt
  sort-All (h ∷ hs) a = insert-All h (sort w hs) a.0 (sort-All hs a.1)

  filter_by-All :
      (m : ReadMode) (o : Option _) (hs : List Host) → All P hs → All P (filter_by w m o hs)
  unfolding filter_by
  filter_by-All m none hs a = elim (Bool-cases (allows_primary w.topology_type m)) [
    | inl e ↦ rw e (All-retain P _ hs a)
    | inr e ↦ rw e tt
  ]
  filter_by-All m (some tags) hs a = All-retain P _ hs a

  pub filter_hosts-All :
      (pref : ReadPreference) (hs : List Host) → All P hs → All P (filter_hosts w pref hs)
  unfolding filter_hosts
  filter_hosts-All pref hs a = elim (Bool-cases (is_empty pref.tag_sets)) [
    | inl e ↦ rw e a
    | inr e ↦ rw e (filter_by-All pref.mode (tag_filter w hs pref.tag_sets) hs a)
  ]

  within_latency-All : (low : ℤ) (hs : List Host) → All P hs → All P (within_latency w low hs)
  unfolding within_latency
  within_latency-All low hs a = elim (Bool-cases (eqb_ℤ low i64_max)) [
    | inl e ↦ rw (e, within_latency) a
    | inr e ↦ rw (e, within_latency) (All-retain P _ hs a)
  ]

  pub filter_latency_hosts-All : (hs : List Host) → All P hs → All P (filter_latency_hosts w hs)
  unfolding filter_latency_hosts
  filter_latency_hosts-All [] a = tt
  filter_latency_hosts-All (h ∷ []) a = a
  filter_latency_hosts-All (h ∷ g ∷ hs) a = within_latency-All _ (h ∷ g ∷ hs) a
