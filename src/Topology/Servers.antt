-- ===== src/Topology/Servers.antt =====
-- Laws of the server map of topology/mod.rs, and of the heap of descriptions under the writes that an
-- update makes.
use old_mongo_rust_driver.Prelude.{
  ℕ, ◌≡◌, refl, ap, ◌∙◌, inl, inr, Bool, true, false, not, ◌&&◌, List, [], ◌∷◌, ◌++◌, arith, ◌==◌,
  if◌then◌else◌, retain, All, Bool-cases, ==_iff,
}
use old_mongo_rust_driver.Connstring.Host.{Host, host_eq, host_eq_iff}
use old_mongo_rust_driver.Topology.Server.{is_primary}
use old_mongo_rust_driver.Topology.State.{
  Server, Heap, World, contains_key, type_of, retain_servers, remove_server,
}
use old_mongo_rust_driver.Topology.Update.{all_hosts, demote_at, invalidate_one, invalidate_others}

pub host_eq_self : (h : Host) → host_eq h h ≡ true
host_eq_self h = (host_eq_iff h h).1 refl

pub contains_key-append :
    (k h : Host) (s : Server) (xs : List (Host × Server))
    → contains_key k (xs ++ (h, s) ∷ []) ≡ (if contains_key k xs then true else host_eq h k)
unfolding contains_key
contains_key-append k h s [] = ground arith
contains_key-append k h s ((g, t) ∷ xs) = ground (arith, contains_key-append k h s xs)

keep-eq : (keep : Host → Bool) (h k : Host) → host_eq h k ≡ true → keep h ≡ keep k
keep-eq keep h k e = ap keep ((host_eq_iff h k).0 e)

pub contains_key-retain :
    (keep : Host → Bool) (k : Host) (xs : List (Host × Server))
    → contains_key k (retain (λ e. keep e.0) xs) ≡ (if keep k then contains_key k xs else false)
unfolding contains_key
contains_key-retain keep k [] = ground arith
contains_key-retain keep k ((h, s) ∷ xs) =
    ground (arith, keep-eq keep h k, contains_key-retain keep k xs)

pub contains_key-remove_server :
    (k j : Host) (w : World)
    → contains_key j (remove_server k w).servers
      ≡ (if host_eq j k then false else contains_key j w.servers)
unfolding remove_server retain_servers
contains_key-remove_server k j w =
    contains_key-retain (λ h. not (host_eq h k)) j w.servers ∙ ground arith

pub All-retain {ℓ κ} :
    {A : Type ℓ} (P : A → Type κ) (p : A → Bool) (xs : List A) → All P xs → All P (retain p xs)
All-retain P p [] h = tt
All-retain P p (x ∷ xs) h = elim (Bool-cases (p x)) [
  | inl e ↦ rw (e, All, retain) (h.0, All-retain P p xs h.1)
  | inr e ↦ rw (e, All, retain) (All-retain P p xs h.1)
]

-- The cell is not a primary.
abbrev pub NotPrimary : Heap → ℕ → Type 0
NotPrimary heap q = is_primary (heap.cell q).server_type ≡ false

-- Every entry but that of `host` is no primary.
abbrev pub IsAlone : Host → Heap → List (Host × Server) → Type 0
IsAlone host heap = All (λ e. host_eq e.0 host ≡ false → NotPrimary heap e.1.description)

invalidate_one-NotPrimary :
    (host k : Host) (s : Server) (heap : Heap) (q : ℕ)
    → NotPrimary heap q
    → NotPrimary (invalidate_one host k s heap) q
unfolding invalidate_one
invalidate_one-NotPrimary host k s heap q h = ground arith

pub invalidate_others-NotPrimary :
    (host : Host) (xs : List (Host × Server)) (heap : Heap) (q : ℕ)
    → NotPrimary heap q
    → NotPrimary (invalidate_others host xs heap) q
unfolding invalidate_others
invalidate_others-NotPrimary host [] heap q h = h
invalidate_others-NotPrimary host ((k, s) ∷ xs) heap q h =
    invalidate_others-NotPrimary host xs (invalidate_one host k s heap) q
      (invalidate_one-NotPrimary host k s heap q h)

invalidate_one_self :
    (host k : Host) (s : Server) (heap : Heap)
    → host_eq k host ≡ false
    → NotPrimary (invalidate_one host k s heap) s.description
unfolding invalidate_one
invalidate_one_self host k s heap h = ground arith

pub invalidate_others-IsAlone :
    (host : Host) (xs : List (Host × Server)) (heap : Heap)
    → IsAlone host (invalidate_others host xs heap) xs
unfolding invalidate_others
invalidate_others-IsAlone host [] heap = tt
invalidate_others-IsAlone host ((k, s) ∷ xs) heap = (
  λ other.
      invalidate_others-NotPrimary host xs (invalidate_one host k s heap) s.description
        (invalidate_one_self host k s heap other),
  invalidate_others-IsAlone host xs (invalidate_one host k s heap),
)

demote_at-all_hosts :
    (r q : ℕ) (heap : Heap) → all_hosts ((demote_at r heap).cell q) ≡ all_hosts (heap.cell q)
demote_at-all_hosts r q heap = elim (Bool-cases (r == q)) [
  | inl e ↦ rw e (ap (λ x. all_hosts (heap.cell x)) ((==_iff r q).0 e))
  | inr e ↦ rw e
]

invalidate_one-all_hosts :
    (host k : Host) (s : Server) (heap : Heap) (q : ℕ)
    → (all_hosts ((invalidate_one host k s heap).cell q) ≡ all_hosts (heap.cell q))
      × ((invalidate_one host k s heap).next ≡ heap.next)
unfolding invalidate_one
invalidate_one-all_hosts host k s heap q =
    elim (Bool-cases (not (host_eq k host) && is_primary (type_of heap s))) [
      | inl hit ↦ rw hit (demote_at-all_hosts s.description q heap, refl)
      | inr miss ↦ rw miss (refl, refl)
    ]

-- Demoting primaries changes nobody's list of hosts, and allocates nothing.
pub invalidate_others-all_hosts :
    (host : Host) (xs : List (Host × Server)) (heap : Heap) (q : ℕ)
    → (all_hosts ((invalidate_others host xs heap).cell q) ≡ all_hosts (heap.cell q))
      × ((invalidate_others host xs heap).next ≡ heap.next)
unfolding invalidate_others
invalidate_others-all_hosts host [] heap q = (refl, refl)
invalidate_others-all_hosts host ((k, s) ∷ xs) heap q =
    let one = invalidate_one-all_hosts host k s heap q in
    let ih = invalidate_others-all_hosts host xs (invalidate_one host k s heap) q in
    (ih.0 ∙ one.0, ih.1 ∙ one.1)
