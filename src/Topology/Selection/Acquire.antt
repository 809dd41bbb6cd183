-- ===== src/Topology/Selection/Acquire.antt =====
-- topology/mod.rs: what `acquire_stream` and `acquire_write_stream` give.
use old_mongo_rust_driver.Prelude.{
  ℕ, zero, suc, ◌≡◌, ◌⊎◌, refl, ap, subst, inl, inr, Bool, true, false, ◌&&◌, Option, none, some,
  List, [], ◌∷◌, arith, if◌then◌else◌, All, All-append, Bool-cases, is_empty, length, take,
}
use old_mongo_rust_driver.Prelude.Int.{ℤ}
use old_mongo_rust_driver.Error.{Result, ok, err, ◌>>=◌}
use old_mongo_rust_driver.Connstring.Host.{Host}
use old_mongo_rust_driver.Topology.Server.{ServerDescription, ServerType}
use old_mongo_rust_driver.Topology.State.{
  World, TopologyType, single, replica_set_no_primary, replica_set_with_primary, sharded,
  undiscovered,
}
use old_mongo_rust_driver.Topology.Invariant.{IsWf}
use old_mongo_rust_driver.Topology.Selection.{
  ReadMode, primary, primary_preferred, secondary, secondary_preferred, nearest, ReadPreference,
}
use old_mongo_rust_driver.Topology.Selection.Streams.{
  nth, Outcome, timed_round, nearest_round, try_each, get_nearest_from_vec, random_round,
  drawn_round, draw, get_rand_from_vec, get_from_vec, filters_tags, tagged_hosts, with_flags,
  acquire_chosen, falls_back, acquire_stream, stream_of, acquire_write_stream,
}
use old_mongo_rust_driver.Topology.Selection.Roles.{
  suits, suits_writes, passes, choose_hosts-suits, choose_write_hosts-suits,
}
use old_mongo_rust_driver.Topology.Selection.Chosen.{
  All-take, All-drop, Holds, nth-Holds, sort-All, filter_hosts-All, filter_latency_hosts-All,
}

module _ {ℓ} {S : Type ℓ} (acquire : Host → Result S) (random : ℕ → ℕ) (w : World) where
  ok_stream :
      (s u : S) (t v : ServerType)
      → ◌≡◌ {A = Result (S × ServerType)} (ok (s, t)) (ok (u, v))
      → ◌≡◌ {A = Result S} (ok s) (ok u)
  ok_stream s u t v e = ap (λ r. r >>= stream_of acquire random w) e

  timed_round-from :
      (time : Option ℤ) (t : ServerType) (a : Result S) (rest : Result (S × ServerType)) (s : S)
      (u : ServerType)
      → timed_round acquire random w time t a rest ≡ ok (s, u)
      → (a ≡ ok s) ⊎ (rest ≡ ok (s, u))
  unfolding timed_round
  timed_round-from none t a rest s u e = cc
  timed_round-from (some time) t (ok x) rest s u e = inl (ok_stream _ _ _ _ e)
  timed_round-from (some time) t (err x) rest s u e = inr e

  nearest_round-from :
      (d : Option ServerDescription) (a : Result S) (rest : Result (S × ServerType)) (s : S)
      (u : ServerType)
      → nearest_round acquire random w d a rest ≡ ok (s, u)
      → (a ≡ ok s) ⊎ (rest ≡ ok (s, u))
  unfolding nearest_round
  nearest_round-from none a rest s u e = inr e
  nearest_round-from (some d) a rest s u e = timed_round-from _ _ a rest s u e

  random_round-from :
      (d : Option ServerDescription) (a : Result S) (rest : Result (S × ServerType)) (s : S)
      (u : ServerType)
      → random_round acquire random w d a rest ≡ ok (s, u)
      → (a ≡ ok s) ⊎ (rest ≡ ok (s, u))
  unfolding random_round
  random_round-from none a rest s u e = inr e
  random_round-from (some d) (ok x) rest s u e = inl (ok_stream _ _ _ _ e)
  random_round-from (some d) (err x) rest s u e = inr e

  -- The stream is that of a host with the property.
  abbrev pub Serves {κ} : (Host → Type κ) → S → Type (ℓ ⊔ κ)
  Serves P s = (h : Host) × P h × (acquire h ≡ ok s)

  module _ {κ} (P : Host → Type κ) (s : S) (u : ServerType) where
    try_each-Serves :
        (hs : List Host) → All P hs → try_each acquire random w hs ≡ ok (s, u) → Serves P s
    unfolding try_each
    try_each-Serves [] a e = cc
    try_each-Serves (h ∷ hs) a e =
        elim (nearest_round-from _ (acquire h) (try_each acquire random w hs) s u e) [
          | inl f ↦ (h, a.0, f)
          | inr f ↦ try_each-Serves hs a.1 f
        ]

    drawn_round-Serves :
        (o : Option Host) (rest : Result (S × ServerType))
        → Holds P o
        → (rest ≡ ok (s, u) → Serves P s)
        → drawn_round acquire random w o rest ≡ ok (s, u)
        → Serves P s
    unfolding drawn_round
    drawn_round-Serves none rest p ih e = ih e
    drawn_round-Serves (some h) rest p ih e = elim (random_round-from _ (acquire h) rest s u e) [
      | inl f ↦ (h, p, f)
      | inr f ↦ ih f
    ]

    draw-Serves :
        (fuel : ℕ) (hs : List Host)
        → All P hs
        → draw acquire random w fuel hs ≡ ok (s, u)
        → Serves P s
    unfolding draw
    draw-Serves zero hs a e = cc
    draw-Serves (suc fuel) [] a e = cc
    draw-Serves (suc fuel) (h ∷ hs) a e =
        let i = random (length (h ∷ hs)) in
        drawn_round-Serves (nth (h ∷ hs) i) _ (nth-Holds P w (h ∷ hs) i a)
          (draw-Serves fuel _ (
            All-append P (take i (h ∷ hs)) _ (All-take P i (h ∷ hs) a)
              (All-drop P (suc i) (h ∷ hs) a)))
          e

    get_from_vec-Serves :
        (rand : Bool) (hs : List Host)
        → All P hs
        → get_from_vec acquire random w rand hs ≡ ok (s, u)
        → Serves P s
    unfolding get_nearest_from_vec get_rand_from_vec
    get_from_vec-Serves true hs a e = draw-Serves _ hs a e
    get_from_vec-Serves false hs a e = try_each-Serves _ (sort-All P w hs a) e

  -- The flags hide the stream's server type only.
  with_flags-ok :
      (pref : ReadPreference) (r : Result (S × ServerType)) (s : S) (a b : Bool)
      → (r >>= with_flags acquire random w pref) ≡ ok (s, a, b)
      → (t : ServerType) × (r ≡ ok (s, t))
  with_flags-ok pref (ok (x, t)) s a b e = (t, ap (λ r. r >>= λ y. ok (y.0, t)) e)
  with_flags-ok pref (err x) s a b e = cc

  stream_of-ok :
      (r : Result (S × ServerType)) (s : S)
      → (r >>= stream_of acquire random w) ≡ ok s
      → (t : ServerType) × (r ≡ ok (s, t))
  stream_of-ok (ok (x, t)) s e = (t, ap (λ r. r >>= λ y. ok (y, t)) e)
  stream_of-ok (err x) s e = cc

  module _ (m : IsWf w) where
    abbrev Suits : ReadMode → Host → Type 0
    Suits mode h = passes (suits w.topology_type mode) w h ≡ true

    tagged_hosts-Suits :
        (pref : ReadPreference) → All (Suits pref.mode) (tagged_hosts acquire random w pref)
    tagged_hosts-Suits pref = elim (Bool-cases (filters_tags acquire random w w.topology_type)) [
      | inl e ↦ rw e (filter_hosts-All (Suits pref.mode) w pref _ (choose_hosts-suits w m pref))
      | inr e ↦ rw e (choose_hosts-suits w m pref)
    ]

    acquire_chosen-Serves :
        (pref : ReadPreference) (s : S) (a b : Bool)
        → (acquire_chosen acquire random w pref).result ≡ ok (s, a, b)
        → Serves (Suits pref.mode) s
    unfolding acquire_chosen
    acquire_chosen-Serves pref s a b e =
        let (t, f) = with_flags-ok pref _ s a b e in
        get_from_vec-Serves (Suits pref.mode) s t _ _
          (filter_latency_hosts-All (Suits pref.mode) w _ (tagged_hosts-Suits pref)) f

    same_suits : (t : TopologyType) → suits t primary_preferred ≡ suits t secondary_preferred
    same_suits undiscovered = refl
    same_suits single = refl
    same_suits sharded = refl
    same_suits replica_set_no_primary = refl
    same_suits replica_set_with_primary = refl

    fallback-Serves :
        (mode : ReadMode) (s : S)
        → falls_back acquire random w mode ≡ true
        → Serves (Suits primary_preferred) s
        → Serves (Suits mode) s
    fallback-Serves secondary_preferred s f (h, p, g) =
        (h, subst (λ q. passes q w h ≡ true) (same_suits w.topology_type) p, g)
    fallback-Serves primary s f x = cc
    fallback-Serves primary_preferred s f x = cc
    fallback-Serves secondary s f x = cc
    fallback-Serves nearest s f x = cc

-- The outcome of a test is that of one of its branches.
branch_of {ℓ} :
    {A : Type ℓ} (b : Bool) (x y : Outcome A) (r : Result A)
    → (if b then x else y).result ≡ r
    → ((b ≡ true) × (x.result ≡ r)) ⊎ ((b ≡ false) × (y.result ≡ r))
branch_of true x y r e = inl (refl, e)
branch_of false x y r e = inr (refl, e)

-- A stream for a read is one that some server gave whose type suits the read preference's mode and
-- the topology: a primary, a secondary, any known member, or any server of a single or sharded one.
pub acquire_stream-Serves {ℓ} :
    {S : Type ℓ} (acquire : Host → Result S) (random : ℕ → ℕ) (w : World) (pref : ReadPreference)
    (s : S) (slave_ok send_read_pref : Bool)
    → IsWf w
    → (acquire_stream acquire random w pref).result ≡ ok (s, slave_ok, send_read_pref)
    → (h : Host) × (passes (suits w.topology_type pref.mode) w h ≡ true) × (acquire h ≡ ok s)
unfolding acquire_stream
acquire_stream-Serves acquire random w pref s slave_ok send_read_pref m e =
    elim (branch_of
      (is_empty (tagged_hosts acquire random w pref) && falls_back acquire random w pref.mode)
      (acquire_chosen acquire random w (record pref { mode = primary_preferred }))
      (acquire_chosen acquire random w pref) (ok (s, slave_ok, send_read_pref)) e) [
        | inl (f, g) ↦ fallback-Serves acquire random w m pref.mode s (ground (arith, f)) (
            acquire_chosen-Serves acquire random w m (record pref { mode = primary_preferred }) s
              slave_ok send_read_pref g)
        | inr (f, g) ↦ acquire_chosen-Serves acquire random w m pref s slave_ok send_read_pref g
      ]

-- A stream for a write is one that some server gave which is the primary, or any server of a single
-- or sharded topology.
pub acquire_write_stream-Serves {ℓ} :
    {S : Type ℓ} (acquire : Host → Result S) (random : ℕ → ℕ) (w : World) (s : S)
    → IsWf w
    → (acquire_write_stream acquire random w).result ≡ ok s
    → (h : Host) × (passes (suits_writes w.topology_type) w h ≡ true) × (acquire h ≡ ok s)
unfolding acquire_write_stream
acquire_write_stream-Serves acquire random w s m e =
    let (t, f) = stream_of-ok acquire random w _ s e in
    get_from_vec-Serves acquire random w _ s t _ _ (choose_write_hosts-suits w m) f
