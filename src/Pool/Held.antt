-- ===== src/Pool/Held.antt =====
-- pool.rs: the streams that threads hold, and the picking of one.
use old_mongo_rust_driver.Prelude.{
  ℕ, suc, zero, ◌+◌, ◌≤◌, ◌≡◌, refl, true, Option, none, some, List, [], ◌∷◌, ◌≢◌, arith, ◌==◌,
  if◌then◌else◌, All,
}
use old_mongo_rust_driver.Pool.Defs.{PooledStream}
use old_mongo_rust_driver.Pool.System.{pick_after, pick}

module _ {S : Type 0} where
  -- The held streams that will come back to the pool at iteration `k`.
  abbrev pub outstanding : ℕ → List (PooledStream S) → ℕ
  outstanding k [] = 0
  outstanding k (s ∷ ss) = if s.iteration == k then suc (outstanding k ss) else outstanding k ss

  abbrev pub IsLive : PooledStream S → Type 0
  IsLive s = (s.successful_handshake ≡ true) × (s.socket ≢ none)

  -- No stream from before `clear` is outstanding after it.
  pub outstanding-past :
      (k : ℕ) (ss : List (PooledStream S))
      → All (λ s. s.iteration ≤ k) ss
      → outstanding (k + 1) ss ≡ 0
  outstanding-past k [] h = refl
  outstanding-past k (s ∷ ss) h = ground (arith, outstanding-past k ss h.1)

  -- What picking a stream leaves of the facts about all of them.
  abbrev pub Picks :
      ℕ → List (PooledStream S) → Option (PooledStream S × List (PooledStream S)) → Type 0
  Picks k ss none = Unit
  Picks k ss (some (s, rest)) =
      (outstanding k ss ≡ outstanding k (s ∷ rest))
      × (All (λ t. t.iteration ≤ k) ss → All (λ t. t.iteration ≤ k) (s ∷ rest))
      × (All IsLive ss → All IsLive (s ∷ rest))

  pick_after-Picks :
      (k : ℕ) (x : PooledStream S) (ss : List (PooledStream S))
      (r : Option (PooledStream S × List (PooledStream S)))
      → Picks k ss r
      → Picks k (x ∷ ss) (pick_after x r)
  unfolding pick_after
  pick_after-Picks k x ss none h = tt
  pick_after-Picks k x ss (some (s, rest)) h = (
    ground (arith, h.0),
    λ g. ((h.1 g.1).0, (g.0, (h.1 g.1).1)),
    λ g. ((h.2 g.1).0, (g.0, (h.2 g.1).1)),
  )

  pub pick-Picks : (k : ℕ) (ss : List (PooledStream S)) (i : ℕ) → Picks k ss (pick ss i)
  unfolding pick
  pick-Picks k [] i = tt
  pick-Picks k (s ∷ ss) zero = (refl, λ g. g, λ g. g)
  pick-Picks k (s ∷ ss) (suc i) = pick_after-Picks k s ss (pick ss i) (pick-Picks k ss i)
