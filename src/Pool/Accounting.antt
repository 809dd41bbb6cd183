-- ===== src/Pool/Accounting.antt =====
-- What the counter `len` of pool.rs stands for, along any history of calls.
use old_mongo_rust_driver.Prelude.{
  ℕ, suc, ◌+◌, ◌-◌, ◌≤◌, ◌≡◌, refl, true, Option, none, some, List, [], ◌∷◌, ◌≢◌, arith, ltb, ◌==◌,
  if◌then◌else◌, length, length-append, All, All-map, Bool-cases, inl, inr, ltb→lt, ◌<◌,
}
use old_mongo_rust_driver.Error.{Result, ok, err}
use old_mongo_rust_driver.Pool.Defs.{
  Pool, PooledStream, Round, acquired, waits, failed, clear, prune_idle, acquire_round, is_returned,
  drop_stream, connect_new, pop_after, pop_back, pop_front, prune_front, push_back,
}
use old_mongo_rust_driver.Pool.System.{System, Call, resizes, after_round, notify_one, drop_held}
use old_mongo_rust_driver.Pool.Held.{outstanding, IsLive, outstanding-past}

module _ {S : Type 0} where
  -- The counter is the number of open sockets of this iteration, idle or held, and is within `m`.
  pub record Inv (m : ℕ) (p : Pool S) (held : List (PooledStream S)) : Type 0 where
    pub counted : length p.sockets + outstanding p.iteration held ≡ p.len
    pub within : p.len ≤ m
    pub capped : p.size ≤ m
    pub past : All (λ s. s.iteration ≤ p.iteration) held
    pub live : All IsLive held

  abbrev pub Shortens : List (S × ℕ) → Option ((S × ℕ) × List (S × ℕ)) → Type 0
  Shortens xs none = length xs ≡ 0
  Shortens xs (some (_, ys)) = length xs ≡ suc (length ys)

  pop_after-Shortens :
      (x : S × ℕ) (xs : List (S × ℕ)) (r : Option ((S × ℕ) × List (S × ℕ)))
      → Shortens xs r
      → Shortens (x ∷ xs) (some (pop_after x r))
  unfolding pop_after
  pop_after-Shortens x xs none h = omega arith
  pop_after-Shortens x xs (some (y, ys)) h = omega arith

  pop_back-Shortens : (xs : List (S × ℕ)) → Shortens xs (pop_back xs)
  unfolding pop_back
  pop_back-Shortens [] = refl
  pop_back-Shortens (x ∷ xs) = pop_after-Shortens x xs (pop_back xs) (pop_back-Shortens xs)

  module _ (m : ℕ) where
    acquired-Inv :
        (socket : S) (xs : List (S × ℕ)) (n : ℕ) (p : Pool S) (held : List (PooledStream S))
        → Inv m p held
        → n ≤ m
        → length xs + suc (outstanding p.iteration held) ≡ n
        → Inv m
            (record p { sockets = xs; len = n })
            (record { socket = some socket; iteration = p.iteration; successful_handshake = true }
              ∷ held)
    acquired-Inv socket xs n p held v b c = record {
      counted = ground arith;
      within = b;
      capped = v.capped;
      past = (omega arith, v.past);
      live = ((refl, λ e. cc), v.live);
    }

    -- The invariant after a round, for what the thread got.
    abbrev pub RoundInv : Pool S → List (PooledStream S) → Round S → Type 0
    RoundInv p held (acquired s q) = Inv m q (s ∷ held)
    RoundInv p held waits = Unit
    RoundInv p held (failed e) = Unit

    connect_new-Inv :
        (c : Result S) (h : Result (Unit {0})) (p : Pool S) (held : List (PooledStream S))
        → Inv m p held
        → p.len < p.size
        → length p.sockets ≡ 0
        → RoundInv p held (connect_new c h p)
    unfolding connect_new
    connect_new-Inv (err e) h p held v lt z = tt
    connect_new-Inv (ok socket) (err e) p held v lt z = tt
    connect_new-Inv (ok socket) (ok _) p held v lt z =
        acquired-Inv socket p.sockets (p.len + 1) p held v (omega (arith, v.capped))
          (omega (arith, v.counted))

    pub acquire_round-Inv :
        (c : Result S) (h : Result (Unit {0})) (p : Pool S) (held : List (PooledStream S))
        → Inv m p held
        → RoundInv p held (acquire_round c h p)
    unfolding acquire_round
    acquire_round-Inv c h p held v = go (pop_back p.sockets) (pop_back-Shortens p.sockets)
      where
        go :
            (r : Option ((S × ℕ) × List (S × ℕ)))
            → Shortens p.sockets r
            → RoundInv p held (elim r [
              | some ((socket, _), rest) ↦
                  acquired
                    (record {
                      socket = some socket;
                      iteration = p.iteration;
                      successful_handshake = true;
                    })
                    (record p { sockets = rest })
              | none ↦ if ltb p.len p.size then connect_new c h p else waits
            ])
        go none z = elim (Bool-cases (ltb p.len p.size)) [
          | inl below ↦ rw below (connect_new-Inv c h p held v (ltb→lt _ _ below) z)
          | inr full ↦ rw full tt
        ]
        go (some ((socket, _), rest)) z =
            acquired-Inv socket rest p.len p held v v.within (omega (arith, v.counted, z))

    retarget-Inv :
        (xs : List (S × ℕ)) (n : ℕ) (p : Pool S) (held : List (PooledStream S))
        → length xs + outstanding p.iteration held ≡ n
        → n ≤ m
        → p.size ≤ m
        → All (λ s. s.iteration ≤ p.iteration) held
        → All IsLive held
        → Inv m (record p { sockets = xs; len = n }) held
    retarget-Inv xs n p held c b z past live = record {
      counted = c;
      within = b;
      capped = z;
      past = past;
      live = live;
    }

    length-push_back :
        (socket : Option S) (now : ℕ) (xs : List (S × ℕ))
        → socket ≢ none
        → length (push_back socket now xs) ≡ suc (length xs)
    unfolding push_back
    length-push_back none now xs h = absurd (h refl)
    length-push_back (some k) now xs h = omega (arith, length-append xs ((k, now) ∷ []))

    -- The stream that is dropped stands first.
    drop_stream-Inv :
        (now : ℕ) (s : PooledStream S) (p : Pool S) (held : List (PooledStream S))
        → Inv m p (s ∷ held)
        → Inv m (drop_stream now s p) held
    unfolding drop_stream
    drop_stream-Inv now s p held v = elim (Bool-cases (s.iteration == p.iteration)) [
      | inl back ↦
          rw (v.live.0.0, back)
            (retarget-Inv (push_back s.socket now p.sockets) p.len p held
              (ground (arith, length-push_back s.socket now p.sockets v.live.0.1, v.counted))
              v.within v.capped v.past.1 v.live.1)
      | inr stale ↦
          rw (v.live.0.0, stale)
            (retarget-Inv p.sockets p.len p held (ground (arith, v.counted)) v.within v.capped
              v.past.1 v.live.1)
    ]

    pub clear-Inv :
        (p : Pool S) (held : List (PooledStream S)) → Inv m p held → Inv m (clear p) held
    unfolding clear
    clear-Inv p held v = record {
      counted = omega (arith, outstanding-past p.iteration held v.past);
      within = omega arith;
      capped = v.capped;
      past =
          All-map (λ s. s.iteration ≤ p.iteration) (λ s. s.iteration ≤ p.iteration + 1) held
            (λ s h. omega arith) v.past;
      live = v.live;
    }

    length-pop_front :
        (now : ℕ) (xs : List (S × ℕ))
        → prune_front now xs ≡ true
        → length xs ≡ suc (length (pop_front xs))
    unfolding prune_front pop_front
    length-pop_front now [] h = cc
    length-pop_front now (x ∷ xs) h = refl

    pub prune_idle-Inv :
        (now : ℕ) (p : Pool S) (held : List (PooledStream S))
        → Inv m p held
        → Inv m (prune_idle now p) held
    unfolding prune_idle
    prune_idle-Inv now p held v = elim (Bool-cases (ltb 1 p.len)) [
      | inr few ↦ rw few v
      | inl many ↦ elim (Bool-cases (prune_front now p.sockets)) [
        | inr fresh ↦ rw (many, fresh) v
        | inl old ↦
            rw (many, old)
              (retarget-Inv (pop_front p.sockets) (p.len - 1) p held
                (omega (arith, v.counted, length-pop_front now p.sockets old))
                (omega (arith, v.within)) v.capped v.past v.live)
      ]
    ]

    pub set_size-Inv :
        (n : ℕ) (p : Pool S) (held : List (PooledStream S))
        → n ≤ m
        → Inv m p held
        → Inv m (record p { size = n }) held
    set_size-Inv n p held h v = record {
      counted = v.counted;
      within = v.within;
      capped = h;
      past = v.past;
      live = v.live;
    }

    -- A system is well kept when its pool and the streams it has lent are.
    abbrev pub IsKept : System S → Type 0
    IsKept w = Inv m w.pool w.held

    pub after_round-IsKept :
        (r : Round S) (w : System S)
        → RoundInv w.pool w.held r
        → IsKept w
        → IsKept (after_round r w)
    unfolding after_round
    after_round-IsKept (acquired s q) w h v = h
    after_round-IsKept waits w h v = v
    after_round-IsKept (failed e) w h v = v

    notify_one-IsKept : (w : System S) → IsKept w → IsKept (notify_one w)
    unfolding notify_one
    notify_one-IsKept w v = elim (Bool-cases (0 == w.waiting)) [
      | inl none_waits ↦ rw none_waits v
      | inr some_wait ↦ rw some_wait v
    ]

    pub drop_held-IsKept :
        (now : ℕ) (s : PooledStream S) (rest : List (PooledStream S)) (w : System S)
        → Inv m w.pool (s ∷ rest)
        → IsKept (drop_held now s rest w)
    unfolding drop_held
    drop_held-IsKept now s rest w v = elim (Bool-cases (is_returned s w.pool)) [
      | inl back ↦ rw back (notify_one-IsKept _ (drop_stream-Inv now s w.pool rest v))
      | inr lost ↦ rw lost (drop_stream-Inv now s w.pool rest v)
    ]

    -- A call within the bound: a resize asks for no more than `m`.
    abbrev pub Allows : Call S → Type 0
    Allows (resizes n) = n ≤ m
    Allows _ = Unit
