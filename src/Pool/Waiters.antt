-- ===== src/Pool/Waiters.antt =====
-- Who is woken: the condvar of pool.rs, and streams that outlive a `clear`.
use old_mongo_rust_driver.Prelude.{
  ℕ, suc, ◌+◌, ◌≤◌, ◌<◌, ◌≡◌, refl, true, false, Option, none, some, List, [], ◌∷◌, ◌++◌, arith,
  zero, ==_iff, All, All-map,
}
use old_mongo_rust_driver.Error.{Result}
use old_mongo_rust_driver.Pool.Defs.{
  Pool, PooledStream, acquired, acquire_round, drop_stream, pop_back, is_returned, clear,
  prune_idle,
}
use old_mongo_rust_driver.Pool.System.{
  System, Call, acquires, resumes, drops, clears, prunes, resizes, pick, pick_after, drop_held,
  step, run,
}

module _ {S : Type 0} where
  pop_back-append : (xs : List (S × ℕ)) (x : S × ℕ) → pop_back (xs ++ x ∷ []) ≡ some (x, xs)
  unfolding pop_back
  pop_back-append [] x = refl
  pop_back-append (y ∷ xs) x = rw (pop_back-append xs x)

  -- A stream of the current iteration that is dropped is the one that the next acquisition gets, with
  -- no connection made, and the pool is then as it was before the drop.
  pub acquire_round-drop_stream :
      (c : Result S) (h : Result (Unit {0})) (now : ℕ) (socket : S) (p : Pool S)
      → let s : PooledStream S = record {
        socket = some socket;
        iteration = p.iteration;
        successful_handshake = true;
      } in
        acquire_round c h (drop_stream now s p) ≡ acquired s p
  unfolding acquire_round drop_stream
  acquire_round-drop_stream c h now socket p =
      rw ((==_iff p.iteration p.iteration).1 refl)
        (rw (pop_back-append p.sockets (socket, now), acquire_round))

  -- Every stream was lent before the last `clear`, the pool has and counts no connection but may have some, and
  -- `a` and `b` threads are blocked and notified.
  record IsStranded (a b : ℕ) (w : System S) : Type 0 where
    old : All (λ s. s.iteration < w.pool.iteration) w.held
    idle : w.pool.sockets ≡ []
    none_open : w.pool.len ≡ 0
    room : 0 < w.pool.size
    blocked : w.waiting ≡ a
    woken : w.notified ≡ b

  -- Drops, prunes and further clears: all that happens with no thread that asks for a stream.
  abbrev pub IsRelease : Call S → Type 0
  IsRelease (acquires c h) = ⊥
  IsRelease (resumes c h) = ⊥
  IsRelease (drops i now) = Unit
  IsRelease clears = Unit
  IsRelease (prunes now) = Unit
  IsRelease (resizes n) = ⊥

  abbrev OldPick : ℕ → Option (PooledStream S × List (PooledStream S)) → Type 0
  OldPick k none = Unit
  OldPick k (some (s, rest)) = (s.iteration < k) × All (λ t. t.iteration < k) rest

  pick_after-OldPick :
      (k : ℕ) (x : PooledStream S) (r : Option (PooledStream S × List (PooledStream S)))
      → x.iteration < k
      → OldPick k r
      → OldPick k (pick_after x r)
  unfolding pick_after
  pick_after-OldPick k x none h o = tt
  pick_after-OldPick k x (some (s, rest)) h o = (o.0, (h, o.1))

  pick-OldPick :
      (k : ℕ) (ss : List (PooledStream S)) (i : ℕ)
      → All (λ s. s.iteration < k) ss
      → OldPick k (pick ss i)
  unfolding pick
  pick-OldPick k [] i h = tt
  pick-OldPick k (s ∷ ss) zero h = h
  pick-OldPick k (s ∷ ss) (suc i) h =
      pick_after-OldPick k s (pick ss i) h.0 (pick-OldPick k ss i h.1)

  -- A stream of an earlier iteration is not given back.
  not-is_returned :
      (s : PooledStream S) (p : Pool S) → s.iteration < p.iteration → is_returned s p ≡ false
  unfolding is_returned
  not-is_returned s p h = ground arith

  module _ (a b : ℕ) where
    drop_old :
        (now : ℕ) (w : System S) (r : Option (PooledStream S × List (PooledStream S)))
        → OldPick w.pool.iteration r
        → IsStranded a b w
        → IsStranded a b (elim r [ none ↦ w | some (s, rest) ↦ drop_held now s rest w ])
    unfolding drop_held drop_stream
    drop_old now w none o v = v
    drop_old now w (some (s, rest)) o v = rw (not-is_returned s w.pool o.0) (record {
      old = o.1;
      idle = v.idle;
      none_open = v.none_open;
      room = v.room;
      blocked = v.blocked;
      woken = v.woken;
    })

    prune_idle-none : (now : ℕ) (p : Pool S) → p.len ≡ 0 → prune_idle now p ≡ p
    unfolding prune_idle
    prune_idle-none now p e = rw e

    step-IsStranded :
        (c : Call S) (w : System S) → IsRelease c → IsStranded a b w → IsStranded a b (step c w)
    unfolding step clear
    step-IsStranded (acquires c h) w r v = absurd r
    step-IsStranded (resumes c h) w r v = absurd r
    step-IsStranded (drops i now) w r v =
        drop_old now w (pick w.held i) (pick-OldPick w.pool.iteration w.held i v.old) v
    step-IsStranded clears w r v = record {
      old =
          All-map (λ s. s.iteration < w.pool.iteration) (λ s. s.iteration < w.pool.iteration + 1)
            w.held (λ s h. omega arith) v.old;
      idle = refl;
      none_open = refl;
      room = v.room;
      blocked = v.blocked;
      woken = v.woken;
    }
    step-IsStranded (prunes now) w r v = rw (prune_idle-none now w.pool v.none_open) v
    step-IsStranded (resizes n) w r v = absurd r

    run-IsStranded :
        (cs : List (Call S)) (w : System S)
        → All IsRelease cs
        → IsStranded a b w
        → IsStranded a b (run cs w)
    unfolding run
    run-IsStranded [] w r v = v
    run-IsStranded (c ∷ cs) w r v = run-IsStranded cs (step c w) r.1 (step-IsStranded c w r.0 v)

  -- After a `clear`, drops of the streams lent before it, prunes and further clears wake nobody: as many threads stay
  -- blocked and as many were woken as before, although the pool counts no connection by then, keeps none idle, and
  -- may have some (its size is not 0).
  pub clear_strands_waiters :
      (w : System S) (cs : List (Call S))
      → All (λ s. s.iteration ≤ w.pool.iteration) w.held
      → All IsRelease cs
      → 0 < w.pool.size
      → let w' = run cs (step clears w) in
        (w'.waiting ≡ w.waiting)
        × (w'.notified ≡ w.notified)
        × (w'.pool.len ≡ 0)
        × (w'.pool.sockets ≡ [])
        × (0 < w'.pool.size)
  unfolding step clear
  clear_strands_waiters w cs past rs size =
      let v = run-IsStranded w.waiting w.notified cs _ rs (record {
        old =
            All-map (λ s. s.iteration ≤ w.pool.iteration) (λ s. s.iteration < w.pool.iteration + 1)
              w.held (λ s h. omega arith) past;
        idle = refl;
        none_open = refl;
        room = size;
        blocked = refl;
        woken = refl;
      }) in
      (v.blocked, v.woken, v.none_open, v.idle, v.room)
