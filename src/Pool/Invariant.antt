-- ===== src/Pool/Invariant.antt =====
-- The invariant of the pool of pool.rs under every call of its threads.
use old_mongo_rust_driver.Prelude.{
  ℕ, ◌-◌, ◌≤◌, refl, Option, none, some, List, [], ◌∷◌, arith, ltb, ◌==◌, All, Bool-cases, inl, inr,
}
use old_mongo_rust_driver.Error.{Result}
use old_mongo_rust_driver.Pool.Defs.{Pool, PooledStream, with_options, set_size, acquire_stream}
use old_mongo_rust_driver.Pool.System.{
  System, Call, acquires, resumes, drops, clears, prunes, resizes, pick, drop_held, resize, step,
  run, start,
}
use old_mongo_rust_driver.Pool.Held.{Picks, pick-Picks}
use old_mongo_rust_driver.Pool.Accounting.{
  Inv, RoundInv, IsKept, Allows, acquire_round-Inv, clear-Inv, prune_idle-Inv, set_size-Inv,
  after_round-IsKept, drop_held-IsKept,
}

module _ {S : Type 0} (m : ℕ) where
  acquire_stream-Inv :
      (c : Result S) (h : Result (Unit {0})) (p : Pool S) (held : List (PooledStream S))
      → Inv m p held
      → RoundInv m p held (acquire_stream c h p)
  unfolding acquire_stream
  acquire_stream-Inv c h p held v = elim (Bool-cases (p.size == 0)) [
    | inl empty ↦ rw empty tt
    | inr room ↦ rw room (acquire_round-Inv m c h p held v)
  ]

  resize-IsKept :
      (n : ℕ) (w : System S) → n ≤ m → IsKept m w → IsKept m (resize (set_size n w.pool) w)
  unfolding resize set_size
  resize-IsKept n w h v = elim (Bool-cases (ltb n 1)) [
    | inl small ↦ rw small v
    | inr enough ↦ rw enough (set_size-Inv m n w.pool w.held h v)
  ]

  -- The invariant holds for what the i-th drop leaves, whether or not there is such a stream.
  drop_picked :
      (now : ℕ) (w : System S) (r : Option (PooledStream S × List (PooledStream S)))
      → Picks w.pool.iteration w.held r
      → IsKept m w
      → IsKept m (elim r [ none ↦ w | some (s, rest) ↦ drop_held now s rest w ])
  drop_picked now w none p v = v
  drop_picked now w (some (s, rest)) (count, past, live) v =
      drop_held-IsKept m now s rest w (record {
        counted = omega (arith, v.counted, count);
        within = v.within;
        capped = v.capped;
        past = past v.past;
        live = live v.live;
      })

  pub step-IsKept : (c : Call S) (w : System S) → Allows m c → IsKept m w → IsKept m (step c w)
  unfolding step
  step-IsKept (acquires c h) w a v =
      after_round-IsKept m _ w (acquire_stream-Inv c h w.pool w.held v) v
  step-IsKept (resumes c h) w a v = elim (Bool-cases (0 == w.notified)) [
    | inl nobody ↦ rw nobody v
    | inr woken ↦ rw woken (
        after_round-IsKept m _ (record w { notified = w.notified - 1 })
          (acquire_round-Inv m c h w.pool w.held v) v)
  ]
  step-IsKept (drops i now) w a v =
      drop_picked now w (pick w.held i) (pick-Picks w.pool.iteration w.held i) v
  step-IsKept clears w a v = clear-Inv m w.pool w.held v
  step-IsKept (prunes now) w a v = prune_idle-Inv m now w.pool w.held v
  step-IsKept (resizes n) w a v = resize-IsKept n w a v

  run-IsKept :
      (cs : List (Call S)) (w : System S) → All (Allows m) cs → IsKept m w → IsKept m (run cs w)
  unfolding run
  run-IsKept [] w a v = v
  run-IsKept (c ∷ cs) w a v = run-IsKept cs (step c w) a.1 (step-IsKept c w a.0 v)

  -- From a new pool, along every history of acquisitions, wake-ups, drops, clears, prunes and
  -- resizes to at most `m`, the counter `len` is the number of idle sockets plus the number of held
  -- streams of the current iteration, never exceeds `m`, and every held stream has its socket.
  pub run-with_options-IsKept :
      (size timeout : ℕ) (cs : List (Call S))
      → size ≤ m
      → All (Allows m) cs
      → IsKept m (run cs (start (with_options size timeout).inner))
  unfolding start with_options
  run-with_options-IsKept size timeout cs h a =
      run-IsKept cs _ a
        (record { counted = refl; within = omega arith; capped = h; past = tt; live = tt })
