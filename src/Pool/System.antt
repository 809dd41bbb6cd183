-- ===== src/Pool/System.antt =====
-- The pool of pool.rs with the threads that use it: the streams they hold, the number that are
-- blocked in `wait_lock.wait`, and the number that were notified and have not run yet.
use old_mongo_rust_driver.Prelude.{
  ℕ, suc, zero, ◌+◌, ◌-◌, Option, none, some, List, [], ◌∷◌, ◌==◌, if◌then◌else◌,
}
use old_mongo_rust_driver.Error.{Result, ok, err}
use old_mongo_rust_driver.Pool.Defs.{
  Pool, PooledStream, Round, acquired, waits, failed, set_size, clear, prune_idle, acquire_stream,
  acquire_round, is_returned, drop_stream,
}

module _ (S : Type 0) where
  pub record System : Type 0 where
    pub pool : Pool S
    pub held : List (PooledStream S)
    pub waiting : ℕ
    pub notified : ℕ

  -- What a thread does next, with what the network and the clock answer. `drops i` drops the i-th
  -- stream that is held.
  pub data Call : Type 0 where
    acquires : Result S → Result (Unit {0}) → Call
    resumes : Result S → Result (Unit {0}) → Call
    drops : ℕ → ℕ → Call
    clears : Call
    prunes : ℕ → Call
    resizes : ℕ → Call

module _ {S : Type 0} where
  unfoldable pub after_round : Round S → System S → System S
  after_round (acquired s p) w = record w { pool = p; held = s ∷ w.held }
  after_round waits w = record w { waiting = w.waiting + 1 }
  after_round (failed e) w = w

  -- `notify_one`
  unfoldable pub notify_one : System S → System S
  notify_one w =
      if 0 == w.waiting then w else record w { waiting = w.waiting - 1; notified = w.notified + 1 }

  unfoldable pub pick_after :
      PooledStream S
      → Option (PooledStream S × List (PooledStream S))
      → Option (PooledStream S × List (PooledStream S))
  pick_after s none = none
  pick_after s (some (t, ts)) = some (t, s ∷ ts)

  -- The i-th stream, and the others.
  unfoldable pub pick : List (PooledStream S) → ℕ → Option (PooledStream S × List (PooledStream S))
  unfolding pick_after
  pick [] i = none
  pick (s ∷ ss) zero = some (s, ss)
  pick (s ∷ ss) (suc i) = pick_after s (pick ss i)

  unfoldable pub drop_held : ℕ → PooledStream S → List (PooledStream S) → System S → System S
  unfolding notify_one
  drop_held now s rest w =
      let w' : System S = record w { pool = drop_stream now s w.pool; held = rest } in
      if is_returned s w.pool then notify_one w' else w'

  unfoldable pub resize : Result (Pool S) → System S → System S
  resize (ok p) w = record w { pool = p }
  resize (err e) w = w

  -- A call that cannot be made (no such stream, nobody notified) changes nothing.
  unfoldable pub step : Call S → System S → System S
  unfolding after_round pick drop_held resize
  step (acquires c h) w = after_round (acquire_stream c h w.pool) w
  step (resumes c h) w =
      if 0 == w.notified
      then w
      else after_round (acquire_round c h w.pool) (record w { notified = w.notified - 1 })
  step (drops i now) w = elim (pick w.held i) [ none ↦ w | some (s, rest) ↦ drop_held now s rest w ]
  step clears w = record w { pool = clear w.pool }
  step (prunes now) w = record w { pool = prune_idle now w.pool }
  step (resizes n) w = resize (set_size n w.pool) w

  unfoldable pub run : List (Call S) → System S → System S
  run [] w = w
  run (c ∷ cs) w = run cs (step c w)

  unfoldable pub start : Pool S → System S
  start p = record { pool = p; held = []; waiting = 0; notified = 0 }
