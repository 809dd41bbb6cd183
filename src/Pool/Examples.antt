-- ===== src/Pool/Examples.antt =====
-- The theorems about pool.rs at concrete pools, and runs of its calls.
use old_mongo_rust_driver.Prelude.{ℕ, ◌<◌, ◌≡◌, refl, true, some, List, [], ◌∷◌, arith}
use old_mongo_rust_driver.Error.{ok, err, io_error}
use old_mongo_rust_driver.Pool.Defs.{
  acquired, acquire_stream, acquire_round, is_returned, drop_stream, with_options,
}
use old_mongo_rust_driver.Pool.System.{
  System, Call, acquires, resumes, drops, clears, step, run, start,
}
use old_mongo_rust_driver.Pool.Accounting.{IsKept}
use old_mongo_rust_driver.Pool.Invariant.{run-with_options-IsKept}
use old_mongo_rust_driver.Pool.Waiters.{acquire_round-drop_stream, clear_strands_waiters}

-- Two threads take the only connection of a pool in turn; the second has to wait.
abbrev contention : List (Call ℕ)
contention = acquires (ok 7) (ok tt) ∷ acquires (ok 8) (ok tt) ∷ []

abbrev busy : System ℕ
busy = record {
  pool = record { size = 1; len = 1; sockets = []; iteration = 0 };
  held = record { socket = some 7; iteration = 0; successful_handshake = true } ∷ [];
  waiting = 1;
  notified = 0;
}

run-contention : run contention (start (with_options 1 9).inner) ≡ busy
unfolding run step start with_options acquire_stream
run-contention = refl

-- The stream comes back, the waiter is woken and gets the same socket.
run-hand_over : (run (drops 0 3 ∷ resumes (err (io_error 0)) (ok tt) ∷ []) busy).held ≡ busy.held
unfolding run step is_returned acquire_round drop_stream
run-hand_over = refl

run-with_options-IsKept_example : IsKept 2 (run contention (start (with_options 1 9).inner))
run-with_options-IsKept_example =
    run-with_options-IsKept 2 1 9 contention (omega arith) (tt, (tt, tt))

acquire_round-drop_stream_example :
    acquire_round (ok 9) (ok tt) (
      drop_stream 3
        (record { socket = some 7; iteration = 0; successful_handshake = true })
        busy.pool)
    ≡ acquired (record { socket = some 7; iteration = 0; successful_handshake = true }) busy.pool
acquire_round-drop_stream_example = acquire_round-drop_stream (ok 9) (ok tt) 3 7 busy.pool

clear_strands_waiters_example :
    let w = run (drops 0 3 ∷ []) (step clears busy) in
    (w.waiting ≡ 1)
    × (w.notified ≡ 0)
    × (w.pool.len ≡ 0)
    × (w.pool.sockets ≡ [])
    × (0 < w.pool.size)
clear_strands_waiters_example =
    clear_strands_waiters busy (drops 0 3 ∷ []) (omega arith) (tt, tt) (omega arith)
