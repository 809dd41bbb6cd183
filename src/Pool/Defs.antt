-- ===== src/Pool/Defs.antt =====
-- mongodb-cwal-rs-master/src/pool.rs: `Pool`, `PooledStream`, `ConnectionPool` and their methods.
use old_mongo_rust_driver.Prelude.{
  ℕ, ◌+◌, ◌-◌, Bool, true, false, ◌&&◌, Option, none, some, List, [], ◌∷◌, ◌++◌, ltb, ◌==◌,
  if◌then◌else◌,
}
use old_mongo_rust_driver.Error.{Error, operation_error, argument_error, Result, ok, err}

-- DEFAULT_POOL_SIZE
abbrev pub default_pool_size : ℕ
default_pool_size = 5

-- DEFAULT_TIMEOUT_ON_IDLE, 30 seconds
abbrev pub default_timeout_on_idle : ℕ
default_timeout_on_idle = 30_000_000_000

module _ (S : Type 0) where
  -- The state behind the mutex, an idle socket with the instant of its return.
  pub record Pool : Type 0 where
    pub size : ℕ
    pub len : ℕ
    pub sockets : List (S × ℕ)
    pub iteration : ℕ

  pub record PooledStream : Type 0 where
    pub socket : Option S
    pub iteration : ℕ
    pub successful_handshake : Bool

  pub record ConnectionPool : Type 0 where
    pub inner : Pool
    pub idle_connection_timeout : ℕ

  -- One round of the loop of `acquire_stream`: a stream, an error, or a wait on the condvar.
  pub data Round : Type 0 where
    acquired : PooledStream → Pool → Round
    waits : Round
    failed : Error → Round

module _ {S : Type 0} where
  unfoldable pub with_options : ℕ → ℕ → ConnectionPool S
  with_options size timeout = record {
    inner = record { size = size; len = 0; sockets = []; iteration = 0 };
    idle_connection_timeout = timeout;
  }

  unfoldable pub with_size : ℕ → ConnectionPool S
  unfolding with_options
  with_size size = with_options size default_timeout_on_idle

  unfoldable pub new : ConnectionPool S
  unfolding with_options
  new = with_options default_pool_size default_timeout_on_idle

  -- The new pool with `Ok`, or the error.
  unfoldable pub set_size : ℕ → Pool S → Result (Pool S)
  set_size size p =
      if ltb size 1
      then err (argument_error "The connection pool size must be greater than zero.")
      else ok (record p { size = size })

  unfoldable pub clear : Pool S → Pool S
  clear p = record p { iteration = p.iteration + 1; sockets = []; len = 0 }

  -- The front is pruned if it has idled for longer than DEFAULT_TIMEOUT_ON_IDLE.
  unfoldable pub prune_front : ℕ → List (S × ℕ) → Bool
  prune_front now [] = false
  prune_front now ((_, since) ∷ _) = ltb default_timeout_on_idle (now - since)

  unfoldable pub pop_front : List (S × ℕ) → List (S × ℕ)
  pop_front [] = []
  pop_front (_ ∷ rest) = rest

  unfoldable pub prune_idle : ℕ → Pool S → Pool S
  unfolding prune_front pop_front
  prune_idle now p =
      if ltb 1 p.len
      then if prune_front now p.sockets
        then record p { sockets = pop_front p.sockets; len = p.len - 1 }
        else p
      else p

  unfoldable pub pop_after : S × ℕ → Option ((S × ℕ) × List (S × ℕ)) → (S × ℕ) × List (S × ℕ)
  pop_after x none = (x, [])
  pop_after x (some (y, ys)) = (y, x ∷ ys)

  -- `VecDeque::pop_back`
  unfoldable pub pop_back : List (S × ℕ) → Option ((S × ℕ) × List (S × ℕ))
  unfolding pop_after
  pop_back [] = none
  pop_back (x ∷ xs) = some (pop_after x (pop_back xs))

  unfoldable pub connect_new : Result S → Result (Unit {0}) → Pool S → Round S
  connect_new (err e) _ p = failed e
  connect_new (ok _) (err e) p = failed e
  connect_new (ok socket) (ok _) p =
      acquired
        (record { socket = some socket; iteration = p.iteration; successful_handshake = true })
        (record p { len = p.len + 1 })

  -- `connected` and `handshaken` are what `connect` and `handshake` would return in this round. The
  -- result of the authentication is dropped by the source.
  unfoldable pub acquire_round : Result S → Result (Unit {0}) → Pool S → Round S
  unfolding pop_back connect_new
  acquire_round connected handshaken p = elim (pop_back p.sockets) [
    | some ((socket, _), rest) ↦
        acquired
          (record { socket = some socket; iteration = p.iteration; successful_handshake = true })
          (record p { sockets = rest })
    | none ↦ if ltb p.len p.size then connect_new connected handshaken p else waits
  ]

  -- The check that stands before the loop. A caller that waited is past it.
  unfoldable pub acquire_stream : Result S → Result (Unit {0}) → Pool S → Round S
  unfolding acquire_round
  acquire_stream connected handshaken p =
      if p.size == 0
      then failed (
          operation_error
            "The connection pool does not allow connections; increase the size of the pool.")
      else acquire_round connected handshaken p

  unfoldable pub push_back : Option S → ℕ → List (S × ℕ) → List (S × ℕ)
  push_back none now xs = xs
  push_back (some socket) now xs = xs ++ (socket, now) ∷ []

  -- Whether dropping the stream gives its socket back, and so notifies one waiter.
  unfoldable pub is_returned : PooledStream S → Pool S → Bool
  is_returned s p = s.successful_handshake && s.iteration == p.iteration

  -- `Drop::drop`. The source unwraps `socket`, which is `Some` until here.
  unfoldable pub drop_stream : ℕ → PooledStream S → Pool S → Pool S
  unfolding push_back is_returned
  drop_stream now s p =
      if is_returned s p then record p { sockets = push_back s.socket now p.sockets } else p
