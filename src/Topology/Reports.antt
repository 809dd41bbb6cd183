-- ===== src/Topology/Reports.antt =====
-- topology/monitor.rs: the updates of a monitor, and the topology.
use old_mongo_rust_driver.Prelude.{
  ℕ, ◌≡◌, ◌⊎◌, inl, inr, refl, true, false, none, some, if_cases, ==_iff, ◌==◌,
}
use old_mongo_rust_driver.Prelude.Int.{ℤ}
use old_mongo_rust_driver.Prelude.Text.{Text}
use old_mongo_rust_driver.Error.{Error, Result, ok, err}
use old_mongo_rust_driver.Bson.{Document}
use old_mongo_rust_driver.Pool.{Pool, clear as clear_pool}
use old_mongo_rust_driver.Topology.Server.{
  ServerDescription, IsMasterResult, is_unknown, unknown, clear,
}
use old_mongo_rust_driver.Topology.Server
use old_mongo_rust_driver.Topology.State.{write}
use old_mongo_rust_driver.Topology.Update.{has_primary}
use old_mongo_rust_driver.Topology.Update
use old_mongo_rust_driver.Topology.Answer
use old_mongo_rust_driver.Topology.Invariant.{IsWf, update_private-IsWf}
use old_mongo_rust_driver.Topology.Monitor.{
  Monitor, Reply, described, describe, update_top_description, set_err, update_server_description,
  if_updated, update_with_is_master_cursor, clear_pools, retried, attempted, execute_update,
}

module _ {T : Type 0} where
  describe-IsWf : (d : ServerDescription) (m : Monitor T) → IsWf m.world → IsWf (describe d m).world
  describe-IsWf d m h = record { entries = h.entries }

  update_top_description-IsWf :
      (m : Monitor T) → IsWf m.world → IsWf (update_top_description m).world
  unfolding update_top_description Update.update
  update_top_description-IsWf m h =
      if_cases (λ (n : Monitor T). IsWf n.world) m.alive _ _
        (λ e. update_private-IsWf true m.host m.description m.world h) (λ e. h)

  set_err-IsWf : (e : Error) (m : Monitor T) → IsWf m.world → IsWf (set_err e m).world
  unfolding set_err
  set_err-IsWf e m h = update_top_description-IsWf _ (describe-IsWf _ m h)

  module _ (with_string : Text → Result ℕ) where
    reply-IsWf :
        (r : Reply) (rtt : ℤ) (m : Monitor T)
        → IsWf m.world
        → IsWf (update_with_is_master_cursor with_string r rtt m).world
    unfolding update_with_is_master_cursor update_server_description
    reply-IsWf none rtt m h = set_err-IsWf _ m h
    reply-IsWf (some (err e)) rtt m h = set_err-IsWf e m h
    reply-IsWf (some (ok doc)) rtt m h = by_answer (Answer.new with_string doc)
      where
        by_answer :
            (a : Result IsMasterResult)
            → IsWf (if_updated (update_server_description a rtt m)).world
        by_answer (ok a) = update_top_description-IsWf _ (describe-IsWf _ m h)
        by_answer (err e) = describe-IsWf _ m h

    module _ {E : Type 0} (is_master : Pool T → E → Result (Reply × ℤ) × Pool T × E) (now : ℕ) where
      retried-IsWf :
          (m : Monitor T) (r : Result (Reply × ℤ) × Pool T × E)
          → IsWf m.world
          → let (n, e) = retried with_string is_master now m r in IsWf n.world
      retried-IsWf m (ok (reply, rtt), pool, e) h =
          reply-IsWf reply rtt (record m { personal_pool = pool }) h
      retried-IsWf m (err x, pool, e) h = set_err-IsWf x (record m { personal_pool = pool }) h

      attempted-IsWf :
          (m : Monitor T) (r : Result (Reply × ℤ) × Pool T × E)
          → IsWf m.world
          → let (n, e) = attempted with_string is_master now m r in IsWf n.world
      attempted-IsWf m (ok (reply, rtt), pool, e) h =
          reply-IsWf reply rtt (record m { personal_pool = pool }) h
      attempted-IsWf m (err x, pool, e) h =
          let c : Monitor T =
            clear_pools with_string is_master now (record m { personal_pool = pool }) in
          if_cases (λ (p : Monitor T × E). IsWf (p.0).world) (is_unknown (described c).server_type)
            _ _ (λ _. set_err-IsWf x c h) (λ _. retried-IsWf c (is_master c.personal_pool e) h)

      -- Whatever the server answers to a monitor, in the first attempt or the second, the monitor's update keeps the
      -- topology's server map in shape: each host stands in it once, under its own name, and no two servers share a
      -- description.
      pub execute_update-IsWf :
          (m : Monitor T) (e : E)
          → IsWf m.world
          → let (n, u) = execute_update with_string is_master now m e in IsWf n.world
      unfolding execute_update
      execute_update-IsWf m e h = attempted-IsWf m (is_master m.personal_pool e) h

      -- The answer of the first attempt is this document, or that of the second, which is made if the first fails
      -- while the server's type is known.
      abbrev pub Answers : Document → Monitor T → E → Type 0
      Answers doc m e =
          ((rtt : ℤ) × (pool : Pool T) × (u : E) × (is_master m.personal_pool e
              ≡ (ok (some (ok doc), rtt), pool, u)))
          ⊎ ((x : Error) × (pool : Pool T) × (u : E) × (rtt : ℤ) × (last : Pool T) × (v : E)
              × (is_master m.personal_pool e ≡ (err x, pool, u))
              × (is_unknown (described m).server_type ≡ false)
              × (is_master (clear_pool pool) u ≡ (ok (some (ok doc), rtt), last, v)))

      -- What the update leaves if an answer was not parsed.
      pub record IsMissed (x : Error) (m n : Monitor T) : Type 0 where
        pub top : n.world.top ≡ m.world.top
        pub log : n.world.log ≡ m.world.log
        pub cell :
            (q : ℕ)
            → n.world.heap.cell q
              ≡ (write m.world.heap m.description (Server.set_err x (described m))).cell q
        pub unlearned : (described n).server_type ≡ unknown

      -- If the server's answer, in the first attempt or the second, cannot be parsed, the update sets the error in the
      -- server's description, which makes its type unknown, but does not update the topology: the topology's
      -- description (its type and servers included), every other server's description and the log of monitors
      -- started and stopped are as before.
      pub execute_update_misses_unparsed :
          (m : Monitor T) (e : E) (doc : Document) (x : Error)
          → Answers doc m e
          → Answer.new with_string doc ≡ err x
          → let (n, v) = execute_update with_string is_master now m e in IsMissed x m n
      unfolding execute_update update_with_is_master_cursor update_server_description Server.set_err
          clear
      execute_update_misses_unparsed m e doc x (inl (rtt, pool, u, f)) g =
          let here : (m.description == m.description) ≡ true =
            (==_iff m.description m.description).1 refl in
          rw (f, g) (record { top = refl; log = refl; cell = λ q. refl; unlearned = rw here refl })
      execute_update_misses_unparsed m e doc x (inr (y, pool, u, rtt, last, v, f, k, h)) g =
          let here : (m.description == m.description) ≡ true =
            (==_iff m.description m.description).1 refl in
          rw (f, k)
            (rw (h, g)
              (record { top = refl; log = refl; cell = λ q. refl; unlearned = rw here refl }))
