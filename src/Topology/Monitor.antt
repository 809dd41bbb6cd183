-- ===== src/Topology/Monitor.antt =====
-- topology/monitor.rs: `Monitor` and its updates of the server's and the topology's descriptions. `T` is the type of a
-- socket and `E` the state of the outside world. Asking the server with a stream of the personal pool, and the
-- first document that the cursor gives, with the round-trip time, are a parameter.
use old_mongo_rust_driver.Prelude.{ℕ, Bool, Option, none, some, if◌then◌else◌}
use old_mongo_rust_driver.Prelude.Int.{ℤ}
use old_mongo_rust_driver.Prelude.Text.{Text}
use old_mongo_rust_driver.Error.{Error, operation_error, Result, ok, err}
use old_mongo_rust_driver.Bson.{Document}
use old_mongo_rust_driver.Connstring.Host.{Host}
use old_mongo_rust_driver.Pool.{Pool, clear, prune_idle}
use old_mongo_rust_driver.Topology.Server.{ServerDescription, IsMasterResult, is_unknown}
use old_mongo_rust_driver.Topology.Server
use old_mongo_rust_driver.Topology.State.{World, write}
use old_mongo_rust_driver.Topology.Update
use old_mongo_rust_driver.Topology.Answer

-- The client and the topology are weak references: `alive` says that they can be upgraded.
pub record Monitor (T : Type 0) : Type 0 where
  pub host : Host
  pub description : ℕ
  pub world : World
  pub server_pool : Pool T
  pub personal_pool : Pool T
  pub alive : Bool

-- The first document of the cursor.
abbrev pub Reply : Type 0
Reply = Option (Result Document)

abbrev pub Done : Type 0
Done = Unit

module _ {T : Type 0} where
  abbrev pub described : Monitor T → ServerDescription
  described m = m.world.heap.cell m.description

  abbrev pub describe : ServerDescription → Monitor T → Monitor T
  describe d m = record m { world = record world { heap = write world.heap m.description d } }
    where
      open m use {world}

  unfoldable pub update_top_description : Monitor T → Monitor T
  update_top_description m =
      if m.alive then record m { world = Update.update m.host m.description m.world } else m

  unfoldable pub set_err : Error → Monitor T → Monitor T
  set_err e m = update_top_description (describe (Server.set_err e (described m)) m)

  unfoldable pub update_server_description :
      Result IsMasterResult → ℤ → Monitor T → Result Done × Monitor T
  update_server_description (ok answer) rtt m =
      (ok tt, describe (Server.update answer rtt (described m)) m)
  update_server_description (err e) rtt m = (
    err (operation_error "Failed to parse ismaster result."),
    describe (Server.set_err e (described m)) m,
  )

  -- The error of an answer that is not parsed is dropped.
  abbrev pub if_updated : Result Done × Monitor T → Monitor T
  if_updated (ok _, m) = update_top_description m
  if_updated (err e, m) = m

  module _ (with_string : Text → Result ℕ) where
    unfoldable pub update_with_is_master_cursor : Reply → ℤ → Monitor T → Monitor T
    update_with_is_master_cursor (some (ok doc)) rtt m =
        if_updated (update_server_description (Answer.new with_string doc) rtt m)
    update_with_is_master_cursor (some (err e)) rtt m = set_err e m
    update_with_is_master_cursor none rtt m =
        set_err (operation_error "ismaster returned no response.") m

    module _ {E : Type 0} (is_master : Pool T → E → Result (Reply × ℤ) × Pool T × E) (now : ℕ) where
      abbrev pub prune_pools : Monitor T → Monitor T
      prune_pools m = record m {
        server_pool = prune_idle now m.server_pool;
        personal_pool = prune_idle now m.personal_pool;
      }

      abbrev pub clear_pools : Monitor T → Monitor T
      clear_pools m = record m {
        server_pool = clear m.server_pool;
        personal_pool = clear m.personal_pool;
      }

      -- The second attempt.
      abbrev pub retried : Monitor T → Result (Reply × ℤ) × Pool T × E → Monitor T × E
      retried m (ok (reply, rtt), pool, e) =
          (update_with_is_master_cursor reply rtt (record m { personal_pool = pool }), e)
      retried m (err x, pool, e) = (set_err x (record m { personal_pool = pool }), e)

      abbrev pub after_failure : Error → Monitor T → E → Monitor T × E
      after_failure x m e =
          if is_unknown (described m).server_type
          then (set_err x m, e)
          else retried m (is_master m.personal_pool e)

      abbrev pub attempted : Monitor T → Result (Reply × ℤ) × Pool T × E → Monitor T × E
      attempted m (ok (reply, rtt), pool, e) = (
        prune_pools (update_with_is_master_cursor reply rtt (record m { personal_pool = pool })),
        e,
      )
      attempted m (err x, pool, e) =
          after_failure x (clear_pools (record m { personal_pool = pool })) e

      unfoldable pub execute_update : Monitor T → E → Monitor T × E
      execute_update m e = attempted m (is_master m.personal_pool e)
