-- ===== src/Topology/Heartbeats.antt =====
-- topology/monitor.rs: a monitor of one server, and the theorems applied to it.
use old_mongo_rust_driver.Prelude.{
  inr, ℕ, zero, suc, ◌+◌, ◌≡◌, refl, true, Option, none, some, List, [], ◌∷◌, arith,
}
use old_mongo_rust_driver.Prelude.Int.{ℤ, pos, negsuc}
use old_mongo_rust_driver.Prelude.Text.{Text, text, text_eq}
use old_mongo_rust_driver.Error.{Error, argument_error, operation_error, Result, ok, err}
use old_mongo_rust_driver.Bson.{string, i32, nil, cons, array, Document, end, field, get}
use old_mongo_rust_driver.Connstring.Host.{Host, new as new_host}
use old_mongo_rust_driver.Connstring.Find.{
  strip, cut_first, partition, to_ascii_lowercase, lower_byte, parse_u16, digits_of_u16,
  more_of_u16,
}
use old_mongo_rust_driver.Connstring.Parse.{parse_host}
use old_mongo_rust_driver.Pool.{Pool, clear}
use old_mongo_rust_driver.Topology.Server.{
  ServerDescription, IsMasterResult, rs_primary, unknown, new as new_description, classify,
}
use old_mongo_rust_driver.Topology.Server
use old_mongo_rust_driver.Topology.State.{replica_set_with_primary, default, contains_key}
use old_mongo_rust_driver.Topology.Update.{has_primary}
use old_mongo_rust_driver.Topology.Answer.{
  new, read_ok, some_host, bool_or, i64_or, some_i64, some_time, text_or_empty, hosts_in,
  hosts_or_empty, tags_or_empty, tags_in, read_election_id,
}
use old_mongo_rust_driver.Topology.Invariant.{IsWf}
use old_mongo_rust_driver.Topology.Missed.{IsMistaken}
use old_mongo_rust_driver.Topology.Monitor.{
  Monitor, Reply, described, execute_update, update_with_is_master_cursor,
  update_server_description,
}
use old_mongo_rust_driver.Topology.Told.{IsKnown, execute_update-IsKnown}
use old_mongo_rust_driver.Topology.Reports.{
  IsMissed, execute_update-IsWf, execute_update_misses_unparsed,
}

abbrev a : Host
a = record { host_name = text "a"; ipc = []; port = 27017 }

-- The monitor of the primary, the only server.
abbrev monitor : Monitor ℕ
monitor = record {
  host = a;
  description = 0;
  world = record {
    top = record default {
      topology_type = replica_set_with_primary;
      set_name = text "rs";
      servers = (a, record { host = a; description = 0 }) ∷ [];
    };
    heap = record {
      cell = λ q. record new_description { server_type = rs_primary; set_name = text "rs" };
      next = 1;
    };
    log = [];
  };
  server_pool = record { size = 1; len = 0; sockets = []; iteration = 0 };
  personal_pool = record { size = 1; len = 0; sockets = []; iteration = 0 };
  alive = true;
}

abbrev no_oid : Text → Result ℕ
no_oid s = err (argument_error "no object id")

-- The server's own address is one without a name.
abbrev bad_answer : Document
bad_answer = field (text "ok") (i32 (pos 1)) (field (text "me") (string (text "a:b")) end)

-- The first attempt fails, and the second one gets the answer.
abbrev asked : Pool ℕ → ℕ → Result (Reply × ℤ) × Pool ℕ × ℕ
asked pool zero = (err (operation_error "no connection"), pool, 1)
asked pool (suc n) = (ok (some (ok bad_answer), pos 7), pool, suc (suc n))

-- A primary that sends its version numbers as 32-bit integers.
abbrev primary_answer : Document
primary_answer = field (text "ok") (i32 (pos 1)) (
    field (text "setName") (string (text "rs")) (
      field (text "setVersion") (i32 (pos 4))
        (field (text "hosts") (array (cons (string (text "B:1")) (cons (i32 (pos 5)) nil))) end)))

abbrev told : Pool ℕ → ℕ → Result (Reply × ℤ) × Pool ℕ × ℕ
told pool n = (ok (some (ok primary_answer), pos 7), pool, n + 1)

abbrev port_error : Error
port_error = argument_error "Port must be an unsigned integer."

bad_port : new no_oid bad_answer ≡ err port_error
unfolding new get text_eq read_ok some_host parse_host strip cut_first partition parse_u16
    digits_of_u16 more_of_u16
bad_port = refl

monitor-IsWf : IsWf monitor.world
unfolding contains_key
monitor-IsWf = record { entries = (refl, refl, omega arith, tt, tt) }

monitor_keeps_shape : let (n, u) = execute_update no_oid asked 0 monitor 0 in IsWf n.world
monitor_keeps_shape = execute_update-IsWf no_oid asked 0 monitor 0 monitor-IsWf

execute_update-IsKnown_example :
    let (n, u) = execute_update no_oid told 0 monitor 0 in
    IsKnown no_oid told (described n).server_type
execute_update-IsKnown_example = execute_update-IsKnown no_oid told 0 monitor (omega arith) 0

execute_update_misses_unparsed_example :
    let (n, v) = execute_update no_oid asked 0 monitor 0 in
    IsMissed no_oid asked 0 port_error monitor n
execute_update_misses_unparsed_example =
    execute_update_misses_unparsed no_oid asked 0 monitor 0 bad_answer port_error
      (inr (
        operation_error "no connection",
        monitor.personal_pool,
        1,
        pos 7,
        clear monitor.personal_pool,
        2,
        refl,
        refl,
        refl,
      ))
      bad_port

-- The topology goes on to claim a primary that it has lost.
lost_primary : let (n, v) = execute_update no_oid asked 0 monitor 1 in IsMistaken n.world
unfolding execute_update update_with_is_master_cursor update_server_description Server.set_err
    Server.clear has_primary new get text_eq read_ok some_host parse_host strip cut_first partition
    parse_u16 digits_of_u16 more_of_u16
lost_primary = record { claim = refl; truth = refl }

-- The version numbers are not read.
abbrev summary : Result IsMasterResult → Option (Option ℤ × ℤ × List Host)
summary (err e) = none
summary (ok m) = some (m.set_version, m.min_wire_version, m.hosts)

versions_unread :
    summary (new no_oid primary_answer)
    ≡ some (none, negsuc 0, record { host_name = text "b"; ipc = []; port = 1 } ∷ [])
unfolding new get text_eq read_ok some_host read_election_id bool_or i64_or some_i64 some_time
    text_or_empty hosts_in hosts_or_empty tags_or_empty tags_in parse_host strip cut_first partition
    to_ascii_lowercase lower_byte parse_u16 digits_of_u16 more_of_u16 new_host
versions_unread = refl
