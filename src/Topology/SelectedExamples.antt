-- ===== src/Topology/SelectedExamples.antt =====
-- topology/mod.rs: the making of a topology and the selection of a server, at concrete values.
use old_mongo_rust_driver.Prelude.{ℕ, ◌≡◌, refl, Bool, none, some, List, [], ◌∷◌, arith}
use old_mongo_rust_driver.Prelude.Int.{pos}
use old_mongo_rust_driver.Prelude.Text.{text, text_eq}
use old_mongo_rust_driver.Error.{operation_error, argument_error, Result, ok, err}
use old_mongo_rust_driver.Connstring.Host.{Host}
use old_mongo_rust_driver.Connstring.Data.{
  ConnectionString, with_address, with_host, num_hosts, get, hosts,
}
use old_mongo_rust_driver.Topology.State.{default, single, replica_set_no_primary}
use old_mongo_rust_driver.Topology.Handle.{Round, new, apply_options, acquire_stream_private}
use old_mongo_rust_driver.Topology.Selected.{Chosen, acquire_stream_private_returns}
use old_mongo_rust_driver.Topology.Examples.{
  two_primaries, two_primaries-IsWf, ports, first, prefer_secondary,
}

abbrev refuse : Host → Result ℕ
refuse h = err (operation_error "refused")

-- At first no server gives a stream, and then every server does.
abbrev rounds : List (Round ℕ)
rounds =
    record {
      world = two_primaries;
      acquire = refuse;
      random = first;
      end_ms = pos 1003;
      timeout_ms = pos 500;
    }
    ∷ record {
      world = two_primaries;
      acquire = ports;
      random = first;
      end_ms = pos 1504;
      timeout_ms = pos 500;
    }
    ∷ []

acquire_stream_private_returns_example :
    (x : Result (ℕ × Bool × Bool)) × (acquire_stream_private
        (some prefer_secondary)
        (pos 1000)
        rounds
      ≡ some x)
    × Chosen (some prefer_secondary) 1000 x rounds
acquire_stream_private_returns_example =
    acquire_stream_private_returns (some prefer_secondary) 1000 500 rounds
      (
        two_primaries-IsWf,
        omega arith,
        1003,
        refl,
        omega arith,
        omega arith,
        (two_primaries-IsWf, omega arith, 1504, refl, omega arith, omega arith, tt),
      )
      (omega arith)

abbrev in_set : ConnectionString
in_set = record (with_address (text "a") 27017) {
  options = some (record { options = (text "replicaSet", text "rs") ∷ []; read_pref_tags = [] });
}

set_is_named :
    new in_set none
    ≡ ok (record {
      config = in_set;
      description = record default { set_name = text "rs"; topology_type = replica_set_no_primary };
    })
unfolding new apply_options with_host num_hosts get text_eq
set_is_named = refl

single_with_two_hosts :
    new
      (record in_set {
        protocol = hosts (
            record { host_name = text "a"; ipc = []; port = 1 }
            ∷ record { host_name = text "b"; ipc = []; port = 1 }
            ∷ []);
      })
      (some (record default { topology_type = single }))
    ≡ err (argument_error "TopologyType::Single cannot be used with multiple seeds.")
unfolding new apply_options with_host num_hosts get text_eq
single_with_two_hosts = refl
