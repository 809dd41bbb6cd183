-- ===== src/Topology/Classify.antt =====
-- topology/server.rs: the type and the round-trip time that a server's answer gives its description.
use old_mongo_rust_driver.Prelude.{
  ℕ, ◌+◌, ◌*◌, ◌/◌, ◌≤◌, ◌≡◌, ◌↔◌, min, max, true, false, some, arith,
}
use old_mongo_rust_driver.Prelude.Int.{ℤ, pos, ◌+ℤ◌, div_trunc, scale}
use old_mongo_rust_driver.Topology.Server.{
  ServerDescription, unknown, IsMasterResult, clear, set_err, average_rtt, classify, update,
}

classify-known : (m : IsMasterResult) → (classify m ≡ unknown) → false ≡ true
unfolding classify
classify-known m e = ground arith

-- A server's type is unknown after its answer just if the answer is not ok: an answer that is ok is
-- always one of the seven known types.
pub update-unknown_iff :
    (m : IsMasterResult) (rtt : ℤ) (d : ServerDescription)
    → ((update m rtt d).server_type ≡ unknown) ↔ (m.is_ok ≡ false)
unfolding update set_err clear
update-unknown_iff m rtt d = ground (arith, classify-known m)

-- The average of two times that are not negative is not negative, at most the larger one, and at most
-- four below the smaller one, which the divisions round away.
pub average_rtt_bounds :
    (old rtt : ℕ)
    → (a : ℕ) × (average_rtt (some (pos old)) (pos rtt) ≡ pos a)
      × (a ≤ max old rtt)
      × (min old rtt ≤ a + 4)
unfolding average_rtt div_trunc scale ◌+ℤ◌
average_rtt_bounds old rtt = (rtt / 5 + 4 * (old / 5), ground arith, ground arith, ground arith)
