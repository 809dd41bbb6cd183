-- ===== src/Topology/Selected.antt =====
-- topology/mod.rs: the loop that selects a server.
use old_mongo_rust_driver.Prelude.{
  ℕ, ◌+◌, ◌-◌, ◌*◌, ◌≤◌, ◌<◌, ◌≡◌, refl, ap, ◌∙◌, Bool, true, false, Option, none, some, List, [],
  ◌∷◌, length, leb→le, if_cases, arith,
}
use old_mongo_rust_driver.Prelude.Int.{
  ℤ, pos, pos_part, neg_part, sub_i64, sub_i64-pos, ◌≤ℤ◌, leb_ℤ,
}
use mathlib.Core.List.{Mem, mem-cons_self, mem-cons_of_mem}
use old_mongo_rust_driver.Error.{Result, ok, err, ◌>>=◌}
use old_mongo_rust_driver.Connstring.Host.{Host}
use old_mongo_rust_driver.Topology.State.{World}
use old_mongo_rust_driver.Topology.Invariant.{IsWf}
use old_mongo_rust_driver.Topology.Selection.{ReadPreference}
use old_mongo_rust_driver.Topology.Selection.Roles.{suits, suits_writes, passes}
use old_mongo_rust_driver.Topology.Selection.Acquire.{
  acquire_stream-Serves, acquire_write_stream-Serves,
}
use old_mongo_rust_driver.Topology.Handle.{Round, attempt, decide, acquire_stream_private}

-- The topology has the server, and its type is one for the operation.
abbrev pub allows : Option ReadPreference → World → Host → Bool
allows (some pref) w = passes (suits w.topology_type pref.mode) w
allows none w = passes (suits_writes w.topology_type) w

-- The rounds are half a second apart, each in a topology in shape, with a timeout of at most `timeout`.
abbrev pub Ticks {ℓ} : {S : Type ℓ} → ℕ → ℕ → List (Round S) → Type 0
Ticks timeout t [] = Unit
Ticks timeout t (r ∷ rs) =
    IsWf r.world
    × (r.timeout_ms ≤ℤ pos timeout)
    × (n : ℕ) × (r.end_ms ≡ pos n)
    × (t ≤ n)
    × (n ≤ 9223372036854775807)
    × Ticks timeout (n + 500) rs

module _ {ℓ} {S : Type ℓ} (pref : Option ReadPreference) (start : ℕ) where
  -- What ends the loop: an allowed server gave the stream, or the attempt failed when the time was over.
  abbrev pub Ended : Result (S × Bool × Bool) → Round S → Type ℓ
  Ended (ok (s, a, b)) r = (h : Host) × (allows pref r.world h ≡ true) × (r.acquire h ≡ ok s)
  Ended (err e) r = (attempt pref r ≡ err e) × (r.timeout_ms ≤ℤ sub_i64 r.end_ms (pos start))

  abbrev pub Chosen : Result (S × Bool × Bool) → List (Round S) → Type ℓ
  Chosen x rs = (r : Round S) × Mem r rs × Ended x r

-- The timeout was not over.
early : (m timeout : ℕ) (z y : ℤ) → leb_ℤ z y ≡ false → y ≡ pos m → z ≤ℤ pos timeout → m < timeout
early m timeout z y q d l = ground (arith, ap pos_part d, ap neg_part d)

module _ {ℓ} {S : Type ℓ} where
  written :
      (x : Result S) (s : S) (a b : Bool)
      → ◌≡◌ {A = Result (S × Bool × Bool)} (x >>= λ t. ok (t, false, false)) (ok (s, a, b))
      → x ≡ ok s
  written (ok t) s a b e = ap (λ r. r >>= λ y. ok y.0) e
  written (err x) s a b e = cc

  attempt-allows :
      (pref : Option ReadPreference) (r : Round S) (s : S) (a b : Bool)
      → IsWf r.world
      → attempt pref r ≡ ok (s, a, b)
      → (h : Host) × (allows pref r.world h ≡ true) × (r.acquire h ≡ ok s)
  unfolding attempt
  attempt-allows (some pref) r s a b m e =
      acquire_stream-Serves r.acquire r.random r.world pref s a b m e
  attempt-allows none r s a b m e =
      acquire_write_stream-Serves r.acquire r.random r.world s m (written _ s a b e)

  module _ (pref : Option ReadPreference) (start timeout : ℕ) where
    -- What the loop comes to.
    abbrev Comes : List (Round S) → Option (Result (S × Bool × Bool)) → Type ℓ
    Comes rs o = (x : Result (S × Bool × Bool)) × (o ≡ some x) × Chosen pref start x rs

    later :
        (r : Round S) (rs : List (Round S)) (o : Option (Result (S × Bool × Bool)))
        → Comes rs o
        → Comes (r ∷ rs) o
    later r rs o (x, e, (q, m, h)) = (x, e, (q, mem-cons_of_mem r m, h))

    decide-Comes :
        (r : Round S) (rs : List (Round S)) (x : Result (S × Bool × Bool))
        (o : Option (Result (S × Bool × Bool)))
        → IsWf r.world
        → attempt pref r ≡ x
        → (leb_ℤ r.timeout_ms (sub_i64 r.end_ms (pos start)) ≡ false → Comes rs o)
        → Comes (r ∷ rs) (decide (pos start) r x o)
    unfolding decide
    decide-Comes r rs (ok (s, a, b)) o m e next =
        (ok (s, a, b), refl, (r, mem-cons_self, attempt-allows pref r s a b m e))
    decide-Comes r rs (err x) o m e next =
        if_cases (Comes (r ∷ rs)) (leb_ℤ r.timeout_ms (sub_i64 r.end_ms (pos start))) _ _
          (λ l. (err x, refl, (r, mem-cons_self, (e, leb→le _ _ l)))) (λ l. later r rs o (next l))

    -- `t` is the time after which the next attempt ends.
    rounds-Comes :
        (t : ℕ) (rs : List (Round S))
        → Ticks timeout t rs
        → start ≤ t
        → t < timeout + start + 500
        → timeout + start + 500 ≤ t + 500 * length rs
        → Comes rs (acquire_stream_private pref (pos start) rs)
    unfolding acquire_stream_private
    rounds-Comes t [] h a b c = absurd (omega arith)
    rounds-Comes t (r ∷ rs) (m, l, n, e, f, g, ts) a b c =
        decide-Comes r rs (attempt pref r) _ m refl (λ q.
          let d : sub_i64 r.end_ms (pos start) ≡ pos (n - start) =
            ap (λ z. sub_i64 z (pos start)) e ∙ sub_i64-pos n start (omega arith) g in
          let k : n - start < timeout = early (n - start) timeout r.timeout_ms _ q d l in
          rounds-Comes (n + 500) rs ts (omega arith) (omega arith) (omega arith))

    -- The selection of a server returns, if the rounds are half a second apart, as many as the timeout has, and one
    -- more: either with a stream that a server gave in some round, which the topology of that round had, of a type
    -- that suits the operation, or with the error of an attempt after which the timeout was over.
    pub acquire_stream_private_returns :
        (rs : List (Round S))
        → Ticks timeout start rs
        → timeout + 500 ≤ 500 * length rs
        → (x : Result (S × Bool × Bool)) × (acquire_stream_private pref (pos start) rs ≡ some x)
          × Chosen pref start x rs
    acquire_stream_private_returns rs h b =
        rounds-Comes start rs h (omega arith) (omega arith) (omega arith)
