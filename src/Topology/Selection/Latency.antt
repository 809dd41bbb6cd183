-- ===== src/Topology/Selection/Latency.antt =====
-- topology/mod.rs: the latency window of `filter_latency_hosts`.
use old_mongo_rust_driver.Prelude.{
  ◌≡◌, ◌≢◌, refl, sym, ap, subst, inl, inr, Bool, true, ◌&&◌, List, [], ◌∷◌, arith, retain,
  retain-ext, retain-All, all, all-true, All, All-map, Bool-cases,
}
use old_mongo_rust_driver.Prelude.Int.{
  ℤ, pos, negsuc, ◌+ℤ◌, ◌≤ℤ◌, ltb_ℤ, leb_ℤ, eqb_ℤ, eqb_ℤ_iff, +ℤ_parts, i64_max, add_i64,
  add_i64_lem,
}
use old_mongo_rust_driver.Connstring.Host.{Host}
use old_mongo_rust_driver.Topology.State.{World}
use old_mongo_rust_driver.Topology.Selection.{
  rtt, is_known, description_of, shorter, shortest_from, in_window, within_latency,
  filter_latency_hosts,
}

-- The host answers within the threshold of every one of the hosts.
abbrev pub is_near : World → List Host → Host → Bool
is_near w hosts h = all (λ g. leb_ℤ (rtt w h) (rtt w g +ℤ w.local_threshold_ms)) hosts

-- A host with a server whose round-trip time is in the range of `i64`, and which the threshold takes
-- over its end only if no time was measured.
pub record Timed (w : World) (h : Host) : Type 0 where
  pub known : is_known (description_of w h) ≡ true
  pub low : negsuc 9223372036854775807 ≤ℤ rtt w h
  pub high : rtt w h ≤ℤ i64_max
  pub room : rtt w h ≢ i64_max → rtt w h +ℤ w.local_threshold_ms ≤ℤ i64_max

module _ (w : World) where
  shorter-low :
      (acc : ℤ) (h : Host) → Timed w h → (shorter w acc h ≤ℤ acc) × (shorter w acc h ≤ℤ rtt w h)
  unfolding shorter
  shorter-low acc h t = (ground (arith, t.known), ground (arith, t.known))

  shortest_from-low :
      (acc : ℤ) (hs : List Host)
      → All (Timed w) hs
      → (shortest_from w acc hs ≤ℤ acc) × All (λ g. shortest_from w acc hs ≤ℤ rtt w g) hs
  unfolding shortest_from
  shortest_from-low acc [] t = (omega arith, tt)
  shortest_from-low acc (h ∷ hs) (t, ts) =
      let ih = shortest_from-low (shorter w acc h) hs ts in
      let one = shorter-low acc h t in
      (omega (arith, ih.0, one.0), (omega (arith, ih.0, one.1), ih.1))

  -- The least time is one of the times.
  shorter-kept {κ} :
      (P : ℤ → Type κ) (acc : ℤ) (h : Host) → Timed w h → P acc → P (rtt w h) → P (shorter w acc h)
  unfolding shorter
  shorter-kept P acc h t p q = elim (Bool-cases (ltb_ℤ acc (rtt w h))) [
    | inl e ↦ rw (t.known, e) p
    | inr e ↦ rw (t.known, e) q
  ]

  shortest_from-kept {κ} :
      (P : ℤ → Type κ) (acc : ℤ) (hs : List Host)
      → All (Timed w) hs
      → P acc
      → ((h : Host) → Timed w h → P (rtt w h))
      → P (shortest_from w acc hs)
  unfolding shortest_from
  shortest_from-kept P acc [] t p q = p
  shortest_from-kept P acc (h ∷ hs) (t, ts) p q =
      shortest_from-kept P (shorter w acc h) hs ts (shorter-kept P acc h t p (q h t)) q

  -- A bound on every sum with the threshold, against a bound on the least.
  abbrev below : ℤ → ℤ → Bool
  below x y = leb_ℤ x (y +ℤ w.local_threshold_ms)

  shorter-below :
      (x acc : ℤ) (h : Host)
      → Timed w h
      → below x acc && below x (rtt w h) ≡ below x (shorter w acc h)
  unfolding shorter
  shorter-below x acc h t =
      ground
        (arith, t.known, +ℤ_parts acc w.local_threshold_ms, +ℤ_parts (rtt w h) w.local_threshold_ms)

  shortest_from-below :
      (x acc : ℤ) (hs : List Host)
      → All (Timed w) hs
      → below x acc && all (λ g. below x (rtt w g)) hs ≡ below x (shortest_from w acc hs)
  unfolding shortest_from
  shortest_from-below x acc [] t = ground arith
  shortest_from-below x acc (h ∷ hs) (t, ts) =
      ground (arith, shorter-below x acc h t, shortest_from-below x (shorter w acc h) hs ts)

  -- What the window's lower end is.
  record IsLeast (low : ℤ) : Type 0 where
    in_range : negsuc 9223372036854775807 ≤ℤ low
    at_most : low ≤ℤ i64_max
    room : low ≢ i64_max → low +ℤ w.local_threshold_ms ≤ℤ i64_max

  shortest_from-IsLeast :
      (first : Host) (hs : List Host)
      → All (Timed w) (first ∷ hs)
      → IsLeast (shortest_from w (rtt w first) (first ∷ hs))
  shortest_from-IsLeast first hs all_timed =
      shortest_from-kept IsLeast (rtt w first) (first ∷ hs) all_timed (of first all_timed.0) of
    where
      of : (h : Host) → Timed w h → IsLeast (rtt w h)
      of h t = record { in_range = t.low; at_most = t.high; room = t.room }

  -- A host is in the window of the least time just if it is near every host.
  in_window-near :
      (low : ℤ) (first : Host) (hs : List Host) (x : Host)
      → shortest_from w (rtt w first) (first ∷ hs) ≡ low
      → All (Timed w) (first ∷ hs)
      → pos 0 ≤ℤ w.local_threshold_ms
      → low ≢ i64_max
      → Timed w x × (low ≤ℤ rtt w x)
      → in_window w low (add_i64 low w.local_threshold_ms) x ≡ is_near w (first ∷ hs) x
  in_window-near low first hs x is_low all_timed up some_time (timed, least) =
      let l = subst IsLeast is_low (shortest_from-IsLeast first hs all_timed) in
      let sum =
        add_i64_lem low w.local_threshold_ms
          (omega (arith, l.in_range, +ℤ_parts low w.local_threshold_ms)) (l.room some_time) in
      ground (
        arith,
        timed.known,
        sum,
        least,
        shortest_from-below (rtt w x) (rtt w first) (first ∷ hs) all_timed,
        ap (λ y. below (rtt w x) y) is_low,
      )

  -- If no time was measured, every host is near every host.
  untimed-near :
      (hs : List Host) (x : Host)
      → pos 0 ≤ℤ w.local_threshold_ms
      → Timed w x
      → All (λ g. i64_max ≤ℤ rtt w g) hs
      → is_near w hs x ≡ true
  untimed-near hs x up timed h = all-true _ hs (
      All-map (λ g. i64_max ≤ℤ rtt w g) (λ g. below (rtt w x) (rtt w g) ≡ true) hs
        (λ g p. ground (arith, timed.high, +ℤ_parts (rtt w g) w.local_threshold_ms)) h)

  All-pair {κ μ} :
      {A : Type 0} (P : A → Type κ) (Q : A → Type μ) (xs : List A)
      → All P xs
      → All Q xs
      → All (λ x. P x × Q x) xs
  All-pair P Q [] p q = tt
  All-pair P Q (x ∷ xs) p q = ((p.0, q.0), All-pair P Q xs p.1 q.1)

  within_latency_lem :
      (low : ℤ) (first : Host) (hs : List Host)
      → shortest_from w (rtt w first) (first ∷ hs) ≡ low
      → All (Timed w) (first ∷ hs)
      → pos 0 ≤ℤ w.local_threshold_ms
      → within_latency w low (first ∷ hs) ≡ retain (is_near w (first ∷ hs)) (first ∷ hs)
  unfolding within_latency
  within_latency_lem low first hs is_low all_timed up =
      let least =
        subst (λ x. All (λ g. x ≤ℤ rtt w g) (first ∷ hs)) is_low
          (shortest_from-low (rtt w first) (first ∷ hs) all_timed).1 in
      elim (Bool-cases (eqb_ℤ low i64_max)) [
        | inl e ↦
            let top = eqb_ℤ_iff low i64_max in
            rw (e, within_latency)
              (sym (
                retain-All _ (first ∷ hs) (
                  All-map (Timed w) _ (first ∷ hs)
                    (λ x t.
                      untimed-near (first ∷ hs) x up t
                        (subst (λ y. All (λ g. y ≤ℤ rtt w g) (first ∷ hs)) (top.0 e) least))
                    all_timed)))
        | inr e ↦
            rw (e, within_latency)
              (retain-ext _ _ (first ∷ hs) (
                All-map (λ x. Timed w x × (low ≤ℤ rtt w x)) _ (first ∷ hs)
                  (λ x.
                    in_window-near low first hs x is_low all_timed up
                      (ground (arith, e, eqb_ℤ_iff low i64_max)))
                  (All-pair (Timed w) _ (first ∷ hs) all_timed least)))
      ]

-- For hosts that all have a server and a threshold that is not negative, the latency window keeps
-- exactly the hosts whose round-trip time is within the threshold of every other host's, provided
-- that the times are `i64` values and a measured time plus the threshold is one as well.
pub filter_latency_hosts_lem :
    (w : World) (hosts : List Host)
    → All (Timed w) hosts
    → pos 0 ≤ℤ w.local_threshold_ms
    → filter_latency_hosts w hosts ≡ retain (is_near w hosts) hosts
unfolding filter_latency_hosts
filter_latency_hosts_lem w [] t up = refl
filter_latency_hosts_lem w (h ∷ []) t up = ground (arith, +ℤ_parts (rtt w h) w.local_threshold_ms)
filter_latency_hosts_lem w (h ∷ g ∷ hs) t up = within_latency_lem w _ h (g ∷ hs) refl t up
