-- ===== src/Topology/Told.antt =====
-- topology/monitor.rs: the type of a monitored server.
use old_mongo_rust_driver.Prelude.{
  ℕ, ◌<◌, ◌≡◌, ◌⊎◌, refl, sym, subst, inl, inr, Bool, true, false, none, some, if_cases, ==_iff,
}
use old_mongo_rust_driver.Prelude.Int.{ℤ}
use old_mongo_rust_driver.Prelude.Text.{Text}
use old_mongo_rust_driver.Error.{Error, Result, ok, err}
use old_mongo_rust_driver.Bson.{Document}
use old_mongo_rust_driver.Pool.{Pool}
use old_mongo_rust_driver.Topology.Server.{
  ServerDescription, ServerType, unknown, IsMasterResult, is_unknown, classify, clear,
}
use old_mongo_rust_driver.Topology.Server
use old_mongo_rust_driver.Topology.Update
use old_mongo_rust_driver.Topology.Answer
use old_mongo_rust_driver.Topology.Reported.{update_private-Reads}
use old_mongo_rust_driver.Topology.Monitor.{
  Monitor, Reply, described, describe, update_top_description, set_err, update_server_description,
  if_updated, update_with_is_master_cursor, clear_pools, retried, attempted, execute_update,
}

module _ {T : Type 0} {E : Type 0} (with_string : Text → Result ℕ)
    (is_master : Pool T → E → Result (Reply × ℤ) × Pool T × E) where
  -- An answer that the server gave, with `ok`, is of a server of this type.
  pub record IsTold (t : ServerType) : Type 0 where
    pub doc : Document
    pub rtt : ℤ
    pub answer : IsMasterResult
    pub pool : Pool T
    pub state : E
    pub after : Pool T × E
    pub asked : is_master pool state ≡ (ok (some (ok doc), rtt), after.0, after.1)
    pub parsed : Answer.new with_string doc ≡ ok answer
    pub fine : answer.is_ok ≡ true
    pub classified : t ≡ classify answer

  abbrev pub IsKnown : ServerType → Type 0
  IsKnown t = (t ≡ unknown) ⊎ IsTold t

  -- The description has its place, and its type is known from the server.
  abbrev pub Speaks : Monitor T → Type 0
  Speaks m = (m.description < m.world.heap.next) × IsKnown (described m).server_type

  update_top-Speaks :
      (m : Monitor T) → Speaks m → IsKnown (described (update_top_description m)).server_type
  unfolding update_top_description Update.update
  update_top-Speaks m h =
      let t = (described m).server_type in
      if_cases (λ (n : Monitor T). IsKnown (described n).server_type) m.alive _ _
        (λ _.
          elim (update_private-Reads m.description t true m.host m.description m.world
            (h.0, inl refl)).1 [ inl e ↦ subst IsKnown (sym e) h.1 | inr e ↦ inl e ])
        (λ _. h.1)

  described_lem : (d : ServerDescription) (m : Monitor T) → described (describe d m) ≡ d
  described_lem d m = rw ((==_iff m.description m.description).1 refl)

  describe-Speaks :
      (d : ServerDescription) (m : Monitor T)
      → m.description < m.world.heap.next
      → IsKnown d.server_type
      → Speaks (describe d m)
  describe-Speaks d m h k =
      (h, subst (λ (c : ServerDescription). IsKnown c.server_type) (sym (described_lem d m)) k)

  set_err-Speaks :
      (e : Error) (m : Monitor T)
      → m.description < m.world.heap.next
      → IsKnown (described (set_err e m)).server_type
  unfolding set_err Server.set_err clear
  set_err-Speaks e m h = update_top-Speaks _ (describe-Speaks _ m h (inl refl))

  module _ (pool : Pool T) (e : E) (after : Pool T × E) (m : Monitor T)
      (h : m.description < m.world.heap.next) where
    updated-IsKnown :
        (doc : Document) (rtt : ℤ) (a : IsMasterResult) (b : Bool)
        → is_master pool e ≡ (ok (some (ok doc), rtt), after.0, after.1)
        → Answer.new with_string doc ≡ ok a
        → a.is_ok ≡ b
        → IsKnown (Server.update a rtt (described m)).server_type
    unfolding Server.update Server.set_err clear
    updated-IsKnown doc rtt a false q p f = rw f (inl refl)
    updated-IsKnown doc rtt a true q p f = rw f (
        inr (record {
          doc = doc;
          rtt = rtt;
          answer = a;
          pool = pool;
          state = e;
          after = after;
          asked = q;
          parsed = p;
          fine = f;
          classified = refl;
        }))

    parsed-IsKnown :
        (doc : Document) (rtt : ℤ) (a : Result IsMasterResult)
        → is_master pool e ≡ (ok (some (ok doc), rtt), after.0, after.1)
        → Answer.new with_string doc ≡ a
        → IsKnown (described (if_updated (update_server_description a rtt m))).server_type
    unfolding update_server_description Server.set_err clear
    parsed-IsKnown doc rtt (err x) q p =
        (describe-Speaks (Server.set_err x (described m)) m h (inl refl)).1
    parsed-IsKnown doc rtt (ok a) q p =
        update_top-Speaks _ (describe-Speaks _ m h (updated-IsKnown doc rtt a a.is_ok q p refl))

    reply-IsKnown :
        (reply : Reply) (rtt : ℤ)
        → is_master pool e ≡ (ok (reply, rtt), after.0, after.1)
        → IsKnown (described (update_with_is_master_cursor with_string reply rtt m)).server_type
    unfolding update_with_is_master_cursor
    reply-IsKnown none rtt q = set_err-Speaks _ m h
    reply-IsKnown (some (err x)) rtt q = set_err-Speaks x m h
    reply-IsKnown (some (ok doc)) rtt q = parsed-IsKnown doc rtt (Answer.new with_string doc) q refl

  module _ (now : ℕ) (m : Monitor T) (h : m.description < m.world.heap.next) where
    retried-IsKnown :
        (p q : Pool T) (e : E) (r : Result (Reply × ℤ) × Pool T × E)
        → is_master q e ≡ r
        → let (n, u) =
            retried with_string is_master now
              (clear_pools with_string is_master now (record m { personal_pool = p }))
              r in
          IsKnown (described n).server_type
    retried-IsKnown p q e (err x, pool, u) f = set_err-Speaks x _ h
    retried-IsKnown p q e (ok (reply, rtt), pool, u) f = reply-IsKnown q e (pool, u) _ h reply rtt f

    attempted-IsKnown :
        (q : Pool T) (e : E) (r : Result (Reply × ℤ) × Pool T × E)
        → is_master q e ≡ r
        → let (n, u) = attempted with_string is_master now m r in IsKnown (described n).server_type
    attempted-IsKnown q e (ok (reply, rtt), pool, u) f =
        reply-IsKnown q e (pool, u) (record m { personal_pool = pool }) h reply rtt f
    attempted-IsKnown q e (err x, pool, u) f =
        let c : Monitor T =
          clear_pools with_string is_master now (record m { personal_pool = pool }) in
        if_cases (λ (p : Monitor T × E). IsKnown (described p.0).server_type)
          (is_unknown (described c).server_type) _ _ (λ _. set_err-Speaks x c h)
          (λ _. retried-IsKnown pool c.personal_pool u (is_master c.personal_pool u) refl)

    -- After a monitor's update, the server's type is unknown, or it is the type that an answer with `ok` shows which the
    -- server gave: whatever else the update of the topology does, it makes nothing else of this server. The description
    -- has its place in the heap.
    pub execute_update-IsKnown :
        (e : E)
        → let (n, u) = execute_update with_string is_master now m e in
          IsKnown (described n).server_type
    unfolding execute_update
    execute_update-IsKnown e =
        attempted-IsKnown m.personal_pool e (is_master m.personal_pool e) refl
