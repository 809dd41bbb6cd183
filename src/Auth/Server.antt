-- ===== src/Auth/Server.antt =====
-- auth.rs: what a successful authentication says of the server.
use old_mongo_rust_driver.Prelude.{
  ℕ, zero, suc, ◌≡◌, refl, ap, ◌∙◌, subst, true, Option, none, some, [], ◌++◌, if_cases,
}
use old_mongo_rust_driver.Prelude.Text.{Text, text, text_eq, text_eq_iff}
use old_mongo_rust_driver.Error.{Result, ok, err, ◌>>=◌}
use old_mongo_rust_driver.Bson.{Bson, boolean, Document, get}
use old_mongo_rust_driver.Connstring.Data.{ConnectionOptions}
use old_mongo_rust_driver.Auth.Bytes.{is_utf8}
use old_mongo_rust_driver.Auth.Defs.{
  Crates, World, InitialData, Proof, AuthData, Done, payload_of, continue_doc, prepare,
  server_signature, check_verifier, verify, command, start, next, verified, finish_loop, finish,
  finish_after, next_after, auth, ◌>>>◌,
}

abbrev pub full_password : Text → Text → Text
full_password user password = user ++ text ":mongo:" ++ password

module _ (C : Crates) where
  -- A payload, if there is one, is the server's signature.
  abbrev pub Vouched : Text → Option Text → Type 0
  Vouched signature none = Unit
  Vouched signature (some payload) =
      (is_utf8 payload ≡ true) × (C.scan_final payload ≡ some (C.encode signature))

  -- `P`, if the exchange succeeded.
  abbrev OnlyIf : {S : Type 0} → Type 0 → Option (Result Done × S) → Type 0
  OnlyIf P none = Unit
  OnlyIf P (some (err e, s)) = Unit
  OnlyIf P (some (ok u, s)) = P

  always : {S : Type 0} (P : Type 0) → P → (r : Option (Result Done × S)) → OnlyIf P r
  always P h none = tt
  always P h (some (err e, s)) = tt
  always P h (some (ok u, s)) = h

  weaken :
      {S : Type 0} {P Q : Type 0}
      → (P → Q)
      → (r : Option (Result Done × S)) → OnlyIf P r
      → OnlyIf Q r
  weaken f none h = tt
  weaken f (some (err e, s)) h = tt
  weaken f (some (ok u, s)) h = f h

  verified-Vouched :
      {S : Type 0} (signature : Text) (o : Option Text) (s : S) (rest : Option (Result Done × S))
      → OnlyIf (Vouched signature o) (verified (verify C signature o) s rest)
  unfolding verify
  verified-Vouched signature none s rest = always Unit tt rest
  verified-Vouched signature (some payload) s rest =
      if_cases
        (λ r. OnlyIf P (verified (r >>= λ p. check_verifier C signature (C.scan_final p)) s rest))
        (is_utf8 payload) _ _ (λ e. by_verifier e (C.scan_final payload) refl) (λ e. tt)
    where
      P : Type 0
      P = Vouched signature (some payload)

      by_verifier :
          is_utf8 payload ≡ true
          → (v : Option Text) → C.scan_final payload ≡ v
          → OnlyIf P (verified (check_verifier C signature v) s rest)
      by_verifier e none q = tt
      by_verifier e (some v) q =
          if_cases (λ r. OnlyIf P (verified r s rest)) (text_eq v (C.encode signature)) _ _
            (λ t. always P (e, q ∙ ap some ((text_eq_iff v (C.encode signature)).0 t)) rest)
            (λ t. tt)

  module _ {S : Type 0} (W : World S) (options : Option ConnectionOptions) where
    -- The exchange up to the first round of `finish`.
    pub record IsMutual (user password : Text) (s : S) : Type 0 where
      pub d : InitialData
      pub after_start : S
      pub p : Proof
      pub response : Document
      pub after_next : S
      pub started : start C W options user s ≡ (ok d, after_start)
      pub prepared : prepare C (full_password user password) d ≡ ok p
      pub continued :
          command C W options (continue_doc p.final_message d.conversation_id) after_start
          ≡ (ok response, after_next)
      pub vouched :
          Vouched
            (server_signature C p.salted_password p.message)
            (payload_of (get (text "payload") response))

    finish-Vouched :
        (n : ℕ) (id : Bson) (a : AuthData) (s : S)
        → OnlyIf
            (Vouched
              (server_signature C a.salted_password a.message)
              (payload_of (get (text "payload") a.response)))
            (finish C W options n id a s)
    unfolding finish finish_loop
    finish-Vouched zero id a s = tt
    finish-Vouched (suc n) id a s =
        verified-Vouched (server_signature C a.salted_password a.message)
          (payload_of (get (text "payload") a.response)) s _

    by_answer :
        (n : ℕ) (user password : Text) (s : S) (d : InitialData) (t : S) (p : Proof)
        → start C W options user s ≡ (ok d, t)
        → prepare C (full_password user password) d ≡ ok p
        → (r : Result Document × S)
        → command C W options (continue_doc p.final_message d.conversation_id) t ≡ r
        → OnlyIf (IsMutual user password s) (
            finish_after C W options n d.conversation_id (
              r >>> λ response u. (
                ok (record {
                  salted_password = p.salted_password;
                  message = p.message;
                  response = response;
                }),
                u,
              )))
    by_answer n user password s d t p e f (err x, u) g = tt
    by_answer n user password s d t p e f (ok response, u) g =
        let a : AuthData = record {
          salted_password = p.salted_password;
          message = p.message;
          response = response;
        } in
        weaken
          (λ v. record {
            d = d;
            after_start = t;
            p = p;
            response = response;
            after_next = u;
            started = e;
            prepared = f;
            continued = g;
            vouched = v;
          })
          (finish C W options n d.conversation_id a u) (finish-Vouched n d.conversation_id a u)

    by_prepare :
        (n : ℕ) (user password : Text) (s : S) (d : InitialData) (t : S)
        → start C W options user s ≡ (ok d, t)
        → (r : Result Proof) → prepare C (full_password user password) d ≡ r
        → OnlyIf (IsMutual user password s) (
            finish_after C W options n d.conversation_id (
              (r, t) >>> λ p t.
              command C W options (continue_doc p.final_message d.conversation_id) t
              >>> λ response r. (
                ok (record {
                  salted_password = p.salted_password;
                  message = p.message;
                  response = response;
                }),
                r,
              )))
    by_prepare n user password s d t e (err x) f = tt
    by_prepare n user password s d t e (ok p) f = by_answer n user password s d t p e f _ refl

    by_start :
        (n : ℕ) (user password : Text) (s : S) (r : Result InitialData × S)
        → start C W options user s ≡ r
        → OnlyIf (IsMutual user password s) (next_after C W options n user password r)
    unfolding next
    by_start n user password s (err x, t) e = tt
    by_start n user password s (ok d, t) e = by_prepare n user password s d t e _ refl

    -- An authentication that succeeds got the server's first message and a prepared answer to it, and the payload of the
    -- server's next message, if it has one, is the signature of the messages that only the keys of the password give.
    pub auth-IsMutual :
        (n : ℕ) (user password : Text) (s t : S)
        → auth C W options n user password s ≡ some (ok tt, t)
        → IsMutual user password s
    unfolding auth
    auth-IsMutual n user password s t e =
        subst (OnlyIf (IsMutual user password s)) e
          (by_start n user password s (start C W options user s) refl)

    -- A server that answers the proof with `done` and no payload, and the next request as well, is taken for the right one,
    -- whatever the password: nothing that depends on it was checked.
    pub auth_trusts_silent_server :
        (n : ℕ) (user password : Text) (s t : S) (d : InitialData) (p : Proof) (answer : Document)
        → start C W options user s ≡ (ok d, t)
        → prepare C (full_password user password) d ≡ ok p
        → ((query : Document) → command C W options query t ≡ (ok answer, t))
        → payload_of (get (text "payload") answer) ≡ none
        → get (text "done") answer ≡ some (boolean true)
        → auth C W options (suc n) user password s ≡ some (ok tt, t)
    unfolding auth next finish finish_loop verify
    auth_trusts_silent_server n user password s t d p answer e f g h k = rw (
      e,
      f,
      g (continue_doc p.final_message d.conversation_id),
      h,
      g (continue_doc [] d.conversation_id),
      k,
    )
