-- ===== src/Auth/Termination.antt =====
-- auth.rs: the loop of `finish`.
use old_mongo_rust_driver.Prelude.{
  ℕ, zero, suc, ◌≡◌, refl, ◌⊎◌, inl, inr, true, Option, [], if_cases,
}
use old_mongo_rust_driver.Prelude.Text.{Text, text}
use old_mongo_rust_driver.Error.{Result, ok, err}
use old_mongo_rust_driver.Bson.{Bson, Document, get}
use old_mongo_rust_driver.Connstring.Data.{ConnectionOptions}
use old_mongo_rust_driver.Connstring.Find.{is_some}
use old_mongo_rust_driver.Auth.Defs.{
  Crates, World, InitialData, AuthData, Done, payload_of, continue_doc, server_signature, verify,
  command, start, next, is_done, answered, verified, finish_loop, finish, finish_after, next_after,
  auth,
}

module _ (C : Crates) {S : Type 0} (W : World S) (options : Option ConnectionOptions) where
  -- An answer that ends the exchange, or after which it ends.
  abbrev pub EndsOn : (S → Type 0) → Result Document × S → Type 0
  EndsOn P (err e, s) = Unit
  EndsOn P (ok d, s) = (is_done (get (text "done") d) ≡ true) ⊎ P s

  -- Within `n` answers to the query, one is an error or says `done`.
  unfoldable pub Ends : ℕ → Document → S → Type 0
  Ends zero query s = ⊥
  Ends (suc n) query s = EndsOn (Ends n query) (command C W options query s)

  verified_returns :
      (r : Result Done) (s : S) (rest : Option (Result Done × S))
      → is_some rest ≡ true
      → is_some (verified r s rest) ≡ true
  verified_returns (err e) s rest h = refl
  verified_returns (ok u) s rest h = h

  answered_returns :
      (n : ℕ) (query : Document) (next : Document → S → Option (Result Done × S))
      → ((d : Document) (s : S) → Ends n query s → is_some (next d s) ≡ true)
      → (r : Result Document × S) → EndsOn (Ends n query) r
      → is_some (answered next r) ≡ true
  answered_returns n query next f (err e, s) h = refl
  answered_returns n query next f (ok d, s) (inl e) = rw e
  answered_returns n query next f (ok d, s) (inr e) =
      if_cases (λ r. is_some r ≡ true) (is_done (get (text "done") d)) _ _ (λ _. refl)
        (λ _. f d s e)

  finish_loop_returns :
      (n : ℕ) (signature : Text) (query d : Document) (s : S)
      → Ends n query s
      → is_some (finish_loop C W options n signature query d s) ≡ true
  unfolding finish_loop Ends
  finish_loop_returns zero signature query d s h = elim h [ ]
  finish_loop_returns (suc n) signature query d s h =
      verified_returns (verify C signature (payload_of (get (text "payload") d))) s _ (
        answered_returns n query (finish_loop C W options n signature query)
          (finish_loop_returns n signature query) (command C W options query s) h)

  finish_after_returns :
      (n : ℕ) (id : Bson) (r : Result AuthData × S)
      → ((query : Document) (t : S) → Ends n query t)
      → is_some (finish_after C W options n id r) ≡ true
  unfolding finish
  finish_after_returns n id (err e, s) h = refl
  finish_after_returns n id (ok a, s) h =
      finish_loop_returns n (server_signature C a.salted_password a.message) (continue_doc [] id)
        a.response s (h _ s)

  -- An authentication returns, with a result or an error, within `n` rounds, if the server, in whatever state, gives an
  -- error or says `done` within `n` answers to a query.
  pub auth_returns :
      (n : ℕ) (user password : Text) (s : S)
      → ((query : Document) (t : S) → Ends n query t)
      → is_some (auth C W options n user password s) ≡ true
  unfolding auth
  auth_returns n user password s h = by_start (start C W options user s)
    where
      by_start :
          (r : Result InitialData × S) → is_some (next_after C W options n user password r) ≡ true
      by_start (err e, t) = refl
      by_start (ok d, t) = finish_after_returns n d.conversation_id _ h
