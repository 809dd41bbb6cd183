-- ===== src/Auth/Proof.antt =====
-- auth.rs: the client's proof, against the check that a server makes of it in RFC 5802.
use old_mongo_rust_driver.Prelude.{
  ℕ, ◌<◌, ◌≡◌, refl, subst, Bool, true, false, Option, none, some, ◌++◌, ◌==◌, ==_iff, All, length,
  if_cases,
}
use old_mongo_rust_driver.Prelude.Text.{Text, text, text_eq, text_eq_refl}
use old_mongo_rust_driver.Error.{Result, ok, err, ◌>>=◌}
use old_mongo_rust_driver.Connstring.Find.{starts_with}
use old_mongo_rust_driver.Auth.Bytes.{xor_bytes, xor_bytes-xor_bytes}
use old_mongo_rust_driver.Auth.Defs.{
  Crates, InitialData, Proof, required, client_key, stored_key, without_proof, salted_by, proof_on,
  auth_message, check_nonce, prove, prepare,
}

module _ (C : Crates) where
  -- The server takes the client's key out of the proof, with the stored key, and compares its digest.
  abbrev pub server_accepts : Text → Text → Text → Bool
  server_accepts stored message proof =
      text_eq (C.sha1 (xor_bytes proof (C.hmac stored message))) stored

  -- What is sent is a proof of the password for the messages so far.
  pub record IsProof (password : Text) (d : InitialData) (p : Proof) : Type 0 where
    pub rnonce : Text
    pub salt_b64 : Text
    pub salt : Text
    pub rounds : ℕ
    pub proof : Text
    pub scanned : C.scan_first d.response ≡ (some rnonce, some salt_b64, some rounds)
    pub decoded : C.decode salt_b64 ≡ some salt
    pub fresh : starts_with rnonce d.nonce ≡ true
    pub salted : p.salted_password ≡ salted_by C password salt rounds
    pub signed : p.message ≡ auth_message C d rnonce
    pub sent : p.final_message ≡ without_proof C rnonce ++ text ",p=" ++ C.encode proof
    pub accepted : server_accepts (stored_key C p.salted_password) p.message proof ≡ true

  abbrev Proves : Text → InitialData → Result Proof → Type 0
  Proves password d (err e) = Unit
  Proves password d (ok p) = IsProof password d p

  module _ (hmac_bytes : (key input : Text) → All (λ b. b < 256) (C.hmac key input)) where
    key_out :
        (salted message : Text)
        → length (client_key C salted) ≡ length (C.hmac (stored_key C salted) message)
        → server_accepts
            (stored_key C salted)
            message
            (xor_bytes (client_key C salted) (C.hmac (stored_key C salted) message))
          ≡ true
    key_out salted message e =
        rw
          (xor_bytes-xor_bytes (client_key C salted) (C.hmac (stored_key C salted) message)
            (hmac_bytes salted (text "Client Key")) e)
          (text_eq_refl (stored_key C salted))

    proof_on-Proves :
        (password : Text) (d : InitialData) (rnonce salt_b64 salt : Text) (i : ℕ)
        → C.scan_first d.response ≡ (some rnonce, some salt_b64, some i)
        → C.decode salt_b64 ≡ some salt
        → starts_with rnonce d.nonce ≡ true
        → Proves password d
            (proof_on C (salted_by C password salt i) (auth_message C d rnonce) rnonce)
    unfolding proof_on
    proof_on-Proves password d rnonce salt_b64 salt i scanned decoded fresh =
        let salted = salted_by C password salt i in
        let message = auth_message C d rnonce in
        if_cases (Proves password d)
          (length (client_key C salted) == length (C.hmac (stored_key C salted) message)) _ _
          (λ e. record {
            rnonce = rnonce;
            salt_b64 = salt_b64;
            salt = salt;
            rounds = i;
            proof = xor_bytes (client_key C salted) (C.hmac (stored_key C salted) message);
            scanned = scanned;
            decoded = decoded;
            fresh = fresh;
            salted = refl;
            signed = refl;
            sent = refl;
            accepted = key_out salted message ((==_iff _ _).0 e);
          })
          (λ e. tt)

    prove-Proves :
        (password : Text) (d : InitialData) (r s : Option Text) (i : Option ℕ)
        → C.scan_first d.response ≡ (r, s, i)
        → Proves password d (prove C password d (r, s, i))
    unfolding prove
    prove-Proves password d none s i e = tt
    prove-Proves password d (some rnonce) s i e = by_nonce (starts_with rnonce d.nonce) refl s i e
      where
        by_decoded :
            (salt_b64 : Text) (o : Option Text) (i : Option ℕ)
            → starts_with rnonce d.nonce ≡ true
            → C.scan_first d.response ≡ (some rnonce, some salt_b64, i)
            → C.decode salt_b64 ≡ o
            → Proves password d (
                required "Invalid base64 salt returned: {}" o >>= λ salt.
                required "Invalid iteration count returned" i >>= λ i.
                proof_on C (salted_by C password salt i) (auth_message C d rnonce) rnonce)
        by_decoded salt_b64 none i f e q = tt
        by_decoded salt_b64 (some salt) none f e q = tt
        by_decoded salt_b64 (some salt) (some i) f e q =
            proof_on-Proves password d rnonce salt_b64 salt i e q f

        by_nonce :
            (b : Bool)
            → starts_with rnonce d.nonce ≡ b
            → (s : Option Text) (i : Option ℕ) → C.scan_first d.response ≡ (some rnonce, s, i)
            → Proves password d (
                check_nonce b >>= λ u. required "Invalid salt returned" s >>= λ salt_b64.
                required "Invalid base64 salt returned: {}" (C.decode salt_b64) >>= λ salt.
                required "Invalid iteration count returned" i >>= λ i.
                proof_on C (salted_by C password salt i) (auth_message C d rnonce) rnonce)
        by_nonce false f s i e = tt
        by_nonce true f none i e = tt
        by_nonce true f (some salt_b64) i e = by_decoded salt_b64 (C.decode salt_b64) i f e refl

    -- The message that `next` prepares to send has a proof that a server accepts which knows the stored key of the
    -- salted password: the salt and the number of rounds are the server's, its nonce starts with the client's, and the
    -- signed message is of the two first messages and this nonce. The digests of `hmac` are bytes.
    pub prepare-IsProof :
        (password : Text) (d : InitialData) (p : Proof)
        → prepare C password d ≡ ok p
        → IsProof password d p
    unfolding prepare
    prepare-IsProof password d p e =
        let (r, s, i) = C.scan_first d.response in
        subst (Proves password d) e (prove-Proves password d r s i refl)
