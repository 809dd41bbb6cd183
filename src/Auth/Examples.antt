-- ===== src/Auth/Examples.antt =====
-- auth.rs: an exchange with a server that knows the keys, with one that does not, and the theorems applied to them.
-- The state of the world is the number of requests sent. The digests are short sums, and the encodings the identity.
use old_mongo_rust_driver.Prelude.{
  ℕ, zero, suc, ◌+◌, ◌%◌, ◌<◌, ◌≡◌, refl, inl, inr, Bool, true, false, none, some, List, [], ◌∷◌,
  ◌++◌, arith,
}
use old_mongo_rust_driver.Prelude.Int.{pos}
use old_mongo_rust_driver.Prelude.Text.{Text, text, text_eq}
use old_mongo_rust_driver.Error.{
  invalid_rnonce, invalid_server_signature, malicious_server_error, ok, err,
}
use old_mongo_rust_driver.Bson.{boolean, i32, binary, Document, end, field, get}
use old_mongo_rust_driver.Connstring.Find.{is_some, strip}
use old_mongo_rust_driver.Auth.Bytes.{xor, xor_bytes, is_utf8, is_utf8_from}
use old_mongo_rust_driver.Auth.Defs.{
  Crates, World, InitialData, Proof, initial_data, proof_on, auth_message, prove, prepare,
  payload_of, server_signature, verify, command, start, next, finish_loop, finish, auth,
}
use old_mongo_rust_driver.Auth.Proof.{IsProof, prepare-IsProof}
use old_mongo_rust_driver.Auth.Server.{IsMutual, auth-IsMutual, auth_trusts_silent_server}
use old_mongo_rust_driver.Auth.Termination.{Ends, auth_returns}

abbrev byte_sum : List ℕ → ℕ
byte_sum [] = 0
byte_sum (b ∷ bs) = (b + byte_sum bs) % 100

-- The server's first message is the nonce "Nx", the salt "s" and one round; its last one is all signature.
abbrev crates : Crates
crates = record {
  md5 = λ s. byte_sum s ∷ [];
  hex = λ s. s;
  pbkdf2 = λ p s i. (byte_sum (p ++ s) + i) ∷ [];
  hmac = λ k m. byte_sum (k ++ m) ∷ [];
  sha1 = λ s. byte_sum s ∷ [];
  encode = λ s. s;
  decode = λ s. some s;
  scan_first = λ s. (some (text "Nx"), some (text "s"), some 1);
  scan_final = λ s. some s;
}

abbrev first_answer : Document
first_answer =
    field (text "payload") (binary 0 (text "r=Nx,s=s,i=1"))
      (field (text "conversationId") (i32 (pos 1)) end)

abbrev done_answer : Document
done_answer = field (text "done") (boolean true) end

abbrev answer : List ℕ → ℕ → Document
answer signature zero = first_answer
answer signature (suc zero) = field (text "payload") (binary 0 signature) end
answer signature (suc (suc n)) = done_answer

-- A server that sends this as its signature.
abbrev signing : List ℕ → World ℕ
signing signature = record {
  nonce = λ s. (some (text "N"), s);
  run = λ ns query s. (some (ok (answer signature s)), s + 1);
}

-- A server that knows nothing, and says `done` once it is asked to prove something.
abbrev silent_answer : Bool → Document × Bool
silent_answer true = (done_answer, true)
silent_answer false = (first_answer, true)

abbrev silent : World Bool
silent = record {
  nonce = λ s. (some (text "N"), s);
  run = λ ns query s. let (d, t) = silent_answer s in (some (ok d), t);
}

abbrev user : Text
user = text "u"

abbrev password : Text
password = text "pw"

abbrev greeting : InitialData
greeting = record {
  message = text "n=u,r=N";
  response = text "r=Nx,s=s,i=1";
  nonce = text "N";
  conversation_id = i32 (pos 1);
}

abbrev proof : Proof
proof = record {
  salted_password = 24 ∷ [];
  message = text "n=u,r=N,r=Nx,s=s,i=1,c=biws,r=Nx";
  final_message = text "c=biws,r=Nx,p=2";
}

prepared : prepare crates (text "u:mongo:pw") greeting ≡ ok proof
unfolding prepare prove proof_on auth_message strip xor_bytes xor
prepared = refl

abbrev honest : World ℕ
honest = signing (server_signature crates proof.salted_password proof.message)

honest_server : auth crates honest none 1 user password 0 ≡ some (ok tt, 3)
unfolding auth start command initial_data next finish finish_loop verify prepare prove proof_on
    auth_message strip xor_bytes xor get text_eq is_utf8 is_utf8_from
honest_server = refl

wrong_signature :
    auth crates (signing (0 ∷ [])) none 1 user password 0
    ≡ some (err (malicious_server_error invalid_server_signature), 2)
unfolding auth start command initial_data next finish finish_loop verify prepare prove proof_on
    auth_message strip xor_bytes xor get text_eq is_utf8 is_utf8_from
wrong_signature = refl

-- The server's nonce does not start with the client's.
wrong_nonce :
    prepare crates password (record greeting { nonce = text "M" })
    ≡ err (malicious_server_error invalid_rnonce)
unfolding prepare prove strip
wrong_nonce = refl

characters : is_utf8 (36 ∷ 194 ∷ 162 ∷ 226 ∷ 130 ∷ 172 ∷ 240 ∷ 144 ∷ 141 ∷ 136 ∷ []) ≡ true
unfolding is_utf8 is_utf8_from
characters = refl

-- An encoded surrogate
surrogate : is_utf8 (237 ∷ 160 ∷ 128 ∷ []) ≡ false
unfolding is_utf8 is_utf8_from
surrogate = refl

byte_sum-lt : (s : List ℕ) → byte_sum s < 256
byte_sum-lt [] = omega arith
byte_sum-lt (b ∷ bs) = omega arith

prepare-IsProof_example : IsProof crates (text "u:mongo:pw") greeting proof
prepare-IsProof_example =
    prepare-IsProof crates (λ key input. (byte_sum-lt (key ++ input), tt)) (text "u:mongo:pw")
      greeting proof prepared

auth-IsMutual_example : IsMutual crates honest none user password 0
auth-IsMutual_example = auth-IsMutual crates honest none 1 user password 0 3 honest_server

silent-start : start crates silent none user false ≡ (ok greeting, true)
unfolding start command initial_data get text_eq is_utf8 is_utf8_from
silent-start = refl

silent-command : (query : Document) → command crates silent none query true ≡ (ok done_answer, true)
unfolding command
silent-command query = refl

no_payload : payload_of (get (text "payload") done_answer) ≡ none
unfolding get text_eq
no_payload = refl

done_said : get (text "done") done_answer ≡ some (boolean true)
unfolding get text_eq
done_said = refl

auth_trusts_silent_server_example :
    auth crates silent none 1 user password false ≡ some (ok tt, true)
auth_trusts_silent_server_example =
    auth_trusts_silent_server crates silent none 0 user password false true greeting proof
      done_answer silent-start prepared silent-command no_payload done_said

silent-Ends : (query : Document) (s : Bool) → Ends crates silent none 2 query s
unfolding Ends command get text_eq
silent-Ends query true = inl refl
silent-Ends query false = inr (inl refl)

auth_returns_example : is_some (auth crates silent none 2 user password false) ≡ true
auth_returns_example = auth_returns crates silent none 2 user password false silent-Ends
