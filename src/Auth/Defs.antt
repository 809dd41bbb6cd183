-- ===== src/Auth/Defs.antt =====
-- auth.rs: `Authenticator` and its operations. The digests, the encodings, `scan_fmt!` and the maker of nonces are
-- other crates' code, so they are parameters, and so is the first document that a cursor gives for a query of a
-- namespace; `S` is the state of the outside world.
use old_mongo_rust_driver.Prelude.{
  ℕ, zero, suc, Bool, true, false, Option, none, some, [], ◌++◌, ◌==◌, length, String,
  if◌then◌else◌,
}
use old_mongo_rust_driver.Prelude.Int.{pos}
use old_mongo_rust_driver.Prelude.Text.{Text, text, text_eq}
use old_mongo_rust_driver.Error.{
  invalid_rnonce, invalid_server_signature, no_server_signature, operation_error, response_error,
  default_error, malicious_server_error, Result, ok, err, ◌>>=◌,
}
use old_mongo_rust_driver.Bson.{Bson, string, boolean, i32, binary, Document, end, field, get}
use old_mongo_rust_driver.Connstring.Find.{starts_with}
use old_mongo_rust_driver.Connstring.Data.{ConnectionOptions}
use old_mongo_rust_driver.Connstring.Data
use old_mongo_rust_driver.Auth.Bytes.{xor_bytes, is_utf8}

-- The other crates' functions: `Md5::digest`, `hex::encode`, `pbkdf2::<HmacSha1>` of a password, a salt and a number of
-- rounds, `HmacSha1` of a key and an input, `Sha1`, `BASE64`, and `scan_fmt!` with the two formats.
pub record Crates : Type 0 where
  pub md5 : Text → Text
  pub hex : Text → Text
  pub pbkdf2 : Text → Text → ℕ → Text
  pub hmac : Text → Text → Text
  pub sha1 : Text → Text
  pub encode : Text → Text
  pub decode : Text → Option Text
  pub scan_first : Text → Option Text × Option Text × Option ℕ
  pub scan_final : Text → Option Text

-- `TextNonce::sized(64)`, and a query.
pub record World (S : Type 0) : Type 0 where
  pub nonce : S → Option Text × S
  pub run : Text → Document → S → Option (Result Document) × S

-- `()`
abbrev pub Done : Type 0
Done = Unit

pub record InitialData : Type 0 where
  pub message : Text
  pub response : Text
  pub nonce : Text
  pub conversation_id : Bson

-- What `next` computes before it sends.
pub record Proof : Type 0 where
  pub salted_password : Text
  pub message : Text
  pub final_message : Text

pub record AuthData : Type 0 where
  pub salted_password : Text
  pub message : Text
  pub response : Document

abbrev pub required {ℓ} : {T : Type ℓ} → String → Option T → Result T
required m none = err (response_error m)
required m (some t) = ok t

-- `String::from_utf8`
abbrev pub from_utf8 : Text → Result Text
from_utf8 s = if is_utf8 s then ok s else err (response_error "Invalid UTF-8 payload returned")

abbrev pub payload_of : Option Bson → Option Text
payload_of (some (binary subtype payload)) = some payload
payload_of _ = none

-- A result of an operation on the world, with the early return of `?`.
infixl 5 ◌>>>◌
abbrev pub ◌>>>◌ {ℓ} :
    {T U : Type ℓ} {S : Type 0} → Result T × S → (T → S → Result U × S) → Result U × S
(err e, s) >>> k = (err e, s)
(ok t, s) >>> k = k t s

abbrev pub auth_source_or : Option Text → Text
auth_source_or none = text "admin"
auth_source_or (some source) = source

abbrev pub auth_source : Option ConnectionOptions → Text
auth_source none = text "admin"
auth_source (some o) = auth_source_or (Data.get (text "authSource") o.options)

abbrev pub first_of : {S : Type 0} → Option (Result Document) × S → Result Document × S
first_of (some r, s) = (r, s)
first_of (none, s) = (err (operation_error "(Auth) failed to execute command"), s)

-- `Generic`
abbrev pub generic : ℕ
generic = 0

abbrev pub start_doc : Text → Text → Document
start_doc user nonce = field (text "saslStart") (i32 (pos 1)) (
    field (text "autoAuthorize") (i32 (pos 1)) (
      field (text "payload") (binary generic (text "n,,n=" ++ user ++ text ",r=" ++ nonce))
        (field (text "mechanism") (string (text "SCRAM-SHA-1")) end)))

abbrev pub continue_doc : Text → Bson → Document
continue_doc payload conversation_id = field (text "saslContinue") (i32 (pos 1)) (
    field (text "payload") (binary generic payload)
      (field (text "conversationId") conversation_id end))

unfoldable pub initial_data : Text → Text → Document → Result InitialData
initial_data message nonce d =
    required "Invalid payload returned" (payload_of (get (text "payload") d)) >>= λ bytes.
    required "No conversationId returned" (get (text "conversationId") d) >>= λ id.
    from_utf8 bytes >>= λ response.
    ok (record { message = message; response = response; nonce = nonce; conversation_id = id })

abbrev pub check_nonce : Bool → Result Done
check_nonce true = ok tt
check_nonce false = err (malicious_server_error invalid_rnonce)

abbrev pub is_done : Option Bson → Bool
is_done (some (boolean done)) = done
is_done _ = false

-- A round of the loop in `finish`; `go_on` is the rest of it.
abbrev pub answered :
    {S : Type 0}
    → (Document → S → Option (Result Done × S))
    → Result Document × S
    → Option (Result Done × S)
answered go_on (err e, s) = some (err e, s)
answered go_on (ok d, s) =
    let rest = go_on d s in if is_done (get (text "done") d) then some (ok tt, s) else rest

abbrev pub verified :
    {S : Type 0} → Result Done → S → Option (Result Done × S) → Option (Result Done × S)
verified (err e) s rest = some (err e, s)
verified (ok u) s rest = rest

module _ (C : Crates) where
  -- `HmacSha1` of the salted password, as in `next` and `finish`
  abbrev pub client_key : Text → Text
  client_key salted = C.hmac salted (text "Client Key")

  abbrev pub stored_key : Text → Text
  stored_key salted = C.sha1 (client_key salted)

  abbrev pub without_proof : Text → Text
  without_proof rnonce = text "c=biws,r=" ++ rnonce

  abbrev pub salted_by : Text → Text → ℕ → Text
  salted_by password salt i = C.pbkdf2 (C.hex (C.md5 password)) salt i

  -- From the salted password and the message.
  unfoldable pub proof_on : Text → Text → Text → Result Proof
  proof_on salted message rnonce =
      let key = client_key salted in
      let signature = C.hmac (stored_key salted) message in
      if length key == length signature
      then ok (record {
        salted_password = salted;
        message = message;
        final_message = without_proof rnonce ++ text ",p=" ++ C.encode (xor_bytes key signature);
      })
      else err (default_error "Generated client key and/or client signature is invalid")

  unfoldable pub auth_message : InitialData → Text → Text
  auth_message d rnonce = d.message ++ text "," ++ d.response ++ text "," ++ without_proof rnonce

  -- What was scanned from the server's first message: the nonce, the salt and the number of rounds.
  unfoldable pub prove : Text → InitialData → Option Text × Option Text × Option ℕ → Result Proof
  prove password d (rnonce_opt, salt_opt, i_opt) =
      required "Invalid rnonce returned" rnonce_opt >>= λ rnonce.
      check_nonce (starts_with rnonce d.nonce) >>= λ u.
      required "Invalid salt returned" salt_opt >>= λ salt_b64.
      required "Invalid base64 salt returned: {}" (C.decode salt_b64) >>= λ salt.
      required "Invalid iteration count returned" i_opt >>= λ i.
      proof_on (salted_by password salt i) (auth_message d rnonce) rnonce

  unfoldable pub prepare : Text → InitialData → Result Proof
  prepare password d = prove password d (C.scan_first d.response)

  abbrev pub server_signature : Text → Text → Text
  server_signature salted message = C.hmac (C.hmac salted (text "Server Key")) message

  abbrev pub check_verifier : Text → Option Text → Result Done
  check_verifier signature none = err (malicious_server_error no_server_signature)
  check_verifier signature (some verifier) =
      if text_eq verifier (C.encode signature)
      then ok tt
      else err (malicious_server_error invalid_server_signature)

  -- Without a payload nothing is checked.
  unfoldable pub verify : Text → Option Text → Result Done
  verify signature none = ok tt
  verify signature (some payload) =
      from_utf8 payload >>= λ s. check_verifier signature (C.scan_final s)

  module _ {S : Type 0} (W : World S) (options : Option ConnectionOptions) where
    unfoldable pub command : Document → S → Result Document × S
    command query s = first_of (W.run (auth_source options ++ text ".$cmd") query s)

    abbrev pub started : Text → Option Text × S → Result InitialData × S
    started user (none, s) = (err (default_error "{}"), s)
    started user (some nonce, s) = command (start_doc user nonce) s >>> λ d t.
        (initial_data (text "n=" ++ user ++ text ",r=" ++ nonce) nonce d, t)

    unfoldable pub start : Text → S → Result InitialData × S
    start user s = started user (W.nonce s)

    unfoldable pub next : Text → InitialData → S → Result AuthData × S
    next password d s = (prepare password d, s) >>> λ p t.
        command (continue_doc p.final_message d.conversation_id) t >>> λ response r. (
          ok (record {
            salted_password = p.salted_password;
            message = p.message;
            response = response;
          }),
          r,
        )

    -- `none` after as many rounds as the fuel.
    unfoldable pub finish_loop : ℕ → Text → Document → Document → S → Option (Result Done × S)
    finish_loop zero signature final_doc d s = none
    finish_loop (suc n) signature final_doc d s =
        verified (verify signature (payload_of (get (text "payload") d))) s
          (answered (finish_loop n signature final_doc) (command final_doc s))

    unfoldable pub finish : ℕ → Bson → AuthData → S → Option (Result Done × S)
    finish n conversation_id a s =
        finish_loop n (server_signature a.salted_password a.message)
          (continue_doc [] conversation_id) a.response s

    abbrev pub finish_after : ℕ → Bson → Result AuthData × S → Option (Result Done × S)
    finish_after n id (err e, s) = some (err e, s)
    finish_after n id (ok a, s) = finish n id a s

    abbrev pub next_after : ℕ → Text → Text → Result InitialData × S → Option (Result Done × S)
    next_after n user password (err e, s) = some (err e, s)
    next_after n user password (ok d, s) =
        finish_after n d.conversation_id (next (user ++ text ":mongo:" ++ password) d s)

    unfoldable pub auth : ℕ → Text → Text → S → Option (Result Done × S)
    auth n user password s = next_after n user password (start user s)
