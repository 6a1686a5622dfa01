-- ===== src/Token.antt =====
-- server/token.go: the tokens in emailed links. A token is a sealed claim (branca, third-party);
-- the storage backend remembers for whom one was issued and which were used. Times in seconds.
pub mod Laws
pub mod Tests
use mokey.Base.{
  Bool, Option, String, concat, false, if◌then◌else◌, nat_eq, none, some, string_eq, true, ℕ, ◌*◌,
  ◌+◌, ◌-◌, ◌<◌, ◌≡◌,
}
use mokey.Storage.{Storage, Codec, Fetched, failed, missing, found}

-- The fields of `Token` that go into the payload.
pub record Claims : Type 0 where
  pub username : String
  pub email : String

pub record Token : Type 0 where
  pub claims : Claims
  pub open claims use *
  pub timestamp : ℕ

-- essentialkos/branca under the secret of `email.token_secret`. `new_branca` is hex.DecodeString
-- and branca.NewBranca; `encode` seals a payload at a time; `decode` opens a token.
pub record Branca (Bytes : Type 0) : Type 1 where
  pub Key : Type 0
  pub new_branca : String → Option Key
  pub encode : Key → ℕ → Bytes → Option String
  pub decode : Key → String → Option (Bytes × ℕ)
  pub is_expired : ℕ → ℕ → ℕ → Bool

-- What is documented of it: a sealed payload is opened again with the time of its sealing, and a
-- token is not expired before its maximal age and is expired past it.
pub record IsSealing {Bytes : Type 0} (b : Branca Bytes) : Type 0 where
  pub decode-encode :
      (k : b.Key) (now : ℕ) (payload : Bytes) (token : String)
      → b.encode k now payload ≡ some token
      → b.decode k token ≡ some (payload, now)
  pub young : (stamp age now : ℕ) → now < stamp + age → b.is_expired stamp age now ≡ false
  pub old : (stamp age now : ℕ) → stamp + age < now → b.is_expired stamp age now ≡ true

pub data TokenError : Type 0 where
  storage_error already_issued already_used bad_claims bad_key bad_token expired : TokenError

pub data Outcome {ℓ} (A : Type ℓ) : Type ℓ where
  ok : A → Outcome A
  err : TokenError → Outcome A

abbrev pub token_used_prefix : String
token_used_prefix = "used-"

abbrev pub token_issued_prefix : String
token_issued_prefix = "issued-"

unfoldable pub issued_key : String → String → String
issued_key prefix username = concat (concat prefix token_issued_prefix) username

unfoldable pub used_key : String → String → String
used_key prefix token = concat (concat prefix token_used_prefix) token

-- The settings that the tokens go by.
pub record TokenConfig : Type 0 where
  pub token_secret : String
  pub token_max_age : ℕ
  pub resend_cooldown : ℕ

infixl 5 ◌>>=◌
abbrev pub ◌>>=◌ {ℓ κ} : {A : Type ℓ} {B : Type κ} → Outcome A → (A → Outcome B) → Outcome B
ok a >>= f = f a
err e >>= f = err e

abbrev pub or_error {ℓ} : {A : Type ℓ} → TokenError → Option A → Outcome A
or_error e none = err e
or_error e (some a) = ok a

module _ {Bytes : Type 0} (db : Storage Bytes) (json : Codec Bytes Claims) (b : Branca Bytes)
    (text : String → Bytes) (cfg : TokenConfig) where
  -- A key that must not be there: an error of the storage is an error of the caller.
  unfoldable pub require_missing : TokenError → Fetched Bytes → Outcome (Unit {0})
  require_missing e failed = err storage_error
  require_missing e missing = ok tt
  require_missing e (found raw) = err e

  -- The token for the claims, before the marker is written.
  unfoldable pub seal_token : db.State → ℕ → String → String → String → Outcome String
  unfolding require_missing issued_key
  seal_token s now username email prefix = do
    _ ← require_missing already_issued (db.get s now (issued_key prefix username))
    payload ← or_error bad_claims (json.marshal (record { username = username; email = email }))
    key ← or_error bad_key (b.new_branca cfg.token_secret)
    or_error bad_token (b.encode key now payload)

  -- The marker that a token was issued dies with the cooldown.
  unfoldable pub mark_issued :
      db.State → ℕ → String → String → Outcome String → db.State × Outcome String
  mark_issued s now username prefix (err e) = (s, err e)
  mark_issued s now username prefix (ok token) =
      let (done, s') =
        db.set s now (issued_key prefix username) (text "true") cfg.resend_cooldown in
      (s', (if done then ok token else err storage_error))

  unfoldable pub new_token : db.State → ℕ → String → String → String → db.State × Outcome String
  unfolding seal_token mark_issued
  new_token s now username email prefix =
      mark_issued s now username prefix (seal_token s now username email prefix)

  unfoldable pub open_payload : ℕ → Bytes × ℕ → Outcome Token
  open_payload now (payload, stamp) =
      if b.is_expired stamp cfg.token_max_age now then err expired else do
        claims ← or_error bad_claims (json.unmarshal payload)
        ok (record { claims = claims; timestamp = stamp })

  unfoldable pub parse_token : db.State → ℕ → String → String → Outcome Token
  unfolding require_missing used_key open_payload
  parse_token s now token prefix = do
    _ ← require_missing already_used (db.get s now (used_key prefix token))
    key ← or_error bad_key (b.new_branca cfg.token_secret)
    sealed ← or_error bad_token (b.decode key token)
    open_payload now sealed

  -- `time.Until` the end of the token's life; it is called for a token that is not expired.
  unfoldable pub mark_token_used : db.State → ℕ → String → String → Token → db.State
  unfolding used_key
  mark_token_used s now token prefix claims =
      (db.set s now (used_key prefix token) (text "true")
        (claims.timestamp + cfg.token_max_age - now)).1
