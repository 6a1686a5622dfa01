-- ===== src/Storage.antt =====
-- The storage backend that every component keeps its state in (fiber.Storage, a third-party
-- interface with the drivers memory, sqlite3 and redis), and the encoding of the values kept
-- there. Both are parameters of the models. Time and time to live are in seconds.
pub mod Table
use mokey.Base.{
  Bool, Option, String, false, if◌then◌else◌, ltb, nat_eq, some, string_eq, true, ℕ, ◌+◌, ◌==◌,
  ◌||◌, ◌≡◌,
}

-- What `Get` returns: an error, nil, or bytes.
pub data Fetched {ℓ} (B : Type ℓ) : Type ℓ where
  failed missing : Fetched B
  found : B → Fetched B

-- The operations. `now` is the time of the call. The Boolean is `err == nil`.
pub record Storage (Bytes : Type 0) : Type 1 where
  pub State : Type 0
  pub get : State → ℕ → String → Fetched Bytes
  pub set : State → ℕ → String → Bytes → ℕ → Bool × State
  pub delete : State → ℕ → String → Bool × State

-- Whether an entry of this time to live, set at `t`, is still there at `t'`; 0 is for ever.
abbrev pub in_time : ℕ → ℕ → ℕ → Bool
in_time ttl t t' = ttl == 0 || ltb t' (t + ttl)

-- The documented behaviour of a backend that answers: a write is read back until it expires, a
-- delete removes its key alone.
pub record IsWorking {Bytes : Type 0} (db : Storage Bytes) : Type 0 where
  pub set_ok :
      (s : db.State) (t : ℕ) (k : String) (b : Bytes) (ttl : ℕ) → (db.set s t k b ttl).0 ≡ true
  pub delete_ok : (s : db.State) (t : ℕ) (k : String) → (db.delete s t k).0 ≡ true
  pub get-set :
      (s : db.State) (t t' : ℕ) (k j : String) (b : Bytes) (ttl : ℕ)
      → db.get (db.set s t k b ttl).1 t' j
        ≡ (if k == j then (if in_time ttl t t' then found b else missing) else db.get s t' j)
  pub get-delete :
      (s : db.State) (t t' : ℕ) (k j : String)
      → db.get (db.delete s t k).1 t' j ≡ (if k == j then missing else db.get s t' j)

-- encoding/json on one type: what `Marshal` returns is read back by `Unmarshal`.
pub record Codec (Bytes A : Type 0) : Type 0 where
  pub marshal : A → Option Bytes
  pub unmarshal : Bytes → Option A
  pub roundtrip : (a : A) → (b : Bytes) × (marshal a ≡ some b) × (unmarshal b ≡ some a)

-- `err == nil && raw != nil`, the code's test for a key that is there.
abbrev pub is_found {ℓ} : {B : Type ℓ} → Fetched B → Bool
is_found failed = Bool.false
is_found missing = Bool.false
is_found (found b) = true
