-- ===== src/Storage/Table.antt =====
-- A backend for tests and witnesses: a table that forgets what has expired when it is read.
use mokey.Base.{
  List, Option, String, [], false, if◌then◌else◌, nat_eq, none, refl, some, string_eq, true, ℕ,
  ◌==◌, ◌∷◌,
}
use mokey.Storage.{Storage, Fetched, failed, missing, found, in_time, IsWorking, Codec}

-- A value, and when it was set with what time to live; none is a key that was deleted.
pub record Cell (Bytes : Type 0) : Type 0 where
  pub value : Option Bytes
  pub at : ℕ
  pub ttl : ℕ

module _ {Bytes : Type 0} where
  abbrev pub read_cell : ℕ → Cell Bytes → Fetched Bytes
  read_cell t' c = elim c.value [
    | none ↦ missing
    | some b ↦ if in_time c.ttl c.at t' then found b else missing
  ]

  abbrev pub look : List (String × Cell Bytes) → ℕ → String → Fetched Bytes
  look [] t' j = missing
  look ((k, c) ∷ m) t' j = if k == j then read_cell t' c else look m t' j

-- The newest entry of a key stands first.
abbrev pub table : (Bytes : Type 0) → Storage Bytes
table Bytes = record {
  State = List (String × Cell Bytes);
  get = look;
  set = λ s t k b ttl. (true, (k, record { value = some b; at = t; ttl = ttl }) ∷ s);
  delete = λ s t k. (true, (k, record { value = none; at = t; ttl = 0 }) ∷ s);
}

-- A backend that is down.
abbrev pub down : (Bytes : Type 0) → Storage Bytes
down Bytes = record {
  State = Unit;
  get = λ s t k. failed;
  set = λ s t k b ttl. (false, s);
  delete = λ s t k. (false, s);
}

pub table-IsWorking : (Bytes : Type 0) → IsWorking (table Bytes)
table-IsWorking Bytes = record {
  set_ok = λ s t k b ttl. refl;
  delete_ok = λ s t k. refl;
  get-set = λ s t t' k j b ttl. refl;
  get-delete = λ s t t' k j. refl;
}

-- A codec whose bytes are the values themselves.
abbrev pub plain : (A : Type 0) → Codec A A
plain A = record {
  marshal = λ a. some a;
  unmarshal = λ a. some a;
  roundtrip = λ a. (a, refl, refl);
}
