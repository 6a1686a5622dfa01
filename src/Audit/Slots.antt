-- ===== src/Audit/Slots.antt =====
-- The slots of the ring have different keys, and none is the counter's.
use text.Mathlib.TextLemmas.{append_cancel_left, cons-append, append_assoc as text_assoc}
use mokey.Base.{
  Bool, Bool-cases, String, ap, arith, concat, eq_iff, false, head_code, if◌then◌else◌, inl, inr,
  nat_beq_iff, nat_eq, refl, string_eq, suc, sym, true, zero, ℕ, ◌%◌, ◌*◌, ◌+◌, ◌-◌, ◌<◌, ◌==◌, ◌∙◌,
  ◌≡◌, ◌≢◌,
}
use mokey.Audit.{entry_key, decimal_fuel, audit_entry_key, audit_ring_size, audit_seq_key}

-- Reads a decimal back.
value : ℕ → String → ℕ
value n Prim.Native.String.[] = n
value n (Prim.Native.String.◌∷◌ c s) = value (n * 10 + (Prim.Native.Char.code c - 48)) s

-- Whether a slot number is read back from its print.
abbrev reads_back : ℕ → Bool
reads_back slot = value 0 (decimal_fuel 4 slot) == slot

-- Whether each of the first slots is.
first_slots : ℕ → Bool
first_slots zero = true
first_slots (suc slot) = if reads_back slot then first_slots slot else false

ring_reads_back : first_slots audit_ring_size ≡ true
unfolding first_slots decimal_fuel value
ring_reads_back = refl

slot-value :
    (slots slot : ℕ)
    → slot < slots
    → first_slots slots ≡ true
    → value 0 (decimal_fuel 4 slot) ≡ slot
unfolding first_slots
slot-value zero slot below held = absurd (omega (arith, below))
slot-value (suc last) slot below held =
    ground (arith, slot-value last slot, nat_beq_iff (value 0 (decimal_fuel 4 slot)) slot)

value-decimal : (n : ℕ) → n < 1000 → value 0 (decimal_fuel 4 n) ≡ n
value-decimal n h = slot-value audit_ring_size n h ring_reads_back

pub entry_key-injective : (i j : ℕ) → entry_key i ≡ entry_key j → i % 1000 ≡ j % 1000
unfolding entry_key
entry_key-injective i j e =
    let same : decimal_fuel 4 (i % 1000) ≡ decimal_fuel 4 (j % 1000) =
      append_cancel_left audit_entry_key _ _ e in
    sym (value-decimal (i % 1000) (omega arith))
    ∙ ap (value 0) same
    ∙ value-decimal (j % 1000) (omega arith)

-- Two events less than a ring apart have different keys.
pub entry_key-apart : (i j : ℕ) → i < j → j < i + 1000 → (entry_key j == entry_key i) ≡ false
entry_key-apart i j lt near = elim (Bool-cases (entry_key j == entry_key i)) [
  | inr differ ↦ differ
  | inl same ↦ absurd (omega (arith, entry_key-injective j i ((eq_iff _ _).0 same)))
]

tails_differ : (s : String) → concat "entry-" s ≢ "seq"
tails_differ s e = absurd (omega (arith, rw (cons-append _ "ntry-" s) at (ap head_code e)))

pub entry-ne-seq : (i : ℕ) → (audit_seq_key == entry_key i) ≡ false
unfolding entry_key
entry-ne-seq i =
    let slot = decimal_fuel 4 (i % audit_ring_size) in
    elim (Bool-cases (audit_seq_key == concat audit_entry_key slot)) [
      | inr differ ↦ differ
      | inl same ↦ absurd (
          tails_differ slot (
            append_cancel_left "audit-" _ _
              (sym (text_assoc "audit-" "entry-" slot) ∙ sym ((eq_iff _ _).0 same))))
    ]

pub seq-ne-entry : (i : ℕ) → (entry_key i == audit_seq_key) ≡ false
seq-ne-entry i =
    ground (
      arith,
      entry-ne-seq i,
      eq_iff audit_seq_key (entry_key i),
      eq_iff (entry_key i) audit_seq_key,
    )
