-- ===== src/Webhooks/Laws.antt =====
-- The queues stay bounded, and a delivery is tried at most three times.
use mokey.Base.{
  Bool, Bool-cases, List, Option, Option-cases, String, [], arith, false, if◌then◌else◌, inl, inr,
  length, length-append, length-drop, ltb, nat_eq, none, refl, some, string_eq, suc, zero, ℕ, ◌&&◌,
  ◌||◌, ◌∷◌, ◌≡◌, ◌≤◌, ◌⊎◌,
}
use mokey.Text.{Text}
use mokey.Webhooks.{
  WebhookTarget, Turn, deliver, offer, send, take_at, turns, AuditFields, body, webhook_queue_size,
  wants, sends, takes,
}

module _ {ℓ} (Event : Type ℓ) (message : Event → Text) (to_lower : Text → Text) where
  abbrev pub IsBounded : List (WebhookTarget Event message to_lower) → Type 0
  IsBounded [] = Unit
  IsBounded (t ∷ ts) = (length t.queue ≤ webhook_queue_size) × IsBounded ts

  offer-bounded :
      (event : Event) (t : WebhookTarget Event message to_lower)
      → length t.queue ≤ webhook_queue_size
      → length (offer Event message to_lower event t).queue ≤ webhook_queue_size
  unfolding offer
  offer-bounded event t h =
      elim (Bool-cases (
        wants Event message to_lower t (message event)
        && ltb (length t.queue) webhook_queue_size)) [
          | inl room ↦ rw (room, length-append t.queue (event ∷ [])) (ground (arith, room))
          | inr no_room ↦ rw no_room h
        ]

  send-IsBounded :
      (event : Event) (ts : List (WebhookTarget Event message to_lower))
      → IsBounded ts
      → IsBounded (send Event message to_lower event ts)
  unfolding send
  send-IsBounded event [] h = tt
  send-IsBounded event (t ∷ ts) h = (offer-bounded event t h.0, send-IsBounded event ts h.1)

  take_at-IsBounded :
      (i : ℕ) (ts : List (WebhookTarget Event message to_lower))
      → IsBounded ts
      → IsBounded (take_at Event message to_lower i ts)
  take_at-IsBounded i [] h = tt
  take_at-IsBounded zero (t ∷ ts) h = (omega (arith, h.0, length-drop 1 t.queue), h.1)
  take_at-IsBounded (suc i) (t ∷ ts) h = (h.0, take_at-IsBounded i ts h.1)

  -- However events are sent and taken, no endpoint's queue grows beyond its size, if none did
  -- before.
  pub turns-IsBounded :
      (steps : List (Turn Event message to_lower))
      (ts : List (WebhookTarget Event message to_lower))
      → IsBounded ts
      → IsBounded (turns Event message to_lower steps ts)
  unfolding turns
  turns-IsBounded [] ts h = h
  turns-IsBounded (sends event ∷ steps) ts h =
      turns-IsBounded steps (send Event message to_lower event ts) (send-IsBounded event ts h)
  turns-IsBounded (takes i ∷ steps) ts h =
      turns-IsBounded steps (take_at Event message to_lower i ts) (take_at-IsBounded i ts h)

deliver-some {ℓ} :
    {Bytes : Type ℓ} (posts : Bytes → ℕ → Bool) (b : Bytes)
    → ((deliver (some b) posts).0 ≡ (posts b 1 || posts b 2 || posts b 3))
      × ((deliver (some b) posts).1 ≡ (if posts b 1 then 1 else if posts b 2 then 2 else 3))
unfolding deliver
deliver-some posts b = elim (Bool-cases (posts b 1)) [
  | inl first ↦ rw first (refl, refl)
  | inr not_first ↦ elim (Bool-cases (posts b 2)) [
    | inl second ↦ rw (not_first, second) (refl, refl)
    | inr not_second ↦ elim (Bool-cases (posts b 3)) [
      | inl third ↦ rw (not_first, not_second, third) (refl, refl)
      | inr not_third ↦ rw (not_first, not_second, not_third) (refl, refl)
    ]
  ]
]

-- An event whose body cannot be encoded is never posted; any other is delivered exactly if one of
-- the first three posts of its body succeeds, and no post is made after the one that succeeds or
-- after the third.
pub deliver_attempts {ℓ} :
    {Bytes : Type ℓ} (encode : AuditFields → Option Bytes) (encode_text : String → Option Bytes)
    (posts : Bytes → ℕ → Bool) (format : String) (event : AuditFields)
    → ((body encode encode_text format event ≡ none)
        × (deliver (body encode encode_text format event) posts ≡ (false, 0)))
      ⊎ ((b : Bytes) × (body encode encode_text format event ≡ some b)
          × ((deliver (body encode encode_text format event) posts).0
              ≡ (posts b 1 || posts b 2 || posts b 3))
          × ((deliver (body encode encode_text format event) posts).1
              ≡ (if posts b 1 then 1 else if posts b 2 then 2 else 3)))
unfolding deliver
deliver_attempts encode encode_text posts format event =
    elim (Option-cases (body encode encode_text format event)) [
      | inl none_there ↦ inl (none_there, rw none_there refl)
      | inr (b, e) ↦ inr (b, e, rw e (deliver-some posts b).0, rw e (deliver-some posts b).1)
    ]
