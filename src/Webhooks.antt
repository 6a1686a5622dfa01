-- ===== src/Webhooks.antt =====
-- server/webhooks.go: the queues of audit events for the configured endpoints, and their delivery.
-- Posting an event is a parameter.
pub mod Laws
mod Tests
use mokey.Base.{
  Bool, List, Option, String, [], any, concat, drop, false, if◌then◌else◌, length, ltb, map, nat_eq,
  none, not, some, string_eq, suc, true, zero, ℕ, ◌&&◌, ◌++◌, ◌+◌, ◌==◌, ◌||◌, ◌∷◌,
}
use mokey.Text.{Text}
use mokey.Password.Policy.Bytes.{has_infix}

abbrev pub webhook_queue_size : ℕ
webhook_queue_size = 100

abbrev pub webhook_attempts : ℕ
webhook_attempts = 3

module _ {ℓ} (Event : Type ℓ) (message : Event → Text) (to_lower : Text → Text) where
  pub record WebhookTarget : Type ℓ where
    pub events : List Text
    pub queue : List Event

  unfoldable pub wants : WebhookTarget → Text → Bool
  unfolding has_infix
  wants t m = length t.events == 0 || any (λ e. has_infix (to_lower e) (to_lower m)) t.events

  -- The `select`: an event that finds the queue full is dropped.
  unfoldable pub offer : Event → WebhookTarget → WebhookTarget
  unfolding wants
  offer event t =
      if wants t (message event) && ltb (length t.queue) webhook_queue_size
      then record t { queue = t.queue ++ event ∷ [] }
      else t

  -- send
  unfoldable pub send : Event → List WebhookTarget → List WebhookTarget
  unfolding offer
  send event targets = map (offer event) targets

  -- The worker of the target with this number takes its next event.
  abbrev pub take_next : WebhookTarget → WebhookTarget
  take_next t = record t { queue = drop 1 t.queue }

  abbrev pub take_at : ℕ → List WebhookTarget → List WebhookTarget
  take_at i [] = []
  take_at zero (t ∷ ts) = take_next t ∷ ts
  take_at (suc i) (t ∷ ts) = t ∷ take_at i ts

  -- What happens to the queues, in any order.
  pub data Turn : Type ℓ where
    sends : Event → Turn
    takes : ℕ → Turn

  unfoldable pub turns : List Turn → List WebhookTarget → List WebhookTarget
  unfolding send
  turns [] targets = targets
  turns (sends event ∷ rest) targets = turns rest (send event targets)
  turns (takes i ∷ rest) targets = turns rest (take_at i targets)

-- run's loop from the attempt `attempt` on, on fuel: whether the event was posted, and after how many
-- attempts. `posts` is what the post of each attempt returns.
unfoldable pub deliver_loop : (ℕ → Bool) → ℕ → ℕ → Bool × ℕ
deliver_loop posts zero attempt = (false, attempt)
deliver_loop posts (suc fuel) attempt =
    let rest = deliver_loop posts fuel (attempt + 1) in
    if posts attempt
    then (true, attempt)
    else if attempt == webhook_attempts
    then (false, attempt)
    else rest

-- body: the JSON of the event, or for Slack that of a line of text; none is an error of the encoding.
abbrev labelled : String → String → String → String
labelled line label value =
    if value == "" then line else concat line (concat " " (concat label (concat "=" value)))

pub record AuditFields : Type 0 where
  pub message : String
  pub username : String
  pub actor : String
  pub ip : String

unfoldable pub body {ℓ} :
    {Bytes : Type ℓ}
    → (AuditFields → Option Bytes)
    → (String → Option Bytes)
    → String
    → AuditFields
    → Option Bytes
body marshal marshal_text format event =
    let line = concat "mokey: " event.message in
    if not (format == "slack")
    then marshal event
    else marshal_text
        (labelled (labelled (labelled line "user" event.username) "by" event.actor) "ip" event.ip)

-- run for one event, given the body: whether it was posted, and after how many attempts. An event that
-- has no body is passed over.
unfoldable pub deliver {ℓ} : {Bytes : Type ℓ} → Option Bytes → (Bytes → ℕ → Bool) → Bool × ℕ
unfolding deliver_loop
deliver none posts = (false, 0)
deliver (some bytes) posts = deliver_loop (posts bytes) webhook_attempts 1
