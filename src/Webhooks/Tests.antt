-- ===== src/Webhooks/Tests.antt =====
-- Two endpoints, and the theorems at them.
use mokey.Base.{
  Bool, List, Option, String, [], arith, concat, false, if◌then◌else◌, nat_eq, none, refl, some,
  string_eq, ℕ, ◌==◌, ◌||◌, ◌∷◌, ◌≡◌, ◌⊎◌,
}
use mokey.Text.{Text, codes}
use mokey.Webhooks.{Turn, WebhookTarget, AuditFields, body, deliver, turns, sends, takes}
use mokey.Webhooks.Laws.{deliver_attempts, turns-IsBounded, IsBounded}

abbrev targets : List (WebhookTarget Text (λ m. m) (λ t. t))
targets =
    record { events = []; queue = [] } ∷ record { events = codes "login" ∷ []; queue = [] } ∷ []

abbrev steps : List (Turn Text (λ m. m) (λ t. t))
steps = sends (codes "login failed") ∷ sends (codes "password") ∷ takes 0 ∷ []

run :
    turns Text (λ m. m) (λ t. t) steps targets
    ≡ record { events = []; queue = codes "password" ∷ [] }
      ∷ record { events = codes "login" ∷ []; queue = codes "login failed" ∷ [] }
      ∷ []
unfolding turns
run = refl

turns-IsBounded_example :
    IsBounded Text (λ m. m) (λ t. t) (turns Text (λ m. m) (λ t. t) steps targets)
turns-IsBounded_example =
    turns-IsBounded Text (λ m. m) (λ t. t) steps targets (omega arith, (omega arith, tt))

abbrev third_time : ℕ → Bool
third_time n = n == 3

-- What is encoded is the line of text, in quotes.
abbrev quoted : String → Option String
quoted line = some (concat "\"" (concat line "\""))

abbrev encode : AuditFields → Option String
encode event = none

abbrev locked : AuditFields
locked = record { message = "locked"; username = "ann"; actor = ""; ip = "::1" }

abbrev posts : String → ℕ → Bool
posts line n = third_time n

slack_line : body encode quoted "slack" locked ≡ some "\"mokey: locked user=ann ip=::1\""
unfolding body
slack_line = refl

deliver_attempts_example :
    ((body encode quoted "slack" locked ≡ none)
      × (deliver (body encode quoted "slack" locked) posts ≡ (false, 0)))
    ⊎ ((b : String) × (body encode quoted "slack" locked ≡ some b)
        × ((deliver (body encode quoted "slack" locked) posts).0
            ≡ (posts b 1 || posts b 2 || posts b 3))
        × ((deliver (body encode quoted "slack" locked) posts).1
            ≡ (if posts b 1 then 1 else if posts b 2 then 2 else 3)))
deliver_attempts_example = deliver_attempts encode quoted posts "slack" locked
