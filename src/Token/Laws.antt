-- ===== src/Token/Laws.antt =====
-- Tokens: the round trip, one outstanding token, single use, and failing closed.
use mathlib.Core.Bool.{false≢true}
use text.Mathlib.TextLemmas.{append_cancel_left, append_assoc as text_assoc, cons-append}
use mokey.Base.{
  Bool-cases, Option-cases, String, ap, arith, concat, eq_iff, eq_refl, false, head_code, inl, inr,
  ltb, nat_eq, some, string_eq, sym, true, ℕ, ◌+◌, ◌-◌, ◌<◌, ◌==◌, ◌∙◌, ◌≡◌, ◌≢◌,
}
use mokey.Storage.{Storage, Codec, failed, missing, IsWorking, in_time, found}
use mokey.Token.{
  issued_key, used_key, token_issued_prefix, token_used_prefix, Branca, Claims, IsSealing,
  TokenConfig, already_issued, err, new_token, ok, parse_token, storage_error, Token,
  mark_token_used,
}

tails_differ : (t u : String) → concat token_issued_prefix u ≢ concat token_used_prefix t
tails_differ t u e =
    absurd
      (omega (arith, rw (cons-append _ "ssued-" u, cons-append _ "sed-" t) at (ap head_code e)))

-- The markers of issued and of used tokens have different keys.
used-ne-issued : (p t u : String) → (issued_key p u == used_key p t) ≡ false
unfolding issued_key used_key
used-ne-issued p t u = elim (Bool-cases (issued_key p u == used_key p t)) [
  | inr differ ↦ differ
  | inl same ↦ absurd (
      tails_differ t u (
        append_cancel_left p _ _ (
          sym (text_assoc p token_issued_prefix u)
          ∙ (eq_iff _ _).0 same
          ∙ text_assoc p token_used_prefix t)))
]

module _ {Bytes : Type 0} (db : Storage Bytes) (json : Codec Bytes Claims) (b : Branca Bytes)
    (text : String → Bytes) (cfg : TokenConfig) where
  -- A token is handed out only when the storage said that none is outstanding and has taken the
  -- marker of this one; in every other case there is an error.
  pub new_token_guarded :
      (s : db.State) (t : ℕ) (u e p tok : String)
      → (new_token db json b text cfg s t u e p).1 ≡ ok tok
      → (db.get s t (issued_key p u) ≡ missing)
        × ((db.set s t (issued_key p u) (text "true") cfg.resend_cooldown).0 ≡ true)
        × ((new_token db json b text cfg s t u e p).0
            ≡ (db.set s t (issued_key p u) (text "true") cfg.resend_cooldown).1)
  unfolding new_token
  new_token_guarded s t u e p tok h = ground arith

  -- With the storage down no token is issued and none is accepted.
  pub tokens_fail_closed :
      (s : db.State) (t : ℕ) (u e p tok : String)
      → db.get s t (issued_key p u) ≡ failed
      → db.get s t (used_key p tok) ≡ failed
      → (new_token db json b text cfg s t u e p ≡ (s, err storage_error))
        × (parse_token db json b text cfg s t tok p ≡ err storage_error)
  unfolding new_token parse_token
  tokens_fail_closed s t u e p tok h k = (rw h, rw k)

  seal_facts :
      (s : db.State) (t : ℕ) (u e p tok : String)
      → (new_token db json b text cfg s t u e p).1 ≡ ok tok
      → (payload : Bytes) × (key : b.Key) × (json.marshal (record { username = u; email = e })
          ≡ some payload)
        × (b.new_branca cfg.token_secret ≡ some key)
        × (b.encode key t payload ≡ some tok)
  unfolding new_token
  seal_facts s t u e p tok h = ground arith

  opened :
      (s : db.State) (now : ℕ) (p tok : String) (key : b.Key) (payload : Bytes) (stamp : ℕ)
      {c : Claims}
      → db.get s now (used_key p tok) ≡ missing
      → b.new_branca cfg.token_secret ≡ some key
      → b.decode key tok ≡ some (payload, stamp)
      → b.is_expired stamp cfg.token_max_age now ≡ false
      → json.unmarshal payload ≡ some c
      → parse_token db json b text cfg s now tok p ≡ ok (record { claims = c; timestamp = stamp })
  unfolding parse_token
  opened s now p tok key payload stamp free k d young back = rw (free, k, d, young, back)

  parse_facts :
      (s : db.State) (now : ℕ) (p tok : String) (c : Token)
      → parse_token db json b text cfg s now tok p ≡ ok c
      → (key : b.Key) × (payload : Bytes) × (b.new_branca cfg.token_secret ≡ some key)
        × (b.decode key tok ≡ some (payload, c.timestamp))
        × (b.is_expired c.timestamp cfg.token_max_age now ≡ false)
  unfolding parse_token
  parse_facts s now p tok c h = elim (Option-cases (b.new_branca cfg.token_secret)) [
    | inl no_key ↦ absurd (ground arith)
    | inr (key, k) ↦ elim (Option-cases (b.decode key tok)) [
      | inl closed ↦ absurd (ground arith)
      | inr (x, d) ↦ (key, x.0, k, ground arith, ground arith)
    ]
  ]

  used_again :
      (s : db.State) (now : ℕ) (p tok : String) (raw : Bytes) (c : Token)
      → db.get s now (used_key p tok) ≡ found raw
      → parse_token db json b text cfg s now tok p ≢ ok c
  unfolding parse_token
  used_again s now p tok raw c h e = ground arith

  stamps :
      (key key' : b.Key) (tok : String) (payload payload' : Bytes) (n n' : ℕ)
      → b.new_branca cfg.token_secret ≡ some key
      → b.new_branca cfg.token_secret ≡ some key'
      → b.decode key tok ≡ some (payload, n)
      → b.decode key' tok ≡ some (payload', n')
      → n' ≡ n
  stamps key key' tok payload payload' n n' k k' d d' = ground arith

  issued_again :
      (s : db.State) (t : ℕ) (u e p : String) (raw : Bytes)
      → db.get s t (issued_key p u) ≡ found raw
      → new_token db json b text cfg s t u e p ≡ (s, err already_issued)
  unfolding new_token
  issued_again s t u e p raw h = rw h

  module _ (w : IsWorking db) (seals : IsSealing b) where
    -- While the cooldown of an issued token runs, the same user gets no second one under the
    -- prefix, and the attempt changes nothing.
    pub one_outstanding :
        (s : db.State) (t t' : ℕ) (u e e' p tok : String)
        → (new_token db json b text cfg s t u e p).1 ≡ ok tok
        → in_time cfg.resend_cooldown t t' ≡ true
        → new_token db json b text cfg (new_token db json b text cfg s t u e p).0 t' u e' p
          ≡ ((new_token db json b text cfg s t u e p).0, err already_issued)
    one_outstanding s t t' u e e' p tok h soon =
        let (_, done, after) = new_token_guarded s t u e p tok h in
        let s' = (new_token db json b text cfg s t u e p).0 in
        issued_again s' t' u e' p (text "true") (
          rw (
            after,
            w.get-set s t t' (issued_key p u) (issued_key p u) (text "true") cfg.resend_cooldown,
            eq_refl (issued_key p u),
            soon,
          ))

    -- On a storage that answers, a token that was issued is accepted until its age runs out, while
    -- it has not been used, and gives back the claims and the time it was issued with.
    pub parse-new :
        (s : db.State) (t t' : ℕ) (u e p tok : String)
        → (new_token db json b text cfg s t u e p).1 ≡ ok tok
        → db.get s t' (used_key p tok) ≡ missing
        → t' < t + cfg.token_max_age
        → parse_token db json b text cfg (new_token db json b text cfg s t u e p).0 t' tok p
          ≡ ok (record { claims = record { username = u; email = e }; timestamp = t })
    parse-new s t t' u e p tok h unused young =
        let (_, done, after) = new_token_guarded s t u e p tok h in
        let (payload, key, m, k, sealed) = seal_facts s t u e p tok h in
        let (raw, m', um) = json.roundtrip (record { username = u; email = e }) in
        let same : some payload ≡ some raw = sym m ∙ m' in
        let back : json.unmarshal payload ≡ some (record { username = u; email = e }) =
          ground (arith, same, um) in
        opened (new_token db json b text cfg s t u e p).0 t' p tok key payload t
          (rw (
            after,
            w.get-set s t t' (issued_key p u) (used_key p tok) (text "true") cfg.resend_cooldown,
            used-ne-issued p tok u,
            unused,
          ))
          k (seals.decode-encode key t payload tok sealed)
          (seals.young t cfg.token_max_age t' young) back

    marked :
        (s : db.State) (now t' : ℕ) (p tok : String) (c : Token)
        → now < c.timestamp + cfg.token_max_age
        → ltb t' (c.timestamp + cfg.token_max_age) ≡ true
        → db.get (mark_token_used db json b text cfg s now tok p c) t' (used_key p tok)
          ≡ found (text "true")
    unfolding mark_token_used
    marked s now t' p tok c alive early =
        let ttl = c.timestamp + cfg.token_max_age - now in
        let soon : in_time ttl now t' ≡ true = ground arith in
        rw (
          w.get-set s now t' (used_key p tok) (used_key p tok) (text "true") ttl,
          eq_refl (used_key p tok),
          soon,
        )

    -- On a storage that answers, a token that was accepted and then marked as used is not accepted
    -- again, at any later time but the one second at which the mark expires as the age is reached:
    -- until then the mark refuses it, and afterwards its age does.
    pub single_use :
        (s : db.State) (now t' : ℕ) (p tok : String) (c c' : Token)
        → parse_token db json b text cfg s now tok p ≡ ok c
        → now < c.timestamp + cfg.token_max_age
        → t' ≢ c.timestamp + cfg.token_max_age
        → parse_token db json b text cfg (mark_token_used db json b text cfg s now tok p c) t' tok p
          ≢ ok c'
    single_use s now t' p tok c c' h alive off again =
        let (key, payload, k, d, _) = parse_facts s now p tok c h in
        let s' = mark_token_used db json b text cfg s now tok p c in
        let (key', payload', k', d', fresh) = parse_facts s' t' p tok c' again in
        elim (Bool-cases (ltb t' (c.timestamp + cfg.token_max_age))) [
          | inl early ↦
              absurd (
                used_again s' t' p tok (text "true") c' (marked s now t' p tok c alive early) again)
          | inr late ↦ absurd (
              false≢true (
                sym fresh
                ∙ ap (λ n. b.is_expired n cfg.token_max_age t')
                    (stamps key key' tok payload payload' c.timestamp c'.timestamp k k' d d')
                ∙ seals.old c.timestamp cfg.token_max_age t' (ground arith)))
        ]
