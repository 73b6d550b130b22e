-- ===== src/Auth/Signed.antt =====
-- Which signed OAuth states are accepted, and for how long (backend/app/api/v1/auth.py).
use coin_hq.Base.{
  ℕ, ◌+◌, ◌*◌, ◌/◌, ◌≤◌, true, false, List, [], ◌∷◌, ◌++◌, some, ◌≡◌, ◌∙◌, refl, ap, ◌↔◌, arith,
  contains, leb, nat_eq, Option-cases, inl, inr,
}
use coin_hq.Base.Text.{Text, text_eq, text_beq, text_beq_iff, split, split_fields}
use coin_hq.Base.Int.{ℤ, pos, negsuc}
use coin_hq.Base.Decimal.{show_nat, int_of_text, IsDigits, show_nat-IsDigits, int_of_text-show_nat}
use coin_hq.Auth.State.{
  Hmac, is_ascii, stateless_prefix, state_ttl_seconds, sign_state, make_stateless_state,
  check_signature, check_fields, verify_stateless_state,
}

split-field :
    (sep : ℕ) (a s : Text) → contains a sep ≡ false → split sep (a ++ sep ∷ s) ≡ a ∷ split sep s
unfolding split split_fields
split-field sep [] s h = ground arith
split-field sep (c ∷ a) s h = ground (arith, split-field sep a s)

split-last : (sep : ℕ) (a : Text) → contains a sep ≡ false → split sep a ≡ a ∷ []
unfolding split split_fields
split-last sep [] h = refl
split-last sep (c ∷ a) h = ground (arith, split-last sep a)

digits-contains : (s : Text) → IsDigits s → contains s b'.' ≡ false
digits-contains [] h = refl
digits-contains (c ∷ s) (h, hs) = ground (arith, digits-contains s hs)

-- A digest in hexadecimal: ASCII, and without a dot.
abbrev pub IsHex : Hmac → Type 0
IsHex hmac =
    (key message : Text)
    → (is_ascii (hmac key message) ≡ true) × (contains (hmac key message) b'.' ≡ false)

split-four :
    (sep : ℕ) (a b c d : Text)
    → contains a sep ≡ false
    → contains b sep ≡ false
    → contains c sep ≡ false
    → contains d sep ≡ false
    → split sep (a ++ sep ∷ (b ++ sep ∷ (c ++ sep ∷ d))) ≡ a ∷ b ∷ c ∷ d ∷ []
split-four sep a b c d ha hb hc hd =
    split-field sep a (b ++ sep ∷ (c ++ sep ∷ d)) ha
    ∙ ap (◌∷◌ a) (
        split-field sep b (c ++ sep ∷ d) hb
        ∙ ap (◌∷◌ b) (split-field sep c d hc ∙ ap (◌∷◌ c) (split-last sep d hd)))

sign_state-is_ascii :
    (hmac : Hmac) (secret nonce : Text) (expires : ℤ)
    → IsHex hmac
    → is_ascii (sign_state hmac secret nonce expires) ≡ true
unfolding sign_state
sign_state-is_ascii hmac secret nonce expires hex = (hex secret _).0

module _ (hmac : Hmac) (secret : Text) where
  fields-make :
      (nonce : Text) (now : ℕ)
      → IsHex hmac
      → contains nonce b'.' ≡ false
      → let expires = now / 1000 + state_ttl_seconds in
        split b'.' (make_stateless_state hmac secret nonce now)
        ≡ stateless_prefix
          ∷ nonce
          ∷ show_nat expires
          ∷ sign_state hmac secret nonce (pos expires)
          ∷ []
  unfolding make_stateless_state
  fields-make nonce now hex h =
      let expires = now / 1000 + state_ttl_seconds in
      split-four b'.' stateless_prefix nonce (show_nat expires)
        (sign_state hmac secret nonce (pos expires)) refl h
        (digits-contains (show_nat expires) (show_nat-IsDigits expires))
        (unfold sign_state in (hex secret _).1)

  -- A signed state that the server made is accepted exactly until ten minutes after the whole
  -- second in which it was made, whatever its nonce is without a dot, where the digests are
  -- hexadecimal.
  pub verify_stateless_state-make_stateless_state :
      (nonce : Text) (made now : ℕ)
      → IsHex hmac
      → contains nonce b'.' ≡ false
      → verify_stateless_state hmac secret (make_stateless_state hmac secret nonce made) now
        ≡ some (leb now ((made / 1000 + state_ttl_seconds) * 1000))
  unfolding verify_stateless_state check_fields check_signature text_beq
  verify_stateless_state-make_stateless_state nonce made now hex h =
      let expires = made / 1000 + state_ttl_seconds in
      ap (λ fields. check_fields hmac secret fields now) (fields-make nonce made hex h)
      ∙ rw (int_of_text-show_nat expires) (
          ground (
            arith,
            sign_state-is_ascii hmac secret nonce (pos expires) hex,
            text_beq_iff (sign_state hmac secret nonce (pos expires))
                (sign_state hmac secret nonce (pos expires)),
          ))

  -- The fields of an accepted state: the prefix, a nonce, an expiry that has not passed, and the
  -- server's own signature of the nonce and that expiry.
  abbrev pub AreIssued : List Text → ℕ → Type 0
  AreIssued fields now =
      (nonce : Text) × (expires_s : Text) × (expires : ℕ) × (fields
        ≡ stateless_prefix ∷ nonce ∷ expires_s ∷ sign_state hmac secret nonce (pos expires) ∷ [])
      × (int_of_text expires_s ≡ some (pos expires))
      × (now ≤ expires * 1000)

  check_fields-AreIssued :
      (fields : List Text) (now : ℕ)
      → check_fields hmac secret fields now ≡ some true
      → AreIssued fields now
  unfolding check_fields check_signature
  check_fields-AreIssued (p ∷ n ∷ e ∷ s ∷ []) now h = elim (Option-cases (int_of_text e)) [
    | inl bad ↦ ground arith
    | inr (pos x, good) ↦
        let same : p ∷ n ∷ e ∷ s ∷ []
            ≡ stateless_prefix ∷ n ∷ e ∷ sign_state hmac secret n (pos x) ∷ [] =
          ground (
            arith,
            text_beq_iff p stateless_prefix,
            text_beq_iff s (sign_state hmac secret n (pos x)),
          ) in
        (n, e, x, same, good, ground arith)
    | inr (negsuc x, good) ↦ ground arith
  ]
  check_fields-AreIssued _ now h = absurd cc

  AreIssued-check_fields :
      (fields : List Text) (now : ℕ)
      → IsHex hmac
      → AreIssued fields now
      → check_fields hmac secret fields now ≡ some true
  unfolding check_fields check_signature text_beq
  AreIssued-check_fields fields now hex (n, e, x, same, good, soon) = rw same (
      rw good (
        ground (
          arith,
          sign_state-is_ascii hmac secret n (pos x) hex,
          text_beq_iff (sign_state hmac secret n (pos x)) (sign_state hmac secret n (pos x)),
        )))

  -- A signed state is accepted exactly if it has four fields: the prefix, a nonce, the text of
  -- an expiry that has not passed, and the server's own signature of that nonce and expiry. The
  -- digests are hexadecimal.
  pub verify_stateless_state_iff :
      (state : Text) (now : ℕ)
      → IsHex hmac
      → (verify_stateless_state hmac secret state now ≡ some true)
        ↔ AreIssued (split b'.' state) now
  unfolding verify_stateless_state
  verify_stateless_state_iff state now hex = (
    check_fields-AreIssued (split b'.' state) now,
    AreIssued-check_fields (split b'.' state) now hex,
  )
