-- ===== src/Payment/Webhook/Signed.antt =====
-- An event counts only when Paystack has signed it.
use auto_store_api.Prelude.{
  ◌≡◌, ◌≢◌, ◌⊎◌, inl, inr, refl, Bool, Bool-cases, true, false, not, String, ok, str_eq, eq_iff,
  ◌||◌, if◌then◌else◌,
}
use auto_store_api.Platform.{Platform}
use auto_store_api.Models.Paystack.{PaystackConfig}
use auto_store_api.World.{
  World, Returns, Returns-ok, Returns-mono, raise_if_then, Fails, both_ends, raise_if_else,
}
use auto_store_api.Payment.Client.{verify_webhook_signature}
use auto_store_api.Payment.Webhook.{handle_webhook}

contradiction : (b : Bool) → b ≡ false → not b ≡ false → ⊥
contradiction true e f = cc
contradiction false e f = cc

or_true : (b : Bool) → (b || true) ≡ true
or_true true = refl
or_true false = refl

module _ (p : Platform) where
  -- A signature that nobody who knows the secret has made: no secret is set, or there is no signature, or it is not
  -- the HMAC-SHA512 of the body under the secret, in hexadecimal digits.
  abbrev pub IsUnsigned : String → String → String → Type 0
  IsUnsigned secret body signature =
      (secret ≡ "") ⊎ (signature ≡ "") ⊎ (p.hmac_hex secret body ≢ signature)

  unsigned_fails :
      (secret body signature : String)
      → IsUnsigned secret body signature
      → verify_webhook_signature p secret body signature ≡ false
  unfolding verify_webhook_signature
  unsigned_fails secret body signature (inl e) = rw ((eq_iff secret "").1 e) refl
  unsigned_fails secret body signature (inr (inl e)) =
      rw ((eq_iff signature "").1 e, or_true (str_eq secret "")) refl
  unsigned_fails secret body signature (inr (inr ne)) =
      elim (Bool-cases (str_eq (p.hmac_hex secret body) signature)) [
        | inl e ↦ absurd (ne ((eq_iff _ _).0 e))
        | inr e ↦ rw e (either (str_eq secret "" || str_eq signature ""))
      ]
    where
      either : (b : Bool) → (if b then false else false) ≡ false
      either true = refl
      either false = refl

  -- A body whose signature is missing, or is not the HMAC-SHA512 of the body under the secret, or that
  -- comes while no secret is set, is refused with an error, and nothing is changed.
  pub handle_webhook_unsigned :
      (cfg : PaystackConfig) (body signature : String) (w : World p)
      → IsUnsigned cfg.webhook_secret body signature
      → ((handle_webhook p cfg body signature w).0 ≢ ok tt)
        × ((handle_webhook p cfg body signature w).1 ≡ w)
  unfolding handle_webhook
  handle_webhook_unsigned cfg body signature w unsigned =
      let bad = unsigned_fails cfg.webhook_secret body signature unsigned in
      let never : Returns (λ _ _. ⊥) (handle_webhook p cfg body signature w) =
        raise_if_then _ _ _ _ w
          λ configured. raise_if_then _ _ _ _ w λ signed. absurd (contradiction _ bad signed) in
      let same : Fails (λ _ v. v ≡ w) (handle_webhook p cfg body signature w) =
        raise_if_else _ _ _ _ w refl λ configured.
          raise_if_else _ _ _ _ w refl λ signed. absurd (contradiction _ bad signed) in
      (
        λ e.
            Returns-ok (λ _ _. ⊥) _ tt _ (λ i. (e i, (handle_webhook p cfg body signature w).1))
              never,
        both_ends (λ v. v ≡ w) _ (Returns-mono _ _ _ (λ _ _ x. absurd x) never) same,
      )
