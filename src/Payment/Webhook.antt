-- ===== src/Payment/Webhook.antt =====
-- Paystack's events: `HandleWebhook`.
pub mod Signed
use auto_store_api.Prelude.{⊤, Bool, true, false, String, Result, ok, err, str_eq, not, ◌||◌}
use auto_store_api.Platform.{Platform}
use auto_store_api.Models.Paystack.{PaystackConfig, VerifyData}
use auto_store_api.World.{
  M, Error, ◌>>=◌, ◌>>◌, pure, raise_if, lift, skip_if, message, paystack_not_configured,
}
use auto_store_api.Payment.Client.{verify_webhook_signature}
use auto_store_api.Payment.Charges.{charge_entity, mark_paid}
use auto_store_api.Payment.Refunds.{handle_refund_webhook}

-- A failure of `json.Unmarshal`.
abbrev json_error : {A : Type 0} → Result String A → Result Error A
json_error (ok a) = ok a
json_error (err e) = err (message e)

module _ (p : Platform) where
  handle_charge : PaystackConfig → VerifyData → M p ⊤
  handle_charge cfg charge = skip_if p (not (p.equal_fold charge.status "success")) (do
    entity ← charge_entity p charge.entity_type charge.entity_id charge.reference
    mark_paid p cfg (entity.0) (entity.1) charge.reference charge.amount)

  -- The `switch` over the event's name, on whether it is a charge and whether it is a refund.
  handle_event : Bool → Bool → PaystackConfig → String → M p ⊤
  handle_event true _ cfg content = do
    charge ← lift p (json_error (p.charge_of_json content))
    handle_charge cfg charge
  handle_event false true cfg content = do
    refund ← lift p (json_error (p.refund_of_json content))
    handle_refund_webhook p refund
  handle_event false false cfg content = pure tt

  -- `HandleWebhook`
  unfoldable pub handle_webhook : PaystackConfig → String → String → M p ⊤
  unfolding handle_event handle_charge
  handle_webhook cfg body signature = do
    raise_if p (str_eq cfg.webhook_secret "") paystack_not_configured
    raise_if p (not (verify_webhook_signature p cfg.webhook_secret body signature))
        (message "invalid webhook signature")
    evt ← lift p (json_error (p.event_of_json body))
    handle_event (str_eq evt.event "charge.success")
        (str_eq evt.event "refund.processed" || str_eq evt.event "refund.failed") cfg evt.content
