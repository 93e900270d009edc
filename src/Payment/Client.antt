-- ===== src/Payment/Client.antt =====
-- The Paystack client: pkg/paystack/client.go. What the service answers is a parameter.
use auto_store_api.Prelude.{
  pos, Bool, Option, none, some, String, ltb_ℤ, if◌then◌else◌, str_eq, not, text_append, false,
  ◌||◌,
}
use auto_store_api.Platform.{Platform}
use auto_store_api.Models.Paystack.{
  RefundParams, RefundBody, RefundData, InitializeParams, InitializeBody, InitializeData,
  VerifyData,
}
use auto_store_api.World.{M, gateway, ◌>>=◌, ◌>>◌, pure, raise_if, send_refund, call_paystack}

-- A field that the request has when it is not empty.
abbrev pub unless_empty : String → Option String
unless_empty s = if str_eq s "" then none else some s

-- The body that `CreateRefund` sends.
abbrev pub refund_body : RefundParams → RefundBody
refund_body r = record {
  transaction = r.transaction;
  amount = if ltb_ℤ (pos 0) r.amount then some r.amount else none;
  currency = unless_empty r.currency;
  customer_note = unless_empty r.customer_note;
  merchant_note = unless_empty r.merchant_note;
}

-- The body that `Initialize` sends.
abbrev pub initialize_body : InitializeParams → InitializeBody
initialize_body r = record {
  email = r.email;
  amount = r.amount;
  currency = unless_empty r.currency;
  reference = unless_empty r.reference;
  callback_url = unless_empty r.callback_url;
  metadata = r.metadata;
  subaccount = unless_empty r.subaccount;
  transaction_charge =
      if ltb_ℤ (pos 0) r.transaction_charge then some r.transaction_charge else none;
  bearer = unless_empty r.bearer;
}

module _ (p : Platform) where
  -- `CreateRefund`
  unfoldable pub create_refund : RefundParams → M p RefundData
  create_refund params = do
    out ← send_refund p (refund_body params)
    raise_if p (not out.status) (gateway (text_append "paystack refund: " out.message))
    pure out.content

  -- `Initialize`
  unfoldable pub initialize_transaction : InitializeParams → M p InitializeData
  initialize_transaction params = do
    out ← call_paystack p (λ n. p.post_initialize n (initialize_body params))
    raise_if p (not out.status) (gateway (text_append "paystack initialize: " out.message))
    pure out.content

  -- `Verify`
  unfoldable pub verify : String → M p VerifyData
  verify reference = do
    out ← call_paystack p (λ n. p.get_verify n reference)
    raise_if p (not out.status) (gateway (text_append "paystack verify: " out.message))
    pure out.content

  -- `VerifyWebhookSignature`
  unfoldable pub verify_webhook_signature : String → String → String → Bool
  verify_webhook_signature secret body signature =
      if str_eq secret "" || str_eq signature ""
      then false
      else str_eq (p.hmac_hex secret body) signature
