-- ===== src/Models/Paystack.antt =====
-- The requests and the answers of Paystack's API and its settings: pkg/paystack/client.go and
-- internal/config/config.go. The field `Data` is `content`; a field of a request that the client leaves out is `none`.
use auto_store_api.Prelude.{ℤ, Bool, Option, String}

-- `PaystackConfig`
pub record PaystackConfig : Type 0 where
  pub enabled : Bool
  pub public_key : String
  pub webhook_secret : String
  pub callback_url : String
  pub currency : String
  pub split_enabled : Bool
  pub require_split : Bool

-- `RefundParams`
pub record RefundParams : Type 0 where
  pub transaction : String
  pub amount : ℤ
  pub currency : String
  pub customer_note : String
  pub merchant_note : String

-- The body of `POST /refund`.
pub record RefundBody : Type 0 where
  pub transaction : String
  pub amount : Option ℤ
  pub currency : Option String
  pub customer_note : Option String
  pub merchant_note : Option String

-- `RefundData`
pub record RefundData : Type 0 where
  pub id : ℤ
  pub status : String
  pub amount : ℤ

-- `RefundResponse`
pub record RefundResponse : Type 0 where
  pub status : Bool
  pub message : String
  pub content : RefundData

-- `VerifyData`, and `ChargeWebhookData`, which has the same fields.
pub record VerifyData : Type 0 where
  pub reference : String
  pub amount : ℤ
  pub status : String
  pub entity_type : String
  pub entity_id : String

-- `VerifyResponse`
pub record VerifyResponse : Type 0 where
  pub status : Bool
  pub message : String
  pub content : VerifyData

-- `RefundWebhookData`
pub record RefundWebhookData : Type 0 where
  pub id : ℤ
  pub status : String
  pub reference : String

-- `WebhookEvent`: the event's name, and its data as text.
pub record WebhookEvent : Type 0 where
  pub event : String
  pub content : String

-- The map `Metadata`: who pays for what, and the two entries that a split adds.
pub record Metadata : Type 0 where
  pub entity_type : String
  pub entity_id : String
  pub user_id : String
  pub split : Option String
  pub platform_fee_minor : Option String

-- `InitializeParams`
pub record InitializeParams : Type 0 where
  pub email : String
  pub amount : ℤ
  pub currency : String
  pub reference : String
  pub callback_url : String
  pub metadata : Metadata
  pub subaccount : String
  pub transaction_charge : ℤ
  pub bearer : String

-- The body of `POST /transaction/initialize`.
pub record InitializeBody : Type 0 where
  pub email : String
  pub amount : ℤ
  pub currency : Option String
  pub reference : Option String
  pub callback_url : Option String
  pub metadata : Metadata
  pub subaccount : Option String
  pub transaction_charge : Option ℤ
  pub bearer : Option String

-- `InitializeData`
pub record InitializeData : Type 0 where
  pub authorization_url : String
  pub access_code : String
  pub reference : String

-- `InitializeResponse`
pub record InitializeResponse : Type 0 where
  pub status : Bool
  pub message : String
  pub content : InitializeData
