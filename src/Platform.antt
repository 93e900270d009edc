-- ===== src/Platform.antt =====
-- What the program runs on and does not implement: `float64`, the tables behind gorm, transactions,
-- the uuid generator, texts, JSON and Paystack's service. All are parameters, with the documented behaviour that proofs rely on.
pub mod Sql
pub mod Text
pub mod Keys
use auto_store_api.Prelude.{ℕ, ℤ, ◌≡◌, Bool, true, false, Option, String, Result, str_eq}
use auto_store_api.Models.Sales.{Product, StockMovement, CartItem, Address, Order, OrderItem}
use auto_store_api.Models.Accounts.{User, MechanicProfile}
use auto_store_api.Models.Installation.{
  JobType, InstallService, Quote, QuoteItem, QuoteLine, Booking, BookingPayment,
}
use auto_store_api.Models.Paystack.{
  RefundBody, InitializeBody, InitializeResponse, RefundResponse, VerifyData, VerifyResponse,
  RefundWebhookData, WebhookEvent,
}
use auto_store_api.Models.Community.{Question, Answer, Category}
use auto_store_api.Models.Support.{Conversation, ChatMessage, Notification, NotificationPreference}
use auto_store_api.Models.Tokens.{Claims, GuestClaims}
use Sql.{Table, DbError}
use Text.{Texts}
use Keys.{Redis}

pub record Platform : Type 1 where
  -- float64: `+`, `*`, `/`, `<`, `<=`, conversion from `int`, and `int64(math.Round(x))`; `tenth`
  -- is the constant 0.10.
  pub Float : Type 0
  pub add : Float → Float → Float
  pub mul : Float → Float → Float
  pub div : Float → Float → Float
  pub lt : Float → Float → Bool
  pub le : Float → Float → Bool
  pub of_int : ℤ → Float
  pub round : Float → ℤ
  pub tenth : Float
  -- The n-th value of `uuid.New()`, an id's text, and the first eight characters of it.
  pub uuid : ℕ → ℕ
  pub uuid_text : ℕ → String
  pub short : ℕ → String
  -- `strconv.FormatInt(n, 10)`, which is never empty, `uuid.Parse` and `strings.EqualFold`.
  pub decimal : ℤ → String
  pub decimal_ne : (n : ℤ) → str_eq (decimal n) "" ≡ false
  pub parse_uuid : String → Option ℕ
  pub equal_fold : String → String → Bool
  -- The hexadecimal HMAC-SHA512 of a body under a secret, and `json.Unmarshal` of what Paystack sends.
  pub hmac_hex : String → String → String
  pub event_of_json : String → Result String WebhookEvent
  pub charge_of_json : String → Result String VerifyData
  pub refund_of_json : String → Result String RefundWebhookData
  -- How the n-th call of Paystack's API is answered.
  pub post_refund : ℕ → RefundBody → Result String RefundResponse
  pub post_initialize : ℕ → InitializeBody → Result String InitializeResponse
  pub get_verify : ℕ → String → Result String VerifyResponse
  pub texts : Texts
  pub redis : Redis
  -- `bcrypt.GenerateFromPassword`, whose salt is drawn anew, and `bcrypt.CompareHashAndPassword`.
  pub hash_password : ℕ → String → Result String String
  pub same_password : String → String → Bool
  pub same_hashed :
      (n : ℕ) (password hash : String)
      → hash_password n password ≡ Result.ok hash
      → same_password hash password ≡ true
  -- `SignedString` under the process's secret, and `jwt.ParseWithClaims`: the method, the signature and
  -- the times are checked there.
  pub sign_claims : Claims → Result String String
  pub sign_guest : GuestClaims → Result String String
  pub parse_claims : String → Result String Claims
  pub parse_guest : String → Result String GuestClaims
  -- How the n-th e-mail is answered: to, subject and body.
  pub send_mail : ℕ → String → String → String → Result String Unit
  -- How the `COMMIT` of the n-th transaction fails, if it does.
  pub commit : ℕ → Option DbError
  -- The tables, by the id of a row.
  pub products : Table (Product Float) (λ r. r.id)
  pub movements : Table StockMovement (λ r. r.id)
  pub carts : Table CartItem (λ r. r.id)
  pub addresses : Table Address (λ r. r.id)
  pub orders : Table (Order Float) (λ r. r.id)
  pub order_items : Table (OrderItem Float) (λ r. r.id)
  pub users : Table User (λ r. r.id)
  pub profiles : Table (MechanicProfile Float) (λ r. r.id)
  pub job_types : Table (JobType Float) (λ r. r.id)
  pub services : Table (InstallService Float) (λ r. r.id)
  pub quotes : Table Quote (λ r. r.id)
  pub quote_items : Table QuoteItem (λ r. r.id)
  pub quote_lines : Table (QuoteLine Float) (λ r. r.id)
  pub bookings : Table (Booking Float) (λ r. r.id)
  pub payments : Table (BookingPayment Float) (λ r. r.id)
  pub categories : Table Category (λ r. r.id)
  pub questions : Table Question (λ r. r.id)
  pub answers : Table Answer (λ r. r.id)
  pub conversations : Table Conversation (λ r. r.id)
  pub messages : Table ChatMessage (λ r. r.id)
  pub notifications : Table Notification (λ r. r.id)
  pub preferences : Table NotificationPreference (λ r. r.id)
