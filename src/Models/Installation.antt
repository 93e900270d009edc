-- ===== src/Models/Installation.antt =====
-- Installation quotes, bookings and their payments: internal/models/installation.go.
use auto_store_api.Prelude.{ℕ, ℤ, Bool, true, false, Option, String}
use auto_store_api.Models.Sales.{PaymentStatus}

-- `QuoteStatus`
pub data QuoteStatus : Type 0 where
  ready expired booked cancelled : QuoteStatus

abbrev pub is_ready : QuoteStatus → Bool
is_ready QuoteStatus.ready = true
is_ready _ = false

abbrev pub is_expired : QuoteStatus → Bool
is_expired QuoteStatus.expired = true
is_expired _ = false

-- `QuoteLineStatus`
pub data QuoteLineStatus : Type 0 where
  offered selected declined : QuoteLineStatus

-- `BookingStatus`; `other` is any text that is not one of the six constants.
pub data BookingStatus : Type 0 where
  pending_payment confirmed en_route in_progress completed cancelled : BookingStatus
  other : String → BookingStatus

-- `IsValidBookingStatus`
unfoldable pub is_valid_booking_status : BookingStatus → Bool
is_valid_booking_status (BookingStatus.other _) = false
is_valid_booking_status _ = true

abbrev pub is_pending_payment : BookingStatus → Bool
is_pending_payment BookingStatus.pending_payment = true
is_pending_payment _ = false

abbrev pub is_confirmed : BookingStatus → Bool
is_confirmed BookingStatus.confirmed = true
is_confirmed _ = false

abbrev pub is_en_route : BookingStatus → Bool
is_en_route BookingStatus.en_route = true
is_en_route _ = false

abbrev pub is_completed : BookingStatus → Bool
is_completed BookingStatus.completed = true
is_completed _ = false

abbrev pub is_cancelled_booking : BookingStatus → Bool
is_cancelled_booking BookingStatus.cancelled = true
is_cancelled_booking _ = false

-- `InstallationJobType`
pub record JobType (F : Type 0) : Type 0 where
  pub id : ℕ
  pub base_labor_minutes : ℤ
  pub base_labor_price : F
  pub is_active : Bool

-- `MechanicInstallService`
pub record InstallService (F : Type 0) : Type 0 where
  pub id : ℕ
  pub mechanic_profile_id : ℕ
  pub job_type_id : ℕ
  pub labor_price : F
  pub is_active : Bool

-- `InstallationQuote`; its items and lines are rows of their own tables.
pub record Quote : Type 0 where
  pub id : ℕ
  pub user_id : ℕ
  pub order_id : Option ℕ
  pub status : QuoteStatus
  pub service_city : String
  pub expires_at : ℕ

-- `InstallationQuoteItem`
pub record QuoteItem : Type 0 where
  pub id : ℕ
  pub quote_id : ℕ
  pub product_id : ℕ
  pub job_type_id : ℕ
  pub quantity : ℤ

-- `InstallationQuoteLine`
pub record QuoteLine (F : Type 0) : Type 0 where
  pub id : ℕ
  pub quote_id : ℕ
  pub mechanic_profile_id : ℕ
  pub job_type_id : ℕ
  pub labor_price : F
  pub estimated_hours : F
  pub mechanic_message : String
  pub distance_km : F
  pub status : QuoteLineStatus

-- `InstallationBooking`
pub record Booking (F : Type 0) : Type 0 where
  pub id : ℕ
  pub quote_id : ℕ
  pub quote_line_id : ℕ
  pub user_id : ℕ
  pub mechanic_profile_id : ℕ
  pub mechanic_user_id : ℕ
  pub status : BookingStatus
  pub scheduled_at : ℕ
  pub service_city : String
  pub labor_total : F
  pub parts_total : F
  pub platform_fee : F
  pub total_amount : F
  pub payment_status : PaymentStatus
  pub cancellation_reason : String

-- `BookingPayment`
pub record BookingPayment (F : Type 0) : Type 0 where
  pub id : ℕ
  pub booking_id : ℕ
  pub provider : String
  pub payment_intent_id : String
  pub paystack_refund_id : String
  pub amount : F
  pub status : PaymentStatus
