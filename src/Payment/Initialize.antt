-- ===== src/Payment/Initialize.antt =====
-- The start of a payment: `InitializeOrderPayment`, `InitializeBookingPayment`, `bookingSplitParams` and
-- `initialize`.
pub mod Split
use auto_store_api.Prelude.{
  ⊤, ℕ, ℤ, pos, Bool, true, false, Option, none, some, String, str_eq, not, ◌==◌, ◌&&◌, leb_ℤ,
  text_append, if◌then◌else◌,
}
use auto_store_api.Platform.{Platform}
use auto_store_api.Models.Sales.{Order, is_unpaid, is_cancelled}
use auto_store_api.Models.Installation.{Booking, BookingPayment, is_pending_payment}
use auto_store_api.Models.Paystack.{PaystackConfig, Metadata, InitializeParams, InitializeData}
use auto_store_api.World.{
  M, ◌>>=◌, ◌>>◌, pure, raise, query, exec, raise_if, or_raise, fresh, lift, message,
  order_not_found, booking_not_found, payment_not_pending, booking_split_invalid,
  mechanic_payout_not_configured,
}
use auto_store_api.Order.{get_order, put_orders}
use auto_store_api.Payment.Money.{to_minor_units}
use auto_store_api.Payment.Client.{initialize_transaction}
use auto_store_api.Payment.Charges.{require_client, put_payments, entity_order, entity_booking}

-- The fields of `InitializeParams` that `bookingSplitParams` sets.
pub record SplitParams : Type 0 where
  pub subaccount : String
  pub transaction_charge : ℤ

-- `PaymentInitializeResult`
pub record PaymentInitializeResult : Type 0 where
  pub authorization_url : String
  pub access_code : String
  pub reference : String
  pub public_key : String
  pub amount : ℤ
  pub currency : String

module _ (p : Platform) where
  -- `bookingSplitParams`, on whether the mechanic has no subaccount and whether one is required.
  split_with : Bool → Bool → PaystackConfig → Booking p.Float → String → M p (Option SplitParams)
  split_with true true cfg booking code = raise mechanic_payout_not_configured
  split_with true false cfg booking code = pure none
  split_with false _ cfg booking code = do
    platform_minor ← lift p (to_minor_units p booking.platform_fee cfg.currency)
    total_minor ← lift p (to_minor_units p booking.total_amount cfg.currency)
    raise_if p (leb_ℤ total_minor platform_minor) booking_split_invalid
    pure (some (record { subaccount = code; transaction_charge = platform_minor }))

  split_if : Bool → PaystackConfig → Booking p.Float → M p (Option SplitParams)
  split_if false cfg booking = pure none
  split_if true cfg booking = do
    profile ←
        or_raise (query p (λ d. p.profiles.get booking.mechanic_profile_id d.profiles))
          booking_not_found
    split_with (str_eq profile.paystack_subaccount_code "") cfg.require_split cfg booking
        profile.paystack_subaccount_code

  unfoldable pub booking_split_params : PaystackConfig → Booking p.Float → M p (Option SplitParams)
  unfolding split_if split_with
  booking_split_params cfg booking = split_if cfg.split_enabled cfg booking

  -- The metadata and the split of a request.
  abbrev pub initialize_params :
      PaystackConfig → String → ℤ → String → Metadata → Option SplitParams → InitializeParams
  initialize_params cfg email amount ref meta none = record {
    email = email;
    amount = amount;
    currency = cfg.currency;
    reference = ref;
    callback_url = cfg.callback_url;
    metadata = meta;
    subaccount = "";
    transaction_charge = pos 0;
    bearer = "";
  }
  initialize_params cfg email amount ref meta (some split) = record {
    email = email;
    amount = amount;
    currency = cfg.currency;
    reference = ref;
    callback_url = cfg.callback_url;
    metadata = record meta {
      split = if str_eq split.subaccount "" then none else some "mechanic_subaccount";
      platform_fee_minor =
          if str_eq split.subaccount "" then none else some (p.decimal split.transaction_charge);
    };
    subaccount = split.subaccount;
    transaction_charge = split.transaction_charge;
    bearer = "";
  }

  abbrev pub initialize_result : PaystackConfig → ℤ → InitializeData → PaymentInitializeResult
  initialize_result cfg amount_minor r = record {
    authorization_url = r.authorization_url;
    access_code = r.access_code;
    reference = r.reference;
    public_key = cfg.public_key;
    amount = amount_minor;
    currency = cfg.currency;
  }

  -- `initialize`
  unfoldable pub initialize :
      PaystackConfig
      → ℕ
      → String
      → ℕ
      → p.Float
      → Option SplitParams
      → (String → M p ⊤)
      → M p PaymentInitializeResult
  initialize cfg user_id entity_type entity_id amount split persist_ref = do
    user ← or_raise (query p (λ d. p.users.get user_id d.users)) (message "user not found")
    amount_minor ← lift p (to_minor_units p amount cfg.currency)
    drawn ← fresh p
    let ref =
        text_append entity_type
          (text_append "-" (text_append (p.short entity_id) (text_append "-" (p.short drawn))))
    let meta : Metadata = record {
      entity_type = entity_type;
      entity_id = p.uuid_text entity_id;
      user_id = p.uuid_text user_id;
      split = none;
      platform_fee_minor = none;
    }
    resp ← initialize_transaction p (initialize_params cfg user.email amount_minor ref meta split)
    _ ← persist_ref ref
    pure (initialize_result cfg amount_minor resp)

  -- What `InitializeOrderPayment` writes once Paystack has answered.
  abbrev pub referenced_order : Order p.Float → String → Order p.Float
  referenced_order order ref = record order { payment_method = "paystack"; payment_reference = ref }

  unfoldable pub persist_order : Order p.Float → String → M p ⊤
  persist_order order ref = do
    exec p (λ d. p.orders.save (referenced_order order ref) d.orders) (put_orders p)
    pure tt

  -- `InitializeOrderPayment`
  unfoldable pub initialize_order_payment : PaystackConfig → ℕ → ℕ → M p PaymentInitializeResult
  unfolding initialize persist_order
  initialize_order_payment cfg user_id order_id = do
    require_client p cfg
    loaded ← or_raise (get_order p order_id) order_not_found
    raise_if p (not (loaded.0.user_id == user_id)) order_not_found
    raise_if p (not (is_unpaid loaded.0.payment_status)) payment_not_pending
    raise_if p (is_cancelled loaded.0.status) (message "order is cancelled")
    initialize cfg user_id entity_order order_id loaded.0.total none (persist_order loaded.0)

  unfoldable pub persist_booking : ℕ → String → M p ⊤
  persist_booking booking_id ref = do
    exec p
        (λ d.
          p.payments.update (λ r. r.booking_id == booking_id)
            (λ r. record r { provider = "paystack"; payment_intent_id = ref }) d.payments)
        (put_payments p)
    pure tt

  -- `InitializeBookingPayment`
  unfoldable pub initialize_booking_payment : PaystackConfig → ℕ → ℕ → M p PaymentInitializeResult
  unfolding initialize persist_booking booking_split_params
  initialize_booking_payment cfg user_id booking_id = do
    require_client p cfg
    booking ←
        or_raise
          (query p
            (λ d. p.bookings.first (λ b. b.id == booking_id && b.user_id == user_id) d.bookings))
          booking_not_found
    raise_if p (not (is_unpaid booking.payment_status)) payment_not_pending
    raise_if p (not (is_pending_payment booking.status)) (message "booking is not awaiting payment")
    split ← booking_split_params cfg booking
    initialize cfg user_id entity_booking booking_id booking.total_amount split
        (persist_booking booking_id)
