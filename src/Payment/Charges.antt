-- ===== src/Payment/Charges.antt =====
-- Payments that have been made: `markOrderPaid`, `markBookingPaid`, `resolveEntityFromReference` and
-- `VerifyPayment`.

pub mod Paid
use auto_store_api.Prelude.{
  ⊤, ℕ, ℤ, Bool, true, false, none, some, Option, String, if◌then◌else◌, str_eq, not, ◌==◌, ◌||◌,
  starts_with, text_append,
}
use auto_store_api.Platform.{Platform}
use auto_store_api.Models.Sales.{Order, OrderStatus, PaymentStatus, is_paid, is_pending}
use auto_store_api.Models.Installation.{Booking, BookingPayment, BookingStatus, is_pending_payment}
use auto_store_api.Models.Paystack.{PaystackConfig}
use auto_store_api.World.{
  Db, M, ◌>>=◌, ◌>>◌, pure, raise, query, exec, raise_if, or_raise, transaction, lift, skip_if,
  message, order_not_found, booking_not_found, payment_reference_unknown, paystack_not_configured,
}
use auto_store_api.Order.{get_order, put_orders}
use auto_store_api.Payment.Money.{to_minor_units}
use auto_store_api.Payment.Client.{verify}

-- `paymentEntityOrder`, `paymentEntityBooking`
abbrev pub entity_order : String
entity_order = "order"

abbrev pub entity_booking : String
entity_booking = "booking"

module _ {F : Type 0} where
  -- The order and the booking that are saved as paid.
  abbrev pub paid_order : Order F → String → Order F
  paid_order order reference = record order {
    payment_status = PaymentStatus.paid;
    payment_reference = reference;
    payment_method = "paystack";
    status = if is_pending order.status then OrderStatus.confirmed else order.status;
  }

  abbrev pub paid_booking : Booking F → Booking F
  paid_booking booking = record booking {
    payment_status = PaymentStatus.paid;
    status = if is_pending_payment booking.status then BookingStatus.confirmed else booking.status;
  }

  abbrev pub paid_payment : String → BookingPayment F → BookingPayment F
  paid_payment reference r = record r {
    provider = "paystack";
    payment_intent_id = reference;
    status = PaymentStatus.paid;
  }

module _ (p : Platform) where
  abbrev pub put_bookings : p.bookings.Rows → Db p → Db p
  put_bookings t d = record d { bookings = t }

  abbrev pub put_payments : p.payments.Rows → Db p → Db p
  put_payments t d = record d { payments = t }

  -- `markOrderPaid`; an amount that is not the expected one is only logged.
  unfoldable pub mark_order_paid : PaystackConfig → ℕ → String → ℤ → M p ⊤
  mark_order_paid cfg order_id reference paid_minor = do
    loaded ← or_raise (get_order p order_id) order_not_found
    skip_if p (is_paid (loaded.0).payment_status) (do
      expected ← lift p (to_minor_units p (loaded.0).total cfg.currency)
      exec p (λ d. p.orders.save (paid_order (loaded.0) reference) d.orders) (put_orders p)
      pure tt)

  -- `markBookingPaid`
  unfoldable pub mark_booking_paid : PaystackConfig → ℕ → String → ℤ → M p ⊤
  mark_booking_paid cfg booking_id reference paid_minor = do
    booking ← or_raise (query p (λ d. p.bookings.get booking_id d.bookings)) booking_not_found
    skip_if p (is_paid booking.payment_status) (do
      expected ← lift p (to_minor_units p booking.total_amount cfg.currency)
      transaction (do
        exec p (λ d. p.bookings.save (paid_booking booking) d.bookings) put_bookings
        exec p
            (λ d.
              p.payments.update (λ r. r.booking_id == booking_id) (paid_payment reference)
                d.payments)
            put_payments
        pure tt))

  -- `markPaid`, on whether the entity is an order and whether it is a booking.
  mark_paid_as : Bool → Bool → PaystackConfig → String → ℕ → String → ℤ → M p ⊤
  mark_paid_as true _ cfg entity_type id reference paid = mark_order_paid cfg id reference paid
  mark_paid_as false true cfg entity_type id reference paid =
      mark_booking_paid cfg id reference paid
  mark_paid_as false false cfg entity_type id reference paid =
      raise (message (text_append "unknown entity type: " entity_type))

  unfoldable pub mark_paid : PaystackConfig → String → ℕ → String → ℤ → M p ⊤
  unfolding mark_paid_as
  mark_paid cfg entity_type =
      mark_paid_as (str_eq entity_type entity_order) (str_eq entity_type entity_booking) cfg
        entity_type

  -- `resolveEntityFromReference`, on whether the reference starts like an order's or a booking's.
  pub resolve_as : Bool → Bool → String → M p (String × ℕ)
  resolve_as true _ ref = do
    order ←
        or_raise (query p (λ d. p.orders.first (λ o. str_eq o.payment_reference ref) d.orders))
          payment_reference_unknown
    pure (entity_order, order.id)
  resolve_as false true ref = do
    payment ←
        or_raise (query p (λ d. p.payments.first (λ r. str_eq r.payment_intent_id ref) d.payments))
          payment_reference_unknown
    booking ←
        or_raise (query p (λ d. p.bookings.get payment.booking_id d.bookings))
          payment_reference_unknown
    pure (entity_booking, booking.id)
  resolve_as false false ref = raise payment_reference_unknown

  unfoldable pub resolve_entity : String → M p (String × ℕ)
  unfolding resolve_as
  resolve_entity ref = resolve_as (starts_with ref "order-") (starts_with ref "booking-") ref

  -- The entity of a charge: from its metadata, or else from its reference.
  charge_entity_of : Bool → Option ℕ → String → String → M p (String × ℕ)
  charge_entity_of true _ entity_type reference = resolve_entity reference
  charge_entity_of false (some id) entity_type reference = pure (entity_type, id)
  charge_entity_of false none entity_type reference = raise (message "invalid UUID")

  unfoldable pub charge_entity : String → String → String → M p (String × ℕ)
  unfolding charge_entity_of
  charge_entity entity_type entity_id reference =
      charge_entity_of (str_eq entity_type "" || str_eq entity_id "") (p.parse_uuid entity_id)
        entity_type reference

  abbrev pub require_client : PaystackConfig → M p ⊤
  require_client cfg = raise_if p (not cfg.enabled) paystack_not_configured

  -- `VerifyPayment`
  unfoldable pub verify_payment : PaystackConfig → String → M p (String × ℕ)
  verify_payment cfg reference = do
    require_client cfg
    raise_if p (str_eq reference "") (message "reference is required")
    charge ← verify p reference
    raise_if p (not (p.equal_fold charge.status "success")) (message "payment not successful")
    entity ← charge_entity charge.entity_type charge.entity_id reference
    _ ← mark_paid cfg (entity.0) (entity.1) reference charge.amount
    pure entity
