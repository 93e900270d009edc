-- ===== src/Payment/Refunds.antt =====
-- Refunds: internal/services/payment_refund.go.

pub mod Once
pub mod Events
use auto_store_api.Prelude.{
  ⊤, ℕ, ℤ, Bool, true, false, Option, none, some, String, if◌then◌else◌, str_eq, not, ◌==◌, ◌&&◌,
  ◌||◌, to_option, text_append,
}
use auto_store_api.Platform.{Platform}
use auto_store_api.Models.Sales.{
  Order, OrderStatus, PaymentStatus, is_refunded, is_paid, is_shipped, is_delivered,
}
use auto_store_api.Models.Installation.{Booking, BookingPayment, is_completed}
use auto_store_api.Models.Paystack.{PaystackConfig, RefundParams, RefundData, RefundWebhookData}
use auto_store_api.World.{
  M, ◌>>=◌, ◌>>◌, pure, query, exec, raise_if, or_raise, on_missing, attempt, transaction, lift,
  skip_if, message, order_not_found, booking_not_found, payment_not_refundable,
}
use auto_store_api.Order.{get_order, put_orders}
use auto_store_api.Payment.Money.{refund_amount_minor, validate_refundable}
use auto_store_api.Payment.Client.{create_refund}
use auto_store_api.Payment.Charges.{
  require_client, put_bookings, put_payments, resolve_entity, entity_order, entity_booking,
}

-- `RefundInput`
pub record RefundInput (F : Type 0) : Type 0 where
  pub customer_note : String
  pub merchant_note : String
  pub amount : Option F

-- `RefundResult`
pub record RefundResult : Type 0 where
  pub paystack_refund_id : ℤ
  pub status : String
  pub amount : ℤ
  pub currency : String
  pub transaction_reference : String
  pub entity_type : String
  pub entity_id : ℕ

abbrev pub refund_params : {F : Type 0} → PaystackConfig → String → ℤ → RefundInput F → RefundParams
refund_params cfg reference amount_minor input = record {
  transaction = reference;
  amount = amount_minor;
  currency = cfg.currency;
  customer_note = input.customer_note;
  merchant_note = input.merchant_note;
}

abbrev pub refund_result : PaystackConfig → String → String → ℕ → RefundData → RefundResult
refund_result cfg reference entity_type id r = record {
  paystack_refund_id = r.id;
  status = r.status;
  amount = r.amount;
  currency = cfg.currency;
  transaction_reference = reference;
  entity_type = entity_type;
  entity_id = id;
}

module _ {F : Type 0} where
  -- The order that `markOrderRefunded` saves: it is cancelled, whatever its status was.
  abbrev pub refunded_order : String → Order F → Order F
  refunded_order refund_id order = record order {
    payment_status = PaymentStatus.refunded;
    paystack_refund_id = refund_id;
    status = OrderStatus.cancelled;
  }

  abbrev pub refunded_booking : Booking F → Booking F
  refunded_booking booking = record booking { payment_status = PaymentStatus.refunded }

  abbrev pub refunded_payment : String → BookingPayment F → BookingPayment F
  refunded_payment refund_id r = record r {
    status = PaymentStatus.refunded;
    paystack_refund_id = refund_id;
  }

module _ (p : Platform) where
  -- `markOrderRefunded`
  unfoldable pub mark_order_refunded : ℕ → RefundData → M p ⊤
  mark_order_refunded order_id resp = do
    loaded ← get_order p order_id
    exec p (λ d. p.orders.save (refunded_order (p.decimal resp.id) (loaded.0)) d.orders)
        (put_orders p)
    pure tt

  -- `markBookingRefunded`
  unfoldable pub mark_booking_refunded : ℕ → RefundData → M p ⊤
  mark_booking_refunded booking_id resp = do
    booking ← query p (λ d. p.bookings.get booking_id d.bookings)
    transaction (do
      exec p (λ d. p.bookings.save (refunded_booking booking) d.bookings) (put_bookings p)
      exec p
          (λ d.
            p.payments.update (λ r. r.booking_id == booking_id)
              (refunded_payment (p.decimal resp.id)) d.payments)
          (put_payments p)
      pure tt)

  -- `refundOrder`
  unfoldable pub refund_loaded_order :
      PaystackConfig → Order p.Float → RefundInput p.Float → M p RefundResult
  unfolding mark_order_refunded
  refund_loaded_order cfg order input = do
    _ ← lift p (
        validate_refundable order.payment_status order.payment_method order.payment_reference
          order.paystack_refund_id)
    raise_if p (is_shipped order.status || is_delivered order.status)
        (message "cannot refund shipped or delivered orders")
    amount_minor ← lift p (refund_amount_minor p order.total input.amount cfg.currency)
    resp ← create_refund p (refund_params cfg order.payment_reference amount_minor input)
    _ ← mark_order_refunded order.id resp
    pure (refund_result cfg order.payment_reference entity_order order.id resp)

  -- `RefundOrder`
  unfoldable pub refund_order :
      PaystackConfig → ℕ → ℕ → Bool → RefundInput p.Float → M p RefundResult
  unfolding refund_loaded_order
  refund_order cfg requester_id order_id as_admin input = do
    require_client p cfg
    loaded ← or_raise (get_order p order_id) order_not_found
    raise_if p (not as_admin && not ((loaded.0).user_id == requester_id)) order_not_found
    refund_loaded_order cfg (loaded.0) input

  -- `refundBooking`, with `getBookingPayment`
  unfoldable pub refund_loaded_booking :
      PaystackConfig → Booking p.Float → RefundInput p.Float → M p RefundResult
  unfolding mark_booking_refunded
  refund_loaded_booking cfg booking input = do
    raise_if p (is_completed booking.status) (message "cannot refund completed bookings")
    payment ←
        on_missing (query p (λ d. p.payments.first (λ r. r.booking_id == booking.id) d.payments))
          payment_not_refundable
    _ ← lift p (
        validate_refundable payment.status payment.provider payment.payment_intent_id
          payment.paystack_refund_id)
    amount_minor ← lift p (refund_amount_minor p booking.total_amount input.amount cfg.currency)
    resp ← create_refund p (refund_params cfg payment.payment_intent_id amount_minor input)
    _ ← mark_booking_refunded booking.id resp
    pure (refund_result cfg payment.payment_intent_id entity_booking booking.id resp)

  -- `RefundBooking`
  unfoldable pub refund_booking :
      PaystackConfig → ℕ → ℕ → Bool → RefundInput p.Float → M p RefundResult
  unfolding refund_loaded_booking
  refund_booking cfg requester_id booking_id as_admin input = do
    require_client p cfg
    booking ←
        or_raise
          (query p (λ d.
            if as_admin
            then p.bookings.get booking_id d.bookings
            else p.bookings.first (λ b. b.id == booking_id && b.user_id == requester_id)
                d.bookings))
          booking_not_found
    refund_loaded_booking cfg booking input

  -- `RefundBookingOnCancel`
  unfoldable pub refund_booking_on_cancel : PaystackConfig → Booking p.Float → String → M p ⊤
  unfolding refund_loaded_booking
  refund_booking_on_cancel cfg booking reason = skip_if p (not (is_paid booking.payment_status)) (
      skip_if p (not cfg.enabled) (do
        _ ← refund_loaded_booking cfg booking (record {
          customer_note = reason;
          merchant_note =
              text_append "Booking " (text_append (p.uuid_text booking.id) " cancelled");
          amount = none;
        })
        pure tt))

-- `isRefundTerminal`
unfoldable pub is_refund_terminal : String → Bool
is_refund_terminal status = str_eq status "processed" || str_eq status "failed"

module _ (p : Platform) where
  -- The branches of `handleRefundWebhook` on the kind of the entity.
  refund_order_webhook : ℕ → String → M p ⊤
  refund_order_webhook id refund_id = do
    loaded ← get_order p id
    skip_if p (is_refunded (loaded.0).payment_status) (do
      exec p
          (λ d.
            p.orders.save
              (record (loaded.0) {
                payment_status = PaymentStatus.refunded;
                paystack_refund_id = refund_id;
              })
              d.orders)
          (put_orders p)
      pure tt)

  refund_booking_webhook : ℕ → String → M p ⊤
  refund_booking_webhook id refund_id = transaction (do
    exec p (λ d. p.bookings.update (λ b. b.id == id) refunded_booking d.bookings) (put_bookings p)
    exec p
        (λ d. p.payments.update (λ r. r.booking_id == id) (refunded_payment refund_id) d.payments)
        (put_payments p)
    pure tt)

  refund_webhook_as : Bool → Bool → ℕ → String → M p ⊤
  refund_webhook_as true _ id refund_id = refund_order_webhook id refund_id
  refund_webhook_as false true id refund_id = refund_booking_webhook id refund_id
  refund_webhook_as false false id refund_id = pure tt

  -- A reference that is not known is only logged.
  settle_refund : String → Option (String × ℕ) → M p ⊤
  settle_refund refund_id none = pure tt
  settle_refund refund_id (some (entity_type, id)) =
      refund_webhook_as (str_eq entity_type entity_order) (str_eq entity_type entity_booking) id
        refund_id

  -- `handleRefundWebhook`
  unfoldable pub handle_refund_webhook : RefundWebhookData → M p ⊤
  unfolding refund_order_webhook refund_booking_webhook refund_webhook_as settle_refund
  handle_refund_webhook event = skip_if p (str_eq event.reference "") (
      skip_if p (not (is_refund_terminal event.status)) (do
        entity ← attempt (resolve_entity p event.reference)
        settle_refund (p.decimal event.id) (to_option entity)))
