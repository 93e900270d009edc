-- ===== src/Tests/Payments.antt =====
-- Payments and refunds, on the shop in memory.
use auto_store_api.Prelude.{inr, eq_iff, ℤ, pos, ◌≡◌, ◌≢◌, refl, some, none, ok, true, false}
use auto_store_api.World.{
  World, ◌>>=◌, ◌>>◌, pure, or_raise, query, exec, raise_if, lift, skip_if, send_refund,
}
use auto_store_api.Order.{get_order}
use auto_store_api.Payment.Money.{to_minor_units, validate_refundable, refund_amount_minor}
use auto_store_api.Payment.Client.{create_refund}
use auto_store_api.Payment.Webhook.{handle_webhook}
use auto_store_api.Payment.Webhook.Signed.{handle_webhook_unsigned}
use auto_store_api.Payment.Charges.{mark_order_paid}
use auto_store_api.Payment.Charges.Paid.{Paid, mark_order_paid-Paid, mark_order_paid_once}
use auto_store_api.Payment.Refunds.{RefundInput, RefundResult, refund_order}
use auto_store_api.Payment.Refunds.Once.{refund_order_once}
use auto_store_api.Memory.{memory_platform}
use auto_store_api.Models.Installation.{Booking, BookingStatus}
use auto_store_api.Models.Sales.{PaymentStatus}
use auto_store_api.Payment.Initialize.{SplitParams, booking_split_params}
use auto_store_api.Payment.Initialize.Split.{Within, booking_split_params-Within}
use auto_store_api.Models.Paystack.{RefundWebhookData}
use auto_store_api.World.{attempt}
use auto_store_api.Models.Sales.{OrderStatus}
use auto_store_api.Payment.Charges.{resolve_entity}
use auto_store_api.Payment.Refunds.{is_refund_terminal, handle_refund_webhook}
use auto_store_api.Payment.Refunds.Events.{HasRefunded, handle_refund_webhook-HasRefunded}
use auto_store_api.Tests.Shop.{order, shop_orders, garage, paid_visit, settings}

abbrev after_payment : World memory_platform
after_payment = (mark_order_paid memory_platform settings 30 "order-30" (pos 3) shop_orders).1

paid-run :
    mark_order_paid memory_platform settings 30 "order-30" (pos 3) shop_orders
    ≡ (ok tt, after_payment)
unfolding mark_order_paid ◌>>=◌ ◌>>◌ pure or_raise query exec lift skip_if to_minor_units get_order
paid-run = refl

mark_order_paid-Paid_example : Paid memory_platform settings 30 "order-30" shop_orders after_payment
mark_order_paid-Paid_example =
    mark_order_paid-Paid memory_platform settings 30 "order-30" (pos 3) shop_orders after_payment
      paid-run

mark_order_paid_once_example :
    (mark_order_paid memory_platform settings 30 "order-31" (pos 900) after_payment).1
    ≡ after_payment
mark_order_paid_once_example =
    mark_order_paid_once memory_platform settings 30 "order-30" "order-31" (pos 3) (pos 900)
      shop_orders after_payment paid-run

abbrev whole : RefundInput ℤ
whole = record { customer_note = "late"; merchant_note = ""; amount = none }

abbrev part : RefundInput ℤ
part = record { customer_note = ""; merchant_note = ""; amount = some (pos 2) }

abbrev after_refund : World memory_platform
after_refund = (refund_order memory_platform settings 7 31 false whole shop_orders).1

abbrev refund : RefundResult
refund = record {
  paystack_refund_id = pos 7;
  status = "pending";
  amount = pos 100;
  currency = "NGN";
  transaction_reference = "order-31";
  entity_type = "order";
  entity_id = 31;
}

refund-run :
    refund_order memory_platform settings 7 31 false whole shop_orders ≡ (ok refund, after_refund)
unfolding refund_order ◌>>=◌ ◌>>◌ pure or_raise query exec raise_if lift send_refund get_order
    create_refund validate_refundable refund_amount_minor
refund-run = refl

refund_order_once_example :
    ((r : RefundResult)
      → (refund_order memory_platform settings 9 31 true part after_refund).0 ≢ ok r)
    × ((refund_order memory_platform settings 9 31 true part after_refund).1 ≡ after_refund)
refund_order_once_example =
    refund_order_once memory_platform settings 7 9 31 false true whole part shop_orders after_refund
      refund refund-run

forged : memory_platform.hmac_hex settings.webhook_secret "charge.success" ≢ "forged"
forged e = let same : false ≡ true = (eq_iff settings.webhook_secret "forged").1 e in absurd cc

handle_webhook_unsigned_example :
    ((handle_webhook memory_platform settings "charge.success" "forged" shop_orders).0 ≢ ok tt)
    × ((handle_webhook memory_platform settings "charge.success" "forged" shop_orders).1
        ≡ shop_orders)
handle_webhook_unsigned_example =
    handle_webhook_unsigned memory_platform settings "charge.success" "forged" shop_orders
      (inr (inr forged))

abbrev priced_visit : Booking ℤ
priced_visit = record paid_visit {
  status = BookingStatus.pending_payment;
  payment_status = PaymentStatus.pending;
}

abbrev split : SplitParams
split = record { subaccount = "ACCT_1"; transaction_charge = pos 500 }

split-run :
    booking_split_params memory_platform settings priced_visit garage ≡ (ok (some split), garage)
unfolding booking_split_params ◌>>=◌ ◌>>◌ pure or_raise query raise_if lift to_minor_units
split-run = refl

booking_split_params-Within_example :
    Within memory_platform settings priced_visit garage (some split) garage
booking_split_params-Within_example =
    booking_split_params-Within memory_platform settings priced_visit garage garage (some split)
      split-run

abbrev failed_refund : RefundWebhookData
failed_refund = record { id = pos 7; status = "failed"; reference = "order-31" }

abbrev after_failed_refund : World memory_platform
after_failed_refund = (handle_refund_webhook memory_platform failed_refund shop_orders).1

failed_refund-run :
    handle_refund_webhook memory_platform failed_refund shop_orders ≡ (ok tt, after_failed_refund)
unfolding handle_refund_webhook ◌>>=◌ ◌>>◌ pure or_raise attempt query exec skip_if get_order
    resolve_entity is_refund_terminal
failed_refund-run = refl

handle_refund_webhook-HasRefunded_example : HasRefunded memory_platform 31 after_failed_refund
unfolding is_refund_terminal
handle_refund_webhook-HasRefunded_example =
    handle_refund_webhook-HasRefunded memory_platform failed_refund
      (order 31 OrderStatus.confirmed PaymentStatus.paid "order-31") shop_orders after_failed_refund
      refl refl refl refl failed_refund-run
