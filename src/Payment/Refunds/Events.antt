-- ===== src/Payment/Refunds/Events.antt =====
-- What Paystack's word on a refund does to an order.
use auto_store_api.Prelude.{
  ℕ, ◌≡◌, refl, ◌∙◌, ap, Bool, true, false, not, String, str_eq, starts_with, some, ok, lookup,
  lookup-upsert_self,
}
use auto_store_api.Platform.{Platform}
use auto_store_api.Platform.Sql.{get-key}
use auto_store_api.Models.Sales.{Order, PaymentStatus, is_refunded}
use auto_store_api.Models.Paystack.{RefundWebhookData}
use auto_store_api.World.{
  World, Returns, Returns-ok, pure-Returns, exec_then, skip_if_then, attempt_then, query_or_is,
  pure,
}
use auto_store_api.Order.Read.{get_order_then}
use auto_store_api.Payment.Charges.{resolve_entity, resolve_as, entity_order}
use auto_store_api.Payment.Refunds.{is_refund_terminal, handle_refund_webhook, refund_order_webhook}

contradiction : {b : Bool} → b ≡ true → b ≡ false → ⊥
contradiction h g = cc

negated : (b : Bool) → not b ≡ true → b ≡ true → ⊥
negated true h g = cc
negated false h g = cc

is_refunded-eq : (s : PaymentStatus) → is_refunded s ≡ true → s ≡ PaymentStatus.refunded
is_refunded-eq PaymentStatus.refunded h = refl
is_refunded-eq PaymentStatus.pending h = cc
is_refunded-eq PaymentStatus.paid h = cc
is_refunded-eq PaymentStatus.failed h = cc

module _ (p : Platform) where
  -- The order's row is there and says that the payment is refunded.
  abbrev pub HasRefunded : ℕ → World p → Type 0
  HasRefunded id v =
      (r : Order p.Float) × (lookup (λ r. r.id) id (p.orders.rows v.db.orders) ≡ some r)
      × (r.payment_status ≡ PaymentStatus.refunded)

  resolve_order :
      (ref : String) (o : Order p.Float) (w : World p)
      → starts_with ref "order-" ≡ true
      → p.orders.first (λ o. str_eq o.payment_reference ref) w.db.orders ≡ ok o
      → resolve_entity p ref w ≡ (ok (entity_order, o.id), w)
  unfolding resolve_entity pure
  resolve_order ref o w starts found = rw (starts, resolve_as) (query_or_is _ _ w _ o found)

  refund_order_webhook-HasRefunded :
      (id : ℕ) (refund_id : String) (w : World p)
      → Returns (λ _ v. HasRefunded id v) (refund_order_webhook p id refund_id w)
  unfolding refund_order_webhook
  refund_order_webhook-HasRefunded id refund_id w =
      get_order_then p id _ w _ λ (o, items) (found, listed).
        skip_if_then _ _ _ w (λ already. (o, p.orders.get_ok _ _ o found, is_refunded-eq _ already))
          λ _. exec_then _ _ _ _ w λ t saved. pure-Returns _ tt _ (
            _,
            ap (lookup (λ r. r.id) id) (p.orders.save_ok _ _ t saved)
                ∙ lookup-upsert_self (λ r. r.id) id _ (p.orders.rows w.db.orders)
                    (get-key p.orders _ _ o found),
            refl,
          )

  -- When `handleRefundWebhook` returns with no error for the payment of an order, and the refund's status is
  -- processed or failed, then the order's payment is stored as refunded: a refund that failed is not told from one that
  -- was made.
  pub handle_refund_webhook-HasRefunded :
      (event : RefundWebhookData) (o : Order p.Float) (w v : World p)
      → str_eq event.reference "" ≡ false
      → starts_with event.reference "order-" ≡ true
      → is_refund_terminal event.status ≡ true
      → p.orders.first (λ o. str_eq o.payment_reference event.reference) w.db.orders ≡ ok o
      → handle_refund_webhook p event w ≡ (ok tt, v)
      → HasRefunded o.id v
  unfolding handle_refund_webhook
  handle_refund_webhook-HasRefunded event o w v some_ref starts terminal found e =
      Returns-ok (λ _ v. HasRefunded o.id v) _ tt v e
        (skip_if_then _ _ _ w (λ empty. absurd (contradiction empty some_ref))
          λ _.
            skip_if_then _ _ _ w (λ open_. absurd (negated _ open_ terminal))
              λ _.
                attempt_then _ _ _ w w _ (resolve_order event.reference o w starts found)
                  (refund_order_webhook-HasRefunded o.id (p.decimal event.id) w))
