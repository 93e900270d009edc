-- ===== src/Order/Cancel.antt =====
-- What `Cancel` has done when it returns.
use auto_store_api.Prelude.{
  ℕ, ◌≡◌, refl, ◌∙◌, ap, List, [], ◌∷◌, true, some, ok, of_not, ◌==◌, ==→eq, select, lookup, upsert,
  All, All-select, All-Perm, InInt64, InInt64-prop, arith,
}
use auto_store_api.Platform.{Platform}
use auto_store_api.Models.Sales.{Order, OrderItem, OrderStatus, StockMovementReason, is_pending}
use auto_store_api.World.{
  Db, World, Returns, Returns-ok, Returns-mono, pure-Returns, raise_if_then, exec_then, call_then,
  transaction-Returns,
}
use auto_store_api.Inventory.Adjust.{adjust_stock_tx-Adjusted}
use auto_store_api.Inventory.Exact.{IsStocked, Adjusted-IsStocked}
use auto_store_api.Order.{restock, cancel}
use auto_store_api.Order.Read.{get_order_then}
use auto_store_api.Order.Demand.{Gave, Gave-nil, Gave-cons, demand-Perm, plus}
use auto_store_api.Inventory.Stock.{stock}

is_pending-eq : (s : OrderStatus) → is_pending s ≡ true → s ≡ OrderStatus.pending
is_pending-eq s h = ground arith

module _ (p : Platform) where
  -- The items have been given back, and the orders are as they were.
  abbrev Restocked : List (OrderItem p.Float) → Db p → Db p → Type 0
  Restocked items d e =
      Gave p (λ i. i.product_id) (λ i. i.quantity) items d e
      × IsStocked p e
      × (e.orders ≡ d.orders)
      × (e.order_items ≡ d.order_items)

  restock-Restocked :
      (id : ℕ) (items : List (OrderItem p.Float)) (w : World p)
      → IsStocked p w.db
      → All (λ i. InInt64 i.quantity) items
      → Returns (λ _ v. Restocked items w.db v.db) (restock p id items w)
  unfolding restock
  restock-Restocked id [] w h hq =
      pure-Returns _ _ w (
        Gave-nil p {A = OrderItem p.Float} (λ i. i.product_id) (λ i. i.quantity) w.db,
        h,
        refl,
        refl,
      )
  restock-Restocked id (i ∷ items) w h hq =
      call_then _ _ _ _ _ (adjust_stock_tx-Adjusted p _ _) λ r m adjusted.
        Returns-mono _ _ _
          (λ _ v (gave, stocked, orders, stored). (
            Gave-cons p (λ i. i.product_id) (λ i. i.quantity) i items StockMovementReason.cancel id
                w.db m.db v.db r h hq.0 adjusted gave,
            stocked,
            orders ∙ ap (λ (d : Db p). d.orders) adjusted.elsewhere,
            stored ∙ ap (λ (d : Db p). d.order_items) adjusted.elsewhere,
          ))
          (restock-Restocked id items m (Adjusted-IsStocked p _ _ _ r h adjusted) hq.1)

  -- What `Cancel` has done: the order was a pending one of the user; it is stored as cancelled and
  -- no other order has changed; and each level has risen by what the order's items have of the product.
  pub record Cancelled (id user_id : ℕ) (d e : Db p) : Type 0 where
    pub order : Order p.Float
    pub was : lookup (λ o. o.id) id (p.orders.rows d.orders) ≡ some order
    pub of_user : order.user_id ≡ user_id
    pub was_pending : order.status ≡ OrderStatus.pending
    pub stored :
        p.orders.rows e.orders
        ≡ upsert
            (λ o. o.id)
            (record order { status = OrderStatus.cancelled })
            (p.orders.rows d.orders)
    pub gave :
        Gave p
          (λ i. i.product_id)
          (λ i. i.quantity)
          (select (λ i. i.order_id == id) (p.order_items.rows d.order_items))
          d
          e
    pub stocked : IsStocked p e

  -- When `Cancel` returns with no error, from levels that are values of `int` and not negative and
  -- items with quantities of `int`: the order was a pending one of the user, it is now stored as
  -- cancelled and no other row of the orders has changed, and each stock level has risen by exactly
  -- what the order's items have of the product, with no wrap-around.
  pub cancel-Cancelled :
      (id user_id : ℕ) (w v : World p)
      → IsStocked p w.db
      → All (λ i. InInt64 i.quantity) (p.order_items.rows w.db.order_items)
      → cancel p id user_id w ≡ (ok tt, v)
      → Cancelled id user_id w.db v.db
  unfolding cancel
  cancel-Cancelled id user_id w v h hq e =
      Returns-ok (λ _ v. Cancelled id user_id w.db v.db) _ tt v e
        (get_order_then p id _ w _ λ (o, items) (found, listed). raise_if_then _ _ _ _ w λ own.
          raise_if_then _ _ _ _ w λ open_.
            transaction-Returns (λ _ v. Cancelled id user_id w.db v.db) _ w
              (exec_then _ _ _ _ _ λ t saved.
                Returns-mono _ _ _
                  (λ _ v (gave, stocked, orders, stored). record {
                    order = o;
                    was = p.orders.get_ok _ _ o found;
                    of_user = ==→eq _ _ (of_not _ own);
                    was_pending = is_pending-eq o.status (of_not _ open_);
                    stored = ap p.orders.rows orders ∙ p.orders.save_ok _ _ t saved;
                    gave = λ k.
                        gave k
                        ∙ ap (λ z. plus z (stock p k w.db))
                            (demand-Perm _ _ k (p.order_items.find_ok _ _ items listed));
                    stocked = record { levels = stocked.levels };
                  })
                  (restock-Restocked _ items _ (record { levels = h.levels })
                    (All-Perm _ (λ i. InInt64-prop i.quantity)
                      (p.order_items.find_ok _ _ items listed) (All-select _ _ _ hq)))))
