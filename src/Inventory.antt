-- ===== src/Inventory.antt =====
-- Stock levels and their history: internal/services/inventory_service.go, with the low-stock alerts.
pub mod Stock
pub mod Adjust
pub mod Exact
pub mod Alerts
pub mod Settings
use auto_store_api.Prelude.{
  ℕ, ℤ, pos, Bool, true, false, Option, String, ltb_ℤ, leb_ℤ, add_int64, ◌==◌, if◌then◌else◌, ⊤,
}
use auto_store_api.Platform.{Platform}
use auto_store_api.Models.Sales.{Product, StockMovement, StockMovementReason}
use auto_store_api.World.{
  Db, M, low_stock, ◌>>=◌, ◌>>◌, pure, query, exec, raise_if, or_raise, fresh, notify, transaction,
  inventory_product_not_found, invalid_stock_delta,
}

-- `AdjustStockInput`
pub record AdjustStockInput : Type 0 where
  pub product_id : ℕ
  pub delta : ℤ
  pub reason : StockMovementReason
  pub reference_id : Option ℕ
  pub performed_by : Option ℕ
  pub notes : String

abbrev pub default_low_stock_threshold : ℤ
default_low_stock_threshold = pos 5

-- A threshold that is not positive stands for the default.
abbrev pub effective_threshold : ℤ → ℤ
effective_threshold t = if leb_ℤ t (pos 0) then default_low_stock_threshold else t

-- The `StockMovement` that `adjustStockTx` creates.
abbrev pub movement_of : AdjustStockInput → ℕ → ℕ → ℤ → StockMovement
movement_of input id product_id new_qty = record {
  id = id;
  product_id = product_id;
  delta = input.delta;
  quantity_after = new_qty;
  reason = input.reason;
  reference_id = input.reference_id;
  performed_by = input.performed_by;
  notes = input.notes;
}

module _ (p : Platform) where
  abbrev put_products : p.products.Rows → Db p → Db p
  put_products t d = record d { products = t }

  abbrev put_movements : p.movements.Rows → Db p → Db p
  put_movements t d = record d { movements = t }

  -- `UPDATE products SET … WHERE id = ?`
  abbrev update_product : ℕ → (Product p.Float → Product p.Float) → M p ⊤
  update_product id f = exec p (λ d. p.products.update (λ r. r.id == id) f d.products) put_products

  -- `product.LowStockAlertCycle++` and the alert.
  raise_alert : Product p.Float → M p (Product p.Float)
  raise_alert product =
      let cycle = add_int64 product.low_stock_alert_cycle (pos 1) in
      let alerted : Product p.Float = record product {
        low_stock_notified = true;
        low_stock_alert_cycle = cycle;
      } in
      do
        update_product product.id
            (λ r. record r { low_stock_notified = true; low_stock_alert_cycle = cycle })
        notify p (low_stock product.id cycle)
        pure alerted

  clear_alert : Product p.Float → M p (Product p.Float)
  clear_alert product = do
    update_product product.id (λ r. record r { low_stock_notified = false })
    pure (record product { low_stock_notified = false })

  -- The branches of `handleThreshold`: is the stock low, and has that been notified?
  settle_alert : Bool → Bool → Product p.Float → M p (Product p.Float)
  settle_alert true true product = pure product
  settle_alert true false product = raise_alert product
  settle_alert false true product = clear_alert product
  settle_alert false false product = pure product

  -- `handleThreshold`; it returns the product that the source writes through its pointer.
  unfoldable pub handle_threshold : Product p.Float → M p (Product p.Float)
  unfolding settle_alert raise_alert clear_alert
  handle_threshold product =
      settle_alert (leb_ℤ product.stock_quantity (effective_threshold product.low_stock_threshold))
        product.low_stock_notified product

  -- `adjustStockTx`
  unfoldable pub adjust_stock_tx : AdjustStockInput → M p (Product p.Float)
  adjust_stock_tx input = do
    product ←
        or_raise (query p (λ d. p.products.get input.product_id d.products))
          inventory_product_not_found
    let new_qty = add_int64 product.stock_quantity input.delta
    raise_if p (ltb_ℤ new_qty (pos 0)) invalid_stock_delta
    let changed : Product p.Float = record product { stock_quantity = new_qty }
    exec p (λ d. p.products.save changed d.products) put_products
    id ← fresh p
    exec p (λ d. p.movements.create (movement_of input id product.id new_qty) d.movements)
        put_movements
    handle_threshold changed

  -- `AdjustStock` with no transaction of the caller.
  unfoldable pub adjust_stock : AdjustStockInput → M p (Product p.Float)
  unfolding adjust_stock_tx
  adjust_stock input = transaction (adjust_stock_tx input)
