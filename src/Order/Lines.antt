-- ===== src/Order/Lines.antt =====
-- The lines of an order, taken from stock one by one.
use auto_store_api.Prelude.{
  ℕ, ◌≡◌, refl, sym, ◌∙◌, ap, List, [], ◌∷◌, ◌++◌, append_assoc, append-nil, map, All, InInt64,
}
use auto_store_api.Platform.{Platform}
use auto_store_api.Models.Sales.{OrderItem, StockMovementReason, Product}
use auto_store_api.World.{
  Db, World, Returns, Returns-mono, pure-Returns, fresh_then, exec_then, call_then,
}
use auto_store_api.Inventory.{AdjustStockInput}
use auto_store_api.Inventory.Adjust.{Adjusted, adjust_stock_tx-Adjusted}
use auto_store_api.Inventory.Exact.{IsStocked, Adjusted-IsStocked}
use auto_store_api.Order.{Line, item_of, place_lines}
use auto_store_api.Order.Demand.{Took, Took-nil, Took-cons}

module _ (p : Platform) where
  abbrev pub line_of : OrderItem p.Float → Line p.Float
  line_of i = record {
    product_id = i.product_id;
    quantity = i.quantity;
    unit_price = i.unit_price;
    total_price = i.total_price;
  }

  -- The lines have become items of the order, and have been taken from stock.
  pub record Placed (order_id : ℕ) (lines : List (Line p.Float)) (d e : Db p) : Type 0 where
    pub items : List (OrderItem p.Float)
    pub stored : p.order_items.rows e.order_items ≡ p.order_items.rows d.order_items ++ items
    pub shape : map line_of items ≡ lines
    pub owned : All (λ i. i.order_id ≡ order_id) items
    pub took : Took p (λ l. l.product_id) (λ l. l.quantity) lines d e
    pub stocked : IsStocked p e

  -- The items are no part of what the levels are read from.
  set_items-IsStocked :
      (d : Db p) (t : p.order_items.Rows)
      → IsStocked p d
      → IsStocked p (record d { order_items = t })
  set_items-IsStocked d t h = record { levels = h.levels }

  same_items :
      {input : AdjustStockInput} (d e : Db p) {r : Product p.Float}
      → Adjusted p input d r e
      → p.order_items.rows e.order_items ≡ p.order_items.rows d.order_items
  same_items d e a = ap (λ (x : Db p). p.order_items.rows x.order_items) a.elsewhere

  pub place_lines-Placed :
      (id : ℕ) (lines : List (Line p.Float)) (w : World p)
      → IsStocked p w.db
      → All (λ l. InInt64 l.quantity) lines
      → Returns
          (λ _ v. Placed id lines w.db v.db × (v.db.orders ≡ w.db.orders))
          (place_lines p id lines w)
  unfolding place_lines
  place_lines-Placed id [] w h hq = pure-Returns _ _ w (
    record {
      items = [];
      stored = sym (append-nil _);
      shape = refl;
      owned = tt;
      took = Took-nil p {A = Line p.Float} (λ l. l.product_id) (λ l. l.quantity) w.db;
      stocked = h;
    },
    refl,
  )
  place_lines-Placed id (l ∷ ls) w h hq = fresh_then _ _ _ (
      exec_then _ _ _ _ _ λ t created.
        call_then _ _ _ _ _ (adjust_stock_tx-Adjusted p _ _) λ r m adjusted.
          Returns-mono _ _ _
            (λ _ v (rest, orders). (
              record {
                items = item_of p (p.uuid w.drawn) id l ∷ rest.items;
                stored =
                    rest.stored
                    ∙ ap (λ z. z ++ rest.items)
                        (same_items _ m.db adjusted ∙ (p.order_items.create_ok _ _ _ created).1)
                    ∙ append_assoc (p.order_items.rows w.db.order_items) _ rest.items;
                shape = ap (λ z. l ∷ z) rest.shape;
                owned = (refl, rest.owned);
                took =
                    Took-cons p (λ l. l.product_id) (λ l. l.quantity) l ls StockMovementReason.order
                      id (record (w.db) { order_items = t }) m.db v.db r
                      (set_items-IsStocked w.db t h) hq.0 adjusted rest.took;
                stocked = rest.stocked;
              },
              orders ∙ ap (λ (d : Db p). d.orders) adjusted.elsewhere,
            ))
            (place_lines-Placed id ls m
              (Adjusted-IsStocked p _ _ _ r (set_items-IsStocked w.db t h) adjusted) hq.1))
