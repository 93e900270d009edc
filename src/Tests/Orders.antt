-- ===== src/Tests/Orders.antt =====
-- Orders and stock, on the shop in memory.
use auto_store_api.Prelude.{
  ℕ, ℤ, pos, negsuc, ◌≡◌, refl, some, ok, err, ◌+ℤ◌, add_int64, neg_int64, ◌≤ℤ◌, arith, List, All,
  lookup, Bool-cases, inl, inr, ◌==◌, ltb, true, InInt64, [], ◌∷◌,
}
use auto_store_api.Models.Sales.{CartItem, Product, Order, OrderStatus, PaymentStatus}
use auto_store_api.World.{
  World, ◌>>=◌, ◌>>◌, pure, raise, or_raise, attempt, ignore, transaction, query, exec, raise_if,
  fresh, notify, empty_cart, message,
}
use auto_store_api.Inventory.{AdjustStockInput, adjust_stock, adjust_stock_tx, handle_threshold}
use auto_store_api.Inventory.Stock.{stock, quantity_of}
use auto_store_api.Inventory.Exact.{IsStocked, adjust_stock_exact, IsLevel}
use auto_store_api.Inventory.Adjust.{Adjusted}
use auto_store_api.Order.{create, cancel}
use auto_store_api.Inventory.Alerts.{Alerted, adjust_stock-Alerted}
use auto_store_api.Cart.{add_item}
use auto_store_api.Cart.Stock.{Added, add_item-Added}
use auto_store_api.Order.Create.{Created, create-Created}
use auto_store_api.Order.Cancel.{Cancelled, cancel-Cancelled}
use auto_store_api.Order.Atomic.{create_atomic, cancel_atomic}
use auto_store_api.Order.RoundTrip.{cancel-create}
use auto_store_api.Memory.{memory_platform}
use auto_store_api.Tests.Shop.{shop, shop_orders, order, product, take_three}

rows-IsLevel :
    (k : ℕ) (rs : List (Product ℤ))
    → All (λ r. IsLevel (some r.stock_quantity)) rs
    → IsLevel (quantity_of (lookup (λ r. r.id) k rs))
rows-IsLevel k [] h = tt
rows-IsLevel k (r ∷ rs) h = elim (Bool-cases (r.id == k)) [
  | inl e ↦ rw e (h.0)
  | inr e ↦ rw e (rows-IsLevel k rs h.1)
]

small : (n : ℕ) → ltb n 1000 ≡ true → InInt64 (pos n)
small n h = ground arith

shop-IsStocked : IsStocked memory_platform shop.db
shop-IsStocked = record {
  levels = λ k. rows-IsLevel k (memory_platform.products.rows shop.db.products) (omega arith);
}

orders-IsStocked : IsStocked memory_platform shop_orders.db
orders-IsStocked = record {
  levels =
      λ k. rows-IsLevel k (memory_platform.products.rows shop_orders.db.products) (omega arith);
}

abbrev made_order : Order ℤ
made_order = record (order 100 OrderStatus.pending PaymentStatus.pending "") {
  subtotal = pos 40;
  total = pos 40;
  payment_method = "card";
}

abbrev after_create : World memory_platform
after_create = (create memory_platform 7 20 20 "card" shop).1

abbrev after_cancel : World memory_platform
after_cancel = (cancel memory_platform 100 7 after_create).1

create-run : create memory_platform 7 20 20 "card" shop ≡ (ok made_order, after_create)
unfolding create adjust_stock_tx handle_threshold ◌>>=◌ ◌>>◌ pure raise or_raise ignore transaction
    query exec raise_if fresh notify ◌+ℤ◌ add_int64 neg_int64
create-run = refl

cancel-run : cancel memory_platform 100 7 after_create ≡ (ok tt, after_cancel)
unfolding create cancel adjust_stock_tx handle_threshold ◌>>=◌ ◌>>◌ pure raise or_raise ignore
    transaction query exec raise_if fresh notify ◌+ℤ◌ add_int64 neg_int64
cancel-run = refl

carts-InInt64 : All (λ c. InInt64 c.quantity) (memory_platform.carts.rows shop.db.carts)
carts-InInt64 = omega arith

create-Created_example : Created memory_platform 7 shop.db made_order after_create.db
create-Created_example =
    create-Created memory_platform 7 20 20 "card" shop after_create made_order shop-IsStocked
      carts-InInt64 create-run

-- The second line has fallen to the threshold of its product, of which a notification tells.
create_level : stock memory_platform 2 after_create.db ≡ some (pos 3)
unfolding create adjust_stock_tx handle_threshold ◌>>=◌ ◌>>◌ pure raise or_raise ignore transaction
    query exec raise_if fresh notify ◌+ℤ◌ add_int64 neg_int64
create_level = refl

items-InInt64 :
    All (λ i. InInt64 i.quantity) (memory_platform.order_items.rows after_create.db.order_items)
unfolding create adjust_stock_tx handle_threshold ◌>>=◌ ◌>>◌ pure raise or_raise ignore transaction
    query exec raise_if fresh notify ◌+ℤ◌ add_int64 neg_int64
items-InInt64 = (small 3 refl, (small 1 refl, tt))

cancel-create_example : stock memory_platform 1 after_cancel.db ≡ stock memory_platform 1 shop.db
cancel-create_example =
    cancel-create memory_platform 7 20 20 "card" shop after_create after_cancel made_order
      shop-IsStocked carts-InInt64 items-InInt64 tt create-run cancel-run 1

abbrev after_cancel_30 : World memory_platform
after_cancel_30 = (cancel memory_platform 30 7 shop_orders).1

cancel_30-run : cancel memory_platform 30 7 shop_orders ≡ (ok tt, after_cancel_30)
unfolding cancel adjust_stock_tx handle_threshold ◌>>=◌ ◌>>◌ pure or_raise transaction query exec
    raise_if fresh notify ◌+ℤ◌ add_int64
cancel_30-run = refl

cancel-Cancelled_example : Cancelled memory_platform 30 7 shop_orders.db after_cancel_30.db
cancel-Cancelled_example =
    cancel-Cancelled memory_platform 30 7 shop_orders after_cancel_30 orders-IsStocked
      (small 3 refl, tt) cancel_30-run

create_refused : (create memory_platform 8 20 20 "card" shop).0 ≡ err empty_cart
unfolding create ◌>>=◌ ◌>>◌ or_raise query raise_if
create_refused = refl

create_atomic_example : (create memory_platform 8 20 20 "card" shop).1.db ≡ shop.db
create_atomic_example = create_atomic memory_platform 8 20 20 "card" shop empty_cart create_refused

cancel_refused :
    (cancel memory_platform 31 7 shop_orders).0
    ≡ err (message "only pending orders can be cancelled")
unfolding cancel ◌>>=◌ ◌>>◌ query raise_if pure
cancel_refused = refl

cancel_atomic_example : (cancel memory_platform 31 7 shop_orders).1.db ≡ shop_orders.db
cancel_atomic_example =
    cancel_atomic memory_platform 31 7 shop_orders (message "only pending orders can be cancelled")
      cancel_refused

abbrev take_nine : AdjustStockInput
take_nine = record take_three { delta = negsuc 8 }

abbrev after_adjust : World memory_platform
after_adjust = (adjust_stock memory_platform take_three shop).1

abbrev adjusted : Product ℤ
adjusted = record (product 1 (pos 5)) { low_stock_notified = true; low_stock_alert_cycle = pos 1 }

adjust-run : adjust_stock memory_platform take_three shop ≡ (ok adjusted, after_adjust)
unfolding adjust_stock adjust_stock_tx handle_threshold ◌>>=◌ ◌>>◌ pure or_raise transaction query
    exec raise_if fresh notify ◌+ℤ◌ add_int64
adjust-run = refl

delta-InInt64 : InInt64 take_three.delta
delta-InInt64 = omega arith

adjust_stock_exact_example :
    (b : ℤ) × (stock memory_platform 1 shop.db ≡ some b)
    × (stock memory_platform 1 after_adjust.db ≡ some (b +ℤ negsuc 2))
    × (pos 0 ≤ℤ b +ℤ negsuc 2)
    × IsStocked memory_platform after_adjust.db
    × Adjusted memory_platform take_three shop.db adjusted after_adjust.db
adjust_stock_exact_example =
    adjust_stock_exact memory_platform take_three shop after_adjust adjusted shop-IsStocked
      delta-InInt64 adjust-run

adjust_stock-Alerted_example : Alerted memory_platform 1 adjusted shop after_adjust
adjust_stock-Alerted_example =
    adjust_stock-Alerted memory_platform take_three shop after_adjust adjusted adjust-run

abbrev raised : CartItem
raised = record { id = 51; user_id = 7; product_id = 2; quantity = pos 4 }

abbrev after_add : World memory_platform
after_add = (add_item memory_platform 7 2 (pos 4) shop).1

add-run : add_item memory_platform 7 2 (pos 4) shop ≡ (ok raised, after_add)
unfolding add_item ◌>>=◌ ◌>>◌ pure or_raise attempt query exec raise_if add_int64
add-run = refl

add_item-Added_example : Added memory_platform 7 2 (pos 4) raised shop after_add
add_item-Added_example = add_item-Added memory_platform 7 2 (pos 4) shop after_add raised add-run
