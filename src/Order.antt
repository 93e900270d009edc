-- ===== src/Order.antt =====
-- Orders: internal/services/order_service.go, with internal/repositories/order_repository.go.
pub mod Picked
pub mod Demand
pub mod Lines
pub mod Read
pub mod Create
pub mod Cancel
pub mod Atomic
pub mod RoundTrip
use auto_store_api.Prelude.{
  ⊤, ℕ, ℤ, pos, Bool, true, false, Option, none, some, List, [], ◌∷◌, String, ok, err, ◌==◌, ◌&&◌,
  not, ltb_ℤ, neg_int64, text_append,
}
use auto_store_api.Platform.{Platform}
use auto_store_api.Models.Sales.{
  CartItem, Order, OrderItem, OrderStatus, PaymentStatus, StockMovementReason, is_pending,
}
use auto_store_api.World.{
  Db, M, empty_cart, address_not_found, order_not_found, message, ◌>>=◌, ◌>>◌, pure, query, exec,
  raise_if, or_raise, ignore, fresh, transaction,
}
use auto_store_api.Inventory.{AdjustStockInput, adjust_stock_tx}

abbrev is_empty : {A : Type 0} → List A → Bool
is_empty [] = true
is_empty (_ ∷ _) = false

-- An entry of `orderItems`, before it has an id and an order.
pub record Line (F : Type 0) : Type 0 where
  pub product_id : ℕ
  pub quantity : ℤ
  pub unit_price : F
  pub total_price : F

module _ (p : Platform) where
  abbrev pub zero_amount : p.Float
  zero_amount = p.of_int (pos 0)

  abbrev pub put_orders : p.orders.Rows → Db p → Db p
  put_orders t d = record d { orders = t }

  abbrev put_order_items : p.order_items.Rows → Db p → Db p
  put_order_items t d = record d { order_items = t }

  abbrev pub put_carts : p.carts.Rows → Db p → Db p
  put_carts t d = record d { carts = t }

  -- One round of the loop over the cart: a product that is missing, that cannot be read or that has
  -- too little stock is passed over.
  unfoldable pub pick : Db p → CartItem → Option (Line p.Float)
  pick d ci = elim (p.products.get ci.product_id d.products) [
    | ok product ↦ elim (ltb_ℤ product.stock_quantity ci.quantity) [
      | true ↦ none
      | false ↦ some (record {
        product_id = ci.product_id;
        quantity = ci.quantity;
        unit_price = product.price;
        total_price = p.mul product.price (p.of_int ci.quantity);
      })
    ]
    | err _ ↦ none
  ]

  -- The loop, from the subtotal so far: the subtotal and the lines.
  add_line :
      Option (Line p.Float)
      → p.Float
      → (p.Float → p.Float × List (Line p.Float))
      → p.Float × List (Line p.Float)
  add_line none subtotal rest = rest subtotal
  add_line (some line) subtotal rest =
      let (s, ls) = rest (p.add subtotal line.total_price) in (s, line ∷ ls)

  unfoldable pub price_cart : Db p → p.Float → List CartItem → p.Float × List (Line p.Float)
  unfolding add_line
  price_cart d subtotal [] = (subtotal, [])
  price_cart d subtotal (ci ∷ cs) = add_line (pick d ci) subtotal (λ s. price_cart d s cs)

  abbrev pub item_of : ℕ → ℕ → Line p.Float → OrderItem p.Float
  item_of id order_id line = record {
    id = id;
    order_id = order_id;
    product_id = line.product_id;
    quantity = line.quantity;
    unit_price = line.unit_price;
    total_price = line.total_price;
  }

  -- The adjustments that an order and its cancellation make for an item.
  abbrev pub stock_change : ℕ → ℤ → StockMovementReason → ℕ → AdjustStockInput
  stock_change product_id delta reason order_id = record {
    product_id = product_id;
    delta = delta;
    reason = reason;
    reference_id = some order_id;
    performed_by = none;
    notes = "";
  }

  -- The loop over `orderItems` in the transaction of `Create`.
  unfoldable pub place_lines : ℕ → List (Line p.Float) → M p ⊤
  place_lines order_id [] = pure tt
  place_lines order_id (line ∷ ls) = do
    id ← fresh p
    exec p (λ d. p.order_items.create (item_of id order_id line) d.order_items) put_order_items
    _ ←
        adjust_stock_tx p (
          stock_change line.product_id (neg_int64 line.quantity) StockMovementReason.order order_id)
    place_lines order_id ls

  abbrev pub new_order : ℕ → String → ℕ → ℕ → ℕ → String → p.Float → Order p.Float
  new_order id number user_id shipping_id billing_id method subtotal = record {
    id = id;
    user_id = user_id;
    order_number = number;
    status = OrderStatus.pending;
    subtotal = subtotal;
    tax = zero_amount;
    shipping_cost = zero_amount;
    total = p.add (p.add subtotal zero_amount) zero_amount;
    shipping_address_id = shipping_id;
    billing_address_id = billing_id;
    payment_method = method;
    payment_status = PaymentStatus.pending;
    payment_reference = "";
    paystack_refund_id = "";
  }

  -- The body of the transaction of `Create`; `BeforeCreate` draws the order's id and its number.
  unfoldable pub place_order :
      ℕ → ℕ → ℕ → String → p.Float → List (Line p.Float) → M p (Order p.Float)
  unfolding place_lines
  place_order user_id shipping_id billing_id method subtotal lines = do
    id ← fresh p
    number ← fresh p
    let order =
        new_order id (text_append "ORD-" (p.short number)) user_id shipping_id billing_id method
          subtotal
    exec p (λ d. p.orders.create order d.orders) put_orders
    _ ← place_lines id lines
    pure order

  -- `Create`
  unfoldable pub create : ℕ → ℕ → ℕ → String → M p (Order p.Float)
  unfolding pick price_cart place_order
  create user_id shipping_id billing_id method = do
    cart_items ←
        or_raise (query p (λ d. p.carts.find (λ c. c.user_id == user_id) d.carts)) empty_cart
    raise_if p (is_empty cart_items) empty_cart
    _ ←
        or_raise
          (query p
            (λ d. p.addresses.first (λ a. a.id == shipping_id && a.user_id == user_id) d.addresses))
          address_not_found
    _ ←
        or_raise
          (query p
            (λ d. p.addresses.first (λ a. a.id == billing_id && a.user_id == user_id) d.addresses))
          address_not_found
    priced ← query p (λ d. ok (price_cart d zero_amount cart_items))
    raise_if p (is_empty priced.1) empty_cart
    order ← transaction (place_order user_id shipping_id billing_id method priced.0 priced.1)
    ignore (exec p (λ d. p.carts.delete (λ c. c.user_id == user_id) d.carts) put_carts)
    pure order

  -- `OrderRepository.GetByID`, which loads the items.
  unfoldable pub get_order : ℕ → M p (Order p.Float × List (OrderItem p.Float))
  get_order id = do
    order ← query p (λ d. p.orders.get id d.orders)
    items ← query p (λ d. p.order_items.find (λ i. i.order_id == id) d.order_items)
    pure (order, items)

  -- The loop over the items in the transaction of `Cancel`.
  unfoldable pub restock : ℕ → List (OrderItem p.Float) → M p ⊤
  restock order_id [] = pure tt
  restock order_id (item ∷ items) = do
    _ ←
        adjust_stock_tx p
          (stock_change item.product_id item.quantity StockMovementReason.cancel order_id)
    restock order_id items

  -- `Cancel`
  unfoldable pub cancel : ℕ → ℕ → M p ⊤
  unfolding get_order restock
  cancel id user_id = do
    loaded ← get_order id
    raise_if p (not (loaded.0.user_id == user_id)) order_not_found
    raise_if p (not (is_pending loaded.0.status)) (message "only pending orders can be cancelled")
    transaction (do
      exec p (λ d. p.orders.save (record (loaded.0) { status = OrderStatus.cancelled }) d.orders)
          put_orders
      restock loaded.0.id loaded.1)

  -- `UpdateStatus`
  unfoldable pub update_status : ℕ → OrderStatus → M p (Order p.Float)
  unfolding get_order
  update_status id status = do
    loaded ← get_order id
    exec p (λ d. p.orders.save (record (loaded.0) { status = status }) d.orders) put_orders
    again ← get_order id
    pure (again.0)
