-- ===== src/Cart.antt =====
-- The cart: internal/services/cart_service.go, with internal/repositories/cart_repository.go.
pub mod Stock
use auto_store_api.Prelude.{
  zero, ⊤, ℕ, ℤ, pos, Bool, true, false, Result, ok, err, ◌==◌, ◌&&◌, ltb_ℤ, leb_ℤ, add_int64,
  if◌then◌else◌,
}
use auto_store_api.Platform.{Platform}
use auto_store_api.Models.Sales.{Product, CartItem}
use auto_store_api.World.{
  M, Error, ◌>>=◌, ◌>>◌, pure, query, exec, raise_if, or_raise, attempt, fresh, product_not_found,
  out_of_stock, insufficient_stock,
}
use auto_store_api.Order.{put_carts}

-- `if quantity > product.StockQuantity { quantity = product.StockQuantity }`
abbrev pub clamp : ℤ → ℤ → ℤ
clamp quantity stock = if ltb_ℤ stock quantity then stock else quantity

-- The column `quantity` has the default 1, which gorm stores, and sets in the item, for a zero.
abbrev pub default_quantity : ℤ → ℤ
default_quantity (pos zero) = pos 1
default_quantity quantity = quantity

module _ (p : Platform) where
  -- The branches of `AddItem` on whether the cart has the product.
  unfoldable pub add_or_create : Result Error CartItem → ℕ → Product p.Float → ℤ → M p CartItem
  add_or_create (ok existing) user_id product quantity =
      let more = clamp (add_int64 existing.quantity quantity) product.stock_quantity in
      do
        exec p
            (λ d.
              p.carts.update (λ c. c.id == existing.id) (λ c. record c { quantity = more }) d.carts)
            (put_carts p)
        pure (record existing { quantity = more })
  add_or_create (err e) user_id product quantity = do
    id ← fresh p
    let item : CartItem = record {
      id = id;
      user_id = user_id;
      product_id = product.id;
      quantity = default_quantity quantity;
    }
    exec p (λ d. p.carts.create item d.carts) (put_carts p)
    pure item

  -- `AddItem`
  unfoldable pub add_item : ℕ → ℕ → ℤ → M p CartItem
  unfolding add_or_create
  add_item user_id product_id quantity = do
    product ← or_raise (query p (λ d. p.products.get product_id d.products)) product_not_found
    raise_if p (leb_ℤ product.stock_quantity (pos 0)) out_of_stock
    raise_if p (ltb_ℤ product.stock_quantity quantity) insufficient_stock
    existing ← attempt (
        query p
          (λ d. p.carts.first (λ c. c.user_id == user_id && c.product_id == product_id) d.carts))
    add_or_create existing user_id product quantity

  -- The quantity that `UpdateItem` writes: a product that cannot be read sets no bound.
  abbrev pub bounded : Result Error (Product p.Float) → ℤ → ℤ
  bounded (ok product) quantity = clamp quantity product.stock_quantity
  bounded (err e) quantity = quantity

  -- `UpdateItem`
  unfoldable pub update_item : ℕ → ℕ → ℤ → M p ⊤
  update_item user_id item_id quantity = do
    item ← query p (λ d. p.carts.first (λ c. c.id == item_id && c.user_id == user_id) d.carts)
    product ← attempt (query p (λ d. p.products.get item.product_id d.products))
    exec p
        (λ d.
          p.carts.update (λ c. c.id == item_id && c.user_id == user_id)
            (λ c. record c { quantity = bounded product quantity }) d.carts)
        (put_carts p)

  -- `RemoveItem` and `Clear`
  unfoldable pub remove_item : ℕ → ℕ → M p ⊤
  remove_item user_id item_id =
      exec p (λ d. p.carts.delete (λ c. c.id == item_id && c.user_id == user_id) d.carts)
        (put_carts p)

  unfoldable pub clear : ℕ → M p ⊤
  clear user_id = exec p (λ d. p.carts.delete (λ c. c.user_id == user_id) d.carts) (put_carts p)
