-- ===== src/Cart/Stock.antt =====
-- A cart never asks for more than there is.
use auto_store_api.Prelude.{
  zero, suc, negsuc, ◌≢◌, true, Bool, ◌&&◌, ==→eq, ℕ, ℤ, pos, ◌≡◌, refl, false, some, Result, ok,
  err, ◌==◌, ◌⊎◌, inl, inr, ltb_ℤ, leb_ℤ, ◌≤ℤ◌, ◌<ℤ◌, add_int64, [], ◌∷◌, ◌++◌, Has, lookup,
  update_where, arith,
}
use auto_store_api.Platform.{Platform}
use auto_store_api.Platform.Sql.{get-key}
use auto_store_api.Models.Sales.{Product, CartItem}
use auto_store_api.World.{
  World, Error, Returns, Returns-ok, pure-Returns, query_or_then, query_value_then, raise_if_then,
  exec_then, fresh_then,
}
use auto_store_api.Cart.{clamp, default_quantity, add_or_create, add_item}

clamp_le : (quantity level : ℤ) → clamp quantity level ≤ℤ level
clamp_le quantity level = ground arith

below : (a b : ℤ) → ltb_ℤ a b ≡ false → b ≤ℤ a
below a b h = ground arith

above : (a b : ℤ) → leb_ℤ a b ≡ false → b <ℤ a
above a b h = ground arith

-- A quantity that is cut to a level.
abbrev pub IsCut : ℤ → ℤ → ℤ → Type 0
IsCut sum level quantity = (sum ≤ℤ level → quantity ≡ sum) × (level <ℤ sum → quantity ≡ level)

clamp-IsCut : (sum level : ℤ) → IsCut sum level (clamp sum level)
clamp-IsCut sum level = (λ h. ground arith, λ h. ground arith)

-- The quantity of a new row: the one that is asked for, and 1 for none.
abbrev pub IsAsked : ℤ → ℤ → Type 0
IsAsked asked quantity = (asked ≡ pos 0 → quantity ≡ pos 1) × (asked ≢ pos 0 → quantity ≡ asked)

default-IsAsked : (asked : ℤ) → IsAsked asked (default_quantity asked)
default-IsAsked (pos zero) = (λ _. refl, λ ne. absurd (ne refl))
default-IsAsked (pos (suc n)) = (λ e. absurd cc, λ _. refl)
default-IsAsked (negsuc n) = (λ e. absurd cc, λ _. refl)

default_within :
    (asked level : ℤ) → asked ≤ℤ level → pos 0 <ℤ level → default_quantity asked ≤ℤ level
default_within (pos zero) level h some_ = ground arith
default_within (pos (suc n)) level h some_ = h
default_within (negsuc n) level h some_ = h

both : (a b : Bool) → (a && b) ≡ true → (a ≡ true) × (b ≡ true)
both true true h = (refl, refl)
both true false h = cc
both false b h = cc

module _ (p : Platform) where
  -- What `AddItem` has done: the product has stock, and the item asks for no more of it than there is; it is
  -- an item of the user's that was there, with its quantity raised and cut to the stock, or a new row.
  pub record Added (user_id product_id : ℕ) (quantity : ℤ) (item : CartItem) (w v : World p)
      : Type 0 where
    pub product : Product p.Float
    pub was : lookup (λ r. r.id) product_id (p.products.rows w.db.products) ≡ some product
    pub in_stock : pos 0 <ℤ product.stock_quantity
    pub within : item.quantity ≤ℤ product.stock_quantity
    pub written :
        ((old : CartItem) × Has old (p.carts.rows w.db.carts)
          × (old.user_id ≡ user_id)
          × (old.product_id ≡ product_id)
          × (item ≡ record old { quantity = item.quantity })
          × IsCut (add_int64 old.quantity quantity) product.stock_quantity item.quantity
          × (p.carts.rows v.db.carts
              ≡ update_where
                  (λ c. c.id == old.id)
                  (λ c. record c { quantity = item.quantity })
                  (p.carts.rows w.db.carts)))
        ⊎ (IsAsked quantity item.quantity
            × (item.user_id ≡ user_id)
            × (item.product_id ≡ product_id)
            × (p.carts.rows v.db.carts ≡ p.carts.rows w.db.carts ++ item ∷ []))

  add_or_create-Added :
      (user_id product_id : ℕ) (quantity : ℤ) (product : Product p.Float)
      (r : Result Error CartItem) (w : World p)
      → lookup (λ r. r.id) product_id (p.products.rows w.db.products) ≡ some product
      → product.id ≡ product_id
      → pos 0 <ℤ product.stock_quantity
      → quantity ≤ℤ product.stock_quantity
      → ((old : CartItem)
          → r ≡ ok old
          → Has old (p.carts.rows w.db.carts)
            × ((old.user_id == user_id && old.product_id == product_id) ≡ true))
      → Returns
          (λ item v. Added user_id product_id quantity item w v)
          (add_or_create p r user_id product quantity w)
  unfolding add_or_create
  add_or_create-Added user_id product_id quantity product (ok old) w was id some_stock enough
        there =
      exec_then _ _ _ _ w λ t updated. pure-Returns _ _ _ (record {
        product = product;
        was = was;
        in_stock = some_stock;
        within = clamp_le (add_int64 old.quantity quantity) product.stock_quantity;
        written = inl (
          old,
          (there old refl).0,
          ==→eq _ _ (both _ _ (there old refl).1).0,
          ==→eq _ _ (both _ _ (there old refl).1).1,
          refl,
          clamp-IsCut (add_int64 old.quantity quantity) product.stock_quantity,
          p.carts.update_ok _ _ _ t updated,
        );
      })
  add_or_create-Added user_id product_id quantity product (err e) w was id some_stock enough there =
      fresh_then _ _ w (
        exec_then _ _ _ _ _ λ t created. pure-Returns _ _ _ (record {
          product = product;
          was = was;
          in_stock = some_stock;
          within = default_within quantity product.stock_quantity enough some_stock;
          written = inr (default-IsAsked quantity, refl, id, (p.carts.create_ok _ _ t created).1);
        }))

  -- When `AddItem` returns an item: the product is there and in stock, and the item's quantity is at most the
  -- stock. The item is an old one of the user for the product, with the sum of the quantities (in 64 bits), cut to the stock, and its row and no other has the new quantity; or it
  -- is a new row of the user for the product, with the quantity asked for, or 1 if that is 0.
  pub add_item-Added :
      (user_id product_id : ℕ) (quantity : ℤ) (w v : World p) (item : CartItem)
      → add_item p user_id product_id quantity w ≡ (ok item, v)
      → Added user_id product_id quantity item w v
  unfolding add_item
  add_item-Added user_id product_id quantity w v item e =
      Returns-ok (λ item v. Added user_id product_id quantity item w v) _ item v e
        (query_or_then _ _ _ w _ λ product found. raise_if_then _ _ _ _ w λ some_stock.
          raise_if_then _ _ _ _ w λ enough. query_value_then _ _ _ w λ r read.
            add_or_create-Added user_id product_id quantity product r w
              (p.products.get_ok _ _ product found) (get-key p.products _ _ product found)
              (above product.stock_quantity (pos 0) some_stock)
              (below product.stock_quantity quantity enough)
              λ old is. p.carts.first_ok _ _ old (read old is))
