-- ===== src/Order/Picked.antt =====
-- Which items of a cart an order takes, and at what price.
use auto_store_api.Prelude.{
  ℤ, ◌≡◌, refl, Bool, true, false, Option, none, some, List, [], ◌∷◌, Result, ok, err, ◌⊎◌, inl,
  inr, ◌≤ℤ◌, ◌<ℤ◌, ltb_ℤ, arith, lookup,
}
use auto_store_api.Platform.{Platform}
use auto_store_api.Platform.Sql.{DbError}
use auto_store_api.Models.Sales.{CartItem, Product}
use auto_store_api.World.{Db}
use auto_store_api.Order.{Line, pick}

below : (a b : ℤ) → ltb_ℤ a b ≡ false → b ≤ℤ a
below a b h = ground arith

less : (a b : ℤ) → ltb_ℤ a b ≡ true → a <ℤ b
less a b h = ground arith

module _ (p : Platform) where
  -- The line of a cart item: the product is stored and has the quantity, which is priced as the product is. There is no
  -- line when the product has less, or cannot be read.
  abbrev pub IsPicked : Db p → CartItem → Option (Line p.Float) → Type 0
  IsPicked d c (some l) =
      (product : Product p.Float) × (lookup (λ r. r.id) c.product_id (p.products.rows d.products)
        ≡ some product)
      × (c.quantity ≤ℤ product.stock_quantity)
      × (l.product_id ≡ c.product_id)
      × (l.quantity ≡ c.quantity)
      × (l.unit_price ≡ product.price)
      × (l.total_price ≡ p.mul product.price (p.of_int c.quantity))
  IsPicked d c none =
      ((product : Product p.Float) × (lookup (λ r. r.id) c.product_id (p.products.rows d.products)
          ≡ some product)
        × (product.stock_quantity <ℤ c.quantity))
      ⊎ ((e : DbError) × (p.products.get c.product_id d.products ≡ err e))

  abbrev pub with_pick : Option (Line p.Float) → List (Line p.Float) → List (Line p.Float)
  with_pick none ls = ls
  with_pick (some l) ls = l ∷ ls

  -- The lines of a cart are those of its items, in their order.
  abbrev pub ArePicked : Db p → List CartItem → List (Line p.Float) → Type 0
  ArePicked d [] ls = ls ≡ []
  ArePicked d (c ∷ cs) ls =
      (o : Option (Line p.Float)) × (rest : List (Line p.Float)) × IsPicked d c o
      × ArePicked d cs rest
      × (ls ≡ with_pick o rest)

  pub pick-IsPicked : (d : Db p) (c : CartItem) → IsPicked d c (pick p d c)
  unfolding pick
  pick-IsPicked d c = read (p.products.get c.product_id d.products) refl
    where
      line : Product p.Float → Line p.Float
      line product = record {
        product_id = c.product_id;
        quantity = c.quantity;
        unit_price = product.price;
        total_price = p.mul product.price (p.of_int c.quantity);
      }

      check :
          (product : Product p.Float) (b : Bool)
          → lookup (λ r. r.id) c.product_id (p.products.rows d.products) ≡ some product
          → ltb_ℤ product.stock_quantity c.quantity ≡ b
          → IsPicked d c (elim b [ true ↦ none | false ↦ some (line product) ])
      check product true is h = inl (product, is, less product.stock_quantity c.quantity h)
      check product false is h =
          (product, is, below product.stock_quantity c.quantity h, refl, refl, refl, refl)

      read :
          (r : Result DbError (Product p.Float))
          → p.products.get c.product_id d.products ≡ r
          → IsPicked d c (elim r [
            | ok product ↦ elim (ltb_ℤ product.stock_quantity c.quantity) [
              | true ↦ none
              | false ↦ some (line product)
            ]
            | err _ ↦ none
          ])
      read (ok product) h =
          check product (ltb_ℤ product.stock_quantity c.quantity) (p.products.get_ok _ _ product h)
            refl
      read (err e) h = inr (e, h)
