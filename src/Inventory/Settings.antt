-- ===== src/Inventory/Settings.antt =====
-- Whose products are whose, their thresholds, and the scan for low stock: the rest of
-- internal/services/inventory_service.go that writes, with `StockStatus` and `InStock` of internal/models/product.go.
use auto_store_api.Prelude.{
  ℕ, zero, suc, ◌+◌, ℤ, pos, ◌≡◌, refl, ap, ◌∙◌, Bool, true, false, not, of_not, ◌&&◌, ◌||◌, Option,
  none, some, List, [], ◌∷◌, String, Result, ok, err, ltb_ℤ, leb_ℤ, if◌then◌else◌, ◌==◌, str_eq,
  lookup, upsert, ◌≤ℤ◌, arith,
}
use auto_store_api.Platform.{Platform}
use auto_store_api.Models.Sales.{Product}
use auto_store_api.Models.Accounts.{User, is_admin, is_vendor}
use auto_store_api.World.{
  Db, World, M, Error, ◌>>=◌, ◌>>◌, pure, query, exec, raise_if, or_raise, attempt, transaction,
  message, inventory_product_not_found, inventory_access_denied, Returns-ok, pure-Returns,
  raise_if_then, query_or_then, exec_then, call_then,
}
use auto_store_api.Inventory.{effective_threshold, handle_threshold, put_products}

-- `LIMIT`: the rows come in no order that is known.
abbrev take : {A : Type 0} → ℕ → List A → List A
take zero xs = []
take (suc n) [] = []
take (suc n) (x ∷ xs) = x ∷ take n xs

-- `InStock`
abbrev pub in_stock : {F : Type 0} → Product F → Bool
in_stock product = ltb_ℤ (pos 0) product.stock_quantity

-- `StockStatus`
abbrev pub stock_status : {F : Type 0} → Product F → String
stock_status product =
    if leb_ℤ product.stock_quantity (pos 0)
    then "out_of_stock"
    else if leb_ℤ product.stock_quantity (effective_threshold product.low_stock_threshold)
    then "low_stock"
    else "in_stock"

-- `*product.VendorID == user.ID`
abbrev is_id : Option ℕ → ℕ → Bool
is_id none id = false
is_id (some n) id = n == id

-- `CanAccessProduct`
abbrev pub can_access_product : {F : Type 0} → User → Product F → Bool
can_access_product user product =
    is_admin user.role || is_vendor user.role && is_id product.vendor_id user.id

out_is_low :
    (stock threshold : ℤ)
    → leb_ℤ stock (pos 0) ≡ true
    → leb_ℤ stock (effective_threshold threshold) ≡ true
out_is_low stock threshold h = ground arith

module _ (p : Platform) where
  -- `GetProductForUser`
  unfoldable pub get_product_for_user : User → ℕ → M p (Product p.Float)
  get_product_for_user user product_id = do
    product ←
        or_raise (query p (λ d. p.products.get product_id d.products)) inventory_product_not_found
    raise_if p (not (can_access_product user product)) inventory_access_denied
    pure product

  -- `UpdateSettings`
  unfoldable pub update_settings : User → ℕ → ℤ → M p (Product p.Float)
  unfolding get_product_for_user
  update_settings user product_id threshold = do
    product ← get_product_for_user user product_id
    raise_if p (ltb_ℤ threshold (pos 0)) (message "threshold must be >= 0")
    let changed : Product p.Float = record product { low_stock_threshold = threshold }
    exec p (λ d. p.products.save changed d.products) (put_products p)
    pure changed

  -- What `ListUnnotifiedLowStock` looks for: the threshold as it is stored, without the default.
  abbrev pub unnotified_low : Product p.Float → Bool
  unnotified_low r = leb_ℤ r.stock_quantity r.low_stock_threshold && not r.low_stock_notified

  abbrev pub counted : Result Error (Product p.Float) → ℕ
  counted (ok product) = if product.low_stock_notified then 1 else 0
  counted (err e) = 0

  -- The loop of `ScanLowStock`.
  unfoldable pub scan_products : List (Product p.Float) → M p ℕ
  scan_products [] = pure 0
  scan_products (product ∷ rest) = do
    r ← attempt (transaction (handle_threshold p product))
    n ← scan_products rest
    pure (counted r + n)

  -- `ScanLowStock`
  unfoldable pub scan_low_stock : M p ℕ
  unfolding scan_products
  scan_low_stock = do
    found ← query p (λ d. p.products.find unnotified_low d.products)
    scan_products (take 100 found)

  -- What `UpdateSettings` has checked and done.
  pub record Updated (user : User) (product_id : ℕ) (threshold : ℤ) (d e : Db p) : Type 0 where
    pub product : Product p.Float
    pub was : lookup (λ r. r.id) product_id (p.products.rows d.products) ≡ some product
    pub allowed : can_access_product user product ≡ true
    pub not_negative : pos 0 ≤ℤ threshold
    pub stored :
        p.products.rows e.products
        ≡ upsert
            (λ r. r.id)
            (record product { low_stock_threshold = threshold })
            (p.products.rows d.products)

  not_below : (t : ℤ) → ltb_ℤ t (pos 0) ≡ false → pos 0 ≤ℤ t
  not_below t h = ground arith

  -- When `UpdateSettings` returns: the product is stored, the user is an administrator or the product's vendor, the threshold
  -- is not negative, and it is stored for that product, of which nothing else and beside which no product has changed.
  pub update_settings-Updated :
      (user : User) (product_id : ℕ) (threshold : ℤ) (w v : World p) (product : Product p.Float)
      → update_settings user product_id threshold w ≡ (ok product, v)
      → Updated user product_id threshold w.db v.db
  unfolding update_settings get_product_for_user
  update_settings-Updated user product_id threshold w v product e =
      Returns-ok (λ _ v. Updated user product_id threshold w.db v.db) _ product v e
        (call_then _
          (λ r v.
            (v ≡ w)
            × (lookup (λ r. r.id) product_id (p.products.rows w.db.products) ≡ some r)
            × (can_access_product user r ≡ true))
          _ _ w
          (query_or_then _ _ _ w _ λ r found.
            raise_if_then _ _ _ _ w
              λ may. pure-Returns _ r w (refl, p.products.get_ok _ _ r found, of_not _ may))
          λ r u (same, found, may). raise_if_then _ _ _ _ u λ positive.
            exec_then _ _ _ _ u λ t saved. pure-Returns _ _ _ (record {
              product = r;
              was = found;
              allowed = may;
              not_negative = not_below threshold positive;
              stored =
                  p.products.save_ok _ _ t saved
                  ∙ ap
                      (λ (w : World p).
                        upsert (λ r. r.id) (record r { low_stock_threshold = threshold })
                          (p.products.rows w.db.products))
                      same;
            }))

-- A product's status is `in_stock` just when its stock is not one that raises an alert.
pub stock_status-in_stock :
    {F : Type 0} (product : Product F)
    → str_eq (stock_status product) "in_stock"
      ≡ not (leb_ℤ product.stock_quantity (effective_threshold product.low_stock_threshold))
stock_status-in_stock product =
    go (leb_ℤ product.stock_quantity (pos 0)) _
      (out_is_low product.stock_quantity product.low_stock_threshold)
  where
    go :
        (out low : Bool)
        → (out ≡ true → low ≡ true)
        → str_eq
            (if out then "out_of_stock" else if low then "low_stock" else "in_stock")
            "in_stock"
          ≡ not low
    go true true h = refl
    go true false h = let z = h refl in cc
    go false true h = refl
    go false false h = refl
