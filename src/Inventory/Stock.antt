-- ===== src/Inventory/Stock.antt =====
-- The stock of each product, and the writes that leave it alone.
use auto_store_api.Prelude.{
  ℕ, ℤ, ◌≡◌, ◌≢◌, refl, ap, ◌∙◌, Bool, Option, none, some, lookup, lookup-upsert_self,
  lookup-upsert_ne, lookup-update_where, amend, ok, Bool-cases, inl, inr,
}
use auto_store_api.Platform.{Platform}
use auto_store_api.Models.Sales.{Product}
use auto_store_api.World.{Db}

module _ {F : Type 0} where
  abbrev pub quantity_of : Option (Product F) → Option ℤ
  quantity_of none = none
  quantity_of (some r) = some r.stock_quantity

  quantity_of-amend :
      (q : Product F → Bool) (f : Product F → Product F) (o : Option (Product F))
      → ((r : Product F) → (f r).stock_quantity ≡ r.stock_quantity)
      → quantity_of (amend q f o) ≡ quantity_of o
  quantity_of-amend q f none h = refl
  quantity_of-amend q f (some r) h = elim (Bool-cases (q r)) [
    | inl e ↦ rw e (ap some (h r))
    | inr e ↦ rw e refl
  ]

module _ (p : Platform) where
  -- The stock of the product with this id.
  abbrev pub stock : ℕ → Db p → Option ℤ
  stock k d = quantity_of (lookup (λ r. r.id) k (p.products.rows d.products))

  pub stock-update :
      (q : Product p.Float → Bool) (f : Product p.Float → Product p.Float) (d : Db p)
      (t : p.products.Rows) (k : ℕ)
      → ((r : Product p.Float) → (f r).id ≡ r.id)
      → ((r : Product p.Float) → (f r).stock_quantity ≡ r.stock_quantity)
      → p.products.update q f d.products ≡ ok t
      → stock k (record d { products = t }) ≡ stock k d
  stock-update q f d t k hk hs e = rw (p.products.update_ok q f d.products t e) (
      ap quantity_of (lookup-update_where (λ r. r.id) k q f (p.products.rows d.products) hk)
      ∙ quantity_of-amend q f _ hs)

  pub stock-save_self :
      (r : Product p.Float) (d : Db p) (t : p.products.Rows) (k : ℕ)
      → r.id ≡ k
      → p.products.save r d.products ≡ ok t
      → stock k (record d { products = t }) ≡ some r.stock_quantity
  stock-save_self r d t k h e =
      rw (p.products.save_ok r d.products t e)
        (ap quantity_of (lookup-upsert_self (λ r. r.id) k r (p.products.rows d.products) h))

  pub stock-save_ne :
      (r : Product p.Float) (d : Db p) (t : p.products.Rows) (k : ℕ)
      → r.id ≢ k
      → p.products.save r d.products ≡ ok t
      → stock k (record d { products = t }) ≡ stock k d
  stock-save_ne r d t k h e =
      rw (p.products.save_ok r d.products t e)
        (ap quantity_of (lookup-upsert_ne (λ r. r.id) k r (p.products.rows d.products) h))
