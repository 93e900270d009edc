-- ===== src/Order/RoundTrip.antt =====
-- An order that is created and then cancelled.
use auto_store_api.Prelude.{
  ℕ, ◌≡◌, ◌≢◌, refl, sym, ◌∙◌, ap, subst, List, [], ◌∷◌, ◌++◌, String, none, ok, ◌==◌, ne→==,
  ==_self, select, lookup, All, InInt64, ◌+ℤ◌, false, true, map, Bool, if◌then◌else◌,
}
use auto_store_api.Platform.{Platform}
use auto_store_api.Models.Sales.{Order, OrderItem}
use auto_store_api.World.{Db, World}
use auto_store_api.Inventory.Stock.{stock}
use auto_store_api.Inventory.Exact.{IsStocked}
use auto_store_api.Order.{create, cancel}
use auto_store_api.Order.Demand.{demand, plus}
use auto_store_api.Order.Lines.{line_of}
use auto_store_api.Order.Create.{create-Created}
use auto_store_api.Order.Cancel.{cancel-Cancelled}

module _ {A : Type 0} (q : A → Bool) where
  select-append_none :
      (xs ys : List A)
      → All (λ x. q x ≡ false) xs
      → All (λ x. q x ≡ true) ys
      → select q (xs ++ ys) ≡ ys
  select-append_none [] [] h g = refl
  select-append_none [] (y ∷ ys) h g = rw (g.0) (ap (λ z. y ∷ z) (select-append_none [] ys tt g.1))
  select-append_none (x ∷ xs) ys h g = rw (h.0) (select-append_none xs ys h.1 g)

module _ (p : Platform) where
  demand-lines :
      (k : ℕ) (items : List (OrderItem p.Float))
      → demand (λ i. i.product_id) (λ i. i.quantity) k items
        ≡ demand (λ l. l.product_id) (λ l. l.quantity) k (map (line_of p) items)
  demand-lines k [] = refl
  demand-lines k (i ∷ items) = λ j.
      if i.product_id == k then i.quantity +ℤ demand-lines k items j else demand-lines k items j

  -- Every item belongs to an order that is there.
  abbrev pub IsReferential : Db p → Type 0
  IsReferential d =
      All (λ i. lookup (λ o. o.id) i.order_id (p.orders.rows d.orders) ≢ none)
        (p.order_items.rows d.order_items)

  no_items :
      (d : Db p) (id : ℕ) (items : List (OrderItem p.Float))
      → lookup (λ o. o.id) id (p.orders.rows d.orders) ≡ none
      → All (λ i. lookup (λ o. o.id) i.order_id (p.orders.rows d.orders) ≢ none) items
      → All (λ i. (i.order_id == id) ≡ false) items
  no_items d id [] h r = tt
  no_items d id (i ∷ items) h r = (
    ne→== _ _
        (λ e. r.0 (subst (λ j. lookup (λ o. o.id) j (p.orders.rows d.orders) ≡ none) (sym e) h)),
    no_items d id items h r.1,
  )

  own_items :
      (id : ℕ) (items : List (OrderItem p.Float))
      → All (λ i. i.order_id ≡ id) items
      → All (λ i. (i.order_id == id) ≡ true) items
  own_items id [] h = tt
  own_items id (i ∷ items) h = (ap (λ j. j == id) (h.0) ∙ ==_self id, own_items id items h.1)

  -- When an order is created and then cancelled by its user, with nothing in between, every stock
  -- level is what it was before. It is assumed that levels are values of `int` and not negative,
  -- that carts, and the items after the creation, have quantities of `int`, and that every item
  -- belongs to an order that is there.
  pub cancel-create :
      (user_id ship bill : ℕ) (method : String) (w v u : World p) (order : Order p.Float)
      → IsStocked p w.db
      → All (λ c. InInt64 c.quantity) (p.carts.rows w.db.carts)
      → All (λ i. InInt64 i.quantity) (p.order_items.rows v.db.order_items)
      → IsReferential w.db
      → create p user_id ship bill method w ≡ (ok order, v)
      → cancel p order.id user_id v ≡ (ok tt, u)
      → (k : ℕ) → stock p k u.db ≡ stock p k w.db
  cancel-create user_id ship bill method w v u order h hc hi r created cancelled k =
      let c = create-Created p user_id ship bill method w v order h hc created in
      let x = cancel-Cancelled p order.id user_id v u c.placed.stocked hi cancelled in
      let own : select (λ i. i.order_id == order.id) (p.order_items.rows v.db.order_items)
          ≡ c.placed.items =
        ap (select (λ i. i.order_id == order.id)) c.placed.stored
        ∙ select-append_none _ _ _ (no_items w.db order.id _ c.new_id r)
            (own_items order.id _ c.placed.owned) in
      x.gave k
      ∙ ap (λ xs. plus (demand (λ i. i.product_id) (λ i. i.quantity) k xs) (stock p k v.db)) own
      ∙ ap (λ z. plus z (stock p k v.db))
          (demand-lines k c.placed.items ∙ ap (demand _ _ k) c.placed.shape)
      ∙ c.placed.took k
