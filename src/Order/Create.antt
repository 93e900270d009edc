-- ===== src/Order/Create.antt =====
-- What `Create` has done when it returns an order.
use mathlib.Core.List.{Perm}
use auto_store_api.Prelude.{
  select, Option, Option-cases, arith, ℕ, ◌≡◌, lookup, none, ◌≢◌, refl, sym, ◌∙◌, ap, subst, List,
  [], ◌∷◌, ◌++◌, String, false, some, All, All-select, All-Perm, ok_injective, InInt64,
  InInt64-prop, ok, inl, inr, ◌==◌,
}
use auto_store_api.Platform.{Platform}
use auto_store_api.Models.Sales.{CartItem, Order, OrderStatus, PaymentStatus}
use auto_store_api.World.{
  Db, World, Returns, Returns-ok, pure-Returns, query_then, query_or_then, raise_if_then,
  fresh_then, exec_then, call_then, ignore_then, transaction-Returns,
}
use auto_store_api.Inventory.Exact.{IsStocked}
use auto_store_api.Order.{
  Line, pick, add_line, price_cart, place_order, create, zero_amount, is_empty,
}
use auto_store_api.Order.Picked.{ArePicked, with_pick, pick-IsPicked}
use auto_store_api.Order.Lines.{Placed, place_lines-Placed}

module _ (p : Platform) where
  -- The sum that the loop over the cart builds, from the left.
  abbrev pub sum_lines : p.Float → List (Line p.Float) → p.Float
  sum_lines s [] = s
  sum_lines s (l ∷ ls) = sum_lines (p.add s l.total_price) ls

  -- What `Create` has done: `order` is a pending, unpaid order of the user, in the table of orders;
  -- its lines are those that the cart gives, at least one; its subtotal is their sum, with the tax and the shipping of
  -- zero in its total; and its lines have been placed.
  pub record Created (user_id : ℕ) (d : Db p) (order : Order p.Float) (e : Db p) : Type 0 where
    pub cart : List CartItem
    pub of_cart : Perm cart (select (λ c. c.user_id == user_id) (p.carts.rows d.carts))
    pub lines : List (Line p.Float)
    pub picked : ArePicked p d cart lines
    pub some_line : lines ≢ []
    pub of_user : order.user_id ≡ user_id
    pub new_id : lookup (λ o. o.id) order.id (p.orders.rows d.orders) ≡ none
    pub is_new : order.status ≡ OrderStatus.pending
    pub is_unpaid : order.payment_status ≡ PaymentStatus.pending
    pub sums : order.subtotal ≡ sum_lines (zero_amount p) lines
    pub totals : order.total ≡ p.add (p.add order.subtotal (zero_amount p)) (zero_amount p)
    pub stored : p.orders.rows e.orders ≡ p.orders.rows d.orders ++ order ∷ []
    pub placed : Placed p order.id lines d e

  pick-quantity :
      (d : Db p) (ci : CartItem) (l : Line p.Float)
      → pick p d ci ≡ some l
      → l.quantity ≡ ci.quantity
  unfolding pick
  pick-quantity d ci l e = ground arith

  price_cart-sum :
      (d : Db p) (s : p.Float) (cs : List CartItem)
      → (price_cart p d s cs).0 ≡ sum_lines s (price_cart p d s cs).1
  unfolding price_cart
  price_cart-sum d s [] = refl
  price_cart-sum d s (c ∷ cs) = elim (Option-cases (pick p d c)) [
    | inl e ↦ rw (e, add_line) (price_cart-sum d s cs)
    | inr (l, e) ↦ rw (e, add_line) (price_cart-sum d (p.add s l.total_price) cs)
  ]

  add_line-ArePicked :
      (d : Db p) (s : p.Float) (cs : List CartItem) (o : Option (Line p.Float))
      → ((t : p.Float) → ArePicked p d cs (price_cart p d t cs).1)
      → (rest : List (Line p.Float)) × ArePicked p d cs rest
        × ((add_line p o s (λ t. price_cart p d t cs)).1 ≡ with_pick p o rest)
  unfolding add_line
  add_line-ArePicked d s cs none all = ((price_cart p d s cs).1, all s, refl)
  add_line-ArePicked d s cs (some l) all =
      let t = p.add s l.total_price in ((price_cart p d t cs).1, all t, refl)

  price_cart-ArePicked :
      (d : Db p) (s : p.Float) (cs : List CartItem) → ArePicked p d cs (price_cart p d s cs).1
  unfolding price_cart
  price_cart-ArePicked d s [] = refl
  price_cart-ArePicked d s (c ∷ cs) =
      let (rest, picked, same) =
        add_line-ArePicked d s cs (pick p d c) (λ t. price_cart-ArePicked d t cs) in
      (pick p d c, rest, pick-IsPicked p d c, picked, same)

  price_cart-InInt64 :
      (d : Db p) (s : p.Float) (cs : List CartItem)
      → All (λ c. InInt64 c.quantity) cs
      → All (λ l. InInt64 l.quantity) (price_cart p d s cs).1
  unfolding price_cart
  price_cart-InInt64 d s [] h = tt
  price_cart-InInt64 d s (c ∷ cs) h = elim (Option-cases (pick p d c)) [
    | inl e ↦ rw (e, add_line) (price_cart-InInt64 d s cs h.1)
    | inr (l, e) ↦
        rw (e, add_line)
          (
            subst InInt64 (sym (pick-quantity d c l e)) h.0,
            price_cart-InInt64 d (p.add s l.total_price) cs h.1,
          )
  ]

  place_order-Created :
      (user_id ship bill : ℕ) (method : String) (s : p.Float) (ls : List (Line p.Float))
      (cart : List CartItem) (w : World p)
      → Perm cart (select (λ c. c.user_id == user_id) (p.carts.rows w.db.carts))
      → ArePicked p w.db cart ls
      → IsStocked p w.db
      → All (λ l. InInt64 l.quantity) ls
      → ls ≢ []
      → s ≡ sum_lines (zero_amount p) ls
      → Returns (λ o v. Created user_id w.db o v.db) (place_order p user_id ship bill method s ls w)
  unfolding place_order
  place_order-Created user_id ship bill method s ls cart w own found h hq line sum =
      fresh_then _ _ _ (
        fresh_then _ _ _ (
          exec_then _ _ _ _ _ λ t created.
            call_then _ _ _ _ _ (place_lines-Placed p _ ls _ (record { levels = h.levels }) hq)
              λ x v (placed, same). pure-Returns _ _ v (record {
                cart = cart;
                of_cart = own;
                lines = ls;
                picked = found;
                some_line = line;
                of_user = refl;
                new_id = (p.orders.create_ok _ _ _ created).0;
                is_new = refl;
                is_unpaid = refl;
                sums = sum;
                totals = refl;
                stored = ap p.orders.rows same ∙ (p.orders.create_ok _ _ _ created).1;
                placed = record {
                  items = placed.items;
                  stored = placed.stored;
                  shape = placed.shape;
                  owned = placed.owned;
                  took = placed.took;
                  stocked = placed.stocked;
                };
              })))

  set_carts-Created :
      (user_id : ℕ) (d e : Db p) (o : Order p.Float) (t : p.carts.Rows)
      → Created user_id d o e
      → Created user_id d o (record e { carts = t })
  set_carts-Created user_id d e o t c = record {
    cart = c.cart;
    of_cart = c.of_cart;
    lines = c.lines;
    picked = c.picked;
    some_line = c.some_line;
    of_user = c.of_user;
    new_id = c.new_id;
    is_new = c.is_new;
    is_unpaid = c.is_unpaid;
    sums = c.sums;
    totals = c.totals;
    stored = c.stored;
    placed = record {
      items = c.placed.items;
      stored = c.placed.stored;
      shape = c.placed.shape;
      owned = c.placed.owned;
      took = c.placed.took;
      stocked = record { levels = c.placed.stocked.levels };
    };
  }

  cart-InInt64 :
      (user_id : ℕ) (d : Db p) (cart : List CartItem)
      → All (λ c. InInt64 c.quantity) (p.carts.rows d.carts)
      → p.carts.find (λ c. c.user_id == user_id) d.carts ≡ ok cart
      → All (λ c. InInt64 c.quantity) cart
  cart-InInt64 user_id d cart h found =
      All-Perm (λ c. InInt64 c.quantity) (λ c. InInt64-prop c.quantity)
        (p.carts.find_ok _ _ _ found) (All-select (λ c. InInt64 c.quantity) _ _ h)

  is_empty-ne : {A : Type 0} (xs : List A) → is_empty xs ≡ false → xs ≢ []
  is_empty-ne [] h e = cc
  is_empty-ne (x ∷ xs) h e = cc

  -- When `Create` returns an order, from levels that are values of `int` and not negative and carts
  -- with quantities of `int`: the order is a new row of the orders, with an id of its own, pending and unpaid, of the user;
  -- its lines are those of the user's cart items whose product is there with the quantity in stock, the
  -- others being passed over; it has a line at least, its subtotal is the sum of its lines; the lines are the order's rows of
  -- the items; and each stock level has fallen by exactly what the lines have of the product, with
  -- no wrap-around, to a level that is not negative.
  pub create-Created :
      (user_id ship bill : ℕ) (method : String) (w v : World p) (order : Order p.Float)
      → IsStocked p w.db
      → All (λ c. InInt64 c.quantity) (p.carts.rows w.db.carts)
      → create p user_id ship bill method w ≡ (ok order, v)
      → Created user_id w.db order v.db
  unfolding create
  create-Created user_id ship bill method w v order h hq e =
      Returns-ok (λ o v. Created user_id w.db o v.db) _ order v e
        (query_or_then _ _ _ _ _ λ cart found. raise_if_then _ _ _ _ _ λ full.
          query_or_then _ _ _ _ _ λ _ ship_ok. query_or_then _ _ _ _ _ λ _ bill_ok.
            query_then _ _ _ _ λ priced priced_ok. raise_if_then _ _ _ _ _ λ line.
              call_then _ (λ o v. Created user_id w.db o v.db) _ _ _
                (transaction-Returns (λ o v. Created user_id w.db o v.db) _ _
                  (place_order-Created user_id ship bill method priced.0 priced.1 cart w
                    (p.carts.find_ok _ _ _ found)
                    (subst (λ x. ArePicked p w.db cart x.1) (ok_injective priced_ok)
                      (price_cart-ArePicked w.db (zero_amount p) cart))
                    h
                    (subst (λ x. All (λ l. InInt64 l.quantity) x.1) (ok_injective priced_ok)
                      (price_cart-InInt64 w.db (zero_amount p) cart
                        (cart-InInt64 user_id w.db cart hq found)))
                    (is_empty-ne priced.1 line)
                    (subst (λ x. x.0 ≡ sum_lines (zero_amount p) x.1) (ok_injective priced_ok)
                      (price_cart-sum w.db (zero_amount p) cart))))
                λ o m c.
                  ignore_then _ _ _ _ _ (pure-Returns _ o m c)
                    (λ t deleted. pure-Returns _ o _ (set_carts-Created user_id w.db m.db o t c)))
