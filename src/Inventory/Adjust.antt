-- ===== src/Inventory/Adjust.antt =====
-- What an adjustment does to the stock and to the history.
use auto_store_api.Prelude.{
  ℕ, ℤ, pos, ◌≡◌, ◌≢◌, refl, ◌∙◌, Bool, some, [], ◌∷◌, ◌++◌, ◌≤ℤ◌, ltb_ℤ, add_int64, arith, sym, ap,
  subst, true, false, ◌==◌, ==→eq, ==→ne, ==_self, ne→==, Bool-cases, inl, inr, if◌then◌else◌,
}
use auto_store_api.Platform.{Platform}
use auto_store_api.Platform.Sql.{get-key}
use auto_store_api.Models.Sales.{Product, StockMovement}
use auto_store_api.World.{
  Db, World, Returns, pure-Returns, query_or_then, exec_then, raise_if_then, fresh_then,
  notify_then, Returns-mono,
}
use auto_store_api.Inventory.{
  AdjustStockInput, handle_threshold, movement_of, adjust_stock_tx, raise_alert, clear_alert,
  settle_alert,
}
use auto_store_api.Inventory.Stock.{
  quantity_of, stock, stock-update, stock-save_self, stock-save_ne,
}

nonneg_of : (a b : ℤ) → a ≡ b → ltb_ℤ b (pos 0) ≡ false → pos 0 ≤ℤ a
nonneg_of a b e h = ground arith

module _ (p : Platform) where
  -- The result has the stock of `r`, no stock changes, and no table but that of the products.
  abbrev Keeps : Product p.Float → World p → Product p.Float → World p → Type 0
  Keeps r w s v =
      (s.stock_quantity ≡ r.stock_quantity)
      × ((k : ℕ) → stock p k v.db ≡ stock p k w.db)
      × (v.db ≡ record (w.db) { products = v.db.products })

  raise_alert-Keeps : (r : Product p.Float) (w : World p) → Returns (Keeps r w) (raise_alert p r w)
  unfolding raise_alert
  raise_alert-Keeps r w = exec_then _ _ _ _ w λ t e. notify_then _ _ _ _ (
      pure-Returns _ _ _ (refl, (λ k. stock-update p _ _ w.db t k (λ x. refl) (λ x. refl) e), refl))

  clear_alert-Keeps : (r : Product p.Float) (w : World p) → Returns (Keeps r w) (clear_alert p r w)
  unfolding clear_alert
  clear_alert-Keeps r w = exec_then _ _ _ _ w λ t e.
      pure-Returns _ _ _ (refl, (λ k. stock-update p _ _ w.db t k (λ x. refl) (λ x. refl) e), refl)

  settle_alert-Keeps :
      (low told : Bool) (r : Product p.Float) (w : World p)
      → Returns (Keeps r w) (settle_alert p low told r w)
  unfolding settle_alert
  settle_alert-Keeps true true r w = pure-Returns _ _ _ (refl, (λ k. refl), refl)
  settle_alert-Keeps true false r w = raise_alert-Keeps r w
  settle_alert-Keeps false true r w = clear_alert-Keeps r w
  settle_alert-Keeps false false r w = pure-Returns _ _ _ (refl, (λ k. refl), refl)

  handle_threshold-Keeps :
      (r : Product p.Float) (w : World p) → Returns (Keeps r w) (handle_threshold p r w)
  unfolding handle_threshold
  handle_threshold-Keeps r w = settle_alert-Keeps _ _ r w

  -- The stock of the product has gone from some `q` to `q + delta`, which is not negative and is
  -- the stock of the product `r`; that of no other product has changed; and one movement that
  -- says so has been added to the history.
  pub record Adjusted (input : AdjustStockInput) (d : Db p) (r : Product p.Float) (e : Db p)
      : Type 0 where
    pub before : ℤ
    pub was : stock p input.product_id d ≡ some before
    pub moved : r.stock_quantity ≡ add_int64 before input.delta
    pub nonneg : pos 0 ≤ℤ r.stock_quantity
    pub levels :
        (k : ℕ)
        → stock p k e ≡ (if k == input.product_id then some r.stock_quantity else stock p k d)
    pub movement : StockMovement
    pub recorded : p.movements.rows e.movements ≡ p.movements.rows d.movements ++ movement ∷ []
    pub of_product : movement.product_id ≡ input.product_id
    pub by_delta : movement.delta ≡ input.delta
    pub to_after : movement.quantity_after ≡ r.stock_quantity
    pub reason : movement.reason ≡ input.reason
    pub reference : movement.reference_id ≡ input.reference_id
    pub elsewhere : e ≡ record d { products = e.products; movements = e.movements }

  levels_of :
      (k id : ℕ) (q : ℤ) (d e : Db p)
      → stock p id e ≡ some q
      → (k ≢ id → stock p k e ≡ stock p k d)
      → stock p k e ≡ (if k == id then some q else stock p k d)
  levels_of k id q d e is others = elim (Bool-cases (k == id)) [
    | inl same ↦ rw same (subst (λ j. stock p j e ≡ some q) (sym (==→eq _ _ same)) is)
    | inr other ↦ rw other (others (==→ne _ _ other))
  ]

  pub Adjusted-is :
      {input : AdjustStockInput} {d e : Db p} {r : Product p.Float}
      → Adjusted input d r e
      → stock p input.product_id e ≡ some r.stock_quantity
  Adjusted-is {input} {d} {r} a =
      a.levels input.product_id
      ∙ ap (λ c. if c then some r.stock_quantity else stock p input.product_id d)
          (==_self input.product_id)

  pub Adjusted-others :
      {input : AdjustStockInput} {d e : Db p} {r : Product p.Float} (k : ℕ)
      → Adjusted input d r e
      → k ≢ input.product_id
      → stock p k e ≡ stock p k d
  Adjusted-others {input} {d} {r} k a ne =
      a.levels k ∙ ap (λ c. if c then some r.stock_quantity else stock p k d) (ne→== _ _ ne)

  elsewhere_of :
      (d e : Db p) (t : p.products.Rows) (u : p.movements.Rows)
      → e ≡ record d { products = e.products; movements = u }
      → e ≡ record d { products = e.products; movements = e.movements }
  elsewhere_of d e t u h =
      subst (λ m. e ≡ record d { products = e.products; movements = m })
        (sym (ap (λ (d : Db p). d.movements) h)) h

  pub adjust_stock_tx-Adjusted :
      (input : AdjustStockInput) (w : World p)
      → Returns (λ r v. Adjusted input w.db r v.db) (adjust_stock_tx p input w)
  unfolding adjust_stock_tx
  adjust_stock_tx-Adjusted input w = query_or_then _ _ _ w _ λ r found.
      raise_if_then _ _ _ _ w λ enough. exec_then _ _ _ _ w λ t saved. fresh_then _ _ _ (
        exec_then _ _ _ _ _ λ u created.
          Returns-mono _ _ _
            (λ s v keeps. record {
              before = r.stock_quantity;
              was = ap quantity_of (p.products.get_ok _ _ r found);
              moved = keeps.0;
              nonneg = nonneg_of s.stock_quantity _ keeps.0 enough;
              levels = λ k.
                  levels_of k input.product_id s.stock_quantity w.db v.db
                    (keeps.1 _
                      ∙ stock-save_self p _ w.db t _ (get-key p.products _ _ r found) saved
                      ∙ ap some (sym keeps.0))
                    (λ ne.
                      keeps.1 k
                      ∙ stock-save_ne p _ w.db t k
                          (λ e. ne (sym e ∙ get-key p.products _ _ r found)) saved);
              movement = movement_of input (p.uuid w.drawn) r.id _;
              recorded =
                  ap (λ (d : Db p). p.movements.rows d.movements) keeps.2
                  ∙ (p.movements.create_ok _ _ _ created).1;
              of_product = get-key p.products _ _ r found;
              by_delta = refl;
              to_after = sym keeps.0;
              reason = refl;
              reference = refl;
              elsewhere = elsewhere_of w.db v.db t u keeps.2;
            })
            (handle_threshold-Keeps _ _))
