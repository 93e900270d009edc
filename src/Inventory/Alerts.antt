-- ===== src/Inventory/Alerts.antt =====
-- When an adjustment raises a low-stock alert.
use auto_store_api.Prelude.{
  pos, ℤ, ◌||◌, ltb_ℤ, arith, ℕ, ◌≡◌, refl, sym, ◌∙◌, ap, subst, Bool, true, false, not, ◌&&◌,
  Option, some, List, ◌∷◌, ok, lookup, lookup-upsert_self, lookup-update_where, amend, ==_self,
  ◌==◌, leb_ℤ, if◌then◌else◌,
}
use auto_store_api.Platform.{Platform}
use auto_store_api.Platform.Sql.{get-key}
use auto_store_api.Models.Sales.{Product}
use auto_store_api.World.{
  Db, World, Notice, low_stock, Returns, Returns-ok, Returns-mono, pure-Returns, query_or_then,
  exec_then, raise_if_then, fresh_then, notify_then, transaction-Returns,
}
use auto_store_api.Inventory.{
  AdjustStockInput, effective_threshold, handle_threshold, settle_alert, raise_alert, clear_alert,
  adjust_stock_tx, adjust_stock,
}

-- The stock is at its threshold or below: the product's own one where that is positive, and 5 elsewhere.
abbrev pub is_low : {F : Type 0} → Product F → Bool
is_low r =
    ltb_ℤ (pos 0) r.low_stock_threshold && leb_ℤ r.stock_quantity r.low_stock_threshold
    || not (ltb_ℤ (pos 0) r.low_stock_threshold) && leb_ℤ r.stock_quantity (pos 5)

low_as_stored :
    (stock threshold : ℤ)
    → leb_ℤ stock (effective_threshold threshold) ≡ (
        ltb_ℤ (pos 0) threshold && leb_ℤ stock threshold
        || not (ltb_ℤ (pos 0) threshold) && leb_ℤ stock (pos 5))
low_as_stored stock threshold = ground arith

module _ (p : Platform) where
  abbrev row : ℕ → Db p → Option (Product p.Float)
  row k d = lookup (λ r. r.id) k (p.products.rows d.products)

  -- The notices after an alert, or after none.
  abbrev pub notices_after : Bool → Product p.Float → World p → List Notice
  notices_after alert r w =
      if alert then low_stock r.id r.low_stock_alert_cycle ∷ w.notices else w.notices

  abbrev Settled : Bool → Bool → Product p.Float → World p → Product p.Float → World p → Type 0
  Settled low told r w s v =
      (s.low_stock_notified ≡ low)
      × (row r.id v.db ≡ some s)
      × (v.notices ≡ notices_after (low && not told) s w)
      × (s.id ≡ r.id)
      × (s.stock_quantity ≡ r.stock_quantity)
      × (s.low_stock_threshold ≡ r.low_stock_threshold)

  row-update :
      (r s : Product p.Float) (f : Product p.Float → Product p.Float) (d : Db p)
      (t : p.products.Rows)
      → ((x : Product p.Float) → (f x).id ≡ x.id)
      → row r.id d ≡ some r
      → f r ≡ s
      → p.products.update (λ x. x.id == r.id) f d.products ≡ ok t
      → row r.id (record d { products = t }) ≡ some s
  row-update r s f d t keeps is fr e =
      ap (lookup (λ x. x.id) r.id) (p.products.update_ok _ _ _ t e)
      ∙ lookup-update_where (λ x. x.id) r.id (λ x. x.id == r.id) f (p.products.rows d.products)
          keeps
      ∙ ap (amend (λ x. x.id == r.id) f) is
      ∙ ap (λ c. some (if c then f r else r)) (==_self r.id)
      ∙ ap some fr

  settle_alert-Settled :
      (low told : Bool) (r : Product p.Float) (w : World p)
      → r.low_stock_notified ≡ told
      → row r.id w.db ≡ some r
      → Returns (Settled low told r w) (settle_alert p low told r w)
  unfolding settle_alert raise_alert clear_alert
  settle_alert-Settled true true r w is there =
      pure-Returns _ r w (is, there, refl, refl, refl, refl)
  settle_alert-Settled true false r w is there = exec_then _ _ _ _ w λ t e. notify_then _ _ _ _ (
      pure-Returns _ _ _
        (refl, row-update r _ _ w.db t (λ x. refl) there refl e, refl, refl, refl, refl))
  settle_alert-Settled false true r w is there = exec_then _ _ _ _ w λ t e.
      pure-Returns _ _ _
        (refl, row-update r _ _ w.db t (λ x. refl) there refl e, refl, refl, refl, refl)
  settle_alert-Settled false false r w is there =
      pure-Returns _ r w (is, there, refl, refl, refl, refl)

  -- What an adjustment has done about alerts.
  pub record Alerted (id : ℕ) (r : Product p.Float) (w v : World p) : Type 0 where
    pub old : Product p.Float
    pub was : lookup (λ x. x.id) id (p.products.rows w.db.products) ≡ some old
    pub is : lookup (λ x. x.id) id (p.products.rows v.db.products) ≡ some r
    pub flag : r.low_stock_notified ≡ is_low r
    pub told : v.notices ≡ notices_after (is_low r && not old.low_stock_notified) r w

  low_of :
      {q : ℤ} (old s : Product p.Float)
      → s.stock_quantity ≡ q
      → s.low_stock_threshold ≡ old.low_stock_threshold
      → leb_ℤ q (effective_threshold old.low_stock_threshold) ≡ is_low s
  low_of old s same_stock same_threshold =
      ap (λ q. leb_ℤ q (effective_threshold old.low_stock_threshold)) (sym same_stock)
      ∙ ap (λ l. leb_ℤ s.stock_quantity (effective_threshold l)) (sym same_threshold)
      ∙ low_as_stored s.stock_quantity s.low_stock_threshold

  adjust_stock_tx-Alerted :
      (input : AdjustStockInput) (w : World p)
      → Returns (λ r v. Alerted input.product_id r w v) (adjust_stock_tx p input w)
  unfolding adjust_stock_tx handle_threshold
  adjust_stock_tx-Alerted input w = query_or_then _ _ _ w _ λ old found.
      raise_if_then _ _ _ _ w λ enough. exec_then _ _ _ _ w λ t saved. fresh_then _ _ _ (
        exec_then _ _ _ _ _ λ u created.
          Returns-mono _ _ _
            (λ s v (flag, there, told, same_id, same_stock, same_threshold). record {
              old = old;
              was = p.products.get_ok _ _ old found;
              is = subst (λ k. row k v.db ≡ some s) (get-key p.products _ _ old found) there;
              flag = flag ∙ low_of old s same_stock same_threshold;
              told =
                  told
                  ∙ ap (λ c. notices_after (c && not old.low_stock_notified) s w)
                      (low_of old s same_stock same_threshold);
            })
            (settle_alert-Settled _ _ _ _ refl (
              ap (lookup (λ x. x.id) old.id) (p.products.save_ok _ _ t saved)
              ∙ lookup-upsert_self (λ x. x.id) old.id _ (p.products.rows w.db.products) refl)))

  -- When an adjustment succeeds: the product's row is the one that is returned; it is flagged as notified exactly
  -- if its stock is at its threshold or below (at 5 or below where the threshold is not positive); and one alert has been
  -- raised, with the row's cycle, if the stock is low and was not flagged before, and none otherwise.
  pub adjust_stock-Alerted :
      (input : AdjustStockInput) (w v : World p) (r : Product p.Float)
      → adjust_stock p input w ≡ (ok r, v)
      → Alerted input.product_id r w v
  unfolding adjust_stock
  adjust_stock-Alerted input w v r e =
      Returns-ok (λ r v. Alerted input.product_id r w v) _ r v e
        (transaction-Returns (λ r v. Alerted input.product_id r w v) _ w
          (Returns-mono _ _ _
            (λ r v a. record { old = a.old; was = a.was; is = a.is; flag = a.flag; told = a.told })
            (adjust_stock_tx-Alerted input w)))
