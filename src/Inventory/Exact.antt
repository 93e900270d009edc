-- ===== src/Inventory/Exact.antt =====
-- Stock levels that are values of `int` and not negative: adjustments keep them so, and are exact.
use auto_store_api.Prelude.{
  ⊤, Bool, true, false, Option, none, if◌then◌else◌, ℕ, ℤ, pos, ◌≡◌, sym, ◌∙◌, subst, some, ◌≤ℤ◌,
  ◌+ℤ◌, InInt64, ok, add_int64-InInt64, add_int64-exact_nonneg, ◌==◌,
}
use auto_store_api.Platform.{Platform}
use auto_store_api.Models.Sales.{Product}
use auto_store_api.World.{Db, World, Returns-ok, transaction-Returns}
use auto_store_api.Inventory.{AdjustStockInput, adjust_stock}
use auto_store_api.Inventory.Stock.{stock}
use auto_store_api.Inventory.Adjust.{Adjusted, Adjusted-is, adjust_stock_tx-Adjusted}

abbrev pub IsLevel : Option ℤ → Type 0
IsLevel none = ⊤
IsLevel (some b) = InInt64 b × (pos 0 ≤ℤ b)

module _ (p : Platform) where
  -- Every stock level is a value of `int` and not negative.
  pub record IsStocked (d : Db p) : Type 0 where
    pub levels : (k : ℕ) → IsLevel (stock p k d)

  pub level_at :
      (d : Db p) (k : ℕ) (b : ℤ) → IsStocked d → stock p k d ≡ some b → InInt64 b × (pos 0 ≤ℤ b)
  level_at d k b h is = subst IsLevel is (h.levels k)

  pub Adjusted-IsStocked :
      (input : AdjustStockInput) (d e : Db p) (r : Product p.Float)
      → IsStocked d
      → Adjusted p input d r e
      → IsStocked e
  Adjusted-IsStocked input d e r h a = record {
    levels = λ k. subst IsLevel (sym (a.levels k)) (either (k == input.product_id) k);
  }
    where
      either : (c : Bool) (k : ℕ) → IsLevel (if c then some r.stock_quantity else stock p k d)
      either true k = (subst InInt64 (sym a.moved) (add_int64-InInt64 _ _), a.nonneg)
      either false k = h.levels k

  -- From levels that are values of `int` and not negative, and for a `delta` that is an `int`, an
  -- adjustment that succeeds has added exactly `delta` to the product's level, with no wrap-around;
  -- the level is not negative; no other level has changed; the history has one movement more, with
  -- the delta and the new level; and all levels are still as they were assumed.
  pub adjust_stock_exact :
      (input : AdjustStockInput) (w v : World p) (r : Product p.Float)
      → IsStocked w.db
      → InInt64 input.delta
      → adjust_stock p input w ≡ (ok r, v)
      → (b : ℤ) × (stock p input.product_id w.db ≡ some b)
        × (stock p input.product_id v.db ≡ some (b +ℤ input.delta))
        × (pos 0 ≤ℤ b +ℤ input.delta)
        × IsStocked v.db
        × Adjusted p input w.db r v.db
  unfolding adjust_stock
  adjust_stock_exact input w v r h hd e =
      let a : Adjusted p input w.db r v.db =
        Returns-ok (λ r v. Adjusted p input w.db r v.db) _ r v e
          (transaction-Returns (λ r v. Adjusted p input w.db r v.db) _ w
            (adjust_stock_tx-Adjusted p input w)) in
      let range = level_at w.db _ _ h a.was in
      let exact : r.stock_quantity ≡ a.before +ℤ input.delta =
        a.moved
        ∙ add_int64-exact_nonneg a.before input.delta range.0 hd range.1
            (subst (λ x. pos 0 ≤ℤ x) a.moved a.nonneg) in
      (
        a.before,
        a.was,
        subst (λ x. stock p input.product_id v.db ≡ some x) exact (Adjusted-is p a),
        subst (λ x. pos 0 ≤ℤ x) exact a.nonneg,
        Adjusted-IsStocked input w.db v.db r h a,
        a,
      )
