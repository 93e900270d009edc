-- ===== src/Order/Read.antt =====
-- `GetByID` reads, and changes nothing.
use auto_store_api.Prelude.{ℕ, ◌≡◌, refl, sym, subst, List, ok, ◌==◌}
use auto_store_api.Platform.{Platform}
use auto_store_api.Models.Sales.{Order, OrderItem}
use auto_store_api.World.{
  World, M, Error, Returns, Fails, Fails-mono, pure-Returns, pure_else, query_then, query_else,
  call_then, call_or_then, call_else, call_or_else, or_raise, ◌>>=◌,
}
use auto_store_api.Order.{get_order}

module _ (p : Platform) (id : ℕ) where
  abbrev pub Loaded : World p → Order p.Float × List (OrderItem p.Float) → Type 0
  Loaded w r =
      (p.orders.get id w.db.orders ≡ ok (r.0))
      × (p.order_items.find (λ i. i.order_id == id) w.db.order_items ≡ ok (r.1))

  abbrev LoadedSame : World p → Order p.Float × List (OrderItem p.Float) → World p → Type 0
  LoadedSame w r v = (v ≡ w) × Loaded w r

  get_order-Loaded : (w : World p) → Returns (LoadedSame w) (get_order p id w)
  unfolding get_order
  get_order-Loaded w =
      query_then _ _ _ _
        λ o found. query_then _ _ _ _ λ items listed. pure-Returns _ _ w (refl, (found, listed))

  get_order_same : (w : World p) → Fails (λ _ v. v ≡ w) (get_order p id w)
  unfolding get_order
  get_order_same w =
      query_else _ _ _ w (λ _. refl)
        λ o found. query_else _ _ _ w (λ _. refl) λ items listed. pure_else _ _ w

  module _ {B : Type 0} (k : Order p.Float × List (OrderItem p.Float) → M p B) (w : World p) where
    module _ (Q : B → World p → Type 0)
        (h : (r : Order p.Float × List (OrderItem p.Float)) → Loaded w r → Returns Q (k r w)) where
      pub get_order_then : Returns Q ((get_order p id >>= k) w)
      get_order_then =
          call_then _ (LoadedSame w) _ k w (get_order-Loaded w)
            (λ r v (same, found). subst (λ v. Returns Q (k r v)) (sym same) (h r found))

      pub get_order_or_then : (x : Error) → Returns Q ((or_raise (get_order p id) x >>= k) w)
      get_order_or_then x =
          call_or_then _ (LoadedSame w) _ x k w (get_order-Loaded w)
            (λ r v (same, found). subst (λ v. Returns Q (k r v)) (sym same) (h r found))

    -- For what holds of a failure with no change.
    module _ (P : World p → Type 0) (same_ok : P w)
        (h : (r : Order p.Float × List (OrderItem p.Float))
          → Loaded w r
          → Fails (λ _ v. P v) (k r w)) where
      pub get_order_else : Fails (λ _ v. P v) ((get_order p id >>= k) w)
      get_order_else =
          call_else _ (LoadedSame w) _ k w (get_order-Loaded w)
            (Fails-mono _ _ _ (λ e v same. subst P (sym same) same_ok) (get_order_same w))
            (λ r v (same, found). subst (λ v. Fails (λ _ v. P v) (k r v)) (sym same) (h r found))

      pub get_order_or_else :
          (x : Error) → Fails (λ _ v. P v) ((or_raise (get_order p id) x >>= k) w)
      get_order_or_else x =
          call_or_else _ (LoadedSame w) _ x k w (get_order-Loaded w)
            (Fails-mono _ _ _ (λ e v same. subst P (sym same) same_ok) (get_order_same w))
            (λ r v (same, found). subst (λ v. Fails (λ _ v. P v) (k r v)) (sym same) (h r found))
