-- ===== src/Order/Atomic.antt =====
-- What a failed `Create` or `Cancel` leaves behind.
use auto_store_api.Prelude.{⊤, ℕ, ◌≡◌, refl, String, Result, ok, err}
use auto_store_api.Platform.{Platform}
use auto_store_api.World.{
  World, M, Error, Returns, transaction_else, Fails, Fails-err, query_else, query_or_else,
  raise_if_else, call_else, ignore_else, pure_else, transaction, ◌>>=◌,
}
use auto_store_api.Order.{cancel, create}
use auto_store_api.Order.Read.{get_order_else}

module _ (p : Platform) where
  -- The failure has left the database as it was.
  abbrev Untouched : World p → Error → World p → Type 0
  Untouched w _ v = v.db ≡ w.db

  transaction_then_else :
      {A B : Type 0} (m : M p A) (k : A → M p B) (w : World p)
      → ((a : A) (v : World p) → Fails (Untouched w) (k a v))
      → Fails (Untouched w) ((transaction m >>= k) w)
  unfolding Returns
  transaction_then_else m k w h =
      call_else _ (λ _ _. ⊤) (transaction m) k w (always _) (transaction_else m w) (λ a v _. h a v)
    where
      always : {A : Type 0} (c : Result Error A × World p) → Returns (λ _ _. ⊤) c
      always (ok a, v) = tt
      always (err e, v) = tt

  -- A `Create` that fails, at any of its steps or at the commit, leaves the database as it was: no
  -- order, no items, no stock taken, no movements, and the cart still full.
  pub create_atomic :
      (user_id ship bill : ℕ) (method : String) (w : World p) (e : Error)
      → (create p user_id ship bill method w).0 ≡ err e
      → (create p user_id ship bill method w).1.db ≡ w.db
  unfolding create
  create_atomic user_id ship bill method w e h = Fails-err (Untouched w) _ e h (
      query_or_else _ _ _ w _ refl λ cart _. raise_if_else _ _ _ _ w refl λ _.
        query_or_else _ _ _ w _ refl λ _ _. query_or_else _ _ _ w _ refl λ _ _.
          query_else _ _ _ w (λ _. refl)
            λ priced _.
              raise_if_else _ _ _ _ w refl
                λ _. transaction_then_else _ _ w λ o v. ignore_else _ _ _ v λ u. pure_else _ o u)

  -- A `Cancel` that fails, also one that is refused, leaves the database as it was.
  pub cancel_atomic :
      (id user_id : ℕ) (w : World p) (e : Error)
      → (cancel p id user_id w).0 ≡ err e
      → (cancel p id user_id w).1.db ≡ w.db
  unfolding cancel
  cancel_atomic id user_id w e h = Fails-err (Untouched w) _ e h (
      get_order_else p id _ w (λ v. v.db ≡ w.db) refl
        λ r _.
          raise_if_else _ _ _ _ w refl λ _. raise_if_else _ _ _ _ w refl λ _. transaction_else _ w)
