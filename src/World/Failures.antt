-- ===== src/World/Failures.antt =====
-- What holds of the state when a method fails, and the rules that follow a method's steps.
use auto_store_api.Prelude.{⊤, ◌≡◌, refl, Bool, true, false, Result, ok, err, subst}
use auto_store_api.Platform.{Platform}
use auto_store_api.Platform.Sql.{DbError}
use auto_store_api.World.State.{Db, World}
use auto_store_api.World.Errors.{Error}
use auto_store_api.World.Monad.{
  M, ◌>>=◌, ◌>>◌, pure, query, raise_if, or_raise, transaction, ignore, lift, skip_if,
}
use auto_store_api.World.Triples.{Returns, transaction-Fails}

module _ {p : Platform} {A : Type 0} where
  -- If the call fails, `E` holds of its error and of the state after it.
  unfoldable pub Fails : (Error → World p → Type 0) → Result Error A × World p → Type 0
  Fails E (ok _, v) = ⊤
  Fails E (err e, v) = E e v

  pub Fails-err :
      (E : Error → World p → Type 0) (c : Result Error A × World p) (e : Error)
      → c.0 ≡ err e
      → Fails E c
      → E e c.1
  unfolding Fails
  Fails-err E (ok a, v) e h f = cc
  Fails-err E (err x, v) e h f = subst (λ y. E y v) (err_injective h) f
    where
      err_injective : {x y : Error} → ◌≡◌ {A = Result Error A} (err x) (err y) → x ≡ y
      err_injective e = cc

  pub Fails-mono :
      (E F : Error → World p → Type 0) (c : Result Error A × World p)
      → ((e : Error) (v : World p) → E e v → F e v)
      → Fails E c
      → Fails F c
  unfolding Fails
  Fails-mono E F (ok a, v) k h = tt
  Fails-mono E F (err e, v) k h = k e v h

  -- What holds at both ends of a call holds of the state that it leaves.
  pub both_ends :
      (P : World p → Type 0) (c : Result Error A × World p)
      → Returns (λ _ v. P v) c
      → Fails (λ _ v. P v) c
      → P c.1
  unfolding Returns Fails
  both_ends P (ok a, v) h g = h
  both_ends P (err e, v) h g = g

  pub transaction_else : (m : M p A) (w : World p) → Fails (λ _ v. v.db ≡ w.db) (transaction m w)
  unfolding Fails
  transaction_else m w = go (transaction m w) (λ e. transaction-Fails m w e)
    where
      go :
          (c : Result Error A × World p)
          → ((e : Error) → c.0 ≡ err e → c.1.db ≡ w.db)
          → Fails (λ _ v. v.db ≡ w.db) c
      go (ok a, v) h = tt
      go (err e, v) h = h e refl

module _ {p : Platform} {B : Type 0} (E : Error → World p → Type 0) where
  pub pure_else : (b : B) (w : World p) → Fails E (pure b w)
  unfolding Fails pure
  pure_else b w = tt

  module _ {A : Type 0} (f : Db p → Result DbError A) (k : A → M p B) (w : World p) where
    pub query_else :
        ((e : Error) → E e w)
        → ((a : A) → f w.db ≡ ok a → Fails E (k a w))
        → Fails E ((query p f >>= k) w)
    unfolding Fails ◌>>=◌ query
    query_else x h = go (f w.db) h
      where
        go :
            (r : Result DbError A)
            → ((a : A) → r ≡ ok a → Fails E (k a w))
            → let c : Result Error A × World p = elim r [
              | ok a ↦ (ok a, w)
              | err e ↦ (err (Error.db e), w)
            ] in
              let (r, v) = c in Fails {A = B} E (elim r [ ok a ↦ k a v | err e ↦ (err e, v) ])
        go (ok a) h = h a refl
        go (err e) h = x (Error.db e)

    pub query_or_else :
        (x : Error)
        → E x w
        → ((a : A) → f w.db ≡ ok a → Fails E (k a w))
        → Fails E ((or_raise (query p f) x >>= k) w)
    unfolding Fails ◌>>=◌ query or_raise
    query_or_else x y h = go (f w.db) h
      where
        go :
            (r : Result DbError A)
            → ((a : A) → r ≡ ok a → Fails E (k a w))
            → let b : Result Error A × World p = elim r [
              | ok a ↦ (ok a, w)
              | err e ↦ (err (Error.db e), w)
            ] in
              let c : Result Error A × World p =
                let (r, v) = b in elim r [ ok a ↦ (ok a, v) | err _ ↦ (err x, v) ] in
              let (r, v) = c in Fails {A = B} E (elim r [ ok a ↦ k a v | err e ↦ (err e, v) ])
        go (ok a) h = h a refl
        go (err e) h = y

  -- A call of another method, through what is known of both its ends.
  pub call_else :
      {A : Type 0} (P : A → World p → Type 0) (m : M p A) (k : A → M p B) (w : World p)
      → Returns P (m w)
      → Fails E (m w)
      → ((a : A) (v : World p) → P a v → Fails E (k a v))
      → Fails E ((m >>= k) w)
  unfolding Fails Returns ◌>>=◌
  call_else {A} P m k w g h next = go (m w) g h
    where
      go :
          (c : Result Error A × World p)
          → Returns P c
          → Fails {A = A} E c
          → Fails {A = B} E (let (r, v) = c in elim r [ ok a ↦ k a v | err e ↦ (err e, v) ])
      go (ok a, v) g h = next a v g
      go (err e, v) g h = h

  pub call_or_else :
      {A : Type 0} (P : A → World p → Type 0) (m : M p A) (x : Error) (k : A → M p B) (w : World p)
      → Returns P (m w)
      → Fails (λ _ v. E x v) (m w)
      → ((a : A) (v : World p) → P a v → Fails E (k a v))
      → Fails E ((or_raise m x >>= k) w)
  unfolding Fails Returns ◌>>=◌ or_raise
  call_or_else {A} P m x k w g h next = go (m w) g h
    where
      go :
          (c : Result Error A × World p)
          → Returns P c
          → Fails {A = A} (λ _ v. E x v) c
          → let b : Result Error A × World p =
              let (r, v) = c in elim r [ ok a ↦ (ok a, v) | err _ ↦ (err x, v) ] in
            Fails {A = B} E (let (r, v) = b in elim r [ ok a ↦ k a v | err e ↦ (err e, v) ])
      go (ok a, v) g h = next a v g
      go (err e, v) g h = h

  pub raise_if_else :
      (b : Bool) (x : Error) (k : M p B) (w : World p)
      → E x w
      → (b ≡ false → Fails E (k w))
      → Fails E ((raise_if p b x >> k) w)
  unfolding Fails ◌>>◌ raise_if
  raise_if_else true x k w y h = y
  raise_if_else false x k w y h = h refl

  pub ignore_else :
      {A : Type 0} (m : M p A) (k : M p B) (w : World p)
      → ((v : World p) → Fails E (k v))
      → Fails E ((ignore m >> k) w)
  unfolding Fails ◌>>◌ ignore
  ignore_else m k w h = h (m w).1

  pub lift_else :
      {A : Type 0} (r : Result Error A) (k : A → M p B) (w : World p)
      → ((e : Error) → E e w)
      → ((a : A) → r ≡ ok a → Fails E (k a w))
      → Fails E ((lift p r >>= k) w)
  unfolding Fails ◌>>=◌ lift
  lift_else (ok a) k w y h = h a refl
  lift_else (err e) k w y h = y e

module _ {p : Platform} (E : Error → World p → Type 0) where
  pub skip_if_else :
      (b : Bool) (m : M p ⊤) (w : World p) → (b ≡ false → Fails E (m w)) → Fails E (skip_if p b m w)
  unfolding Fails skip_if
  skip_if_else true m w h = tt
  skip_if_else false m w h = h refl
