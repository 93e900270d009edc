-- ===== src/World/Triples.antt =====
-- What holds of a method when it succeeds, and of a transaction at both its ends.
use auto_store_api.Prelude.{⊤, ◌≡◌, refl, suc, Option, Result, ok, err, none, some, subst}
use auto_store_api.Platform.{Platform}
use auto_store_api.Platform.Sql.{DbError}
use auto_store_api.World.State.{World}
use auto_store_api.World.Errors.{Error}
use auto_store_api.World.Monad.{M, transaction, settle}

module _ {p : Platform} {A : Type 0} where
  -- If the call ends well, `P` holds of its result and of the state after it.
  unfoldable pub Returns : (A → World p → Type 0) → Result Error A × World p → Type 0
  Returns P (ok a, v) = P a v
  Returns P (err _, v) = ⊤

  pub Returns-ok :
      (P : A → World p → Type 0) (c : Result Error A × World p) (a : A) (v : World p)
      → c ≡ (ok a, v)
      → Returns P c
      → P a v
  unfolding Returns
  Returns-ok P c a v e h = subst (Returns P) e h

  -- Nothing is claimed of the end.
  pub Returns-always : (c : Result Error A × World p) → Returns (λ _ _. ⊤) c
  unfolding Returns
  Returns-always (ok a, v) = tt
  Returns-always (err e, v) = tt

  pub Returns-mono :
      (P Q : A → World p → Type 0) (c : Result Error A × World p)
      → ((a : A) (v : World p) → P a v → Q a v)
      → Returns P c
      → Returns Q c
  unfolding Returns
  Returns-mono P Q (ok a, v) k h = k a v h
  Returns-mono P Q (err e, v) k h = tt

  -- A transaction that ends well is its body, and one commit.
  pub transaction-Returns :
      (P : A → World p → Type 0) (m : M p A) (w : World p)
      → Returns (λ a v. P a (record v { begun = suc v.begun })) (m w)
      → Returns P (transaction m w)
  unfolding Returns transaction
  transaction-Returns P m w h = go (m w) h
    where
      commit :
          (a : A) (v : World p) (o : Option DbError)
          → P a (record v { begun = suc v.begun })
          → Returns P (elim o [
            | none ↦ (ok a, record v { begun = suc v.begun })
            | some e ↦ (err (Error.db e), record v { db = w.db; begun = suc v.begun })
          ])
      commit a v none h = h
      commit a v (some e) h = tt

      go :
          (c : Result Error A × World p)
          → Returns (λ a v. P a (record v { begun = suc v.begun })) c
          → Returns P (settle w c)
      go (ok a, v) h = commit a v (p.commit v.begun) h
      go (err e, v) h = tt

  -- A transaction that fails leaves the database as it was.
  pub transaction-Fails :
      (m : M p A) (w : World p) (e : Error)
      → (transaction m w).0 ≡ err e
      → (transaction m w).1.db ≡ w.db
  unfolding Returns transaction
  transaction-Fails m w e h = go (m w) h
    where
      commit :
          (a : A) (v : World p) (o : Option DbError)
          → let c : Result Error A × World p = elim o [
            | none ↦ (ok a, record v { begun = suc v.begun })
            | some e ↦ (err (Error.db e), record v { db = w.db; begun = suc v.begun })
          ] in
            c.0 ≡ err e → c.1.db ≡ w.db
      commit a v none h = cc
      commit a v (some e) h = refl

      go : (c : Result Error A × World p) → (settle w c).0 ≡ err e → (settle w c).1.db ≡ w.db
      go (ok a, v) h = commit a v (p.commit v.begun) h
      go (err e, v) h = refl
