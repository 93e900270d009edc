-- ===== src/World/Keeping.antt =====
-- What a method leaves alone, however it ends: a relation between the database before and after it
-- that holds of no change and can be chained.
use auto_store_api.Prelude.{
  ⊤, ℕ, suc, ◌≡◌, refl, sym, subst, Bool, true, false, Option, none, some, Result, ok, err,
}
use auto_store_api.Platform.{Platform}
use auto_store_api.Platform.Sql.{DbError, record_not_found, duplicated_key, failure}
use auto_store_api.World.State.{Db, World, Notice}
use auto_store_api.World.Errors.{Error}
use auto_store_api.World.Monad.{
  M, ◌>>=◌, ◌>>◌, query, exec, raise_if, pure, raise, on_missing, attempt, ignore, transaction,
  settle, skip_if, lift, fresh, notify, missing_as,
}

pub record Kept (p : Platform) : Type 1 where
  pub Rel : Db p → Db p → Type 0
  pub same : (d : Db p) → Rel d d
  pub chain : (d e f : Db p) → Rel d e → Rel e f → Rel d f

module _ {p : Platform} (R : Kept p) where
  -- The method keeps what `R` says, from this state.
  unfoldable pub Keeps : {A : Type 0} → World p → Result Error A × World p → Type 0
  Keeps w c = R.Rel w.db c.1.db

  pub Keeps-rel :
      {A : Type 0} (w : World p) (c : Result Error A × World p) → Keeps w c → R.Rel w.db c.1.db
  unfolding Keeps
  Keeps-rel w c h = h

  module _ {A B : Type 0} where
    pub bind-Keeps :
        (m : M p A) (k : A → M p B) (w : World p)
        → Keeps w (m w)
        → ((a : A) (v : World p) → m w ≡ (ok a, v) → Keeps v (k a v))
        → Keeps w ((m >>= k) w)
    unfolding Keeps ◌>>=◌
    bind-Keeps m k w h next = go (m w) h (λ a v e. next a v e)
      where
        go :
            (c : Result Error A × World p)
            → R.Rel w.db c.1.db
            → ((a : A) (v : World p) → c ≡ (ok a, v) → R.Rel v.db (k a v).1.db)
            → R.Rel w.db (
                let c : Result Error B × World p =
                  (let (r, v) = c in elim r [ ok a ↦ k a v | err e ↦ (err e, v) ]) in
                c.1.db)
        go (ok a, v) h next = R.chain _ _ _ h (next a v refl)
        go (err e, v) h next = h

    pub then-Keeps :
        (m : M p A) (k : M p B) (w : World p)
        → Keeps w (m w)
        → ((v : World p) → Keeps v (k v))
        → Keeps w ((m >> k) w)
    unfolding Keeps ◌>>◌
    then-Keeps m k w h next = go (m w) h
      where
        go :
            (c : Result Error A × World p)
            → R.Rel w.db c.1.db
            → R.Rel w.db (
                let c : Result Error B × World p =
                  (let (r, v) = c in elim r [ ok a ↦ k v | err e ↦ (err e, v) ]) in
                c.1.db)
        go (ok a, v) h = R.chain _ _ _ h (next v)
        go (err e, v) h = h

  module _ {A : Type 0} where
    pub pure-Keeps : (a : A) (w : World p) → Keeps w (pure a w)
    unfolding Keeps pure
    pure-Keeps a w = R.same w.db

    pub lift-Keeps : (r : Result Error A) (w : World p) → Keeps w (lift p r w)
    unfolding Keeps lift
    lift-Keeps r w = R.same w.db

    pub query-Keeps : (f : Db p → Result DbError A) (w : World p) → Keeps w (query p f w)
    unfolding Keeps query
    query-Keeps f w = go (f w.db)
      where
        go :
            (r : Result DbError A)
            → R.Rel w.db (
                let c : Result Error A × World p = (elim r [
                  | ok a ↦ (ok a, w)
                  | err e ↦ (err (Error.db e), w)
                ]) in
                c.1.db)
        go (ok a) = R.same w.db
        go (err e) = R.same w.db

    pub missing-Keeps :
        (m : M p A) (x : Error) (w : World p) → Keeps w (m w) → Keeps w (on_missing m x w)
    unfolding Keeps on_missing
    missing-Keeps m x w h = h

    pub attempt-Keeps : (m : M p A) (w : World p) → Keeps w (m w) → Keeps w (attempt m w)
    unfolding Keeps attempt
    attempt-Keeps m w h = h

    pub ignore-Keeps : (m : M p A) (w : World p) → Keeps w (m w) → Keeps w (ignore m w)
    unfolding Keeps ignore
    ignore-Keeps m w h = h

    -- A transaction that is taken back has changed nothing.
    pub transaction-Keeps : (m : M p A) (w : World p) → Keeps w (m w) → Keeps w (transaction m w)
    unfolding Keeps transaction
    transaction-Keeps m w h = go (m w) h
      where
        commit :
            (a : A) (v : World p) (o : Option DbError)
            → R.Rel w.db v.db
            → R.Rel w.db (
                let c : Result Error A × World p = elim o [
                  | none ↦ (ok a, record v { begun = suc v.begun })
                  | some e ↦ (err (Error.db e), record v { db = w.db; begun = suc v.begun })
                ] in
                c.1.db)
        commit a v none h = h
        commit a v (some e) h = R.same w.db

        go : (c : Result Error A × World p) → R.Rel w.db c.1.db → R.Rel w.db (settle w c).1.db
        go (ok a, v) h = commit a v (p.commit v.begun) h
        go (err e, v) h = R.same w.db

  pub raise-Keeps : (A : Type 0) (e : Error) (w : World p) → Keeps {A = A} w (raise e w)
  unfolding Keeps raise
  raise-Keeps A e w = R.same w.db

  pub same-Keeps :
      (A : Type 0) (w : World p) (c : Result Error A × World p) → c.1.db ≡ w.db → Keeps w c
  unfolding Keeps
  same-Keeps A w c e = subst (R.Rel w.db) (sym e) (R.same w.db)

  pub raise_if-Keeps : (b : Bool) (x : Error) (w : World p) → Keeps w (raise_if p b x w)
  unfolding Keeps raise_if
  raise_if-Keeps b x w = R.same w.db

  pub fresh-Keeps : (w : World p) → Keeps w (fresh p w)
  unfolding Keeps fresh
  fresh-Keeps w = R.same w.db

  pub notify-Keeps : (n : Notice) (w : World p) → Keeps w (notify p n w)
  unfolding Keeps notify
  notify-Keeps n w = R.same w.db

  pub exec-Keeps :
      {T : Type 0} (f : Db p → Result DbError T) (put : T → Db p → Db p) (w : World p)
      → ((t : T) → f w.db ≡ ok t → R.Rel w.db (put t w.db))
      → Keeps w (exec p f put w)
  unfolding Keeps exec
  exec-Keeps {T} f put w h = go (f w.db) h
    where
      go :
          (r : Result DbError T)
          → ((t : T) → r ≡ ok t → R.Rel w.db (put t w.db))
          → R.Rel w.db (
              let c : Result Error ⊤ × World p = (elim r [
                | ok t ↦ (ok tt, record w { db = put t w.db })
                | err e ↦ (err (Error.db e), w)
              ]) in
              c.1.db)
      go (ok t) h = h t refl
      go (err e) h = R.same w.db

  pub skip_if-Keeps :
      (b : Bool) (m : M p ⊤) (w : World p) → (b ≡ false → Keeps w (m w)) → Keeps w (skip_if p b m w)
  unfolding Keeps skip_if
  skip_if-Keeps true m w h = R.same w.db
  skip_if-Keeps false m w h = h refl

  -- The steps that hand their state on, and the reads, with what they tell the rest of the method.
  module _ {B : Type 0} where
    pub raise_if_then-Keeps :
        (b : Bool) (x : Error) (k : M p B) (w : World p)
        → (b ≡ false → Keeps w (k w))
        → Keeps w ((raise_if p b x >> k) w)
    unfolding Keeps ◌>>◌ raise_if
    raise_if_then-Keeps true x k w h = R.same w.db
    raise_if_then-Keeps false x k w h = h refl

    pub fresh_then-Keeps :
        (k : ℕ → M p B) (w : World p)
        → Keeps
            (record w { drawn = suc w.drawn })
            (k (p.uuid w.drawn) (record w { drawn = suc w.drawn }))
        → Keeps w ((fresh p >>= k) w)
    unfolding Keeps ◌>>=◌ fresh
    fresh_then-Keeps k w h = h

    -- A write whose end is a value.
    pub exec_value_then-Keeps :
        {T : Type 0} (f : Db p → Result DbError T) (put : T → Db p → Db p)
        (k : Result Error ⊤ → M p B) (w : World p)
        → ((t : T) → f w.db ≡ ok t → R.Rel w.db (k (ok tt) (record w { db = put t w.db })).1.db)
        → ((e : DbError) → f w.db ≡ err e → Keeps w (k (err (Error.db e)) w))
        → Keeps w ((attempt (exec p f put) >>= k) w)
    unfolding Keeps ◌>>=◌ exec attempt
    exec_value_then-Keeps {T} f put k w h g = go (f w.db) h g
      where
        go :
            (r : Result DbError T)
            → ((t : T) → r ≡ ok t → R.Rel w.db (k (ok tt) (record w { db = put t w.db })).1.db)
            → ((e : DbError) → r ≡ err e → Keeps w (k (err (Error.db e)) w))
            → let b : Result Error ⊤ × World p = elim r [
              | ok t ↦ (ok tt, record w { db = put t w.db })
              | err e ↦ (err (Error.db e), w)
            ] in
              let (x, v) = b in Keeps {A = B} w (k x v)
        go (ok t) h g = h t refl
        go (err e) h g = g e refl

    pub lift_then-Keeps :
        {A : Type 0} (r : Result Error A) (k : A → M p B) (w : World p)
        → ((a : A) → r ≡ ok a → Keeps w (k a w))
        → Keeps w ((lift p r >>= k) w)
    unfolding Keeps ◌>>=◌ lift
    lift_then-Keeps (ok a) k w h = h a refl
    lift_then-Keeps (err e) k w h = R.same w.db

    module _ {A : Type 0} (f : Db p → Result DbError A) where
      pub query_then-Keeps :
          (k : A → M p B) (w : World p)
          → ((a : A) → f w.db ≡ ok a → Keeps w (k a w))
          → Keeps w ((query p f >>= k) w)
      unfolding Keeps ◌>>=◌ query
      query_then-Keeps k w h = go (f w.db) h
        where
          go :
              (r : Result DbError A)
              → ((a : A) → r ≡ ok a → Keeps w (k a w))
              → let c : Result Error A × World p = elim r [
                | ok a ↦ (ok a, w)
                | err e ↦ (err (Error.db e), w)
              ] in
                let (r, v) = c in Keeps {A = B} w (elim r [ ok a ↦ k a v | err e ↦ (err e, v) ])
          go (ok a) h = h a refl
          go (err e) h = R.same w.db

      pub missing_then-Keeps :
          (x : Error) (k : A → M p B) (w : World p)
          → ((a : A) → f w.db ≡ ok a → Keeps w (k a w))
          → Keeps w ((on_missing (query p f) x >>= k) w)
      unfolding Keeps ◌>>=◌ query on_missing
      missing_then-Keeps x k w h = go (f w.db) h
        where
          go :
              (r : Result DbError A)
              → ((a : A) → r ≡ ok a → Keeps w (k a w))
              → let b : Result Error A × World p = elim r [
                | ok a ↦ (ok a, w)
                | err e ↦ (err (Error.db e), w)
              ] in
                let c : Result Error A × World p = let (r, v) = b in (missing_as x r, v) in
                let (r, v) = c in Keeps {A = B} w (elim r [ ok a ↦ k a v | err e ↦ (err e, v) ])
          go (ok a) h = h a refl
          go (err record_not_found) h = R.same w.db
          go (err duplicated_key) h = R.same w.db
          go (err failure) h = R.same w.db

      pub value_then-Keeps :
          (k : Result Error A → M p B) (w : World p)
          → ((r : Result Error A) → Keeps w (k r w))
          → Keeps w ((attempt (query p f) >>= k) w)
      unfolding Keeps ◌>>=◌ query attempt
      value_then-Keeps k w h = go (f w.db)
        where
          go :
              (r : Result DbError A)
              → let b : Result Error A × World p = elim r [
                | ok a ↦ (ok a, w)
                | err e ↦ (err (Error.db e), w)
              ] in
                let (x, v) = b in Keeps {A = B} w (k x v)
          go (ok a) = h (ok a)
          go (err e) = h (err (Error.db e))

      -- The same, with what the read has found.
      pub cases_then-Keeps :
          (k : Result Error A → M p B) (w : World p)
          → ((a : A) → f w.db ≡ ok a → Keeps w (k (ok a) w))
          → ((e : DbError) → f w.db ≡ err e → Keeps w (k (err (Error.db e)) w))
          → Keeps w ((attempt (query p f) >>= k) w)
      unfolding Keeps ◌>>=◌ query attempt
      cases_then-Keeps k w h g = go (f w.db) h g
        where
          go :
              (r : Result DbError A)
              → ((a : A) → r ≡ ok a → Keeps w (k (ok a) w))
              → ((e : DbError) → r ≡ err e → Keeps w (k (err (Error.db e)) w))
              → let b : Result Error A × World p = elim r [
                | ok a ↦ (ok a, w)
                | err e ↦ (err (Error.db e), w)
              ] in
                let (x, v) = b in Keeps {A = B} w (k x v)
          go (ok a) h g = h a refl
          go (err e) h g = g e refl
