-- ===== src/World/Reads.antt =====
-- The rules that follow the reads of a method.
use auto_store_api.Prelude.{◌≡◌, refl, sym, ap, ok_injective, Result, ok, err, subst}
use auto_store_api.Platform.{Platform}
use auto_store_api.Platform.Sql.{DbError, record_not_found, duplicated_key, failure}
use auto_store_api.World.State.{Db, World}
use auto_store_api.World.Errors.{Error}
use auto_store_api.World.Monad.{
  M, ◌>>=◌, pure, raise, query, or_raise, attempt, on_missing, missing_as,
}
use auto_store_api.World.Triples.{Returns}

-- A read that finds `a`.
pub query_or_is :
    {p : Platform} {A B : Type 0} (f : Db p → Result DbError A) (k : A → M p B) (w : World p)
    (x : Error) (a : A)
    → f w.db ≡ ok a
    → (or_raise (query p f) x >>= k) w ≡ k a w
unfolding ◌>>=◌ query or_raise
query_or_is {p} {A} {B} f k w x a e = λ i. go (e i)
  where
    go : Result DbError A → Result Error B × World p
    go r =
        let b : Result Error A × World p = elim r [
          | ok a ↦ (ok a, w)
          | err e ↦ (err (Error.db e), w)
        ] in
        let c : Result Error A × World p =
          let (r, v) = b in elim r [ ok a ↦ (ok a, v) | err _ ↦ (err x, v) ] in
        let (r, v) = c in elim r [ ok a ↦ k a v | err e ↦ (err e, v) ]

-- The rules for a step that is followed by the rest of the method.
module _ {p : Platform} {B : Type 0} (Q : B → World p → Type 0) where
  pub pure-Returns : (a : B) (w : World p) → Q a w → Returns Q (pure a w)
  unfolding Returns pure
  pure-Returns a w h = h

  pub raise-Returns : (e : Error) (w : World p) → Returns Q (raise e w)
  unfolding Returns raise
  raise-Returns e w = tt

  module _ {A : Type 0} (f : Db p → Result DbError A) (k : A → M p B) (w : World p) where
    pub query_then : ((a : A) → f w.db ≡ ok a → Returns Q (k a w)) → Returns Q ((query p f >>= k) w)
    unfolding Returns ◌>>=◌ query
    query_then h = go (f w.db) h
      where
        go :
            (r : Result DbError A)
            → ((a : A) → r ≡ ok a → Returns Q (k a w))
            → let c : Result Error A × World p = elim r [
              | ok a ↦ (ok a, w)
              | err e ↦ (err (Error.db e), w)
            ] in
              let (r, v) = c in Returns Q (elim r [ ok a ↦ k a v | err e ↦ (err e, v) ])
        go (ok a) h = h a refl
        go (err e) h = tt

    pub query_or_then :
        (x : Error)
        → ((a : A) → f w.db ≡ ok a → Returns Q (k a w))
        → Returns Q ((or_raise (query p f) x >>= k) w)
    unfolding Returns ◌>>=◌ query or_raise
    query_or_then x h = go (f w.db) h
      where
        go :
            (r : Result DbError A)
            → ((a : A) → r ≡ ok a → Returns Q (k a w))
            → let b : Result Error A × World p = elim r [
              | ok a ↦ (ok a, w)
              | err e ↦ (err (Error.db e), w)
            ] in
              let c : Result Error A × World p =
                let (r, v) = b in elim r [ ok a ↦ (ok a, v) | err _ ↦ (err x, v) ] in
              let (r, v) = c in Returns Q (elim r [ ok a ↦ k a v | err e ↦ (err e, v) ])
        go (ok a) h = h a refl
        go (err e) h = tt

    pub query_missing_then :
        (x : Error)
        → ((a : A) → f w.db ≡ ok a → Returns Q (k a w))
        → Returns Q ((on_missing (query p f) x >>= k) w)
    unfolding Returns ◌>>=◌ query on_missing
    query_missing_then x h = go (f w.db) h
      where
        go :
            (r : Result DbError A)
            → ((a : A) → r ≡ ok a → Returns Q (k a w))
            → let b : Result Error A × World p = elim r [
              | ok a ↦ (ok a, w)
              | err e ↦ (err (Error.db e), w)
            ] in
              let c : Result Error A × World p = let (r, v) = b in (missing_as x r, v) in
              let (r, v) = c in Returns Q (elim r [ ok a ↦ k a v | err e ↦ (err e, v) ])
        go (ok a) h = h a refl
        go (err record_not_found) h = tt
        go (err duplicated_key) h = tt
        go (err failure) h = tt

  -- A call of which the end is known, and is a value for what follows.
  pub attempt_then :
      {A : Type 0} (m : M p A) (k : Result Error A → M p B) (w v : World p) (r : Result Error A)
      → m w ≡ (r, v)
      → Returns Q (k r v)
      → Returns Q ((attempt m >>= k) w)
  unfolding Returns ◌>>=◌ attempt
  attempt_then m k w v r e h = subst (λ c. let (r, v) = c in Returns Q (k r v)) (sym e) h

  -- A read whose failure is a value: a result that it has is the database's.
  pub query_value_then :
      {A : Type 0} (f : Db p → Result DbError A) (k : Result Error A → M p B) (w : World p)
      → ((r : Result Error A) → ((a : A) → r ≡ ok a → f w.db ≡ ok a) → Returns Q (k r w))
      → Returns Q ((attempt (query p f) >>= k) w)
  unfolding Returns ◌>>=◌ query attempt
  query_value_then {A} f k w h = go (f w.db) (λ a e. e)
    where
      go :
          (r : Result DbError A)
          → ((a : A) → r ≡ ok a → f w.db ≡ ok a)
          → let b : Result Error A × World p = elim r [
            | ok a ↦ (ok a, w)
            | err e ↦ (err (Error.db e), w)
          ] in
            let (x, v) = b in Returns Q (k x v)
      go (ok a) g = h (ok a) (λ c e. g c (ap ok (ok_injective e)))
      go (err e) g = h (err (Error.db e)) (λ c x. absurd cc)
