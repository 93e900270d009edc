-- ===== src/World/Runs.antt =====
-- What a method does when the end of its first step is known.
use auto_store_api.Prelude.{⊤, ◌≡◌, refl, Bool, true, false, Result, ok, err, ◌⊎◌, inl, inr}
use auto_store_api.Platform.{Platform}
use auto_store_api.Platform.Sql.{DbError, record_not_found, duplicated_key, failure}
use auto_store_api.World.State.{Db, World}
use auto_store_api.World.Errors.{Error}
use auto_store_api.World.Monad.{
  M, ◌>>=◌, ◌>>◌, query, raise_if, on_missing, missing_as, attempt, skip_if,
}

module _ {p : Platform} {A B : Type 0} where
  pub run_ok :
      (m : M p A) (k : A → M p B) (w v : World p) (a : A) → m w ≡ (ok a, v) → (m >>= k) w ≡ k a v
  unfolding ◌>>=◌
  run_ok m k w v a e = λ i. go (e i)
    where
      go : Result Error A × World p → Result Error B × World p
      go c = let (r, v) = c in elim r [ ok a ↦ k a v | err e ↦ (err e, v) ]

  pub run_err :
      (m : M p A) (k : A → M p B) (w v : World p) (x : Error)
      → m w ≡ (err x, v)
      → (m >>= k) w ≡ (err x, v)
  unfolding ◌>>=◌
  run_err m k w v x e = λ i. go (e i)
    where
      go : Result Error A × World p → Result Error B × World p
      go c = let (r, v) = c in elim r [ ok a ↦ k a v | err e ↦ (err e, v) ]

  -- A read that finds `a`.
  pub query_missing_is :
      (f : Db p → Result DbError A) (x : Error) (k : A → M p B) (w : World p) (a : A)
      → f w.db ≡ ok a
      → (on_missing (query p f) x >>= k) w ≡ k a w
  unfolding ◌>>=◌ query on_missing
  query_missing_is f x k w a e = λ i. run (e i)
    where
      run : Result DbError A → Result Error B × World p
      run r =
          let b : Result Error A × World p = elim r [
            | ok a ↦ (ok a, w)
            | err e ↦ (err (Error.db e), w)
          ] in
          let c : Result Error A × World p = let (r, v) = b in (missing_as x r, v) in
          let (r, v) = c in elim r [ ok a ↦ k a v | err e ↦ (err e, v) ]

  -- A read as a value, that finds `a`.
  pub value_is :
      (f : Db p → Result DbError A) (k : Result Error A → M p B) (w : World p) (a : A)
      → f w.db ≡ ok a
      → (attempt (query p f) >>= k) w ≡ k (ok a) w
  unfolding ◌>>=◌ query attempt
  value_is f k w a e = λ i. run (e i)
    where
      run : Result DbError A → Result Error B × World p
      run r =
          let b : Result Error A × World p = elim r [
            | ok a ↦ (ok a, w)
            | err e ↦ (err (Error.db e), w)
          ] in
          let (x, v) = b in k x v

  -- A read by id: it has a row, or the method ends there with no change.
  pub query_missing_cases :
      (f : Db p → Result DbError A) (x : Error) (k : A → M p B) (w : World p)
      → ((a : A) × (f w.db ≡ ok a) × ((on_missing (query p f) x >>= k) w ≡ k a w))
        ⊎ ((e : Error) × ((on_missing (query p f) x >>= k) w ≡ (err e, w)))
  unfolding ◌>>=◌ query on_missing
  query_missing_cases f x k w = go (f w.db)
    where
      run : Result DbError A → Result Error B × World p
      run r =
          let b : Result Error A × World p = elim r [
            | ok a ↦ (ok a, w)
            | err e ↦ (err (Error.db e), w)
          ] in
          let c : Result Error A × World p = let (r, v) = b in (missing_as x r, v) in
          let (r, v) = c in elim r [ ok a ↦ k a v | err e ↦ (err e, v) ]

      go :
          (r : Result DbError A)
          → ((a : A) × (r ≡ ok a) × (run r ≡ k a w)) ⊎ ((e : Error) × (run r ≡ (err e, w)))
      go (ok a) = inl (a, refl, refl)
      go (err record_not_found) = inr (x, refl)
      go (err duplicated_key) = inr (Error.db duplicated_key, refl)
      go (err failure) = inr (Error.db failure, refl)

module _ {p : Platform} {B : Type 0} where
  pub raise_if-true :
      (b : Bool) (x : Error) (k : M p B) (w : World p)
      → b ≡ true
      → (raise_if p b x >> k) w ≡ (err x, w)
  unfolding ◌>>◌ raise_if
  raise_if-true b x k w e = rw e refl

  pub raise_if-false :
      (b : Bool) (x : Error) (k : M p B) (w : World p) → b ≡ false → (raise_if p b x >> k) w ≡ k w
  unfolding ◌>>◌ raise_if
  raise_if-false b x k w e = rw e refl

  pub then_ok : (m : M p ⊤) (k : M p B) (w v : World p) → m w ≡ (ok tt, v) → (m >> k) w ≡ k v
  unfolding ◌>>◌
  then_ok m k w v e = λ i. go (e i)
    where
      go : Result Error ⊤ × World p → Result Error B × World p
      go c = let (r, v) = c in elim r [ ok a ↦ k v | err e ↦ (err e, v) ]

-- A step that may be passed over and does nothing.
pub skip_if_idle :
    {p : Platform} (b : Bool) (m : M p ⊤) (w : World p)
    → m w ≡ (ok tt, w)
    → skip_if p b m w ≡ (ok tt, w)
unfolding skip_if
skip_if_idle true m w e = refl
skip_if_idle false m w e = e
