-- ===== src/World/Steps.antt =====
-- The rules for a step without a value, and for a method's last step.
use auto_store_api.Prelude.{⊤, ◌≡◌, refl, Result, ok, err}
use auto_store_api.Platform.{Platform}
use auto_store_api.Platform.Sql.{DbError}
use auto_store_api.World.State.{Db, World}
use auto_store_api.World.Errors.{Error}
use auto_store_api.World.Monad.{M, ◌>>=◌, ◌>>◌, query, exec, ignore, attempt}
use auto_store_api.World.Triples.{Returns}

module _ {p : Platform} {B : Type 0} (Q : B → World p → Type 0) where
  -- A call of another method, through what is known of it.
  pub step_then :
      {A : Type 0} (P : A → World p → Type 0) (m : M p A) (k : M p B) (w : World p)
      → Returns P (m w)
      → ((a : A) (v : World p) → P a v → Returns Q (k v))
      → Returns Q ((m >> k) w)
  unfolding Returns ◌>>◌
  step_then {A} P m k w h next = go (m w) h
    where
      go :
          (c : Result Error A × World p)
          → Returns P c
          → Returns Q (let (r, v) = c in elim r [ ok a ↦ k v | err e ↦ (err e, v) ])
      go (ok a, v) h = next a v h
      go (err e, v) h = tt

  -- A call whose end does not matter, through what holds of the state in either case.
  pub ignored_then :
      {A : Type 0} (P : World p → Type 0) (m : M p A) (k : M p B) (w : World p)
      → P (m w).1
      → ((v : World p) → P v → Returns Q (k v))
      → Returns Q ((ignore m >> k) w)
  unfolding Returns ◌>>◌ ignore
  ignored_then P m k w h next = next (m w).1 h

  -- A read whose failure is a value, where the value is of no interest.
  pub value_then :
      {A : Type 0} (f : Db p → Result DbError A) (k : Result Error A → M p B) (w : World p)
      → ((r : Result Error A) → Returns Q (k r w))
      → Returns Q ((attempt (query p f) >>= k) w)
  unfolding Returns ◌>>=◌ query attempt
  value_then {A} f k w h = go (f w.db)
    where
      go :
          (r : Result DbError A)
          → let b : Result Error A × World p = elim r [
            | ok a ↦ (ok a, w)
            | err e ↦ (err (Error.db e), w)
          ] in
            let (x, v) = b in Returns Q (k x v)
      go (ok a) = h (ok a)
      go (err e) = h (err (Error.db e))

  pub query_last :
      (f : Db p → Result DbError B) (w : World p)
      → ((a : B) → f w.db ≡ ok a → Q a w)
      → Returns Q (query p f w)
  unfolding Returns query
  query_last f w h = go (f w.db) h
    where
      go :
          (r : Result DbError B)
          → ((a : B) → r ≡ ok a → Q a w)
          → let c : Result Error B × World p = elim r [
            | ok a ↦ (ok a, w)
            | err e ↦ (err (Error.db e), w)
          ] in
            Returns Q c
      go (ok a) h = h a refl
      go (err e) h = tt

module _ {p : Platform} (Q : ⊤ → World p → Type 0) where
  pub exec_last :
      {T : Type 0} (f : Db p → Result DbError T) (put : T → Db p → Db p) (w : World p)
      → ((t : T) → f w.db ≡ ok t → Q tt (record w { db = put t w.db }))
      → Returns Q (exec p f put w)
  unfolding Returns exec
  exec_last {T} f put w h = go (f w.db) h
    where
      go :
          (r : Result DbError T)
          → ((t : T) → r ≡ ok t → Q tt (record w { db = put t w.db }))
          → let c : Result Error ⊤ × World p = elim r [
            | ok t ↦ (ok tt, record w { db = put t w.db })
            | err e ↦ (err (Error.db e), w)
          ] in
            Returns Q c
      go (ok t) h = h t refl
      go (err e) h = tt
