-- ===== src/World/Monad.antt =====
-- A service method: it takes the state, may fail, and hands the state on, also after a failure,
-- since what was written stays written. Only `transaction` takes writes back, and only those to the
-- database.
use auto_store_api.Prelude.{
  ⊤, ℕ, suc, Bool, true, false, none, some, ◌∷◌, Result, ok, err, String, if◌then◌else◌,
}
use auto_store_api.Platform.{Platform}
use auto_store_api.Platform.Sql.{DbError, record_not_found}
use auto_store_api.Models.Paystack.{RefundBody, RefundResponse}
use auto_store_api.World.State.{Db, World, Notice}
use auto_store_api.World.Errors.{Error, db, gateway}

abbrev pub M : Platform → Type 0 → Type 0
M p A = World p → Result Error A × World p

infixl 5 ◌>>=◌ ◌>>◌
module _ {p : Platform} {A B : Type 0} where
  unfoldable pub ◌>>=◌ : M p A → (A → M p B) → M p B
  ◌>>=◌ m f w = let (r, v) = m w in elim r [ ok a ↦ f a v | err e ↦ (err e, v) ]

  unfoldable pub ◌>>◌ : M p A → M p B → M p B
  ◌>>◌ m k w = let (r, v) = m w in elim r [ ok a ↦ k v | err e ↦ (err e, v) ]

-- `if errors.Is(err, gorm.ErrRecordNotFound) { return e }`
abbrev pub missing_as : {A : Type 0} → Error → Result Error A → Result Error A
missing_as e (err (db record_not_found)) = err e
missing_as e r = r

-- `errors.Is(err, gorm.ErrRecordNotFound)`
abbrev pub is_missing : Error → Bool
is_missing (db record_not_found) = true
is_missing e = false

module _ {p : Platform} {A : Type 0} where
  unfoldable pub pure : A → M p A
  pure a w = (ok a, w)

  unfoldable pub raise : Error → M p A
  raise e w = (err e, w)

  -- `if err != nil { return e }`
  unfoldable pub or_raise : M p A → Error → M p A
  or_raise m e w = let (r, v) = m w in elim r [ ok a ↦ (ok a, v) | err _ ↦ (err e, v) ]

  -- `on_missing m e`: any other error stays as it is.
  unfoldable pub on_missing : M p A → Error → M p A
  on_missing m e w = let (r, v) = m w in (missing_as e r, v)

  -- The result as a value, for a caller that looks at the error itself.
  unfoldable pub attempt : M p A → M p (Result Error A)
  attempt m w = let (r, v) = m w in (ok r, v)

  -- `_ = call`
  unfoldable pub ignore : M p A → M p ⊤
  ignore m w = (ok tt, (m w).1)

  -- `db.Transaction(m)`: a failure of `m` or of the commit takes back what `m` wrote to the database.
  abbrev pub settle : World p → Result Error A × World p → Result Error A × World p
  settle w (ok a, v) = elim (p.commit v.begun) [
    | none ↦ (ok a, record v { begun = suc v.begun })
    | some e ↦ (err (db e), record v { db = w.db; begun = suc v.begun })
  ]
  settle w (err e, v) = (err e, record v { db = w.db; begun = suc v.begun })

  unfoldable pub transaction : M p A → M p A
  transaction m w = settle w (m w)

module _ (p : Platform) where
  -- A read of the database; its error is passed on.
  unfoldable pub query : {A : Type 0} → (Db p → Result DbError A) → M p A
  query f w = elim (f w.db) [ ok a ↦ (ok a, w) | err e ↦ (err (db e), w) ]

  -- A write: the call's new table is put into the database.
  unfoldable pub exec : {T : Type 0} → (Db p → Result DbError T) → (T → Db p → Db p) → M p ⊤
  exec f put w = elim (f w.db) [
    | ok t ↦ (ok tt, record w { db = put t w.db })
    | err e ↦ (err (db e), w)
  ]

  unfoldable pub raise_if : Bool → Error → M p ⊤
  raise_if b e w = (if b then err e else ok tt, w)

  -- `uuid.New()`
  unfoldable pub fresh : M p ℕ
  fresh w = (ok (p.uuid w.drawn), record w { drawn = suc w.drawn })

  unfoldable pub notify : Notice → M p ⊤
  notify n w = (ok tt, record w { notices = n ∷ w.notices })

  -- A function that returns a value and an error.
  unfoldable pub lift : {A : Type 0} → Result Error A → M p A
  lift r w = (r, w)

  -- A call of Paystack's API.
  unfoldable pub call_paystack : {A : Type 0} → (ℕ → Result String A) → M p A
  call_paystack f w = elim (f w.called) [
    | ok a ↦ (ok a, record w { called = suc w.called })
    | err e ↦ (err (gateway e), record w { called = suc w.called })
  ]

  unfoldable pub send_refund : RefundBody → M p RefundResponse
  send_refund b w = elim (p.post_refund w.called b) [
    | ok a ↦ (ok a, record w { called = suc w.called; refunds = b ∷ w.refunds })
    | err e ↦ (err (gateway e), record w { called = suc w.called; refunds = b ∷ w.refunds })
  ]

  -- `if b { return nil }`, and then the rest of the method.
  unfoldable pub skip_if : Bool → M p ⊤ → M p ⊤
  skip_if b m w = elim b [ true ↦ (ok tt, w) | false ↦ m w ]
