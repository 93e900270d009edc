-- ===== src/World/Calls.antt =====
-- The rules that follow the calls and the writes of a method.
use auto_store_api.Prelude.{⊤, ℕ, ◌≡◌, refl, suc, Bool, true, false, Result, ok, err, ◌∷◌, String}
use auto_store_api.Platform.{Platform}
use auto_store_api.Platform.Sql.{DbError}
use auto_store_api.Models.Paystack.{RefundBody, RefundResponse}
use auto_store_api.World.State.{Db, World, Notice}
use auto_store_api.World.Errors.{Error}
use auto_store_api.World.Monad.{
  M, ◌>>=◌, ◌>>◌, exec, raise_if, or_raise, fresh, notify, ignore, lift, call_paystack, send_refund,
  skip_if,
}
use auto_store_api.World.Triples.{Returns}

-- The rules for a step that is followed by the rest of the method.
module _ {p : Platform} {B : Type 0} (Q : B → World p → Type 0) where
  -- A call of another method, through what is known of it.
  pub call_then :
      {A : Type 0} (P : A → World p → Type 0) (m : M p A) (k : A → M p B) (w : World p)
      → Returns P (m w)
      → ((a : A) (v : World p) → P a v → Returns Q (k a v))
      → Returns Q ((m >>= k) w)
  unfolding Returns ◌>>=◌
  call_then {A} P m k w h next = go (m w) h
    where
      go :
          (c : Result Error A × World p)
          → Returns P c
          → Returns Q (let (r, v) = c in elim r [ ok a ↦ k a v | err e ↦ (err e, v) ])
      go (ok a, v) h = next a v h
      go (err e, v) h = tt

  -- The same, where a failure of the call is replaced by another one.
  pub call_or_then :
      {A : Type 0} (P : A → World p → Type 0) (m : M p A) (x : Error) (k : A → M p B) (w : World p)
      → Returns P (m w)
      → ((a : A) (v : World p) → P a v → Returns Q (k a v))
      → Returns Q ((or_raise m x >>= k) w)
  unfolding Returns ◌>>=◌ or_raise
  call_or_then {A} P m x k w h next = go (m w) h
    where
      go :
          (c : Result Error A × World p)
          → Returns P c
          → let b : Result Error A × World p =
              let (r, v) = c in elim r [ ok a ↦ (ok a, v) | err _ ↦ (err x, v) ] in
            Returns Q (let (r, v) = b in elim r [ ok a ↦ k a v | err e ↦ (err e, v) ])
      go (ok a, v) h = next a v h
      go (err e, v) h = tt

  pub exec_then :
      {T : Type 0} (f : Db p → Result DbError T) (put : T → Db p → Db p) (k : M p B) (w : World p)
      → ((t : T) → f w.db ≡ ok t → Returns Q (k (record w { db = put t w.db })))
      → Returns Q ((exec p f put >> k) w)
  unfolding Returns ◌>>◌ exec
  exec_then {T} f put k w h = go (f w.db) h
    where
      go :
          (r : Result DbError T)
          → ((t : T) → r ≡ ok t → Returns Q (k (record w { db = put t w.db })))
          → let c : Result Error ⊤ × World p = elim r [
            | ok t ↦ (ok tt, record w { db = put t w.db })
            | err e ↦ (err (Error.db e), w)
          ] in
            let (r, v) = c in Returns Q (elim r [ ok a ↦ k v | err e ↦ (err e, v) ])
      go (ok t) h = h t refl
      go (err e) h = tt

  pub raise_if_then :
      (b : Bool) (x : Error) (k : M p B) (w : World p)
      → (b ≡ false → Returns Q (k w))
      → Returns Q ((raise_if p b x >> k) w)
  unfolding Returns ◌>>◌ raise_if
  raise_if_then true x k w h = tt
  raise_if_then false x k w h = h refl

  pub fresh_then :
      (k : ℕ → M p B) (w : World p)
      → Returns Q (k (p.uuid w.drawn) (record w { drawn = suc w.drawn }))
      → Returns Q ((fresh p >>= k) w)
  unfolding Returns ◌>>=◌ fresh
  fresh_then k w h = h

  pub notify_then :
      (n : Notice) (k : M p B) (w : World p)
      → Returns Q (k (record w { notices = n ∷ w.notices }))
      → Returns Q ((notify p n >> k) w)
  unfolding Returns ◌>>◌ notify
  notify_then n k w h = h

  -- A write whose failure is passed over.
  pub ignore_then :
      {T : Type 0} (f : Db p → Result DbError T) (put : T → Db p → Db p) (k : M p B) (w : World p)
      → Returns Q (k w)
      → ((t : T) → f w.db ≡ ok t → Returns Q (k (record w { db = put t w.db })))
      → Returns Q ((ignore (exec p f put) >> k) w)
  unfolding Returns ◌>>◌ exec ignore
  ignore_then {T} f put k w h g = go (f w.db) g
    where
      go :
          (r : Result DbError T)
          → ((t : T) → r ≡ ok t → Returns Q (k (record w { db = put t w.db })))
          → let c : Result Error ⊤ × World p = elim r [
            | ok t ↦ (ok tt, record w { db = put t w.db })
            | err e ↦ (err (Error.db e), w)
          ] in
            Returns Q (k (c.1))
      go (ok t) g = g t refl
      go (err e) g = h

  pub lift_then :
      {A : Type 0} (r : Result Error A) (k : A → M p B) (w : World p)
      → ((a : A) → r ≡ ok a → Returns Q (k a w))
      → Returns Q ((lift p r >>= k) w)
  unfolding Returns ◌>>=◌ lift
  lift_then (ok a) k w h = h a refl
  lift_then (err e) k w h = tt

  pub call_paystack_then :
      {A : Type 0} (f : ℕ → Result String A) (k : A → M p B) (w : World p)
      → ((a : A) → f w.called ≡ ok a → Returns Q (k a (record w { called = suc w.called })))
      → Returns Q ((call_paystack p f >>= k) w)
  unfolding Returns ◌>>=◌ call_paystack
  call_paystack_then {A} f k w h = go (f w.called) h
    where
      go :
          (r : Result String A)
          → ((a : A) → r ≡ ok a → Returns Q (k a (record w { called = suc w.called })))
          → let c : Result Error A × World p = elim r [
            | ok a ↦ (ok a, record w { called = suc w.called })
            | err e ↦ (err (Error.gateway e), record w { called = suc w.called })
          ] in
            let (r, v) = c in Returns Q (elim r [ ok a ↦ k a v | err e ↦ (err e, v) ])
      go (ok a) h = h a refl
      go (err e) h = tt

  pub send_refund_then :
      (b : RefundBody) (k : RefundResponse → M p B) (w : World p)
      → ((a : RefundResponse)
          → p.post_refund w.called b ≡ ok a
          → Returns Q (k a (record w { called = suc w.called; refunds = b ∷ w.refunds })))
      → Returns Q ((send_refund p b >>= k) w)
  unfolding Returns ◌>>=◌ send_refund
  send_refund_then b k w h = go (p.post_refund w.called b) h
    where
      go :
          (r : Result String RefundResponse)
          → ((a : RefundResponse)
              → r ≡ ok a
              → Returns Q (k a (record w { called = suc w.called; refunds = b ∷ w.refunds })))
          → let c : Result Error RefundResponse × World p = elim r [
            | ok a ↦ (ok a, record w { called = suc w.called; refunds = b ∷ w.refunds })
            | err e ↦
                (err (Error.gateway e), record w { called = suc w.called; refunds = b ∷ w.refunds })
          ] in
            let (r, v) = c in Returns Q (elim r [ ok a ↦ k a v | err e ↦ (err e, v) ])
      go (ok a) h = h a refl
      go (err e) h = tt

module _ {p : Platform} (Q : ⊤ → World p → Type 0) where
  pub notify_last :
      (n : Notice) (w : World p)
      → Q tt (record w { notices = n ∷ w.notices })
      → Returns Q (notify p n w)
  unfolding Returns notify
  notify_last n w h = h

  pub skip_if_then :
      (b : Bool) (m : M p ⊤) (w : World p)
      → (b ≡ true → Q tt w)
      → (b ≡ false → Returns Q (m w))
      → Returns Q (skip_if p b m w)
  unfolding Returns skip_if
  skip_if_then true m w g h = g refl
  skip_if_then false m w g h = h refl
