-- ===== src/Payment/Charges/Paid.antt =====
-- What `markOrderPaid` does to an order, once and again.
use auto_store_api.Prelude.{
  ℕ, ℤ, ◌≡◌, refl, sym, ◌∙◌, ap, subst, Bool, true, false, Option, some, String, ok, lookup, upsert,
  lookup-upsert_self, lookup-key, ◌⊎◌, inl, inr, ◌≢◌, if◌then◌else◌,
}
use auto_store_api.Platform.{Platform}
use auto_store_api.Models.Sales.{Order, OrderStatus, PaymentStatus, is_paid, is_pending}
use auto_store_api.Models.Paystack.{PaystackConfig}
use auto_store_api.World.{
  World, Returns-ok, pure-Returns, exec_then, lift_then, skip_if_then, both_ends, skip_if_else,
}
use auto_store_api.Order.Read.{get_order_or_then, get_order_or_else}
use auto_store_api.Payment.Money.{IsMinor, to_minor_units-IsMinor}
use auto_store_api.Payment.Charges.{mark_order_paid}

option_eq : {A : Type 0} {o : Option A} {a b : A} → o ≡ some a → o ≡ some b → a ≡ b
option_eq h g = cc

contradiction : {b : Bool} {A : Type 0} → b ≡ true → b ≡ false → A
contradiction h g = absurd cc

-- The status of a paid order: a pending one is confirmed, and no other changes.
abbrev pub IsConfirmedFrom : OrderStatus → OrderStatus → Type 0
IsConfirmedFrom old new =
    (old ≡ OrderStatus.pending → new ≡ OrderStatus.confirmed)
    × (old ≢ OrderStatus.pending → new ≡ old)

confirmed_from :
    (s : OrderStatus) → IsConfirmedFrom s (if is_pending s then OrderStatus.confirmed else s)
confirmed_from OrderStatus.pending = (λ _. refl, λ other. absurd (other refl))
confirmed_from OrderStatus.confirmed = (λ e. refl, λ _. refl)
confirmed_from OrderStatus.processing = (λ e. absurd cc, λ _. refl)
confirmed_from OrderStatus.shipped = (λ e. absurd cc, λ _. refl)
confirmed_from OrderStatus.delivered = (λ e. absurd cc, λ _. refl)
confirmed_from OrderStatus.cancelled = (λ e. absurd cc, λ _. refl)

module _ (p : Platform) where
  -- What `markOrderPaid` has done: the order was there; it was paid before and nothing has changed,
  -- or its total is a positive number of minor units and only its row has changed, to the paid one.
  abbrev pub Paid : PaystackConfig → ℕ → String → World p → World p → Type 0
  Paid cfg id reference w v =
      (o : Order p.Float) × (lookup (λ r. r.id) id (p.orders.rows w.db.orders) ≡ some o)
      × (((is_paid o.payment_status ≡ true) × (v ≡ w))
          ⊎ ((m : ℤ) × IsMinor p o.total m
              × (status : OrderStatus) × IsConfirmedFrom o.status status
              × (p.orders.rows v.db.orders
                  ≡ upsert (λ r. r.id)
                      (record o {
                        payment_status = PaymentStatus.paid;
                        payment_reference = reference;
                        payment_method = "paystack";
                        status = status;
                      })
                      (p.orders.rows w.db.orders))
              × (v ≡ record w { db = record (w.db) { orders = v.db.orders } })))

  -- When `markOrderPaid` returns with no error: the order is there, and either it was paid already and
  -- nothing has changed, or its total is an amount that can be charged and the only change is
  -- that its row is the paid one: with the reference, by Paystack, and confirmed if it was pending. This
  -- holds whatever amount was paid.
  pub mark_order_paid-Paid :
      (cfg : PaystackConfig) (id : ℕ) (reference : String) (paid : ℤ) (w v : World p)
      → mark_order_paid p cfg id reference paid w ≡ (ok tt, v)
      → Paid cfg id reference w v
  unfolding mark_order_paid
  mark_order_paid-Paid cfg id reference paid w v e =
      Returns-ok (λ _ v. Paid cfg id reference w v) _ tt v e
        (get_order_or_then p id _ w _
          (λ (o, items) (found, listed).
            let was = p.orders.get_ok _ _ o found in
            skip_if_then _ _ _ w (λ already. (o, was, inl (already, refl)))
              λ _. lift_then _ _ _ w λ m minor. exec_then _ _ _ _ w λ t saved. pure-Returns _ tt _ (
                o,
                was,
                inr (
                  m,
                  to_minor_units-IsMinor p _ _ m minor,
                  _,
                  confirmed_from o.status,
                  p.orders.save_ok _ _ t saved,
                  refl,
                ),
              ))
          _)

  paid_again :
      (cfg : PaystackConfig) (id : ℕ) (reference : String) (paid : ℤ) (w : World p)
      (o : Order p.Float)
      → lookup (λ r. r.id) id (p.orders.rows w.db.orders) ≡ some o
      → is_paid o.payment_status ≡ true
      → (mark_order_paid p cfg id reference paid w).1 ≡ w
  unfolding mark_order_paid
  paid_again cfg id reference paid w o is h =
      let paid_of : (r : Order p.Float)
          → p.orders.get id w.db.orders ≡ ok r
          → is_paid r.payment_status ≡ true =
        λ r found.
          subst (λ (x : Order p.Float). is_paid x.payment_status ≡ true)
            (option_eq is (p.orders.get_ok _ _ r found)) h in
      both_ends (λ v. v ≡ w) _
        (get_order_or_then p id _ w _
          (λ (r, items) (found, _).
            skip_if_then _ _ _ w (λ _. refl) (λ no. contradiction (paid_of r found) no))
          _)
        (get_order_or_else p id _ w (λ v. v ≡ w) refl
          (λ (r, items) (found, _). skip_if_else _ _ _ w (λ no. contradiction (paid_of r found) no))
          _)

  -- In the state that `markOrderPaid` leaves when it returns with no error, another call for the order
  -- changes nothing, whatever its reference and its amount are.
  pub mark_order_paid_once :
      (cfg : PaystackConfig) (id : ℕ) (reference again : String) (paid more : ℤ) (w v : World p)
      → mark_order_paid p cfg id reference paid w ≡ (ok tt, v)
      → (mark_order_paid p cfg id again more v).1 ≡ v
  mark_order_paid_once cfg id reference again paid more w v e =
      let (o, was, how) = mark_order_paid-Paid cfg id reference paid w v e in
      elim how [
        | inl (already, same) ↦
            paid_again cfg id again more v o
              (subst (λ v. lookup (λ r. r.id) id (p.orders.rows v.db.orders) ≡ some o) (sym same)
                was)
              already
        | inr (m, minor, status, how, stored, only) ↦
            paid_again cfg id again more v _
              (ap (lookup (λ r. r.id) id) stored
                ∙ lookup-upsert_self (λ r. r.id) id _ (p.orders.rows w.db.orders)
                    (lookup-key (λ r. r.id) id _ o was))
              refl
      ]
