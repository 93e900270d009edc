-- ===== src/Payment/Refunds/Once.antt =====
-- What `RefundOrder` has done when it returns, and that it does it once.
use auto_store_api.Prelude.{
  pos, ◌<ℤ◌, ltb_ℤ, ok_injective, Bool-cases, inl, inr, ◌⊎◌, none, arith, ⊤, ℕ, ℤ, ◌≡◌, ◌≢◌, refl,
  sym, ◌∙◌, ap, subst, Bool, true, false, not, ◌||◌, Option, some, String, ◌∷◌, Result, ok, err,
  lookup, upsert, lookup-upsert_self, lookup-key, str_eq, if◌then◌else◌,
}
use auto_store_api.Platform.{Platform}
use auto_store_api.Platform.Sql.{get-key}
use auto_store_api.Models.Sales.{
  Order, OrderStatus, PaymentStatus, is_paid, is_shipped, is_delivered,
}
use auto_store_api.Models.Paystack.{PaystackConfig, RefundParams, RefundBody, RefundData}
use auto_store_api.World.{
  message, Db, World, Error, Returns, Returns-ok, Returns-mono, pure-Returns, exec_then, lift_then,
  raise_if_then, call_then, send_refund_then, Fails, both_ends, lift_else, raise_if_else,
  payment_not_refundable, refund_already_initiated,
}
use auto_store_api.Order.Read.{get_order_then, get_order_or_then, get_order_or_else}
use auto_store_api.Payment.Money.{
  IsMinor, to_minor_units, to_minor_units-IsMinor, validate_refundable, refund_amount_minor,
}
use auto_store_api.Payment.Client.{create_refund, refund_body, unless_empty}
use auto_store_api.Payment.Refunds.{
  RefundInput, RefundResult, refund_order, refund_loaded_order, mark_order_refunded, refund_params,
}

option_eq : {A : Type 0} {o : Option A} {a b : A} → o ≡ some a → o ≡ some b → a ≡ b
option_eq h g = cc

-- What `validateRefundable` has let through.
abbrev pub IsRefundable : PaymentStatus → String → String → String → Type 0
IsRefundable status provider reference existing =
    (is_paid status ≡ true)
    × (str_eq provider "paystack" ≡ true)
    × (str_eq reference "" ≡ false)
    × (str_eq existing "" ≡ true)

validate_refundable-ok :
    (status : PaymentStatus) (provider reference existing : String)
    → validate_refundable status provider reference existing ≡ ok tt
    → IsRefundable status provider reference existing
unfolding validate_refundable
validate_refundable-ok status provider reference existing h =
    go (is_paid status) (str_eq provider "paystack") (str_eq reference "") (str_eq existing "") h
  where
    go :
        (a b c d : Bool)
        → ◌≡◌ {A = Result Error ⊤}
            (if not a
              then err payment_not_refundable
              else if not b || c
              then err payment_not_refundable
              else if not d
              then err refund_already_initiated
              else ok tt)
            (ok tt)
        → (a ≡ true) × (b ≡ true) × (c ≡ false) × (d ≡ true)
    go true true false true h = (refl, refl, refl, refl)
    go true true false false h = cc
    go true true true d h = cc
    go true false c d h = cc
    go false b c d h = cc

or_false : (a b : Bool) → (a || b) ≡ false → (a ≡ false) × (b ≡ false)
or_false false false h = (refl, refl)
or_false false true h = cc
or_false true b h = cc

contradiction : {b : Bool} → b ≡ true → b ≡ false → ⊥
contradiction h g = cc

-- A field of a request that carries a text, or is left out when the text is empty.
abbrev pub IsOptional : String → Option String → Type 0
IsOptional text field =
    ((str_eq text "" ≡ true) × (field ≡ none)) ⊎ ((str_eq text "" ≡ false) × (field ≡ some text))

unless_empty-IsOptional : (text : String) → IsOptional text (unless_empty text)
unless_empty-IsOptional text = elim (Bool-cases (str_eq text "")) [
  | inl e ↦ rw e (inl (refl, refl))
  | inr e ↦ rw e (inr (refl, refl))
]

positive_is_some : (m : ℤ) → pos 0 <ℤ m → (if ltb_ℤ (pos 0) m then some m else none) ≡ some m
positive_is_some m h = ground arith

module _ (p : Platform) where
  -- The amount that a refund asks for: none is the whole, and a part is not above the total.
  abbrev pub IsAsked : Option p.Float → p.Float → Option ℤ → Type 0
  IsAsked none total amount = amount ≡ none
  IsAsked (some partial) total amount =
      (p.lt total partial ≡ false) × ((m : ℤ) × IsMinor p partial m × (amount ≡ some m))

  refund_amount_minor-IsAsked :
      (total : p.Float) (input : Option p.Float) (currency : String) (m : ℤ)
      → refund_amount_minor p total input currency ≡ ok m
      → IsAsked input total (if ltb_ℤ (pos 0) m then some m else none)
  unfolding refund_amount_minor
  refund_amount_minor-IsAsked total none currency m e =
      ap (λ m. if ltb_ℤ (pos 0) m then some m else none) (sym (ok_injective e))
  refund_amount_minor-IsAsked total (some partial) currency m e = go (p.lt total partial) refl e
    where
      go :
          (b : Bool)
          → p.lt total partial ≡ b
          → ◌≡◌ {A = Result Error ℤ}
              (if b
                then err (message "refund amount cannot exceed payment total")
                else to_minor_units p partial currency)
              (ok m)
          → IsAsked (some partial) total (if ltb_ℤ (pos 0) m then some m else none)
      go true h e = cc
      go false h e =
          let minor = to_minor_units-IsMinor p partial currency m e in
          (h, (m, minor, positive_is_some m minor.2))

  -- What `RefundOrder` has done: the order was paid with Paystack, was not refunded before, and was
  -- neither shipped nor delivered; Paystack was asked once, for a refund of the order's payment of
  -- the whole amount or of a part that is not above the total; and the order's row is the refunded one.
  pub record Refunded (cfg : PaystackConfig) (id : ℕ) (input : RefundInput p.Float) (w v : World p)
      : Type 0 where
    pub order : Order p.Float
    pub was : lookup (λ o. o.id) id (p.orders.rows w.db.orders) ≡ some order
    pub refundable :
        IsRefundable order.payment_status order.payment_method order.payment_reference
          order.paystack_refund_id
    pub not_shipped : order.status ≢ OrderStatus.shipped
    pub not_delivered : order.status ≢ OrderStatus.delivered
    pub body : RefundBody
    pub asked : v.refunds ≡ body ∷ w.refunds
    pub of_payment : body.transaction ≡ order.payment_reference
    pub amount : IsAsked input.amount order.total body.amount
    pub currency : IsOptional cfg.currency body.currency
    pub customer_note : IsOptional input.customer_note body.customer_note
    pub merchant_note : IsOptional input.merchant_note body.merchant_note
    pub refund_id : String
    pub some_id : str_eq refund_id "" ≡ false
    pub stored :
        p.orders.rows v.db.orders
        ≡ upsert
            (λ o. o.id)
            (record order {
              payment_status = PaymentStatus.refunded;
              paystack_refund_id = refund_id;
              status = OrderStatus.cancelled;
            })
            (p.orders.rows w.db.orders)
    pub only : v.db ≡ record (w.db) { orders = v.db.orders }

  -- The row of a refunded order.
  abbrev row_of : String → Order p.Float → Order p.Float
  row_of refund_id order = record order {
    payment_status = PaymentStatus.refunded;
    paystack_refund_id = refund_id;
    status = OrderStatus.cancelled;
  }

  create_refund-asked :
      (params : RefundParams) (w : World p)
      → Returns
          (λ _ v. (v.db ≡ w.db) × (v.refunds ≡ refund_body params ∷ w.refunds))
          (create_refund p params w)
  unfolding create_refund
  create_refund-asked params w =
      send_refund_then _ _ _ w
        λ out answered. raise_if_then _ _ _ _ _ λ fine. pure-Returns _ _ _ (refl, refl)

  -- What `markOrderRefunded` does to the order's row.
  abbrev Stored : ℕ → World p → World p → Type 0
  Stored id w v =
      (o : Order p.Float) × (lookup (λ o. o.id) id (p.orders.rows w.db.orders) ≡ some o)
      × (refund_id : String) × (str_eq refund_id "" ≡ false)
      × (p.orders.rows v.db.orders
          ≡ upsert (λ o. o.id)
              (record o {
                payment_status = PaymentStatus.refunded;
                paystack_refund_id = refund_id;
                status = OrderStatus.cancelled;
              })
              (p.orders.rows w.db.orders))
      × (v ≡ record w { db = record (w.db) { orders = v.db.orders } })

  mark_order_refunded-Stored :
      (id : ℕ) (resp : RefundData) (w : World p)
      → Returns (λ _ v. Stored id w v) (mark_order_refunded p id resp w)
  unfolding mark_order_refunded
  mark_order_refunded-Stored id resp w = get_order_then p id _ w _ λ (o, items) (found, listed).
      exec_then _ _ _ _ w λ t saved. pure-Returns _ tt _ (
        o,
        p.orders.get_ok _ _ o found,
        p.decimal resp.id,
        p.decimal_ne resp.id,
        p.orders.save_ok _ _ t saved,
        refl,
      )

  pub refund_order-Refunded :
      (cfg : PaystackConfig) (requester id : ℕ) (as_admin : Bool) (input : RefundInput p.Float)
      (w v : World p) (r : RefundResult)
      → refund_order p cfg requester id as_admin input w ≡ (ok r, v)
      → Refunded cfg id input w v
  unfolding refund_order refund_loaded_order
  refund_order-Refunded cfg requester id as_admin input w v r e =
      Returns-ok (λ _ v. Refunded cfg id input w v) _ r v e
        (raise_if_then _ _ _ _ w λ enabled.
          get_order_or_then p id _ w _
            (λ (o, items) (found, listed). raise_if_then _ _ _ _ w λ own.
              lift_then _ _ _ w λ x checked. raise_if_then _ _ _ _ w λ kept.
                lift_then _ _ _ w λ m priced.
                  call_then _ _ _ _ w (create_refund-asked _ w) λ resp m1 (same, asked).
                    call_then _ _ _ _ m1 (mark_order_refunded-Stored _ resp m1)
                      λ _ u (o2, was, refund_id, some_id, stored, only).
                        let first : lookup (λ o. o.id) id (p.orders.rows w.db.orders) ≡ some o =
                          p.orders.get_ok _ _ o found in
                        let there : lookup (λ o. o.id) id (p.orders.rows m1.db.orders) ≡ some o =
                          subst
                            (λ (d : Db p). lookup (λ o. o.id) id (p.orders.rows d.orders) ≡ some o)
                            (sym same) first in
                        let same_order : o2 ≡ o =
                          option_eq
                            (subst
                              (λ i. lookup (λ o. o.id) i (p.orders.rows m1.db.orders) ≡ some o2)
                              (get-key p.orders _ _ o found) was)
                            there in
                        pure-Returns _ _ u (record {
                          order = o;
                          was = first;
                          refundable = validate_refundable-ok _ _ _ _ checked;
                          not_shipped =
                              λ s. contradiction (ap is_shipped s) ((or_false _ _ kept).0);
                          not_delivered =
                              λ s. contradiction (ap is_delivered s) ((or_false _ _ kept).1);
                          body = refund_body (refund_params cfg o.payment_reference m input);
                          asked = ap (λ (x : World p). x.refunds) only ∙ asked;
                          of_payment = refl;
                          amount =
                              refund_amount_minor-IsAsked o.total input.amount cfg.currency m
                                priced;
                          currency = unless_empty-IsOptional cfg.currency;
                          customer_note = unless_empty-IsOptional input.customer_note;
                          merchant_note = unless_empty-IsOptional input.merchant_note;
                          refund_id = refund_id;
                          some_id = some_id;
                          stored =
                              stored
                              ∙ ap
                                  (λ (d : Db p).
                                    upsert (λ o. o.id) (row_of refund_id o2)
                                      (p.orders.rows d.orders))
                                  same
                              ∙ ap
                                  (λ x.
                                    upsert (λ o. o.id) (row_of refund_id x)
                                      (p.orders.rows w.db.orders))
                                  same_order;
                          only =
                              ap (λ (x : World p). x.db) only
                              ∙ ap (λ (d : Db p). record d { orders = u.db.orders }) same;
                        }))
            _)

  -- A refund is refused, with nothing changed and nothing asked, of an order that is not paid.
  refused :
      (cfg : PaystackConfig) (requester id : ℕ) (as_admin : Bool) (input : RefundInput p.Float)
      (w : World p) (o : Order p.Float)
      → lookup (λ r. r.id) id (p.orders.rows w.db.orders) ≡ some o
      → is_paid o.payment_status ≡ false
      → ((r : RefundResult) → (refund_order p cfg requester id as_admin input w).0 ≢ ok r)
        × ((refund_order p cfg requester id as_admin input w).1 ≡ w)
  unfolding refund_order refund_loaded_order
  refused cfg requester id as_admin input w o is unpaid =
      let not_paid : (r : Order p.Float)
          → p.orders.get id w.db.orders ≡ ok r
          → is_paid r.payment_status ≡ false =
        λ r found.
          subst (λ (x : Order p.Float). is_paid x.payment_status ≡ false)
            (option_eq is (p.orders.get_ok _ _ r found)) unpaid in
      let never : Returns (λ _ _. ⊥) (refund_order p cfg requester id as_admin input w) =
        raise_if_then _ _ _ _ w λ enabled.
          get_order_or_then p id _ w _
            (λ (o, items) (found, listed). raise_if_then _ _ _ _ w λ own.
              lift_then _ _ _ w λ x checked.
                absurd
                  (contradiction ((validate_refundable-ok _ _ _ _ checked).0) (not_paid o found)))
            _ in
      let same : Fails (λ _ v. v ≡ w) (refund_order p cfg requester id as_admin input w) =
        raise_if_else _ _ _ _ w refl λ enabled.
          get_order_or_else p id _ w (λ v. v ≡ w) refl
            (λ (o, items) (found, listed). raise_if_else _ _ _ _ w refl λ own.
              lift_else _ _ _ w (λ _. refl)
                λ x checked.
                  absurd
                    (contradiction ((validate_refundable-ok _ _ _ _ checked).0) (not_paid o found)))
            _ in
      (
        λ r e.
            Returns-ok _ _ r _ (λ i. (e i, (refund_order p cfg requester id as_admin input w).1))
              never,
        both_ends (λ v. v ≡ w) _ (Returns-mono _ _ _ (λ _ _ x. absurd x) never) same,
      )

  -- In the state that `RefundOrder` leaves when it returns a result for an order, another call for the
  -- order, by anyone and with any input, returns no result, sends Paystack no request and changes
  -- nothing.
  pub refund_order_once :
      (cfg : PaystackConfig) (requester other id : ℕ) (as_admin as_admin' : Bool)
      (input again : RefundInput p.Float) (w v : World p) (r : RefundResult)
      → refund_order p cfg requester id as_admin input w ≡ (ok r, v)
      → ((r : RefundResult) → (refund_order p cfg other id as_admin' again v).0 ≢ ok r)
        × ((refund_order p cfg other id as_admin' again v).1 ≡ v)
  refund_order_once cfg requester other id as_admin as_admin' input again w v r e =
      let h = refund_order-Refunded cfg requester id as_admin input w v r e in
      refused cfg other id as_admin' again v _
        (ap (lookup (λ o. o.id) id) h.stored
          ∙ lookup-upsert_self (λ r. r.id) id _ (p.orders.rows w.db.orders)
              (lookup-key (λ o. o.id) id _ h.order h.was))
        refl
