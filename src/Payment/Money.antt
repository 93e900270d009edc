-- ===== src/Payment/Money.antt =====
-- Amounts in minor units, and the checks before a refund: `toMinorUnits`, `refundAmountMinor`,
-- `validateRefundable` and `bookingSplitParams`.
use auto_store_api.Prelude.{
  ◌≡◌, refl, sym, subst, true, false, Bool, ok_injective, ◌<ℤ◌, arith, ⊤, ℤ, pos, Option, none,
  some, String, Result, ok, err, leb_ℤ, if◌then◌else◌, str_eq, not, ◌||◌,
}
use auto_store_api.Platform.{Platform}
use auto_store_api.Models.Sales.{PaymentStatus, is_paid}
use auto_store_api.World.{
  Error, payment_invalid_amount, payment_not_refundable, refund_already_initiated, message,
}

module _ (p : Platform) where
  -- `toMinorUnits`; the multiplier is 100 for every currency.
  unfoldable pub to_minor_units : p.Float → String → Result Error ℤ
  to_minor_units amount currency =
      if p.le amount (p.of_int (pos 0))
      then err payment_invalid_amount
      else let minor = p.round (p.mul amount (p.of_int (pos 100))) in
        if leb_ℤ minor (pos 0) then err payment_invalid_amount else ok minor

  -- An amount that can be charged, and its number of minor units.
  abbrev pub IsMinor : p.Float → ℤ → Type 0
  IsMinor amount m =
      (p.le amount (p.of_int (pos 0)) ≡ false)
      × (m ≡ p.round (p.mul amount (p.of_int (pos 100))))
      × (pos 0 <ℤ m)

  pub to_minor_units-IsMinor :
      (amount : p.Float) (currency : String) (m : ℤ)
      → to_minor_units amount currency ≡ ok m
      → IsMinor amount m
  unfolding to_minor_units
  to_minor_units-IsMinor amount currency m e =
      go (p.le amount (p.of_int (pos 0))) (p.round (p.mul amount (p.of_int (pos 100)))) e
    where
      above : (n : ℤ) → leb_ℤ n (pos 0) ≡ false → pos 0 <ℤ n
      above n h = ground arith

      positive :
          (n : ℤ) (b : Bool)
          → leb_ℤ n (pos 0) ≡ b
          → ◌≡◌ {A = Result Error ℤ} (if b then err payment_invalid_amount else ok n) (ok m)
          → (m ≡ n) × (pos 0 <ℤ m)
      positive n true h e = cc
      positive n false h e =
          let same : n ≡ m = ok_injective e in (sym same, subst (λ x. pos 0 <ℤ x) same (above n h))

      go :
          (b : Bool) (n : ℤ)
          → ◌≡◌ {A = Result Error ℤ}
              (if b
                then err payment_invalid_amount
                else if leb_ℤ n (pos 0)
                then err payment_invalid_amount
                else ok n)
              (ok m)
          → (b ≡ false) × (m ≡ n) × (pos 0 <ℤ m)
      go true n e = cc
      go false n e = let (same, some_) = positive n (leb_ℤ n (pos 0)) refl e in (refl, same, some_)

  -- `refundAmountMinor`
  unfoldable pub refund_amount_minor : p.Float → Option p.Float → String → Result Error ℤ
  refund_amount_minor total none currency = ok (pos 0)
  refund_amount_minor total (some partial) currency =
      if p.lt total partial
      then err (message "refund amount cannot exceed payment total")
      else to_minor_units partial currency

-- `validateRefundable`
unfoldable pub validate_refundable : PaymentStatus → String → String → String → Result Error ⊤
validate_refundable status provider reference existing_refund_id =
    if not (is_paid status)
    then err payment_not_refundable
    else if not (str_eq provider "paystack") || str_eq reference ""
    then err payment_not_refundable
    else if not (str_eq existing_refund_id "")
    then err refund_already_initiated
    else ok tt
