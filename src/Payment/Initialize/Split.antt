-- ===== src/Payment/Initialize/Split.antt =====
-- The platform's share of a booking's payment.
use auto_store_api.Prelude.{
  ℤ, pos, ◌≡◌, refl, Bool, true, false, Option, none, some, String, str_eq, ok, lookup, ◌<ℤ◌, leb_ℤ,
  arith, if◌then◌else◌, Result, err, subst, ok_injective,
}
use auto_store_api.Platform.{Platform}
use auto_store_api.Models.Accounts.{MechanicProfile}
use auto_store_api.Models.Installation.{Booking}
use auto_store_api.Models.Paystack.{PaystackConfig}
use auto_store_api.World.{
  World, Error, payment_invalid_amount, Returns, Returns-ok, pure-Returns, raise-Returns,
  query_or_then, lift_then, raise_if_then,
}
use auto_store_api.Payment.Money.{to_minor_units}
use auto_store_api.Payment.Initialize.{SplitParams, booking_split_params, split_if, split_with}

above : (a b : ℤ) → leb_ℤ a b ≡ false → b <ℤ a
above a b h = ground arith

module _ (p : Platform) where
  -- An amount in minor units is positive.
  pub to_minor_units-positive :
      (amount : p.Float) (currency : String) (m : ℤ)
      → to_minor_units p amount currency ≡ ok m
      → pos 0 <ℤ m
  unfolding to_minor_units
  to_minor_units-positive amount currency m h =
      go (p.le amount (p.of_int (pos 0))) _ (p.round (p.mul amount (p.of_int (pos 100)))) refl h
    where
      go :
          (b c : Bool) (minor : ℤ)
          → leb_ℤ minor (pos 0) ≡ c
          → ◌≡◌ {A = Result Error ℤ}
              (if b
                then err payment_invalid_amount
                else if c
                then err payment_invalid_amount
                else ok minor)
              (ok m)
          → pos 0 <ℤ m
      go true c minor k h = cc
      go false true minor k h = cc
      go false false minor k h = subst (λ z. pos 0 <ℤ z) (ok_injective h) (above minor (pos 0) k)

  -- What `bookingSplitParams` has found.
  abbrev pub Within :
      PaystackConfig → Booking p.Float → World p → Option SplitParams → World p → Type 0
  Within cfg booking w none v = v ≡ w
  Within cfg booking w (some split) v =
      (v ≡ w)
      × (profile : MechanicProfile p.Float) × (lookup (λ r. r.id) booking.mechanic_profile_id
            (p.profiles.rows w.db.profiles)
          ≡ some profile)
      × (split.subaccount ≡ profile.paystack_subaccount_code)
      × (str_eq split.subaccount "" ≡ false)
      × (to_minor_units p booking.platform_fee cfg.currency ≡ ok split.transaction_charge)
      × (pos 0 <ℤ split.transaction_charge)
      × (total : ℤ) × (to_minor_units p booking.total_amount cfg.currency ≡ ok total)
      × (split.transaction_charge <ℤ total)

  split_with-Within :
      (missing required : Bool) (cfg : PaystackConfig) (booking : Booking p.Float)
      (profile : MechanicProfile p.Float) (w : World p)
      → str_eq profile.paystack_subaccount_code "" ≡ missing
      → lookup (λ r. r.id) booking.mechanic_profile_id (p.profiles.rows w.db.profiles)
        ≡ some profile
      → Returns
          (Within cfg booking w)
          (split_with p missing required cfg booking profile.paystack_subaccount_code w)
  unfolding split_with
  split_with-Within true true cfg booking profile w e was = raise-Returns _ _ w
  split_with-Within true false cfg booking profile w e was = pure-Returns _ _ w refl
  split_with-Within false required cfg booking profile w e was = lift_then _ _ _ w λ charge share.
      lift_then _ _ _ w λ total whole. raise_if_then _ _ _ _ w λ less. pure-Returns _ _ w (
        refl,
        profile,
        was,
        refl,
        e,
        share,
        to_minor_units-positive _ _ charge share,
        total,
        whole,
        above total charge less,
      )

  split_if-Within :
      (enabled : Bool) (cfg : PaystackConfig) (booking : Booking p.Float) (w : World p)
      → Returns (Within cfg booking w) (split_if p enabled cfg booking w)
  unfolding split_if
  split_if-Within false cfg booking w = pure-Returns _ _ w refl
  split_if-Within true cfg booking w = query_or_then _ _ _ w _ λ profile found.
      split_with-Within _ _ cfg booking profile w refl (p.profiles.get_ok _ _ profile found)

  -- `bookingSplitParams` changes nothing, and a split that it returns goes to the subaccount of the booking's
  -- mechanic, which is not empty; the platform keeps its fee in minor units, which is positive and less than the total.
  pub booking_split_params-Within :
      (cfg : PaystackConfig) (booking : Booking p.Float) (w v : World p)
      (split : Option SplitParams)
      → booking_split_params p cfg booking w ≡ (ok split, v)
      → Within cfg booking w split v
  unfolding booking_split_params
  booking_split_params-Within cfg booking w v split e =
      Returns-ok (Within cfg booking w) _ split v e
        (split_if-Within cfg.split_enabled cfg booking w)
