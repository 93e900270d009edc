-- ===== src/Tests/Mechanics.antt =====
-- A mechanic is suspended.
use auto_store_api.Prelude.{
  ℕ, ◌≡◌, refl, ap, sym, ◌∙◌, arith, pos, some, none, [], ◌∷◌, ok, inl, inr, lookup, lookup-key,
  IsKeyed,
}
use auto_store_api.Models.Accounts.{MechanicProfile, MechanicProfileStatus, Role}
use auto_store_api.World.{World, ◌>>=◌, ◌>>◌, query, exec, on_missing, transaction}
use auto_store_api.Auth.{new_user}
use auto_store_api.Mechanics.{set_admin_status, suspend}
use auto_store_api.Mechanics.Consistent.{IsConsistent, suspends, Decision-IsConsistent}
use auto_store_api.Memory.{memory_platform, empty_db, started}

abbrev installer : MechanicProfile memory_platform.Float
installer = record {
  id = 40;
  user_id = 9;
  business_name = "";
  latitude = none;
  longitude = none;
  service_radius_km = pos 10;
  status = MechanicProfileStatus.verified;
  verified_at = some 3;
  suspended_at = none;
  rejection_reason = "";
  paystack_subaccount_code = "ACCT_1";
}

-- The profile is of the user 9, who is a mechanic.
abbrev workshop : World memory_platform
workshop = started (record empty_db {
  users = new_user 9 "fitter" "secret" "" "" "" Role.mechanic ∷ [];
  profiles = installer ∷ [];
})

only :
    (k : ℕ) (r : MechanicProfile memory_platform.Float)
    → lookup (λ r. r.id) k (installer ∷ []) ≡ some r
    → installer ≡ r
only k r h = ground arith

only_key :
    (k : ℕ) (r : MechanicProfile memory_platform.Float)
    → lookup (λ r. r.id) k (installer ∷ []) ≡ some r
    → k ≡ 40
only_key k r h =
    sym (lookup-key (λ r. r.id) k (installer ∷ []) r h) ∙ ap (λ r. r.id) (sym (only k r h))

workshop-IsKeyed : IsKeyed (λ r. r.id) (memory_platform.profiles.rows workshop.db.profiles)
workshop-IsKeyed a (inl e) = rw e refl
workshop-IsKeyed a (inr x) = elim x [ ]

workshop-IsConsistent : IsConsistent memory_platform workshop.db
workshop-IsConsistent = record {
  verified = λ k r h good. record {
    user = new_user 9 "fitter" "secret" "" "" "" Role.mechanic;
    found =
        ap (λ r. lookup (λ u. u.id) r.user_id (memory_platform.users.rows workshop.db.users))
          (sym (only k r h));
    role = refl;
  };
  one_each = λ k j r s g h same. only_key k r g ∙ sym (only_key j s h);
}

abbrev after_suspend : World memory_platform
after_suspend = (suspend memory_platform 9 "late" 5 workshop).1

abbrev suspended_installer : MechanicProfile memory_platform.Float
suspended_installer = record installer {
  status = MechanicProfileStatus.suspended;
  suspended_at = some 5;
  rejection_reason = "late";
}

suspend-run : suspend memory_platform 9 "late" 5 workshop ≡ (ok suspended_installer, after_suspend)
unfolding suspend set_admin_status ◌>>=◌ ◌>>◌ query exec on_missing transaction
suspend-run = refl

Decision-IsConsistent_example : IsConsistent memory_platform after_suspend.db
Decision-IsConsistent_example =
    Decision-IsConsistent memory_platform workshop-IsKeyed workshop-IsConsistent
      (suspends 9 5 "late" suspended_installer workshop after_suspend suspend-run)
