-- ===== src/Models/Accounts.antt =====
-- Users, roles and mechanic profiles: internal/models/user.go, role.go and mechanic_profile.go.
use auto_store_api.Prelude.{ℕ, Bool, true, false, Option, String}

-- `Role`; `other` is any text that is not one of the four constants.
pub data Role : Type 0 where
  admin vendor customer mechanic : Role
  other : String → Role

abbrev pub is_admin : Role → Bool
is_admin Role.admin = true
is_admin _ = false

abbrev pub is_vendor : Role → Bool
is_vendor Role.vendor = true
is_vendor _ = false

abbrev pub is_mechanic : Role → Bool
is_mechanic Role.mechanic = true
is_mechanic _ = false

abbrev pub is_customer : Role → Bool
is_customer Role.customer = true
is_customer _ = false

-- `User`
pub record User : Type 0 where
  pub id : ℕ
  pub email : String
  pub password_hash : String
  pub first_name : String
  pub last_name : String
  pub phone : String
  pub role : Role
  pub email_verified : Bool

-- `MechanicProfileStatus`
pub data MechanicProfileStatus : Type 0 where
  pending verified suspended rejected : MechanicProfileStatus

abbrev pub is_verified : MechanicProfileStatus → Bool
is_verified MechanicProfileStatus.verified = true
is_verified _ = false

-- `MechanicProfile`
pub record MechanicProfile (F : Type 0) : Type 0 where
  pub id : ℕ
  pub user_id : ℕ
  pub business_name : String
  pub latitude : Option F
  pub longitude : Option F
  pub service_radius_km : F
  pub status : MechanicProfileStatus
  pub verified_at : Option ℕ
  pub suspended_at : Option ℕ
  pub rejection_reason : String
  pub paystack_subaccount_code : String
