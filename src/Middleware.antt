-- ===== src/Middleware.antt =====
-- The middleware that lets requests through: internal/middleware/auth.go.
pub mod Admitted
pub mod Identity
use auto_store_api.Prelude.{
  ℕ, Bool, true, false, Option, none, some, List, [], ◌∷◌, String, Result, ok, err, ◌==◌, ◌||◌, not,
  str_eq, if◌then◌else◌,
}
use auto_store_api.Platform.{Platform}
use auto_store_api.Models.Accounts.{User, Role, MechanicProfile, is_mechanic, is_verified}
use auto_store_api.Models.Tokens.{Claims, GuestClaims}
use auto_store_api.Platform.Sql.{DbError}
use auto_store_api.World.{Db, Error}
use auto_store_api.Auth.{role_text, validate_access_token}
use auto_store_api.Chat.Service.{validate_guest}

-- What the middleware keeps in the request's context.
pub record Context (F : Type 0) : Type 0 where
  pub claims : Option Claims
  pub user : Option User
  pub guest : Option GuestClaims
  pub mechanic_profile : Option (MechanicProfile F)

-- The request goes on to the next handler, or is answered with a status and an error.
pub data Outcome (F : Type 0) : Type 0 where
  next : Context F → Outcome F
  abort : ℕ → String → Outcome F

-- One middleware after the other.
unfoldable pub after :
    {F : Type 0} → (Context F → Outcome F) → (Context F → Outcome F) → Context F → Outcome F
after m k c = elim (m c) [ next d ↦ k d | abort status error ↦ abort status error ]

-- The loop of `RequireRole`.
abbrev pub has_role : Role → List Role → Bool
has_role role [] = false
has_role role (r ∷ rs) = str_eq (role_text role) (role_text r) || has_role role rs

module _ (p : Platform) where
  -- `extractBearerToken`, from the text of the header.
  unfoldable pub extract_bearer_token : String → String
  extract_bearer_token auth = elim (str_eq auth "") [
    | true ↦ ""
    | false ↦ elim (p.texts.split_space auth) [
      | none ↦ ""
      | some parts ↦ elim (str_eq (p.texts.lower parts.0) "bearer") [
        | true ↦ p.texts.trim_space parts.1
        | false ↦ ""
      ]
    ]
  ]

  -- `c.Set` of the claims and of the user, once the user's row has been looked for.
  unfoldable pub with_user : Claims → Option User → Context p.Float → Outcome p.Float
  with_user claims (some user) c = next (record c { claims = some claims; user = some user })
  with_user claims none c = abort 401 "user not found"

  abbrev pub stored_user : Db p → ℕ → Option User
  stored_user d id = elim (p.users.get id d.users) [ ok user ↦ some user | err _ ↦ none ]

  -- `AuthRequired` once there is a token.
  unfoldable pub check_access : Db p → Result Error Claims → Context p.Float → Outcome p.Float
  unfolding with_user
  check_access d (ok claims) c = with_user claims (stored_user d claims.user_id) c
  check_access d (err _) c = abort 401 "invalid or expired token"

  -- `AuthRequired`
  unfoldable pub auth_required : Db p → String → Context p.Float → Outcome p.Float
  unfolding check_access extract_bearer_token
  auth_required d header c =
      let token = extract_bearer_token header in
      elim (str_eq token "") [
        | true ↦ abort 401 "missing or invalid authorization header"
        | false ↦ check_access d (validate_access_token p token) c
      ]

  -- `RequireRole`
  unfoldable pub role_of : List Role → Option User → Context p.Float → Outcome p.Float
  role_of roles none c = abort 401 "unauthorized"
  role_of roles (some user) c = elim (has_role user.role roles) [
    | true ↦ next c
    | false ↦ abort 403 "insufficient permissions"
  ]

  unfoldable pub require_role : List Role → Context p.Float → Outcome p.Float
  unfolding role_of
  require_role roles c = role_of roles c.user c

  -- `RequireVerifiedMechanic` once the profile has been looked for.
  unfoldable pub with_profile :
      Result DbError (MechanicProfile p.Float) → Context p.Float → Outcome p.Float
  with_profile (err _) c = abort 403 "verified mechanic profile required"
  with_profile (ok profile) c = elim (is_verified profile.status) [
    | true ↦ next (record c { mechanic_profile = some profile })
    | false ↦ abort 403 "verified mechanic profile required"
  ]

  unfoldable pub mechanic_of : Db p → Option User → Context p.Float → Outcome p.Float
  unfolding with_profile
  mechanic_of d none c = abort 401 "unauthorized"
  mechanic_of d (some user) c = elim (is_mechanic user.role) [
    | true ↦ with_profile (p.profiles.first (λ r. r.user_id == user.id) d.profiles) c
    | false ↦ abort 403 "mechanic role required"
  ]

  -- `RequireVerifiedMechanic`
  unfoldable pub require_verified_mechanic : Db p → Context p.Float → Outcome p.Float
  unfolding mechanic_of
  require_verified_mechanic d c = mechanic_of d c.user c

  -- The second half of `FlexibleAuth`, and `GuestAuthRequired` once there is a token.
  unfoldable pub check_guest : Result Error GuestClaims → Context p.Float → Outcome p.Float
  check_guest (ok guest) c = next (record c { guest = some guest })
  check_guest (err _) c = abort 401 "invalid or expired token"

  -- `FlexibleAuth` once there is a token.
  unfoldable pub check_either :
      Db p → Result Error Claims → Result Error GuestClaims → Context p.Float → Outcome p.Float
  unfolding with_user check_guest
  check_either d (ok claims) guest c = with_user claims (stored_user d claims.user_id) c
  check_either d (err _) guest c = check_guest guest c

  -- `FlexibleAuth`
  unfoldable pub flexible_auth : Db p → String → Context p.Float → Outcome p.Float
  unfolding check_either extract_bearer_token
  flexible_auth d header c =
      let token = extract_bearer_token header in
      elim (str_eq token "") [
        | true ↦ abort 401 "missing or invalid authorization header"
        | false ↦ check_either d (validate_access_token p token) (validate_guest p token) c
      ]

  -- `GuestAuthRequired`
  unfoldable pub guest_auth_required : String → Context p.Float → Outcome p.Float
  unfolding check_guest extract_bearer_token
  guest_auth_required header c =
      let token = extract_bearer_token header in
      elim (str_eq token "") [
        | true ↦ abort 401 "missing or invalid authorization header"
        | false ↦ check_guest (validate_guest p token) c
      ]

  -- `OptionalAuth`
  unfoldable pub optional_user : Claims → Option User → Context p.Float → Context p.Float
  optional_user claims (some user) c = record c { claims = some claims; user = some user }
  optional_user claims none c = c

  unfoldable pub optional_access : Db p → Result Error Claims → Context p.Float → Context p.Float
  unfolding optional_user
  optional_access d (ok claims) c = optional_user claims (stored_user d claims.user_id) c
  optional_access d (err _) c = c

  unfoldable pub optional_auth : Db p → String → Context p.Float → Outcome p.Float
  unfolding optional_access extract_bearer_token
  optional_auth d header c =
      let token = extract_bearer_token header in
      elim (str_eq token "") [
        | true ↦ next c
        | false ↦ next (optional_access d (validate_access_token p token) c)
      ]
