-- ===== src/Middleware/Admitted.antt =====
-- Whom the middleware lets through.
use auto_store_api.Prelude.{
  ℕ, ◌≡◌, refl, sym, ◌∙◌, subst, Bool, true, false, Option, none, some, List, String, Result, ok,
  err, ◌==◌, ==→eq, lookup, Has,
}
use auto_store_api.Platform.{Platform}
use auto_store_api.Platform.Sql.{DbError}
use auto_store_api.Models.Accounts.{User, Role, MechanicProfile, is_mechanic, is_verified}
use auto_store_api.Models.Tokens.{Claims, is_access}
use auto_store_api.World.{Db, Error}
use auto_store_api.Auth.Login.{of_type-ok}
use auto_store_api.Middleware.{
  Context, Outcome, next, abort, after, has_role, extract_bearer_token, with_user, stored_user,
  check_access, auth_required, role_of, require_role, with_profile, mechanic_of,
  require_verified_mechanic,
}

module _ {F : Type 0} where
  -- If the request goes on, `Q` holds of its context.
  unfoldable pub Passes : (Context F → Type 0) → Outcome F → Type 0
  Passes Q (next c) = Q c
  Passes Q (abort _ _) = Unit

  pub Passes-next :
      (Q : Context F → Type 0) (o : Outcome F) (c : Context F) → o ≡ next c → Passes Q o → Q c
  unfolding Passes
  Passes-next Q o c e h = subst (Passes Q) e h

  pub Passes-mono :
      (P Q : Context F → Type 0) (o : Outcome F)
      → ((c : Context F) → P c → Q c)
      → Passes P o
      → Passes Q o
  unfolding Passes
  Passes-mono P Q (next c) k h = k c h
  Passes-mono P Q (abort s e) k h = tt

  pub after-Passes :
      (P Q : Context F → Type 0) (m k : Context F → Outcome F) (c : Context F)
      → Passes P (m c)
      → ((d : Context F) → P d → Passes Q (k d))
      → Passes Q (after m k c)
  unfolding Passes after
  after-Passes P Q m k c h g = go (m c) h
    where
      go : (o : Outcome F) → Passes P o → Passes Q (elim o [ next d ↦ k d | abort s e ↦ abort s e ])
      go (next d) h = g d h
      go (abort s e) h = tt

module _ (p : Platform) where
  -- The user of the context is the stored one whom a valid access token names.
  pub record SignedIn (d : Db p) (header : String) (c : Context p.Float) : Type 0 where
    pub claims : Claims
    pub valid : p.parse_claims (extract_bearer_token p header) ≡ ok claims
    pub is_access_token : is_access claims.token_type ≡ true
    pub user : User
    pub stored : lookup (λ u. u.id) claims.user_id (p.users.rows d.users) ≡ some user
    pub set : c.user ≡ some user

  pub stored_user-lookup :
      (d : Db p) (id : ℕ) (user : User)
      → stored_user p d id ≡ some user
      → lookup (λ u. u.id) id (p.users.rows d.users) ≡ some user
  stored_user-lookup d id user e = go (p.users.get id d.users) e λ u h. p.users.get_ok _ _ u h
    where
      go :
          (r : Result DbError User)
          → elim r [ ok user ↦ some user | err _ ↦ none ] ≡ some user
          → ((u : User) → r ≡ ok u → lookup (λ u. u.id) id (p.users.rows d.users) ≡ some u)
          → lookup (λ u. u.id) id (p.users.rows d.users) ≡ some user
      go (ok u) e h = h u refl ∙ e
      go (err x) e h = cc

  pub with_user-SignedIn :
      (d : Db p) (header : String) (claims : Claims) (o : Option User) (c : Context p.Float)
      → p.parse_claims (extract_bearer_token p header) ≡ ok claims
      → is_access claims.token_type ≡ true
      → ((u : User)
          → o ≡ some u
          → lookup (λ u. u.id) claims.user_id (p.users.rows d.users) ≡ some u)
      → Passes (λ e. SignedIn d header e × (e.guest ≡ c.guest)) (with_user p claims o c)
  unfolding with_user Passes
  with_user-SignedIn d header claims (some user) c valid typed found = (
    record {
      claims = claims;
      valid = valid;
      is_access_token = typed;
      user = user;
      stored = found user refl;
      set = refl;
    },
    refl,
  )
  with_user-SignedIn d header claims none c valid typed found = tt

  check_access-SignedIn :
      (d : Db p) (header : String) (r : Result Error Claims) (c : Context p.Float)
      → ((claims : Claims)
          → r ≡ ok claims
          → (p.parse_claims (extract_bearer_token p header) ≡ ok claims)
            × (is_access claims.token_type ≡ true))
      → Passes (λ e. SignedIn d header e × (e.guest ≡ c.guest)) (check_access p d r c)
  unfolding check_access Passes
  check_access-SignedIn d header (ok claims) c h =
      with_user-SignedIn d header claims _ c (h claims refl).0 (h claims refl).1
        (stored_user-lookup d claims.user_id)
  check_access-SignedIn d header (err e) c h = tt

  -- A middleware that needs a token.
  pub with_token :
      (Q : Context p.Float → Type 0) (b : Bool) (o : Outcome p.Float)
      → Passes Q o
      → Passes Q (elim b [ true ↦ abort 401 "missing or invalid authorization header" | false ↦ o ])
  unfolding Passes
  with_token Q true o h = tt
  with_token Q false o h = h

  auth_required-SignedIn :
      (d : Db p) (header : String) (c : Context p.Float)
      → Passes (λ e. SignedIn d header e × (e.guest ≡ c.guest)) (auth_required p d header c)
  unfolding auth_required
  auth_required-SignedIn d header c =
      with_token _ _ _ (
        check_access-SignedIn d header _ c (of_type-ok p is_access (extract_bearer_token p header)))

  -- What a route behind `AuthRequired` and `RequireRole` knows of the user.
  pub record HasRole (d : Db p) (header : String) (roles : List Role) (c : Context p.Float)
      : Type 0 where
    pub signed_in : SignedIn d header c
    pub role : has_role signed_in.user.role roles ≡ true

  require_role-HasRole :
      (d : Db p) (header : String) (roles : List Role) (c : Context p.Float)
      → SignedIn d header c
      → Passes (HasRole d header roles) (require_role p roles c)
  unfolding require_role role_of Passes
  require_role-HasRole d header roles c s =
      subst (λ o. Passes (HasRole d header roles) (role_of p roles o c)) (sym s.set)
        (go (has_role s.user.role roles) refl)
    where
      go :
          (b : Bool)
          → has_role s.user.role roles ≡ b
          → let o : Outcome p.Float = elim b [
            | true ↦ next c
            | false ↦ abort 403 "insufficient permissions"
          ] in
            Passes (HasRole d header roles) o
      go true e = record { signed_in = s; role = e }
      go false e = tt

  -- A request that gets through `AuthRequired` and then `RequireRole` has a valid access token, which names
  -- a stored user, whom the context has, and the role that is stored for the user, whatever role the token has, is one of the roles that are asked for.
  pub role_route-HasRole :
      (d : Db p) (header : String) (roles : List Role) (c e : Context p.Float)
      → after (auth_required p d header) (require_role p roles) c ≡ next e
      → HasRole d header roles e
  role_route-HasRole d header roles c e h = Passes-next (HasRole d header roles) _ e h (
      after-Passes (λ e. SignedIn d header e × (e.guest ≡ c.guest)) _ _ _ c
        (auth_required-SignedIn d header c) λ x s. require_role-HasRole d header roles x s.0)

  -- What a route behind `AuthRequired` and `RequireVerifiedMechanic` knows.
  pub record IsVerifiedMechanic (d : Db p) (header : String) (c : Context p.Float) : Type 0 where
    pub signed_in : SignedIn d header c
    pub mechanic : is_mechanic signed_in.user.role ≡ true
    pub profile : MechanicProfile p.Float
    pub set : c.mechanic_profile ≡ some profile
    pub stored : Has profile (p.profiles.rows d.profiles)
    pub own : profile.user_id ≡ signed_in.user.id
    pub verified : is_verified profile.status ≡ true

  mechanic_of-IsVerifiedMechanic :
      (d : Db p) (header : String) (c : Context p.Float)
      → SignedIn d header c
      → Passes (IsVerifiedMechanic d header) (require_verified_mechanic p d c)
  unfolding require_verified_mechanic mechanic_of with_profile Passes
  mechanic_of-IsVerifiedMechanic d header c s =
      subst (λ o. Passes (IsVerifiedMechanic d header) (mechanic_of p d o c)) (sym s.set)
        (role (is_mechanic s.user.role) refl)
    where
      checked :
          (profile : MechanicProfile p.Float) (b : Bool)
          → is_verified profile.status ≡ b
          → is_mechanic s.user.role ≡ true
          → Has profile (p.profiles.rows d.profiles)
          → profile.user_id ≡ s.user.id
          → let o : Outcome p.Float = elim b [
            | true ↦ next (record c { mechanic_profile = some profile })
            | false ↦ abort 403 "verified mechanic profile required"
          ] in
            Passes (IsVerifiedMechanic d header) o
      checked profile true v m there own = record {
        signed_in = record {
          claims = s.claims;
          valid = s.valid;
          is_access_token = s.is_access_token;
          user = s.user;
          stored = s.stored;
          set = s.set;
        };
        mechanic = m;
        profile = profile;
        set = refl;
        stored = there;
        own = own;
        verified = v;
      }
      checked profile false v m there own = tt

      read :
          (r : Result DbError (MechanicProfile p.Float))
          → is_mechanic s.user.role ≡ true
          → ((profile : MechanicProfile p.Float)
              → r ≡ ok profile
              → Has profile (p.profiles.rows d.profiles) × ((profile.user_id == s.user.id) ≡ true))
          → Passes (IsVerifiedMechanic d header) (with_profile p r c)
      read (ok profile) m h =
          checked profile _ refl m (h profile refl).0 (==→eq _ _ (h profile refl).1)
      read (err e) m h = tt

      role :
          (b : Bool)
          → is_mechanic s.user.role ≡ b
          → let o : Outcome p.Float = elim b [
            | true ↦ with_profile p (p.profiles.first (λ r. r.user_id == s.user.id) d.profiles) c
            | false ↦ abort 403 "mechanic role required"
          ] in
            Passes (IsVerifiedMechanic d header) o
      role true m = read _ m (λ profile e. p.profiles.first_ok _ _ profile e)
      role false m = tt

  -- A request that gets through `AuthRequired` and then `RequireVerifiedMechanic` has a valid access token that names a
  -- stored user; that user is a mechanic, and the context has a stored profile of that user's that is verified.
  pub mechanic_route-IsVerifiedMechanic :
      (d : Db p) (header : String) (c e : Context p.Float)
      → after (auth_required p d header) (require_verified_mechanic p d) c ≡ next e
      → IsVerifiedMechanic d header e
  mechanic_route-IsVerifiedMechanic d header c e h =
      Passes-next (IsVerifiedMechanic d header) _ e h (
        after-Passes (λ e. SignedIn d header e × (e.guest ≡ c.guest)) _ _ _ c
          (auth_required-SignedIn d header c) λ x s. mechanic_of-IsVerifiedMechanic d header x s.0)
