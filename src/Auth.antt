-- ===== src/Auth.antt =====
-- Accounts: internal/services/auth_service.go, with internal/repositories/user_repository.go,
-- pkg/auth/jwt.go and pkg/cache.
pub mod Login
pub mod Accounts
use auto_store_api.Prelude.{
  ⊤, ℕ, ◌+◌, ℤ, pos, Bool, true, false, Option, none, some, String, Result, ok, err, ◌==◌, not, ltb,
  ltb_ℤ, text_append, str_eq, if◌then◌else◌,
}
use auto_store_api.Platform.{Platform}
use auto_store_api.Models.Accounts.{User, Role}
use auto_store_api.Models.Tokens.{Claims, TokenType, is_access, is_refresh}
use auto_store_api.World.{
  Db, World, M, Error, ◌>>=◌, ◌>>◌, pure, raise, query, exec, raise_if, on_missing, or_raise,
  attempt, ignore, fresh, lift, message, service, email_exists, invalid_credentials, account_locked,
  invalid_token,
}
use auto_store_api.Chat.Identity.{is_one}

-- `AuthConfig`, and the times of `JWTManager`.
pub record AuthConfig : Type 0 where
  pub lockout_attempts : ℤ
  pub lockout_duration : ℕ
  pub access_expiry : ℕ
  pub refresh_expiry : ℕ

-- `string(user.Role)`
abbrev pub role_text : Role → String
role_text Role.admin = "ADMIN"
role_text Role.vendor = "VENDOR"
role_text Role.customer = "CUSTOMER"
role_text Role.mechanic = "MECHANIC"
role_text (Role.other t) = t

-- A user with the two tokens.
pub record Session : Type 0 where
  pub user : User
  pub access : String
  pub refresh : String
  pub expires_at : ℕ

-- The claims of `generateToken`.
abbrev pub claims_of : User → TokenType → ℕ → ℕ → ℕ → Claims
claims_of user type now expiry id = record {
  user_id = user.id;
  email = user.email;
  role = role_text user.role;
  token_type = type;
  expires_at = now + expiry;
  issued_at = now;
  id = id;
}

-- The row that `Register` makes.
abbrev pub new_user : ℕ → String → String → String → String → String → Role → User
new_user id email hash first_name last_name phone role = record {
  id = id;
  email = email;
  password_hash = hash;
  first_name = first_name;
  last_name = last_name;
  phone = phone;
  role = role;
  email_verified = false;
}

-- The role of the first account and of any other.
abbrev pub role_for : ℕ → Role
role_for count = if count == 0 then Role.admin else Role.customer

abbrev pub lockout_key : String → String
lockout_key email = text_append "auth:lockout:" email

abbrev pub reset_key : String → String
reset_key token = text_append "password_reset:" token

abbrev pub verify_key : String → String
verify_key token = text_append "email_verify:" token

abbrev hash_result : Result String String → Result Error String
hash_result (ok h) = ok h
hash_result (err e) = err (service e)

module _ (p : Platform) where
  abbrev pub put_users : p.users.Rows → Db p → Db p
  put_users t d = record d { users = t }

  -- A token whose signing fails is empty.
  abbrev pub token_text : Result String String → String
  token_text (ok t) = t
  token_text (err _) = ""

  -- `issueTokens`
  unfoldable pub issue_tokens : AuthConfig → User → ℕ → M p Session
  issue_tokens cfg user now = do
    a ← fresh p
    r ← fresh p
    pure (record {
      user = user;
      access = token_text (p.sign_claims (claims_of user TokenType.access now cfg.access_expiry a));
      refresh =
          token_text (p.sign_claims (claims_of user TokenType.refresh now cfg.refresh_expiry r));
      expires_at = now + cfg.access_expiry;
    })

  -- `bcrypt.GenerateFromPassword`
  unfoldable pub hashed : String → M p String
  hashed password = do n ← fresh p; lift p (hash_result (p.hash_password n password))

  -- `Register`
  unfoldable pub register :
      AuthConfig → String → String → String → String → String → ℕ → M p Session
  register cfg email password first_name last_name phone now = do
    exists ← query p (λ d. p.users.count (λ u. str_eq u.email email) d.users)
    raise_if p (ltb 0 exists) email_exists
    hash ← hashed password
    count ← query p (λ d. p.users.count (λ _. true) d.users)
    id ← fresh p
    let user = new_user id email hash first_name last_name phone (role_for count)
    exec p (λ d. p.users.create user d.users) put_users
    issue_tokens cfg user now

  -- The first steps of `Login`: the counter goes up, and its time starts when it is new.
  unfoldable pub count_attempt : AuthConfig → String → World p → World p
  count_attempt cfg email w = elim (p.redis.incr (lockout_key email) w.store) [
    | ok (n, s) ↦ record w {
      store = elim (is_one n) [
        | true ↦ p.redis.expire (lockout_key email) cfg.lockout_duration s
        | false ↦ s
      ];
    }
    | err _ ↦ w
  ]

  -- The counter as `Login` reads it: zero if it cannot be read.
  abbrev pub number_or_zero : Result String ℤ → ℤ
  number_or_zero (ok n) = n
  number_or_zero (err _) = pos 0

  unfoldable pub attempts : String → World p → ℤ
  attempts email w = number_or_zero (p.redis.get_int (lockout_key email) w.store)

  -- `DEL`, whose error is dropped.
  unfoldable pub forget : String → M p ⊤
  forget key w = elim (p.redis.del key w.store) [
    | ok s ↦ (ok tt, record w { store = s })
    | err _ ↦ (ok tt, w)
  ]

  -- `Login` once the counter has been read.
  unfoldable pub login_unlocked : AuthConfig → String → String → ℕ → M p Session
  login_unlocked cfg email password now = do
    user ←
        on_missing (query p (λ d. p.users.first (λ u. str_eq u.email email) d.users))
          invalid_credentials
    raise_if p (not (p.same_password user.password_hash password)) invalid_credentials
    forget (lockout_key email)
    issue_tokens cfg user now

  -- `Login`
  unfoldable pub login : AuthConfig → String → String → ℕ → M p Session
  login cfg email password now w =
      let v = count_attempt cfg email w in
      (raise_if p (ltb_ℤ cfg.lockout_attempts (attempts email v)) account_locked
          >> login_unlocked cfg email password now)
        v

  -- `ParseToken`, then the type's check of `ValidateAccessToken` and `ValidateRefreshToken`.
  abbrev pub parse_token : String → Result Error Claims
  parse_token token = elim (p.parse_claims token) [ ok c ↦ ok c | err e ↦ err (service e) ]

  abbrev pub of_type : (TokenType → Bool) → Result Error Claims → Result Error Claims
  of_type wanted (ok claims) = elim (wanted claims.token_type) [
    | true ↦ ok claims
    | false ↦ err invalid_token
  ]
  of_type wanted (err e) = err e

  abbrev pub validate_access_token : String → Result Error Claims
  validate_access_token token = of_type is_access (parse_token token)

  abbrev pub validate_refresh_token : String → Result Error Claims
  validate_refresh_token token = of_type is_refresh (parse_token token)

  -- `Refresh`
  unfoldable pub refresh : AuthConfig → String → ℕ → M p Session
  refresh cfg token now = do
    claims ← lift p (validate_refresh_token token)
    user ← query p (λ d. p.users.get claims.user_id d.users)
    issue_tokens cfg user now

  -- `Logout`
  unfoldable pub logout : ℕ → M p ⊤
  logout user_id w =
      elim (p.redis.del (text_append "auth:session:" (p.uuid_text user_id)) w.store) [
        | ok s ↦ (ok tt, record w { store = s })
        | err e ↦ (err (service e), w)
      ]

  -- `cache.Set` and `cache.Get` of a text.
  unfoldable pub set_text : String → String → ℕ → M p ⊤
  set_text key text ttl w = elim (p.redis.set_text key text ttl w.store) [
    | ok s ↦ (ok tt, record w { store = s })
    | err e ↦ (err (service e), w)
  ]

  unfoldable pub get_text : String → M p String
  get_text key w = elim (p.redis.get_text key w.store) [
    | ok t ↦ (ok t, w)
    | err e ↦ (err (service e), w)
  ]

  -- `ForgotPassword`: an address without an account gives an empty token and no error.
  unfoldable pub store_reset : Result Error User → M p String
  unfolding set_text
  store_reset (ok user) = do
    id ← fresh p
    set_text (reset_key (p.uuid_text id)) (p.uuid_text user.id) 3600
    pure (p.uuid_text id)
  store_reset (err e) = pure ""

  unfoldable pub forgot_password : String → M p String
  unfolding store_reset
  forgot_password email = do
    found ← attempt (query p (λ d. p.users.first (λ u. str_eq u.email email) d.users))
    store_reset found

  -- `uid, _ := uuid.Parse(userID)`
  abbrev pub parsed_id : String → ℕ
  parsed_id text = elim (p.parse_uuid text) [ some id ↦ id | none ↦ 0 ]

  -- `ResetPassword`
  unfoldable pub reset_password : String → String → M p ⊤
  reset_password token new_password = do
    text ← or_raise (get_text (reset_key token)) (message "invalid or expired token")
    user ← query p (λ d. p.users.get (parsed_id text) d.users)
    hash ← hashed new_password
    exec p (λ d. p.users.save (record user { password_hash = hash }) d.users) put_users
    forget (reset_key token)

  -- `VerifyEmail`
  unfoldable pub verify_email : String → M p ⊤
  verify_email token = do
    text ← or_raise (get_text (verify_key token)) (message "invalid or expired token")
    user ← query p (λ d. p.users.get (parsed_id text) d.users)
    exec p (λ d. p.users.save (record user { email_verified = true }) d.users) put_users
    forget (verify_key token)
