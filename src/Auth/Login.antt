-- ===== src/Auth/Login.antt =====
-- Logging in: the lockout, and whom a session is for.
use auto_store_api.Prelude.{
  ◌+◌, ◌⊎◌, inl, inr, ⊤, ℕ, suc, ℤ, pos, ◌≡◌, refl, sym, ap, ◌∙◌, subst, Bool, true, false, some,
  String, Result, ok, err, ok_injective, of_not, ltb_ℤ, add_int64, eq_iff, Has, lookup,
}
use auto_store_api.Platform.{Platform}
use auto_store_api.Platform.Keys.{number}
use auto_store_api.Models.Accounts.{User, Role}
use auto_store_api.Models.Tokens.{Claims, TokenType, is_refresh}
use auto_store_api.World.{
  World, Error, Returns, Returns-ok, Returns-mono, pure-Returns, raise_if_then, raise_if-true,
  query_then, query_missing_then, lift_then, fresh_then, step_then, account_locked, invalid_token,
  service,
}
use auto_store_api.Chat.Identity.{is_one}
use auto_store_api.Auth.{
  AuthConfig, Session, claims_of, role_text, lockout_key, token_text, issue_tokens, count_attempt,
  attempts, number_or_zero, forget, login_unlocked, login, parse_token, of_type, refresh,
}

-- The text of a role.
pub data IsRoleText : Role → String → Type 0 where
  admin : IsRoleText Role.admin "ADMIN"
  vendor : IsRoleText Role.vendor "VENDOR"
  customer : IsRoleText Role.customer "CUSTOMER"
  mechanic : IsRoleText Role.mechanic "MECHANIC"
  other : (t : String) → IsRoleText (Role.other t) t

role_text-IsRoleText : (r : Role) → IsRoleText r (role_text r)
role_text-IsRoleText Role.admin = IsRoleText.admin
role_text-IsRoleText Role.vendor = IsRoleText.vendor
role_text-IsRoleText Role.customer = IsRoleText.customer
role_text-IsRoleText Role.mechanic = IsRoleText.mechanic
role_text-IsRoleText (Role.other t) = IsRoleText.other t

-- The claims name a user, with the e-mail address and the role of the row, and hold from a time to another.
pub record Names (user : User) (type : TokenType) (now until : ℕ) (c : Claims) : Type 0 where
  pub user_id : c.user_id ≡ user.id
  pub email : c.email ≡ user.email
  pub role : IsRoleText user.role c.role
  pub token_type : c.token_type ≡ type
  pub issued_at : c.issued_at ≡ now
  pub expires_at : c.expires_at ≡ until

claims_of-Names :
    (user : User) (type : TokenType) (now expiry id : ℕ)
    → Names user type now (now + expiry) (claims_of user type now expiry id)
claims_of-Names user type now expiry id = record {
  user_id = refl;
  email = refl;
  role = role_text-IsRoleText user.role;
  token_type = refl;
  issued_at = refl;
  expires_at = refl;
}

-- A token is what the signing of the claims gives, or is empty when that fails.
abbrev pub IsSigned : Platform → Claims → String → Type 0
IsSigned p claims token =
    (p.sign_claims claims ≡ ok token)
    ⊎ ((e : String) × (p.sign_claims claims ≡ err e) × (token ≡ ""))

token_text-IsSigned :
    (p : Platform) (claims : Claims) → IsSigned p claims (token_text p (p.sign_claims claims))
token_text-IsSigned p claims = go (p.sign_claims claims) refl
  where
    go : (r : Result String String) → p.sign_claims claims ≡ r → IsSigned p claims (token_text p r)
    go (ok t) h = inl h
    go (err e) h = inr (e, h, refl)

module _ (p : Platform) where
  -- Counting an attempt writes to Redis alone.
  count_attempt_db :
      (cfg : AuthConfig) (email : String) (w : World p) → (count_attempt p cfg email w).db ≡ w.db
  unfolding count_attempt
  count_attempt_db cfg email w = go (p.redis.incr (lockout_key email) w.store)
    where
      go :
          (r : Result String (ℤ × p.redis.Store))
          → let v : World p = elim r [
            | ok (n, s) ↦ record w {
              store = elim (is_one n) [
                | true ↦ p.redis.expire (lockout_key email) cfg.lockout_duration s
                | false ↦ s
              ];
            }
            | err _ ↦ w
          ] in
            v.db ≡ w.db
      go (ok (n, s)) = refl
      go (err e) = refl

  -- The counter after an attempt that Redis has counted.
  counted :
      (cfg : AuthConfig) (email : String) (w : World p) (n : ℤ) (s : p.redis.Store)
      → p.redis.incr (lockout_key email) w.store ≡ ok (n, s)
      → p.redis.value (lockout_key email) (count_attempt p cfg email w).store
        ≡ p.redis.value (lockout_key email) s
  unfolding count_attempt
  counted cfg email w n s e =
      ap (λ r. p.redis.value (lockout_key email) (stored r)) e ∙ go (is_one n)
    where
      stored : Result String (ℤ × p.redis.Store) → p.redis.Store
      stored r =
          let v : World p = elim r [
            | ok (n, s) ↦ record w {
              store = elim (is_one n) [
                | true ↦ p.redis.expire (lockout_key email) cfg.lockout_duration s
                | false ↦ s
              ];
            }
            | err _ ↦ w
          ] in
          v.store

      go :
          (b : Bool)
          → p.redis.value (lockout_key email) (elim b [
            | true ↦ p.redis.expire (lockout_key email) cfg.lockout_duration s
            | false ↦ s
          ])
            ≡ p.redis.value (lockout_key email) s
      go true = p.redis.expire_value _ _ s
      go false = refl

  -- When Redis counts the attempt and answers the read that follows, and the attempts that it had counted are so many that one more
  -- is over the limit, `Login` returns `ErrAccountLocked` whatever the password is, and has changed no row.
  pub login_locked :
      (cfg : AuthConfig) (email password : String) (now : ℕ) (w : World p) (m n c : ℤ)
      (s : p.redis.Store)
      → p.redis.value (lockout_key email) w.store ≡ some (number m)
      → p.redis.incr (lockout_key email) w.store ≡ ok (n, s)
      → p.redis.get_int (lockout_key email) (count_attempt p cfg email w).store ≡ ok c
      → ltb_ℤ cfg.lockout_attempts (add_int64 m (pos 1)) ≡ true
      → (login p cfg email password now w).0 ≡ err account_locked
        × ((login p cfg email password now w).1.db ≡ w.db)
  unfolding login attempts
  login_locked cfg email password now w m n c s had incremented read over =
      let (more, now_is) = p.redis.incr_ok _ _ _ n m incremented had in
      let c_is : c ≡ n =
        p.redis.get_int_ok _ _ c n read (counted cfg email w n s incremented ∙ now_is) in
      let high : ltb_ℤ cfg.lockout_attempts (attempts p email (count_attempt p cfg email w))
          ≡ true =
        ap (λ r. ltb_ℤ cfg.lockout_attempts (number_or_zero p r)) read
        ∙ ap (ltb_ℤ cfg.lockout_attempts) (c_is ∙ more)
        ∙ over in
      let run =
        raise_if-true _ account_locked (login_unlocked p cfg email password now)
          (count_attempt p cfg email w) high in
      (ap (λ r. r.0) run, ap (λ r. r.1.db) run ∙ count_attempt_db cfg email w)

  -- Both tokens are signed for the user as the row has it, the one as an access token and the other as a refresh token.
  pub record IssuedFor (cfg : AuthConfig) (user : User) (now : ℕ) (s : Session) : Type 0 where
    pub of_user : s.user ≡ user
    pub access_claims : Claims
    pub access_names : Names user TokenType.access now (now + cfg.access_expiry) access_claims
    pub access : IsSigned p access_claims s.access
    pub refresh_claims : Claims
    pub refresh_names : Names user TokenType.refresh now (now + cfg.refresh_expiry) refresh_claims
    pub refresh : IsSigned p refresh_claims s.refresh

  pub issue_tokens-IssuedFor :
      (cfg : AuthConfig) (user : User) (now : ℕ) (w : World p)
      → Returns (λ s v. IssuedFor cfg user now s × (v.db ≡ w.db)) (issue_tokens p cfg user now w)
  unfolding issue_tokens
  issue_tokens-IssuedFor cfg user now w = fresh_then _ _ w (
      fresh_then _ _ _ (
        pure-Returns _ _ _ (
          record {
            of_user = refl;
            access_claims = _;
            access_names =
                claims_of-Names user TokenType.access now cfg.access_expiry (p.uuid w.drawn);
            access = token_text-IsSigned p _;
            refresh_claims = _;
            refresh_names =
                claims_of-Names user TokenType.refresh now cfg.refresh_expiry
                  (p.uuid (suc w.drawn));
            refresh = token_text-IsSigned p _;
          },
          refl,
        )))

  pub forget_db : (key : String) (w : World p) → Returns (λ _ v. v.db ≡ w.db) (forget p key w)
  unfolding forget Returns
  forget_db key w = go (p.redis.del key w.store)
    where
      go :
          (r : Result String p.redis.Store)
          → let c : Result Error ⊤ × World p = elim r [
            | ok s ↦ (ok tt, record w { store = s })
            | err _ ↦ (ok tt, w)
          ] in
            Returns (λ _ v. v.db ≡ w.db) c
      go (ok s) = refl
      go (err e) = refl

  -- What `Login` has checked.
  pub record LoggedIn (cfg : AuthConfig) (email password : String) (now : ℕ) (s : Session)
      (w v : World p) : Type 0 where
    pub user : User
    pub stored : Has user (p.users.rows w.db.users)
    pub of_email : user.email ≡ email
    pub password_ok : p.same_password user.password_hash password ≡ true
    pub within : ltb_ℤ cfg.lockout_attempts (attempts p email (count_attempt p cfg email w)) ≡ false
    pub issued : IssuedFor cfg user now s
    pub same : v.db ≡ w.db

  -- When `Login` returns a session: the counter as it was read is within the limit, a user with that e-mail
  -- address is stored, the password is that user's, the session's tokens are for that user, and no row has changed.
  pub login-LoggedIn :
      (cfg : AuthConfig) (email password : String) (now : ℕ) (w v : World p) (s : Session)
      → login p cfg email password now w ≡ (ok s, v)
      → LoggedIn cfg email password now s w v
  unfolding login login_unlocked
  login-LoggedIn cfg email password now w v s e =
      let before = count_attempt_db cfg email w in
      Returns-ok (λ s v. LoggedIn cfg email password now s w v) _ s v e
        (raise_if_then _ _ _ _ _ λ within. query_missing_then _ _ _ _ _ λ user found.
          raise_if_then _ _ _ _ _ λ right.
            step_then _ _ _ _ _ (forget_db (lockout_key email) _) λ _ x kept.
              Returns-mono _ _ _
                (λ s v (issued, same). record {
                  user = user;
                  stored =
                      subst (λ d. Has user (p.users.rows d.users)) before
                        (p.users.first_ok _ _ user found).0;
                  of_email = (eq_iff user.email email).0 (p.users.first_ok _ _ user found).1;
                  password_ok = of_not _ right;
                  within = within;
                  issued = issued;
                  same = same ∙ kept ∙ before;
                })
                (issue_tokens-IssuedFor cfg user now x))

  -- What `Refresh` has checked.
  pub record Refreshed (cfg : AuthConfig) (token : String) (now : ℕ) (s : Session) (w v : World p)
      : Type 0 where
    pub claims : Claims
    pub valid : p.parse_claims token ≡ ok claims
    pub is_refresh_token : is_refresh claims.token_type ≡ true
    pub user : User
    pub stored : lookup (λ u. u.id) claims.user_id (p.users.rows w.db.users) ≡ some user
    pub issued : IssuedFor cfg user now s
    pub same : v.db ≡ w.db

  -- What a validated token carries.
  pub of_type-ok :
      (wanted : TokenType → Bool) (token : String) (c : Claims)
      → of_type p wanted (parse_token p token) ≡ ok c
      → (p.parse_claims token ≡ ok c) × (wanted c.token_type ≡ true)
  of_type-ok wanted token c e = go (p.parse_claims token) e
    where
      typed :
          (d : Claims) (b : Bool)
          → wanted d.token_type ≡ b
          → elim b [ true ↦ ok d | false ↦ err invalid_token ] ≡ ok c
          → (◌≡◌ {A = Result String Claims} (ok d) (ok c)) × (wanted c.token_type ≡ true)
      typed d true h e =
          let same : d ≡ c = ok_injective e in
          (ap ok same, ap (λ (c : Claims). wanted c.token_type) (sym same) ∙ h)
      typed d false h e = cc

      go :
          (r : Result String Claims)
          → of_type p wanted (elim r [ ok c ↦ ok c | err e ↦ err (service e) ]) ≡ ok c
          → (r ≡ ok c) × (wanted c.token_type ≡ true)
      go (ok d) e = typed d (wanted d.token_type) refl e
      go (err x) e = cc

  -- When `Refresh` returns a session: the token is valid and is a refresh token, the user that it names is stored, the new tokens, each
  -- of its type, name that user with the e-mail address and the role that are stored now, and no row has changed.
  pub refresh-Refreshed :
      (cfg : AuthConfig) (token : String) (now : ℕ) (w v : World p) (s : Session)
      → refresh p cfg token now w ≡ (ok s, v)
      → Refreshed cfg token now s w v
  unfolding refresh
  refresh-Refreshed cfg token now w v s e =
      Returns-ok (λ s v. Refreshed cfg token now s w v) _ s v e
        (lift_then _ _ _ w λ c valid. query_then _ _ _ w λ user found.
          let (parsed, typed) = of_type-ok is_refresh token c valid in
          Returns-mono _ _ _
            (λ s v (issued, same). record {
              claims = c;
              valid = parsed;
              is_refresh_token = typed;
              user = user;
              stored = p.users.get_ok _ _ user found;
              issued = issued;
              same = same;
            })
            (issue_tokens-IssuedFor cfg user now w))
