-- ===== src/Tests/Accounts.antt =====
-- An administrator logs in, a customer registers and resets the password, and requests pass the middleware.
use auto_store_api.Prelude.{ℤ, pos, ◌≡◌, refl, none, some, [], ◌∷◌, ok, err, add_int64}
use auto_store_api.Platform.{Platform}
use auto_store_api.Platform.Keys.{number, text}
use auto_store_api.Models.Accounts.{User, Role}
use auto_store_api.Models.Tokens.{TokenType}
use auto_store_api.World.{
  World, Db, ◌>>=◌, ◌>>◌, pure, query, exec, raise_if, on_missing, or_raise, fresh, lift,
  account_locked,
}
use auto_store_api.Auth.{
  AuthConfig, Session, login, login_unlocked, count_attempt, attempts, forget, issue_tokens,
  refresh, register, hashed, reset_password, get_text, new_user, lockout_key,
}
use auto_store_api.Auth.Login.{LoggedIn, login-LoggedIn, login_locked, Refreshed, refresh-Refreshed}
use auto_store_api.Auth.Accounts.{Registered, register-Registered, Reset, reset_password-Reset}
use auto_store_api.Middleware.{
  Context, next, after, auth_required, check_access, extract_bearer_token, with_user, require_role,
  role_of, flexible_auth, check_either, check_guest,
}
use auto_store_api.Middleware.Admitted.{HasRole, role_route-HasRole}
use auto_store_api.Middleware.Identity.{OneIdentity, flexible_auth-OneIdentity}
use auto_store_api.Memory.{memory_platform, empty_db, started}

abbrev cfg : AuthConfig
cfg = record {
  lockout_attempts = pos 2;
  lockout_duration = 15;
  access_expiry = 10;
  refresh_expiry = 90;
}

abbrev owner : User
owner = new_user 7 "owner" "secret" "" "" "" Role.admin

abbrev shop_users : Db memory_platform
shop_users = record empty_db { users = owner ∷ [] }

-- Two attempts have failed.
abbrev attempted : World memory_platform
attempted = record (started shop_users) { store = ((lockout_key "owner", number (pos 2)) ∷ [], []) }

login_locked_example :
    ((login memory_platform cfg "owner" "secret" 3 attempted).0 ≡ err account_locked)
    × ((login memory_platform cfg "owner" "secret" 3 attempted).1.db ≡ attempted.db)
unfolding count_attempt add_int64
login_locked_example =
    login_locked memory_platform cfg "owner" "secret" 3 attempted (pos 2) (pos 3) (pos 3)
      ((lockout_key "owner", number (pos 3)) ∷ (lockout_key "owner", number (pos 2)) ∷ [], []) refl
      refl refl refl

abbrev session_of : User → Session
session_of user = record { user = user; access = "token"; refresh = "token"; expires_at = 13 }

abbrev after_login : World memory_platform
after_login = (login memory_platform cfg "owner" "secret" 3 (started shop_users)).1

login-run :
    login memory_platform cfg "owner" "secret" 3 (started shop_users)
    ≡ (ok (session_of owner), after_login)
unfolding login login_unlocked count_attempt attempts forget issue_tokens ◌>>=◌ ◌>>◌ pure query
    raise_if on_missing fresh
login-run = refl

login-LoggedIn_example :
    LoggedIn memory_platform cfg "owner" "secret" 3
      (session_of owner)
      (started shop_users)
      after_login
login-LoggedIn_example =
    login-LoggedIn memory_platform cfg "owner" "secret" 3 (started shop_users) after_login
      (session_of owner) login-run

abbrev buyer : User
buyer = new_user 101 "buyer" "pass" "" "" "" Role.customer

abbrev after_register : World memory_platform
after_register = (register memory_platform cfg "buyer" "pass" "" "" "" 3 (started shop_users)).1

register-run :
    register memory_platform cfg "buyer" "pass" "" "" "" 3 (started shop_users)
    ≡ (ok (session_of buyer), after_register)
unfolding register hashed issue_tokens ◌>>=◌ ◌>>◌ pure query exec raise_if fresh lift
register-run = refl

register-Registered_example :
    Registered memory_platform cfg "buyer" "pass" 3
      (session_of buyer)
      (started shop_users)
      after_register
register-Registered_example =
    register-Registered memory_platform cfg "buyer" "pass" "" "" "" 3 (started shop_users)
      after_register (session_of buyer) register-run

-- The platform in memory with tokens that name the user 7 as a customer, and texts that are ids.
abbrev tokens_of : TokenType → Platform
tokens_of type = record memory_platform {
  parse_claims = λ s. ok (record {
    user_id = 7;
    email = "owner";
    role = "CUSTOMER";
    token_type = type;
    expires_at = 100;
    issued_at = 0;
    id = 1;
  });
  parse_uuid = λ s. some 7;
}

abbrev refreshing : World (tokens_of TokenType.refresh)
refreshing = record {
  db = record {
    products = [];
    movements = [];
    carts = [];
    addresses = [];
    orders = [];
    order_items = [];
    users = owner ∷ [];
    profiles = [];
    job_types = [];
    services = [];
    quotes = [];
    quote_items = [];
    quote_lines = [];
    bookings = [];
    payments = [];
    categories = [];
    questions = [];
    answers = [];
    conversations = [];
    messages = [];
    notifications = [];
    preferences = [];
  };
  drawn = 0;
  begun = 0;
  notices = [];
  called = 0;
  refunds = [];
  published = [];
  mailed = 0;
  store = (("password_reset:abc", text "7") ∷ [], []);
}

abbrev after_refresh : World (tokens_of TokenType.refresh)
after_refresh = (refresh (tokens_of TokenType.refresh) cfg "token" 3 refreshing).1

refresh-run :
    refresh (tokens_of TokenType.refresh) cfg "token" 3 refreshing
    ≡ (ok (session_of owner), after_refresh)
unfolding refresh issue_tokens ◌>>=◌ pure query fresh lift
refresh-run = refl

refresh-Refreshed_example :
    Refreshed
      (tokens_of TokenType.refresh)
      cfg
      "token"
      3
      (session_of owner)
      refreshing
      after_refresh
refresh-Refreshed_example =
    refresh-Refreshed (tokens_of TokenType.refresh) cfg "token" 3 refreshing after_refresh
      (session_of owner) refresh-run

abbrev after_reset : World (tokens_of TokenType.refresh)
after_reset = (reset_password (tokens_of TokenType.refresh) "abc" "new" refreshing).1

reset-run :
    reset_password (tokens_of TokenType.refresh) "abc" "new" refreshing ≡ (ok tt, after_reset)
unfolding reset_password get_text hashed forget ◌>>=◌ ◌>>◌ query exec or_raise fresh lift
reset-run = refl

reset_password-Reset_example :
    Reset (tokens_of TokenType.refresh) "abc" "new" refreshing after_reset
reset_password-Reset_example =
    reset_password-Reset (tokens_of TokenType.refresh) "abc" "new" refreshing after_reset reset-run

abbrev nobody : Context ℤ
nobody = record { claims = none; user = none; guest = none; mechanic_profile = none }

abbrev let_in : Context ℤ
let_in = record nobody {
  claims = some (record {
    user_id = 7;
    email = "owner";
    role = "CUSTOMER";
    token_type = TokenType.access;
    expires_at = 100;
    issued_at = 0;
    id = 1;
  });
  user = some owner;
}

abbrev accounts : Db (tokens_of TokenType.access)
accounts = record {
  products = [];
  movements = [];
  carts = [];
  addresses = [];
  orders = [];
  order_items = [];
  users = owner ∷ [];
  profiles = [];
  job_types = [];
  services = [];
  quotes = [];
  quote_items = [];
  quote_lines = [];
  bookings = [];
  payments = [];
  categories = [];
  questions = [];
  answers = [];
  conversations = [];
  messages = [];
  notifications = [];
  preferences = [];
}

route-run :
    after
      (auth_required (tokens_of TokenType.access) accounts "token")
      (require_role (tokens_of TokenType.access) (Role.admin ∷ []))
      nobody
    ≡ next let_in
unfolding after auth_required check_access extract_bearer_token with_user require_role role_of
route-run = refl

role_route-HasRole_example :
    HasRole (tokens_of TokenType.access) accounts "token" (Role.admin ∷ []) let_in
role_route-HasRole_example =
    role_route-HasRole (tokens_of TokenType.access) accounts "token" (Role.admin ∷ []) nobody let_in
      route-run

flexible-run : flexible_auth (tokens_of TokenType.access) accounts "token" nobody ≡ next let_in
unfolding flexible_auth check_either check_guest extract_bearer_token with_user
flexible-run = refl

flexible_auth-OneIdentity_example : OneIdentity (tokens_of TokenType.access) accounts "token" let_in
flexible_auth-OneIdentity_example =
    flexible_auth-OneIdentity (tokens_of TokenType.access) accounts "token" nobody let_in refl refl
      flexible-run
