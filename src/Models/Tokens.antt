-- ===== src/Models/Tokens.antt =====
-- What the tokens carry: pkg/auth/jwt.go and guest_jwt.go.
use auto_store_api.Prelude.{ℕ, Bool, true, false}
use auto_store_api.Prelude.{String}

-- `TokenType`, and `GuestTokenType`; `other` is any text that is not one of the three constants.
pub data TokenType : Type 0 where
  access refresh guest : TokenType
  other : String → TokenType

abbrev pub is_access : TokenType → Bool
is_access TokenType.access = true
is_access _ = false

abbrev pub is_refresh : TokenType → Bool
is_refresh TokenType.refresh = true
is_refresh _ = false

abbrev pub is_guest : TokenType → Bool
is_guest TokenType.guest = true
is_guest _ = false

-- `Claims`; the role is its text.
pub record Claims : Type 0 where
  pub user_id : ℕ
  pub email : String
  pub role : String
  pub token_type : TokenType
  pub expires_at : ℕ
  pub issued_at : ℕ
  pub id : ℕ

-- `GuestClaims`
pub record GuestClaims : Type 0 where
  pub guest_id : ℕ
  pub token_type : TokenType
  pub expires_at : ℕ
  pub issued_at : ℕ
  pub id : ℕ
