-- ===== src/Chat/Identity.antt =====
-- Who talks in the support chat and what they may see, and the rows that
-- internal/services/chat_service.go makes.
use auto_store_api.Prelude.{
  ℕ, ◌+◌, ℤ, pos, negsuc, Bool, true, false, Option, none, some, List, [], ◌∷◌, String, Result, ok,
  err, ◌==◌, ◌&&◌, ◌||◌, if◌then◌else◌,
}
use auto_store_api.Models.Accounts.{User, is_admin}
use auto_store_api.Models.Support.{
  Conversation, ChatMessage, ConversationStatus, ChatContextType, MessageSenderType, is_open,
}
use auto_store_api.Models.Tokens.{GuestClaims, TokenType}
use auto_store_api.World.{Error, service}

-- `ChatConfig`, as far as the service reads it.
pub record ChatConfig : Type 0 where
  pub message_max_len : ℕ
  pub guest_session_per_hour : ℤ
  pub message_rate_limit_per_m : ℤ
  pub guest_expiry : ℕ

-- `ChatIdentity`
pub record ChatIdentity : Type 0 where
  pub user_id : Option ℕ
  pub guest_id : Option ℕ
  pub user : Option User

-- `IsAdmin`
abbrev pub is_admin_identity : ChatIdentity → Bool
is_admin_identity identity = elim identity.user [ none ↦ false | some u ↦ is_admin u.role ]

-- `CreateConversationInput`
pub record CreateConversationInput : Type 0 where
  pub context_type : Option ChatContextType
  pub context_id : Option ℕ
  pub guest_name : String

-- `UpdateConversationInput`
pub record UpdateConversationInput : Type 0 where
  pub status : Option ConversationStatus
  pub guest_email : Option String
  pub guest_name : Option String

-- `a != nil && b != nil && *a == *b`
abbrev pub same_id : Option ℕ → Option ℕ → Bool
same_id none _ = false
same_id (some a) none = false
same_id (some a) (some b) = a == b

abbrev pub is_nil_id : Option ℕ → Bool
is_nil_id none = true
is_nil_id (some _) = false

-- `canAccess`
abbrev pub can_access : Conversation → ChatIdentity → Bool
can_access conv identity =
    is_admin_identity identity
    || same_id identity.user_id conv.user_id
    || same_id identity.guest_id conv.guest_id

-- What `GetOpenByUserID` and `GetOpenByGuestID` look for.
abbrev pub open_of_user : ℕ → Conversation → Bool
open_of_user id c = same_id (some id) c.user_id && is_open c.status

abbrev pub open_of_guest : ℕ → Conversation → Bool
open_of_guest id c = same_id (some id) c.guest_id && is_open c.status

-- What `LinkGuestConversations` looks for and writes.
abbrev pub guest_only : ℕ → Conversation → Bool
guest_only id c = same_id (some id) c.guest_id && is_nil_id c.user_id

abbrev pub given_to : ℕ → Conversation → Conversation
given_to user_id c = record c { user_id = some user_id; guest_id = none }

-- The row that `GetOrCreateConversation` makes.
abbrev pub new_conversation :
    ℕ → Option ℕ → Option ℕ → String → CreateConversationInput → ℕ → Conversation
new_conversation id user_id guest_id guest_name input now = record {
  id = id;
  user_id = user_id;
  guest_id = guest_id;
  guest_email = "";
  guest_name = guest_name;
  status = ConversationStatus.open_;
  context_type = input.context_type;
  context_id = input.context_id;
  last_message_at = now;
  customer_last_read_at = none;
  admin_last_read_at = none;
}

-- The row that `SendMessage` makes.
abbrev pub new_message : ℕ → ℕ → ChatIdentity → String → ℕ → ChatMessage
new_message id conversation_id identity body now = record {
  id = id;
  conversation_id = conversation_id;
  sender_type =
      if is_admin_identity identity then MessageSenderType.admin else MessageSenderType.customer;
  sender_user_id =
      if is_admin_identity identity
      then elim identity.user [ none ↦ none | some u ↦ some u.id ]
      else identity.user_id;
  body = body;
  created_at = now;
}

-- The claims that `Generate` of `GuestTokenManager` signs.
abbrev pub guest_claims : ChatConfig → ℕ → ℕ → ℕ → GuestClaims
guest_claims cfg guest_id now id = record {
  guest_id = guest_id;
  token_type = TokenType.guest;
  expires_at = now + cfg.guest_expiry;
  issued_at = now;
  id = id;
}

abbrev pub signed : Result String String → Result Error String
signed (ok token) = ok token
signed (err e) = err (service e)

abbrev pub is_empty : {A : Type 0} → List A → Bool
is_empty [] = true
is_empty (_ ∷ _) = false

abbrev pub is_one : ℤ → Bool
is_one (pos n) = n == 1
is_one (negsuc _) = false
