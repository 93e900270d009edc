-- ===== src/Chat/Service.antt =====
-- The support chat: internal/services/chat_service.go, with internal/repositories/chat_repository.go.
-- `notices` has what is handed to the notifier, `published` what is handed to the hub.
pub mod Rate
pub mod Send
pub mod Private
pub mod Frozen
pub mod Closed
pub mod Guests
use auto_store_api.Prelude.{
  ⊤, ℕ, ◌+◌, ℤ, pos, negsuc, Bool, true, false, Option, none, some, List, [], ◌∷◌, String, Result,
  ok, err, ◌==◌, ◌&&◌, ◌||◌, not, ltb, ltb_ℤ, if◌then◌else◌, text_append, str_eq, map,
}
use auto_store_api.Platform.{Platform}
use auto_store_api.Models.Accounts.{User, is_admin}
use auto_store_api.Models.Support.{
  Conversation, ChatMessage, ConversationStatus, ChatContextType, MessageSenderType, is_open,
  is_closed,
}
use auto_store_api.Models.Tokens.{GuestClaims, TokenType, is_guest}
use auto_store_api.World.{
  Db, World, M, Error, ◌>>=◌, ◌>>◌, pure, raise, query, exec, raise_if, or_raise, on_missing,
  attempt, ignore, fresh, notify, lift, skip_if, db, conversation_not_found, conversation_forbidden,
  conversation_closed, message_rate_limit, is_missing, guest_session_rate_limit,
  invalid_message_body, invalid_guest_email, invalid_guest_token, is_missing, service,
  support_admin_replied, support_new_conversation,
}
use auto_store_api.Platform.Sql.{DbError, record_not_found}
use auto_store_api.Chat.Identity.{
  ChatConfig, ChatIdentity, is_admin_identity, CreateConversationInput, UpdateConversationInput,
  is_nil_id, can_access, open_of_user, open_of_guest, guest_only, given_to, new_conversation,
  new_message, guest_claims, signed, is_empty, is_one,
}

module _ (p : Platform) where
  abbrev pub put_conversations : p.conversations.Rows → Db p → Db p
  put_conversations t d = record d { conversations = t }

  abbrev pub put_messages : p.messages.Rows → Db p → Db p
  put_messages t d = record d { messages = t }

  -- `INCR`, with an `EXPIRE` when the counter is new; an error lets the call pass.
  unfoldable pub count_call : String → ℕ → World p → Option ℤ × World p
  count_call key ttl w = elim (p.redis.configured) [
    | false ↦ (none, w)
    | true ↦ elim (p.redis.incr key w.store) [
      | ok (n, s) ↦ (
        some n,
        record w { store = elim (is_one n) [ true ↦ p.redis.expire key ttl s | false ↦ s ] },
      )
      | err _ ↦ (none, w)
    ]
  ]

  abbrev pub over : Option ℤ → ℤ → Bool
  over none limit = false
  over (some n) limit = ltb_ℤ limit n

  -- `checkGuestSessionRateLimit` and the end of `checkMessageRateLimit`.
  unfoldable pub check_rate : String → ℕ → ℤ → Error → M p ⊤
  unfolding count_call
  check_rate key ttl limit e w =
      let (n, v) = count_call key ttl w in (elim (over n limit) [ true ↦ err e | false ↦ ok tt ], v)

  -- The key of `checkMessageRateLimit`: neither a user nor a guest has none.
  abbrev pub message_key : ChatIdentity → Option String
  message_key identity = elim identity.user [
    | some u ↦ some (text_append "chat:msg:user:" (p.uuid_text u.id))
    | none ↦ elim identity.guest_id [
      | some g ↦ some (text_append "chat:msg:guest:" (p.uuid_text g))
      | none ↦ none
    ]
  ]

  -- `checkMessageRateLimit`
  unfoldable pub check_message_rate : ChatConfig → Option String → M p ⊤
  unfolding check_rate
  check_message_rate cfg none = pure tt
  check_message_rate cfg (some key) =
      check_rate key 60 cfg.message_rate_limit_per_m message_rate_limit

  -- The end of `GetConversation`.
  abbrev pub guarded : ChatIdentity → Conversation → M p Conversation
  guarded identity conv = do
    raise_if p (not (can_access conv identity)) conversation_forbidden
    pure conv

  -- `GetConversation`
  unfoldable pub get_conversation : ℕ → ChatIdentity → M p Conversation
  get_conversation id identity = do
    conv ← on_missing (query p (λ d. p.conversations.get id d.conversations)) conversation_not_found
    guarded identity conv

  -- The conversation that `GetOrCreateConversation` returns, and whether it made it.
  unfoldable pub open_or_new :
      Result Error Conversation → (ℕ → Conversation) → M p (Conversation × Bool)
  open_or_new (ok conv) make = pure (conv, false)
  open_or_new (err e) make = elim (is_missing e) [
    | true ↦ do
      id ← fresh p
      exec p (λ d. p.conversations.create (make id) d.conversations) put_conversations
      pure (make id, true)
    | false ↦ raise e
  ]

  -- The branches of `GetOrCreateConversation` on the user and the guest.
  unfoldable pub open_for :
      Option ℕ → Option ℕ → CreateConversationInput → ℕ → M p (Conversation × Bool)
  open_for (some user_id) _ input now = do
    found ← attempt (query p (λ d. p.conversations.first (open_of_user user_id) d.conversations))
    open_or_new found (λ id. new_conversation id (some user_id) none "" input now)
  open_for none (some guest_id) input now = do
    found ← attempt (query p (λ d. p.conversations.first (open_of_guest guest_id) d.conversations))
    open_or_new found (λ id.
        new_conversation id none (some guest_id) (p.texts.trim_space input.guest_name) input now)
  open_for none none input now = raise conversation_forbidden

  -- `GetOrCreateConversation`
  unfoldable pub get_or_create_conversation :
      ChatIdentity → CreateConversationInput → ℕ → M p (Conversation × Bool)
  unfolding open_for
  get_or_create_conversation identity input now =
      open_for identity.user_id identity.guest_id input now

  -- The loop over the administrators in `dispatchMessageNotifications`; a failure is only logged.
  unfoldable pub alert_admins : ℕ → List User → M p ⊤
  alert_admins conversation_id [] = pure tt
  alert_admins conversation_id (admin ∷ admins) = do
    notify p (support_new_conversation admin.id conversation_id)
    alert_admins conversation_id admins

  -- `ListByRole`
  abbrev pub admin_users : Db p → Result DbError (List User)
  admin_users d = p.users.find (λ u. is_admin u.role) d.users

  -- The end of `dispatchMessageNotifications`, from the administrators as they could be read.
  abbrev pub alert_read : ℕ → Result Error (List User) → M p ⊤
  alert_read conversation_id (ok admins) = alert_admins conversation_id admins
  alert_read conversation_id (err e) = pure tt

  -- Is it the conversation's first message?
  abbrev pub is_first : Result Error ℕ → Bool
  is_first (ok n) = n == 1
  is_first (err e) = false

  -- `dispatchMessageNotifications`
  unfoldable pub dispatch_message_notifications : Conversation → ChatMessage → ChatIdentity → M p ⊤
  dispatch_message_notifications conv msg identity = elim (is_admin_identity identity) [
    | true ↦ notify p (support_admin_replied conv.id msg.id)
    | false ↦ do
      count ←
          attempt (query p (λ d. p.messages.count (λ m. m.conversation_id == conv.id) d.messages))
      skip_if p (not (is_first count))
          (do admins ← attempt (query p admin_users); alert_read conv.id admins)
  ]

  -- `publisher.PublishMessage`
  unfoldable pub publish : ChatMessage → M p ⊤
  publish msg w = (ok tt, record w { published = msg.id ∷ w.published })

  -- `TouchLastMessageAt`
  abbrev pub touch_last_message_at : ℕ → ℕ → M p ⊤
  touch_last_message_at id now =
      exec p
        (λ d.
          p.conversations.update (λ c. c.id == id) (λ c. record c { last_message_at = now })
            d.conversations)
        put_conversations

  -- `SendMessage`
  unfoldable pub send_message : ChatConfig → ℕ → ChatIdentity → String → ℕ → M p ChatMessage
  send_message cfg conversation_id identity text now =
      let body = p.texts.trim_space text in
      do
        raise_if p (str_eq body "" || ltb cfg.message_max_len (p.texts.byte_len body))
            invalid_message_body
        check_message_rate cfg (message_key identity)
        conv ← get_conversation conversation_id identity
        raise_if p (is_closed conv.status) conversation_closed
        id ← fresh p
        let msg = new_message id conversation_id identity body now
        exec p (λ d. p.messages.create msg d.messages) put_messages
        ignore (touch_last_message_at conversation_id now)
        publish msg
        dispatch_message_notifications conv msg identity
        pure msg

  -- The part of `UpdateConversation` that reads `input.Status`.
  abbrev pub close_if : Option ConversationStatus → Conversation → Result Error Conversation
  close_if none conv = ok conv
  close_if (some ConversationStatus.open_) conv = err invalid_message_body
  close_if (some ConversationStatus.closed) conv =
      ok (record conv { status = ConversationStatus.closed })

  -- The part that reads `input.GuestEmail`.
  abbrev pub set_email : ChatIdentity → Option String → Conversation → Result Error Conversation
  set_email identity none conv = ok conv
  set_email identity (some text) conv = elim (is_nil_id identity.guest_id) [
    | true ↦ err conversation_forbidden
    | false ↦
        let email = p.texts.trim_space text in
        elim (str_eq email "" || not (p.texts.is_mail email)) [
          | true ↦ err invalid_guest_email
          | false ↦ ok (record conv { guest_email = email })
        ]
  ]

  -- The part that reads `input.GuestName`.
  abbrev pub set_name : ChatIdentity → Option String → Conversation → Result Error Conversation
  set_name identity none conv = ok conv
  set_name identity (some text) conv =
      elim (is_nil_id identity.guest_id && not (is_admin_identity identity)) [
        | true ↦ err conversation_forbidden
        | false ↦ ok (record conv { guest_name = p.texts.trim_space text })
      ]

  -- `UpdateConversation`
  unfoldable pub update_conversation : ℕ → ChatIdentity → UpdateConversationInput → M p Conversation
  update_conversation conversation_id identity input = do
    conv ← get_conversation conversation_id identity
    shut ← lift p (close_if input.status conv)
    mailed ← lift p (set_email identity input.guest_email shut)
    named ← lift p (set_name identity input.guest_name mailed)
    exec p (λ d. p.conversations.save named d.conversations) put_conversations
    pure named

  -- `MarkAdminRead` and `MarkCustomerRead`
  abbrev pub read_at : Bool → ℕ → Conversation → Conversation
  read_at true now c = record c { admin_last_read_at = some now }
  read_at false now c = record c { customer_last_read_at = some now }

  -- `MarkRead`
  unfoldable pub mark_read : ℕ → ChatIdentity → ℕ → M p ⊤
  mark_read conversation_id identity now = do
    _ ← get_conversation conversation_id identity
    exec p
        (λ d.
          p.conversations.update (λ c. c.id == conversation_id)
            (read_at (is_admin_identity identity) now) d.conversations)
        put_conversations

  -- `Validate` of `GuestTokenManager`
  abbrev pub validate_guest : String → Result Error GuestClaims
  validate_guest token = elim (p.parse_guest token) [
    | ok claims ↦ elim (is_guest claims.token_type) [
      | true ↦ ok claims
      | false ↦ err invalid_guest_token
    ]
    | err _ ↦ err invalid_guest_token
  ]

  -- `LinkGuestConversations`
  unfoldable pub link_guest_conversations : ℕ → ℕ → M p (List ℕ)
  link_guest_conversations guest_id user_id = do
    convs ← query p (λ d. p.conversations.find (guest_only guest_id) d.conversations)
    skip_if p (is_empty convs) (
        exec p
          (λ d. p.conversations.update (guest_only guest_id) (given_to user_id) d.conversations)
          put_conversations)
    pure (map (λ c. c.id) convs)

  -- `LinkGuest`
  unfoldable pub link_guest : ℕ → String → M p (List ℕ)
  unfolding link_guest_conversations
  link_guest user_id token = do
    claims ← lift p (validate_guest token)
    link_guest_conversations claims.guest_id user_id

  -- `CreateGuestSession` and `RefreshGuestSession`
  unfoldable pub refresh_guest_session : ChatConfig → ℕ → ℕ → M p String
  refresh_guest_session cfg guest_id now = do
    id ← fresh p
    lift p (signed (p.sign_guest (guest_claims cfg guest_id now id)))

  unfoldable pub create_guest_session : ChatConfig → String → ℕ → M p (ℕ × String)
  unfolding check_rate refresh_guest_session
  create_guest_session cfg client_ip now = do
    check_rate (text_append "chat:guest_session:" client_ip) 3600 cfg.guest_session_per_hour
        guest_session_rate_limit
    guest_id ← fresh p
    token ← refresh_guest_session cfg guest_id now
    pure (guest_id, token)
