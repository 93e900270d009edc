-- ===== src/Tests/Chat.antt =====
-- A support chat with an open and a closed conversation, and a hub with two clients.
use auto_store_api.Prelude.{ℕ, ◌+◌, pos, ◌≡◌, refl, true, none, some, [], ◌∷◌, ok, inl}
use auto_store_api.Models.Support.{Conversation, ConversationStatus, ChatMessage, MessageSenderType}
use auto_store_api.Models.Tokens.{GuestClaims, TokenType}
use auto_store_api.World.{
  World, ◌>>=◌, ◌>>◌, pure, query, exec, raise_if, on_missing, attempt, ignore, fresh, notify, lift,
  skip_if,
}
use auto_store_api.Chat.Identity.{ChatConfig, ChatIdentity}
use auto_store_api.Chat.Hub.{Hub, member, new_hub, register, subscribe, remove_client, broadcast}
use auto_store_api.Chat.Hub.Live.{IsLive}
use auto_store_api.Chat.Hub.Steps
use auto_store_api.Chat.Hub.Steps.{Reached-broadcast}
use auto_store_api.Chat.Hub.Leaked.{broadcast_panics, late_subscribe_panics}
use auto_store_api.Chat.Service.{
  alert_admins, send_message, check_message_rate, get_conversation, dispatch_message_notifications,
  publish, count_call, check_rate, link_guest,
}
use auto_store_api.Chat.Service.Send.{Sent, send_message-Sent}
use auto_store_api.Chat.Service.Closed.{Reached-StaysClosed}
use auto_store_api.Chat.Service.Closed
use auto_store_api.Chat.Service.Frozen.{StaysClosed}
use auto_store_api.Chat.Service.Guests.{open_count, link_guest-count}
use auto_store_api.Memory.{memory_platform, empty_db, started}

abbrev pub talk : ℕ → ConversationStatus → Conversation
talk id status = record {
  id = id;
  user_id = some 7;
  guest_id = none;
  guest_email = "";
  guest_name = "";
  status = status;
  context_type = none;
  context_id = none;
  last_message_at = 1;
  customer_last_read_at = none;
  admin_last_read_at = none;
}

-- The user 7 has the open conversation 1 and the closed one 2, and the guest 9 has the open one 3.
abbrev pub support : World memory_platform
support = started (record empty_db {
  conversations =
      talk 1 ConversationStatus.open_
      ∷ talk 2 ConversationStatus.closed
      ∷ record (talk 3 ConversationStatus.open_) { user_id = none; guest_id = some 9 }
      ∷ [];
})

abbrev limits : ChatConfig
limits = record {
  message_max_len = 10;
  guest_session_per_hour = pos 3;
  message_rate_limit_per_m = pos 3;
  guest_expiry = 100;
}

abbrev client : ChatIdentity
client = record { user_id = some 7; guest_id = none; user = none }

abbrev hello : ChatMessage
hello = record {
  id = 100;
  conversation_id = 1;
  sender_type = MessageSenderType.customer;
  sender_user_id = some 7;
  body = "hello";
  created_at = 5;
}

abbrev after_hello : World memory_platform
after_hello = (send_message memory_platform limits 1 client "hello" 5 support).1

send-run : send_message memory_platform limits 1 client "hello" 5 support ≡ (ok hello, after_hello)
unfolding send_message check_message_rate get_conversation dispatch_message_notifications publish
    ◌>>=◌ ◌>>◌ pure query exec raise_if on_missing attempt ignore fresh notify lift skip_if
    count_call check_rate alert_admins
send-run = refl

send_message-Sent_example : Sent memory_platform limits 1 client "hello" 5 hello support after_hello
send_message-Sent_example =
    send_message-Sent memory_platform limits 1 client "hello" 5 support after_hello hello send-run

Reached-StaysClosed_example : StaysClosed memory_platform support.db after_hello.db
Reached-StaysClosed_example = Reached-StaysClosed memory_platform (
    Closed.Reached.next (Closed.Reached.start support)
      (Closed.Step.send limits 1 client "hello" 5 support))

abbrev guest : GuestClaims
guest = record { guest_id = 9; token_type = TokenType.guest; expires_at = 0; issued_at = 0; id = 0 }

abbrev after_link : World memory_platform
after_link = (link_guest memory_platform 7 "token" support).1

link-run : link_guest memory_platform 7 "token" support ≡ (ok (3 ∷ []), after_link)
unfolding link_guest ◌>>=◌ ◌>>◌ pure query exec lift skip_if
link-run = refl

link_guest-count_example :
    open_count 7 (memory_platform.conversations.rows after_link.db.conversations) ≡ 1 + 1
link_guest-count_example =
    link_guest-count memory_platform 7 "token" guest (3 ∷ []) support after_link refl link-run

-- The client 1 is connected and subscribed to the conversation 4.
abbrev followed : Hub
followed = subscribe 1 4 (register 1 new_hub)

Reached-broadcast_example :
    IsLive followed × ((h' : Hub) × (broadcast 4 "hello" followed ≡ some h') × IsLive h')
unfolding register
Reached-broadcast_example =
    Reached-broadcast followed 4 "hello"
      (Steps.Reached.next (register 1 new_hub) followed
        (Steps.Reached.next new_hub (register 1 new_hub) Steps.Reached.start
          (Steps.Step.connect new_hub 1))
        (Steps.Step.follow (register 1 new_hub) 1 4))
      ((tt, refl), (refl, (λ e. cc), inl refl))

one_is_in : member 1 ((register 1 new_hub).clients) ≡ true
unfolding register
one_is_in = refl

broadcast_panics_example :
    broadcast 4 "hello" (remove_client 1 (subscribe 1 5 (subscribe 1 4 (register 1 new_hub))))
    ≡ none
broadcast_panics_example =
    broadcast_panics 1 4 5 "hello" (register 1 new_hub) one_is_in (λ e. cc) (λ e. cc)

late_subscribe_panics_example :
    broadcast 4 "hello" (subscribe 1 4 (remove_client 1 (register 1 new_hub))) ≡ none
late_subscribe_panics_example = late_subscribe_panics 1 4 "hello" (register 1 new_hub) one_is_in
