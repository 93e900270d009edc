-- ===== src/Models/Support.antt =====
-- Conversations, their messages, and notifications: internal/models/chat.go and notification.go.
-- The columns are those that the services read or write.
use auto_store_api.Prelude.{ℕ, Bool, true, false, Option, String}

-- `ConversationStatus`
pub data ConversationStatus : Type 0 where
  open_ closed : ConversationStatus

abbrev pub is_open : ConversationStatus → Bool
is_open ConversationStatus.open_ = true
is_open _ = false

abbrev pub is_closed : ConversationStatus → Bool
is_closed ConversationStatus.closed = true
is_closed _ = false

-- `ChatContextType`
pub data ChatContextType : Type 0 where
  general order product : ChatContextType

-- `MessageSenderType`
pub data MessageSenderType : Type 0 where
  customer admin system : MessageSenderType

-- `Conversation`
pub record Conversation : Type 0 where
  pub id : ℕ
  pub user_id : Option ℕ
  pub guest_id : Option ℕ
  pub guest_email : String
  pub guest_name : String
  pub status : ConversationStatus
  pub context_type : Option ChatContextType
  pub context_id : Option ℕ
  pub last_message_at : ℕ
  pub customer_last_read_at : Option ℕ
  pub admin_last_read_at : Option ℕ

-- `ChatMessage`
pub record ChatMessage : Type 0 where
  pub id : ℕ
  pub conversation_id : ℕ
  pub sender_type : MessageSenderType
  pub sender_user_id : Option ℕ
  pub body : String
  pub created_at : ℕ

-- `NotificationChannel`; `other` is any text that is not one of the four constants.
pub data NotificationChannel : Type 0 where
  in_app email sms push : NotificationChannel
  other : String → NotificationChannel

abbrev pub channel_text : NotificationChannel → String
channel_text NotificationChannel.in_app = "in_app"
channel_text NotificationChannel.email = "email"
channel_text NotificationChannel.sms = "sms"
channel_text NotificationChannel.push = "push"
channel_text (NotificationChannel.other t) = t

abbrev pub is_in_app : NotificationChannel → Bool
is_in_app NotificationChannel.in_app = true
is_in_app _ = false

-- `NotificationStatus`
pub data NotificationStatus : Type 0 where
  pending queued sent failed : NotificationStatus

abbrev pub is_sent : NotificationStatus → Bool
is_sent NotificationStatus.sent = true
is_sent _ = false

-- The statuses `pending` and `queued`, those that a delivery is still due for.
abbrev pub is_due : NotificationStatus → Bool
is_due NotificationStatus.pending = true
is_due NotificationStatus.queued = true
is_due _ = false

-- `NotificationType`
pub data NotificationType : Type 0 where
  quote_ready booking_confirmed mechanic_en_route qa_answer_posted : NotificationType
  mechanic_verified mechanic_apply_received support_admin_replied : NotificationType
  support_new_conversation low_stock : NotificationType

-- `Notification`
pub record Notification : Type 0 where
  pub id : ℕ
  pub user_id : ℕ
  pub type : NotificationType
  pub channel : NotificationChannel
  pub title : String
  pub body : String
  pub status : NotificationStatus
  pub idempotency_key : String
  pub read_at : Option ℕ
  pub sent_at : Option ℕ
  pub failed_reason : String
  pub retry_count : ℕ

-- `NotificationPreference`
pub record NotificationPreference : Type 0 where
  pub id : ℕ
  pub user_id : ℕ
  pub email_enabled : Bool
  pub sms_enabled : Bool
  pub push_enabled : Bool
  pub in_app_enabled : Bool
