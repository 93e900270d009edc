-- ===== src/Notifications/Notifier.antt =====
-- The events that users are notified of: internal/services/notifier.go. A payload is left out, as in `NotifyInput`.
use auto_store_api.Prelude.{
  ⊤, ℕ, ◌-◌, ℤ, ◌≡◌, Bool, true, false, none, some, [], String, ok, err, leb, text_append, str_eq,
  if◌then◌else◌, All, ◌==◌, ◌||◌,
}
use auto_store_api.Platform.{Platform}
use auto_store_api.Models.Support.{NotificationType, NotificationPreference, Conversation}
use auto_store_api.World.{World, M, pure, ◌>>=◌, lift, service}
use auto_store_api.Notifications.{NotifyInput, notify_user, channels_of, send_mail}
use auto_store_api.Notifications.Notify.Again.{Known, notify_user_again}

-- An event without channels of its own, from its key's parts.
abbrev event : ℕ → NotificationType → String → String → String → NotifyInput
event user_id type key title body = record {
  user_id = user_id;
  type = type;
  idempotency_key = key;
  title = title;
  body = body;
  channels = [];
}

-- `fmt.Sprintf("<before>%s<after>", text)`
abbrev between : String → String → String → String
between before text after = text_append before (text_append text after)

module _ (p : Platform) where
  unfoldable pub mechanic_verified : ℕ → String → ℕ → M p ⊤
  mechanic_verified user_id business_name = notify_user p (
      event user_id NotificationType.mechanic_verified
        (between "mechanic:" (p.uuid_text user_id) ":verified") "Mechanic profile verified"
        (between "Your mechanic profile for " business_name
          " is now verified. You can accept installation jobs when that feature launches."))

  unfoldable pub mechanic_apply_received : ℕ → String → ℕ → M p ⊤
  mechanic_apply_received user_id business_name = notify_user p (
      event user_id NotificationType.mechanic_apply_received
        (between "mechanic:" (p.uuid_text user_id) ":apply_received") "Application received"
        (between "We received your mechanic application for " business_name
          ". We'll notify you when it's reviewed."))

  unfoldable pub quote_ready : ℕ → ℕ → ℕ → M p ⊤
  quote_ready user_id quote_id = notify_user p (
      event user_id NotificationType.quote_ready (between "quote:" (p.uuid_text quote_id) ":ready")
        "Installation quote ready" "Your installation quotes are ready to review.")

  -- The event of `BookingConfirmed`, for the mechanic or for the customer.
  abbrev confirmed : ℕ → ℕ → Bool → NotifyInput
  confirmed user_id booking_id true =
      event user_id NotificationType.booking_confirmed
        (text_append (between "booking:" (p.uuid_text booking_id) ":confirmed:mechanic:")
          (p.uuid_text user_id))
        "New installation booking" "You have a new confirmed installation appointment."
  confirmed user_id booking_id false =
      event user_id NotificationType.booking_confirmed
        (between "booking:" (p.uuid_text booking_id) ":confirmed:customer") "Installation booked"
        "Your installation appointment is confirmed."

  unfoldable pub booking_confirmed : ℕ → ℕ → Bool → ℕ → M p ⊤
  booking_confirmed user_id booking_id for_mechanic =
      notify_user p (confirmed user_id booking_id for_mechanic)

  unfoldable pub mechanic_en_route : ℕ → ℕ → ℕ → M p ⊤
  mechanic_en_route user_id booking_id = notify_user p (
      event user_id NotificationType.mechanic_en_route
        (between "booking:" (p.uuid_text booking_id) ":en_route") "Mechanic is on the way"
        "Your mechanic is en route to your location.")

  unfoldable pub qa_answer_posted : ℕ → ℕ → ℕ → M p ⊤
  qa_answer_posted user_id question_id = notify_user p (
      event user_id NotificationType.qa_answer_posted
        (between "question:" (p.uuid_text question_id) ":answer") "Your question was answered"
        "A verified mechanic answered your question.")

  -- `truncatePreview`
  abbrev pub truncate_preview : String → ℕ → String
  truncate_preview s max =
      if leb (p.texts.byte_len s) max then s else text_append (p.texts.prefix (max - 3) s) "..."

  abbrev reply_body : String → String
  reply_body preview =
      text_append "Support replied to your message: " (truncate_preview preview 120)

  -- The end of `SupportAdminReplied` for a guest: an e-mail, whose error is passed on.
  unfoldable pub mail_guest : String → Conversation → String → M p ⊤
  mail_guest app_url conv body = elim (str_eq conv.guest_email "") [
    | true ↦ pure tt
    | false ↦ do
      sent ← send_mail p conv.guest_email "Support replied" (
          if str_eq app_url ""
          then body
          else text_append body (between "\n\nOpen chat: " app_url "/support"))
      lift p (elim sent [ ok _ ↦ ok tt | err e ↦ err (service e) ])
  ]

  unfoldable pub support_admin_replied : String → Conversation → ℕ → String → ℕ → M p ⊤
  unfolding mail_guest
  support_admin_replied app_url conv message_id preview now = elim conv.user_id [
    | some user_id ↦
        notify_user p
          (event user_id NotificationType.support_admin_replied
            (text_append (between "support:" (p.uuid_text conv.id) ":msg:")
              (text_append (p.uuid_text message_id) ":admin_replied"))
            "Support replied" (reply_body preview))
          now
    | none ↦ mail_guest app_url conv (reply_body preview)
  ]

  -- The name under which `SupportNewConversation` shows the sender.
  abbrev label : Conversation → String
  label conv = elim conv.guest_id [
    | none ↦ "Customer"
    | some _ ↦ if str_eq conv.guest_name "" then "Guest" else conv.guest_name
  ]

  unfoldable pub support_new_conversation : ℕ → Conversation → String → ℕ → M p ⊤
  support_new_conversation admin_user_id conv preview = notify_user p (
      event admin_user_id NotificationType.support_new_conversation
        (text_append (between "support:" (p.uuid_text conv.id) ":new:admin:")
          (p.uuid_text admin_user_id))
        "New support message"
        (text_append (label conv) (text_append ": " (truncate_preview preview 120))))

  -- The event of `LowStockAlert`; the body is an argument, as the model's products have neither a name nor a SKU.
  abbrev pub low_stock : ℕ → ℕ → ℤ → String → NotifyInput
  low_stock user_id product_id cycle body =
      event user_id NotificationType.low_stock
        (text_append (between "product:" (p.uuid_text product_id) ":low_stock:cycle:")
          (p.decimal cycle))
        "Low stock alert" body

  unfoldable pub low_stock_alert : ℕ → ℕ → ℤ → String → ℕ → M p ⊤
  low_stock_alert user_id product_id cycle body =
      notify_user p (low_stock user_id product_id cycle body)

  -- When somebody has been notified of a product's alert cycle on each channel that another user has chosen,
  -- `LowStockAlert` for that other user returns with no error and has changed nothing.
  pub low_stock_alert_shared :
      (other user_id product_id : ℕ) (cycle : ℤ) (body : String) (now : ℕ) (w : World p)
      (pref : NotificationPreference)
      → (user_id == 0 || str_eq (low_stock user_id product_id cycle body).idempotency_key "")
        ≡ false
      → p.preferences.first (λ r. r.user_id == user_id) w.db.preferences ≡ ok pref
      → All
          (Known p (low_stock other product_id cycle body) w)
          (channels_of (low_stock user_id product_id cycle body) pref)
      → low_stock_alert user_id product_id cycle body now w ≡ (ok tt, w)
  unfolding low_stock_alert
  low_stock_alert_shared other user_id product_id cycle body now w pref given has known =
      notify_user_again p (low_stock user_id product_id cycle body) now w pref given has known
