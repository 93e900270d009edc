-- ===== src/Notifications.antt =====
-- Notifications: internal/services/notification_service.go, with
-- internal/repositories/notification_repository.go and pkg/queue/notification.go.
pub mod Notify
pub mod Delivery
pub mod Notifier
use auto_store_api.Prelude.{
  ⊤, ℕ, suc, ◌+◌, Bool, true, false, Option, none, some, List, [], ◌∷◌, String, Result, ok, err,
  ◌==◌, ◌&&◌, ◌||◌, not, leb, length, select, text_append, str_eq, if◌then◌else◌,
}
use auto_store_api.Platform.{Platform}
use auto_store_api.Platform.Sql.{DbError, record_not_found, duplicated_key}
use auto_store_api.Models.Support.{
  Notification, NotificationChannel, NotificationPreference, NotificationStatus, NotificationType,
  channel_text, is_due, is_in_app, is_sent,
}
use auto_store_api.World.{
  Db, World, M, Error, ◌>>=◌, ◌>>◌, pure, raise, query, exec, raise_if, on_missing, attempt, ignore,
  fresh, lift, skip_if, is_missing, db, message, service, notification_not_found,
}

-- `NotifyInput`; the payload is left out.
pub record NotifyInput : Type 0 where
  pub user_id : ℕ
  pub type : NotificationType
  pub idempotency_key : String
  pub title : String
  pub body : String
  pub channels : List NotificationChannel

-- `defaultChannels`
abbrev pub default_channels : NotificationPreference → List NotificationChannel
default_channels pref =
    let email = if pref.email_enabled then NotificationChannel.email ∷ [] else [] in
    if pref.in_app_enabled then NotificationChannel.in_app ∷ email else email

-- `channelAllowed`
abbrev pub channel_allowed : NotificationPreference → NotificationChannel → Bool
channel_allowed pref NotificationChannel.in_app = pref.in_app_enabled
channel_allowed pref NotificationChannel.email = pref.email_enabled
channel_allowed pref NotificationChannel.sms = pref.sms_enabled
channel_allowed pref NotificationChannel.push = pref.push_enabled
channel_allowed pref (NotificationChannel.other _) = false

-- `fmt.Sprintf("%s:%s", input.IdempotencyKey, ch)`
abbrev pub key_of : NotifyInput → NotificationChannel → String
key_of input ch = text_append input.idempotency_key (text_append ":" (channel_text ch))

-- The row that `Notify` makes for a channel.
abbrev pub new_notification : ℕ → NotifyInput → NotificationChannel → ℕ → Notification
new_notification id input ch now = record {
  id = id;
  user_id = input.user_id;
  type = input.type;
  channel = ch;
  title = input.title;
  body = input.body;
  status = if is_in_app ch then NotificationStatus.sent else NotificationStatus.queued;
  idempotency_key = key_of input ch;
  read_at = none;
  sent_at = if is_in_app ch then some now else none;
  failed_reason = "";
  retry_count = 0;
}

-- The preferences of a user who has none yet.
abbrev pub default_preferences : ℕ → ℕ → NotificationPreference
default_preferences id user_id = record {
  id = id;
  user_id = user_id;
  email_enabled = true;
  sms_enabled = false;
  push_enabled = false;
  in_app_enabled = true;
}

-- `if email != nil { pref.EmailEnabled = *email }`
abbrev given : Option Bool → Bool → Bool
given none old = old
given (some b) old = b

abbrev is_no_channel : List NotificationChannel → Bool
is_no_channel [] = true
is_no_channel (_ ∷ _) = false

-- The channels that a call of `Notify` goes through.
abbrev pub channels_of : NotifyInput → NotificationPreference → List NotificationChannel
channels_of input pref =
    if is_no_channel input.channels then default_channels pref else input.channels

-- `errors.Is(err, gorm.ErrDuplicatedKey)`
abbrev pub is_duplicate : Error → Bool
is_duplicate (db duplicated_key) = true
is_duplicate e = false

-- `id = ? AND user_id = ? AND channel = ?`
abbrev pub own_in_app : ℕ → ℕ → Notification → Bool
own_in_app id user_id n = n.id == id && n.user_id == user_id && is_in_app n.channel

module _ (p : Platform) where
  abbrev pub put_notifications : p.notifications.Rows → Db p → Db p
  put_notifications t d = record d { notifications = t }

  abbrev pub put_preferences : p.preferences.Rows → Db p → Db p
  put_preferences t d = record d { preferences = t }

  -- `GetOrCreatePreferences`, once the row has been looked for.
  unfoldable pub found_or_default :
      ℕ → Result Error NotificationPreference → M p NotificationPreference
  found_or_default user_id (ok pref) = pure pref
  found_or_default user_id (err e) = elim (is_missing e) [
    | true ↦ do
      id ← fresh p
      exec p (λ d. p.preferences.create (default_preferences id user_id) d.preferences)
          put_preferences
      pure (default_preferences id user_id)
    | false ↦ raise e
  ]

  -- `GetOrCreatePreferences`
  unfoldable pub get_or_create_preferences : ℕ → M p NotificationPreference
  unfolding found_or_default
  get_or_create_preferences user_id = do
    found ← attempt (query p (λ d. p.preferences.first (λ r. r.user_id == user_id) d.preferences))
    found_or_default user_id found

  -- `EnqueueNotification`; `none` stands for `redis.Nil`, which a missing client gives.
  unfoldable pub enqueue_notification : ℕ → World p → Option (Result String ⊤) × World p
  enqueue_notification id w = elim p.redis.configured [
    | false ↦ (none, w)
    | true ↦ elim (p.redis.lpush id w.store) [
      | ok s ↦ (some (ok tt), record w { store = s })
      | err e ↦ (some (err e), w)
    ]
  ]

  -- What `Notify` does once the row is made: without Redis it is left as pending in the database, and
  -- any other failure is only logged.
  unfoldable pub hand_over : Notification → M p ⊤
  unfolding enqueue_notification
  hand_over n w =
      let (o, v) = enqueue_notification n.id w in
      elim o [
        | none ↦
            ignore
              (exec p
                (λ d.
                  p.notifications.save (record n { status = NotificationStatus.pending })
                    d.notifications)
                put_notifications)
              v
        | some _ ↦ (ok tt, v)
      ]

  -- The end of a round of `Notify`, from how the row's creation ended: a duplicate is passed over.
  unfoldable pub after_create : Notification → Result Error ⊤ → M p ⊤
  unfolding hand_over
  after_create n (ok _) = skip_if p (is_in_app n.channel) (hand_over n)
  after_create n (err e) = elim (is_duplicate e) [ true ↦ pure tt | false ↦ raise e ]

  -- The round from how the search by the key ended.
  unfoldable pub unless_found :
      NotifyInput → NotificationChannel → ℕ → Result Error Notification → M p ⊤
  unfolding after_create
  unless_found input ch now (ok existing) = pure tt
  unless_found input ch now (err e) = elim (is_missing e) [
    | true ↦ do
      id ← fresh p
      let n = new_notification id input ch now
      made ← attempt (exec p (λ d. p.notifications.create n d.notifications) put_notifications)
      after_create n made
    | false ↦ raise e
  ]

  -- A round of the loop of `Notify`.
  unfoldable pub notify_channel :
      NotifyInput → NotificationPreference → ℕ → NotificationChannel → M p ⊤
  unfolding unless_found
  notify_channel input pref now ch = skip_if p (not (channel_allowed pref ch)) (do
    found ← attempt (
        query p (λ d.
          p.notifications.first (λ n. str_eq n.idempotency_key (key_of input ch)) d.notifications))
    unless_found input ch now found)

  -- The loop of `Notify`.
  unfoldable pub notify_channels :
      NotifyInput → NotificationPreference → ℕ → List NotificationChannel → M p ⊤
  notify_channels input pref now [] = pure tt
  notify_channels input pref now (ch ∷ rest) = do
    notify_channel input pref now ch
    notify_channels input pref now rest

  -- `Notify`
  unfoldable pub notify_user : NotifyInput → ℕ → M p ⊤
  notify_user input now = do
    raise_if p (input.user_id == 0 || str_eq input.idempotency_key "")
        (message "user_id and idempotency_key are required")
    pref ← get_or_create_preferences input.user_id
    notify_channels input pref now (channels_of input pref)

  -- `markFailed`: the row is saved, and the error is returned as long as there are retries left.
  unfoldable pub mark_failed : ℕ → Notification → String → M p ⊤
  mark_failed max_retries n reason =
      let tried : Notification = record n {
        retry_count = suc n.retry_count;
        failed_reason = reason;
      } in
      elim (leb max_retries tried.retry_count) [
        | true ↦
            exec p
              (λ d.
                p.notifications.save (record tried { status = NotificationStatus.failed })
                  d.notifications)
              put_notifications
        | false ↦ do
          exec p
              (λ d.
                p.notifications.save (record tried { status = NotificationStatus.pending })
                  d.notifications)
              put_notifications
          raise (service reason)
      ]

  -- The e-mail that `ProcessDelivery` sends.
  abbrev pub mail_body : String → String → String
  mail_body frontend_url body =
      if str_eq frontend_url ""
      then body
      else text_append body
          (text_append "\n\nView in app: " (text_append frontend_url "/notifications"))

  -- `emailSender.Send`, whose end is a value.
  unfoldable pub send_mail : String → String → String → M p (Result String ⊤)
  send_mail to subject body w =
      (ok (p.send_mail w.mailed to subject body), record w { mailed = suc w.mailed })

  -- The end of `ProcessDelivery`.
  unfoldable pub mark_sent : Notification → ℕ → M p ⊤
  mark_sent n now =
      exec p
        (λ d.
          p.notifications.save
            (record n { status = NotificationStatus.sent; sent_at = some now; failed_reason = "" })
            d.notifications)
        put_notifications

  -- The part for an e-mail, from how the sending ended.
  unfoldable pub after_mail : ℕ → Notification → ℕ → Result String ⊤ → M p ⊤
  unfolding mark_sent mark_failed
  after_mail max_retries n now (ok _) = mark_sent n now
  after_mail max_retries n now (err reason) = mark_failed max_retries n reason

  unfoldable pub deliver_mail : String → ℕ → Notification → ℕ → M p ⊤
  unfolding send_mail after_mail
  deliver_mail frontend_url max_retries n now = do
    user ← query p (λ d. p.users.get n.user_id d.users)
    sent ← send_mail user.email n.title (mail_body frontend_url n.body)
    after_mail max_retries n now sent

  -- The part of `ProcessDelivery` that sends, by channel.
  unfoldable pub deliver_by : String → ℕ → Notification → ℕ → NotificationChannel → M p ⊤
  unfolding deliver_mail mark_sent
  deliver_by frontend_url max_retries n now NotificationChannel.email =
      deliver_mail frontend_url max_retries n now
  deliver_by frontend_url max_retries n now NotificationChannel.sms = mark_sent n now
  deliver_by frontend_url max_retries n now NotificationChannel.push = mark_sent n now
  deliver_by frontend_url max_retries n now NotificationChannel.in_app = pure tt
  deliver_by frontend_url max_retries n now (NotificationChannel.other _) = pure tt

  -- `ProcessDelivery`
  unfoldable pub process_delivery : String → ℕ → ℕ → ℕ → M p ⊤
  unfolding deliver_by
  process_delivery frontend_url max_retries id now = do
    n ← query p (λ d. p.notifications.get id d.notifications)
    skip_if p (is_sent n.status) (deliver_by frontend_url max_retries n now n.channel)

  -- `MarkRead`: `affected` is what the update reports as its `RowsAffected`.
  unfoldable pub mark_read : ℕ → ℕ → ℕ → M p ⊤
  mark_read id user_id now w =
      let affected =
        length (select (own_in_app id user_id) (p.notifications.rows w.db.notifications)) in
      (do
        exec p
            (λ d.
              p.notifications.update (own_in_app id user_id) (λ n. record n { read_at = some now })
                d.notifications)
            put_notifications
        raise_if p (affected == 0) notification_not_found)
        w

  -- `UpdatePreferences`
  unfoldable pub update_preferences :
      ℕ → Option Bool → Option Bool → Option Bool → Option Bool → M p NotificationPreference
  update_preferences user_id email sms push in_app = do
    pref ← get_or_create_preferences user_id
    let changed : NotificationPreference = record pref {
      email_enabled = given email pref.email_enabled;
      sms_enabled = given sms pref.sms_enabled;
      push_enabled = given push pref.push_enabled;
      in_app_enabled = given in_app pref.in_app_enabled;
    }
    exec p (λ d. p.preferences.save changed d.preferences) put_preferences
    pure changed
