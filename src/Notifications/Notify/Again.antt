-- ===== src/Notifications/Notify/Again.antt =====
-- A second call for the same event does nothing, whoever it is for.
use auto_store_api.Prelude.{ℕ, ◌≡◌, refl, ◌∙◌, false, List, [], ◌∷◌, ok, ◌==◌, ◌||◌, str_eq, All}
use auto_store_api.Platform.{Platform}
use auto_store_api.Models.Support.{Notification, NotificationChannel, NotificationPreference}
use auto_store_api.World.{
  World, ◌>>=◌, pure, run_ok, raise_if-false, then_ok, skip_if_idle, value_is,
}
use auto_store_api.Notifications.{
  NotifyInput, key_of, channels_of, found_or_default, get_or_create_preferences, unless_found,
  notify_channel, notify_channels, notify_user,
}

module _ (p : Platform) where
  -- There is a notification with the key of the event and the channel.
  abbrev pub Known : NotifyInput → World p → NotificationChannel → Type 0
  Known input w ch =
      (n : Notification) × (p.notifications.first (λ n. str_eq n.idempotency_key (key_of input ch))
          w.db.notifications
        ≡ ok n)

  notify_channel_idle :
      (input : NotifyInput) (pref : NotificationPreference) (now : ℕ) (ch : NotificationChannel)
      (w : World p)
      → Known input w ch
      → notify_channel p input pref now ch w ≡ (ok tt, w)
  unfolding notify_channel unless_found pure
  notify_channel_idle input pref now ch w (n, found) = skip_if_idle _ _ w (
      value_is
        (λ d.
          p.notifications.first (λ n. str_eq n.idempotency_key (key_of input ch)) d.notifications)
        (unless_found p input ch now) w n found)

  notify_channels_idle :
      (input : NotifyInput) (pref : NotificationPreference) (now : ℕ)
      (chs : List NotificationChannel) (w : World p)
      → All (Known input w) chs
      → notify_channels p input pref now chs w ≡ (ok tt, w)
  unfolding notify_channels pure
  notify_channels_idle input pref now [] w h = refl
  notify_channels_idle input pref now (ch ∷ chs) w h =
      then_ok _ (notify_channels p input pref now chs) w w
        (notify_channel_idle input pref now ch w h.0)
      ∙ notify_channels_idle input pref now chs w h.1

  -- When the user has preferences, and there is a notification with the key of the event for each channel that the call
  -- would go through, `Notify` returns with no error and has changed nothing, neither a row nor the
  -- queue. Whose notifications those are does not matter.
  pub notify_user_again :
      (input : NotifyInput) (now : ℕ) (w : World p) (pref : NotificationPreference)
      → (input.user_id == 0 || str_eq input.idempotency_key "") ≡ false
      → p.preferences.first (λ r. r.user_id == input.user_id) w.db.preferences ≡ ok pref
      → All (Known input w) (channels_of input pref)
      → notify_user p input now w ≡ (ok tt, w)
  unfolding notify_user get_or_create_preferences found_or_default pure
  notify_user_again input now w pref given has known =
      raise_if-false _ _
        (get_or_create_preferences p input.user_id >>= λ pref.
          notify_channels p input pref now (channels_of input pref))
        w given
      ∙ run_ok _ _ w w pref (
          value_is (λ d. p.preferences.first (λ r. r.user_id == input.user_id) d.preferences)
            (found_or_default p input.user_id) w pref has)
      ∙ notify_channels_idle input pref now (channels_of input pref) w known
