-- ===== src/Notifications/Notify.antt =====
-- An event is notified once: no two notifications have the same idempotency key.
pub mod Again
use auto_store_api.Prelude.{
  ⊤, ℕ, ◌≡◌, refl, sym, ap, ◌∙◌, subst, Bool, true, false, Option, none, some, List, [], ◌∷◌, ◌++◌,
  String, Result, ok, err, not, ◌==◌, str_eq, eq_iff, ◌≤◌, length, select, length-select_few,
  length-select-upsert, lookup, lookup-append_new, upsert, if◌then◌else◌,
}
use auto_store_api.Platform.{Platform}
use auto_store_api.Platform.Sql.{DbError, record_not_found, duplicated_key, failure}
use auto_store_api.Models.Support.{
  Notification, NotificationChannel, NotificationPreference, NotificationStatus, is_in_app,
}
use auto_store_api.World.{
  Db, World, M, Error, Kept, Keeps, Keeps-rel, same-Keeps, exec, ignore, pure, fresh, raise, ◌>>=◌,
  ◌>>◌, skip_if, is_missing, bind-Keeps, then-Keeps, pure-Keeps, raise-Keeps, query_then-Keeps,
  cases_then-Keeps, value_then-Keeps, exec-Keeps, exec_value_then-Keeps, skip_if-Keeps,
  ignore-Keeps, raise_if_then-Keeps, fresh_then-Keeps,
}
use auto_store_api.Notifications.{
  NotifyInput, default_preferences, channel_allowed, key_of, new_notification, channels_of,
  put_notifications, put_preferences, found_or_default, get_or_create_preferences, is_duplicate,
  enqueue_notification, hand_over, after_create, unless_found, notify_channel, notify_channels,
  notify_user,
}

module _ (p : Platform) where
  abbrev pub with_key : String → Notification → Bool
  with_key key n = str_eq n.idempotency_key key

  -- No two notifications have the same idempotency key.
  abbrev pub OncePerKey : Db p → Type 0
  OncePerKey d =
      (key : String) → length (select (with_key key) (p.notifications.rows d.notifications)) ≤ 1

  abbrev pub once_per_key : Kept p
  once_per_key = record {
    Rel = λ d e. OncePerKey d → OncePerKey e;
    same = λ d h. h;
    chain = λ d e f r s h. s (r h);
  }

  -- Saving a row over the one of its id keeps this if the key is the same.
  pub save_once :
      (n m : Notification) (w : World p)
      → lookup (λ n. n.id) m.id (p.notifications.rows w.db.notifications) ≡ some n
      → m.idempotency_key ≡ n.idempotency_key
      → Keeps once_per_key w
          (exec p (λ d. p.notifications.save m d.notifications) (put_notifications p) w)
  save_once n m w found same = exec-Keeps once_per_key _ _ w λ t saved h key.
      subst (λ rows. length (select (with_key key) rows) ≤ 1)
        (sym (p.notifications.save_ok _ _ t saved))
        (subst (λ l. l ≤ 1)
          (sym (
            length-select-upsert (λ n. n.id) (with_key key) m n _ found
              (ap (λ k. str_eq k key) same)))
          (h key))

  -- A new row keeps it if its key is new.
  create_once :
      (n : Notification) (t : p.notifications.Rows) (d : Db p)
      → select (with_key n.idempotency_key) (p.notifications.rows d.notifications) ≡ []
      → p.notifications.create n d.notifications ≡ ok t
      → OncePerKey d
      → OncePerKey (put_notifications p t d)
  create_once n t d free made h key =
      subst (λ rows. length (select (with_key key) rows) ≤ 1)
        (sym (p.notifications.create_ok _ _ t made).1)
        (length-select_few (with_key key) n _ (h key) λ m.
          subst (λ k. select (with_key k) (p.notifications.rows d.notifications) ≡ [])
            ((eq_iff n.idempotency_key key).0 m) free)

  hand_over_once :
      (n : Notification) (w : World p)
      → lookup (λ n. n.id) n.id (p.notifications.rows w.db.notifications) ≡ some n
      → Keeps once_per_key w (hand_over p n w)
  unfolding hand_over enqueue_notification
  hand_over_once n w found = go p.redis.configured (p.redis.lpush n.id w.store)
    where
      queued : Bool → Result String p.redis.Store → Option (Result String ⊤) × World p
      queued b r = elim b [
        | false ↦ (none, w)
        | true ↦ elim r [
          | ok s ↦ (some (ok tt), record w { store = s })
          | err e ↦ (some (err e), w)
        ]
      ]

      go :
          (b : Bool) (r : Result String p.redis.Store)
          → let (o, v) = queued b r in
            let c : Result Error ⊤ × World p = elim o [
              | none ↦
                  ignore
                    (exec p
                      (λ d.
                        p.notifications.save
                          (record n { status = NotificationStatus.pending })
                          d.notifications)
                      (put_notifications p))
                    v
              | some _ ↦ (ok tt, v)
            ] in
            Keeps once_per_key w c
      go false r = ignore-Keeps once_per_key _ w (save_once n _ w found refl)
      go true (ok s) = same-Keeps once_per_key _ w _ refl
      go true (err e) = same-Keeps once_per_key _ w _ refl

  after_create_once :
      (n : Notification) (r : Result Error ⊤) (w : World p)
      → (r ≡ ok tt → lookup (λ n. n.id) n.id (p.notifications.rows w.db.notifications) ≡ some n)
      → Keeps once_per_key w (after_create p n r w)
  unfolding after_create
  after_create_once n (ok tt) w found =
      skip_if-Keeps once_per_key _ _ w λ external. hand_over_once n w (found refl)
  after_create_once n (err e) w found = go (is_duplicate e)
    where
      go :
          (b : Bool)
          → let m : M p ⊤ = elim b [ true ↦ pure tt | false ↦ raise e ] in
            Keeps once_per_key w (m w)
      go true = pure-Keeps once_per_key _ w
      go false = raise-Keeps once_per_key _ e w

  failed_ok : (e : DbError) → ◌≡◌ {A = Result Error ⊤} (err (Error.db e)) (ok tt) → ⊥
  failed_ok e x = cc

  -- The round, when the key has not been found.
  new_once :
      (input : NotifyInput) (ch : NotificationChannel) (now : ℕ) (w : World p)
      → select (with_key (key_of input ch)) (p.notifications.rows w.db.notifications) ≡ []
      → Keeps once_per_key w (unless_found p input ch now (err (Error.db record_not_found)) w)
  unfolding unless_found
  new_once input ch now w free = fresh_then-Keeps once_per_key _ w (
      exec_value_then-Keeps once_per_key _ _ _ _
        (λ t made h.
          Keeps-rel once_per_key _ _
            (after_create_once _ (ok tt) _ λ _.
              ap (lookup (λ n. n.id) (p.uuid w.drawn)) (p.notifications.create_ok _ _ t made).1
              ∙ lookup-append_new (λ n. n.id) _ _ _ (p.notifications.create_ok _ _ t made).0 refl)
            (create_once _ t w.db free made h))
        λ e failed.
          after_create_once (new_notification (p.uuid w.drawn) input ch now) (err (Error.db e)) _
            λ x. absurd (failed_ok e x))

  notify_channel_once :
      (input : NotifyInput) (pref : NotificationPreference) (now : ℕ) (ch : NotificationChannel)
      (w : World p)
      → Keeps once_per_key w (notify_channel p input pref now ch w)
  unfolding notify_channel unless_found
  notify_channel_once input pref now ch w = skip_if-Keeps once_per_key _ _ w λ allowed.
      cases_then-Keeps once_per_key _ _ w (λ n found. pure-Keeps once_per_key _ w) missing
    where
      missing :
          (e : DbError)
          → p.notifications.first
              (λ n. str_eq n.idempotency_key (key_of input ch))
              w.db.notifications
            ≡ err e
          → Keeps once_per_key w (unless_found p input ch now (err (Error.db e)) w)
      missing record_not_found h = new_once input ch now w (p.notifications.first_missing _ _ h)
      missing duplicated_key h = raise-Keeps once_per_key _ _ w
      missing failure h = raise-Keeps once_per_key _ _ w

  notify_channels_once :
      (input : NotifyInput) (pref : NotificationPreference) (now : ℕ)
      (chs : List NotificationChannel) (w : World p)
      → Keeps once_per_key w (notify_channels p input pref now chs w)
  unfolding notify_channels
  notify_channels_once input pref now [] w = pure-Keeps once_per_key _ w
  notify_channels_once input pref now (ch ∷ chs) w =
      then-Keeps once_per_key _ _ w (notify_channel_once input pref now ch w)
        λ v. notify_channels_once input pref now chs v

  preferences_once :
      (user_id : ℕ) (w : World p) → Keeps once_per_key w (get_or_create_preferences p user_id w)
  unfolding get_or_create_preferences found_or_default
  preferences_once user_id w =
      cases_then-Keeps once_per_key _ _ w (λ a found. pure-Keeps once_per_key _ w) missing
    where
      missing :
          (e : DbError)
          → p.preferences.first (λ r. r.user_id == user_id) w.db.preferences ≡ err e
          → Keeps once_per_key w (found_or_default p user_id (err (Error.db e)) w)
      missing record_not_found h = fresh_then-Keeps once_per_key _ w (
          then-Keeps once_per_key _ _ _ (exec-Keeps once_per_key _ _ _ λ t made h. h)
            λ v. pure-Keeps once_per_key _ v)
      missing duplicated_key h = raise-Keeps once_per_key _ _ w
      missing failure h = raise-Keeps once_per_key _ _ w

  -- If no two notifications have the same idempotency key, then that is so after `Notify`, however it ends.
  pub notify_user-OncePerKey :
      (input : NotifyInput) (now : ℕ) (w : World p)
      → OncePerKey w.db
      → OncePerKey (notify_user p input now w).1.db
  unfolding notify_user
  notify_user-OncePerKey input now w = Keeps-rel once_per_key w _ (
      raise_if_then-Keeps once_per_key _ _ _ w λ given.
        bind-Keeps once_per_key _ _ w (preferences_once input.user_id w)
          λ pref v got. notify_channels_once input pref now _ v)
