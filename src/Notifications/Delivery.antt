-- ===== src/Notifications/Delivery.antt =====
-- What `ProcessDelivery` leaves behind.
use auto_store_api.Prelude.{
  ⊤, ℕ, suc, ◌≡◌, refl, sym, ap, ◌∙◌, subst, Bool, true, false, some, String, Result, ok, err,
  ok_injective, ◌==◌, ==→ne, leb, ◌≤◌, ◌⊎◌, inl, inr, lookup, lookup-key, lookup-upsert_self,
  lookup-upsert_ne, arith,
}
use auto_store_api.Platform.{Platform}
use auto_store_api.Models.Support.{Notification, NotificationChannel, NotificationStatus, is_sent}
use auto_store_api.World.{
  service, raise, ◌>>◌, Db, World, M, Returns, Returns-ok, raise-Returns, query_then, call_then,
  skip_if_then, exec_then, exec_last, exec,
}
use auto_store_api.Notifications.{
  put_notifications, mark_failed, mark_sent, after_mail, deliver_mail, deliver_by, process_delivery,
  send_mail,
}

-- The delivery is over: the notification is sent, or it has failed as often as is allowed.
abbrev pub IsOver : ℕ → Notification → Type 0
IsOver max_retries n =
    (n.status ≡ NotificationStatus.sent)
    ⊎ ((n.status ≡ NotificationStatus.failed) × (max_retries ≤ n.retry_count))

-- The channels that a worker delivers.
abbrev pub is_external : NotificationChannel → Bool
is_external NotificationChannel.email = true
is_external NotificationChannel.sms = true
is_external NotificationChannel.push = true
is_external _ = false

is_sent-eq : (s : NotificationStatus) → is_sent s ≡ true → s ≡ NotificationStatus.sent
is_sent-eq NotificationStatus.sent h = refl
is_sent-eq NotificationStatus.pending h = cc
is_sent-eq NotificationStatus.queued h = cc
is_sent-eq NotificationStatus.failed h = cc

le_of : (a b : ℕ) → leb a b ≡ true → a ≤ b
le_of a b h = ground arith

module _ (p : Platform) where
  -- The row of the id is over, and no other row has changed.
  abbrev pub Settled : ℕ → ℕ → Db p → Db p → Type 0
  Settled max_retries id d e =
      ((n : Notification) × (lookup (λ n. n.id) id (p.notifications.rows e.notifications) ≡ some n)
        × IsOver max_retries n)
      × ((k : ℕ)
          → (k == id) ≡ false
          → lookup (λ n. n.id) k (p.notifications.rows e.notifications)
            ≡ lookup (λ n. n.id) k (p.notifications.rows d.notifications))

  saved-Settled :
      (max_retries : ℕ) (m : Notification) (w : World p)
      → IsOver max_retries m
      → Returns
          (λ _ v. Settled max_retries m.id w.db v.db)
          (exec p (λ d. p.notifications.save m d.notifications) (put_notifications p) w)
  saved-Settled max_retries m w over = exec_last _ _ _ w λ t saved. (
    (
      m,
      ap (lookup (λ n. n.id) m.id) (p.notifications.save_ok _ _ t saved)
          ∙ lookup-upsert_self (λ n. n.id) m.id m _ refl,
      over,
    ),
    λ k other.
        ap (lookup (λ n. n.id) k) (p.notifications.save_ok _ _ t saved)
        ∙ lookup-upsert_ne (λ n. n.id) k m _ (λ x. ==→ne k m.id other (sym x)),
  )

  mark_failed-Settled :
      (max_retries : ℕ) (n : Notification) (reason : String) (w : World p)
      → Returns (λ _ v. Settled max_retries n.id w.db v.db) (mark_failed p max_retries n reason w)
  unfolding mark_failed
  mark_failed-Settled max_retries n reason w = go (leb max_retries (suc n.retry_count)) refl
    where
      go :
          (b : Bool)
          → leb max_retries (suc n.retry_count) ≡ b
          → let tried : Notification = record n {
            retry_count = suc n.retry_count;
            failed_reason = reason;
          } in
            let m : M p ⊤ = elim b [
              | true ↦
                  exec p
                    (λ d.
                      p.notifications.save
                        (record tried { status = NotificationStatus.failed })
                        d.notifications)
                    (put_notifications p)
              | false ↦ do
                exec p
                    (λ d.
                      p.notifications.save
                        (record tried { status = NotificationStatus.pending })
                        d.notifications)
                    (put_notifications p)
                raise (service reason)
            ] in
            Returns (λ _ v. Settled max_retries n.id w.db v.db) (m w)
      go true e = saved-Settled max_retries _ w (inr (refl, le_of _ _ e))
      go false e = exec_then _ _ _ _ w λ t saved. raise-Returns _ _ _

  send_mail-Returns :
      (to subject body : String) (w : World p)
      → Returns (λ _ v. v.db ≡ w.db) (send_mail p to subject body w)
  unfolding send_mail Returns
  send_mail-Returns to subject body w = refl

  after_mail-Settled :
      (max_retries : ℕ) (n : Notification) (now : ℕ) (r : Result String ⊤) (w : World p)
      → Returns (λ _ v. Settled max_retries n.id w.db v.db) (after_mail p max_retries n now r w)
  unfolding after_mail mark_sent
  after_mail-Settled max_retries n now (ok tt) w = saved-Settled max_retries _ w (inl refl)
  after_mail-Settled max_retries n now (err reason) w = mark_failed-Settled max_retries n reason w

  deliver_by-Settled :
      (url : String) (max_retries : ℕ) (n : Notification) (now : ℕ) (ch : NotificationChannel)
      (w : World p)
      → is_external ch ≡ true
      → Returns
          (λ _ v. Settled max_retries n.id w.db v.db)
          (deliver_by p url max_retries n now ch w)
  unfolding deliver_by mark_sent deliver_mail
  deliver_by-Settled url max_retries n now NotificationChannel.email w h =
      query_then _ _ _ w λ user read.
        call_then _ (λ _ v. v.db ≡ w.db) _ _ w (send_mail-Returns _ _ _ w)
          λ r v same.
            subst
              (λ d.
                Returns (λ _ u. Settled max_retries n.id d u.db)
                  (after_mail p max_retries n now r v))
              same (after_mail-Settled max_retries n now r v)
  deliver_by-Settled url max_retries n now NotificationChannel.sms w h =
      saved-Settled max_retries _ w (inl refl)
  deliver_by-Settled url max_retries n now NotificationChannel.push w h =
      saved-Settled max_retries _ w (inl refl)
  deliver_by-Settled url max_retries n now NotificationChannel.in_app w h = absurd cc
  deliver_by-Settled url max_retries n now (NotificationChannel.other t) w h = absurd cc

  -- When `ProcessDelivery` returns with no error for an e-mail, a text message or a push notification, its row
  -- is stored as sent, or as failed after at least as many attempts as are allowed, and no
  -- other row has changed: as long as retries are left, a failed attempt returns its error.
  pub process_delivery-Settled :
      (url : String) (max_retries id now : ℕ) (n : Notification) (w v : World p)
      → p.notifications.get id w.db.notifications ≡ ok n
      → is_external n.channel ≡ true
      → process_delivery p url max_retries id now w ≡ (ok tt, v)
      → Settled max_retries id w.db v.db
  unfolding process_delivery
  process_delivery-Settled url max_retries id now n w v got external e =
      Returns-ok (λ _ v. Settled max_retries id w.db v.db) _ tt v e
        (query_then _ _ _ w λ m found.
          let same : m ≡ n = ok_injective (sym found ∙ got) in
          let row = p.notifications.get_ok _ _ n got in
          skip_if_then _ _ _ w
            (λ sent. (
              (m, p.notifications.get_ok _ _ m found, inl (is_sent-eq m.status sent)),
              λ k other. refl,
            ))
            λ unsent.
              subst
                (λ i.
                  Returns (λ _ v. Settled max_retries i w.db v.db)
                    (deliver_by p url max_retries m now m.channel w))
                (lookup-key (λ n. n.id) id _ m (p.notifications.get_ok _ _ m found))
                (deliver_by-Settled url max_retries m now m.channel w
                  (subst (λ (n : Notification). is_external n.channel ≡ true) (sym same) external)))
