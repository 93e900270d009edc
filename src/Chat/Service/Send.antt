-- ===== src/Chat/Service/Send.antt =====
-- What `SendMessage` has done when it returns.
use auto_store_api.Prelude.{
  ⊤, ℕ, ◌≡◌, refl, sym, ap, ◌∙◌, subst, Bool, true, false, some, List, [], ◌∷◌, ◌++◌, String,
  Result, ok, err, not, ◌==◌, ◌||◌, str_eq, ltb, ◌⊎◌, inl, inr, lookup, update_where, if◌then◌else◌,
}
use auto_store_api.Platform.{Platform}
use auto_store_api.Platform.Sql.{DbError}
use auto_store_api.Models.Accounts.{User}
use auto_store_api.Models.Support.{Conversation, ChatMessage, MessageSenderType, is_closed}
use auto_store_api.World.{
  Db, World, M, Error, Returns, Returns-ok, ◌>>=◌, pure-Returns, raise_if_then, step_then,
  fresh_then, exec_then, ignored_then, notify_last, notify_then, notify, attempt, query, skip_if,
  skip_if_then, value_then, exec, support_admin_replied, run_ok, run_err,
}
use auto_store_api.Chat.Identity.{
  ChatConfig, ChatIdentity, can_access, is_admin_identity, new_message,
}
use auto_store_api.Chat.Service.{
  put_conversations, alert_admins, alert_read, is_first, admin_users, touch_last_message_at,
  get_conversation, publish, dispatch_message_notifications, send_message, message_key,
}
use auto_store_api.Chat.Service.Private.{get_conversation-cases}
use auto_store_api.Chat.Service.Rate.{check_message_rate-Returns}

of_or : (a b : Bool) → a || b ≡ false → (a ≡ false) × (b ≡ false)
of_or true b e = cc
of_or false b e = (refl, e)

module _ (p : Platform) where
  -- Of the conversations, at most the time of the last message of one has changed.
  abbrev Touched : ℕ → ℕ → Db p → Db p → Type 0
  Touched id now d e =
      (p.conversations.rows e.conversations ≡ p.conversations.rows d.conversations)
      ⊎ (p.conversations.rows e.conversations
          ≡ update_where (λ c. c.id == id) (λ c. record c { last_message_at = now })
              (p.conversations.rows d.conversations))

  -- What `SendMessage` has done: the text is not blank and not too long, the sender may see the conversation,
  -- which was not closed; the message is a new row with the trimmed text, and is of an administrator if and only
  -- if the sender is one; and of the conversations only the time of the last message of this one may have changed.
  pub record Sent (cfg : ChatConfig) (id : ℕ) (identity : ChatIdentity) (text : String) (now : ℕ)
      (msg : ChatMessage) (w v : World p) : Type 0 where
    pub not_blank : str_eq (p.texts.trim_space text) "" ≡ false
    pub fits : ltb cfg.message_max_len (p.texts.byte_len (p.texts.trim_space text)) ≡ false
    pub conv : Conversation
    pub was : lookup (λ c. c.id) id (p.conversations.rows w.db.conversations) ≡ some conv
    pub allowed : can_access conv identity ≡ true
    pub was_open : is_closed conv.status ≡ false
    pub body : msg.body ≡ p.texts.trim_space text
    pub of_conversation : msg.conversation_id ≡ id
    pub sender : msg.sender_type ≡ (
        if is_admin_identity identity then MessageSenderType.admin else MessageSenderType.customer)
    pub created : p.messages.rows v.db.messages ≡ p.messages.rows w.db.messages ++ msg ∷ []
    pub touched : Touched id now w.db v.db
    pub published : v.published ≡ msg.id ∷ w.published

  get_conversation_then :
      {B : Type 0} (Q : B → World p → Type 0) (id : ℕ) (identity : ChatIdentity)
      (k : Conversation → M p B) (w : World p)
      → ((c : Conversation)
          → lookup (λ c. c.id) id (p.conversations.rows w.db.conversations) ≡ some c
          → can_access c identity ≡ true
          → Returns Q (k c w))
      → Returns Q ((get_conversation p id identity >>= k) w)
  unfolding Returns
  get_conversation_then Q id identity k w h = elim (get_conversation-cases p id identity w) [
    | inl (c, got, found, may) ↦ subst (Returns Q) (sym (run_ok _ k w w c got)) (h c found may)
    | inr (e, failed) ↦ subst (Returns Q) (sym (run_err _ k w w e failed)) tt
  ]

  -- The rows and what was published are as before.
  abbrev Quiet : World p → World p → Type 0
  Quiet w v = (v.db ≡ w.db) × (v.published ≡ w.published)

  alert_admins-Quiet :
      (id : ℕ) (admins : List User) (w : World p)
      → Returns (λ _ v. Quiet w v) (alert_admins p id admins w)
  unfolding alert_admins
  alert_admins-Quiet id [] w = pure-Returns _ _ w (refl, refl)
  alert_admins-Quiet id (a ∷ admins) w = notify_then _ _ _ w (alert_admins-Quiet id admins _)

  alert_read-Quiet :
      (id : ℕ) (r : Result Error (List User)) (w : World p)
      → Returns (λ _ v. Quiet w v) (alert_read p id r w)
  alert_read-Quiet id (ok admins) w = alert_admins-Quiet id admins w
  alert_read-Quiet id (err e) w = pure-Returns _ _ w (refl, refl)

  dispatch_message_notifications-Quiet :
      (conv : Conversation) (msg : ChatMessage) (identity : ChatIdentity) (w : World p)
      → Returns (λ _ v. Quiet w v) (dispatch_message_notifications p conv msg identity w)
  unfolding dispatch_message_notifications
  dispatch_message_notifications-Quiet conv msg identity w = go (is_admin_identity identity)
    where
      go :
          (b : Bool)
          → let m : M p ⊤ = elim b [
            | true ↦ notify p (support_admin_replied conv.id msg.id)
            | false ↦ do
              count ←
                  attempt
                    (query p (λ d. p.messages.count (λ m. m.conversation_id == conv.id) d.messages))
              skip_if p
                  (not (is_first p count))
                  (do admins ← attempt (query p (admin_users p)); alert_read p conv.id admins)
          ] in
            Returns (λ _ v. Quiet w v) (m w)
      go true = notify_last _ _ w (refl, refl)
      go false = value_then _ _ _ w λ count.
          skip_if_then _ _ _ w (λ _. (refl, refl))
            λ first. value_then _ _ _ w λ r. alert_read-Quiet conv.id r w

  touch_last_message_at-Touched :
      (id now : ℕ) (w : World p)
      → let x = (touch_last_message_at p id now w).1 in
        (x.db.messages ≡ w.db.messages) × (x.published ≡ w.published) × Touched id now w.db x.db
  unfolding exec
  touch_last_message_at-Touched id now w =
      go
        (p.conversations.update (λ c. c.id == id) (λ c. record c { last_message_at = now })
          w.db.conversations)
        (λ t e. p.conversations.update_ok _ _ _ t e)
    where
      go :
          (r : Result DbError p.conversations.Rows)
          → ((t : p.conversations.Rows)
              → r ≡ ok t
              → p.conversations.rows t
                ≡ update_where
                    (λ c. c.id == id)
                    (λ c. record c { last_message_at = now })
                    (p.conversations.rows w.db.conversations))
          → let c : Result Error ⊤ × World p = elim r [
            | ok t ↦ (ok tt, record w { db = put_conversations p t w.db })
            | err e ↦ (err (Error.db e), w)
          ] in
            (c.1.db.messages ≡ w.db.messages)
            × (c.1.published ≡ w.published)
            × Touched id now w.db c.1.db
      go (ok t) h = (refl, refl, inr (h t refl))
      go (err e) h = (refl, refl, inl refl)

  publish-Returns :
      (m : ChatMessage) (w : World p)
      → Returns (λ _ v. v ≡ record w { published = m.id ∷ w.published }) (publish p m w)
  unfolding publish Returns
  publish-Returns m w = refl

  -- When `SendMessage` returns a message: the text is neither blank nor too long, the sender may see the conversation, and it
  -- was not closed. The message is a new row with the trimmed text, it is marked as an administrator's if and only if
  -- the sender is one, no other message has changed, and it has been published once. Of the conversations, at most this one's time of
  -- the last message has changed.
  pub send_message-Sent :
      (cfg : ChatConfig) (id : ℕ) (identity : ChatIdentity) (text : String) (now : ℕ)
      (w v : World p) (msg : ChatMessage)
      → send_message p cfg id identity text now w ≡ (ok msg, v)
      → Sent cfg id identity text now msg w v
  unfolding send_message
  send_message-Sent cfg id identity text now w v msg e =
      Returns-ok (λ msg v. Sent cfg id identity text now msg w v) _ msg v e
        (raise_if_then _ _ _ _ w λ good.
          step_then _ _ _ _ w (check_message_rate-Returns p cfg (message_key p identity) w)
            λ _ r counted.
              let same : r.db ≡ w.db = ap (λ (v : World p). v.db) counted in
              let before : r.published ≡ w.published = ap (λ (v : World p). v.published) counted in
              get_conversation_then _ id identity _ r λ c found may.
                raise_if_then _ _ _ _ r λ open_. fresh_then _ _ r (
                  exec_then _ _ _ _ _ λ t made.
                    ignored_then _
                      (λ x.
                        (x.db.messages ≡ t)
                        × (x.published ≡ r.published)
                        × Touched id now r.db x.db)
                      _ _ _ (touch_last_message_at-Touched id now _)
                      λ x (stored, told, touched).
                        step_then _ _ _ _ x (publish-Returns _ x) λ _ y out.
                          step_then _ (λ _ z. Quiet y z) _ _ y
                            (dispatch_message_notifications-Quiet c _ identity y)
                            λ _ z (kept, heard). pure-Returns _ _ z (
                              let now_db : z.db ≡ x.db = kept ∙ ap (λ (v : World p). v.db) out in
                              let (not_blank, fits) = of_or _ _ good in
                              record {
                                not_blank = not_blank;
                                fits = fits;
                                conv = c;
                                was =
                                    subst
                                      (λ d.
                                        lookup (λ c. c.id) id (p.conversations.rows d.conversations)
                                        ≡ some c)
                                      same found;
                                allowed = may;
                                was_open = open_;
                                body = refl;
                                of_conversation = refl;
                                sender = refl;
                                created =
                                    ap (λ (d : Db p). p.messages.rows d.messages) now_db
                                    ∙ ap p.messages.rows stored
                                    ∙ (p.messages.create_ok _ _ t made).1
                                    ∙ ap
                                        (λ (d : Db p).
                                          p.messages.rows d.messages
                                          ++ new_message (p.uuid r.drawn) id identity
                                              (p.texts.trim_space text) now
                                            ∷ [])
                                        same;
                                touched =
                                    subst (λ d. Touched id now d z.db) same
                                      (subst (Touched id now r.db) (sym now_db) touched);
                                published =
                                    heard
                                    ∙ ap (λ (v : World p). v.published) out
                                    ∙ ap (λ l. p.uuid r.drawn ∷ l) (told ∙ before);
                              })))
