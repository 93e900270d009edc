-- ===== src/Chat/Service/Closed.antt =====
-- A conversation that is closed stays so, and gets no more messages.
use auto_store_api.Prelude.{
  ⊤, ℕ, ◌≡◌, refl, sym, ap, ◌∙◌, Bool, true, false, Option, none, some, List, [], ◌∷◌, String,
  Result, ok, err, not, ◌==◌, lookup, select, select-append_not, ne→==, option_injective,
}
use auto_store_api.Platform.{Platform}
use auto_store_api.Models.Accounts.{User}
use auto_store_api.Models.Support.{Conversation, ChatMessage, is_closed}
use auto_store_api.World.{
  World, M, Error, Keeps, Keeps-rel, same-Keeps, ◌>>=◌, then-Keeps, pure-Keeps, lift_then-Keeps,
  value_then-Keeps, exec-Keeps, skip_if-Keeps, ignore-Keeps, notify, attempt, query, skip_if,
  support_admin_replied, raise_if_then-Keeps, fresh_then-Keeps, notify-Keeps,
}
use auto_store_api.Chat.Identity.{
  ChatConfig, ChatIdentity, CreateConversationInput, UpdateConversationInput, is_admin_identity,
}
use auto_store_api.Chat.Service.{
  is_first, admin_users, check_rate, check_message_rate, get_or_create_conversation, alert_admins,
  alert_read, dispatch_message_notifications, publish, send_message, update_conversation, mark_read,
  link_guest,
}
use auto_store_api.Chat.Service.Rate.{count_call_store}
use auto_store_api.Chat.Service.Frozen.{
  open_stays, update_stays_closed, mark_stays, link_stays, update_stays, get_conversation-Keeps,
  stays_closed, StaysClosed,
}

module _ (p : Platform) where
  rate_stays :
      (cfg : ChatConfig) (key : Option String) (w : World p)
      → Keeps (stays_closed p) w (check_message_rate p cfg key w)
  unfolding check_message_rate check_rate
  rate_stays cfg none w = pure-Keeps (stays_closed p) _ w
  rate_stays cfg (some key) w =
      same-Keeps (stays_closed p) _ w _ (ap (λ (v : World p). v.db) (count_call_store p key 60 w))

  alert_stays :
      (id : ℕ) (admins : List User) (w : World p)
      → Keeps (stays_closed p) w (alert_admins p id admins w)
  unfolding alert_admins
  alert_stays id [] w = pure-Keeps (stays_closed p) _ w
  alert_stays id (a ∷ admins) w =
      then-Keeps (stays_closed p) _ _ w (notify-Keeps (stays_closed p) _ w)
        λ v. alert_stays id admins v

  read_stays :
      (id : ℕ) (r : Result Error (List User)) (w : World p)
      → Keeps (stays_closed p) w (alert_read p id r w)
  read_stays id (ok admins) w = alert_stays id admins w
  read_stays id (err e) w = pure-Keeps (stays_closed p) _ w

  dispatch_stays :
      (conv : Conversation) (msg : ChatMessage) (identity : ChatIdentity) (w : World p)
      → Keeps (stays_closed p) w (dispatch_message_notifications p conv msg identity w)
  unfolding dispatch_message_notifications
  dispatch_stays conv msg identity w = go (is_admin_identity identity)
    where
      go :
          (b : Bool)
          → let m : M p ⊤ = elim b [
            | true ↦ notify p (support_admin_replied conv.id msg.id)
            | false ↦ do
              count ←
                  attempt
                    (query p (λ d. p.messages.count (λ m. m.conversation_id == conv.id) d.messages))
              skip_if p
                  (not (is_first p count))
                  (do admins ← attempt (query p (admin_users p)); alert_read p conv.id admins)
          ] in
            Keeps (stays_closed p) w (m w)
      go true = notify-Keeps (stays_closed p) _ w
      go false = value_then-Keeps (stays_closed p) _ _ w λ count.
          skip_if-Keeps (stays_closed p) _ _ w
            λ first. value_then-Keeps (stays_closed p) _ _ w λ r. read_stays conv.id r w

  publish_stays : (m : ChatMessage) (w : World p) → Keeps (stays_closed p) w (publish p m w)
  unfolding publish
  publish_stays m w = same-Keeps (stays_closed p) _ w _ refl

  still_open :
      (c b : Conversation) → is_closed c.status ≡ false → is_closed b.status ≡ true → c ≡ b → ⊥
  still_open c b f t e = let s = ap (λ (c : Conversation). is_closed c.status) e in cc

  send_stays :
      (cfg : ChatConfig) (id : ℕ) (identity : ChatIdentity) (text : String) (now : ℕ) (w : World p)
      → Keeps (stays_closed p) w (send_message p cfg id identity text now w)
  unfolding send_message
  send_stays cfg id identity text now w = raise_if_then-Keeps (stays_closed p) _ _ _ w λ fits.
      then-Keeps (stays_closed p) _ _ w (rate_stays cfg _ w) λ v.
        get_conversation-Keeps p id identity _ v λ c found.
          raise_if_then-Keeps (stays_closed p) _ _ _ v λ open_.
            fresh_then-Keeps (stays_closed p) _ v (
              then-Keeps (stays_closed p) _ _ _
                (exec-Keeps (stays_closed p) _ _ _ λ t made k (b, there, shut). (
                  (b, there, shut),
                  ap (select (λ m. m.conversation_id == k)) (p.messages.create_ok _ _ t made).1
                      ∙ select-append_not (λ m. m.conversation_id == k) _ _
                          (ne→== id k (λ e. still_open c b open_ shut (
                            option_injective (
                              sym found
                              ∙ ap
                                  (λ k.
                                    lookup (λ c. c.id) k (p.conversations.rows v.db.conversations))
                                  e
                              ∙ there)))),
                ))
                λ u.
                  then-Keeps (stays_closed p) _ _ u
                    (ignore-Keeps (stays_closed p) _ u
                      (update_stays p _ _ u (λ c. refl) (λ c. refl)))
                    λ x. then-Keeps (stays_closed p) _ _ x (publish_stays _ x) λ y.
                      then-Keeps (stays_closed p) _ _ y (dispatch_stays _ _ _ y)
                        λ z. pure-Keeps (stays_closed p) _ z)

  -- The operations of the service that write; each leads to the state that it leaves, however it ends.
  pub data Step : World p → World p → Type 0 where
    create_or_get :
        (identity : ChatIdentity) (input : CreateConversationInput) (now : ℕ) (w : World p)
        → Step w (get_or_create_conversation p identity input now w).1
    send :
        (cfg : ChatConfig) (id : ℕ) (identity : ChatIdentity) (text : String) (now : ℕ)
        (w : World p)
        → Step w (send_message p cfg id identity text now w).1
    revise :
        (id : ℕ) (identity : ChatIdentity) (input : UpdateConversationInput) (w : World p)
        → Step w (update_conversation p id identity input w).1
    mark :
        (id : ℕ) (identity : ChatIdentity) (now : ℕ) (w : World p)
        → Step w (mark_read p id identity now w).1
    link : (user_id : ℕ) (token : String) (w : World p) → Step w (link_guest p user_id token w).1

  pub data Reached : World p → World p → Type 0 where
    start : (w : World p) → Reached w w
    next : {w v u : World p} → Reached w v → Step v u → Reached w u

  Step-StaysClosed : {w v : World p} → Step w v → StaysClosed p w.db v.db
  unfolding get_or_create_conversation link_guest
  Step-StaysClosed (create_or_get identity input now w) =
      Keeps-rel (stays_closed p) w _ (open_stays p identity.user_id identity.guest_id input now w)
  Step-StaysClosed (send cfg id identity text now w) =
      Keeps-rel (stays_closed p) w _ (send_stays cfg id identity text now w)
  Step-StaysClosed (revise id identity input w) =
      Keeps-rel (stays_closed p) w _ (update_stays_closed p id identity input w)
  Step-StaysClosed (mark id identity now w) =
      Keeps-rel (stays_closed p) w _ (mark_stays p id identity now w)
  Step-StaysClosed (link user_id token w) = Keeps-rel (stays_closed p) w _ (
      lift_then-Keeps (stays_closed p) _ _ w λ claims valid. link_stays p user_id claims.guest_id w)

  -- Whatever the chat does afterwards, in any order and however each call ends, a conversation that is closed stays closed
  -- and its messages are the ones that it had.
  pub Reached-StaysClosed : {w v : World p} → Reached w v → StaysClosed p w.db v.db
  Reached-StaysClosed (start w) id h = (h, refl)
  Reached-StaysClosed (next r s) id h =
      let (g, m) = Reached-StaysClosed r id h in let (k, n) = Step-StaysClosed s id g in (k, n ∙ m)
