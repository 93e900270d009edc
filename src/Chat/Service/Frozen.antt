-- ===== src/Chat/Service/Frozen.antt =====
-- The writes of the chat that leave closed conversations closed, with the messages that they have.
use auto_store_api.Prelude.{
  ℕ, ◌≡◌, refl, sym, ap, ◌∙◌, subst, Bool, true, false, Option, none, some, String, Result, ok, err,
  ◌==◌, Bool-cases, inl, inr, if◌then◌else◌, lookup, select, amend, lookup-update_where,
  lookup-append_old, lookup-upsert_self, lookup-upsert_ne, lookup-key, ==→eq, ==→ne,
  option_injective, ok_injective,
}
use auto_store_api.Platform.{Platform}
use auto_store_api.Models.Support.{Conversation, ConversationStatus, is_closed}
use auto_store_api.World.{
  Db, World, M, exec, Error, Kept, Keeps, ◌>>=◌, then-Keeps, pure-Keeps, raise-Keeps,
  lift_then-Keeps, query_then-Keeps, value_then-Keeps, exec-Keeps, skip_if-Keeps, is_missing, fresh,
  pure, raise, conversation_forbidden, ◌>>◌, fresh_then-Keeps, run_ok, run_err,
}
use auto_store_api.Chat.Identity.{
  ChatIdentity, CreateConversationInput, UpdateConversationInput, given_to, guest_only,
  is_admin_identity,
}
use auto_store_api.Chat.Service.Private.{get_conversation-cases}
use auto_store_api.Chat.Service.{
  put_conversations, get_conversation, open_or_new, open_for, close_if, set_email, set_name,
  update_conversation, read_at, mark_read, link_guest_conversations,
}

module _ (p : Platform) where
  -- The conversation is there and closed.
  abbrev pub ClosedAt : ℕ → Db p → Type 0
  ClosedAt id d =
      (c : Conversation) × (lookup (λ c. c.id) id (p.conversations.rows d.conversations) ≡ some c)
      × (is_closed c.status ≡ true)

  -- A closed conversation is still closed, and has the messages that it had.
  abbrev pub StaysClosed : Db p → Db p → Type 0
  StaysClosed d e =
      (id : ℕ)
      → ClosedAt id d
      → ClosedAt id e
        × (select (λ m. m.conversation_id == id) (p.messages.rows e.messages)
            ≡ select (λ m. m.conversation_id == id) (p.messages.rows d.messages))

  abbrev pub stays_closed : Kept p
  stays_closed = record {
    Rel = StaysClosed;
    same = λ d id h. (h, refl);
    chain = λ d e f r s id h. let (g, m) = r id h in let (k, n) = s id g in (k, n ∙ m);
  }

  -- A write to the conversations that keeps their ids, and those closed that are.
  pub update_stays :
      (q : Conversation → Bool) (f : Conversation → Conversation) (w : World p)
      → ((c : Conversation) → (f c).id ≡ c.id)
      → ((c : Conversation) → is_closed (f c).status ≡ is_closed c.status)
      → Keeps stays_closed w
          (exec p (λ d. p.conversations.update q f d.conversations) (put_conversations p) w)
  update_stays q f w same_id same_status =
      exec-Keeps stays_closed _ _ w λ t done id (c, found, shut). (
        (
          if q c then f c else c,
          ap (lookup (λ c. c.id) id) (p.conversations.update_ok _ _ _ t done)
              ∙ lookup-update_where (λ c. c.id) id q f _ same_id
              ∙ ap (amend q f) found,
          elim (Bool-cases (q c)) [ inl e ↦ rw e (same_status c ∙ shut) | inr e ↦ rw e shut ],
        ),
        refl,
      )

  pub failed-Keeps :
      (B : Type 0) (e : Error) (w : World p) → Keeps stays_closed {A = B} w (err e, w)
  unfolding Keeps
  failed-Keeps B e w id h = (h, refl)

  -- The rest of a method that has got a conversation.
  pub get_conversation-Keeps :
      {B : Type 0} (id : ℕ) (identity : ChatIdentity) (k : Conversation → M p B) (w : World p)
      → ((c : Conversation)
          → lookup (λ c. c.id) id (p.conversations.rows w.db.conversations) ≡ some c
          → Keeps stays_closed w (k c w))
      → Keeps stays_closed w ((get_conversation p id identity >>= k) w)
  get_conversation-Keeps id identity k w h = elim (get_conversation-cases p id identity w) [
    | inl (c, got, found, may) ↦
        subst (Keeps stays_closed w) (sym (run_ok _ k w w c got)) (h c found)
    | inr (e, failed) ↦
        subst (Keeps stays_closed w) (sym (run_err _ k w w e failed)) (failed-Keeps _ e w)
  ]

  pub close_if-closed :
      (s : Option ConversationStatus) (c d : Conversation)
      → close_if p s c ≡ ok d
      → (d.id ≡ c.id) × (is_closed c.status ≡ true → is_closed d.status ≡ true)
  close_if-closed none c d e =
      subst (λ d. (d.id ≡ c.id) × (is_closed c.status ≡ true → is_closed d.status ≡ true))
        (ok_injective e) (refl, λ h. h)
  close_if-closed (some ConversationStatus.open_) c d e = cc
  close_if-closed (some ConversationStatus.closed) c d e =
      subst (λ d. (d.id ≡ c.id) × (is_closed c.status ≡ true → is_closed d.status ≡ true))
        (ok_injective e) (refl, λ h. refl)

  pub of_choice :
      (b : Bool) (x : Error) (r : Result Error Conversation) (d : Conversation)
      → elim b [ true ↦ err x | false ↦ r ] ≡ ok d
      → r ≡ ok d
  of_choice true x r d e = cc
  of_choice false x r d e = e

  pub kept :
      (c d : Conversation) → c ≡ d → (d.id ≡ c.id) × (is_closed d.status ≡ is_closed c.status)
  kept c d e = (
    ap (λ (c : Conversation). c.id) (sym e),
    ap (λ (c : Conversation). is_closed c.status) (sym e),
  )

  pub set_email-closed :
      (identity : ChatIdentity) (o : Option String) (c d : Conversation)
      → set_email p identity o c ≡ ok d
      → (d.id ≡ c.id) × (is_closed d.status ≡ is_closed c.status)
  set_email-closed identity none c d e = kept c d (ok_injective e)
  set_email-closed identity (some t) c d e =
      kept _ d (ok_injective (of_choice _ _ _ d (of_choice _ _ _ d e)))

  pub set_name-closed :
      (identity : ChatIdentity) (o : Option String) (c d : Conversation)
      → set_name p identity o c ≡ ok d
      → (d.id ≡ c.id) × (is_closed d.status ≡ is_closed c.status)
  set_name-closed identity none c d e = kept c d (ok_injective e)
  set_name-closed identity (some t) c d e = kept _ d (ok_injective (of_choice _ _ _ d e))

  -- Saving a row over a conversation that is closed if it was.
  pub save_stays :
      (id : ℕ) (c d : Conversation) (w : World p)
      → lookup (λ c. c.id) id (p.conversations.rows w.db.conversations) ≡ some c
      → d.id ≡ c.id
      → (is_closed c.status ≡ true → is_closed d.status ≡ true)
      → Keeps stays_closed w
          (exec p (λ e. p.conversations.save d e.conversations) (put_conversations p) w)
  save_stays id c d w found i shut = exec-Keeps stays_closed _ _ w λ t saved k (b, there, was). (
    elim (Bool-cases (k == id)) [
      | inl e ↦ (
        d,
        ap (lookup (λ c. c.id) k) (p.conversations.save_ok _ _ t saved)
            ∙ lookup-upsert_self (λ c. c.id) k d _
                (i ∙ lookup-key (λ c. c.id) id _ c found ∙ sym (==→eq k id e)),
        shut (
            ap (λ (c : Conversation). is_closed c.status)
              (option_injective (
                sym found
                ∙ ap (λ k. lookup (λ c. c.id) k (p.conversations.rows w.db.conversations))
                    (sym (==→eq k id e))
                ∙ there))
            ∙ was),
      )
      | inr e ↦ (
        b,
        ap (lookup (λ c. c.id) k) (p.conversations.save_ok _ _ t saved)
            ∙ lookup-upsert_ne (λ c. c.id) k d _
                (λ x. ==→ne k id e (sym x ∙ i ∙ lookup-key (λ c. c.id) id _ c found))
            ∙ there,
        was,
      )
    ],
    refl,
  )

  pub link_stays :
      (user_id guest_id : ℕ) (w : World p)
      → Keeps stays_closed w (link_guest_conversations p guest_id user_id w)
  unfolding link_guest_conversations
  link_stays user_id guest_id w = query_then-Keeps stays_closed _ _ w λ cs found.
      then-Keeps stays_closed _ _ w
        (skip_if-Keeps stays_closed _ _ w
          λ some_. update_stays (guest_only guest_id) (given_to user_id) w (λ c. refl) (λ c. refl))
        λ v. pure-Keeps stays_closed _ v

  pub read_at_id : (b : Bool) (now : ℕ) (c : Conversation) → (read_at p b now c).id ≡ c.id
  read_at_id true now c = refl
  read_at_id false now c = refl

  pub read_at_status :
      (b : Bool) (now : ℕ) (c : Conversation)
      → is_closed ((read_at p b now c).status) ≡ is_closed c.status
  read_at_status true now c = refl
  read_at_status false now c = refl

  pub mark_stays :
      (id : ℕ) (identity : ChatIdentity) (now : ℕ) (w : World p)
      → Keeps stays_closed w (mark_read p id identity now w)
  unfolding mark_read
  mark_stays id identity now w = get_conversation-Keeps id identity _ w λ c found.
      update_stays (λ c. c.id == id) (read_at p (is_admin_identity identity) now) w
        (read_at_id (is_admin_identity identity) now)
        (read_at_status (is_admin_identity identity) now)

  pub update_stays_closed :
      (id : ℕ) (identity : ChatIdentity) (input : UpdateConversationInput) (w : World p)
      → Keeps stays_closed w (update_conversation p id identity input w)
  unfolding update_conversation
  update_stays_closed id identity input w = get_conversation-Keeps id identity _ w λ c found.
      lift_then-Keeps stays_closed _ _ w λ d shut. lift_then-Keeps stays_closed _ _ w λ e mailed.
        lift_then-Keeps stays_closed _ _ w λ f named.
          let (i, s) = close_if-closed input.status c d shut in
          let (j, t) = set_email-closed identity input.guest_email d e mailed in
          let (k, u) = set_name-closed identity input.guest_name e f named in
          then-Keeps stays_closed _ _ w (save_stays id c f w found (k ∙ j ∙ i) (λ h. u ∙ t ∙ s h))
            λ v. pure-Keeps stays_closed _ v

  pub create_stays :
      (make : ℕ → Conversation) (r : Result Error Conversation) (w : World p)
      → Keeps stays_closed w (open_or_new p r make w)
  unfolding open_or_new
  create_stays make (ok c) w = pure-Keeps stays_closed _ w
  create_stays make (err e) w = missing (is_missing e)
    where
      missing :
          (b : Bool)
          → let m : M p (Conversation × Bool) = elim b [
            | true ↦ do
              id ← fresh p
              exec p (λ d. p.conversations.create (make id) d.conversations) (put_conversations p)
              pure (make id, true)
            | false ↦ raise e
          ] in
            Keeps stays_closed w (m w)
      missing true = fresh_then-Keeps stays_closed _ w (
          then-Keeps stays_closed _ _ _
            (exec-Keeps stays_closed _ _ _ λ t made id (c, found, shut). (
              (
                c,
                ap (lookup (λ c. c.id) id) (p.conversations.create_ok _ _ t made).1
                    ∙ lookup-append_old (λ c. c.id) id _ _ c found,
                shut,
              ),
              refl,
            ))
            λ v. pure-Keeps stays_closed _ v)
      missing false = raise-Keeps stays_closed _ e w

  pub open_stays :
      (user_id guest_id : Option ℕ) (input : CreateConversationInput) (now : ℕ) (w : World p)
      → Keeps stays_closed w (open_for p user_id guest_id input now w)
  unfolding open_for
  open_stays (some u) g input now w = value_then-Keeps stays_closed _ _ w λ r. create_stays _ r w
  open_stays none (some g) input now w = value_then-Keeps stays_closed _ _ w λ r. create_stays _ r w
  open_stays none none input now w = raise-Keeps stays_closed _ conversation_forbidden w
