-- ===== src/Chat/Service/Private.antt =====
-- A conversation is shown and written only for those who may see it.
use auto_store_api.Prelude.{
  ℕ, ◌≡◌, ap, ◌∙◌, true, false, some, ok, err, not, Bool-cases, ◌⊎◌, inl, inr, lookup,
}
use auto_store_api.Platform.{Platform}
use auto_store_api.Models.Support.{Conversation}
use auto_store_api.World.{
  World, Error, pure, query_missing_cases, query_missing_is, raise_if-true, raise_if-false, run_err,
  conversation_forbidden, conversation_not_found,
}
use auto_store_api.Chat.Identity.{ChatIdentity, UpdateConversationInput, can_access}
use auto_store_api.Chat.Service.{get_conversation, guarded, update_conversation, mark_read}

module _ (p : Platform) where
  -- `GetConversation` finds a conversation that the identity may see, or fails; it changes nothing.
  pub get_conversation-cases :
      (id : ℕ) (identity : ChatIdentity) (w : World p)
      → ((c : Conversation) × (get_conversation p id identity w ≡ (ok c, w))
          × (lookup (λ c. c.id) id (p.conversations.rows w.db.conversations) ≡ some c)
          × (can_access c identity ≡ true))
        ⊎ ((e : Error) × (get_conversation p id identity w ≡ (err e, w)))
  unfolding get_conversation pure
  get_conversation-cases id identity w =
      elim (query_missing_cases (λ d. p.conversations.get id d.conversations) conversation_not_found
        (guarded p identity) w) [
          | inl (c, found, run) ↦ elim (Bool-cases (can_access c identity)) [
            | inl may ↦ inl (
              c,
              run ∙ raise_if-false _ _ (pure c) w (ap not may),
              p.conversations.get_ok _ _ c found,
              may,
            )
            | inr not_may ↦
                inr (conversation_forbidden, run ∙ raise_if-true _ _ (pure c) w (ap not not_may))
          ]
          | inr (e, failed) ↦ inr (e, failed)
        ]

  forbidden :
      (id : ℕ) (identity : ChatIdentity) (w : World p) (c : Conversation)
      → p.conversations.get id w.db.conversations ≡ ok c
      → can_access c identity ≡ false
      → get_conversation p id identity w ≡ (err conversation_forbidden, w)
  unfolding get_conversation
  forbidden id identity w c found not_may =
      query_missing_is (λ d. p.conversations.get id d.conversations) conversation_not_found
        (guarded p identity) w c found
      ∙ raise_if-true _ _ (pure c) w (ap not not_may)

  -- For a conversation that the identity may not see, `GetConversation`, `UpdateConversation` and
  -- `MarkRead` return `ErrConversationForbidden`, and nothing at all has changed.
  pub stranger_refused :
      (id : ℕ) (identity : ChatIdentity) (input : UpdateConversationInput) (now : ℕ) (w : World p)
      (c : Conversation)
      → p.conversations.get id w.db.conversations ≡ ok c
      → can_access c identity ≡ false
      → (get_conversation p id identity w ≡ (err conversation_forbidden, w))
        × (update_conversation p id identity input w ≡ (err conversation_forbidden, w))
        × (mark_read p id identity now w ≡ (err conversation_forbidden, w))
  unfolding update_conversation mark_read
  stranger_refused id identity input now w c found not_may =
      let no = forbidden id identity w c found not_may in
      (no, run_err _ _ w w _ no, run_err _ _ w w _ no)
