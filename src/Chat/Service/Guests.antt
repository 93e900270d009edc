-- ===== src/Chat/Service/Guests.antt =====
-- Conversations that are opened, and those that a guest hands to an account.
use auto_store_api.Prelude.{
  ℕ, ◌≡◌, refl, sym, ap, ◌∙◌, subst, Bool, true, false, Option, none, some, List, [], ◌∷◌, ok, err,
  ok_injective, ◌&&◌, ◌+◌, ==_self, both, Bool-cases, if◌then◌else◌, ◌⊎◌, inl, inr, length, select,
  update_where, String, arith,
}
use auto_store_api.Platform.{Platform}
use auto_store_api.Models.Support.{Conversation, is_open}
use auto_store_api.World.{
  World, Returns, Returns-ok, pure-Returns, query_then, step_then, skip_if_then, exec_last,
  lift_then, invalid_guest_token,
}
use mathlib.Core.List.{Perm}
use mathlib.Core.List.Perm
use auto_store_api.Models.Tokens.{GuestClaims, is_guest}
use auto_store_api.Chat.Identity.{same_id, is_nil_id, open_of_user, guest_only, given_to, is_empty}
use auto_store_api.Chat.Service.{link_guest_conversations, link_guest, validate_guest}

-- How many open conversations the user has.
abbrev pub open_count : ℕ → List Conversation → ℕ
open_count user_id rows = length (select (open_of_user user_id) rows)

-- How many open conversations the guest has that belong to no user.
abbrev pub open_guest_count : ℕ → List Conversation → ℕ
open_guest_count guest_id rows =
    length (select (λ c. guest_only guest_id c && is_open c.status) rows)

of_nil : (o : Option ℕ) → is_nil_id o ≡ true → o ≡ none
of_nil none h = refl
of_nil (some n) h = cc

grow_right :
    (b : Bool) (x z : Conversation) (xs ys zs : List Conversation)
    → length xs ≡ length ys + length zs
    → length (if b then x ∷ xs else xs) ≡ length ys + length (if b then z ∷ zs else zs)
grow_right true x z xs ys zs h = omega arith
grow_right false x z xs ys zs h = h

grow_left :
    (b : Bool) (x : Conversation) (xs ys zs : List Conversation)
    → length xs ≡ length ys + length zs
    → length (if b then x ∷ xs else xs) ≡ length (if b then x ∷ ys else ys) + length zs
grow_left true x xs ys zs h = omega arith
grow_left false x xs ys zs h = h

given_one :
    (guest_id user_id : ℕ) (c : Conversation) (xs ys zs : List Conversation)
    → (guest_only guest_id c ≡ true) ⊎ (guest_only guest_id c ≡ false)
    → length xs ≡ length ys + length zs
    → length (
        if open_of_user user_id (if guest_only guest_id c then given_to user_id c else c)
        then (if guest_only guest_id c then given_to user_id c else c) ∷ xs
        else xs)
      ≡ length (if open_of_user user_id c then c ∷ ys else ys)
        + length (if guest_only guest_id c && is_open c.status then c ∷ zs else zs)
given_one guest_id user_id c xs ys zs (inl e) h =
    let (g, n) = both (same_id (some guest_id) c.guest_id) (is_nil_id c.user_id) e in
    rw (e, ==_self user_id, of_nil c.user_id n) (grow_right (is_open c.status) _ _ xs ys zs h)
given_one guest_id user_id c xs ys zs (inr e) h =
    rw e (grow_left (open_of_user user_id c) c xs ys zs h)

given_count :
    (guest_id user_id : ℕ) (rows : List Conversation)
    → open_count user_id (update_where (guest_only guest_id) (given_to user_id) rows)
      ≡ open_count user_id rows + open_guest_count guest_id rows
given_count guest_id user_id [] = omega arith
given_count guest_id user_id (c ∷ rows) =
    given_one guest_id user_id c _ _ _ (Bool-cases (guest_only guest_id c))
      (given_count guest_id user_id rows)

given_none :
    (guest_id : ℕ) (rows : List Conversation)
    → select (guest_only guest_id) rows ≡ []
    → open_guest_count guest_id rows ≡ 0
given_none guest_id [] e = refl
given_none guest_id (c ∷ rows) e = elim (Bool-cases (guest_only guest_id c)) [
  | inl g ↦ absurd (
      cons_nil c _ (
        sym (
          ap
            (λ b.
              if b
              then c ∷ select (guest_only guest_id) rows
              else select (guest_only guest_id) rows)
            g)
        ∙ e))
  | inr g ↦
      ap
        (λ b. length (
          if b && is_open c.status
          then c ∷ select (λ c. guest_only guest_id c && is_open c.status) rows
          else select (λ c. guest_only guest_id c && is_open c.status) rows))
        g
      ∙ given_none guest_id rows (
          sym (
            ap
              (λ b.
                if b
                then c ∷ select (guest_only guest_id) rows
                else select (guest_only guest_id) rows)
              g)
          ∙ e)
]
  where
    cons_nil : (c : Conversation) (cs : List Conversation) → c ∷ cs ≡ [] → ⊥
    cons_nil c cs e = cc

empty_Perm : {A : Type 0} (xs ys : List A) → Perm xs ys → is_empty xs ≡ true → ys ≡ []
empty_Perm [] ys h e = sym (Perm.nil-eq h)
empty_Perm (x ∷ xs) ys h e = cc

module _ (p : Platform) where
  link_guest_conversations-count :
      (guest_id user_id : ℕ) (w : World p)
      → Returns
          (λ _ v.
            open_count user_id (p.conversations.rows v.db.conversations)
            ≡ open_count user_id (p.conversations.rows w.db.conversations)
              + open_guest_count guest_id (p.conversations.rows w.db.conversations))
          (link_guest_conversations p guest_id user_id w)
  unfolding link_guest_conversations
  link_guest_conversations-count guest_id user_id w = query_then _ _ _ w λ cs found.
      step_then _
        (λ _ v.
          open_count user_id (p.conversations.rows v.db.conversations)
          ≡ open_count user_id (p.conversations.rows w.db.conversations)
            + open_guest_count guest_id (p.conversations.rows w.db.conversations))
        _ _ w
        (skip_if_then _ _ _ w
          (λ none_.
            let z : open_guest_count guest_id (p.conversations.rows w.db.conversations) ≡ 0 =
              given_none guest_id (p.conversations.rows w.db.conversations)
                (empty_Perm _ _ (p.conversations.find_ok _ _ cs found) none_) in
            omega (arith, z))
          λ some_. exec_last _ _ _ w λ t done.
            ap (open_count user_id) (p.conversations.update_ok _ _ _ t done)
            ∙ given_count guest_id user_id (p.conversations.rows w.db.conversations))
        λ _ v h. pure-Returns _ _ v h

  the_claims :
      (token : String) (claims c : GuestClaims)
      → p.parse_guest token ≡ ok claims
      → validate_guest p token ≡ ok c
      → c ≡ claims
  the_claims token claims c parsed valid = go (is_guest claims.token_type) (
      subst
        (λ r.
          elim r [
            | ok claims ↦ elim (is_guest claims.token_type) [
              | true ↦ ok claims
              | false ↦ err invalid_guest_token
            ]
            | err _ ↦ err invalid_guest_token
          ]
          ≡ ok c)
        parsed valid)
    where
      go :
          (b : Bool)
          → elim b [ true ↦ ok claims | false ↦ err invalid_guest_token ] ≡ ok c
          → c ≡ claims
      go true e = sym (ok_injective e)
      go false e = cc

  -- When `LinkGuest` returns, with the claims that the token carries: the user has as many open
  -- conversations as before, and as many more as the guest had that belonged to no user. A user who had one open conversation
  -- has two if the guest had one.
  pub link_guest-count :
      (user_id : ℕ) (token : String) (claims : GuestClaims) (ids : List ℕ) (w v : World p)
      → p.parse_guest token ≡ ok claims
      → link_guest p user_id token w ≡ (ok ids, v)
      → open_count user_id (p.conversations.rows v.db.conversations)
        ≡ open_count user_id (p.conversations.rows w.db.conversations)
          + open_guest_count claims.guest_id (p.conversations.rows w.db.conversations)
  unfolding link_guest
  link_guest-count user_id token claims ids w v parsed e = Returns-ok _ _ ids v e (
      lift_then _ _ _ w λ c valid.
        subst {A = GuestClaims}
          (λ c.
            Returns
              (λ _ v.
                open_count user_id (p.conversations.rows v.db.conversations)
                ≡ open_count user_id (p.conversations.rows w.db.conversations)
                  + open_guest_count claims.guest_id (p.conversations.rows w.db.conversations))
              (link_guest_conversations p c.guest_id user_id w))
          (sym (the_claims token claims c parsed valid))
          (link_guest_conversations-count claims.guest_id user_id w))
