-- ===== src/Chat/Hub/Leaked.antt =====
-- Clients that stay subscribed after they have left: one that follows two conversations, and one that subscribes late.
use auto_store_api.Prelude.{
  ℕ, ◌≡◌, ◌≢◌, refl, sym, ◌∙◌, ap, Bool, true, false, none, List, [], ◌∷◌, ◌==◌, ==_self, ne→==,
  ==→eq, Bool-cases, inl, inr, String, arith, if◌then◌else◌, subst, ◌||◌, ltb, length, ◌++◌,
}
use auto_store_api.Chat.Hub.Live.{deliver_open}
use auto_store_api.Chat.Hub.{
  Hub, Channel, member, without, set_at, subscribers_of, add_subscriber, drop_subscriber,
  keep_entry, subscribe, remove_client, drop_client, offer, deliver, broadcast, capacity,
}

added :
    (conv c : ℕ) (m : List (ℕ × List ℕ))
    → member c (subscribers_of conv (add_subscriber conv c m)) ≡ true
added conv c [] = ground arith
added conv c ((k, subs) ∷ m) = ground (arith, added conv c m)

added_elsewhere :
    (conv other c : ℕ) (m : List (ℕ × List ℕ))
    → conv ≢ other
    → subscribers_of conv (add_subscriber other c m) ≡ subscribers_of conv m
added_elsewhere conv other c [] ne = ground arith
added_elsewhere conv other c ((k, subs) ∷ m) ne = ground (arith, added_elsewhere conv other c m ne)

kept_elsewhere :
    (conv k : ℕ) (subs : List ℕ) (m : List (ℕ × List ℕ))
    → (k == conv) ≡ false
    → subscribers_of conv (keep_entry k subs m) ≡ subscribers_of conv m
kept_elsewhere conv k [] m e = refl
kept_elsewhere conv k (d ∷ subs) m e = rw e refl

dropped_elsewhere :
    (conv other c : ℕ) (m : List (ℕ × List ℕ))
    → conv ≢ other
    → subscribers_of conv (drop_subscriber other c m) ≡ subscribers_of conv m
dropped_elsewhere conv other c [] ne = refl
dropped_elsewhere conv other c ((k, subs) ∷ m) ne = elim (Bool-cases (k == other)) [
  | inl e ↦ rw e (at_other e (dropped_elsewhere conv other c m ne))
  | inr e ↦ rw e (ground (arith, dropped_elsewhere conv other c m ne))
]
  where
    at_other :
        (k == other) ≡ true
        → subscribers_of conv (drop_subscriber other c m) ≡ subscribers_of conv m
        → subscribers_of conv (keep_entry k (without c subs) (drop_subscriber other c m))
          ≡ (if k == conv then subs else subscribers_of conv m)
    at_other e rest =
        let away : (k == conv) ≡ false = ne→== _ _ (λ same. ne (sym same ∙ ==→eq _ _ e)) in
        rw away (kept_elsewhere conv k (without c subs) _ away ∙ rest)

offer-closed :
    (d c : ℕ) (payload : String) (h : Hub)
    → ((offer d payload h).channel c).closed ≡ (h.channel c).closed
offer-closed d c payload h = elim (Bool-cases (ltb (length (h.channel d).queue) capacity)) [
  | inl e ↦ rw e (at (c == d) refl)
  | inr e ↦ rw e refl
]
  where
    at :
        (b : Bool)
        → (c == d) ≡ b
        → (if b
            then record (h.channel d) { queue = (h.channel d).queue ++ payload ∷ [] }
            else h.channel c).closed
          ≡ (h.channel c).closed
    at true e = ap (λ j. (h.channel j).closed) (sym (==→eq _ _ e))
    at false e = refl

panics :
    (payload : String) (d : ℕ) (subs : List ℕ) (h : Hub)
    → (h.channel d).closed ≡ true
    → deliver payload (d ∷ subs) h ≡ none
unfolding deliver
panics payload d subs h k =
    λ i. elim (k i) [ true ↦ none | false ↦ deliver payload subs (offer d payload h) ]

contradiction : {b : Bool} → b ≡ true → b ≡ false → ⊥
contradiction h g = cc

-- A closed channel among the subscribers makes the loop panic.
deliver_closed :
    (payload : String) (c : ℕ) (subs : List ℕ) (h : Hub)
    → member c subs ≡ true
    → (h.channel c).closed ≡ true
    → deliver payload subs h ≡ none
deliver_closed payload c [] h m k = cc
deliver_closed payload c (d ∷ subs) h m k = elim (Bool-cases (h.channel d).closed) [
  | inl e ↦ panics payload d subs h e
  | inr e ↦
      deliver_open payload d subs h e
      ∙ deliver_closed payload c subs (offer d payload h) (later e) (offer-closed d c payload h ∙ k)
]
  where
    later : (h.channel d).closed ≡ false → member c subs ≡ true
    later e = elim (Bool-cases (d == c)) [
      | inl same ↦
          absurd (contradiction k (ap (λ j. (h.channel j).closed) (sym (==→eq _ _ same)) ∙ e))
      | inr other ↦ subst (λ b. (b || member c subs) ≡ true) other m
    ]

still_there :
    (c a b x : ℕ) (m : List (ℕ × List ℕ))
    → a ≢ b
    → b ≢ 0
    → x ≡ b
    → member c (
        subscribers_of a (
          if x == 0
          then add_subscriber b c (add_subscriber a c m)
          else drop_subscriber x c (add_subscriber b c (add_subscriber a c m))))
      ≡ true
still_there c a b x m ne nz e =
    let some_ : (x == 0) ≡ false = ne→== _ _ (λ z. nz (sym e ∙ z)) in
    let both =
      dropped_elsewhere a x c (add_subscriber b c (add_subscriber a c m)) (λ same. ne (same ∙ e)) in
    rw some_ (ap (member c) (both ∙ added_elsewhere a b c (add_subscriber a c m) ne) ∙ added a c m)

-- A client that subscribes to a conversation and then to another one, and leaves, is never taken off the
-- first: its channel is closed, and the next `Broadcast` to the first conversation panics.
pub broadcast_panics :
    (c a b : ℕ) (payload : String) (h : Hub)
    → member c h.clients ≡ true
    → a ≢ b
    → b ≢ 0
    → broadcast a payload (remove_client c (subscribe c b (subscribe c a h))) ≡ none
unfolding broadcast remove_client subscribe
broadcast_panics c a b payload h m ne nz = rw m (
    deliver_closed payload c _ (drop_client c (subscribe c b (subscribe c a h)))
      (still_there c a b _ h.subscribers ne nz
        (ap (λ t. if t then b else set_at c a h.conversation c) (==_self c)))
      (ap (λ (t : Bool). (if t then close_at else (h.channel c)).closed) (==_self c)))
  where
    close_at : Channel
    close_at = record (h.channel c) { closed = true }

-- A client that is removed, as a full channel does or the end of its writing, and then subscribes to any conversation
-- is taken for a subscriber although its channel is closed: the next `Broadcast` to the conversation panics.
pub late_subscribe_panics :
    (c conv : ℕ) (payload : String) (h : Hub)
    → member c h.clients ≡ true
    → broadcast conv payload (subscribe c conv (remove_client c h)) ≡ none
unfolding broadcast remove_client subscribe
late_subscribe_panics c conv payload h m = rw m (
    deliver_closed payload c _ (subscribe c conv (drop_client c h))
      (added conv c (drop_client c h).subscribers)
      (ap (λ (t : Bool). (if t then close_at else (h.channel c)).closed) (==_self c)))
  where
    close_at : Channel
    close_at = record (h.channel c) { closed = true }
