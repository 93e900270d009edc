-- ===== src/Chat/Hub/Live.antt =====
-- The hub is sound: whoever is subscribed is registered, can be sent to, and is found again when it leaves.
use auto_store_api.Prelude.{
  ℕ, ◌≡◌, ◌≢◌, refl, true, false, some, none, List, [], ◌∷◌, ◌==◌, ==→eq, ==→ne, ne→==, ==_self,
  ◌⊎◌, ltb, length, ◌++◌, All, arith, Bool-cases, inl, inr, String, if◌then◌else◌, ◌||◌, sym, subst,
  ap, ◌∙◌,
}
use auto_store_api.Chat.Hub.{
  Hub, Channel, capacity, member, insert, without, is_nil, set_at, subscribers_of, add_subscriber,
  drop_subscriber, keep_entry, register, subscribe, remove_client, drop_client, offer, deliver,
  broadcast,
}

-- A client is registered, its channel is open, and it subscribed to this conversation last.
abbrev pub IsSubscribed : Hub → ℕ → ℕ → Type 0
IsSubscribed h conv c =
    (member c h.clients ≡ true) × ((h.channel c).closed ≡ false) × (h.conversation c ≡ conv)

-- An entry of the map: a conversation that is not `Nil`, with a subscriber at least.
abbrev pub IsEntry : Hub → ℕ × List ℕ → Type 0
IsEntry h (conv, subs) = (conv ≢ 0) × (is_nil subs ≡ false) × All (IsSubscribed h conv) subs

pub record IsLive (h : Hub) : Type 0 where
  pub entries : All (IsEntry h) h.subscribers
  pub open_clients : All (λ c. (h.channel c).closed ≡ false) h.clients

module _ {A : Type 0} where
  pub All-mono : (P Q : A → Type 0) (xs : List A) → ((x : A) → P x → Q x) → All P xs → All Q xs
  All-mono P Q [] f h = tt
  All-mono P Q (x ∷ xs) f h = (f x h.0, All-mono P Q xs f h.1)

All-member : (P : ℕ → Type 0) (c : ℕ) (xs : List ℕ) → All P xs → member c xs ≡ true → P c
All-member P c [] h m = absurd cc
All-member P c (x ∷ xs) h m = elim (Bool-cases (x == c)) [
  | inl e ↦ subst P (==→eq _ _ e) h.0
  | inr e ↦ All-member P c xs h.1 (subst (λ b. (b || member c xs) ≡ true) e m)
]

member-insert : (c d : ℕ) (xs : List ℕ) → member d xs ≡ true → member d (insert c xs) ≡ true
member-insert c d xs h = ground arith

member-insert_self : (c : ℕ) (xs : List ℕ) → member c (insert c xs) ≡ true
member-insert_self c xs = ground arith

member-without :
    (c d : ℕ) (xs : List ℕ) → d ≢ c → member d xs ≡ true → member d (without c xs) ≡ true
member-without c d [] ne h = h
member-without c d (x ∷ xs) ne h = ground (arith, member-without c d xs ne)

All-without :
    (P : ℕ → Type 0) (c : ℕ) (xs : List ℕ) → All P xs → All (λ d. P d × (d ≢ c)) (without c xs)
All-without P c [] h = tt
All-without P c (x ∷ xs) h = elim (Bool-cases (x == c)) [
  | inl e ↦ rw e (All-without P c xs h.1)
  | inr e ↦ rw e ((h.0, ==→ne _ _ e), All-without P c xs h.1)
]

All-insert : (P : ℕ → Type 0) (c : ℕ) (xs : List ℕ) → P c → All P xs → All P (insert c xs)
All-insert P c xs p h = elim (Bool-cases (member c xs)) [ inl e ↦ rw e h | inr e ↦ rw e (p, h) ]

pub register-IsLive :
    (c : ℕ) (h : Hub) → (h.channel c).closed ≡ false → IsLive h → IsLive (register c h)
unfolding register
register-IsLive c h open_ l = record {
  entries =
      All-mono (IsEntry h) _ h.subscribers
        (λ (k, subs) (ne, some_, all). (
          ne,
          some_,
          All-mono _ _ subs (λ d (m, o, at). (member-insert c d h.clients m, o, at)) all,
        ))
        l.entries;
  open_clients = All-insert _ c h.clients open_ l.open_clients;
}

add_subscriber-IsEntry :
    (h : Hub) (conv c : ℕ) (m : List (ℕ × List ℕ))
    → conv ≢ 0
    → IsSubscribed h conv c
    → All (IsEntry h) m
    → All (IsEntry h) (add_subscriber conv c m)
add_subscriber-IsEntry h conv c [] ne s all = ((ne, refl, (s, tt)), tt)
add_subscriber-IsEntry h conv c ((k, subs) ∷ m) ne s ((nk, some_, subscribed), rest) =
    elim (Bool-cases (k == conv)) [
      | inl e ↦ rw e (
        (
          nk,
          insert_some c subs some_,
          All-insert _ c subs (subst (λ j. IsSubscribed h j c) (sym (==→eq _ _ e)) s) subscribed,
        ),
        rest,
      )
      | inr e ↦ rw e ((nk, some_, subscribed), add_subscriber-IsEntry h conv c m ne s rest)
    ]
  where
    insert_some : (c : ℕ) (xs : List ℕ) → is_nil xs ≡ false → is_nil (insert c xs) ≡ false
    insert_some c xs h = ground arith

-- A client that is registered and has not subscribed, or to this conversation, which is not `Nil`.
abbrev pub MaySubscribe : ℕ → ℕ → Hub → Type 0
MaySubscribe c conv h =
    (member c h.clients ≡ true) × (conv ≢ 0) × ((h.conversation c ≡ 0) ⊎ (h.conversation c ≡ conv))

still_subscribed :
    (h : Hub) (c conv k d : ℕ)
    → (h.conversation c ≡ 0) ⊎ (h.conversation c ≡ conv)
    → k ≢ 0
    → h.conversation d ≡ k
    → set_at c conv h.conversation d ≡ k
still_subscribed h c conv k d f ne at = elim (Bool-cases (d == c)) [
  | inl e ↦ rw e (same f (ap h.conversation (==→eq _ _ e)))
  | inr e ↦ rw e at
]
  where
    same :
        (h.conversation c ≡ 0) ⊎ (h.conversation c ≡ conv)
        → h.conversation d ≡ h.conversation c
        → conv ≡ k
    same (inl z) q = absurd (ne (sym at ∙ q ∙ z))
    same (inr r) q = sym r ∙ sym q ∙ at

pub subscribe-IsLive :
    (c conv : ℕ) (h : Hub) → MaySubscribe c conv h → IsLive h → IsLive (subscribe c conv h)
unfolding subscribe
subscribe-IsLive c conv h (m, ne, f) l = record {
  entries =
      add_subscriber-IsEntry (subscribe c conv h) conv c h.subscribers ne
        (
          m,
          All-member _ c h.clients l.open_clients m,
          ap (λ b. if b then conv else h.conversation c) (==_self c),
        )
        (All-mono (IsEntry h) _ h.subscribers
          (λ (k, subs) (nk, some_, all). (
            nk,
            some_,
            All-mono _ _ subs (λ d (m, o, at). (m, o, still_subscribed h c conv k d f nk at)) all,
          ))
          l.entries);
  open_clients = l.open_clients;
}

-- The clients but one.
abbrev closed_at : ℕ → (ℕ → Channel) → ℕ → Channel
closed_at c ch = set_at c (record (ch c) { closed = true }) ch

others_open :
    (h : Hub) (c d : ℕ)
    → d ≢ c
    → (h.channel d).closed ≡ false
    → (closed_at c h.channel d).closed ≡ false
others_open h c d ne o = rw (ne→== d c ne) o

kept : (h : Hub) (c k d : ℕ) → d ≢ c → IsSubscribed h k d → IsSubscribed (drop_client c h) k d
kept h c k d ne (m, o, at) = (member-without c d h.clients ne m, others_open h c d ne o, at)

keep_entry-IsEntry :
    (h : Hub) (k : ℕ) (subs : List ℕ) (m : List (ℕ × List ℕ))
    → k ≢ 0
    → All (IsSubscribed h k) subs
    → All (IsEntry h) m
    → All (IsEntry h) (keep_entry k subs m)
keep_entry-IsEntry h k [] m ne all rest = rest
keep_entry-IsEntry h k (d ∷ subs) m ne all rest = ((ne, refl, all), rest)

drop_subscriber-IsEntry :
    (h : Hub) (c : ℕ) (m : List (ℕ × List ℕ))
    → All (IsEntry h) m
    → All (IsEntry (drop_client c h)) (drop_subscriber (h.conversation c) c m)
drop_subscriber-IsEntry h c [] all = tt
drop_subscriber-IsEntry h c ((k, subs) ∷ m) ((ne, some_, all), rest) =
    elim (Bool-cases (k == h.conversation c)) [
      | inl e ↦ rw e (
          keep_entry-IsEntry (drop_client c h) k (without c subs) _ ne
            (All-mono _ _ (without c subs) (λ d (s, other). kept h c k d other s)
              (All-without _ c subs all))
            (drop_subscriber-IsEntry h c m rest))
      | inr e ↦ rw e (
        (
          ne,
          some_,
          All-mono _ _ subs
              (λ d s.
                kept h c k d (λ same. ==→ne _ _ e (sym (ap h.conversation (sym same) ∙ s.2))) s)
              all,
        ),
        drop_subscriber-IsEntry h c m rest,
      )
    ]

unsubscribed-IsEntry :
    (h : Hub) (c : ℕ) (m : List (ℕ × List ℕ))
    → h.conversation c ≡ 0
    → All (IsEntry h) m
    → All (IsEntry (drop_client c h)) m
unsubscribed-IsEntry h c m z all =
    All-mono (IsEntry h) _ m
      (λ (k, subs) (ne, some_, all). (
        ne,
        some_,
        All-mono _ _ subs
            (λ d s. kept h c k d (λ same. ne (sym s.2 ∙ ap h.conversation same ∙ z)) s) all,
      ))
      all

drop_client-IsLive : (c : ℕ) (h : Hub) → IsLive h → IsLive (drop_client c h)
drop_client-IsLive c h l = record {
  entries = elim (Bool-cases (h.conversation c == 0)) [
    | inl e ↦ rw e (unsubscribed-IsEntry h c h.subscribers (==→eq _ _ e) l.entries)
    | inr e ↦ rw e (drop_subscriber-IsEntry h c h.subscribers l.entries)
  ];
  open_clients =
      All-mono _ _ (without c h.clients) (λ d (o, other). others_open h c d other o)
        (All-without _ c h.clients l.open_clients);
}

pub remove_client-IsLive : (c : ℕ) (h : Hub) → IsLive h → IsLive (remove_client c h)
unfolding remove_client
remove_client-IsLive c h l = elim (Bool-cases (member c h.clients)) [
  | inl e ↦ rw e (drop_client-IsLive c h l)
  | inr e ↦ rw e l
]

offer-IsLive : (c : ℕ) (payload : String) (h : Hub) → IsLive h → IsLive (offer c payload h)
offer-IsLive c payload h l = elim (Bool-cases (ltb (length (h.channel c).queue) capacity)) [
  | inl e ↦ rw e (record {
    entries =
        All-mono (IsEntry h) _ h.subscribers
          (λ (k, subs) (ne, some_, all).
            (ne, some_, All-mono _ _ subs (λ d (m, o, at). (m, same_closed c d o, at)) all))
          l.entries;
    open_clients = All-mono _ _ h.clients (λ d o. same_closed c d o) l.open_clients;
  })
  | inr e ↦ rw e (record { entries = l.entries; open_clients = l.open_clients })
]
  where
    same_closed :
        (c d : ℕ)
        → (h.channel d).closed ≡ false
        → (set_at c
            (record (h.channel c) { queue = (h.channel c).queue ++ payload ∷ [] })
            h.channel
            d).closed
          ≡ false
    same_closed c d o = elim (Bool-cases (d == c)) [
      | inl e ↦ rw e (ap (λ j. (h.channel j).closed) (sym (==→eq _ _ e)) ∙ o)
      | inr e ↦ rw e o
    ]

offer-clients : (c : ℕ) (payload : String) (h : Hub) → (offer c payload h).clients ≡ h.clients
offer-clients c payload h = ground arith

pub deliver_open :
    (payload : String) (c : ℕ) (cs : List ℕ) (h : Hub)
    → (h.channel c).closed ≡ false
    → deliver payload (c ∷ cs) h ≡ deliver payload cs (offer c payload h)
unfolding deliver
deliver_open payload c cs h o =
    λ i. elim (o i) [ true ↦ none | false ↦ deliver payload cs (offer c payload h) ]

-- Whom `deliver` reaches is registered, so no send panics.
deliver-IsLive :
    (payload : String) (subs : List ℕ) (h : Hub)
    → IsLive h
    → All (λ c. member c h.clients ≡ true) subs
    → (h' : Hub) × (deliver payload subs h ≡ some h') × IsLive h'
unfolding deliver
deliver-IsLive payload [] h l all = (h, refl, l)
deliver-IsLive payload (c ∷ cs) h l (m, all) =
    let o = All-member _ c h.clients l.open_clients m in
    let (h', run, l') =
      deliver-IsLive payload cs (offer c payload h) (offer-IsLive c payload h l)
        (All-mono _ _ cs (λ d m. ap (member d) (offer-clients c payload h) ∙ m) all) in
    (h', deliver_open payload c cs h o ∙ run, l')

subscribers-registered :
    (h : Hub) (conv : ℕ) (m : List (ℕ × List ℕ))
    → All (IsEntry h) m
    → All (λ c. member c h.clients ≡ true) (subscribers_of conv m)
subscribers-registered h conv [] all = tt
subscribers-registered h conv ((k, subs) ∷ m) ((ne, some_, all), rest) =
    elim (Bool-cases (k == conv)) [
      | inl e ↦ rw e (All-mono _ _ subs (λ d s. s.0) all)
      | inr e ↦ rw e (subscribers-registered h conv m rest)
    ]

pub broadcast-IsLive :
    (conv : ℕ) (payload : String) (h : Hub)
    → IsLive h
    → (h' : Hub) × (broadcast conv payload h ≡ some h') × IsLive h'
unfolding broadcast
broadcast-IsLive conv payload h l =
    deliver-IsLive payload (subscribers_of conv h.subscribers) h l
      (subscribers-registered h conv h.subscribers l.entries)
