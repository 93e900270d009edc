-- ===== src/Chat/Hub/Steps.antt =====
-- What the hub goes through, one critical section after the other.
use auto_store_api.Prelude.{⊤, ℕ, ◌≡◌, false, some, String, option_injective, ◌∙◌, sym, subst}
use auto_store_api.Chat.Hub.{Hub, new_hub, register, subscribe, remove_client, broadcast}
use auto_store_api.Chat.Hub.Live.{
  IsLive, MaySubscribe, register-IsLive, subscribe-IsLive, remove_client-IsLive, broadcast-IsLive,
}

-- A client connects, subscribes, or leaves, be it for its connection, its pumps or a full channel; and a
-- message is sent. None of them asks what the client did before.
pub data Step : Hub → Hub → Type 0 where
  connect : (h : Hub) (c : ℕ) → Step h (register c h)
  follow : (h : Hub) (c conv : ℕ) → Step h (subscribe c conv h)
  leave : (h : Hub) (c : ℕ) → Step h (remove_client c h)
  send : (h h' : Hub) (conv : ℕ) (payload : String) → broadcast conv payload h ≡ some h' → Step h h'

-- The states that such steps lead to from a new hub.
pub data Reached : Hub → Type 0 where
  start : Reached new_hub
  next : (h h' : Hub) → Reached h → Step h h' → Reached h'

-- A client that connects has an open channel; one that subscribes is still registered, and names no other
-- conversation than before.
abbrev IsFair : (h h' : Hub) → Step h h' → Type 0
IsFair h _ (Step.connect _ c) = (h.channel c).closed ≡ false
IsFair h _ (Step.follow _ c conv) = MaySubscribe c conv h
IsFair h _ (Step.leave _ c) = ⊤
IsFair h h' (Step.send _ _ conv payload e) = ⊤

abbrev pub IsOrderly : (h : Hub) → Reached h → Type 0
IsOrderly _ Reached.start = ⊤
IsOrderly _ (Reached.next h h' r s) = IsOrderly h r × IsFair h h' s

Step-IsLive : (h h' : Hub) (s : Step h h') → IsFair h h' s → IsLive h → IsLive h'
Step-IsLive h _ (Step.connect _ c) o l = register-IsLive c h o l
Step-IsLive h _ (Step.follow _ c conv) f l = subscribe-IsLive c conv h f l
Step-IsLive h _ (Step.leave _ c) _ l = remove_client-IsLive c h l
Step-IsLive h h' (Step.send _ _ conv payload e) _ l =
    let (h1, run, live) = broadcast-IsLive conv payload h l in
    subst IsLive (option_injective (sym run ∙ e)) live

Reached-IsLive : (h : Hub) (r : Reached h) → IsOrderly h r → IsLive h
Reached-IsLive _ Reached.start o = record { entries = tt; open_clients = tt }
Reached-IsLive _ (Reached.next h h' r s) (o, f) = Step-IsLive h h' s f (Reached-IsLive h r o)

-- In every state that is reached by steps in which clients connect with an open channel, and subscribe only
-- while they are registered and to one conversation each: whoever is subscribed to a conversation
-- is registered, with an open channel, and subscribed to no other; no conversation is kept without a subscriber;
-- and a `Broadcast` to any conversation does not panic.
pub Reached-broadcast :
    (h : Hub) (conv : ℕ) (payload : String) (r : Reached h)
    → IsOrderly h r
    → IsLive h × ((h' : Hub) × (broadcast conv payload h ≡ some h') × IsLive h')
Reached-broadcast h conv payload r o =
    let l = Reached-IsLive h r o in (l, broadcast-IsLive conv payload h l)
