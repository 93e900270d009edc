-- ===== src/Chat/Hub.antt =====
-- The hub of the websocket clients: internal/chat/hub.go. A client is a number, which stands for its
-- pointer. The hub's mutex makes each operation one step. What a client's fields hold is part of the
-- state: the conversation that it subscribed to last, and its channel `send`.
pub mod Live
pub mod Steps
pub mod Leaked
use auto_store_api.Prelude.{
  ℕ, Bool, true, false, Option, none, some, List, [], ◌∷◌, ◌++◌, String, ◌==◌, ltb, length, not,
  ◌&&◌, ◌||◌, if◌then◌else◌,
}

-- The channel `send`, which holds 16 payloads.
pub record Channel : Type 0 where
  pub queue : List String
  pub closed : Bool

abbrev pub capacity : ℕ
capacity = 16

-- `Hub`: the set `clients`, the map `subscribers` from conversations to sets of clients, the fields of
-- the clients, and the calls of `removeClient` that wait in goroutines.
pub record Hub : Type 0 where
  pub clients : List ℕ
  pub subscribers : List (ℕ × List ℕ)
  pub conversation : ℕ → ℕ
  pub channel : ℕ → Channel
  pub removals : List ℕ

-- Sets of clients.
abbrev pub member : ℕ → List ℕ → Bool
member c [] = false
member c (x ∷ xs) = (x == c) || member c xs

abbrev pub insert : ℕ → List ℕ → List ℕ
insert c xs = if member c xs then xs else c ∷ xs

abbrev pub without : ℕ → List ℕ → List ℕ
without c [] = []
without c (x ∷ xs) = if x == c then without c xs else x ∷ without c xs

abbrev pub is_nil : List ℕ → Bool
is_nil [] = true
is_nil (_ ∷ _) = false

abbrev pub set_at : {A : Type 0} → ℕ → A → (ℕ → A) → ℕ → A
set_at k v f j = if j == k then v else f j

-- `h.subscribers[conversationID]`; a set that is missing is empty.
abbrev pub subscribers_of : ℕ → List (ℕ × List ℕ) → List ℕ
subscribers_of conv [] = []
subscribers_of conv ((k, subs) ∷ m) = if k == conv then subs else subscribers_of conv m

abbrev pub add_subscriber : ℕ → ℕ → List (ℕ × List ℕ) → List (ℕ × List ℕ)
add_subscriber conv c [] = (conv, c ∷ []) ∷ []
add_subscriber conv c ((k, subs) ∷ m) =
    if k == conv then (k, insert c subs) ∷ m else (k, subs) ∷ add_subscriber conv c m

-- An entry that is left with no client is deleted.
abbrev pub keep_entry : ℕ → List ℕ → List (ℕ × List ℕ) → List (ℕ × List ℕ)
keep_entry k subs m = if is_nil subs then m else (k, subs) ∷ m

abbrev pub drop_subscriber : ℕ → ℕ → List (ℕ × List ℕ) → List (ℕ × List ℕ)
drop_subscriber conv c [] = []
drop_subscriber conv c ((k, subs) ∷ m) =
    if k == conv
    then keep_entry k (without c subs) (drop_subscriber conv c m)
    else (k, subs) ∷ drop_subscriber conv c m

abbrev pub new_hub : Hub
new_hub = record {
  clients = [];
  subscribers = [];
  conversation = λ _. 0;
  channel = λ _. record { queue = []; closed = false };
  removals = [];
}

-- `Register`
unfoldable pub register : ℕ → Hub → Hub
register c h = record h { clients = insert c h.clients }

-- `Subscribe`
unfoldable pub subscribe : ℕ → ℕ → Hub → Hub
subscribe c conv h = record h {
  conversation = set_at c conv h.conversation;
  subscribers = add_subscriber conv c h.subscribers;
}

abbrev close : Channel → Channel
close ch = record ch { closed = true }

-- `removeClient` for a client that is registered.
abbrev pub drop_client : ℕ → Hub → Hub
drop_client c h = record h {
  clients = without c h.clients;
  subscribers =
      if h.conversation c == 0
      then h.subscribers
      else drop_subscriber (h.conversation c) c h.subscribers;
  channel = set_at c (close (h.channel c)) h.channel;
}

-- `removeClient`
unfoldable pub remove_client : ℕ → Hub → Hub
remove_client c h = if member c h.clients then drop_client c h else h

-- The `select` of `Broadcast` for one client: a full channel starts a removal.
abbrev pub offer : ℕ → String → Hub → Hub
offer c payload h =
    if ltb (length (h.channel c).queue) capacity
    then record h {
      channel =
          set_at c (record (h.channel c) { queue = (h.channel c).queue ++ payload ∷ [] }) h.channel;
    }
    else record h { removals = c ∷ h.removals }

-- The loop of `Broadcast`. A send on a closed channel panics, also in a `select`: `none`.
unfoldable pub deliver : String → List ℕ → Hub → Option Hub
deliver payload [] h = some h
deliver payload (c ∷ cs) h = elim (h.channel c).closed [
  | true ↦ none
  | false ↦ deliver payload cs (offer c payload h)
]

-- `Broadcast`
unfoldable pub broadcast : ℕ → String → Hub → Option Hub
unfolding deliver
broadcast conv payload h = deliver payload (subscribers_of conv h.subscribers) h
