-- ===== src/Broker/Agrees.antt =====
-- broker/client.go: the subscriptions in the store of topics and those in the maps of the clients
-- agree. The invariant, and the changes that the handlers are made of.
pub mod Links
pub mod Dropped
pub mod Drop
pub mod Add
pub mod Join
pub mod Steps
pub mod Remembered
pub mod Subscribing
pub mod Unsubscribing
pub mod Routing
pub mod Closing
pub mod Publishing
pub mod Messages
pub mod Joining
use hmq.Prelude.{ℕ, ◌≡◌, sym, ap, subst, ◌∙◌, Option, none, some, some_inj, List, Memᴰ, Bytes}
use hmq.Prelude.Heap.{get_elem?}
use hmq.Client.{connected}
use hmq.Topics.Value.{Value, subscription, subscription_inj}
use hmq.Topics.MemTopics.{MemTopics}
use hmq.Topics.MemTopics.Valid.{IsValid}
use hmq.Topics.MemTopics.Delivery.{Reads, HasFilter}
use hmq.Topics.MemTopics.Pointers.{Reads-unique}
use hmq.Broker.{ClientType, client, Subscription}
use hmq.Broker.View.{Link, View, AreLive}

-- The client at an address is connected and has the subscription in its map, under the text that it
-- asked for.
abbrev pub Owns : List Link → ℕ → Bytes → ℕ → Type 0
Owns links a t p =
    (l : Link) × (get_elem? links a ≡ some l) × (l.status ≡ connected) × Memᴰ (t, p) l.sub_map

abbrev pub IsClient : List Link → ℕ → Type 0
IsClient links a = (l : Link) × (get_elem? links a ≡ some l) × (l.typ ≡ client)

-- What the store has is a subscription under its own filter, and one of a client of the broker is
-- in the map of that client, which is connected.
abbrev pub Stored : View → List Bytes → Value → Type 0
Stored v ks x =
    (p : ℕ) × (s : Subscription) × (x ≡ subscription p)
    × (get_elem? v.subscriptions p ≡ some s)
    × Reads s.topic ks
    × (l : Link) × (get_elem? v.links s.client ≡ some l)
    × (l.typ ≡ client → (t : Bytes) × Owns v.links s.client t p)

-- What the map of a connected client has is a subscription of that client, and is in the store.
abbrev pub Kept : View → ℕ → ℕ → Type 0
Kept v a p =
    (s : Subscription) × (ks : List Bytes) × (get_elem? v.subscriptions p ≡ some s)
    × (s.client ≡ a)
    × Reads s.topic ks
    × HasFilter v.topics ks (subscription p)

pub record Agrees (v : View) : Type 0 where
  pub valid : IsValid v.topics
  pub live : AreLive v.links
  pub stored : (ks : List Bytes) (x : Value) → HasFilter v.topics ks x → Stored v ks x
  pub kept : (a : ℕ) (t : Bytes) (p : ℕ) → Owns v.links a t p → Kept v a p
  pub apart : (a : ℕ) (t t' : Bytes) (p : ℕ) → Owns v.links a t p → Owns v.links a t' p → t ≡ t'
  pub single :
      (a : ℕ) (t : Bytes) (p p' : ℕ)
      → IsClient v.links a
      → Owns v.links a t p
      → Owns v.links a t p'
      → p ≡ p'

-- A subscription stands under one filter only.
pub one_filter :
    (v : View) (p : ℕ) (s : Subscription) (fs : List Bytes)
    → Agrees v
    → get_elem? v.subscriptions p ≡ some s
    → Reads s.topic fs
    → (ks : List Bytes) → HasFilter v.topics ks (subscription p)
    → ks ≡ fs
one_filter v p s fs ag e r ks h =
    let (q, u, x, f, rk, m, em, own) = ag.stored ks (subscription p) h in
    let same : u ≡ s =
      some_inj (sym f ∙ ap (get_elem? v.subscriptions) (sym (subscription_inj x)) ∙ e) in
    Reads-unique s.topic ks fs (subst (λ (u : Subscription). Reads u.topic ks) same rk) r
