-- ===== src/Broker/View.antt =====
-- broker/broker.go and broker/client.go: what of the broker's state has to do with who is subscribed
-- to what, and that the deliveries of messages leave it.
pub mod Writes
pub mod Infos
use hmq.Prelude.{
  ℕ, zero, suc, ◌≡◌, refl, sym, ap, ap₂, subst, ◌∙◌, Bool, true, false, Option, none, some, List,
  [], ◌∷◌, map, Bytes, inl, inr, Option-cases,
}
use hmq.Prelude.Assoc.{Assoc}
use hmq.Prelude.Heap.{get_elem?, modify}
use hmq.Client.{Client, Status, connected}
use hmq.Client.Link.{IsLive, Keeps}
use hmq.Topics.MemTopics.{MemTopics}
use hmq.Broker.{ClientType, Subscription, ClientObject, Broker, on_client, on_state}

pub record Link : Type 0 where
  pub typ : ClientType
  pub sub_map : Assoc Bytes ℕ
  pub status : Status
  pub conn : Bool

pub record View : Type 0 where
  pub topics : MemTopics
  pub subscriptions : List Subscription
  pub links : List Link

abbrev pub link : ClientObject → Link
link o = record { typ = o.typ; sub_map = o.sub_map; status = o.state.status; conn = o.state.conn }

abbrev pub view : Broker → View
view w = record { topics = w.topics; subscriptions = w.subscriptions; links = map link w.objects }

-- A client that is connected has a connection.
abbrev pub AreLive : List Link → Type 0
AreLive links =
    (a : ℕ) (l : Link) → get_elem? links a ≡ some l → l.status ≡ connected → l.conn ≡ true

pub get_elem?-link :
    (os : List ClientObject) (a : ℕ) (o : ClientObject)
    → get_elem? os a ≡ some o
    → get_elem? (map link os) a ≡ some (link o)
get_elem?-link [] a o h = cc
get_elem?-link (x ∷ os) zero o h = cc
get_elem?-link (x ∷ os) (suc a) o h = get_elem?-link os a o h

pub get_elem?-none :
    (os : List ClientObject) (a : ℕ) → get_elem? os a ≡ none → get_elem? (map link os) a ≡ none
get_elem?-none [] a h = refl
get_elem?-none (x ∷ os) zero h = cc
get_elem?-none (x ∷ os) (suc a) h = get_elem?-none os a h

-- A write to an object that shows as a write to its link.
pub map-modify :
    (f : ClientObject → ClientObject) (g : Link → Link) (os : List ClientObject) (a : ℕ)
    → ((o : ClientObject) → get_elem? os a ≡ some o → link (f o) ≡ g (link o))
    → map link (modify a f os) ≡ modify a g (map link os)
map-modify f g [] a h = refl
map-modify f g (x ∷ os) zero h = ap (λ l. l ∷ map link os) (h x refl)
map-modify f g (x ∷ os) (suc a) h = ap (◌∷◌ (link x)) (map-modify f g os a h)

modify-same : (ls : List Link) (a : ℕ) → modify a (λ l. l) ls ≡ ls
modify-same [] a = refl
modify-same (l ∷ ls) zero = refl
modify-same (l ∷ ls) (suc a) = ap (◌∷◌ l) (modify-same ls a)

pub on_client-link :
    (f : ClientObject → ClientObject) (g : Link → Link) (a : ℕ) (w : Broker)
    → ((o : ClientObject) → get_elem? w.objects a ≡ some o → link (f o) ≡ g (link o))
    → view (on_client a f w) ≡ record (view w) { links = modify a g (map link w.objects) }
on_client-link f g a w h =
    ap (λ (ls : List Link). record (view w) { links = ls }) (map-modify f g w.objects a h)

-- A write that the view does not show.
pub view-on_client :
    (f : ClientObject → ClientObject) (a : ℕ) (w : Broker)
    → ((o : ClientObject) → get_elem? w.objects a ≡ some o → link (f o) ≡ link o)
    → view (on_client a f w) ≡ view w
view-on_client f a w h =
    on_client-link f (λ l. l) a w h
    ∙ ap (λ (ls : List Link). record (view w) { links = ls }) (modify-same (map link w.objects) a)

link-on_state :
    (o : ClientObject) (c : Client) → Keeps o.state c → link (on_state (λ _. c) o) ≡ link o
link-on_state o c (s, n) =
    ap₂ (λ (s : Status) (n : Bool). record (link o) { status = s; conn = n }) s n

-- A call of the delivery state that keeps the connection of the client it is for.
pub view-on_state :
    (f : Client → Client) (a : ℕ) (w : Broker)
    → ((o : ClientObject) → get_elem? w.objects a ≡ some o → Keeps o.state (f o.state))
    → view (on_client a (on_state f) w) ≡ view w
view-on_state f a w k = view-on_client (on_state f) a w (λ o e. link-on_state o (f o.state) (k o e))

pub on_live :
    (f : Client → Client) (a : ℕ) (w : Broker)
    → AreLive (view w).links
    → ((c : Client) → IsLive c → Keeps c (f c))
    → view (on_client a (on_state f) w) ≡ view w
on_live f a w live k =
    view-on_state f a w (λ o e. k o.state (live a (link o) (get_elem?-link w.objects a o e)))
