-- ===== src/Broker/Reachable.antt =====
-- broker/broker.go and broker/client.go: the states that a broker can get to, from its start by the
-- handlers of its connections, its clients' packets, its timers and its HTTP interface, in any order.
pub mod Publication
pub mod Panic
pub mod Delivered
pub mod Takeover
pub mod Subscribed
pub mod Unsubscribed
use hmq.Prelude.{
  ◌∷◌, Memᴰ, ℕ, ◌≡◌, refl, sym, subst, Bool, false, Option, none, some, List, [], Bytes,
}
use mathlib.Core.List.Memᴰ
use hmq.Prelude.Assoc.{Assoc}
use hmq.Client.{ControlPacket}
use hmq.Client.Link.{retry_delivery-Keeps, expire_awaiting_rel-Keeps}
use hmq.Client.Incoming.{expire_awaiting_rel}
use hmq.Client.Outgoing.{retry_delivery}
use hmq.Topics.Tree.{get_child}
use hmq.Topics.Value.{Value}
use hmq.Topics.MemTopics.{new_mem_provider}
use hmq.Topics.MemTopics.Delivery.{HasFilter}
use hmq.Topics.MemTopics.Valid.{new_mem_provider-IsValid}
use hmq.Broker.{ClientType, Broker, Env, new_broker, on_client, on_state}
use hmq.Broker.Close.{close}
use hmq.Broker.Connect.{handle_connection}
use hmq.Broker.Dialled.{dialled_discovery, dialled_router, ping}
use hmq.Broker.Message.{take_will, process_message}
use hmq.Broker.View
use hmq.Broker.View.{view, on_live, view-on_client}
use hmq.Broker.Agrees.{Agrees}
use hmq.Broker.Agrees.Closing.{close-Keeps}
use hmq.Broker.Agrees.Joining.{
  handle_connection-Agrees, dialled_discovery-Keeps, dialled_router-Keeps, ping-Keeps,
}
use hmq.Broker.Agrees.Messages.{process_message-Agrees, take_will-link}
use hmq.Broker.Agrees.Steps.{quiet-Agrees}

-- A step may have surroundings of its own. What readLoop does with a packet, and what a worker does
-- with it later, are two steps; a packet that cannot be read is a DISCONNECT. The HTTP interface
-- closes clients too. No step leads behind a panic.
pub data Step : Broker → Broker → Type 0 where
  connects :
      (env : Env) (typ : ClientType) (remote_ip : Bytes) (code : ℕ) (written : Bool)
      (packet : Option ControlPacket) (w : Broker)
      → (handle_connection env typ remote_ip code written packet w).0.panicked ≡ false
      → Step w (handle_connection env typ remote_ip code written packet w).0
  reads : (packet : ControlPacket) (a : ℕ) (w : Broker) → Step w (on_client a (take_will packet) w)
  processes :
      (env : Env) (parse : Bytes → Option (Assoc Bytes (Option Bytes))) (a : ℕ)
      (packet : ControlPacket) (w w' : Broker)
      → process_message env parse a packet w ≡ some w'
      → Step w w'
  retries :
      (env : Env) (a : ℕ) (w : Broker)
      → Step w (on_client a (on_state (retry_delivery (env.network a) env.now)) w)
  expires : (now a : ℕ) (w : Broker) → Step w (on_client a (on_state (expire_awaiting_rel now)) w)
  closes : (env : Env) (a : ℕ) (w : Broker) → Step w (close env a w)
  pings : (env : Env) (a : ℕ) (w : Broker) → Step w (ping env a w)
  finds_discovery :
      (env : Env) (remote_ip url : Bytes) (w : Broker)
      → Step w (dialled_discovery env remote_ip url w)
  finds_router :
      (env : Env) (id addr client_id remote_ip : Bytes) (w : Broker)
      → Step w (dialled_router env id addr client_id remote_ip w)

pub data Reachable : Broker → Type 0 where
  start : (id : Bytes) → Reachable (new_broker id)
  next : {w w' : Broker} → Reachable w → Step w w' → Reachable w'

no_filter : (ks : List Bytes) (x : Value) → ¬ HasFilter new_mem_provider ks x
unfolding get_child
no_filter [] x h = Memᴰ.not-nil h
no_filter (k ∷ ks) x h = Memᴰ.not-nil h

new_broker-Agrees : (id : Bytes) → Agrees (view (new_broker id))
unfolding new_broker
new_broker-Agrees id = record {
  valid = new_mem_provider-IsValid;
  live = λ a l h. absurd (missing h);
  stored = λ ks x h. absurd (no_filter ks x h);
  kept = λ a t p o. absurd (missing o.1);
  apart = λ a t t' p o o'. absurd (missing o.1);
  single = λ a t p p' c o o'. absurd (missing o.1);
}
  where
    missing : {l : View.Link} → ¬ (none ≡ some l)
    missing q = cc

Step-Agrees : {w w' : Broker} → Step w w' → Agrees (view w) → Agrees (view w')
Step-Agrees (connects env typ ip code written packet w h) ag =
    handle_connection-Agrees env typ ip code written packet w ag
Step-Agrees (reads packet a w) ag =
    subst Agrees (sym (view-on_client (take_will packet) a w (λ o e. take_will-link packet o))) ag
Step-Agrees (processes env parse a packet w w' h) ag =
    process_message-Agrees env parse a packet w w' ag h
Step-Agrees (retries env a w) ag =
    quiet-Agrees (on_client a (on_state (retry_delivery (env.network a) env.now))) w
      (λ w live.
        on_live (retry_delivery (env.network a) env.now) a w live
          (λ c l. retry_delivery-Keeps (env.network a) env.now c l))
      ag
Step-Agrees (expires now a w) ag =
    quiet-Agrees (on_client a (on_state (expire_awaiting_rel now))) w
      (λ w live.
        on_live (expire_awaiting_rel now) a w live (λ c l. expire_awaiting_rel-Keeps now c))
      ag
Step-Agrees (closes env a w) ag = close-Keeps env a w ag
Step-Agrees (pings env a w) ag = ping-Keeps env a w ag
Step-Agrees (finds_discovery env ip url w) ag = dialled_discovery-Keeps env ip url w ag
Step-Agrees (finds_router env id addr cid ip w) ag = dialled_router-Keeps env id addr cid ip w ag

-- In every state that a broker can get to, by connections, packets, timers, pings, dials and closes in any
-- order, the store of topics and the maps of the clients agree: what is in the store is a
-- subscription under its own filter, and if it is of a client, that client is connected and has it
-- in its map; what a connected client has in its map is in the store; and a client that is
-- connected has a connection.
pub Reachable-Agrees : {w : Broker} → Reachable w → Agrees (view w)
Reachable-Agrees (start id) = new_broker-Agrees id
Reachable-Agrees (next r s) = Step-Agrees s (Reachable-Agrees r)
