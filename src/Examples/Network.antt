-- ===== src/Examples/Network.antt =====
-- broker/broker.go and broker/client.go: a client that connects, subscribes and gets a message.
use hmq.Prelude.{
  ◌≢◌, ◌↔◌, inl, inr, ℕ, ◌≡◌, refl, true, false, Option, none, some, List, [], ◌∷◌, ◌++◌, Bytes,
  codes, Memᴰ,
}
use mathlib.Core.List.Memᴰ
use hmq.Prelude.Assoc.{Assoc}
use hmq.Prelude.Heap.{get_elem?}
use hmq.Packets.{PublishPacket, ConnectPacket}
use hmq.Bridge
use hmq.Client
use hmq.Client.{ControlPacket, connected}
use hmq.Broker.{client, ClientObject, Subscription, Broker, Env, new_broker}
use hmq.Broker.Connect.{handle_connection}
use hmq.Broker.Message.{dispatch, process_message, validate_packet_fields}
use hmq.Topics.Level.{path_of, mwc, swc}
use hmq.Topics.Filter.{Matches}
use hmq.Topics.Value.{subscription}
use hmq.Topics.MemTopics.{valid_qos}
use hmq.Topics.MemTopics.Delivery.{Reads, Receives}
use hmq.Broker.Close.{close}
use hmq.Broker.Deliver.{process_publish_message}
use hmq.Broker.Deliver.Sent.{HasSent}
use hmq.Broker.View.{view}
use hmq.Broker.Agrees.{Agrees}
use hmq.Broker.Reachable.Publication.{IsOf, Follows, Reachable-Receives}
use hmq.Broker.Reachable.Delivered.{
  process_publish_message-delivers, process_publish_message-untouched,
}
use hmq.Broker.Reachable.Panic.{process_message-dispatch, process_message-closed}
use hmq.Broker.Reachable.{Reachable-Agrees, Reachable, start, next, connects, processes}

abbrev pub env : Env
env = record {
  network = λ a sent packet. true;
  random = λ n. 0;
  now = 100;
  time_text = codes "now";
  session_id = codes "s";
  valid_string = λ s. true;
  auth = none;
  metrics = true;
}

abbrev pub parse : Bytes → Option (Assoc Bytes (Option Bytes))
parse s = none

abbrev pub hello : ConnectPacket
hello = record {
  client_identifier = codes "lamp";
  username = codes "joe";
  password = codes "pw";
  keepalive = 60;
  clean_session = true;
  dup = false;
  qos = 0;
  will_flag = false;
  will_qos = 0;
  will_retain = false;
  will_topic = [];
  will_message = [];
}

abbrev pub joined : Broker
joined =
    (handle_connection env client (codes "10.0.0.1") 0 true (some (Client.connect hello))
      (new_broker (codes "b"))).0

pub joined_calm : joined.panicked ≡ false
unfolding handle_connection hmq.Sessions.MemProvider.create new_broker
    hmq.Sessions.Session.new_session hmq.Topics.Snode.smatch hmq.Topics.Level.next_topic_level
joined_calm = refl

pub joined-Reachable : Reachable joined
joined-Reachable = next (start (codes "b")) (
    connects env client (codes "10.0.0.1") 0 true (some (Client.connect hello))
      (new_broker (codes "b")) joined_calm)

abbrev packet : ControlPacket
packet = Client.subscribe (record { message_id = 1; topics = codes "room/+" ∷ []; qoss = 1 ∷ [] })

-- The object of the client, behind its CONNECT.
abbrev pub lamp : ClientObject
lamp = record {
  typ = client;
  state = record {
    client_id = codes "lamp";
    username = codes "joe";
    remote_ip = codes "10.0.0.1";
    status = connected;
    conn = true;
    awaiting_rel = [];
    max_awaiting_rel = 0;
    inflight = [];
    retry_timer = none;
    sent = [];
    bridged =
        record {
          client_id = codes "lamp";
          username = codes "joe";
          topic = [];
          payload = [];
          timestamp = 100;
          size = 0;
          action = Bridge.connect;
        }
        ∷ [];
  };
  sub_map = [];
  route_sub_map = [];
  rmsgs = [];
  session = some 0;
  will_msg = none;
  remote_id = [];
  remote_url = [];
}

unfoldable pub subscribed : Broker
unfolding dispatch
subscribed = dispatch env parse 0 lamp packet joined

pub joined_lamp : get_elem? joined.objects 0 ≡ some lamp
unfolding handle_connection hmq.Sessions.MemProvider.create new_broker
    hmq.Sessions.Session.new_session hmq.Topics.Snode.smatch hmq.Topics.Level.next_topic_level
joined_lamp = refl

subscribed_calm : subscribed.panicked ≡ false
unfolding subscribed handle_connection hmq.Sessions.MemProvider.create new_broker
    hmq.Sessions.Session.new_session hmq.Topics.Snode.smatch hmq.Topics.Level.next_topic_level
    hmq.Topics.Snode.sinsert hmq.Topics.Rnode.rmatch
subscribed_calm = refl

processed : process_message env parse 0 packet joined ≡ some subscribed
unfolding subscribed validate_packet_fields
processed =
    process_message-dispatch env parse 0 packet joined lamp joined_lamp well_formed subscribed_calm
  where
    well_formed : validate_packet_fields env.valid_string packet ≡ true
    well_formed = refl

pub subscribed-Reachable : Reachable subscribed
subscribed-Reachable =
    next joined-Reachable (processes env parse 0 packet joined subscribed processed)

abbrev pub lamp_subscribed : ClientObject
lamp_subscribed = record lamp {
  state = record lamp.state {
    sent = Client.suback 1 (1 ∷ []) ∷ [];
    bridged =
        lamp.state.bridged
        ++ record {
          client_id = codes "lamp";
          username = codes "joe";
          topic = codes "room/+";
          payload = [];
          timestamp = 100;
          size = 0;
          action = Bridge.subscribe;
        }
          ∷ [];
  };
  sub_map = (codes "room/+", 0) ∷ [];
}

pub lamp_at : get_elem? subscribed.objects 0 ≡ some lamp_subscribed
unfolding subscribed handle_connection hmq.Sessions.MemProvider.create new_broker
    hmq.Sessions.Session.new_session hmq.Topics.Snode.smatch hmq.Topics.Level.next_topic_level
    hmq.Topics.Snode.sinsert hmq.Topics.Rnode.rmatch
lamp_at = refl

abbrev pub room : Subscription
room = record { client = 0; topic = codes "room/+"; qos = 1; share = false; group_name = [] }

room_at : get_elem? subscribed.subscriptions 0 ≡ some room
unfolding subscribed handle_connection hmq.Sessions.MemProvider.create new_broker
    hmq.Sessions.Session.new_session hmq.Topics.Snode.smatch hmq.Topics.Level.next_topic_level
    hmq.Topics.Snode.sinsert hmq.Topics.Rnode.rmatch
room_at = refl

abbrev message : Bytes → PublishPacket
message topic = record {
  topic_name = topic;
  payload = codes "on";
  qos = 1;
  retain = false;
  dup = false;
  message_id = 7;
}

abbrev pub lamp_topic : List Bytes
lamp_topic = codes "room" ∷ codes "lamp" ∷ []

lamp_topic-Reads : Reads (codes "room/lamp") lamp_topic
unfolding path_of
lamp_topic-Reads = refl

pub room-Reads : Reads room.topic (codes "room" ∷ swc ∷ [])
unfolding path_of
room-Reads = refl

pub valid : valid_qos 1 ≡ true
unfolding valid_qos
valid = refl

pub lamp_topic-Matches : Matches (codes "room" ∷ swc ∷ []) lamp_topic
lamp_topic-Matches = inr (λ e. room_ne_hash e, inr refl, inr (λ e. plus_ne_hash e, inl refl, tt))
  where
    room_ne_hash : codes "room" ≢ mwc
    room_ne_hash e = cc

    plus_ne_hash : swc ≢ mwc
    plus_ne_hash e = cc

lamp_subscribed-Follows : Follows subscribed lamp_subscribed lamp_topic 0
lamp_subscribed-Follows = (
  refl,
  codes "room/+",
  room,
  codes "room" ∷ swc ∷ [],
  Memᴰ.head refl,
  room_at,
  room-Reads,
  lamp_topic-Matches,
)

Reachable-Agrees_example : Agrees (view subscribed)
Reachable-Agrees_example = Reachable-Agrees subscribed-Reachable

Reachable-Receives_example :
    (Receives subscribed.topics (codes "room/lamp") 1 (subscription 0) × IsOf subscribed 0 0)
    ↔ Follows subscribed lamp_subscribed lamp_topic 0
Reachable-Receives_example =
    Reachable-Receives subscribed (codes "room/lamp") lamp_topic 1 0 0 lamp_subscribed
      subscribed-Reachable lamp_at refl valid lamp_topic-Reads

process_publish_message-delivers_example :
    HasSent
      (process_publish_message env client (message (codes "room/lamp")) subscribed)
      0
      (Client.publish (message (codes "room/lamp")))
process_publish_message-delivers_example =
    process_publish_message-delivers env client (message (codes "room/lamp")) subscribed lamp_topic
      0 0 lamp_subscribed room subscribed-Reachable lamp_at refl valid lamp_topic-Reads
      lamp_subscribed-Follows room_at refl

lamp-idle : (p : ℕ) → ¬ Follows joined lamp lamp_topic p
lamp-idle p (on, t, s, ks, i, e, r, m) = Memᴰ.not-nil i

process_publish_message-untouched_example :
    get_elem? (process_publish_message env client (message (codes "room/lamp")) joined).objects 0
    ≡ some lamp
process_publish_message-untouched_example =
    process_publish_message-untouched env client (message (codes "room/lamp")) joined lamp_topic 0
      lamp joined-Reachable joined_lamp refl valid lamp_topic-Reads lamp-idle

abbrev strict : Env
strict = record env { valid_string = λ s. false }

malformed :
    validate_packet_fields strict.valid_string (Client.publish (message (codes "x"))) ≡ false
unfolding validate_packet_fields
malformed = refl

process_message-closed_example :
    process_message strict parse 0 (Client.publish (message (codes "x"))) (close strict 0 joined)
    ≡ none
process_message-closed_example =
    process_message-closed strict parse 0 (Client.publish (message (codes "x"))) joined lamp
      joined-Reachable joined_lamp refl malformed
