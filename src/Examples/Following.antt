-- ===== src/Examples/Following.antt =====
-- broker/client.go: a client that subscribes to a filter with a wildcard, and unsubscribes.
use hmq.Prelude.{◌≡◌, refl, true, false, some, [], ◌∷◌, codes}
use hmq.Broker.Auth.{share_prefix, sub, check_topic_auth}
use hmq.Broker.Subscribe.{is_authorized}
use hmq.Broker.Message.{process_message}
use hmq.Broker.Message.Subscribes.{process_message-subscribe}
use hmq.Broker.Subscribe.Clients.{process_client_subscribe}
use hmq.Broker.Reachable.Subscribed.{IsFollower, process_client_subscribe-IsFollower}
use hmq.Broker.Reachable.Unsubscribed.{process_client_unsubscribe-lookup}
use hmq.Broker.Subscribe.Clients.{process_client_unsubscribe}
use hmq.Broker.{ClientObject, Broker}
use hmq.Packets.{SubscribePacket, UnsubscribePacket}
use hmq.Prelude.Assoc.{lookup}
use hmq.Prelude.Heap.{get_elem?}
use hmq.Prelude.{none, arith, Memᴰ, Bytes, bytes_eq, ◌++◌}
use hmq.Bridge
use hmq.Client
use hmq.Go.{has_prefix}
use hmq.Topics.Level.{swc}
use hmq.Examples.Network.{
  env, parse, joined, joined_calm, joined-Reachable, lamp, joined_lamp, room, room-Reads,
  subscribed, subscribed-Reachable, lamp_subscribed, lamp_at, lamp_topic, lamp_topic-Matches, valid,
}

authorized : is_authorized env sub (some lamp) room.topic ≡ true
unfolding is_authorized check_topic_auth
authorized = refl

unshared : has_prefix room.topic share_prefix ≡ false
unfolding has_prefix
unshared = refl

process_client_subscribe-IsFollower_example :
    IsFollower
      (process_client_subscribe env 0
        (record { message_id = 1; topics = room.topic ∷ []; qoss = 1 ∷ [] })
        joined)
      0
      lamp_topic
process_client_subscribe-IsFollower_example =
    process_client_subscribe-IsFollower env joined 0 1 1 lamp room.topic (codes "room" ∷ swc ∷ [])
      lamp_topic joined-Reachable joined_lamp refl authorized unshared valid room-Reads
      lamp_topic-Matches

abbrev farewell : UnsubscribePacket
farewell = record { message_id = 2; topics = codes "room/+" ∷ codes "hall" ∷ [] }

abbrev asked : Bytes → Bridge.Elements
asked t = record {
  client_id = codes "lamp";
  username = codes "joe";
  topic = t;
  payload = [];
  timestamp = 100;
  size = 0;
  action = Bridge.unsubscribe;
}

-- The client behind its UNSUBSCRIBE.
abbrev lamp_unsubscribed : ClientObject
lamp_unsubscribed = record lamp_subscribed {
  state = record lamp_subscribed.state {
    sent = lamp_subscribed.state.sent ++ Client.unsuback 2 ∷ [];
    bridged = lamp_subscribed.state.bridged ++ asked (codes "room/+") ∷ asked (codes "hall") ∷ [];
  };
  sub_map = [];
}

unsubscribed_at :
    get_elem? (process_client_unsubscribe env 0 farewell subscribed).objects 0
    ≡ some lamp_unsubscribed
unfolding process_client_unsubscribe subscribed hmq.Broker.Connect.handle_connection
    hmq.Sessions.MemProvider.create hmq.Broker.new_broker hmq.Sessions.Session.new_session
    hmq.Topics.Snode.smatch hmq.Topics.Level.next_topic_level hmq.Topics.Snode.sinsert
    hmq.Topics.Rnode.rmatch
unsubscribed_at = refl

process_client_unsubscribe-lookup_example : lookup (codes "room/+") lamp_unsubscribed.sub_map ≡ none
process_client_unsubscribe-lookup_example =
    process_client_unsubscribe-lookup env subscribed 0 farewell lamp_subscribed lamp_unsubscribed
      (codes "room/+") subscribed-Reachable lamp_at refl (Memᴰ.head refl) unsubscribed_at

abbrev greeting : SubscribePacket
greeting = record { message_id = 1; topics = codes "room/+" ∷ []; qoss = 1 ∷ [] }

process_message-subscribe_example :
    process_message env parse 0 (Client.subscribe greeting) joined
    ≡ some (process_client_subscribe env 0 greeting joined)
process_message-subscribe_example =
    process_message-subscribe env parse 0 0 greeting joined lamp joined_calm joined_lamp refl refl
      refl (omega arith)
