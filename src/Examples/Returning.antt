-- ===== src/Examples/Returning.antt =====
-- broker/broker.go: a client that connects a second time.
use hmq.Prelude.{◌≡◌, refl, true, none, some, codes, length, ◌==◌, nat_eq, bytes_eq}
use hmq.Prelude.Assoc.{lookup}
use hmq.Client
use hmq.Sessions.GetSession.{get_session}
use hmq.Broker.{client}
use hmq.Broker.Connect.{accepted, return_code, handle_connection}
use hmq.Broker.Reachable.Takeover.{IsClosedAt, handle_connection-takes_over}
use hmq.Examples.Network.{env, hello, joined, lamp, joined-Reachable, joined_lamp}

welcome : (return_code env client hello 0 == accepted) ≡ true
unfolding return_code
welcome = refl

session_found : (get_session env.session_id none hello true joined.sessions).error ≡ none
unfolding get_session handle_connection hmq.Sessions.MemProvider.create hmq.Broker.new_broker
    hmq.Sessions.Session.new_session hmq.Topics.Snode.smatch hmq.Topics.Level.next_topic_level
session_found = refl

lamp_known : lookup (codes "lamp") joined.clients ≡ some 0
unfolding handle_connection hmq.Sessions.MemProvider.create hmq.Broker.new_broker
    hmq.Sessions.Session.new_session hmq.Topics.Snode.smatch hmq.Topics.Level.next_topic_level
lamp_known = refl

handle_connection-takes_over_example :
    let w' =
      (handle_connection env client
        (codes "10.0.0.2")
        0
        true
        (some (Client.connect hello))
        joined).0 in
    (lookup (codes "lamp") w'.clients ≡ some (length joined.objects)) × IsClosedAt w' 0
handle_connection-takes_over_example =
    handle_connection-takes_over env (codes "10.0.0.2") 0 0 lamp hello joined joined-Reachable
      welcome session_found lamp_known joined_lamp refl
