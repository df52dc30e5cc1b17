-- ===== src/Broker.antt =====
-- broker/broker.go and broker/client.go: the state that the handlers of all clients share. Clients
-- and subscriptions are objects that the maps and the topic store point to, so each has an address.
pub mod Auth
pub mod Deliver
pub mod Subscribe
pub mod Close
pub mod Cluster
pub mod Backoff
pub mod Message
pub mod Connect
pub mod Dialled
pub mod Reachable
pub mod View
pub mod Agrees
use hmq.Prelude.{ℕ, Bool, true, false, Option, none, some, List, [], Bytes}
use hmq.Prelude.Assoc.{Assoc}
use hmq.Prelude.Heap.{modify}
use hmq.Packets.{PublishPacket}
use hmq.Client.{ControlPacket, Client}
use hmq.Topics.MemTopics
use hmq.Topics.MemTopics.{MemTopics}
use hmq.Sessions.MemProvider
use hmq.Sessions.MemProvider.{MemProvider}

-- CLIENT, ROUTER, REMOTE and CLUSTER
pub data ClientType : Type 0 where
  client router remote cluster : ClientType

pub record Subscription : Type 0 where
  pub client : ℕ
  pub topic : Bytes
  pub qos : ℕ
  pub share : Bool
  pub group_name : Bytes

-- The fields of `client` that the broker's handlers use besides its delivery state. The values of
-- sub_map are addresses of subscriptions, `session` that of a session.
pub record ClientObject : Type 0 where
  pub typ : ClientType
  pub state : Client
  pub sub_map : Assoc Bytes ℕ
  pub route_sub_map : Assoc Bytes ℕ
  pub rmsgs : List PublishPacket
  pub session : Option ℕ
  pub will_msg : Option PublishPacket
  pub remote_id : Bytes
  pub remote_url : Bytes

-- A connection that the broker sets out to make: ConnectToDiscovery and connectRouter.
pub data Dial : Type 0 where
  discovery : Dial
  route : Bytes → Bytes → Dial

pub record Broker : Type 0 where
  pub id : Bytes
  pub objects : List ClientObject
  pub subscriptions : List Subscription
  pub topics : MemTopics
  pub sessions : MemProvider
  pub clients : Assoc Bytes ℕ
  pub routes : Assoc Bytes ℕ
  pub remotes : Assoc Bytes ℕ
  -- a value of `nodes` that is no string is `none`
  pub nodes : Assoc Bytes (Option Bytes)
  pub dials : List Dial
  -- whether a handler has panicked, which ends the program
  pub panicked : Bool

-- plugins/auth/auth.go, the interface Auth
pub record Authenticator : Type 0 where
  pub check_acl : Bytes → Bytes → Bytes → Bytes → Bytes → Bool
  pub check_connect : Bytes → Bytes → Bytes → Bool

-- What a handler is given by its surroundings: the networks of the clients, by address, as for
-- writer_packet; rand.Intn; the time in seconds and as text; the session identifier that would be
-- made up; utf8.ValidString; the plugin, if there is one; and whether b.metrics is set, which the HTTP
-- interface does.
pub record Env : Type 0 where
  pub network : ℕ → List ControlPacket → ControlPacket → Bool
  pub random : ℕ → ℕ
  pub now : ℕ
  pub time_text : Bytes
  pub session_id : Bytes
  pub valid_string : Bytes → Bool
  pub auth : Option Authenticator
  pub metrics : Bool

-- NewBroker
unfoldable pub new_broker : Bytes → Broker
new_broker id = record {
  id = id;
  objects = [];
  subscriptions = [];
  topics = MemTopics.new_mem_provider;
  sessions = MemProvider.new_mem_provider;
  clients = [];
  routes = [];
  remotes = [];
  nodes = [];
  dials = [];
  panicked = false;
}

-- A write to a client's fields.
abbrev pub on_client : ℕ → (ClientObject → ClientObject) → Broker → Broker
on_client a f w = record w { objects = modify a f w.objects }

abbrev pub on_state : (Client → Client) → ClientObject → ClientObject
on_state f o = record o { state = f o.state }

-- A panic. What the model computes behind it is not the program's: no step of the broker leads there.
abbrev pub panic : Broker → Broker
panic w = record w { panicked = true }
