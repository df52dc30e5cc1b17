-- ===== src/Lib.antt =====
-- hmq: an MQTT broker.
--
-- A client's connection is a goroutine that reads packets and submits each to the pool of workers.
-- A worker runs the client's handler: a PUBLISH is authorised, reported to the bridge,
-- acknowledged, retained and delivered to the subscriptions that the topic store finds; SUBSCRIBE
-- and UNSUBSCRIBE change the topic store and the client's session.
--
-- The files, and the code that they model:
--   Prelude, Prelude/*: Booleans, lists, Go's strings, errors, maps (Assoc) and pointers (Heap).
--   Go: functions of Go's standard packages strings and bytes.
--   Packets: the fields in use of the packets of github.com/eclipse/paho.mqtt.golang.
--   Topics/*: broker/lib/topics/memtopics.go. Level is nextTopicLevel, with Level/Paths on the
--     levels of a whole topic; Filter is what a match is; Tree is the shape both trees share; Value
--     is equal; Snode is the tree of subscriptions with sinsert, sremove and smatch; Rnode is the
--     tree of retained messages with rinsertOrUpdate, rremove and rmatch; MemTopics is the provider
--     with Subscribe, Unsubscribe, Subscribers, Retain and Retained.
--   Sessions/*: broker/lib/sessions/session.go (Session), memprovider.go and Manager.New of
--     sessions.go (MemProvider), and getSession of broker/sesson.go (GetSession).
--   Client, Client/*: broker/client.go and broker/comm.go, the delivery state of one client.
--     Incoming is processClientPublish and processRouterPublish up to their call of
--     ProcessPublishMessage, registerPublishPacketId, isAwaitingFull, expireAwaitingRel, pubRel and
--     the branch of ProcessMessage for PUBREL; Outgoing is publish, the retry timer with
--     retryDelivery, and the branches for PUBACK, PUBREC and PUBCOMP; SubMap is addSubMap and
--     delSubMap; Link is on the connection.
--   Broker, Broker/*: broker/broker.go, auth.go and info.go, and the rest of client.go, on the
--     state that all handlers share. Auth is auth.go with the pattern of shared subscriptions;
--     Deliver is ProcessPublishMessage, PublishMessage, the broadcasts and the notification;
--     Subscribe, with Clients and Routers, is the handlers of SUBSCRIBE and UNSUBSCRIBE; Close is
--     Close and removeClient; Cluster is info.go and the bookkeeping of the other nodes; Backoff is
--     the waits of the loops that accept and dial; Message is ProcessMessage, with Calm and
--     Panicked on where a SUBSCRIBE panics; Connect is handleConnection; Dialled is what
--     ConnectToDiscovery and connectRouter do with a connection, and StartPing. View is what of the
--     state has to do with subscriptions, Agrees/* the invariant on it, step by step, and
--     Reachable/* the states that the steps lead to.
--   Pool, Pool/*: pool/fixpool.go: New, Submit, dispatch and startWorker.
--   Acl/*: plugins/auth/authfile. Spilt is spilt.go, Check is aclcheck.go and CheckACL and
--     CheckConnect of acl.go, Config is aclconfig.go.
--   AuthHttp, AuthHttp/*: plugins/auth/authhttp: CheckConnect, CheckACL, checkCache and addCache.
--   Config, Config/*: check of broker/config.go.
--   Bridge, Bridge/*: plugins/bridge/bridge.go, and match, matchTopic and Publish of kafka.go.
--   Examples/*: runs of the above on sample data.
--
-- A method takes the state and returns it. A method that holds a lock throughout is one step. A Go
-- map is an association list, whose order stands for the order of iteration that Go leaves open. A
-- string is the list of its bytes. Pointers to sessions are addresses in a heap, pointers to
-- subscriptions and to clients are addresses in the broker's lists. Clients and subscriptions are
-- never taken out of these lists: they stand for Go's heap.
--
-- The handlers run on several goroutines, with few locks. A handler is one step here, the goroutine
-- that it starts for a broadcast included, and the steps come in any order; data races within
-- handlers are not shown. A closed channel of readLoop, after a DISCONNECT, is not kept: more
-- packets may be read in the model than in the code.
--
-- The functions on the trees go down by one level of a topic at each call, with the topic's length
-- as fuel: each level takes at least one byte, so that it is enough. out_of_fuel is the error of a
-- call that has none left.
--
-- A panic ends the program. Where a handler can panic, on a nil session, a nil b.metrics or a QoS
-- that a packet lacks, the model marks the state (`panicked` of Broker) and computes on; what it
-- computes then is dropped: ProcessMessage has no result, and no step of the broker leads there.
--
-- The loops that accept and dial are functions of the list of what their calls return.
--
-- Parameters: the networks that take or refuse packets, the clock, random numbers, identifiers made
-- up at random, utf8.ValidString, and whether b.metrics is set (the record Env of Broker); the
-- plugin of authorisation (Authenticator); the reading of a payload by simplejson (Broker/Message);
-- the return code of Validate for a CONNECT (Broker/Connect); the answer of CheckTopicAuth
-- (Client/Incoming, which Broker/Message gives); the hash of a client's name (Pool); the content of
-- the rule file (Acl/Config); the cache of go-cache and the answers of the web service (AuthHttp).
--
-- Not modelled: sockets, deadlines, the web socket and TLS, the HTTP interface but for its closing
-- of clients, the reading of configurations, the producer of Kafka, the logger and the metrics, the
-- registries of providers by name, and the choice of a plugin by name.
pub mod Prelude
pub mod Go
pub mod Packets
pub mod Topics
pub mod Acl
pub mod AuthHttp
pub mod Sessions
pub mod Bridge
pub mod Client
pub mod Broker
pub mod Config
pub mod Pool
pub mod Examples
