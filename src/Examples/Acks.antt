-- ===== src/Examples/Acks.antt =====
-- broker/client.go, broker/comm.go: a client that is online, on a connection that takes every packet.
use hmq.Prelude.{
  ◌≡◌, refl, true, false, Bool, ℕ, none, some, List, [], ◌∷◌, ◌++◌, codes, if◌then◌else◌, ◌==◌,
  nat_eq, bytes_eq,
}
use hmq.Prelude.Assoc.{lookup}
use hmq.Packets.{PublishPacket}
use hmq.Client.{ControlPacket, publish, pubrec, pubrel, connected, published, pubrelled, Client}
use hmq.Client.Outgoing.{publish_to, process_pubrec, process_pubcomp, retry_delivery}
use hmq.Client.Outgoing.Laws.{IsOnline, due, retry_delivery-due}
use hmq.Client.Outgoing.Handshake.{qos2_handshake}
use hmq.Client.Incoming.{is_awaiting_full, admit_client_publish, process_pubrel}
use hmq.Client.Incoming.Laws.{qos2_processed_once}
use hmq.Client.SubMap.{add_sub_map, del_sub_map, del_sub_map-resubscribed}

abbrev network : List ControlPacket → ControlPacket → Bool
network sent packet = true

abbrev message : PublishPacket
message = record {
  topic_name = codes "a/b";
  payload = codes "on";
  qos = 2;
  retain = false;
  dup = false;
  message_id = 7;
}

abbrev fresh : Client
fresh = record {
  client_id = codes "lamp";
  username = codes "user";
  remote_ip = codes "10.0.0.1";
  status = connected;
  conn = true;
  awaiting_rel = [];
  max_awaiting_rel = 3;
  inflight = [];
  retry_timer = none;
  sent = [];
  bridged = [];
}

abbrev waiting : Client
waiting = record fresh {
  inflight =
      (7, record { status = pubrelled; packet = message; timestamp = 5 })
      ∷ (8, record { status = published; packet = message; timestamp = 25 })
      ∷ [];
}

fresh-IsOnline : IsOnline fresh
fresh-IsOnline = record { status = refl; conn = refl }

waiting-IsOnline : IsOnline waiting
waiting-IsOnline = record { status = refl; conn = refl }

not_full : is_awaiting_full fresh ≡ false
unfolding is_awaiting_full
not_full = refl

qos2_processed_once_example :
    let once = admit_client_publish network true 10 message fresh in
    let twice = admit_client_publish network true 12 message once.0 in
    (once.1 ≡ true)
    × (once.0.sent ≡ [] ++ pubrec 7 ∷ [])
    × (twice.1 ≡ false)
    × (lookup 7 twice.0.awaiting_rel ≡ some 10)
    × (lookup 7 (process_pubrel network 7 twice.0).awaiting_rel ≡ none)
qos2_processed_once_example =
    qos2_processed_once network true 10 12 message message fresh refl refl refl fresh-IsOnline
      not_full refl refl

qos2_handshake_example :
    let sending = publish_to network 10 message fresh in
    let releasing = process_pubrec network 11 7 sending in
    (releasing.sent ≡ ([] ++ publish message ∷ []) ++ pubrel 7 ∷ [])
    × (lookup 7 releasing.inflight
        ≡ some (record { status = pubrelled; packet = message; timestamp = 11 }))
    × (lookup 7 (process_pubcomp 7 releasing).inflight
        ≡ (if message.message_id == 7 then none else lookup 7 fresh.inflight))
qos2_handshake_example = qos2_handshake network 10 11 message fresh 7 refl fresh-IsOnline

retry_delivery-due_example :
    let d = retry_delivery network 30 waiting in
    (d.sent ≡ [] ++ due 30 waiting.inflight) × ((i : ℕ) × (d.retry_timer ≡ some i))
retry_delivery-due_example = retry_delivery-due network 30 waiting waiting-IsOnline refl

repeated : due 30 waiting.inflight ≡ pubrel 7 ∷ []
unfolding due
repeated = refl

del_sub_map-resubscribed_example :
    let once = del_sub_map (codes "a") (add_sub_map (codes "a") []) in
    (once.1 ≡ 0) × ((del_sub_map (codes "a") (add_sub_map (codes "a") once.0)).1 ≡ 1)
del_sub_map-resubscribed_example = del_sub_map-resubscribed (codes "a") [] refl
