-- ===== src/Broker/View/Infos.antt =====
-- broker/info.go, ProcessInfo: it leaves the view of the broker.
use hmq.Prelude.{
  ℕ, ◌≡◌, refl, ◌∙◌, Bool, true, false, ◌==◌, bytes_eq, inl, inr, Option, none, some, [], ◌∷◌,
  Bytes, Bool-cases,
}
use hmq.Prelude.Assoc.{Assoc}
use hmq.Prelude.Heap.{get_elem?}
use hmq.Packets.{PublishPacket}
use hmq.Broker.{Broker}
use hmq.Broker.Cluster.{
  check_node_exist, connect_router, remote_exists, check_remote_exist, connect_unless,
  process_route, process_routes, process_read, has_conn, process_info, is_remote_at,
}
use hmq.Broker.View.{view, view-on_client}
use hmq.Broker.View.Writes.{IsQuiet}

view-connect_router : (id url : Bytes) (w : Broker) → view (connect_router id url w) ≡ view w
unfolding connect_router
view-connect_router id url w = elim (Bool-cases (check_node_exist id url w)) [
  | inl b ↦ rw (b, connect_router)
  | inr b ↦ rw (b, connect_router)
]

view-remote_exists :
    (id url : Bytes) (m : Assoc Bytes ℕ) (w : Broker) → view (remote_exists id url m w).0 ≡ view w
unfolding remote_exists
view-remote_exists id url [] w = refl
view-remote_exists id url ((k, a) ∷ m) w =
    elim (Bool-cases (is_remote_at url (get_elem? w.objects a))) [
      | inl b ↦
          rw (b, remote_exists)
            (view-on_client (λ o. record o { remote_id = id }) a w (λ o e. refl))
      | inr b ↦ rw (b, remote_exists) (view-remote_exists id url m w)
    ]

view-connect_unless :
    (id url : Bytes) (w : Broker) (b : Bool) → view (connect_unless id url (w, b)) ≡ view w
unfolding connect_unless
view-connect_unless id url w true = refl
view-connect_unless id url w false = view-connect_router id url w

view-process_route :
    (id : Bytes) (url : Option Bytes) (w : Broker) → view (process_route id url w) ≡ view w
unfolding process_route check_remote_exist
view-process_route id none w = refl
view-process_route id (some url) w = elim (Bool-cases (id == w.id)) [
  | inl b ↦ rw (b, process_route)
  | inr b ↦
      rw (b, process_route)
        (view-connect_unless id url (remote_exists id url w.remotes w).0
            (remote_exists id url w.remotes w).1
          ∙ view-remote_exists id url w.remotes w)
]

view-process_routes :
    (m : Assoc Bytes (Option Bytes)) (w : Broker) → view (process_routes m w) ≡ view w
unfolding process_routes
view-process_routes [] w = refl
view-process_routes ((id, url) ∷ m) w =
    view-process_routes m (process_route id url w) ∙ view-process_route id url w

view-process_read :
    (o : Option (Assoc Bytes (Option Bytes))) (w : Broker) → view (process_read o w) ≡ view w
unfolding process_read
view-process_read none w = refl
view-process_read (some m) w = view-process_routes m (record w { nodes = m })

pub process_info-IsQuiet :
    (parse : Bytes → Option (Assoc Bytes (Option Bytes))) (a : ℕ) (packet : PublishPacket)
    → IsQuiet (process_info parse a packet)
unfolding process_info
process_info-IsQuiet parse a packet w live = elim (Bool-cases (has_conn (get_elem? w.objects a))) [
  | inl b ↦ rw (b, process_info) (view-process_read (parse packet.payload) w)
  | inr b ↦ rw (b, process_info)
]
