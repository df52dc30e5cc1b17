-- ===== src/Broker/Agrees/Closing.antt =====
-- broker/client.go, Close: it keeps the invariant.
use hmq.Prelude.{
  ℕ, ◌≡◌, refl, sym, ap, subst, ◌∙◌, false, inl, inr, Option, none, some, [], ◌∷◌, Bytes,
  Option-cases,
}
use hmq.Prelude.Assoc.{Assoc}
use hmq.Prelude.Heap.{get_elem?, modify, get_elem?-modify_self}
use hmq.Packets.{PublishPacket}
use hmq.Client.{Status, connected, disconnected}
use hmq.Broker.{ClientType, client, router, remote, cluster, ClientObject, Broker, Env, on_client}
use hmq.Broker.Deliver.{broadcast_unsubscribe, notify}
use hmq.Broker.Subscribe.{drop_from_topics}
use hmq.Broker.Close.{
  remove_client, drop_each, hang_up, announce_closed, publish_will, reconnect, close_object, close,
}
use hmq.Broker.View.{View, link, view, get_elem?-link, on_client-link}
use hmq.Broker.View.Writes.{
  IsQuiet, IsQuiet-then, broadcast_unsubscribe-IsQuiet, notify-IsQuiet, publish_message-IsQuiet,
}
use hmq.Broker.Agrees.{Agrees}
use hmq.Broker.Agrees.Links.{hang_link}
use hmq.Broker.Agrees.Drop.{close-Agrees}
use hmq.Broker.Agrees.Dropped.{drop_topics}
use hmq.Broker.Agrees.Steps.{Keeps, quiet-Agrees}

view-remove_client :
    (typ : ClientType) (id : Bytes) (w : Broker) → view (remove_client typ id w) ≡ view w
unfolding remove_client
view-remove_client client id w = refl
view-remove_client router id w = refl
view-remove_client remote id w = refl
view-remove_client cluster id w = refl

view-drop_each :
    (m : Assoc Bytes ℕ) (w : Broker)
    → view (drop_each m w) ≡ record (view w) { topics = drop_topics w.subscriptions m w.topics }
unfolding drop_each drop_from_topics
view-drop_each [] w = refl
view-drop_each ((t, p) ∷ m) w = view-drop_each m (drop_from_topics p w)

reconnect-IsQuiet : (o : ClientObject) (typ : ClientType) → IsQuiet (reconnect o typ)
unfolding reconnect
reconnect-IsQuiet o client w live = refl
reconnect-IsQuiet o router w live = refl
reconnect-IsQuiet o remote w live = refl
reconnect-IsQuiet o cluster w live = refl

module _ (env : Env) where
  announce_closed-IsQuiet :
      (typ : ClientType) (id : Bytes) (m : Assoc Bytes ℕ) → IsQuiet (announce_closed env typ id m)
  unfolding announce_closed
  announce_closed-IsQuiet client id m w live =
      IsQuiet-then (broadcast_unsubscribe env m) (notify env id false)
        (broadcast_unsubscribe-IsQuiet env m) (notify-IsQuiet env id false) w live
  announce_closed-IsQuiet router id m w live = refl
  announce_closed-IsQuiet remote id m w live = refl
  announce_closed-IsQuiet cluster id m w live = refl

  publish_will-IsQuiet : (msg : Option PublishPacket) → IsQuiet (publish_will env msg)
  unfolding publish_will
  publish_will-IsQuiet none w live = refl
  publish_will-IsQuiet (some msg) w live = publish_message-IsQuiet env msg w live

  -- The part of Close that is not quiet.
  dropped-view :
      (a : ℕ) (o : ClientObject) (w : Broker)
      → view (
          drop_each o.sub_map (remove_client o.typ o.state.client_id (on_client a (hang_up env) w)))
        ≡ record (view w) {
          topics = drop_topics w.subscriptions o.sub_map w.topics;
          links = modify a hang_link (view w).links;
        }
  dropped-view a o w =
      let w' = on_client a (hang_up env) w in
      view-drop_each o.sub_map (remove_client o.typ o.state.client_id w')
      ∙ ap (λ (v : View). record v { topics = drop_topics v.subscriptions o.sub_map v.topics })
          (view-remove_client o.typ o.state.client_id w'
            ∙ on_client-link (hang_up env) hang_link a w (λ o e. refl))

  -- And the rest of it
  finish : ClientObject → Broker → Broker
  finish o w =
      reconnect o o.typ
        (publish_will env o.will_msg (announce_closed env o.typ o.state.client_id o.sub_map w))

  end-IsQuiet : (o : ClientObject) → IsQuiet (finish o)
  unfolding finish
  end-IsQuiet o =
      IsQuiet-then
        (λ w. publish_will env o.will_msg (announce_closed env o.typ o.state.client_id o.sub_map w))
        (reconnect o o.typ)
        (IsQuiet-then (announce_closed env o.typ o.state.client_id o.sub_map)
          (publish_will env o.will_msg) (announce_closed-IsQuiet o.typ o.state.client_id o.sub_map)
          (publish_will-IsQuiet o.will_msg))
        (reconnect-IsQuiet o o.typ)

  close_object-Agrees :
      (a : ℕ) (o : ClientObject) (s : Status) (w : Broker)
      → get_elem? w.objects a ≡ some o
      → o.state.status ≡ s
      → Agrees (view w)
      → Agrees (view (close_object env a o s w))
  unfolding close_object finish
  close_object-Agrees a o disconnected w e on ag = ag
  close_object-Agrees a o connected w e on ag =
      let dropped =
        drop_each o.sub_map (remove_client o.typ o.state.client_id (on_client a (hang_up env) w)) in
      quiet-Agrees (finish o) dropped (end-IsQuiet o) (
        subst Agrees (sym (dropped-view a o w))
          (close-Agrees (view w) a (link o) ag (get_elem?-link w.objects a o e) on))

  pub close-Keeps : (a : ℕ) → Keeps (close env a)
  unfolding close
  close-Keeps a w ag = elim (Option-cases (get_elem? w.objects a)) [
    | inl e ↦ rw (e, close) ag
    | inr (o, e) ↦ rw (e, close) (close_object-Agrees a o o.state.status w e refl ag)
  ]

  close_object-connected :
      (a : ℕ) (o : ClientObject) (w : Broker) (s : Status)
      → s ≡ connected
      → view (close_object env a o s w)
        ≡ view (
            finish o (
              drop_each o.sub_map
                (remove_client o.typ o.state.client_id (on_client a (hang_up env) w))))
  unfolding close_object finish
  close_object-connected a o w connected q = refl
  close_object-connected a o w disconnected q = cc

  -- The object of a client that was connected, behind Close.
  pub link-close :
      (a : ℕ) (o : ClientObject) (w : Broker)
      → Agrees (view w)
      → get_elem? w.objects a ≡ some o
      → o.state.status ≡ connected
      → get_elem? (view (close env a w)).links a ≡ some (hang_link (link o))
  unfolding close
  link-close a o w ag e on =
      let dropped =
        drop_each o.sub_map (remove_client o.typ o.state.client_id (on_client a (hang_up env) w)) in
      let same = dropped-view a o w in
      let ag' : Agrees (view dropped) =
        subst Agrees (sym same)
          (close-Agrees (view w) a (link o) ag (get_elem?-link w.objects a o e) on) in
      rw (e, close)
        (ap (λ (v : View). get_elem? v.links a)
            (close_object-connected a o w o.state.status on ∙ end-IsQuiet o dropped ag'.live ∙ same)
          ∙ get_elem?-modify_self (view w).links hang_link (link o) a
              (get_elem?-link w.objects a o e))
