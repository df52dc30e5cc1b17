-- ===== src/Examples/Retention.antt =====
-- broker/lib/topics: messages retained for a topic and for the one below it.
use hmq.Prelude.{
  ◌≡◌, ◌≢◌, refl, ◌↔◌, true, false, none, some, List, [], ◌∷◌, ◌++◌, Memᴰ, Bytes, codes, ok, err,
}
use hmq.Packets.{PublishPacket}
use hmq.Topics.Level.{mwc, path_of, next_topic_level, out_of_fuel}
use hmq.Topics.Filter.{Matches}
use hmq.Topics.Tree.{leaf, child, nodes, get_child}
use hmq.Topics.Rnode.{rnode, rremove, rinsert_or_update}
use hmq.Topics.Rnode.Spec.{msg_at}
use hmq.Topics.Rnode.Removed.{IsAbove}
use hmq.Topics.MemTopics.{
  MemTopics, new_mem_provider, subscribe, unsubscribe, subscribers, retain, retained,
}
use hmq.Topics.MemTopics.Fuel.{calls_end}
use hmq.Topics.MemTopics.Valid.{IsValid, new_mem_provider-IsValid, retain-IsValid}
use hmq.Topics.MemTopics.Delivery.{Reads}
use hmq.Topics.MemTopics.Retention.{
  retained_iff, msg_at-retain, msg_at-retain_empty, msg_at-retain_parent,
}

abbrev message : Bytes → Bytes → PublishPacket
message topic payload = record {
  topic_name = topic;
  payload = payload;
  qos = 1;
  retain = true;
  dup = false;
  message_id = 7;
}

abbrev on : PublishPacket
on = message (codes "lamp") (codes "on")

abbrev red : PublishPacket
red = message (codes "lamp/colour") (codes "red")

abbrev cleared : PublishPacket
cleared = message (codes "lamp/colour") []

abbrev lamp : List Bytes
lamp = codes "lamp" ∷ []

abbrev colour : List Bytes
colour = codes "lamp" ∷ codes "colour" ∷ []

abbrev first : MemTopics
first = (retain new_mem_provider on).0

abbrev both : MemTopics
both = (retain first red).0

first-IsValid : IsValid first
first-IsValid = retain-IsValid new_mem_provider on new_mem_provider-IsValid

both-IsValid : IsValid both
both-IsValid = retain-IsValid first red first-IsValid

below-Reads : Reads (codes "lamp/#") (codes "lamp" ∷ mwc ∷ [])
unfolding path_of
below-Reads = refl

colour-Reads : Reads (codes "lamp/colour") colour
unfolding path_of
colour-Reads = refl

retained_iff_example :
    (found : List PublishPacket) × (retained both (codes "lamp/#") [] ≡ ok ([] ++ found))
    × ((p : PublishPacket)
        → Memᴰ p found ↔ (
            (ks : List Bytes) × Matches (codes "lamp" ∷ mwc ∷ []) ks
            × (msg_at ks both.rroot ≡ some p)))
retained_iff_example =
    retained_iff both (codes "lamp/#") (codes "lamp" ∷ mwc ∷ []) [] both-IsValid below-Reads

msg_at-retain_example :
    ((retain first red).1 ≡ none)
    × (msg_at colour (retain first red).0.rroot ≡ some red)
    × ((ks : List Bytes)
        → ks ≢ colour
        → msg_at ks (retain first red).0.rroot ≡ msg_at ks first.rroot)
msg_at-retain_example = msg_at-retain first red colour refl colour-Reads

deleted : (retain both cleared).1 ≡ none
unfolding retain rremove rinsert_or_update next_topic_level
deleted = refl

msg_at-retain_empty_example :
    (msg_at colour (retain both cleared).0.rroot ≡ none)
    × ((ks : List Bytes)
        → ¬ IsAbove ks colour
        → msg_at ks (retain both cleared).0.rroot ≡ msg_at ks both.rroot)
msg_at-retain_empty_example =
    msg_at-retain_empty both cleared colour both-IsValid refl colour-Reads deleted

parent :
    get_child (codes "lamp") (nodes both.rroot)
    ≡ some (rnode (some on) (child (codes "colour") (rnode (some red) leaf) leaf))
unfolding retain rinsert_or_update next_topic_level
parent = refl

msg_at-retain_parent_example : msg_at lamp (retain both cleared).0.rroot ≡ none
msg_at-retain_parent_example =
    msg_at-retain_parent both cleared on (codes "lamp") (codes "colour") (some red) both-IsValid
      refl colour-Reads parent deleted

calls_end_example :
    ((subscribe both (codes "lamp/#/on") 1 none).2 ≢ some out_of_fuel)
    × ((unsubscribe both (codes "lamp/#/on") none).1 ≢ some out_of_fuel)
    × (subscribers both (codes "lamp/#/on") 1 ≢ err out_of_fuel)
    × ((retain both red).1 ≢ some out_of_fuel)
    × (retained both (codes "lamp/#/on") [] ≢ err out_of_fuel)
calls_end_example = calls_end both (codes "lamp/#/on") 1 none red []
