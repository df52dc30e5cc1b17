-- ===== src/Topics/MemTopics/Retention.antt =====
-- Which retained messages a subscription is sent, after any Retain.
use hmq.Prelude.{
  ◌≡◌, ◌≢◌, refl, inl, inr, ◌↔◌, true, false, Option, none, some, List, [], ◌∷◌, ◌++◌, Memᴰ, Bytes,
  ok, Result-cases, length, is_empty,
}
use hmq.Packets.{PublishPacket}
use hmq.Topics.Level.{TopicError, path_of}
use hmq.Topics.Filter.{Matches, topic_path-HashLast}
use hmq.Topics.Tree.{get_child, leaf, child, nodes}
use hmq.Topics.Rnode.{rnode}
use hmq.Topics.Rnode.Spec.{msg_at, found}
use hmq.Topics.Rnode.Found.{rmatch-eq}
use hmq.Topics.Rnode.Matching.{found_iff}
use hmq.Topics.Rnode.Retained.{rinsert_or_update-eq, msg_at-insert_self, msg_at-insert_ne}
use hmq.Topics.Rnode.Removed.{
  remove_at, rremove-eq, IsAbove, msg_at-remove_self, msg_at-remove_kept, msg_at-remove_parent,
}
use hmq.Topics.MemTopics.{MemTopics, retain, retained}
use hmq.Topics.MemTopics.Valid.{IsValid}
use hmq.Topics.MemTopics.Delivery.{Reads}

-- For a provider whose trees are well-formed and a filter all of whose levels are read: Retained
-- succeeds and appends to the slice the messages whose topics match the filter, and no others.
pub retained_iff :
    (t : MemTopics) (filter : Bytes) (fs : List Bytes) (msgs : List PublishPacket)
    → IsValid t
    → Reads filter fs
    → (found : List PublishPacket) × (retained t filter msgs ≡ ok (msgs ++ found))
      × ((p : PublishPacket)
          → Memᴰ p found ↔ ((ks : List Bytes) × Matches fs ks × (msg_at ks t.rroot ≡ some p)))
unfolding retained path_of
retained_iff t filter fs msgs w r = (
  found fs t.rroot,
  rmatch-eq (length filter) filter fs t.rroot msgs r,
  λ p. found_iff fs t.rroot p (topic_path-HashLast (length filter) filter fs r) w.messages,
)

-- Retain of a message that is not empty, on a topic all of whose levels are read, succeeds: its
-- topic has the message, and every other topic has what it had.
pub msg_at-retain :
    (t : MemTopics) (msg : PublishPacket) (ls : List Bytes)
    → is_empty msg.payload ≡ false
    → Reads msg.topic_name ls
    → ((retain t msg).1 ≡ none)
      × (msg_at ls (retain t msg).0.rroot ≡ some msg)
      × ((ks : List Bytes) → ks ≢ ls → msg_at ks (retain t msg).0.rroot ≡ msg_at ks t.rroot)
unfolding retain path_of
msg_at-retain t msg ls full r =
    rw (full, rinsert_or_update-eq (length msg.topic_name) msg.topic_name ls msg t.rroot r)
      (refl, msg_at-insert_self ls msg t.rroot, λ ks ne. msg_at-insert_ne ks ls msg t.rroot ne)

-- For a provider whose trees are well-formed, Retain of an empty message on a topic all of whose
-- levels are read, where it succeeds: its topic has no message, and every topic that is neither it
-- nor above it has what it had.
pub msg_at-retain_empty :
    (t : MemTopics) (msg : PublishPacket) (ls : List Bytes)
    → IsValid t
    → is_empty msg.payload ≡ true
    → Reads msg.topic_name ls
    → (retain t msg).1 ≡ none
    → (msg_at ls (retain t msg).0.rroot ≡ none)
      × ((ks : List Bytes) → ¬ IsAbove ks ls → msg_at ks (retain t msg).0.rroot ≡ msg_at ks t.rroot)
unfolding retain path_of
msg_at-retain_empty t msg ls w empty r h =
    let e = rremove-eq (length msg.topic_name) msg.topic_name ls t.rroot r in
    elim (Result-cases (remove_at ls t.rroot)) [
      | inl (s, g) ↦
          rw (empty, e, g, retain)
            (
              msg_at-remove_self ls t.rroot s w.messages g,
              λ ks apart. msg_at-remove_kept ks ls t.rroot s w.messages apart g,
            )
      | inr (x, g) ↦ absurd (failed x (rw (empty, e, g, retain) at h))
    ]
  where
    failed : (x : TopicError) → some x ≢ none
    failed x p = cc

-- For a provider whose trees are well-formed: deleting the message of "l/k", where it succeeds,
-- also deletes that of "l", if "l/k" is the only topic below "l" and has no topic below it.
pub msg_at-retain_parent :
    (t : MemTopics) (msg p : PublishPacket) (l k : Bytes) (n : Option PublishPacket)
    → IsValid t
    → is_empty msg.payload ≡ true
    → Reads msg.topic_name (l ∷ k ∷ [])
    → get_child l (nodes t.rroot) ≡ some (rnode (some p) (child k (rnode n leaf) leaf))
    → (retain t msg).1 ≡ none
    → msg_at (l ∷ []) (retain t msg).0.rroot ≡ none
unfolding retain path_of
msg_at-retain_parent t msg p l k n w empty r g h =
    let e = rremove-eq (length msg.topic_name) msg.topic_name (l ∷ k ∷ []) t.rroot r in
    elim (Result-cases (remove_at (l ∷ k ∷ []) t.rroot)) [
      | inl (s, q) ↦
          rw (empty, e, q, retain) (msg_at-remove_parent l k p n t.rroot s w.messages g q)
      | inr (x, q) ↦ absurd (failed x (rw (empty, e, q, retain) at h))
    ]
  where
    failed : (x : TopicError) → some x ≢ none
    failed x p = cc
