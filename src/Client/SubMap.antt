-- ===== src/Client/SubMap.antt =====
-- broker/comm.go: how many subscriptions of a router there are for a topic.
use hmq.Prelude.{
  ℕ, ◌+◌, ◌-◌, ◌%◌, ◌^◌, ◌≡◌, refl, none, some, Bytes, bytes_eq, beq_refl, ltb, if◌then◌else◌,
}
use hmq.Prelude.Assoc.{Assoc, lookup, insert, lookup-insert}

-- The wrap-around of uint64 is written out.
unfoldable pub add_sub_map : Bytes → Assoc Bytes ℕ → Assoc Bytes ℕ
add_sub_map topic m = elim (lookup topic m) [
  | some sub_num ↦ insert topic ((sub_num + 1) % 2 ^ 64) m
  | none ↦ insert topic 1 m
]

-- The map, and the number that delSubMap returns
unfoldable pub del_sub_map : Bytes → Assoc Bytes ℕ → Assoc Bytes ℕ × ℕ
del_sub_map topic m = elim (lookup topic m) [
  | some sub_num ↦ if ltb 1 sub_num then (insert topic (sub_num - 1) m, sub_num - 1) else (m, 0)
  | none ↦ (insert topic 0 m, 0)
]

add_sub_map-none :
    (topic : Bytes) (m : Assoc Bytes ℕ)
    → lookup topic m ≡ none
    → add_sub_map topic m ≡ insert topic 1 m
unfolding add_sub_map
add_sub_map-none topic m e = rw (e, add_sub_map) refl

add_sub_map-one :
    (topic : Bytes) (m : Assoc Bytes ℕ)
    → lookup topic m ≡ some 1
    → add_sub_map topic m ≡ insert topic 2 m
unfolding add_sub_map
add_sub_map-one topic m e = rw (e, add_sub_map) refl

del_sub_map-one :
    (topic : Bytes) (m : Assoc Bytes ℕ) → lookup topic m ≡ some 1 → del_sub_map topic m ≡ (m, 0)
unfolding del_sub_map
del_sub_map-one topic m e = rw (e, del_sub_map) refl

del_sub_map-two :
    (topic : Bytes) (m : Assoc Bytes ℕ)
    → lookup topic m ≡ some 2
    → del_sub_map topic m ≡ (insert topic 1 m, 1)
unfolding del_sub_map
del_sub_map-two topic m e = rw (e, del_sub_map) refl

lookup-insert_self :
    (topic : Bytes) (n : ℕ) (m : Assoc Bytes ℕ) → lookup topic (insert topic n m) ≡ some n
lookup-insert_self topic n m = rw (lookup-insert topic topic n m, beq_refl topic) refl

-- A topic that is not in the map, counted and given up, returns zero; counted and given up once
-- more, it returns one.
pub del_sub_map-resubscribed :
    (topic : Bytes) (m : Assoc Bytes ℕ)
    → lookup topic m ≡ none
    → let once = del_sub_map topic (add_sub_map topic m) in
      (once.1 ≡ 0) × ((del_sub_map topic (add_sub_map topic once.0)).1 ≡ 1)
del_sub_map-resubscribed topic m e =
    let m' = insert topic 1 m in
    let once = lookup-insert_self topic 1 m in
    rw
      (
        add_sub_map-none topic m e,
        del_sub_map-one topic m' once,
        add_sub_map-one topic m' once,
        del_sub_map-two topic (insert topic 2 m') (lookup-insert_self topic 2 m'),
      )
      (refl, refl)
