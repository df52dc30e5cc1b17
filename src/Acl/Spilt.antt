-- ===== src/Acl/Spilt.antt =====
-- plugins/auth/authfile/spilt.go: the levels of a filter and of a topic.
use hmq.Prelude.{
  ℕ, ◌-◌, ◌+◌, Bool, true, false, ◌&&◌, ◌||◌, not, Option, none, some, List, [], ◌∷◌, Bytes, Result,
  ok, err, ◌==◌, nat_eq, bytes_eq, if◌then◌else◌, length, is_empty,
}
use hmq.Go.{split, split_from, index_byte, contains_byte}

pub data SpiltError : Type 0 where
  index_of_hash index_of_slashes index_of_plus wildcard_in_publish : SpiltError

abbrev pub slash : Bytes
slash = b'/' ∷ []

abbrev pub plus : Bytes
plus = b'+' ∷ []

abbrev pub prepend : Bytes → Result SpiltError (List Bytes) → Result SpiltError (List Bytes)
prepend v (ok rest) = ok (v ∷ rest)
prepend v (err e) = err e

-- i != 0 && i != len(re)-1
abbrev pub is_inner : ℕ → ℕ → Bool
is_inner i last = not (i == 0) && not (i == last)

-- The loop of SubscribeTopicSpilt over `re`, from the index `i`; `last` is len(re)-1.
unfoldable pub spilt_filter : ℕ → ℕ → List Bytes → Result SpiltError (List Bytes)
unfolding contains_byte
spilt_filter i last [] = ok []
spilt_filter i last (v ∷ re) =
    let rest = spilt_filter (i + 1) last re in
    if is_inner i last
    then (if is_empty v
        then err index_of_slashes
        else if contains_byte v b'+' && not (v == plus)
        then err index_of_plus
        else prepend v rest)
    else prepend (if is_empty v then slash else v) rest

-- The test on "#": its first position is the last byte, if it is there.
abbrev pub bad_hash : Bytes → Bool
bad_hash topic = elim (index_byte topic b'#') [
  | none ↦ false
  | some i ↦ not (i == length topic - 1)
]

unfoldable pub subscribe_topic_spilt : Bytes → Result SpiltError (List Bytes)
unfolding index_byte split_from spilt_filter
subscribe_topic_spilt topic =
    let re = split b'/' topic in
    if bad_hash topic then err index_of_hash else spilt_filter 0 (length re - 1) re

-- The loop of PublishTopicSpilt.
unfoldable pub spilt_topic : ℕ → ℕ → List Bytes → Result SpiltError (List Bytes)
spilt_topic i last [] = ok []
spilt_topic i last (v ∷ re) =
    let rest = spilt_topic (i + 1) last re in
    if is_empty v
    then (if is_inner i last then err index_of_slashes else prepend slash rest)
    else prepend v rest

abbrev pub is_some {ℓ} : {A : Type ℓ} → Option A → Bool
is_some none = false
is_some (some a) = true

unfoldable pub publish_topic_spilt : Bytes → Result SpiltError (List Bytes)
unfolding index_byte split_from spilt_topic
publish_topic_spilt topic =
    let re = split b'/' topic in
    if is_some (index_byte topic b'#') || is_some (index_byte topic b'+')
    then err wildcard_in_publish
    else spilt_topic 0 (length re - 1) re
