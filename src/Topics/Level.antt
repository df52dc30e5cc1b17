-- ===== src/Topics/Level.antt =====
-- broker/lib/topics/memtopics.go, nextTopicLevel: the first level of a topic string, and the
-- rest. A topic is walked by repeated calls; `topic_path` lists what these calls return.
mod Tests
pub mod Paths
use hmq.Prelude.{
  ℕ, zero, suc, ◌≡◌, Bool, true, false, not, ◌||◌, List, [], ◌∷◌, ◌++◌, Bytes, Result, ok, err,
  ◌==◌, nat_eq, bytes_eq, if◌then◌else◌, length, is_empty,
}

-- The errors of the package, one for each message.
pub data TopicError : Type 0 where
  mwc_not_last hash_not_alone plus_not_alone wildcard_not_alone : TopicError
  no_topic_for_subscriber no_topic invalid_qos nil_subscriber : TopicError
  -- of the model only: a recursion on topic levels ran out of fuel
  out_of_fuel : TopicError

-- MWC, SWC
abbrev pub mwc : Bytes
mwc = b'#' ∷ []

abbrev pub swc : Bytes
swc = b'+' ∷ []

-- stateCHR, stateMWC, stateSWC
pub data LevelState : Type 0 where
  chr_state mwc_state swc_state : LevelState

abbrev pub is_mwc_state : LevelState → Bool
is_mwc_state mwc_state = true
is_mwc_state _ = false

abbrev pub is_wildcard_state : LevelState → Bool
is_wildcard_state chr_state = false
is_wildcard_state _ = true

-- The loop at one byte `c`: `before` is topic[:i], and what follows `c` is topic[i+1:].
unfoldable pub scan_level : LevelState → Bytes → Bytes → Result TopicError (Bytes × Bytes)
scan_level s before [] = ok (before, [])
scan_level s before (c ∷ rest) =
    let at_hash = scan_level mwc_state (before ++ c ∷ []) rest in
    let at_plus = scan_level swc_state (before ++ c ∷ []) rest in
    let at_byte = scan_level chr_state (before ++ c ∷ []) rest in
    if c == b'/'
    then (if is_mwc_state s
        then err mwc_not_last
        else if is_empty before
        then ok (swc, rest)
        else ok (before, rest))
    else if c == b'#'
    then (if is_empty before then at_hash else err hash_not_alone)
    else if c == b'+'
    then (if is_empty before then at_plus else err plus_not_alone)
    else if is_wildcard_state s
    then err wildcard_not_alone
    else at_byte

unfoldable pub next_topic_level : Bytes → Result TopicError (Bytes × Bytes)
unfolding scan_level
next_topic_level topic = scan_level chr_state [] topic

-- What a descent through the tree meets: a level and then the rest, the end of the topic, or an
-- error of `nextTopicLevel`.
pub data LevelPath : Type 0 where
  end : LevelPath
  level : Bytes → LevelPath → LevelPath
  bad : TopicError → LevelPath

-- The calls that `sinsert`, `sremove`, `smatch` and their counterparts make on a topic.
unfoldable pub topic_path : ℕ → Bytes → LevelPath
topic_path f [] = end
topic_path zero (c ∷ t) = bad out_of_fuel
topic_path (suc f) (c ∷ t) = elim (next_topic_level (c ∷ t)) [
  | err e ↦ bad e
  | ok (l, rem) ↦ level l (topic_path f rem)
]

unfoldable pub path_of : Bytes → LevelPath
unfolding topic_path next_topic_level
path_of topic = topic_path (length topic) topic

-- The path of a topic all of whose levels were read.
abbrev pub of_levels : List Bytes → LevelPath
of_levels [] = end
of_levels (l ∷ ls) = level l (of_levels ls)
