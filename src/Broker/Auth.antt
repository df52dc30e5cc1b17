-- ===== src/Broker/Auth.antt =====
-- broker/auth.go, and the pattern of shared subscriptions of broker/client.go.
pub mod Groups
use hmq.Prelude.{
  ℕ, Bool, true, false, ◌&&◌, ◌||◌, not, Option, none, some, List, [], ◌∷◌, ◌++◌, Bytes, codes,
  ◌==◌, nat_eq, bytes_eq, leb, is_empty, if◌then◌else◌,
}
use hmq.Go.{has_prefix, contains_byte}
use hmq.Broker.{Authenticator}

abbrev pub share_prefix : Bytes
share_prefix = codes "$share/"

-- [0-9a-zA-Z_-]
abbrev pub is_group_char : ℕ → Bool
is_group_char c =
    leb b'0' c && leb c b'9'
    || leb b'a' c && leb c b'z'
    || leb b'A' c && leb c b'Z'
    || c == b'_'
    || c == b'-'

-- The rest of the pattern behind its prefix: a group of at least one character, "/", and the topic,
-- which holds no line break.
unfoldable pub group_from : Bytes → Bytes → Option (Bytes × Bytes)
unfolding contains_byte
group_from name [] = none
group_from name (c ∷ s) =
    let rest = group_from (name ++ c ∷ []) s in
    if is_group_char c
    then rest
    else if c == b'/' && not (is_empty name) && not (contains_byte s b'\n')
    then some (name, s)
    else none

unfoldable pub drop_prefix : Bytes → Bytes → Bytes
drop_prefix [] s = s
drop_prefix (c ∷ p) [] = []
drop_prefix (c ∷ p) (d ∷ s) = drop_prefix p s

-- groupCompile.FindStringSubmatch: the group and the topic, or no match.
unfoldable pub find_group : Bytes → Option (Bytes × Bytes)
unfolding has_prefix group_from drop_prefix
find_group topic =
    if has_prefix topic share_prefix then group_from [] (drop_prefix share_prefix topic) else none

abbrev pub sub : Bytes
sub = codes "1"

abbrev pub pub_action : Bytes
pub_action = codes "2"

abbrev pub clients_topic : Bytes
clients_topic = codes "$SYS/broker/connection/clients/"

-- The topic that is asked about, none where a shared subscription is malformed.
unfoldable pub asked_topic : Bytes → Bytes → Option Bytes
unfolding find_group
asked_topic action topic =
    if has_prefix topic share_prefix && action == sub
    then elim (find_group topic) [ none ↦ none | some (group, t) ↦ some t ]
    else some topic

unfoldable pub check_topic_auth :
    Option Authenticator → Bytes → Bytes → Bytes → Bytes → Bytes → Bool
unfolding asked_topic has_prefix
check_topic_auth none action client_id username ip topic = true
check_topic_auth (some auth) action client_id username ip topic =
    if has_prefix topic clients_topic then true else elim (asked_topic action topic) [
      | none ↦ false
      | some t ↦ auth.check_acl action client_id username ip t
    ]

unfoldable pub check_connect_auth : Option Authenticator → Bytes → Bytes → Bytes → Bool
check_connect_auth none client_id username password = true
check_connect_auth (some auth) client_id username password =
    auth.check_connect client_id username password
