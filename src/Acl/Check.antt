-- ===== src/Acl/Check.antt =====
-- plugins/auth/authfile/aclcheck.go: the decision for one client, action and topic.
pub mod Topics
pub mod Covered
pub mod Permits
pub mod Applies
pub mod Rules
use hmq.Prelude.{
  ℕ, Bool, true, false, ◌&&◌, ◌||◌, not, List, [], ◌∷◌, Bytes, codes, Result, ok, err, ◌==◌,
  bytes_eq, if◌then◌else◌,
}
use hmq.Go.{replace, replace_skip}
use hmq.Acl.Spilt.{SpiltError, subscribe_topic_spilt, publish_topic_spilt}

-- aclconfig.go: the constants and the struct AuthInfo
abbrev pub acl_sub : Bytes
acl_sub = codes "1"

abbrev pub acl_pub : Bytes
acl_pub = codes "2"

abbrev pub acl_pubsub : Bytes
acl_pubsub = codes "3"

abbrev pub client_id : Bytes
client_id = codes "clientid"

abbrev pub username : Bytes
username = codes "username"

abbrev pub ip : Bytes
ip = codes "ip"

abbrev pub allow : Bytes
allow = codes "allow"

abbrev pub deny : Bytes
deny = codes "deny"

abbrev pub star : Bytes
star = codes "*"

pub record AuthInfo : Type 0 where
  pub auth : Bytes
  pub typ : Bytes
  pub val : Bytes
  pub pub_sub : Bytes
  pub topics : List Bytes

-- `dest, _ := …`: an error leaves the nil slice.
abbrev pub or_nil : Result SpiltError (List Bytes) → List Bytes
or_nil (ok ls) = ls
or_nil (err e) = []

-- The loop of pubTopicMatch, over the levels that are left of both.
unfoldable pub match_levels : List Bytes → List Bytes → Bool
match_levels [] topic = true
match_levels (t ∷ dest) [] = false
match_levels (t ∷ dest) (l ∷ topic) =
    let rest = match_levels dest topic in
    if t == codes "#" then true else if t == codes "+" || t == l then rest else false

unfoldable pub pub_topic_match : Bytes → Bytes → Bool
unfolding match_levels subscribe_topic_spilt publish_topic_spilt
pub_topic_match topic des =
    match_levels (or_nil (subscribe_topic_spilt des)) (or_nil (publish_topic_spilt topic))

-- The loop of subTopicMatch: a "+" of the requested filter stands for any level of the rule.
unfoldable pub match_filters : List Bytes → List Bytes → Bool
match_filters [] topic = true
match_filters (t ∷ dest) [] = false
match_filters (t ∷ dest) (l ∷ topic) =
    let rest = match_filters dest topic in
    if t == codes "#"
    then true
    else if t == codes "+" || l == codes "+" || t == l
    then rest
    else false

unfoldable pub sub_topic_match : Bytes → Bytes → Bool
unfolding match_filters subscribe_topic_spilt
sub_topic_match topic des =
    match_filters (or_nil (subscribe_topic_spilt des)) (or_nil (subscribe_topic_spilt topic))

-- checkAuth
unfoldable pub check_auth : AuthInfo → Bytes → Bool
check_auth a action =
    if action == acl_pub
    then (if a.auth == allow && (a.pub_sub == acl_pub || a.pub_sub == acl_pubsub)
        then true
        else if a.auth == deny && a.pub_sub == acl_sub
        then true
        else false)
    else if action == acl_sub
    then (if a.auth == allow && (a.pub_sub == acl_sub || a.pub_sub == acl_pubsub)
        then true
        else if a.auth == deny && a.pub_sub == acl_pub
        then true
        else false)
    else false

-- One round of the loop over `a.Topics`, at the filter `des`.
unfoldable pub check_topic : AuthInfo → Bytes → Bytes → Bytes → Bool × Bool → Bool × Bool
unfolding check_auth pub_topic_match sub_topic_match
check_topic a action topic des (match, auth) =
    if action == acl_pub
    then (if pub_topic_match topic des then (true, check_auth a acl_pub) else (match, auth))
    else if action == acl_sub
    then (if sub_topic_match topic des then (true, check_auth a acl_sub) else (match, auth))
    else (match, auth)

-- The loop over `a.Topics`, where `expand` fills in a placeholder.
unfoldable pub check_topics :
    AuthInfo → Bytes → Bytes → (Bytes → Bytes) → List Bytes → Bool × Bool → Bool × Bool
unfolding check_topic
check_topics a action topic expand [] found = found
check_topics a action topic expand (tp ∷ tps) found =
    check_topics a action topic expand tps (check_topic a action topic (expand tp) found)

unfoldable pub check_with_client_id : AuthInfo → Bytes → Bytes → Bytes → Bool × Bool
unfolding check_topics replace_skip
check_with_client_id a action clientid topic =
    if a.val == star || a.val == clientid
    then check_topics a action topic (λ tp. replace tp (codes "%c") clientid) a.topics
        (false, false)
    else (false, false)

unfoldable pub check_with_username : AuthInfo → Bytes → Bytes → Bytes → Bool × Bool
unfolding check_topics replace_skip
check_with_username a action username topic =
    if a.val == star || a.val == username
    then check_topics a action topic (λ tp. replace tp (codes "%u") username) a.topics
        (false, false)
    else (false, false)

unfoldable pub check_with_ip : AuthInfo → Bytes → Bytes → Bytes → Bool × Bool
unfolding check_topics
check_with_ip a action ip topic =
    if a.val == star || a.val == ip
    then check_topics a action topic (λ tp. tp) a.topics (false, false)
    else (false, false)

-- The switch on the type of a rule: does it match, and what does it say?
unfoldable pub check_info : AuthInfo → Bytes → Bytes → Bytes → Bytes → Bytes → Bool × Bool
unfolding check_with_client_id check_with_username check_with_ip
check_info info action addr user clientid topic =
    if info.typ == client_id
    then check_with_client_id info action clientid topic
    else if info.typ == username
    then check_with_username info action user topic
    else if info.typ == ip
    then check_with_ip info action addr topic
    else (false, false)

-- The first rule that matches decides; where none does the answer is no.
unfoldable pub check_topic_auth : List AuthInfo → Bytes → Bytes → Bytes → Bytes → Bytes → Bool
unfolding check_info
check_topic_auth [] action addr user clientid topic = false
check_topic_auth (info ∷ infos) action addr user clientid topic =
    let rest = check_topic_auth infos action addr user clientid topic in
    let (match, auth) = check_info info action addr user clientid topic in
    if match then auth else rest

-- acl.go: the methods of aclAuth over the rules of its configuration
unfoldable pub check_acl : List AuthInfo → Bytes → Bytes → Bytes → Bytes → Bytes → Bool
unfolding check_topic_auth
check_acl config action clientid user addr topic =
    check_topic_auth config action addr user clientid topic

abbrev pub check_connect : List AuthInfo → Bytes → Bytes → Bytes → Bool
check_connect config clientid user password = true
