-- ===== src/Acl/Check/Covered.antt =====
-- plugins/auth/authfile/aclcheck.go: the loop over the filters of a rule.
use hmq.Prelude.{
  ◌≡◌, refl, inl, inr, Bool, true, false, ◌&&◌, ◌||◌, List, [], ◌∷◌, Bytes, ◌==◌, bytes_eq,
  beq_cases, if◌then◌else◌, arith,
}
use hmq.Acl.Check.{
  acl_pub, acl_sub, AuthInfo, check_auth, pub_topic_match, sub_topic_match, check_topic,
  check_topics,
}

-- One filter of a rule covers the topic of a request.
abbrev pub covers : Bytes → Bytes → Bytes → Bool
covers action topic des =
    if action == acl_pub
    then pub_topic_match topic des
    else if action == acl_sub
    then sub_topic_match topic des
    else false

abbrev pub covered : Bytes → Bytes → (Bytes → Bytes) → List Bytes → Bool
covered action topic expand [] = false
covered action topic expand (tp ∷ tps) =
    covers action topic (expand tp) || covered action topic expand tps

check_topic-found :
    (a : AuthInfo) (action topic des : Bytes) (m : Bool)
    → check_topic a action topic des (m, m && check_auth a action)
      ≡ (m || covers action topic des, (m || covers action topic des) && check_auth a action)
unfolding check_topic
check_topic-found a action topic des m = elim (beq_cases action acl_pub) [
  | inl (_, e) ↦ rw e (ground arith)
  | inr (b, _) ↦ elim (beq_cases action acl_sub) [
    | inl (_, e) ↦ rw e (ground arith)
    | inr (c, _) ↦ rw (b, c, check_topic) (ground arith)
  ]
]

or_assoc : (a b c : Bool) → ((a || b) || c) ≡ (a || (b || c))
or_assoc true b c = refl
or_assoc false b c = refl

check_topics-found :
    (a : AuthInfo) (action topic : Bytes) (expand : Bytes → Bytes) (tps : List Bytes) (m : Bool)
    → check_topics a action topic expand tps (m, m && check_auth a action) ≡ (
      m || covered action topic expand tps,
      (m || covered action topic expand tps) && check_auth a action,
    )
unfolding check_topics
check_topics-found a action topic expand [] true = refl
check_topics-found a action topic expand [] false = refl
check_topics-found a action topic expand (tp ∷ tps) m =
    rw (check_topic-found a action topic (expand tp) m, ← or_assoc)
      (check_topics-found a action topic expand tps (m || covers action topic (expand tp)))

-- The loop over the topics of a rule reports a match exactly if one
-- of them covers the requested topic, and then permission exactly if checkAuth permits the action.
pub check_topics-covered :
    (a : AuthInfo) (action topic : Bytes) (expand : Bytes → Bytes) (tps : List Bytes)
    → check_topics a action topic expand tps (false, false)
      ≡ (covered action topic expand tps, covered action topic expand tps && check_auth a action)
check_topics-covered a action topic expand tps = check_topics-found a action topic expand tps false
