-- ===== src/Acl/Check/Rules.antt =====
-- What a list of rules decides.
use hmq.Prelude.{
  Memᴰ, sym, ◌∙◌, subst, ◌≡◌, refl, ap, ◌⊎◌, inl, inr, ◌↔◌, true, false, not, List, [], ◌∷◌, ◌++◌,
  Bytes, bytes_eq, Bool-cases, if◌then◌else◌,
}
use mathlib.Core.List.Memᴰ
use hmq.Acl.Check.{
  acl_pub, acl_sub, acl_pubsub, allow, deny, AuthInfo, check_auth, check_topic_auth,
}
use hmq.Acl.Check.Permits.{clash, Permits, check_auth_iff}
use hmq.Acl.Check.Applies.{applies, applies_iff, Applies, verdict-says}

-- The two actions that the broker asks about.
abbrev pub IsAction : Bytes → Type 0
IsAction action = (action ≡ acl_pub) ⊎ (action ≡ acl_sub)

abbrev pub IsPubSub : Bytes → Type 0
IsPubSub p = (p ≡ acl_pub) ⊎ (p ≡ acl_sub) ⊎ (p ≡ acl_pubsub)

-- A "deny" rule answers each action with the opposite of the "allow" rule for the same actions.
pub check_auth-deny :
    (a : AuthInfo) (p action : Bytes)
    → IsPubSub p
    → IsAction action
    → check_auth (record a { auth = deny; pub_sub = p }) action
      ≡ not (check_auth (record a { auth = allow; pub_sub = p }) action)
unfolding check_auth
check_auth-deny a p action (inl e) (inl h) = rw (e, h)
check_auth-deny a p action (inl e) (inr h) = rw (e, h)
check_auth-deny a p action (inr (inl e)) (inl h) = rw (e, h)
check_auth-deny a p action (inr (inl e)) (inr h) = rw (e, h)
check_auth-deny a p action (inr (inr e)) (inl h) = rw (e, h)
check_auth-deny a p action (inr (inr e)) (inr h) = rw (e, h)

module _ (action addr user clientid topic : Bytes) where
  abbrev IsMatch : AuthInfo → Type 0
  IsMatch info = Applies action addr user clientid topic info

  -- Some rule is about the request and permits the action, and no rule before it is about the request.
  abbrev pub Allows : List AuthInfo → Type 0
  Allows infos =
      (before : List AuthInfo) × (info : AuthInfo) × (after : List AuthInfo) × (infos
        ≡ before ++ info ∷ after)
      × ((r : AuthInfo) → Memᴰ r before → ¬ IsMatch r)
      × IsMatch info
      × Permits action info

  -- One turn of the loop over the rules.
  check_topic_auth-cons :
      (info : AuthInfo) (infos : List AuthInfo)
      → check_topic_auth (info ∷ infos) action addr user clientid topic ≡ (
          if applies action addr user clientid topic info
          then check_auth info action
          else check_topic_auth infos action addr user clientid topic)
  unfolding check_topic_auth
  check_topic_auth-cons info infos =
      let says = verdict-says action addr user clientid topic info in
      elim (Bool-cases (applies action addr user clientid topic info)) [
        | inl b ↦ rw (says, b) refl
        | inr b ↦ rw (says, b) refl
      ]

  allowed_sound :
      (infos : List AuthInfo)
      → check_topic_auth infos action addr user clientid topic ≡ true
      → Allows infos
  unfolding check_topic_auth
  allowed_sound [] h = cc
  allowed_sound (info ∷ infos) h =
      let about = applies_iff action addr user clientid topic info in
      let turn = sym (check_topic_auth-cons info infos) ∙ h in
      elim (Bool-cases (applies action addr user clientid topic info)) [
        | inl b ↦ (
          [],
          info,
          infos,
          refl,
          λ r i. absurd (Memᴰ.not-nil i),
          about.0 b,
          (check_auth_iff action info).0 (rw b at turn),
        )
        | inr b ↦
            let (before, r, after, e, none, m, ok) = allowed_sound infos (rw b at turn) in
            (info ∷ before, r, after, ap (λ l. info ∷ l) e, unmatched info before b none, m, ok)
      ]
    where
      unmatched :
          (info : AuthInfo) (before : List AuthInfo)
          → applies action addr user clientid topic info ≡ false
          → ((r : AuthInfo) → Memᴰ r before → ¬ IsMatch r)
          → (r : AuthInfo) → Memᴰ r (info ∷ before)
          → ¬ IsMatch r
      unmatched info before b none r (Memᴰ.head e) m =
          clash (sym b ∙ (applies_iff action addr user clientid topic info).1 (subst IsMatch e m))
      unmatched info before b none r (Memᴰ.tail i) m = none r i m

  allowed_complete :
      (before : List AuthInfo) (info : AuthInfo) (after : List AuthInfo)
      → ((r : AuthInfo) → Memᴰ r before → ¬ IsMatch r)
      → IsMatch info
      → Permits action info
      → check_topic_auth (before ++ info ∷ after) action addr user clientid topic ≡ true
  allowed_complete [] info after none m ok =
      check_topic_auth-cons info after
      ∙ rw ((applies_iff action addr user clientid topic info).1 m)
          ((check_auth_iff action info).1 ok)
  allowed_complete (r ∷ before) info after none m ok =
      elim (Bool-cases (applies action addr user clientid topic r)) [
        | inl b ↦
            absurd (none r (Memᴰ.head refl) ((applies_iff action addr user clientid topic r).0 b))
        | inr b ↦
            check_topic_auth-cons r (before ++ info ∷ after)
            ∙ rw b (allowed_complete before info after (λ x i. none x (Memᴰ.tail i)) m ok)
      ]

  -- A request is allowed exactly if some rule is about it and permits the action, and no rule before
  -- that one is about it. A rule is about a request if it is for every name or for the client's
  -- identifier, the user's name or the address, as its type says, and one of its filters, with "%c"
  -- or "%u" filled in, covers the topic level by level. "allow" permits the actions that the rule
  -- names, and "deny" the one that it does not name.
  pub check_topic_auth_iff :
      (infos : List AuthInfo)
      → (check_topic_auth infos action addr user clientid topic ≡ true) ↔ Allows infos
  check_topic_auth_iff infos = (
    allowed_sound infos,
    λ (before, info, after, e, none, m, ok). rw e (allowed_complete before info after none m ok),
  )
