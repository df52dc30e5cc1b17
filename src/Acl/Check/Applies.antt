-- ===== src/Acl/Check/Applies.antt =====
-- plugins/auth/authfile/aclcheck.go: the requests that a rule of the file is about.
use hmq.Prelude.{
  ◌≡◌, refl, ◌⊎◌, inl, inr, ◌↔◌, Bool, true, false, ◌&&◌, ◌||◌, List, [], ◌∷◌, Memᴰ, Bytes, codes,
  ◌==◌, bytes_eq, beq_cases, bytes_beq_iff, Bool-cases, if◌then◌else◌, arith, ◌∙◌, sym, subst,
}
use mathlib.Core.List.Memᴰ
use hmq.Go.{replace}
use hmq.Acl.Spilt.{subscribe_topic_spilt, publish_topic_spilt}
use hmq.Acl.Check.{
  acl_pub, acl_sub, client_id, username, ip, star, AuthInfo, or_nil, check_auth, pub_topic_match,
  sub_topic_match, check_topics, check_with_client_id, check_with_username, check_with_ip,
  check_info,
}
use hmq.Acl.Check.Topics.{Covers, match_levels_iff, Answers, match_filters_iff}
use hmq.Acl.Check.Permits.{clash, pub_not_sub}
use hmq.Acl.Check.Covered.{covers, covered, check_topics-covered}

-- A rule is for the name, or for every name.
abbrev pub IsFor : AuthInfo → Bytes → Type 0
IsFor info name = (info.val ≡ star) ⊎ (info.val ≡ name)

module _ (action addr user clientid topic : Bytes) where
  -- A filter fits the topic of a PUBLISH, or the requested filter of a SUBSCRIBE.
  abbrev pub Fits : Bytes → Type 0
  Fits des =
      (action ≡ acl_pub)
        × Covers (or_nil (subscribe_topic_spilt des)) (or_nil (publish_topic_spilt topic))
      ⊎ (action ≡ acl_sub)
        × Answers (or_nil (subscribe_topic_spilt des)) (or_nil (subscribe_topic_spilt topic))

  abbrev pub HasFitting : (Bytes → Bytes) → List Bytes → Type 0
  HasFitting expand tps = (tp : Bytes) × Memᴰ tp tps × Fits (expand tp)

  -- A rule is for a name, and one of its filters fits.
  abbrev pub IsAbout : AuthInfo → Bytes → (Bytes → Bytes) → Type 0
  IsAbout info name expand = IsFor info name × HasFitting expand info.topics

  -- A rule is about a request: it is for the client's identifier, the user's name or the address, as
  -- its type says, and one of its filters fits, with the identifier in the place of "%c" or the
  -- user's name in that of "%u".
  abbrev pub Applies : AuthInfo → Type 0
  Applies info =
      (info.typ ≡ client_id) × IsAbout info clientid (λ tp. replace tp (codes "%c") clientid)
      ⊎ (info.typ ≡ username) × IsAbout info user (λ tp. replace tp (codes "%u") user)
      ⊎ (info.typ ≡ ip) × IsAbout info addr (λ tp. tp)

  covers-Fits : (des : Bytes) → (covers action topic des ≡ true) ↔ Fits des
  unfolding pub_topic_match sub_topic_match
  covers-Fits des = elim (beq_cases action acl_pub) [
    | inl (a, e) ↦ (
      λ h. inl (e, (match_levels_iff _ _).0 (rw a at h)),
      λ f. elim f [
        | inl (_, c) ↦ rw a ((match_levels_iff _ _).1 c)
        | inr (q, _) ↦ absurd (pub_not_sub (sym e ∙ q))
      ],
    )
    | inr (a, ne) ↦ elim (beq_cases action acl_sub) [
      | inl (b, e) ↦ (
        λ h. inr (e, (match_filters_iff _ _).0 (rw (a, b) at h)),
        λ f. elim f [
          | inl (q, _) ↦ absurd (ne q)
          | inr (_, c) ↦ rw (a, b) ((match_filters_iff _ _).1 c)
        ],
      )
      | inr (b, ne') ↦ (
        λ h. absurd (cc (rw (a, b) at h)),
        λ f. elim f [ inl (q, _) ↦ absurd (ne q) | inr (q, _) ↦ absurd (ne' q) ],
      )
    ]
  ]

  covered-Fits :
      (expand : Bytes → Bytes) (tps : List Bytes)
      → covered action topic expand tps ≡ true
      → HasFitting expand tps
  covered-Fits expand [] h = cc
  covered-Fits expand (tp ∷ tps) h = elim (Bool-cases (covers action topic (expand tp))) [
    | inl b ↦ (tp, Memᴰ.head refl, (covers-Fits (expand tp)).0 b)
    | inr b ↦ let (t, i, f) = covered-Fits expand tps (rw b at h) in (t, Memᴰ.tail i, f)
  ]

  or_true : (a b : Bool) → b ≡ true → (a || b) ≡ true
  or_true true b h = refl
  or_true false b h = h

  Fits-covered :
      (expand : Bytes → Bytes) (tps : List Bytes)
      → HasFitting expand tps
      → covered action topic expand tps ≡ true
  Fits-covered expand [] (t, i, f) = absurd (Memᴰ.not-nil i)
  Fits-covered expand (tp ∷ tps) (t, Memᴰ.head e, f) =
      rw ((covers-Fits (expand tp)).1 (subst (λ t. Fits (expand t)) e f)) refl
  Fits-covered expand (tp ∷ tps) (t, Memᴰ.tail i, f) =
      or_true (covers action topic (expand tp)) (covered action topic expand tps)
        (Fits-covered expand tps (t, i, f))

  -- A rule that is for the name, or not, and its filters.
  abbrev about : AuthInfo → Bytes → (Bytes → Bytes) → Bool
  about info name expand =
      (info.val == star || info.val == name) && covered action topic expand info.topics

  about_iff :
      (info : AuthInfo) (name : Bytes) (expand : Bytes → Bytes)
      → (about info name expand ≡ true) ↔ IsAbout info name expand
  about_iff info name expand = (
    λ h. let (a, b) = and_parts _ _ h in (named a, covered-Fits expand info.topics b),
    λ (n, f). rw (Fits-covered expand info.topics f) (naming n),
  )
    where
      and_parts : (a b : Bool) → (a && b) ≡ true → (a ≡ true) × (b ≡ true)
      and_parts true b h = (refl, h)
      and_parts false b h = cc

      named : (info.val == star || info.val == name) ≡ true → IsFor info name
      named h = ground (arith, bytes_beq_iff info.val star, bytes_beq_iff info.val name)

      naming : IsFor info name → ((info.val == star || info.val == name) && true) ≡ true
      naming n = ground (arith, bytes_beq_iff info.val star, bytes_beq_iff info.val name)

  abbrev pub says : AuthInfo → Bool → Bool × Bool
  says info b = (b, b && check_auth info action)

  about-says :
      (info : AuthInfo) (name : Bytes) (expand : Bytes → Bytes)
      → (if info.val == star || info.val == name
          then check_topics info action topic expand info.topics (false, false)
          else (false, false))
        ≡ says info (about info name expand)
  about-says info name expand = elim (Bool-cases (info.val == star || info.val == name)) [
    | inl b ↦ rw b (check_topics-covered info action topic expand info.topics)
    | inr b ↦ rw b refl
  ]

  abbrev pub verdict : AuthInfo → Bool × Bool
  verdict info = check_info info action addr user clientid topic

  abbrev pub applies : AuthInfo → Bool
  applies info =
      if info.typ == client_id
      then about info clientid (λ tp. replace tp (codes "%c") clientid)
      else if info.typ == username
      then about info user (λ tp. replace tp (codes "%u") user)
      else if info.typ == ip
      then about info addr (λ tp. tp)
      else false

  pub verdict-says : (info : AuthInfo) → verdict info ≡ says info (applies info)
  unfolding check_info check_with_client_id check_with_username check_with_ip
  verdict-says info = elim (Bool-cases (info.typ == client_id)) [
    | inl a ↦ rw a (about-says info clientid (λ tp. replace tp (codes "%c") clientid))
    | inr a ↦ elim (Bool-cases (info.typ == username)) [
      | inl b ↦ rw (a, b) (about-says info user (λ tp. replace tp (codes "%u") user))
      | inr b ↦ elim (Bool-cases (info.typ == ip)) [
        | inl c ↦ rw (a, b, c) (about-says info addr (λ tp. tp))
        | inr c ↦ rw (a, b, c) refl
      ]
    ]
  ]

  pub applies_iff : (info : AuthInfo) → (applies info ≡ true) ↔ Applies info
  applies_iff info = elim (beq_cases info.typ client_id) [
    | inl (a, e) ↦ (
      λ h. inl (e, (about_iff info clientid _).0 (rw a at h)),
      λ f. elim f [
        | inl (_, g) ↦ rw a ((about_iff info clientid _).1 g)
        | inr (inl (q, _)) ↦ absurd (not_username (sym e ∙ q))
        | inr (inr (q, _)) ↦ absurd (not_ip (sym e ∙ q))
      ],
    )
    | inr (a, ne) ↦ elim (beq_cases info.typ username) [
      | inl (b, e) ↦ (
        λ h. inr (inl (e, (about_iff info user _).0 (rw (a, b) at h))),
        λ f. elim f [
          | inl (q, _) ↦ absurd (ne q)
          | inr (inl (_, g)) ↦ rw (a, b) ((about_iff info user _).1 g)
          | inr (inr (q, _)) ↦ absurd (username_not_ip (sym e ∙ q))
        ],
      )
      | inr (b, ne') ↦ elim (beq_cases info.typ ip) [
        | inl (c, e) ↦ (
          λ h. inr (inr (e, (about_iff info addr _).0 (rw (a, b, c) at h))),
          λ f. elim f [
            | inl (q, _) ↦ absurd (ne q)
            | inr (inl (q, _)) ↦ absurd (ne' q)
            | inr (inr (_, g)) ↦ rw (a, b, c) ((about_iff info addr _).1 g)
          ],
        )
        | inr (c, ne'') ↦ (
          λ h. absurd (cc (rw (a, b, c) at h)),
          λ f. elim f [
            | inl (q, _) ↦ absurd (ne q)
            | inr (inl (q, _)) ↦ absurd (ne' q)
            | inr (inr (q, _)) ↦ absurd (ne'' q)
          ],
        )
      ]
    ]
  ]
    where
      not_username : ¬ (client_id ≡ username)
      not_username q = clash ((bytes_beq_iff client_id username).1 q)

      not_ip : ¬ (client_id ≡ ip)
      not_ip q = clash ((bytes_beq_iff client_id ip).1 q)

      username_not_ip : ¬ (username ≡ ip)
      username_not_ip q = clash ((bytes_beq_iff username ip).1 q)
