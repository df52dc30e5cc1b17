-- ===== src/Acl/Check/Topics.antt =====
-- Which topics the filters of the rules cover.
use hmq.Prelude.{
  ℕ, ◌≡◌, ◌≢◌, refl, ◌⊎◌, inl, inr, ◌↔◌, true, false, List, [], ◌∷◌, ◌++◌, Bytes, codes, ◌==◌,
  nat_eq, bytes_eq, Bool-cases, beq_cases, bytes_beq_iff, arith, ok, err,
}
use hmq.Go.{split_from}
use hmq.Acl.Spilt.{SpiltError, subscribe_topic_spilt, publish_topic_spilt, bad_hash, spilt_filter}
use hmq.Acl.Check.{match_levels, match_filters, pub_topic_match, sub_topic_match, or_nil}

-- The levels of a rule cover those of a topic, and of every topic below it.
abbrev pub Covers : List Bytes → List Bytes → Type 0
Covers [] ls = Unit
Covers (t ∷ ts) [] = ⊥
Covers (t ∷ ts) (l ∷ ls) = (t ≡ codes "#") ⊎ ((t ≡ codes "+") ⊎ (t ≡ l)) × Covers ts ls

match_levels-Covers : (ts ls : List Bytes) → match_levels ts ls ≡ true → Covers ts ls
unfolding match_levels
match_levels-Covers [] ls h = tt
match_levels-Covers (t ∷ ts) [] h = cc
match_levels-Covers (t ∷ ts) (l ∷ ls) h = elim (beq_cases t (codes "#")) [
  | inl (_, e) ↦ inl e
  | inr (a, _) ↦ elim (beq_cases t (codes "+")) [
    | inl (b, e) ↦ inr (inl e, match_levels-Covers ts ls (rw (a, b, match_levels) at h))
    | inr (b, _) ↦ elim (beq_cases t l) [
      | inl (c, e) ↦ inr (inr e, match_levels-Covers ts ls (rw (a, b, c, match_levels) at h))
      | inr (c, _) ↦ absurd (cc (rw (a, b, c, match_levels) at h))
    ]
  ]
]

Covers-match_levels : (ts ls : List Bytes) → Covers ts ls → match_levels ts ls ≡ true
unfolding match_levels
Covers-match_levels [] ls h = refl
Covers-match_levels (t ∷ ts) [] h = absurd h
Covers-match_levels (t ∷ ts) (l ∷ ls) (inl e) = rw e
Covers-match_levels (t ∷ ts) (l ∷ ls) (inr (fits, h)) =
    ground (arith, Covers-match_levels ts ls h, bytes_beq_iff t (codes "+"), bytes_beq_iff t l)

-- The loop of pubTopicMatch answers true exactly if each level of the rule, up to its end or to a
-- "#", is "+" or the level of the topic at its place.
pub match_levels_iff : (ts ls : List Bytes) → (match_levels ts ls ≡ true) ↔ Covers ts ls
match_levels_iff ts ls = (match_levels-Covers ts ls, Covers-match_levels ts ls)

-- The levels of a rule answer those of a requested filter, whose "+" stands for any level of the rule.
abbrev pub Answers : List Bytes → List Bytes → Type 0
Answers [] ls = Unit
Answers (t ∷ ts) [] = ⊥
Answers (t ∷ ts) (l ∷ ls) =
    (t ≡ codes "#") ⊎ ((t ≡ codes "+") ⊎ (l ≡ codes "+") ⊎ (t ≡ l)) × Answers ts ls

match_filters-Answers : (ts ls : List Bytes) → match_filters ts ls ≡ true → Answers ts ls
unfolding match_filters
match_filters-Answers [] ls h = tt
match_filters-Answers (t ∷ ts) [] h = cc
match_filters-Answers (t ∷ ts) (l ∷ ls) h = elim (beq_cases t (codes "#")) [
  | inl (_, e) ↦ inl e
  | inr (a, _) ↦ elim (beq_cases t (codes "+")) [
    | inl (b, e) ↦ inr (inl e, match_filters-Answers ts ls (rw (a, b, match_filters) at h))
    | inr (b, _) ↦ elim (beq_cases l (codes "+")) [
      | inl (c, e) ↦
          inr (inr (inl e), match_filters-Answers ts ls (rw (a, b, c, match_filters) at h))
      | inr (c, _) ↦ elim (beq_cases t l) [
        | inl (d, e) ↦
            inr (inr (inr e), match_filters-Answers ts ls (rw (a, b, c, d, match_filters) at h))
        | inr (d, _) ↦ absurd (cc (rw (a, b, c, d, match_filters) at h))
      ]
    ]
  ]
]

Answers-match_filters : (ts ls : List Bytes) → Answers ts ls → match_filters ts ls ≡ true
unfolding match_filters
Answers-match_filters [] ls h = refl
Answers-match_filters (t ∷ ts) [] h = absurd h
Answers-match_filters (t ∷ ts) (l ∷ ls) (inl e) = rw e
Answers-match_filters (t ∷ ts) (l ∷ ls) (inr (fits, h)) = ground (
  arith,
  Answers-match_filters ts ls h,
  bytes_beq_iff t (codes "+"),
  bytes_beq_iff l (codes "+"),
  bytes_beq_iff t l,
)

-- The loop of subTopicMatch answers true exactly if each level of the rule, up to its end or to a
-- "#", is "+" or the level of the requested filter at its place, which may be "+" too.
pub match_filters_iff : (ts ls : List Bytes) → (match_filters ts ls ≡ true) ↔ Answers ts ls
match_filters_iff ts ls = (match_filters-Answers ts ls, Answers-match_filters ts ls)

Covers-append : (ts ls more : List Bytes) → Covers ts ls → Covers ts (ls ++ more)
Covers-append [] ls more h = tt
Covers-append (t ∷ ts) [] more h = absurd h
Covers-append (t ∷ ts) (l ∷ ls) more (inl e) = inl e
Covers-append (t ∷ ts) (l ∷ ls) more (inr (fits, h)) = inr (fits, Covers-append ts ls more h)

-- A rule that covers a topic covers every topic below it: one that can be taken apart and whose
-- levels begin with those of the first.
pub_topic_match_below :
    (des topic deeper : Bytes) (ls more : List Bytes)
    → publish_topic_spilt topic ≡ ok ls
    → publish_topic_spilt deeper ≡ ok (ls ++ more)
    → pub_topic_match topic des ≡ true
    → pub_topic_match deeper des ≡ true
unfolding pub_topic_match
pub_topic_match_below des topic deeper ls more e d h =
    let ts = or_nil (subscribe_topic_spilt des) in
    rw d (
      Covers-match_levels ts (ls ++ more)
        (Covers-append ts ls more (match_levels-Covers ts ls (rw e at h))))

-- A filter of a rule that cannot be taken apart covers every topic and every requested filter.
pub malformed_covers_all :
    (des topic : Bytes) (x : SpiltError)
    → subscribe_topic_spilt des ≡ err x
    → (pub_topic_match topic des ≡ true) × (sub_topic_match topic des ≡ true)
unfolding pub_topic_match match_levels sub_topic_match match_filters
malformed_covers_all des topic x h = rw h (refl, refl)

split-cons :
    (sep : ℕ) (before s : Bytes)
    → (l : Bytes) × (ls : List Bytes) × (split_from sep before s ≡ l ∷ ls)
unfolding split_from
split-cons sep before [] = (before, [], refl)
split-cons sep before (c ∷ s) = elim (Bool-cases (c == sep)) [
  | inl b ↦ (before, split_from sep [] s, rw b)
  | inr b ↦ rw b (split-cons sep (before ++ c ∷ []) s)
]

spilt_filter-cons :
    (i last : ℕ) (v : Bytes) (re : List Bytes) → spilt_filter i last (v ∷ re) ≢ ok []
unfolding spilt_filter
spilt_filter-cons i last v re h = ground arith

subscribe_topic_spilt-cons : (des : Bytes) → subscribe_topic_spilt des ≢ ok []
unfolding subscribe_topic_spilt
subscribe_topic_spilt-cons des h =
    let (l, re, e) = split-cons b'/' [] des in
    elim (Bool-cases (bad_hash des)) [
      | inl b ↦ absurd (cc (rw (b, subscribe_topic_spilt) at h))
      | inr b ↦ spilt_filter-cons 0 _ l re (rw (b, e, subscribe_topic_spilt) at h)
    ]

-- A topic with a wildcard in it is covered by no filter that can be taken apart.
pub wildcard_not_covered :
    (des topic : Bytes) (ls : List Bytes) (x : SpiltError)
    → subscribe_topic_spilt des ≡ ok ls
    → publish_topic_spilt topic ≡ err x
    → pub_topic_match topic des ≡ false
unfolding pub_topic_match match_levels
wildcard_not_covered des topic [] x h e = absurd (subscribe_topic_spilt-cons des h)
wildcard_not_covered des topic (l ∷ ls) x h e = rw (h, e)
