-- ===== src/Topics/Level/Tests.antt =====
-- nextTopicLevel on sample topics.
use hmq.Prelude.{◌≡◌, refl, [], ◌∷◌, codes}
use hmq.Topics.Level.{
  mwc, swc, level, bad, path_of, of_levels, hash_not_alone, mwc_not_last, wildcard_not_alone,
}

plain : path_of (codes "sport/tennis") ≡ of_levels (codes "sport" ∷ codes "tennis" ∷ [])
unfolding path_of
plain = refl

leading : path_of (codes "/finance") ≡ of_levels (swc ∷ codes "finance" ∷ [])
unfolding path_of
leading = refl

trailing : path_of (codes "finance/") ≡ of_levels (codes "finance" ∷ [])
unfolding path_of
trailing = refl

multi : path_of (codes "a/+/#") ≡ of_levels (codes "a" ∷ swc ∷ mwc ∷ [])
unfolding path_of
multi = refl

not_last : path_of (codes "a/#/b") ≡ level (codes "a") (bad mwc_not_last)
unfolding path_of
not_last = refl

inside : path_of (codes "a/b#") ≡ level (codes "a") (bad hash_not_alone)
unfolding path_of
inside = refl

after : path_of (codes "+a") ≡ bad wildcard_not_alone
unfolding path_of
after = refl
