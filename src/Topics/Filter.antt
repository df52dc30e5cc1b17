-- ===== src/Topics/Filter.antt =====
-- What it means for a filter to match a topic, level by level.
use hmq.Prelude.{
  ℕ, zero, suc, ◌≡◌, ◌≢◌, refl, ◌⊎◌, true, List, [], ◌∷◌, ◌++◌, Bytes, ok, nat_eq, arith,
}
use hmq.Topics.Level.{
  mwc, swc, LevelState, chr_state, mwc_state, swc_state, is_mwc_state, scan_level, next_topic_level,
  topic_path, of_levels,
}
use hmq.Topics.Level.Paths.{topic_path-cons, topic_path-nil, topic_path-zero}

-- "#" stands for any levels, the parent's own included; "+" for one level.
abbrev pub Matches : List Bytes → List Bytes → Type 0
Matches [] [] = Unit
Matches [] (l ∷ ls) = ⊥
Matches (k ∷ ks) [] = (k ≡ mwc) × (ks ≡ [])
Matches (k ∷ ks) (l ∷ ls) =
    ((k ≡ mwc) × (ks ≡ [])) ⊎ ((k ≢ mwc) × ((k ≡ swc) ⊎ (k ≡ l)) × Matches ks ls)

-- "#" is the last level where it stands.
abbrev pub HashLast : List Bytes → Type 0
HashLast [] = Unit
HashLast (l ∷ ls) = (l ≡ mwc → ls ≡ []) × HashLast ls

append_one : (before : Bytes) (c x : ℕ) → before ++ c ∷ [] ≡ x ∷ [] → c ≡ x
append_one [] c x h = cc
append_one (b ∷ []) c x h = cc
append_one (b ∷ d ∷ before) c x h = cc

-- The loop is in its state for "#" when it has read that byte alone.
scan_level-hash :
    (s : LevelState) (before t l rem : Bytes)
    → (before ≡ mwc → is_mwc_state s ≡ true)
    → scan_level s before t ≡ ok (l, rem)
    → l ≡ mwc
    → rem ≡ []
unfolding scan_level
scan_level-hash s before [] l rem inv h e = cc
scan_level-hash s before (c ∷ t) l rem inv h e = ground (
  arith,
  append_one before c b'#',
  scan_level-hash mwc_state (before ++ c ∷ []) t l rem (λ _. refl),
  scan_level-hash swc_state (before ++ c ∷ []) t l rem,
  scan_level-hash chr_state (before ++ c ∷ []) t l rem,
)

next_topic_level-hash : (t l rem : Bytes) → next_topic_level t ≡ ok (l, rem) → l ≡ mwc → rem ≡ []
unfolding next_topic_level
next_topic_level-hash t l rem h e = scan_level-hash chr_state [] t l rem (λ p. cc p) h e

-- Of a topic all of whose levels are read, "#" is at most the last level.
pub topic_path-HashLast :
    (f : ℕ) (t : Bytes) (ls : List Bytes) → topic_path f t ≡ of_levels ls → HashLast ls
topic_path-HashLast f [] ls h = rw (topic_path-nil f ls h) tt
topic_path-HashLast zero (c ∷ t) ls h = absurd (topic_path-zero c t ls h)
topic_path-HashLast (suc f) (c ∷ t) ls h =
    let (l, rem, ls', read, rest, e) = topic_path-cons f c t ls h in
    rw e (
      λ p. topic_path-nil f ls' (rw (next_topic_level-hash (c ∷ t) l rem read p) at rest),
      topic_path-HashLast f rem ls' rest,
    )
