-- ===== src/Topics/Level/Paths.antt =====
-- The levels of a topic, read one call of `nextTopicLevel` at a time.
use hmq.Prelude.{
  ℕ, zero, suc, ◌+◌, ◌≤◌, ◌≡◌, ◌≢◌, refl, ◌⊎◌, inl, inr, List, [], ◌∷◌, ◌++◌, Bytes, ok, err,
  Result-cases, length, arith,
}
use hmq.Topics.Level.{
  TopicError, out_of_fuel, LevelState, scan_level, next_topic_level, level, bad, topic_path,
  of_levels, chr_state, mwc_state, swc_state,
}

-- A topic that is not empty and whose levels are all read has a first level and a rest.
pub topic_path-cons :
    (f c : ℕ) (t : Bytes) (ls : List Bytes)
    → topic_path (suc f) (c ∷ t) ≡ of_levels ls
    → (l : Bytes) × (rem : Bytes) × (ls' : List Bytes) × (next_topic_level (c ∷ t) ≡ ok (l, rem))
      × (topic_path f rem ≡ of_levels ls')
      × (ls ≡ l ∷ ls')
unfolding topic_path
topic_path-cons f c t ls h = elim (Result-cases (next_topic_level (c ∷ t))) [
  | inl ((l, rem), e) ↦ split l rem ls e (rw (e, topic_path) at h)
  | inr (x, e) ↦ absurd (bad_levels x ls (rw (e, topic_path) at h))
]
  where
    bad_levels : (x : TopicError) (ls : List Bytes) → bad x ≢ of_levels ls
    bad_levels x [] h = cc
    bad_levels x (l ∷ ls) h = cc

    split :
        (l rem : Bytes) (ls : List Bytes)
        → next_topic_level (c ∷ t) ≡ ok (l, rem)
        → level l (topic_path f rem) ≡ of_levels ls
        → (l : Bytes) × (rem : Bytes) × (ls' : List Bytes) × (next_topic_level (c ∷ t)
            ≡ ok (l, rem))
          × (topic_path f rem ≡ of_levels ls')
          × (ls ≡ l ∷ ls')
    split l rem [] e h = absurd (cc)
    split l rem (k ∷ ls) e h = (l, rem, ls, e, cc, cc)

pub topic_path-nil : (f : ℕ) (ls : List Bytes) → topic_path f [] ≡ of_levels ls → ls ≡ []
unfolding topic_path
topic_path-nil f [] h = refl
topic_path-nil f (l ∷ ls) h = cc

pub topic_path-zero : (c : ℕ) (t : Bytes) (ls : List Bytes) → topic_path zero (c ∷ t) ≢ of_levels ls
unfolding topic_path
topic_path-zero c t [] h = cc
topic_path-zero c t (l ∷ ls) h = cc

-- The rest is shorter than the topic by one byte at least.
length-scan_level :
    (s : LevelState) (before t : Bytes) (l rem : Bytes)
    → scan_level s before t ≡ ok (l, rem)
    → length rem + 1 ≤ length t ⊎ (rem ≡ [])
unfolding scan_level
length-scan_level s before [] l rem h = inr (cc)
length-scan_level s before (c ∷ t) l rem h = ground (
  arith,
  length-scan_level mwc_state (before ++ c ∷ []) t l rem,
  length-scan_level swc_state (before ++ c ∷ []) t l rem,
  length-scan_level chr_state (before ++ c ∷ []) t l rem,
)

pub length-next_topic_level :
    (c : ℕ) (t l rem : Bytes) → next_topic_level (c ∷ t) ≡ ok (l, rem) → length rem ≤ length t
unfolding next_topic_level
length-next_topic_level c t l rem h = elim (length-scan_level chr_state [] (c ∷ t) l rem h) [
  | inl le ↦ omega arith
  | inr e ↦ rw e (omega arith)
]

scan_level-error : (s : LevelState) (before t : Bytes) → scan_level s before t ≢ err out_of_fuel
unfolding scan_level
scan_level-error s before [] h = cc
scan_level-error s before (c ∷ t) h = ground (
  arith,
  scan_level-error mwc_state (before ++ c ∷ []) t,
  scan_level-error swc_state (before ++ c ∷ []) t,
  scan_level-error chr_state (before ++ c ∷ []) t,
)

pub next_topic_level-error : (t : Bytes) → next_topic_level t ≢ err out_of_fuel
unfolding next_topic_level
next_topic_level-error t = scan_level-error chr_state [] t
