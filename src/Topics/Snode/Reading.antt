-- ===== src/Topics/Snode/Reading.antt =====
-- broker/lib/topics/memtopics.go, sinsert: it reports no error only where it has read all levels of
-- the topic.
use hmq.Prelude.{
  ℕ, zero, suc, ◌≡◌, refl, sym, ap, ◌∙◌, inl, inr, none, some, List, [], ◌∷◌, Bytes, Result-cases,
}
use hmq.Topics.Level.{TopicError, level, next_topic_level, topic_path, of_levels}
use hmq.Topics.Value.{Value}
use hmq.Topics.Snode.{Snode, or_new, sinsert}
use hmq.Topics.Snode.Subscribed.{put_child-error}
use hmq.Topics.Tree.{nodes, get_child}

pub sinsert-reads :
    (f : ℕ) (t : Bytes) (q : ℕ) (sub : Value) (s : Snode)
    → (sinsert f t q sub s).1 ≡ none
    → (ls : List Bytes) × (topic_path f t ≡ of_levels ls)
unfolding sinsert topic_path
sinsert-reads f [] q sub s h = ([], refl)
sinsert-reads zero (c ∷ t) q sub s h = cc
sinsert-reads (suc f) (c ∷ t) q sub s h = elim (Result-cases (next_topic_level (c ∷ t))) [
  | inl ((l, rem), e) ↦
      let inner = sinsert f rem q sub (or_new (get_child l (nodes s))) in
      let (ls, r) =
        sinsert-reads f rem q sub (or_new (get_child l (nodes s)))
          (sym (put_child-error l s inner.0 inner.1) ∙ (rw (e, sinsert) at h)) in
      (l ∷ ls, rw (e, topic_path) (ap (level l) r))
  | inr (y, e) ↦ absurd (reports y (rw (e, sinsert) at h))
]
  where
    reports : (x : TopicError) → ¬ (some x ≡ none)
    reports x p = cc
