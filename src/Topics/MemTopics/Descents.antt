-- ===== src/Topics/MemTopics/Descents.antt =====
-- broker/lib/topics/memtopics.go: the fuel of the descents through the trees.
use hmq.Prelude.{
  ℕ, zero, suc, ◌≤◌, ◌≡◌, ◌≢◌, refl, ◌∙◌, ap, Bool, true, false, ◌||◌, ◌==◌, inl, inr, Option, none,
  some, some_inj, List, [], ◌∷◌, Bytes, bytes_eq, Result, ok, err, ◌>>=◌, Result-cases,
  Option-cases, length, if◌then◌else◌, arith,
}
use hmq.Packets.{PublishPacket}
use hmq.Topics.Level.{TopicError, out_of_fuel, mwc, swc, next_topic_level}
use hmq.Topics.Level.Paths.{length-next_topic_level, next_topic_level-error}
use hmq.Topics.Tree.{leaf, child, nodes, get_child}
use hmq.Topics.Value.{Value}
use hmq.Topics.Snode
use hmq.Topics.Snode.{
  Snode, Snodes, snode, drop_sub, remove_sub, sinsert, sremove, Matched, match_snodes, smatch,
}
use hmq.Topics.Rnode
use hmq.Topics.Rnode.{
  Rnode, Rnodes, rnode, rinsert_or_update, rremove, Gather, match_each, match_one, match_level,
  rmatch,
}

-- The result is not that of a recursion whose fuel has run out.
abbrev pub Ends : {A : Type 0} → Result TopicError A → Type 0
Ends r = r ≢ err out_of_fuel

Ends-then :
    {A B : Type 0} (r : Result TopicError A) (f : A → Result TopicError B)
    → Ends r
    → ((x : A) → r ≡ ok x → Ends (f x))
    → Ends (r >>= f)
Ends-then {A} {B} (ok x) f h k = k x refl
Ends-then {A} {B} (err e) f h k = λ q. h (ap err (some_inj (ap error_of q)))
  where
    error_of : Result TopicError B → Option TopicError
    error_of (ok x) = none
    error_of (err x) = some x

-- A call on the first level, and then on the rest, which needs less fuel.
Ends-level :
    {B : Type 0} (f c : ℕ) (t : Bytes) (k : Bytes × Bytes → Result TopicError B)
    → length (c ∷ t) ≤ suc f
    → ((l rem : Bytes) → length rem ≤ f → Ends (k (l, rem)))
    → Ends (next_topic_level (c ∷ t) >>= k)
Ends-level f c t k h each =
    Ends-then (next_topic_level (c ∷ t)) k (next_topic_level-error (c ∷ t))
      (λ (l, rem) e. each l rem (omega (arith, length-next_topic_level c t l rem e)))

remove_sub-Ends : (sub : Option Value) (s : Snode) → Ends (remove_sub sub s)
unfolding remove_sub
remove_sub-Ends none (snode vs qs m) q = cc
remove_sub-Ends (some sub) (snode vs qs m) q = elim (Option-cases (drop_sub vs qs sub)) [
  | inl e ↦ absurd (cc (rw (e, remove_sub) at q))
  | inr (r, e) ↦ absurd (cc (rw (e, remove_sub) at q))
]

pub sremove-Ends :
    (f : ℕ) (t : Bytes) (sub : Option Value) (s : Snode) → length t ≤ f → Ends (sremove f t sub s)
unfolding sremove
sremove-Ends f [] sub s h = remove_sub-Ends sub s
sremove-Ends zero (c ∷ t) sub s h = absurd (omega arith)
sremove-Ends (suc f) (c ∷ t) sub s h =
    Ends-level f c t (λ (l, rem). Snode.remove_in l s (sremove f rem sub) (get_child l (nodes s))) h
      (λ l rem le.
        found l (sremove f rem sub) (λ n. sremove-Ends f rem sub n le) (get_child l (nodes s)))
  where
    found :
        (l : Bytes) (next : Snode → Result TopicError Snode)
        → ((n : Snode) → Ends (next n))
        → (o : Option Snode) → Ends (Snode.remove_in l s next o)
    found l next h none = λ q. cc
    found l next h (some n) = Ends-then (next n) _ (h n) (λ x e q. cc)

match_snodes-Ends :
    (next : Snode → Matched → Result TopicError Matched) (l : Bytes) (q : ℕ) (m : Snodes)
    (acc : Matched)
    → ((n : Snode) (acc : Matched) → Ends (next n acc))
    → Ends (match_snodes next l q m acc)
unfolding match_snodes
match_snodes-Ends next l q leaf acc h = λ e. cc
match_snodes-Ends next l q (child k n m) acc h =
    Ends-then _ _ (here (k == mwc) (k == swc || k == l) _)
      (λ acc' e. match_snodes-Ends next l q m acc' h)
  where
    here : (a b : Bool) (r : Matched) → Ends (if a then ok r else if b then next n acc else ok acc)
    here true b r = λ e. cc
    here false true r = h n acc
    here false false r = λ e. cc

pub smatch-Ends :
    (f : ℕ) (t : Bytes) (q : ℕ) (s : Snode) (acc : Matched)
    → length t ≤ f
    → Ends (smatch f t q s acc)
unfolding smatch
smatch-Ends f [] q s acc h = λ e. cc
smatch-Ends zero (c ∷ t) q s acc h = absurd (omega arith)
smatch-Ends (suc f) (c ∷ t) q s acc h =
    Ends-level f c t (λ (l, rem). match_snodes (smatch f rem q) l q (nodes s) acc) h
      (λ l rem le.
        match_snodes-Ends (smatch f rem q) l q (nodes s) acc
          (λ n acc. smatch-Ends f rem q n acc le))

pub rremove-Ends : (f : ℕ) (t : Bytes) (r : Rnode) → length t ≤ f → Ends (rremove f t r)
unfolding rremove
rremove-Ends f [] (rnode m rs) h = λ e. cc
rremove-Ends zero (c ∷ t) r h = absurd (omega arith)
rremove-Ends (suc f) (c ∷ t) r h =
    Ends-level f c t (λ (l, rem). Rnode.remove_in l r (rremove f rem) (get_child l (nodes r))) h
      (λ l rem le. found l (rremove f rem) (λ n. rremove-Ends f rem n le) (get_child l (nodes r)))
  where
    found :
        (l : Bytes) (next : Rnode → Result TopicError Rnode)
        → ((n : Rnode) → Ends (next n))
        → (o : Option Rnode) → Ends (Rnode.remove_in l r next o)
    found l next h none = λ q. cc
    found l next h (some n) = Ends-then (next n) _ (h n) (λ x e q. cc)

match_each-Ends :
    (next : Gather) (rs : Rnodes) (msgs : List PublishPacket)
    → ((n : Rnode) (msgs : List PublishPacket) → Ends (next n msgs))
    → Ends (match_each next rs msgs)
unfolding match_each
match_each-Ends next leaf msgs h = λ e. cc
match_each-Ends next (child k n rs) msgs h =
    Ends-then (next n msgs) _ (h n msgs) (λ msgs' e. match_each-Ends next rs msgs' h)

match_level-Ends :
    (next : Gather) (l : Bytes) (r : Rnode) (msgs : List PublishPacket)
    → ((n : Rnode) (msgs : List PublishPacket) → Ends (next n msgs))
    → Ends (match_level next l r msgs)
unfolding match_level
match_level-Ends next l r msgs h = here (l == mwc) (l == swc) (get_child l (nodes r)) _
  where
    here :
        (a b : Bool) (o : Option Rnode) (all : List PublishPacket)
        → Ends (
            if a
            then ok all
            else if b
            then match_each next (nodes r) msgs
            else match_one next o msgs)
    here true b o all = λ e. cc
    here false true o all = match_each-Ends next (nodes r) msgs h
    here false false none all = λ e. cc
    here false false (some n) all = h n msgs

pub rmatch-Ends :
    (f : ℕ) (t : Bytes) (r : Rnode) (msgs : List PublishPacket)
    → length t ≤ f
    → Ends (rmatch f t r msgs)
unfolding rmatch
rmatch-Ends f [] r msgs h = λ e. cc
rmatch-Ends zero (c ∷ t) r msgs h = absurd (omega arith)
rmatch-Ends (suc f) (c ∷ t) r msgs h =
    Ends-level f c t (λ (l, rem). match_level (rmatch f rem) l r msgs) h
      (λ l rem le. match_level-Ends (rmatch f rem) l r msgs (λ n msgs. rmatch-Ends f rem n msgs le))

-- An error that is not that of a recursion whose fuel has run out.
abbrev pub IsReal : Option TopicError → Type 0
IsReal e = e ≢ some out_of_fuel

pub sinsert-IsReal :
    (f : ℕ) (t : Bytes) (q : ℕ) (sub : Value) (s : Snode)
    → length t ≤ f
    → IsReal (sinsert f t q sub s).1
unfolding sinsert
sinsert-IsReal f [] q sub s h = λ e. cc
sinsert-IsReal zero (c ∷ t) q sub s h = absurd (omega arith)
sinsert-IsReal (suc f) (c ∷ t) q sub s h = elim (Result-cases (next_topic_level (c ∷ t))) [
  | inl ((l, rem), e) ↦
      rw (e, sinsert)
        (below l s (sinsert f rem q sub (Snode.or_new (get_child l (nodes s)))) (
          sinsert-IsReal f rem q sub (Snode.or_new (get_child l (nodes s)))
            (omega (arith, length-next_topic_level c t l rem e))))
  | inr (x, e) ↦ rw (e, sinsert) (λ p. next_topic_level-error (c ∷ t) (e ∙ ap err (some_inj p)))
]
  where
    below :
        (l : Bytes) (s : Snode) (r : Snode × Option TopicError)
        → IsReal r.1
        → IsReal (Snode.put_child l s r).1
    below l (snode vs qs m) (n, e) h = h

pub rinsert_or_update-IsReal :
    (f : ℕ) (t : Bytes) (p : PublishPacket) (r : Rnode)
    → length t ≤ f
    → IsReal (rinsert_or_update f t p r).1
unfolding rinsert_or_update
rinsert_or_update-IsReal f [] p (rnode m rs) h = λ e. cc
rinsert_or_update-IsReal zero (c ∷ t) p r h = absurd (omega arith)
rinsert_or_update-IsReal (suc f) (c ∷ t) p r h = elim (Result-cases (next_topic_level (c ∷ t))) [
  | inl ((l, rem), e) ↦
      rw (e, rinsert_or_update)
        (below l r (rinsert_or_update f rem p (Rnode.or_new (get_child l (nodes r)))) (
          rinsert_or_update-IsReal f rem p (Rnode.or_new (get_child l (nodes r)))
            (omega (arith, length-next_topic_level c t l rem e))))
  | inr (x, e) ↦
      rw (e, rinsert_or_update) (λ p. next_topic_level-error (c ∷ t) (e ∙ ap err (some_inj p)))
]
  where
    below :
        (l : Bytes) (r : Rnode) (x : Rnode × Option TopicError)
        → IsReal x.1
        → IsReal (Rnode.put_child l r x).1
    below l (rnode m rs) (n, e) h = h
