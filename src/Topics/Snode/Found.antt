-- ===== src/Topics/Snode/Found.antt =====
-- `smatch` and the list of subscribers it appends.
use hmq.Prelude.{
  ℕ, zero, suc, ◌≡◌, ap, ◌∙◌, Bool, true, false, ◌||◌, List, [], ◌∷◌, ◌++◌, map, append-nil,
  append_assoc, Bytes, Result, ok, ◌==◌, bytes_eq, if◌then◌else◌,
}
use mathlib.Core.List.Memᴰ
use hmq.Topics.Level.{TopicError, mwc, swc, topic_path, of_levels}
use hmq.Topics.Level.Paths.{topic_path-cons, topic_path-nil, topic_path-zero}
use hmq.Topics.Value.{Value}
use hmq.Topics.Snode.{Snode, Snodes, subs, Matched, match_qos, match_end, match_snodes, smatch}
use hmq.Topics.Tree.{leaf, child, nodes}
use hmq.Topics.Snode.Spec.{found, found_in}

-- The slices after a match: what was there, and each subscriber found with the message's QoS.
abbrev pub appended : ℕ → List Value → Matched → Matched
appended q found acc = (acc.0 ++ found, acc.1 ++ map (λ _. q) found)

match_qos-eq : (q : ℕ) (l : List Value) (acc : Matched) → match_qos q l acc ≡ appended q l acc
unfolding match_qos
match_qos-eq q [] acc = simp append-nil
match_qos-eq q (v ∷ l) acc = match_qos-eq q l (acc.0 ++ v ∷ [], acc.1 ++ q ∷ []) ∙ simp append_assoc

appended-append :
    (q : ℕ) (k l : List Value) (acc : Matched)
    → appended q l (appended q k acc) ≡ appended q (k ++ l) acc
appended-append q k l acc = simp (append_assoc, mathlib.Core.List.map-append)

module _ (next : Snode → Matched → Result TopicError Matched) (found_next : Snode → List Value)
    (l : Bytes) (q : ℕ)
    (next-eq : (n : Snode) (acc : Matched) → next n acc ≡ ok (appended q (found_next n) acc)) where
  match_child-eq :
      (hash fits : Bool) (n : Snode) (acc : Matched)
      → (if hash then ok (match_qos q (subs n) acc) else if fits then next n acc else ok acc)
        ≡ ok (appended q (if hash then subs n else if fits then found_next n else []) acc)
  match_child-eq true fits n acc = ap ok (match_qos-eq q (subs n) acc)
  match_child-eq false true n acc = next-eq n acc
  match_child-eq false false n acc = simp append-nil

  match_snodes-eq :
      (m : Snodes) (acc : Matched)
      → match_snodes next l q m acc ≡ ok (appended q (found_in found_next l m) acc)
  unfolding match_snodes found_in
  match_snodes-eq leaf acc = simp append-nil
  match_snodes-eq (child k n m) acc =
      rw (match_child-eq (k == mwc) (k == swc || k == l) n acc)
        (match_snodes-eq m _ ∙ ap ok (appended-append q _ _ acc))

pub smatch-eq :
    (f : ℕ) (t : Bytes) (ls : List Bytes) (q : ℕ) (s : Snode) (acc : Matched)
    → topic_path f t ≡ of_levels ls
    → smatch f t q s acc ≡ ok (appended q (found ls s) acc)
unfolding smatch found match_end
smatch-eq f [] ls q s acc h =
    rw (topic_path-nil f ls h, match_qos-eq, match_qos-eq) (ap ok (appended-append q _ _ acc))
smatch-eq zero (c ∷ t) ls q s acc h = absurd (topic_path-zero c t ls h)
smatch-eq (suc f) (c ∷ t) ls q s acc h =
    let (l, rem, ls', read, rest, e) = topic_path-cons f c t ls h in
    rw (e, read)
      (match_snodes-eq (smatch f rem q) (found ls') l q (λ n a. smatch-eq f rem ls' q n a rest)
        (nodes s) acc)
