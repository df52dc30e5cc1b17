-- ===== src/Topics/MemTopics/Delivery.antt =====
-- Who receives a publication: the subscribers whose filters match its topic, after any Subscribe
-- and Unsubscribe.
use hmq.Prelude.{
  ℕ, ◌≡◌, ◌≢◌, refl, sym, ap, subst, ◌∙◌, ◌⊎◌, inl, inr, ◌↔◌, true, false, Option, none, some, List,
  [], ◌∷◌, map, Memᴰ, Bytes, ok, ok_inj, Result-cases, Bool-cases, beq_cases, ltb, nat_eq, bytes_eq,
  length, if◌then◌else◌, arith,
}
use hmq.Topics.Level.{TopicError, path_of, of_levels, level, mwc, swc}
use hmq.Topics.Filter.{Matches, HashLast, topic_path-HashLast}
use hmq.Topics.Value.{Value, is_func}
use hmq.Topics.Snode.{Snode, Matched}
use hmq.Topics.Snode.Spec.{subs_at, found}
use hmq.Topics.Snode.Found.{smatch-eq}
use hmq.Topics.Snode.Matching.{found_iff}
use hmq.Topics.Snode.Subscribed.{insert_at, sinsert-eq, mem-insert_at, sinsert_failed}
use hmq.Topics.Snode.Removed.{remove_at, sremove-eq, remove_at-Removed, remove_at_fails}
use hmq.Topics.MemTopics.{MemTopics, valid_qos, subscribed, subscribe, unsubscribe, subscribers}
use hmq.Topics.MemTopics.Valid.{IsValid, subscribe-IsValid}

-- All levels of the topic are read, and these are they.
abbrev pub Reads : Bytes → List Bytes → Type 0
Reads topic ls = path_of topic ≡ of_levels ls

-- The subscriptions of a provider, as a table.
abbrev pub HasFilter : MemTopics → List Bytes → Value → Type 0
HasFilter t ks v = Memᴰ v (subs_at ks t.sroot)

-- A publication on the topic reaches the subscriber.
abbrev pub Receives : MemTopics → Bytes → ℕ → Value → Type 0
Receives t topic qos v = (m : Matched) × (subscribers t topic qos ≡ ok m) × Memᴰ v m.0

pub subscribers-eq :
    (t : MemTopics) (topic : Bytes) (ls : List Bytes) (qos : ℕ)
    → valid_qos qos ≡ true
    → Reads topic ls
    → subscribers t topic qos ≡ ok (found ls t.sroot, map (λ _. qos) (found ls t.sroot))
unfolding subscribers path_of
subscribers-eq t topic ls qos q r = rw q (smatch-eq (length topic) topic ls qos t.sroot ([], []) r)

-- For a provider whose trees are well-formed (IsValid), a valid QoS and a topic all of whose
-- levels are read: a call of Subscribers for the topic succeeds and lists a subscriber exactly if
-- it is subscribed to some filter that matches the topic.
pub Receives-iff :
    (t : MemTopics) (topic : Bytes) (ls : List Bytes) (qos : ℕ) (v : Value)
    → IsValid t
    → valid_qos qos ≡ true
    → Reads topic ls
    → Receives t topic qos v ↔ ((ks : List Bytes) × Matches ks ls × HasFilter t ks v)
Receives-iff t topic ls qos v w q r = (
  λ (m, e, h).
      (found_iff ls t.sroot v w.subscriptions).0 (
        subst (λ (m : Matched). Memᴰ v m.0) (ok_inj (sym e ∙ subscribers-eq t topic ls qos q r)) h),
  λ h. (
    (found ls t.sroot, map (λ _. qos) (found ls t.sroot)),
    subscribers-eq t topic ls qos q r,
    (found_iff ls t.sroot v w.subscriptions).1 h,
  ),
)

-- Subscribe on a well-formed filter, with a valid QoS and a subscriber that is not nil.
pub subscribe-eq :
    (t : MemTopics) (topic : Bytes) (fs : List Bytes) (qos : ℕ) (sub : Value)
    → valid_qos qos ≡ true
    → Reads topic fs
    → subscribe t topic qos (some sub)
      ≡ (record t { sroot = insert_at fs qos sub t.sroot }, qos, none)
unfolding subscribe path_of
subscribe-eq t topic fs qos sub q r =
    let granted : (if ltb 2 qos then 2 else qos) ≡ qos = unfold valid_qos in ground arith in
    rw (q, granted) (rw (sinsert-eq (length topic) topic fs qos sub t.sroot r))

pub HasFilter-subscribe :
    (t : MemTopics) (filter : Bytes) (fs : List Bytes) (granted : ℕ) (sub v : Value)
    → is_func sub ≡ false
    → valid_qos granted ≡ true
    → Reads filter fs
    → (ks : List Bytes)
    → HasFilter (subscribe t filter granted (some sub)).0 ks v
      ↔ (HasFilter t ks v ⊎ ((ks ≡ fs) × (v ≡ sub)))
HasFilter-subscribe t filter fs granted sub v nf g r ks =
    rw (subscribe-eq t filter fs granted sub g r) (mem-insert_at granted sub nf v ks fs t.sroot)

-- For a provider whose trees are well-formed, valid QoS, a subscriber that is no function value,
-- and a filter and a topic all of whose levels are read: after Subscribe, a publication on the
-- topic reaches whom it reached before, and the new subscriber if the filter matches the topic.
pub Receives-subscribe :
    (t : MemTopics) (filter topic : Bytes) (fs ls : List Bytes) (granted qos : ℕ) (sub v : Value)
    → IsValid t
    → is_func sub ≡ false
    → valid_qos granted ≡ true
    → valid_qos qos ≡ true
    → Reads filter fs
    → Reads topic ls
    → Receives (subscribe t filter granted (some sub)).0 topic qos v
      ↔ (Receives t topic qos v ⊎ (Matches fs ls × (v ≡ sub)))
Receives-subscribe t filter topic fs ls granted qos sub v w nf g q rf rt =
    let t' = (subscribe t filter granted (some sub)).0 in
    let w' : IsValid t' = subscribe-IsValid t filter granted (some sub) nf w in
    let after = Receives-iff t' topic ls qos v w' q rt in
    let before = Receives-iff t topic ls qos v w q rt in
    let table = HasFilter-subscribe t filter fs granted sub v nf g rf in
    (
      λ h.
          let (ks, m, x) = after.0 h in
          elim ((table ks).0 x) [
            | inl old ↦ inl (before.1 (ks, m, old))
            | inr (e, p) ↦ inr (rw e at m, p)
          ],
      λ h. elim h [
        | inl old ↦ let (ks, m, x) = before.0 old in after.1 (ks, m, (table ks).1 (inl x))
        | inr (m, p) ↦ after.1 (fs, m, (table fs).1 (inr (refl, p)))
      ],
    )

-- For a provider whose trees are well-formed, a subscriber that is no function value and a filter
-- all of whose levels are read: an Unsubscribe that succeeds leaves every subscription but that of
-- the subscriber to the filter, which is gone.
pub HasFilter-unsubscribe :
    (t : MemTopics) (filter : Bytes) (fs : List Bytes) (sub : Value)
    → IsValid t
    → is_func sub ≡ false
    → Reads filter fs
    → (unsubscribe t filter (some sub)).1 ≡ none
    → (ks : List Bytes) (v : Value)
    → HasFilter (unsubscribe t filter (some sub)).0 ks v
      ↔ (HasFilter t ks v × (¬ ((ks ≡ fs) × (v ≡ sub))))
unfolding unsubscribe path_of
HasFilter-unsubscribe t filter fs sub w nf r h ks v =
    let e = sremove-eq (length filter) filter fs (some sub) t.sroot r in
    elim (Result-cases (remove_at fs (some sub) t.sroot)) [
      | inl (s, g) ↦
          rw (e, g, unsubscribe)
            ((remove_at-Removed sub nf fs t.sroot s w.subscriptions g).mem ks v)
      | inr (x, g) ↦ absurd (failed x (rw (e, g, unsubscribe) at h))
    ]
  where
    failed : (x : TopicError) → some x ≢ none
    failed x p = cc

-- For a provider whose trees are well-formed, a subscriber that is no function value and a filter
-- all of whose levels are read: an Unsubscribe that fails changes nothing, and the subscriber does
-- not have the filter.
pub unsubscribe_fails :
    (t : MemTopics) (filter : Bytes) (fs : List Bytes) (sub : Value) (x : TopicError)
    → IsValid t
    → is_func sub ≡ false
    → Reads filter fs
    → (unsubscribe t filter (some sub)).1 ≡ some x
    → ((unsubscribe t filter (some sub)).0 ≡ t) × (¬ HasFilter t fs sub)
unfolding unsubscribe path_of
unsubscribe_fails t filter fs sub x w nf r h =
    let e = sremove-eq (length filter) filter fs (some sub) t.sroot r in
    elim (Result-cases (remove_at fs (some sub) t.sroot)) [
      | inl (s, g) ↦ absurd (worked (rw (e, g, unsubscribe) at h))
      | inr (y, g) ↦
          rw (e, g, unsubscribe) (refl, remove_at_fails sub nf fs t.sroot y w.subscriptions g)
    ]
  where
    worked : none ≢ some x
    worked p = cc

subscribed-failed :
    (t : MemTopics) (qos : ℕ) (x : TopicError) (ks : List Bytes) (r : Snode × Option TopicError)
    → (subscribed t qos r).2 ≡ some x
    → (r.1 ≡ some x → subs_at ks r.0 ≡ subs_at ks t.sroot)
    → subs_at ks (subscribed t qos r).0.sroot ≡ subs_at ks t.sroot
subscribed-failed t qos x ks (s, none) h same = cc
subscribed-failed t qos x ks (s, some e) h same = same h

-- A Subscribe that fails leaves the subscribers of every filter.
pub subs_at-subscribe_failed :
    (t : MemTopics) (filter : Bytes) (qos : ℕ) (sub : Option Value) (x : TopicError)
    → (subscribe t filter qos sub).2 ≡ some x
    → (ks : List Bytes) → subs_at ks (subscribe t filter qos sub).0.sroot ≡ subs_at ks t.sroot
unfolding subscribe
subs_at-subscribe_failed t filter qos none x h ks = elim (Bool-cases (valid_qos qos)) [
  | inl b ↦ rw (b, subscribe)
  | inr b ↦ rw (b, subscribe)
]
subs_at-subscribe_failed t filter qos (some sub) x h ks = elim (Bool-cases (valid_qos qos)) [
  | inl b ↦
      rw (b, subscribe)
        (subscribed-failed t _ x ks _ (rw (b, subscribe) at h)
          λ e. sinsert_failed (length filter) filter _ sub t.sroot x ks e)
  | inr b ↦ rw (b, subscribe)
]

Matches-refl : (ls : List Bytes) → HashLast ls → Matches ls ls
Matches-refl [] h = tt
Matches-refl (l ∷ ls) h = elim (beq_cases l mwc) [
  | inl (_, e) ↦ inl (e, h.0 e)
  | inr (_, ne) ↦ inr (ne, inr refl, Matches-refl ls h.1)
]

path_of-slash : (t : Bytes) → path_of (b'/' ∷ t) ≡ level swc (path_of t)
unfolding path_of
path_of-slash t = refl

-- For a provider whose trees are well-formed, valid QoS and a subscriber that is no function
-- value: a subscription to "/f" receives the publications on "l/f" for every level l, where all
-- levels of f and of "l/f" are read.
pub Receives-leading_slash :
    (t : MemTopics) (filter topic l : Bytes) (ls : List Bytes) (granted qos : ℕ) (sub : Value)
    → IsValid t
    → is_func sub ≡ false
    → valid_qos granted ≡ true
    → valid_qos qos ≡ true
    → Reads filter ls
    → Reads topic (l ∷ ls)
    → Receives (subscribe t (b'/' ∷ filter) granted (some sub)).0 topic qos sub
Receives-leading_slash t filter topic l ls granted qos sub w nf g q rf rt =
    (Receives-subscribe t (b'/' ∷ filter) topic (swc ∷ ls) (l ∷ ls) granted qos sub sub w nf g q
        (path_of-slash filter ∙ ap (level swc) rf) rt).1
      (inr (inr (swc_ne_mwc, inl refl, Matches-refl ls (HashLast_of_Reads filter ls rf)), refl))
  where
    swc_ne_mwc : swc ≢ mwc
    swc_ne_mwc e = cc

    HashLast_of_Reads : (t : Bytes) (ls : List Bytes) → Reads t ls → HashLast ls
    HashLast_of_Reads t ls r = unfold path_of in topic_path-HashLast (length t) t ls r
