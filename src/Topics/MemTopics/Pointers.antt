-- ===== src/Topics/MemTopics/Pointers.antt =====
-- The table of subscriptions when each subscriber has one filter, as the pointers of the broker do:
-- an Unsubscribe then takes the subscriber out of the table, whatever it reports.
use hmq.Prelude.{
  ℕ, ◌≡◌, ◌≢◌, refl, sym, subst, ◌∙◌, inl, inr, ◌↔◌, true, false, Option, none, some, List, [], ◌∷◌,
  Bytes, Result-cases, Bool-cases, Option-cases, length, is_empty,
}
use hmq.Packets.{PublishPacket}
use hmq.Topics.Level.{LevelPath, TopicError, level, path_of, of_levels}
use hmq.Topics.Value.{Value, is_func}
use hmq.Topics.Snode.{Snode}
use hmq.Topics.Snode.Reading.{sinsert-reads}
use hmq.Topics.Rnode.{rremove}
use hmq.Topics.MemTopics.{MemTopics, valid_qos, subscribed, subscribe, unsubscribe, retain}
use hmq.Topics.MemTopics.Valid.{IsValid}
use hmq.Topics.MemTopics.Delivery.{Reads, HasFilter, HasFilter-unsubscribe, unsubscribe_fails}

level_inj : {l k : Bytes} {p q : LevelPath} → level l p ≡ level k q → (l ≡ k) × (p ≡ q)
level_inj h = (cc, cc)

of_levels_inj : (ks ls : List Bytes) → of_levels ks ≡ of_levels ls → ks ≡ ls
of_levels_inj [] [] h = refl
of_levels_inj [] (l ∷ ls) h = cc
of_levels_inj (k ∷ ks) [] h = cc
of_levels_inj (k ∷ ks) (l ∷ ls) h =
    let (e, r) = level_inj h in let rest = of_levels_inj ks ls r in cc

-- A topic is read in one way.
pub Reads-unique : (t : Bytes) (ks ls : List Bytes) → Reads t ks → Reads t ls → ks ≡ ls
Reads-unique t ks ls h g = of_levels_inj ks ls (sym h ∙ g)

subscribed-none :
    (t : MemTopics) (qos : ℕ) (r : Snode × Option TopicError)
    → (subscribed t qos r).2 ≡ none
    → r.1 ≡ none
subscribed-none t qos (s, none) h = refl
subscribed-none t qos (s, some e) h = h

-- A Subscribe that succeeds has read the filter and had a valid QoS.
pub subscribe-Reads :
    (t : MemTopics) (filter : Bytes) (qos : ℕ) (sub : Value)
    → (subscribe t filter qos (some sub)).2 ≡ none
    → (valid_qos qos ≡ true) × ((fs : List Bytes) × Reads filter fs)
unfolding subscribe path_of
subscribe-Reads t filter qos sub h = elim (Bool-cases (valid_qos qos)) [
  | inl b ↦ (
    b,
    sinsert-reads (length filter) filter _ sub t.sroot
        (subscribed-none t _ _ (rw (b, subscribe) at h)),
  )
  | inr b ↦ absurd (fails (rw (b, subscribe) at h))
]
  where
    fails : {e : TopicError} → ¬ (some e ≡ none)
    fails p = cc

pub HasFilter-drop :
    (t : MemTopics) (filter : Bytes) (fs : List Bytes) (sub : Value)
    → IsValid t
    → is_func sub ≡ false
    → Reads filter fs
    → ((ks : List Bytes) → HasFilter t ks sub → ks ≡ fs)
    → (ks : List Bytes) (v : Value)
    → HasFilter (unsubscribe t filter (some sub)).0 ks v ↔ (HasFilter t ks v × (v ≢ sub))
HasFilter-drop t filter fs sub w nf r only ks v =
    elim (Option-cases (unsubscribe t filter (some sub)).1) [
      | inl e ↦
          let table = HasFilter-unsubscribe t filter fs sub w nf r e ks v in
          (
            λ h.
                let (old, other) = table.0 h in
                (old, λ p. other (only ks (subst (HasFilter t ks) p old), p)),
            λ h. table.1 (h.0, λ p. h.1 p.1),
          )
      | inr (x, e) ↦
          let (same, gone) = unsubscribe_fails t filter fs sub x w nf r e in
          (
            λ h.
                let old = subst (λ t'. HasFilter t' ks v) same h in
                (
                  old,
                  λ p.
                      let at_sub = subst (HasFilter t ks) p old in
                      gone (subst (λ js. HasFilter t js sub) (only ks at_sub) at_sub),
                ),
            λ h. subst (λ t'. HasFilter t' ks v) (sym same) h.0,
          )
    ]

-- Retain leaves the subscriptions.
pub sroot-retain : (t : MemTopics) (msg : PublishPacket) → (retain t msg).0.sroot ≡ t.sroot
unfolding retain
sroot-retain t msg = elim (Bool-cases (is_empty msg.payload)) [
  | inl b ↦ elim (Result-cases (rremove (length msg.topic_name) msg.topic_name t.rroot)) [
    | inl (r, e) ↦ rw (b, e, retain)
    | inr (x, e) ↦ rw (b, e, retain)
  ]
  | inr b ↦ rw (b, retain)
]
