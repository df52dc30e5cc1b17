-- ===== src/Broker/Agrees/Dropped.antt =====
-- The store of topics when subscriptions that stand under one filter each are taken out of it.
use hmq.Prelude.{
  ℕ, ◌≡◌, ◌≢◌, refl, sym, ap, subst, ◌∙◌, inl, inr, ◌↔◌, none, some, List, [], ◌∷◌, Memᴰ, Bytes,
}
use mathlib.Core.List.Memᴰ
use hmq.Prelude.Assoc.{Assoc}
use hmq.Prelude.Heap.{get_elem?}
use hmq.Topics.Value.{Value, subscription}
use hmq.Topics.MemTopics.{MemTopics, unsubscribe}
use hmq.Topics.MemTopics.Valid.{IsValid, unsubscribe-IsValid}
use hmq.Topics.MemTopics.Delivery.{Reads, HasFilter}
use hmq.Topics.MemTopics.Pointers.{HasFilter-drop}
use hmq.Broker.{Subscription}

abbrev pub topic_at : List Subscription → ℕ → Bytes
topic_at subs p = elim (get_elem? subs p) [ none ↦ [] | some s ↦ s.topic ]

abbrev pub drop_topic : List Subscription → ℕ → MemTopics → MemTopics
drop_topic subs p t = (unsubscribe t (topic_at subs p) (some (subscription p))).0

abbrev pub drop_topics : List Subscription → Assoc Bytes ℕ → MemTopics → MemTopics
drop_topics subs [] t = t
drop_topics subs ((k, p) ∷ m) t = drop_topics subs m (drop_topic subs p t)

pub topic_at-eq :
    (subs : List Subscription) (p : ℕ) (s : Subscription)
    → get_elem? subs p ≡ some s
    → topic_at subs p ≡ s.topic
topic_at-eq subs p s e = rw (e, topic_at)

module _ (subs : List Subscription) where
  -- A pointer that has no other filter than its own
  abbrev pub IsPlaced : MemTopics → ℕ → Type 0
  IsPlaced t p =
      (s : Subscription) × (fs : List Bytes) × (get_elem? subs p ≡ some s)
      × Reads s.topic fs
      × ((ks : List Bytes) → HasFilter t ks (subscription p) → ks ≡ fs)

  pub drop_topic-IsValid : (t : MemTopics) (p : ℕ) → IsValid t → IsValid (drop_topic subs p t)
  drop_topic-IsValid t p w = unsubscribe-IsValid t (topic_at subs p) (some (subscription p)) refl w

  pub HasFilter-drop_topic :
      (t : MemTopics) (p : ℕ)
      → IsValid t
      → IsPlaced t p
      → (ks : List Bytes) (x : Value)
      → HasFilter (drop_topic subs p t) ks x ↔ (HasFilter t ks x × (x ≢ subscription p))
  HasFilter-drop_topic t p w (s, fs, e, r, only) ks x =
      subst
        (λ f.
          HasFilter (unsubscribe t f (some (subscription p))).0 ks x
          ↔ (HasFilter t ks x × (x ≢ subscription p)))
        (sym (topic_at-eq subs p s e))
        (HasFilter-drop t s.topic fs (subscription p) w refl r only ks x)

  IsPlaced-drop_topic :
      (t : MemTopics) (p q : ℕ)
      → IsValid t
      → IsPlaced t p
      → IsPlaced t q
      → IsPlaced (drop_topic subs p t) q
  IsPlaced-drop_topic t p q w pl (s, fs, e, r, only) =
      (s, fs, e, r, λ ks h. only ks ((HasFilter-drop_topic t p w pl ks (subscription q)).0 h).0)

  pub drop_topics-IsValid :
      (m : Assoc Bytes ℕ) (t : MemTopics) → IsValid t → IsValid (drop_topics subs m t)
  drop_topics-IsValid [] t w = w
  drop_topics-IsValid ((k, p) ∷ m) t w =
      drop_topics-IsValid m (drop_topic subs p t) (drop_topic-IsValid t p w)

  pub HasFilter-drop_topics :
      (m : Assoc Bytes ℕ) (t : MemTopics)
      → IsValid t
      → ((k : Bytes) (p : ℕ) → Memᴰ (k, p) m → IsPlaced t p)
      → (ks : List Bytes) (x : Value)
      → HasFilter (drop_topics subs m t) ks x
        ↔ (HasFilter t ks x × ((k : Bytes) (p : ℕ) → Memᴰ (k, p) m → x ≢ subscription p))
  HasFilter-drop_topics [] t w pl ks x = (λ h. (h, λ k p i. absurd (Memᴰ.not-nil i)), λ h. h.0)
  HasFilter-drop_topics ((j, q) ∷ m) t w pl ks x =
      let here = pl j q (Memᴰ.head refl) in
      let first = HasFilter-drop_topic t q w here ks x in
      let rest =
        HasFilter-drop_topics m (drop_topic subs q t) (drop_topic-IsValid t q w)
          (λ k p i. IsPlaced-drop_topic t q p w here (pl k p (Memᴰ.tail i))) ks x in
      (
        λ h.
            let (h', others) = rest.0 h in
            let (old, ne) = first.0 h' in
            (
              old,
              λ k p i. elim (Memᴰ.cases_cons i) [
                | inl same ↦ λ z. ne (z ∙ ap subscription (ap (λ y. y.1) same))
                | inr later ↦ others k p later
              ],
            ),
        λ h. rest.1 (first.1 (h.0, h.1 j q (Memᴰ.head refl)), λ k p i. h.1 k p (Memᴰ.tail i)),
      )
