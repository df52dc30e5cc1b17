-- ===== src/Bridge/Kafka/Laws.antt =====
-- Which topics of Kafka an event is sent to.
use hmq.Prelude.{
  ◌≡◌, refl, sym, ap, ◌∙◌, ◌⊎◌, inl, inr, ◌↔◌, Bool, true, false, some, List, [], ◌∷◌, Memᴰ, Bytes,
  bytes_eq, beq_cases, Bool-cases, bytes_beq_iff, is_empty, false≢true,
}
use mathlib.Core.List.Memᴰ
use hmq.Prelude.Assoc.{Assoc, lookup, insert, lookup-insert}
use hmq.Bridge
use hmq.Bridge.{Elements}
use hmq.Bridge.Kafka.{
  KafkaConfig, match_levels, match_topic, add_configured, add_delivered, publish_topics,
}
use hmq.Topics.Level.{mwc, swc}
use hmq.Topics.Filter.{Matches, HashLast}

-- On a filter whose "#" is its last level, if it has one, the bridge's matching of levels is the
-- matching of MQTT that the topic store is proved to implement.
pub match_levels-Matches :
    (fs ts : List Bytes) → HashLast fs → (match_levels fs ts ≡ true) ↔ Matches fs ts
unfolding match_levels
match_levels-Matches [] [] h = (λ e. tt, λ m. refl)
match_levels-Matches [] (t ∷ ts) h = (λ e. cc, λ m. absurd m)
match_levels-Matches (f ∷ fs) [] (h, _) =
    (λ e. let p = (bytes_beq_iff f mwc).0 e in (p, h p), λ (p, _). (bytes_beq_iff f mwc).1 p)
match_levels-Matches (f ∷ fs) (t ∷ ts) (h, hs) = elim (beq_cases f mwc) [
  | inl (b, p) ↦ rw b (λ e. inl (p, h p), λ m. refl)
  | inr (b, ne) ↦
      let (to, from) = match_levels-Matches fs ts hs in
      elim (beq_cases f swc) [
        | inl (c, q) ↦
            rw (b, c)
              (
                λ e. inr (ne, inl q, to e),
                λ m. elim m [ inl (p, _) ↦ absurd (ne p) | inr (_, _, m') ↦ from m' ],
              )
        | inr (c, nq) ↦ elim (beq_cases f t) [
          | inl (d, q) ↦
              rw (b, c, d)
                (
                  λ e. inr (ne, inr q, to e),
                  λ m. elim m [ inl (p, _) ↦ absurd (ne p) | inr (_, _, m') ↦ from m' ],
                )
          | inr (d, nd) ↦
              rw (b, c, d)
                (
                  λ e. cc,
                  λ m. elim m [
                    | inl (p, _) ↦ absurd (ne p)
                    | inr (_, either, m') ↦ elim either [
                      | inl q ↦ absurd (nq q)
                      | inr q ↦ absurd (nd q)
                    ]
                  ],
                )
        ]
      ]
]

lookup-insert-true :
    (to k : Bytes) (topics : Assoc Bytes Bool)
    → (lookup k (insert to true topics) ≡ some true) ↔ (to ≡ k) ⊎ (lookup k topics ≡ some true)
lookup-insert-true to k topics = elim (beq_cases to k) [
  | inl (b, q) ↦ rw (lookup-insert to k true topics, b) (λ e. inl q, λ h. refl)
  | inr (b, ne) ↦
      rw (lookup-insert to k true topics, b)
        (λ e. inr e, λ h. elim h [ inl q ↦ absurd (ne q) | inr e ↦ e ])
]

lookup-add_configured :
    (to k : Bytes) → (lookup k (add_configured to []) ≡ some true) ↔ (to ≡ k) × (is_empty k ≡ false)
unfolding add_configured
lookup-add_configured [] k = (λ e. cc, λ (q, n). cc)
lookup-add_configured (x ∷ to) k = elim (beq_cases (x ∷ to) k) [
  | inl (b, q) ↦ rw b (λ e. (q, ap is_empty (sym q)), λ h. refl)
  | inr (b, ne) ↦ rw b (λ e. cc, λ (q, n). absurd (ne q))
]

lookup-add_delivered :
    (m : Assoc Bytes Bytes) (topic k : Bytes) (topics : Assoc Bytes Bool)
    → (lookup k (add_delivered m topic topics) ≡ some true)
      ↔ (lookup k topics ≡ some true)
        ⊎ ((reg : Bytes) × Memᴰ (reg, k) m × (match_topic reg topic ≡ true))
unfolding add_delivered
lookup-add_delivered [] topic k topics =
    (λ e. inl e, λ h. elim h [ inl e ↦ e | inr (_, here, _) ↦ absurd (Memᴰ.not-nil here) ])
lookup-add_delivered ((reg, to) ∷ m) topic k topics = elim (Bool-cases (match_topic reg topic)) [
  | inr b ↦
      let (there, back) = lookup-add_delivered m topic k topics in
      rw b (
        λ e. elim (there e) [ inl h ↦ inl h | inr (r, here, h) ↦ inr (r, Memᴰ.tail here, h) ],
        λ h. back (elim h [
          | inl e ↦ inl e
          | inr (r, here, e) ↦ elim (Memᴰ.cases_cons here) [
            | inl q ↦
                absurd
                  (false≢true (sym b ∙ ap (λ p. match_topic p topic) (sym (ap (λ p. p.0) q)) ∙ e))
            | inr later ↦ inr (r, later, e)
          ]
        ]),
      )
  | inl b ↦
      let (there, back) = lookup-add_delivered m topic k (insert to true topics) in
      let (split, join) = lookup-insert-true to k topics in
      rw b (
        λ e. elim (there e) [
          | inl h ↦ elim (split h) [
            | inl q ↦ inr (reg, Memᴰ.head (ap (λ x. (reg, x)) (sym q)), b)
            | inr h' ↦ inl h'
          ]
          | inr (r, here, h) ↦ inr (r, Memᴰ.tail here, h)
        ],
        λ h. back (elim h [
          | inl e ↦ inl (join (inr e))
          | inr (r, here, e) ↦ elim (Memᴰ.cases_cons here) [
            | inl q ↦ inl (join (inl (sym (ap (λ p. p.1) q))))
            | inr later ↦ inr (r, later, e)
          ]
        ]),
      )
]

-- A PUBLISH event is sent to the topic configured for such events, where there is one, and to the
-- topic of every delivery rule whose filter matches the event's topic, and to no others.
pub publish_topics_iff :
    (config : KafkaConfig) (e : Elements) (k : Bytes)
    → e.action ≡ Bridge.publish
    → (topics : Assoc Bytes Bool) × (publish_topics config e ≡ some topics)
      × ((lookup k topics ≡ some true)
          ↔ ((config.publish_topic ≡ k) × (is_empty k ≡ false))
            ⊎ ((reg : Bytes) × Memᴰ (reg, k) config.deliver_map × (match_topic reg e.topic ≡ true)))
unfolding publish_topics add_configured
publish_topics_iff config e k a =
    let (there, back) =
      lookup-add_delivered config.deliver_map e.topic k (add_configured config.publish_topic []) in
    let (split, join) = lookup-add_configured config.publish_topic k in
    (
      add_delivered config.deliver_map e.topic (add_configured config.publish_topic []),
      rw a refl,
      (
        λ l. elim (there l) [ inl h ↦ inl (split h) | inr h ↦ inr h ],
        λ h. back (elim h [ inl h' ↦ inl (join h') | inr h' ↦ inr h' ]),
      ),
    )
