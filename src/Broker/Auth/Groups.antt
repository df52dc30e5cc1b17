-- ===== src/Broker/Auth/Groups.antt =====
-- broker/client.go: what the pattern of shared subscriptions matches.
use hmq.Prelude.{
  ℕ, ◌≡◌, refl, sym, ap, subst, ◌∙◌, ◌↔◌, inl, inr, Bool, true, false, not, ◌&&◌, none, some,
  some_inj, [], ◌∷◌, ◌++◌, append-nil, append_assoc, Bytes, ◌==◌, nat_eq, is_empty, Bool-cases,
  beq_cases, beq_refl,
}
use hmq.Go.{has_prefix, contains_byte}
use hmq.Broker.Auth.{share_prefix, is_group_char, group_from, drop_prefix, find_group}

abbrev pub AreGroup : Bytes → Type 0
AreGroup [] = Unit
AreGroup (c ∷ g) = (is_group_char c ≡ true) × AreGroup g

-- The name of a group and a topic as the pattern has them
abbrev pub IsShare : Bytes → Bytes → Type 0
IsShare g t = AreGroup g × (is_empty g ≡ false) × (contains_byte t b'\n' ≡ false)

abbrev pub share_text : Bytes → Bytes → Bytes
share_text g t = share_prefix ++ g ++ b'/' ∷ t

is_empty-snoc : (n : Bytes) (c : ℕ) (s : Bytes) → is_empty (n ++ c ∷ s) ≡ false
is_empty-snoc [] c s = refl
is_empty-snoc (x ∷ n) c s = refl

group_from_complete :
    (n g t : Bytes)
    → AreGroup g
    → is_empty (n ++ g) ≡ false
    → contains_byte t b'\n' ≡ false
    → group_from n (g ++ b'/' ∷ t) ≡ some (n ++ g, t)
unfolding group_from
group_from_complete n [] t h e nl =
    let e' : is_empty n ≡ false = ap is_empty (sym (append-nil n)) ∙ e in
    rw (e', nl) (ap (λ m. some (with_topic m)) (sym (append-nil n)))
  where
    with_topic : Bytes → Bytes × Bytes
    with_topic m = (m, t)
group_from_complete n (c ∷ g) t (h, hs) e nl =
    let assoc = append_assoc n (c ∷ []) g in
    rw h (
      group_from_complete (n ++ c ∷ []) g t hs (ap is_empty assoc ∙ e) nl
      ∙ ap (λ m. some (with_topic m)) assoc)
  where
    with_topic : Bytes → Bytes × Bytes
    with_topic m = (m, t)

and_not : (x y z : Bool) → (x && not y && not z) ≡ true → (x ≡ true) × (y ≡ false) × (z ≡ false)
and_not true false false h = (refl, refl, refl)
and_not true false true h = cc
and_not true true z h = cc
and_not false y z h = cc

-- What it finds, and what it has read.
group_from_sound :
    (n s g t : Bytes)
    → group_from n s ≡ some (g, t)
    → (m : Bytes) × (g ≡ n ++ m)
      × (s ≡ m ++ b'/' ∷ t)
      × AreGroup m
      × (is_empty g ≡ false)
      × (contains_byte t b'\n' ≡ false)
unfolding group_from
group_from_sound n [] g t h = cc
group_from_sound n (c ∷ s) g t h = elim (Bool-cases (is_group_char c)) [
  | inl b ↦
      let (m, e, f, a, ne, nl) = group_from_sound (n ++ c ∷ []) s g t (rw b at h) in
      (c ∷ m, e ∙ append_assoc n (c ∷ []) m, ap (◌∷◌ c) f, (b, a), ne, nl)
  | inr b ↦ elim (Bool-cases (c == b'/' && not (is_empty n) && not (contains_byte s b'\n'))) [
    | inl d ↦
        let (slash, named, plain) = and_not (c == b'/') (is_empty n) (contains_byte s b'\n') d in
        let found : Bytes × Bytes = (n, s) in
        let asked : Bytes × Bytes = (g, t) in
        let q : some found ≡ some asked = rw (b, d) at h in
        let gn : n ≡ g = ap (λ (x : Bytes × Bytes). x.0) (some_inj q) in
        let ts : s ≡ t = ap (λ (x : Bytes × Bytes). x.1) (some_inj q) in
        (
          [],
          sym gn ∙ sym (append-nil n),
          ap (λ c. c ∷ s) ((beq_iff c b'/').0 slash) ∙ ap (◌∷◌ b'/') ts,
          tt,
          ap is_empty (sym gn) ∙ named,
          ap (λ s. contains_byte s b'\n') (sym ts) ∙ plain,
        )
    | inr d ↦ absurd (missing (g, t) (rw (b, d) at h))
  ]
]
  where
    missing : (x : Bytes × Bytes) → ¬ (none ≡ some x)
    missing x q = cc

    beq_iff : (a b : ℕ) → ((a == b) ≡ true) ↔ (a ≡ b)
    beq_iff a b = nat_eq.equals_iff a b

has_prefix-append : (p s : Bytes) → has_prefix (p ++ s) p ≡ true
unfolding has_prefix
has_prefix-append [] s = refl
has_prefix-append (c ∷ p) s = rw (beq_refl c, has_prefix-append p s) refl

drop_prefix-append : (p s : Bytes) → drop_prefix p (p ++ s) ≡ s
unfolding drop_prefix
drop_prefix-append [] s = refl
drop_prefix-append (c ∷ p) s = drop_prefix-append p s

append-drop_prefix : (p s : Bytes) → has_prefix s p ≡ true → s ≡ p ++ drop_prefix p s
unfolding has_prefix drop_prefix
append-drop_prefix [] s h = refl
append-drop_prefix (c ∷ p) [] h = cc
append-drop_prefix (c ∷ p) (d ∷ s) h = elim (beq_cases d c) [
  | inl (b, e) ↦ ap (λ x. x ∷ s) e ∙ ap (◌∷◌ c) (append-drop_prefix p s (rw b at h))
  | inr (b, e) ↦ absurd (differ (rw b at h))
]
  where
    differ : ¬ (false ≡ true)
    differ q = cc

find_group-behind :
    (s r : Bytes)
    → has_prefix s share_prefix ≡ true
    → drop_prefix share_prefix s ≡ r
    → find_group s ≡ group_from [] r
unfolding find_group
find_group-behind s r h d = rw (h, find_group) (ap (group_from []) d)

-- The pattern of shared subscriptions finds a group and a topic in a text exactly if the text is
-- "$share/", the group, "/" and the topic, the group is one or more letters, digits, "_" and "-",
-- and the topic has no line break.
pub find_group_iff :
    (s g t : Bytes) → (find_group s ≡ some (g, t)) ↔ ((s ≡ share_text g t) × IsShare g t)
unfolding find_group
find_group_iff s g t = (
  λ h. elim (Bool-cases (has_prefix s share_prefix)) [
    | inl b ↦
        let (m, e, f, a, ne, nl) =
          group_from_sound [] (drop_prefix share_prefix s) g t (rw (b, find_group) at h) in
        (
          append-drop_prefix share_prefix s b
              ∙ ap (λ r. share_prefix ++ r) (f ∙ ap (λ m. m ++ b'/' ∷ t) (sym e)),
          (subst AreGroup (sym e) a, ne, nl),
        )
    | inr b ↦ absurd (missing (g, t) (rw (b, find_group) at h))
  ],
  λ (e, (a, ne, nl)).
      ap find_group e
      ∙ find_group-behind (share_text g t) (g ++ b'/' ∷ t)
          (has_prefix-append share_prefix (g ++ b'/' ∷ t))
          (drop_prefix-append share_prefix (g ++ b'/' ∷ t))
      ∙ group_from_complete [] g t a ne nl,
)
  where
    missing : (x : Bytes × Bytes) → ¬ (none ≡ some x)
    missing x q = cc
