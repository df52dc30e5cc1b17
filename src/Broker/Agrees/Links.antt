-- ===== src/Broker/Agrees/Links.antt =====
-- What clients own when one of them has a subscription more or less in its map, or is closed.
use hmq.Prelude.{
  ℕ, zero, suc, [], ◌∷◌, ◌≡◌, ◌≢◌, refl, sym, ap, subst, ◌∙◌, ◌⊎◌, inl, inr, true, false, none,
  some, some_inj, List, Memᴰ, Bytes, bytes_eq, nat_eq, beq_cases, Option-cases,
}
use hmq.Prelude.Assoc.{insert, delete}
use hmq.Prelude.Entries.{mem_of-delete, mem-delete, mem_of-insert, mem-insert, mem-insert_other}
use hmq.Prelude.Heap.{get_elem?, modify, get_elem?-modify_self, get_elem?-modify_ne}
use hmq.Client.{connected, disconnected}
use hmq.Broker.View.{Link, AreLive}
use hmq.Broker.Agrees.{Owns, IsClient}

abbrev pub forget_link : Bytes → Link → Link
forget_link t l = record l { sub_map = delete t l.sub_map }

abbrev pub remember_link : Bytes → ℕ → Link → Link
remember_link t p l = record l { sub_map = insert t p l.sub_map }

abbrev pub hang_link : Link → Link
hang_link l = record l { status = disconnected; conn = false }

get_elem?-modify-none :
    (ls : List Link) (g : Link → Link) (a : ℕ)
    → get_elem? ls a ≡ none
    → get_elem? (modify a g ls) a ≡ none
get_elem?-modify-none [] g a h = refl
get_elem?-modify-none (l ∷ ls) g zero h = cc
get_elem?-modify-none (l ∷ ls) g (suc a) h = get_elem?-modify-none ls g a h

-- What a link is after a write to one of them.
pub link_of-modify :
    (g : Link → Link) (ls : List Link) (a b : ℕ) (l : Link)
    → get_elem? (modify a g ls) b ≡ some l
    → (m : Link) × (get_elem? ls b ≡ some m) × (((a ≡ b) × (l ≡ g m)) ⊎ ((a ≢ b) × (l ≡ m)))
link_of-modify g ls a b l h = elim (beq_cases a b) [
  | inl (_, p) ↦ elim (Option-cases (get_elem? ls b)) [
    | inl e ↦
        absurd (
          missing
            (sym h ∙ ap (λ i. get_elem? (modify i g ls) b) p ∙ get_elem?-modify-none ls g b e))
    | inr (m, e) ↦ (
      m,
      e,
      inl (
        p,
        some_inj
            (sym h ∙ ap (λ i. get_elem? (modify i g ls) b) p ∙ get_elem?-modify_self ls g m b e),
      ),
    )
  ]
  | inr (_, ne) ↦ (l, sym (get_elem?-modify_ne ls g a b ne) ∙ h, inr (ne, refl))
]
  where
    missing : ¬ (some l ≡ none)
    missing q = cc

pub IsClient-of-modify :
    (g : Link → Link) (ls : List Link) (a b : ℕ)
    → ((l : Link) → (g l).typ ≡ l.typ)
    → IsClient (modify a g ls) b
    → IsClient ls b
IsClient-of-modify g ls a b same (l, e, c) =
    let (m, f, which) = link_of-modify g ls a b l e in
    elim which [
      | inl (_, q) ↦ (m, f, sym (same m) ∙ ap (λ (x : Link). x.typ) (sym q) ∙ c)
      | inr (_, q) ↦ (m, f, ap (λ (x : Link). x.typ) (sym q) ∙ c)
    ]

pub typ-modify :
    (g : Link → Link) (ls : List Link) (a b : ℕ) (m : Link)
    → ((l : Link) → (g l).typ ≡ l.typ)
    → get_elem? ls b ≡ some m
    → (l : Link) × (get_elem? (modify a g ls) b ≡ some l) × (l.typ ≡ m.typ)
typ-modify g ls a b m same e = elim (beq_cases a b) [
  | inl (_, q) ↦
      (g m, ap (λ j. get_elem? (modify j g ls) b) q ∙ get_elem?-modify_self ls g m b e, same m)
  | inr (_, ne) ↦ (m, get_elem?-modify_ne ls g a b ne ∙ e, refl)
]

pub AreLive-modify :
    (g : Link → Link) (ls : List Link) (a : ℕ)
    → ((l : Link)
        → (l.status ≡ connected → l.conn ≡ true)
        → (g l).status ≡ connected
        → (g l).conn ≡ true)
    → AreLive ls
    → AreLive (modify a g ls)
AreLive-modify g ls a keeps live b l e =
    let (m, f, which) = link_of-modify g ls a b l e in
    elim which [
      | inl (_, q) ↦
          subst (λ (x : Link). x.status ≡ connected → x.conn ≡ true) (sym q) (keeps m (live b m f))
      | inr (_, q) ↦ subst (λ (x : Link). x.status ≡ connected → x.conn ≡ true) (sym q) (live b m f)
    ]

module _ (ls : List Link) (a : ℕ) where
  pub Owns-of-forget :
      (t : Bytes) (b : ℕ) (u : Bytes) (p : ℕ)
      → Owns (modify a (forget_link t) ls) b u p
      → Owns ls b u p × (a ≡ b → u ≢ t)
  Owns-of-forget t b u p (l, e, s, i) =
      let (m, f, which) = link_of-modify (forget_link t) ls a b l e in
      elim which [
        | inl (_, q) ↦
            let (old, ne) =
              mem_of-delete t u p m.sub_map (subst (λ (x : Link). Memᴰ (u, p) x.sub_map) q i) in
            ((m, f, ap (λ (x : Link). x.status) (sym q) ∙ s, old), λ _. ne)
        | inr (other, q) ↦ (
          (
            m,
            f,
            ap (λ (x : Link). x.status) (sym q) ∙ s,
            subst (λ (x : Link). Memᴰ (u, p) x.sub_map) q i,
          ),
          λ same. absurd (other same),
        )
      ]

  -- A client that is not the one written to, or keeps what it has.
  Owns-modify :
      (g : Link → Link) (b : ℕ) (u : Bytes) (p : ℕ)
      → Owns ls b u p
      → ((l : Link)
          → a ≡ b
          → l.status ≡ connected
          → Memᴰ (u, p) l.sub_map
          → ((g l).status ≡ connected) × Memᴰ (u, p) (g l).sub_map)
      → Owns (modify a g ls) b u p
  Owns-modify g b u p (l, e, s, i) keeps = elim (beq_cases a b) [
    | inl (_, q) ↦
        let (s', i') = keeps l q s i in
        (g l, ap (λ j. get_elem? (modify j g ls) b) q ∙ get_elem?-modify_self ls g l b e, s', i')
    | inr (_, ne) ↦ (l, get_elem?-modify_ne ls g a b ne ∙ e, s, i)
  ]

  pub Owns-forget :
      (t : Bytes) (b : ℕ) (u : Bytes) (p : ℕ)
      → Owns ls b u p
      → (a ≡ b → u ≢ t)
      → Owns (modify a (forget_link t) ls) b u p
  Owns-forget t b u p o ne =
      Owns-modify (forget_link t) b u p o (λ l q s i. (s, mem-delete t u p l.sub_map i (ne q)))

  pub Owns-of-remember :
      (t : Bytes) (n b : ℕ) (u : Bytes) (p : ℕ)
      → Owns (modify a (remember_link t n) ls) b u p
      → ((a ≡ b) × (u ≡ t) × (p ≡ n)) ⊎ Owns ls b u p
  Owns-of-remember t n b u p (l, e, s, i) =
      let (m, f, which) = link_of-modify (remember_link t n) ls a b l e in
      elim which [
        | inl (same, q) ↦
            elim (mem_of-insert t u n p m.sub_map
              (subst (λ (x : Link). Memᴰ (u, p) x.sub_map) q i)) [
                | inl (ut, pn) ↦ inl (same, ut, pn)
                | inr old ↦ inr (m, f, ap (λ (x : Link). x.status) (sym q) ∙ s, old)
              ]
        | inr (other, q) ↦ inr (
          m,
          f,
          ap (λ (x : Link). x.status) (sym q) ∙ s,
          subst (λ (x : Link). Memᴰ (u, p) x.sub_map) q i,
        )
      ]

  pub Owns-remember :
      (t : Bytes) (n b : ℕ) (u : Bytes) (p : ℕ)
      → Owns ls b u p
      → (a ≡ b → u ≢ t)
      → Owns (modify a (remember_link t n) ls) b u p
  Owns-remember t n b u p o ne =
      Owns-modify (remember_link t n) b u p o
        (λ l q s i. (s, mem-insert_other t u n p l.sub_map i (ne q)))

  pub Owns-remember_new :
      (t : Bytes) (n : ℕ) (l : Link)
      → get_elem? ls a ≡ some l
      → l.status ≡ connected
      → Owns (modify a (remember_link t n) ls) a t n
  Owns-remember_new t n l e s = (
    remember_link t n l,
    get_elem?-modify_self ls (remember_link t n) l a e,
    s,
    mem-insert t n l.sub_map,
  )

  pub Owns-of-hang :
      (b : ℕ) (u : Bytes) (p : ℕ) → Owns (modify a hang_link ls) b u p → (a ≢ b) × Owns ls b u p
  Owns-of-hang b u p (l, e, s, i) =
      let (m, f, which) = link_of-modify hang_link ls a b l e in
      elim which [
        | inl (_, q) ↦ absurd (hung (ap (λ (x : Link). x.status) (sym q) ∙ s))
        | inr (other, q) ↦ (
          other,
          (
            m,
            f,
            ap (λ (x : Link). x.status) (sym q) ∙ s,
            subst (λ (x : Link). Memᴰ (u, p) x.sub_map) q i,
          ),
        )
      ]
    where
      hung : ¬ (disconnected ≡ connected)
      hung h = cc

  pub Owns-hang :
      (b : ℕ) (u : Bytes) (p : ℕ) → a ≢ b → Owns ls b u p → Owns (modify a hang_link ls) b u p
  Owns-hang b u p ne o = Owns-modify hang_link b u p o (λ l q s i. absurd (ne q))
