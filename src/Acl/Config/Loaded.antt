-- ===== src/Acl/Config/Loaded.antt =====
-- What a configuration that was loaded holds.
use hmq.Prelude.{
  ◌≡◌, ap, subst, ◌⊎◌, inl, inr, Option, none, some, List, [], ◌∷◌, ◌++◌, Bytes, bytes_eq, nat_eq,
  bytes_beq_iff, ok_inj, Bool-cases, ok, Result-cases, arith, is_empty,
}
use hmq.Go.{split, trim_space, fields}
use hmq.Acl.Check.{acl_pub, acl_sub, acl_pubsub, allow, deny, client_id, username, ip, AuthInfo}
use hmq.Acl.Check.Rules.{IsPubSub}
use hmq.Acl.Config.{ConfigError, prase_fields, prase_lines, is_comment_out, loaded, acl_config_load}

-- The values that the decision procedure knows.
pub record IsRule (a : AuthInfo) : Type 0 where
  pub auth : (a.auth ≡ allow) ⊎ (a.auth ≡ deny)
  pub typ : (a.typ ≡ client_id) ⊎ (a.typ ≡ username) ⊎ (a.typ ≡ ip)
  pub pub_sub : IsPubSub a.pub_sub

abbrev pub AreRules : List AuthInfo → Type 0
AreRules [] = Unit
AreRules (a ∷ as') = IsRule a × AreRules as'

AreRules-append :
    (xs : List AuthInfo) (a : AuthInfo) → AreRules xs → IsRule a → AreRules (xs ++ a ∷ [])
AreRules-append [] a h r = (r, tt)
AreRules-append (x ∷ xs) a h r = (h.0, AreRules-append xs a h.1 r)

prase_fields-IsRule :
    (line : Bytes) (fs : List Bytes) (a : AuthInfo) → prase_fields line fs ≡ ok a → IsRule a
unfolding prase_fields
prase_fields-IsRule line (auth ∷ typ ∷ val ∷ pub_sub ∷ topic ∷ []) a h = ground (
  arith,
  bytes_beq_iff auth allow,
  bytes_beq_iff auth deny,
  bytes_beq_iff typ client_id,
  bytes_beq_iff typ username,
  bytes_beq_iff typ ip,
  bytes_beq_iff pub_sub acl_pub,
  bytes_beq_iff pub_sub acl_sub,
  bytes_beq_iff pub_sub acl_pubsub,
)
prase_fields-IsRule line [] a h = cc
prase_fields-IsRule line (_ ∷ []) a h = cc
prase_fields-IsRule line (_ ∷ _ ∷ []) a h = cc
prase_fields-IsRule line (_ ∷ _ ∷ _ ∷ []) a h = cc
prase_fields-IsRule line (_ ∷ _ ∷ _ ∷ _ ∷ []) a h = cc
prase_fields-IsRule line (_ ∷ _ ∷ _ ∷ _ ∷ _ ∷ _ ∷ _) a h = cc

prase_lines-AreRules :
    (ls : List Bytes) (infos : List AuthInfo) → AreRules infos → AreRules (prase_lines infos ls).0
unfolding prase_lines
prase_lines-AreRules [] infos h = h
prase_lines-AreRules (l ∷ ls) infos h = elim (Bool-cases (is_comment_out (trim_space l))) [
  | inl b ↦ rw (b, prase_lines) (prase_lines-AreRules ls infos h)
  | inr b ↦ elim (Bool-cases (is_empty (trim_space l))) [
    | inl c ↦ rw (b, c, prase_lines) h
    | inr c ↦ elim (Result-cases (prase_fields (trim_space l) (fields (trim_space l)))) [
      | inl (a, e) ↦
          rw (b, c, e, prase_lines)
            (prase_lines-AreRules ls (infos ++ a ∷ []) (
              AreRules-append infos a h
                (prase_fields-IsRule (trim_space l) (fields (trim_space l)) a e)))
      | inr (x, e) ↦ rw (b, c, e, prase_lines) h
    ]
  ]
]

loaded-ok :
    (r : List AuthInfo × Option ConfigError) (infos : List AuthInfo)
    → loaded r ≡ ok infos
    → r ≡ (infos, none)
loaded-ok (rs, none) infos h = ap (λ (l : List AuthInfo). (l, none)) (ok_inj h)
loaded-ok (rs, some e) infos h = cc

-- Every rule of a configuration that was loaded has values that the decision procedure knows.
pub acl_config_load-AreRules :
    (content : Option Bytes) (infos : List AuthInfo)
    → acl_config_load content ≡ ok infos
    → AreRules infos
unfolding acl_config_load
acl_config_load-AreRules none infos h = cc
acl_config_load-AreRules (some content) infos h =
    subst (λ (l : List AuthInfo). AreRules l)
      (ap (λ (r : List AuthInfo × Option ConfigError). r.0) (loaded-ok _ infos h))
      (prase_lines-AreRules (split b'\n' content) [] tt)

-- A line of white space ends the file: what is read is what stands before it, whatever the lines
-- behind it hold.
pub prase_lines-blank :
    (infos : List AuthInfo) (ls more : List Bytes) (blank : Bytes)
    → trim_space blank ≡ []
    → prase_lines infos (ls ++ blank ∷ more) ≡ prase_lines infos ls
unfolding prase_lines
prase_lines-blank infos [] more blank h = unfold is_comment_out in rw h
prase_lines-blank infos (l ∷ ls) more blank h = elim (Bool-cases (is_comment_out (trim_space l))) [
  | inl b ↦ rw (b, prase_lines) (prase_lines-blank infos ls more blank h)
  | inr b ↦ elim (Bool-cases (is_empty (trim_space l))) [
    | inl c ↦ rw (b, c, prase_lines)
    | inr c ↦ elim (Result-cases (prase_fields (trim_space l) (fields (trim_space l)))) [
      | inl (a, e) ↦ rw (b, c, e, prase_lines) (prase_lines-blank (infos ++ a ∷ []) ls more blank h)
      | inr (x, e) ↦ rw (b, c, e, prase_lines)
    ]
  ]
]
