-- ===== src/Acl/Check/Permits.antt =====
-- plugins/auth/authfile/aclcheck.go: what a rule says of the requests it is about.
use hmq.Prelude.{
  ◌≡◌, ◌⊎◌, inl, inr, ◌↔◌, true, false, ◌&&◌, ◌||◌, Bytes, ◌==◌, bytes_eq, beq_cases, bytes_beq_iff,
  if◌then◌else◌, arith, ◌∙◌, sym,
}
use hmq.Acl.Check.{acl_pub, acl_sub, acl_pubsub, allow, deny, AuthInfo, check_auth}

pub clash : ¬ (false ≡ true)
clash h = cc

pub pub_not_sub : ¬ (acl_pub ≡ acl_sub)
pub_not_sub q = clash ((bytes_beq_iff acl_pub acl_sub).1 q)

-- A rule permits an action: "allow" where it names the action, "deny" where it names the other one.
abbrev pub PermitsOne : AuthInfo → Bytes → Bytes → Type 0
PermitsOne info this other =
    (info.auth ≡ allow) × ((info.pub_sub ≡ this) ⊎ (info.pub_sub ≡ acl_pubsub))
    ⊎ (info.auth ≡ deny) × (info.pub_sub ≡ other)

PermitsOne-iff :
    (info : AuthInfo) (this other : Bytes)
    → ((if info.auth == allow && (info.pub_sub == this || info.pub_sub == acl_pubsub)
          then true
          else if info.auth == deny && info.pub_sub == other
          then true
          else false)
        ≡ true)
      ↔ PermitsOne info this other
PermitsOne-iff info this other =
    let a = bytes_beq_iff info.auth allow in
    let d = bytes_beq_iff info.auth deny in
    let t = bytes_beq_iff info.pub_sub this in
    let b = bytes_beq_iff info.pub_sub acl_pubsub in
    let o = bytes_beq_iff info.pub_sub other in (λ h. ground arith, λ h. ground arith)

abbrev pub Permits : Bytes → AuthInfo → Type 0
Permits action info =
    (action ≡ acl_pub) × PermitsOne info acl_pub acl_sub
    ⊎ (action ≡ acl_sub) × PermitsOne info acl_sub acl_pub

pub check_auth_iff :
    (action : Bytes) (info : AuthInfo) → (check_auth info action ≡ true) ↔ Permits action info
unfolding check_auth
check_auth_iff action info = elim (beq_cases action acl_pub) [
  | inl (a, e) ↦ (
    λ h. inl (e, (PermitsOne-iff info acl_pub acl_sub).0 (rw a at h)),
    λ f. elim f [
      | inl (_, p) ↦ rw a ((PermitsOne-iff info acl_pub acl_sub).1 p)
      | inr (q, _) ↦ absurd (pub_not_sub (sym e ∙ q))
    ],
  )
  | inr (a, ne) ↦ elim (beq_cases action acl_sub) [
    | inl (b, e) ↦ (
      λ h. inr (e, (PermitsOne-iff info acl_sub acl_pub).0 (rw (a, b) at h)),
      λ f. elim f [
        | inl (q, _) ↦ absurd (ne q)
        | inr (_, p) ↦ rw (a, b) ((PermitsOne-iff info acl_sub acl_pub).1 p)
      ],
    )
    | inr (b, ne') ↦ (
      λ h. absurd (cc (rw (a, b) at h)),
      λ f. elim f [ inl (q, _) ↦ absurd (ne q) | inr (q, _) ↦ absurd (ne' q) ],
    )
  ]
]
