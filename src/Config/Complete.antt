-- ===== src/Config/Complete.antt =====
-- What a configuration that passes check has.
use hmq.Prelude.{
  zero, suc, ◌≡◌, ◌≢◌, refl, ap, ap₂, ◌∙◌, inl, inr, Bool, true, false, ◌&&◌, ◌||◌, not, none, some,
  [], ◌∷◌, Bytes, nat_eq, is_empty, if◌then◌else◌, Bool-cases,
}
use hmq.Prelude.Int.{ℤ, pos, negsuc, is_zero}
use hmq.Config.{ConfigError, Config, host_of, with_hosts, check}

-- There is a number of workers; the ports for clients, for the cluster and for TLS have a host; a
-- router has a cluster port, and TLS has its files.
pub record IsComplete (c : Config) : Type 0 where
  pub worker : c.worker ≢ pos 0
  pub host : (is_empty c.port || not (is_empty c.host)) ≡ true
  pub cluster_host : (is_empty c.cluster_port || not (is_empty c.cluster_host)) ≡ true
  pub tls_host : (is_empty c.tls_port || not (is_empty c.tls_host)) ≡ true
  pub router : (is_empty c.router || not (is_empty c.cluster_port)) ≡ true
  pub tls : (is_empty c.tls_port || not (is_empty c.cert_file) && not (is_empty c.key_file)) ≡ true

host_of-given : (port host : Bytes) → (is_empty port || not (is_empty (host_of port host))) ≡ true
host_of-given [] host = refl
host_of-given (p ∷ port) [] = refl
host_of-given (p ∷ port) (h ∷ host) = refl

worker-given : (n : ℤ) → (if is_zero n then pos 1024 else n) ≢ pos 0
worker-given (pos zero) e = cc
worker-given (pos (suc n)) e = cc
worker-given (negsuc n) e = cc

consistent : (a b : Bool) → (not a && b) ≡ false → (a || not b) ≡ true
consistent true b e = refl
consistent false true e = cc
consistent false false e = refl

both_given : (a b d : Bool) → (not a && (b || d)) ≡ false → (a || not b && not d) ≡ true
both_given true b d e = refl
both_given false true d e = cc
both_given false false true e = cc
both_given false false false e = refl

host_of-kept :
    (port host : Bytes) → (is_empty port || not (is_empty host)) ≡ true → host_of port host ≡ host
host_of-kept [] host h = refl
host_of-kept (p ∷ port) [] h = cc
host_of-kept (p ∷ port) (x ∷ host) h = refl

worker-kept : (n : ℤ) → n ≢ pos 0 → (if is_zero n then pos 1024 else n) ≡ n
worker-kept (pos zero) ne = absurd (ne refl)
worker-kept (pos (suc n)) ne = refl
worker-kept (negsuc n) ne = refl

not_refused : (a b : Bool) → (a || not b) ≡ true → (not a && b) ≡ false
not_refused true b e = refl
not_refused false true e = cc
not_refused false false e = refl

with_files : (a b d : Bool) → (a || not b && not d) ≡ true → (not a && (b || d)) ≡ false
with_files true b d e = refl
with_files false true d e = cc
with_files false false true e = cc
with_files false false false e = refl

with_hosts-IsComplete : (c : Config) → IsComplete c → with_hosts c ≡ c
with_hosts-IsComplete c i =
    ap₂
      (λ w h. record c {
        worker = w;
        host = h;
        cluster_host = host_of c.cluster_port c.cluster_host;
      })
      (worker-kept c.worker i.worker) (host_of-kept c.port c.host i.host)
    ∙ ap (λ h. record c { cluster_host = h })
        (host_of-kept c.cluster_port c.cluster_host i.cluster_host)

-- check leaves a complete configuration.
check-fixed : (c : Config) → IsComplete c → check c ≡ (c, none)
unfolding check
check-fixed c i =
    rw
      (
        not_refused (is_empty c.router) (is_empty c.cluster_port) i.router,
        with_files (is_empty c.tls_port) (is_empty c.cert_file) (is_empty c.key_file) i.tls,
      )
      (ap (λ (x : Config). (x, none))
        (ap (λ (x : Config). with_tls_host x (host_of c.tls_port c.tls_host))
            (with_hosts-IsComplete c i)
          ∙ ap (with_tls_host c) (host_of-kept c.tls_port c.tls_host i.tls_host)))
  where
    with_tls_host : Config → Bytes → Config
    with_tls_host x h = record x { tls_host = h }

complete : (c : Config) → (check c).1 ≡ none → IsComplete (check c).0
unfolding check
complete c e = elim (Bool-cases (not (is_empty c.router) && is_empty c.cluster_port)) [
  | inl a ↦ absurd (refused _ (rw (a, check) at e))
  | inr a ↦
      elim (Bool-cases
        (not (is_empty c.tls_port) && (is_empty c.cert_file || is_empty c.key_file))) [
          | inl b ↦ absurd (refused _ (rw (a, b, check) at e))
          | inr b ↦
              rw (a, b, check)
                (record {
                  worker = worker-given c.worker;
                  host = host_of-given c.port c.host;
                  cluster_host = host_of-given c.cluster_port c.cluster_host;
                  tls_host = host_of-given c.tls_port c.tls_host;
                  router = consistent (is_empty c.router) (is_empty c.cluster_port) a;
                  tls =
                      both_given (is_empty c.tls_port) (is_empty c.cert_file) (is_empty c.key_file)
                        b;
                })
        ]
]
  where
    refused : (x : ConfigError) → some x ≢ none
    refused x p = cc

-- A configuration that check does not refuse is complete afterwards: its number of workers is
-- not 0, though it may be negative; the ports for clients, for the cluster and for TLS have a host
-- where they are given, a router has a cluster port, and a TLS port has both its files. A second
-- call of check changes nothing more.
pub check-IsComplete :
    (c : Config)
    → (check c).1 ≡ none
    → IsComplete (check c).0 × (check (check c).0 ≡ ((check c).0, none))
check-IsComplete c e = (complete c e, check-fixed (check c).0 (complete c e))
