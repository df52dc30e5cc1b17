-- ===== src/Examples/Login.antt =====
-- plugins/auth/authhttp: a cache in which no entry expires.
use hmq.Prelude.{
  ◌≡◌, ◌≢◌, refl, sym, ◌∙◌, ◌⊎◌, inl, inr, true, false, none, some, [], Memᴰ, Bytes, codes,
  bytes_eq, beq_cases, some_inj,
}
use hmq.Prelude.Assoc.{Assoc, lookup, insert, lookup-insert}
use hmq.AuthHttp.{AuthCache, Cache, connects, accesses, AuthHttp, check_connect, check_acl}
use hmq.AuthHttp.Grants.{IsSound, check_connect-granted, check_acl-granted}

found_after_insert :
    (m : Assoc Bytes AuthCache) (k j : Bytes) (v w : AuthCache)
    → lookup j (insert k v m) ≡ some w
    → ((k ≡ j) × (v ≡ w)) ⊎ (lookup j m ≡ some w)
found_after_insert m k j v w e =
    let e' = sym (lookup-insert k j v m) ∙ e in
    elim (beq_cases k j) [
      | inl (b, p) ↦ inl (p, some_inj (rw b at e'))
      | inr (b, _) ↦ inr (rw b at e')
    ]

abbrev lasting : Cache
lasting = record {
  State = Assoc Bytes AuthCache;
  get = λ m user. lookup user m;
  set = λ m user v. insert user v m;
  get_after_set = found_after_insert;
}

abbrev nobody : AuthHttp lasting
nobody = record { cache = []; granted = [] }

nobody-IsSound : IsSound lasting nobody
nobody-IsSound = record { genuine = λ user w e. cc }

check_connect-granted_example :
    let r = check_connect lasting (some 200) (codes "lamp") (codes "joe") (codes "pw") nobody in
    IsSound lasting r.0
    × ((r.1 ≡ false) ⊎ ((id : Bytes) × Memᴰ (connects id (codes "joe") (codes "pw")) r.0.granted))
check_connect-granted_example =
    check_connect-granted lasting nobody (some 200) (codes "lamp") (codes "joe") (codes "pw")
      nobody-IsSound

publishing : codes "2" ≢ codes "connect"
publishing e = cc

check_acl-granted_example :
    let r = check_acl lasting (some 403) (codes "2") (codes "joe") (codes "a/b") nobody in
    IsSound lasting r.0
    × ((r.1 ≡ false) ⊎ Memᴰ (accesses (codes "2") (codes "joe") (codes "a/b")) r.0.granted)
check_acl-granted_example =
    check_acl-granted lasting nobody (some 403) (codes "2") (codes "joe") (codes "a/b") publishing
      nobody-IsSound

-- Another client of the same user is let in by the cache, with no answer of the service.
other_client :
    (check_connect lasting none
      (codes "other")
      (codes "joe")
      (codes "pw")
      (check_connect lasting (some 200) (codes "lamp") (codes "joe") (codes "pw") nobody).0).1
    ≡ true
unfolding check_connect
other_client = refl
