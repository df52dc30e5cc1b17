-- ===== src/AuthHttp/Grants.antt =====
-- plugins/auth/authhttp: what the plugin permits, and what the service has granted.
use hmq.Prelude.{
  ℕ, ◌≡◌, ◌≢◌, refl, sym, subst, ◌∙◌, ◌⊎◌, inl, inr, true, false, Option, none, some, List, ◌∷◌,
  Memᴰ, Bytes, codes, nat_eq, bytes_eq, Bool-cases, bytes_beq_iff, arith,
}
use hmq.AuthHttp.{
  AuthCache, Cache, Grant, connects, accesses, connect, hits_connect, hits_acl, is_granted,
  AuthHttp, check_cache, add_cache, grant, check_connect, check_acl,
}

-- An entry under a user name is what a grant to that user left.
abbrev pub Genuine : List Grant → Bytes → AuthCache → Type 0
Genuine granted user w =
    (w.username ≡ user)
    × (((w.action ≡ connect) × Memᴰ (connects w.client_id user w.password) granted)
        ⊎ ((w.action ≢ connect) × Memᴰ (accesses w.action user w.topic) granted))

Genuine-more :
    (g : Grant) (granted : List Grant) (user : Bytes) (w : AuthCache)
    → Genuine granted user w
    → Genuine (g ∷ granted) user w
Genuine-more g granted user w (e, inl (a, m)) = (e, inl (a, Memᴰ.tail m))
Genuine-more g granted user w (e, inr (a, m)) = (e, inr (a, Memᴰ.tail m))

hits_connect-fields :
    (w : AuthCache) (username password : Bytes)
    → hits_connect (some w) username password ≡ true
    → (w.password ≡ password) × (w.action ≡ connect)
hits_connect-fields w username password h = ground (
  arith,
  bytes_beq_iff w.password password,
  bytes_beq_iff w.username username,
  bytes_beq_iff w.action connect,
)

hits_acl-fields :
    (w : AuthCache) (action topic : Bytes)
    → hits_acl (some w) action topic ≡ true
    → (w.topic ≡ topic) × (w.action ≡ action)
hits_acl-fields w action topic h =
    ground (arith, bytes_beq_iff w.topic topic, bytes_beq_iff w.action action)

hits_connect-granted :
    (granted : List Grant) (o : Option AuthCache) (username password : Bytes)
    → ((w : AuthCache) → o ≡ some w → Genuine granted username w)
    → hits_connect o username password ≡ true
    → (client_id : Bytes) × Memᴰ (connects client_id username password) granted
hits_connect-granted granted none username password s h = cc
hits_connect-granted granted (some w) username password s h =
    let (password_eq, action_eq) = hits_connect-fields w username password h in
    elim (s w refl).1 [
      | inl (_, m) ↦
          (w.client_id, subst (λ p. Memᴰ (connects w.client_id username p) granted) password_eq m)
      | inr (other, _) ↦ absurd (other action_eq)
    ]

hits_acl-granted :
    (granted : List Grant) (o : Option AuthCache) (action username topic : Bytes)
    → action ≢ connect
    → ((w : AuthCache) → o ≡ some w → Genuine granted username w)
    → hits_acl o action topic ≡ true
    → Memᴰ (accesses action username topic) granted
hits_acl-granted granted none action username topic ne s h = cc
hits_acl-granted granted (some w) action username topic ne s h =
    let (topic_eq, action_eq) = hits_acl-fields w action topic h in
    elim (s w refl).1 [
      | inl (login, _) ↦ absurd (ne (sym action_eq ∙ login))
      | inr (_, m) ↦
          subst (λ t. Memᴰ (accesses action username t) granted) topic_eq
            (subst (λ x. Memᴰ (accesses x username w.topic) granted) action_eq m)
    ]

module _ (c : Cache) where
  pub record IsSound (a : AuthHttp c) : Type 0 where
    pub genuine :
        (user : Bytes) (w : AuthCache) → c.get a.cache user ≡ some w → Genuine a.granted user w

  added-IsSound :
      (a : AuthHttp c) (g : Grant) (action client_id username password topic : Bytes)
      → IsSound a
      → Genuine (g ∷ a.granted) username (record {
        action = action;
        username = username;
        client_id = client_id;
        password = password;
        topic = topic;
      })
      → IsSound (add_cache c action client_id username password topic (grant c g a))
  unfolding add_cache
  added-IsSound a g action client_id username password topic s w = record {
    genuine = λ user v e. elim (c.get_after_set a.cache username user _ v e) [
      | inl (p, q) ↦
          subst (λ u. Genuine (g ∷ a.granted) u v) p (subst (Genuine (g ∷ a.granted) username) q w)
      | inr old ↦ Genuine-more g a.granted user v (s.genuine user v old)
    ];
  }

  -- If every entry of the cache is what a grant of the service left, CheckConnect keeps it so, and
  -- it answers true only if the service has granted the user name and the password, to this client
  -- or to another.
  pub check_connect-granted :
      (a : AuthHttp c) (answer : Option ℕ) (client_id username password : Bytes)
      → IsSound a
      → let r = check_connect c answer client_id username password a in
        IsSound r.0
        × ((r.1 ≡ false) ⊎ ((id : Bytes) × Memᴰ (connects id username password) r.0.granted))
  unfolding check_connect check_cache
  check_connect-granted a answer client_id username password s =
      elim (Bool-cases (hits_connect (c.get a.cache username) username password)) [
        | inl hit ↦
            rw hit
              (s, inr (hits_connect-granted a.granted _ username password (s.genuine username) hit))
        | inr miss ↦ elim (Bool-cases (is_granted answer)) [
          | inl b ↦
              rw (miss, b)
                (
                  added-IsSound a (connects client_id username password) connect client_id username
                      password (codes "") s (refl, inl (refl, Memᴰ.head refl)),
                  inr (client_id, Memᴰ.head refl),
                )
          | inr b ↦ rw (miss, b) (s, inl refl)
        ]
      ]

  -- The same of CheckACL for an action that is not "connect": it answers true only if the service
  -- has granted the action on the topic to the user.
  pub check_acl-granted :
      (a : AuthHttp c) (answer : Option ℕ) (action username topic : Bytes)
      → action ≢ connect
      → IsSound a
      → let r = check_acl c answer action username topic a in
        IsSound r.0 × ((r.1 ≡ false) ⊎ Memᴰ (accesses action username topic) r.0.granted)
  unfolding check_acl check_cache
  check_acl-granted a answer action username topic ne s =
      elim (Bool-cases (hits_acl (c.get a.cache username) action topic)) [
        | inl hit ↦ rw hit (
          s,
          inr (hits_acl-granted a.granted _ action username topic ne (s.genuine username) hit),
        )
        | inr miss ↦ elim (Bool-cases (is_granted answer)) [
          | inl b ↦
              rw (miss, b)
                (
                  added-IsSound a (accesses action username topic) action (codes "") username
                      (codes "") topic s (refl, inr (ne, Memᴰ.head refl)),
                  inr (Memᴰ.head refl),
                )
          | inr b ↦ rw (miss, b) (s, inl refl)
        ]
      ]
