-- ===== src/AuthHttp.antt =====
-- plugins/auth/authhttp: the authorisation by a web service, with a cache of what it granted. The
-- cache is github.com/patrickmn/go-cache, of which the interface is a parameter.
pub mod Grants
use hmq.Prelude.{
  ℕ, ◌≡◌, ◌⊎◌, Bool, true, false, ◌&&◌, Option, none, some, List, ◌∷◌, Bytes, codes, ◌==◌, nat_eq,
  bytes_eq, if◌then◌else◌,
}

-- cache.go
pub record AuthCache : Type 0 where
  pub action : Bytes
  pub username : Bytes
  pub client_id : Bytes
  pub password : Bytes
  pub topic : Bytes

-- What the plugin uses of the cache. Get finds under a name what was set there last, or nothing
-- where it has expired, and Set changes what is under its own name.
pub record Cache : Type 1 where
  pub State : Type 0
  pub get : State → Bytes → Option AuthCache
  pub set : State → Bytes → AuthCache → State
  pub get_after_set :
      (s : State) (k j : Bytes) (v w : AuthCache)
      → get (set s k v) j ≡ some w
      → ((k ≡ j) × (v ≡ w)) ⊎ (get s j ≡ some w)

-- A request that the service answered with the status 200.
pub data Grant : Type 0 where
  -- the client, its user name and its password
  connects : Bytes → Bytes → Bytes → Grant
  -- the action, the user name and the topic
  accesses : Bytes → Bytes → Bytes → Grant

abbrev pub connect : Bytes
connect = codes "connect"

-- http.StatusOK
abbrev pub status_ok : ℕ
status_ok = 200

-- `aCache != nil` and the comparisons of CheckConnect
abbrev pub hits_connect : Option AuthCache → Bytes → Bytes → Bool
hits_connect none username password = false
hits_connect (some a) username password =
    a.password == password && a.username == username && a.action == connect

-- The same of CheckACL
abbrev pub hits_acl : Option AuthCache → Bytes → Bytes → Bool
hits_acl none action topic = false
hits_acl (some a) action topic = a.topic == topic && a.action == action

-- `resp.StatusCode == http.StatusOK`; `none` is a request that failed.
abbrev pub is_granted : Option ℕ → Bool
is_granted none = false
is_granted (some status) = status == status_ok

module _ (c : Cache) where
  -- The cache, and what the service has granted so far.
  pub record AuthHttp : Type 0 where
    pub cache : c.State
    pub granted : List Grant

  unfoldable pub check_cache : Bytes → AuthHttp → Option AuthCache
  check_cache username a = c.get a.cache username

  unfoldable pub add_cache : Bytes → Bytes → Bytes → Bytes → Bytes → AuthHttp → AuthHttp
  add_cache action client_id username password topic a = record a {
    cache = c.set a.cache username (record {
      action = action;
      username = username;
      client_id = client_id;
      password = password;
      topic = topic;
    });
  }

  abbrev pub grant : Grant → AuthHttp → AuthHttp
  grant g a = record a { granted = g ∷ a.granted }

  -- `answer` is the service's answer to the request, if it is made.
  unfoldable pub check_connect : Option ℕ → Bytes → Bytes → Bytes → AuthHttp → AuthHttp × Bool
  unfolding check_cache add_cache
  check_connect answer client_id username password a =
      if hits_connect (check_cache username a) username password
      then (a, true)
      else if is_granted answer
      then (
        add_cache connect client_id username password (codes "")
            (grant (connects client_id username password) a),
        true,
      )
      else (a, false)

  unfoldable pub check_acl : Option ℕ → Bytes → Bytes → Bytes → AuthHttp → AuthHttp × Bool
  unfolding check_cache add_cache
  check_acl answer action username topic a =
      if hits_acl (check_cache username a) action topic
      then (a, true)
      else if is_granted answer
      then (
        add_cache action (codes "") username (codes "") topic
            (grant (accesses action username topic) a),
        true,
      )
      else (a, false)
