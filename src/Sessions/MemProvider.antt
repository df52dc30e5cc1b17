-- ===== src/Sessions/MemProvider.antt =====
-- broker/lib/sessions/memprovider.go and the Manager of sessions.go. A session is an object of the
-- heap: the provider's map and the clients hold its address.
use hmq.Prelude.{
  ℕ, none, some, List, [], ◌∷◌, ◌++◌, Bytes, Result, ok, err, bytes_eq, length, is_empty,
  if◌then◌else◌,
}
use hmq.Prelude.Assoc.{Assoc, insert, delete, lookup}
use hmq.Sessions.Session.{Session, SessionError, not_found, new_session}

pub record MemProvider : Type 0 where
  pub heap : List Session
  pub st : Assoc Bytes ℕ

abbrev pub new_mem_provider : MemProvider
new_mem_provider = record { heap = []; st = [] }

-- New
unfoldable pub create : Bytes → MemProvider → MemProvider × ℕ
create id p = (
  record { heap = p.heap ++ new_session id ∷ []; st = insert id (length p.heap) p.st },
  length p.heap,
)

unfoldable pub get : Bytes → MemProvider → Result SessionError ℕ
get id p = elim (lookup id p.st) [ some sess ↦ ok sess | none ↦ err not_found ]

unfoldable pub del : Bytes → MemProvider → MemProvider
del id p = record p { st = delete id p.st }

unfoldable pub count : MemProvider → ℕ
count p = length p.st

unfoldable pub close : MemProvider → MemProvider
close p = record p { st = [] }

-- Manager.New: the identifier it makes up where it is given none is a parameter.
unfoldable pub manager_new : Bytes → Bytes → MemProvider → MemProvider × ℕ
manager_new session_id id p = create (if is_empty id then session_id else id) p
