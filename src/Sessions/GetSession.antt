-- ===== src/Sessions/GetSession.antt =====
-- broker/sesson.go: the session that a connecting client resumes or starts.
pub mod Laws
pub mod Valid
use hmq.Prelude.{
  ℕ, ◌≡◌, refl, Bool, true, false, Option, none, some, List, [], ◌∷◌, Bytes, Result, ok, err,
  length, is_empty, if◌then◌else◌,
}
use hmq.Prelude.Heap.{get_elem?, modify}
use hmq.Packets.{ConnectPacket}
use hmq.Sessions.Session.{Session, SessionError, init, update}
use hmq.Sessions.MemProvider.{MemProvider, get, manager_new}

-- The store, the client's session, the packets' fields that getSession writes, and its error.
pub record Got : Type 0 where
  pub provider : MemProvider
  pub session : Option ℕ
  pub request : ConnectPacket
  pub session_present : Bool
  pub error : Option SessionError

-- A call of Init on the session at an address, with the error it returns.
unfoldable pub init_error : ConnectPacket → Option Session → Option SessionError
unfolding init
init_error msg (some s) = (init msg s).1
init_error msg none = none

-- `if cli.session == nil`
unfoldable pub or_create : Bytes → Got → Got
unfolding init_error init manager_new
or_create session_id g = elim g.session [
  | some a ↦ g
  | none ↦
      let (p, a) = manager_new session_id g.request.client_identifier g.provider in
      record {
        provider = record p { heap = modify a (λ s. (init g.request s).0) p.heap };
        session = some a;
        request = g.request;
        session_present = false;
        error = init_error g.request (get_elem? p.heap a);
      }
]

-- `if !req.CleanSession`: what Get returns is the client's session, nil too.
unfoldable pub resume : Got → Got
unfolding get update
resume g = elim (get g.request.client_identifier g.provider) [
  | ok a ↦ record {
    provider = record g.provider { heap = modify a (update g.request) g.provider.heap };
    session = some a;
    request = g.request;
    session_present = true;
    error = none;
  }
  | err e ↦ record g { session = none }
]

-- The request as getSession leaves it.
unfoldable pub with_clean_session : ConnectPacket → ConnectPacket
with_clean_session req =
    if is_empty req.client_identifier then record req { clean_session = true } else req

-- Where getSession starts, its request corrected.
unfoldable pub starting : Option ℕ → ConnectPacket → Bool → MemProvider → Got
unfolding with_clean_session
starting session req present p = record {
  provider = p;
  session = session;
  request = with_clean_session req;
  session_present = present;
  error = none;
}

unfoldable pub get_session : Bytes → Option ℕ → ConnectPacket → Bool → MemProvider → Got
unfolding starting resume or_create
get_session session_id session req present p =
    let g = starting session req present p in
    or_create session_id (if g.request.clean_session then g else resume g)
