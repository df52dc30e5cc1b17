-- ===== src/Sessions/GetSession/Laws.antt =====
-- What getSession gives a client, and what it leaves of the sessions of the others.
use hmq.Prelude.{
  ℕ, ◌≡◌, ◌≢◌, refl, sym, ap, subst, ◌∙◌, ◌⊎◌, inl, inr, Bool, true, false, Option, none, some, [],
  ◌∷◌, ◌++◌, Bytes, length, is_empty, if◌then◌else◌, bytes_eq, Bool-cases,
}
use hmq.Prelude.Assoc.{lookup, insert}
use hmq.Prelude.Heap.{
  get_elem?, modify, get_elem?-alloc, get_elem?-append, get_elem?-modify_self, get_elem?-modify_ne,
  get_elem?-length,
}
use hmq.Packets.{ConnectPacket}
use hmq.Sessions.Session.{Session, init, update, new_session}
use hmq.Sessions.MemProvider.{MemProvider, get, create, manager_new}
use hmq.Sessions.GetSession.{
  Got, init_error, or_create, resume, with_clean_session, starting, get_session,
}

-- Every session in the store is an initialised object of the heap.
pub record IsValid (p : MemProvider) : Type 0 where
  pub stored :
      (id : Bytes) (a : ℕ)
      → lookup id p.st ≡ some a
      → (s : Session) × (get_elem? p.heap a ≡ some s) × (s.initted ≡ true)

-- The request is as it was where the client names itself.
with_clean_session-named :
    (req : ConnectPacket) → is_empty req.client_identifier ≡ false → with_clean_session req ≡ req
unfolding with_clean_session
with_clean_session-named req e = rw e refl

-- The Got of a client whose session is found.
abbrev pub resumed : Got → ℕ → Got
resumed g a = record {
  provider = record g.provider { heap = modify a (update g.request) g.provider.heap };
  session = some a;
  request = g.request;
  session_present = true;
  error = none;
}

resume-found :
    (g : Got) (a : ℕ)
    → lookup g.request.client_identifier g.provider.st ≡ some a
    → resume g ≡ resumed g a
unfolding resume get
resume-found g a e = rw (e, resume, get) refl

pub or_create-resumed :
    (sid : Bytes) (g : Got) (a : ℕ)
    → g.request.clean_session ≡ false
    → lookup g.request.client_identifier g.provider.st ≡ some a
    → or_create sid (if g.request.clean_session then g else resume g) ≡ resumed g a
unfolding or_create
or_create-resumed sid g a e found =
    ap (λ b. or_create sid (if b then g else resume g)) e
    ∙ ap (or_create sid) (resume-found g a found)

-- A client that names itself, does not ask for a clean session and has a session in the store gets
-- that session, its topics kept and its CONNECT packet replaced; SessionPresent is set, nothing
-- fails, and no other session changes. That is so whatever the session was begun with: one that was
-- begun with CleanSession set to 1, which the comment in the code says must not be reused, is
-- resumed as well.
pub get_session-resumed :
    (sid : Bytes) (session : Option ℕ) (req : ConnectPacket) (present : Bool) (p : MemProvider)
    (a : ℕ) (s : Session)
    → is_empty req.client_identifier ≡ false
    → req.clean_session ≡ false
    → lookup req.client_identifier p.st ≡ some a
    → get_elem? p.heap a ≡ some s
    → let g = get_session sid session req present p in
      (g.session ≡ some a)
      × (g.session_present ≡ true)
      × (g.error ≡ none)
      × (g.provider.st ≡ p.st)
      × (get_elem? g.provider.heap a ≡ some (record s { cmsg = some req }))
      × ((b : ℕ) → a ≢ b → get_elem? g.provider.heap b ≡ get_elem? p.heap b)
unfolding get_session starting with_clean_session resume or_create get update
get_session-resumed sid session req present p a s named dirty found e =
    let same = with_clean_session-named req named in
    let g = starting session req present p in
    let run =
      or_create-resumed sid g a (ap (λ r. r.clean_session) same ∙ dirty)
        (ap (λ r. lookup r.client_identifier p.st) same ∙ found) in
    (
      ap (λ x. x.session) run,
      ap (λ x. x.session_present) run,
      ap (λ x. x.error) run,
      ap (λ x. x.provider.st) run,
      ap (λ x. get_elem? x.provider.heap a) run
          ∙ get_elem?-modify_self p.heap (update g.request) s a e
          ∙ ap (λ r. some (record s { cmsg = some r })) same,
      λ b ne.
          ap (λ x. get_elem? x.provider.heap b) run
          ∙ get_elem?-modify_ne p.heap (update g.request) a b ne,
    )

-- What is left of a provider by a new session for a request: it is a new object, initialised with
-- that request and no topics, and in the store; the older objects are as they were.
pub record Started (sid : Bytes) (req : ConnectPacket) (p : MemProvider) (g : Got) : Type 0 where
  pub session : g.session ≡ some (length p.heap)
  pub session_present : g.session_present ≡ false
  pub error : g.error ≡ none
  pub stored :
      g.provider.st
      ≡ insert
          (if is_empty req.client_identifier then sid else req.client_identifier)
          (length p.heap)
          p.st
  pub made :
      (s : Session) × (get_elem? g.provider.heap (length p.heap) ≡ some s)
      × (s.initted ≡ true)
      × (s.topics ≡ [])
      × (s.cmsg ≡ some req)
  pub kept :
      (b : ℕ) (s : Session) → get_elem? p.heap b ≡ some s → get_elem? g.provider.heap b ≡ some s

or_create-Started :
    (sid : Bytes) (req : ConnectPacket) (present : Bool) (p : MemProvider)
    → Started sid req p (
        or_create sid (record {
          provider = p;
          session = none;
          request = req;
          session_present = present;
          error = none;
        }))
unfolding or_create init_error manager_new create init new_session
or_create-Started sid req present p =
    let id = if is_empty req.client_identifier then sid else req.client_identifier in
    let made = get_elem?-alloc p.heap (new_session id) in
    record {
      session = refl;
      session_present = refl;
      error = rw made refl;
      stored = refl;
      made = (
        _,
        get_elem?-modify_self _ (λ s. (init req s).0) (new_session id) (length p.heap) made,
        refl,
        refl,
        refl,
      );
      kept = λ b s e.
          get_elem?-modify_ne (p.heap ++ new_session id ∷ []) (λ s. (init req s).0) (length p.heap)
            b (λ q. get_elem?-length p.heap s b e (sym q))
          ∙ get_elem?-append p.heap (new_session id) s b e;
    }

resume-absent :
    (req : ConnectPacket) (present : Bool) (p : MemProvider)
    → lookup req.client_identifier p.st ≡ none
    → let g = starting none req present p in
      lookup g.request.client_identifier p.st ≡ none → resume g ≡ g
unfolding resume get starting
resume-absent req present p h e = rw (e, resume, get) refl

pub client_identifier-with_clean_session :
    (req : ConnectPacket) → (with_clean_session req).client_identifier ≡ req.client_identifier
unfolding with_clean_session
client_identifier-with_clean_session req = elim (Bool-cases (is_empty req.client_identifier)) [
  | inl e ↦ rw e refl
  | inr e ↦ rw e refl
]

Started-if :
    (sid : Bytes) (req : ConnectPacket) (p : MemProvider) (g : Got) (b : Bool)
    → (b ≡ true) ⊎ (resume g ≡ g)
    → Started sid req p (or_create sid g)
    → Started sid req p (or_create sid (if b then g else resume g))
Started-if sid req p g true h w = w
Started-if sid req p g false (inl h) w = cc
Started-if sid req p g false (inr h) w = subst (λ g. Started sid req p (or_create sid g)) (sym h) w

-- A client that has no session and whose request asks for a clean one, names no client, or names a
-- client without a session in the store is given a new session, initialised with the request (its
-- clean-session flag set if it names no client) and without topics: it is in the store under the
-- client's name or the one made up, SessionPresent is not set, nothing fails, and every session
-- there was is as it was.
pub get_session-Started :
    (sid : Bytes) (req : ConnectPacket) (present : Bool) (p : MemProvider)
    → ((with_clean_session req).clean_session ≡ true) ⊎ (lookup req.client_identifier p.st ≡ none)
    → Started sid (with_clean_session req) p (get_session sid none req present p)
unfolding get_session starting
get_session-Started sid req present p h =
    let req' = with_clean_session req in
    Started-if sid req' p (starting none req present p) req'.clean_session
      (elim h [
        | inl t ↦ inl t
        | inr absent ↦ inr (
            resume-absent req present p absent
              (ap (λ k. lookup k p.st) (client_identifier-with_clean_session req) ∙ absent))
      ])
      (or_create-Started sid req' present p)
