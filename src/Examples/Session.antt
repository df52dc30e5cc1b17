-- ===== src/Examples/Session.antt =====
-- broker/sesson.go: a client that connects for the first time, and then again.
use hmq.Prelude.{
  ◌≡◌, ◌≢◌, refl, inl, true, false, Bool, ℕ, none, some, [], ◌∷◌, codes, if◌then◌else◌, ◌==◌,
  bytes_eq,
}
use hmq.Prelude.Assoc.{lookup}
use hmq.Prelude.Heap.{get_elem?}
use hmq.Packets.{ConnectPacket}
use hmq.Sessions.Session.{Session, add_topic, remove_topic}
use hmq.Sessions.Session.Laws.{lookup-add_remove_topic}
use hmq.Sessions.MemProvider.{MemProvider, new_mem_provider}
use hmq.Sessions.GetSession.{get_session, with_clean_session}
use hmq.Sessions.GetSession.Laws.{IsValid, Started, get_session-resumed, get_session-Started}
use hmq.Sessions.GetSession.Valid.{get_session-IsValid}

abbrev connect : Bool → ConnectPacket
connect clean = record {
  client_identifier = codes "lamp";
  username = codes "joe";
  password = codes "pw";
  keepalive = 60;
  clean_session = clean;
  dup = false;
  qos = 0;
  will_flag = false;
  will_qos = 0;
  will_retain = false;
  will_topic = [];
  will_message = [];
}

abbrev lamp_session : Session
lamp_session = record {
  cmsg = some (connect true);
  will = none;
  retained = none;
  topics = (codes "a/b", 1) ∷ [];
  initted = true;
  id = codes "lamp";
}

abbrev with_session : MemProvider
with_session = record { heap = lamp_session ∷ []; st = (codes "lamp", 0) ∷ [] }

empty-IsValid : IsValid new_mem_provider
empty-IsValid = record { stored = λ id a e. cc }

get_session-resumed_example :
    let g = get_session (codes "x") none (connect false) false with_session in
    (g.session ≡ some 0)
    × (g.session_present ≡ true)
    × (g.error ≡ none)
    × (g.provider.st ≡ with_session.st)
    × (get_elem? g.provider.heap 0 ≡ some (record lamp_session { cmsg = some (connect false) }))
    × ((b : ℕ) → 0 ≢ b → get_elem? g.provider.heap b ≡ get_elem? with_session.heap b)
get_session-resumed_example =
    get_session-resumed (codes "x") none (connect false) false with_session 0 lamp_session refl refl
      refl refl

clean : (with_clean_session (connect true)).clean_session ≡ true
unfolding with_clean_session
clean = refl

get_session-Started_example :
    Started
      (codes "x")
      (with_clean_session (connect true))
      with_session
      (get_session (codes "x") none (connect true) false with_session)
get_session-Started_example =
    get_session-Started (codes "x") (connect true) false with_session (inl clean)

get_session-IsValid_example :
    IsValid (get_session (codes "x") none (connect false) false new_mem_provider).provider
get_session-IsValid_example =
    get_session-IsValid (codes "x") (connect false) false new_mem_provider empty-IsValid

lookup-add_remove_topic_example :
    ((add_topic (codes "c") 2 lamp_session).1 ≡ none)
    × (lookup (codes "c") (add_topic (codes "c") 2 lamp_session).0.topics
        ≡ (if codes "c" == codes "c" then some 2 else lookup (codes "c") lamp_session.topics))
    × ((remove_topic (codes "c") lamp_session).1 ≡ none)
    × (lookup (codes "c") (remove_topic (codes "c") lamp_session).0.topics
        ≡ (if codes "c" == codes "c" then none else lookup (codes "c") lamp_session.topics))
lookup-add_remove_topic_example =
    lookup-add_remove_topic lamp_session (codes "c") (codes "c") 2 refl
