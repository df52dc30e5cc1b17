-- ===== src/Sessions/GetSession/Valid.antt =====
-- broker/sesson.go: the sessions in the store, before and after a client connects.
use hmq.Prelude.{
  ℕ, ◌≡◌, sym, ap, subst, ◌∙◌, inl, inr, Bool, none, some, Bytes, length, is_empty, if◌then◌else◌,
  ◌==◌, bytes_eq, nat_eq, Bool-cases, Option-cases, beq_cases, some_inj,
}
use hmq.Prelude.Assoc.{lookup, lookup-insert}
use hmq.Prelude.Heap.{get_elem?, modify, get_elem?-modify_self, get_elem?-modify_ne}
use hmq.Packets.{ConnectPacket}
use hmq.Sessions.Session.{update}
use hmq.Sessions.MemProvider.{MemProvider}
use hmq.Sessions.GetSession.{Got, with_clean_session, starting, get_session}
use hmq.Sessions.GetSession.Laws.{
  IsValid, Started, get_session-Started, or_create-resumed, client_identifier-with_clean_session,
}

Started-IsValid :
    (sid : Bytes) (req : ConnectPacket) (p : MemProvider) (g : Got)
    → IsValid p
    → Started sid req p g
    → IsValid g.provider
Started-IsValid sid req p g v w = record {
  stored = λ id a e.
      let key = if is_empty req.client_identifier then sid else req.client_identifier in
      let e' =
        sym (lookup-insert key id (length p.heap) p.st)
        ∙ subst (λ st. lookup id st ≡ some a) w.stored e in
      elim (Bool-cases (key == id)) [
        | inl b ↦
            let (s, there, initted, _, _) = w.made in
            (
              s,
              subst (λ a. get_elem? g.provider.heap a ≡ some s) (some_inj (rw b at e')) there,
              initted,
            )
        | inr b ↦
            let (s, there, initted) = v.stored id a (rw b at e') in (s, w.kept a s there, initted)
      ];
}

modify-IsValid :
    (p : MemProvider) (req : ConnectPacket) (a : ℕ)
    → IsValid p
    → IsValid (record p { heap = modify a (update req) p.heap })
unfolding update
modify-IsValid p req a v = record {
  stored = λ id b e.
      let (s, there, initted) = v.stored id b e in
      elim (beq_cases a b) [
        | inl (_, q) ↦ (
          update req s,
          subst (λ c. get_elem? (modify a (update req) p.heap) c ≡ some (update req s)) q
              (get_elem?-modify_self p.heap (update req) s a
                (subst (λ c. get_elem? p.heap c ≡ some s) (sym q) there)),
          initted,
        )
        | inr (_, ne) ↦ (s, get_elem?-modify_ne p.heap (update req) a b ne ∙ there, initted)
      ];
}

-- If the store holds initialised sessions only, it does so after getSession for a client that has
-- no session yet.
pub get_session-IsValid :
    (sid : Bytes) (req : ConnectPacket) (present : Bool) (p : MemProvider)
    → IsValid p
    → IsValid (get_session sid none req present p).provider
unfolding get_session starting
get_session-IsValid sid req present p v =
    let req' = with_clean_session req in
    elim (Bool-cases req'.clean_session) [
      | inl clean ↦
          Started-IsValid sid req' p _ v (get_session-Started sid req present p (inl clean))
      | inr dirty ↦ elim (Option-cases (lookup req.client_identifier p.st)) [
        | inl absent ↦
            Started-IsValid sid req' p _ v (get_session-Started sid req present p (inr absent))
        | inr (a, found) ↦
            subst (λ g. IsValid g.provider)
              (sym (
                or_create-resumed sid (starting none req present p) a dirty
                  (ap (λ k. lookup k p.st) (client_identifier-with_clean_session req) ∙ found)))
              (modify-IsValid p req' a v)
      ]
    ]
