-- ===== src/Service/Ingested.antt =====
-- What a remote event leaves behind that the service refuses (src/core/service/alpha_service.cpp,
-- src/core/p2p/node.cpp).
use got_soup.Prelude.{
  true, false, [], ◌∷◌, List, subst, is_empty, bytes_eq, text, ◌≡◌, refl, arith, contains,
}
use got_soup.Model.{EventEnvelope, success}
use got_soup.PeerNode.{P2pNode, ingest_remote_event}
use got_soup.PeerNode.Published.{Run, Run-IsSeen}
use got_soup.Service.State.{Service, Env}
use got_soup.Service.Claims.{ingest_remote}

first_taken :
    (e : EventEnvelope) (n : P2pNode)
    → n.running ≡ true
    → is_empty e.event_id ≡ false
    → contains e.event_id n.seen_event_ids ≡ false
    → ingest_remote_event e n ≡ (true, record n { seen_event_ids = e.event_id ∷ n.seen_event_ids })
unfolding ingest_remote_event
first_taken e n running named new = rw (running, named, new) refl

seen_ignored :
    (e : EventEnvelope) (n : P2pNode)
    → contains e.event_id n.seen_event_ids ≡ true
    → ingest_remote_event e n ≡ (false, n)
unfolding ingest_remote_event
seen_ignored e n seen = ground arith

node_left :
    (env : Env) (forged : EventEnvelope) (s : Service) (n : P2pNode)
    → ingest_remote_event forged s.node ≡ (true, n)
    → forged.signature ≡ []
    → (ingest_remote env forged s).1.node ≡ n
unfolding ingest_remote
node_left env forged s n taken unsigned = rw (taken, unsigned) refl

-- A running node gets an event with an id that it has not seen and without a signature: the call
-- fails. After whatever further calls of the same node, an event that has this id is ignored,
-- whatever else it holds: the call changes no part of the service, the store included, and
-- succeeds. (A new node takes the event again: the program makes one in `use_community_profile`.)
pub ingest_remote-suppresses :
    (env env' : Env) (e forged : EventEnvelope) (s t : Service) {passed : List EventEnvelope}
    → s.node.running ≡ true
    → forged.event_id ≡ e.event_id
    → is_empty e.event_id ≡ false
    → contains e.event_id s.node.seen_event_ids ≡ false
    → forged.signature ≡ []
    → Run (ingest_remote env forged s).1.node passed t.node
    → ((ingest_remote env forged s).0.ok ≡ false)
      × (ingest_remote env' e t ≡ (success (text "Duplicate or ignored remote event."), t))
unfolding ingest_remote
ingest_remote-suppresses env env' e forged s t {passed} running same named new unsigned run =
    let taken = first_taken forged s.node running (rw same named) (rw same new) in
    let after = record s.node { seen_event_ids = forged.event_id ∷ s.node.seen_event_ids } in
    let still =
      Run-IsSeen e.event_id after t.node passed
        (ground (arith, bytes_eq.equals_iff forged.event_id e.event_id))
        (subst (λ (n : P2pNode). Run n passed t.node) (node_left env forged s after taken unsigned)
          run) in
    rw (taken, unsigned, seen_ignored e t.node still) (refl, refl)
