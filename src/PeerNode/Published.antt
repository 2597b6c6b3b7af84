-- ===== src/PeerNode/Published.antt =====
-- Runs of the peer node: what it publishes and takes in (src/core/p2p/node.cpp).
use got_soup.Prelude.{
  ℕ, ◌+◌, ◌≤◌, Bytes, Bool, true, false, List, [], ◌∷◌, ◌++◌, is_empty, if◌then◌else◌, bytes_eq,
  contains, count, map, ◌≡◌, refl, arith,
}
use got_soup.Model.{EventEnvelope}
use got_soup.PeerNode.{
  P2pNode, new_node, Start, start, stop, load_peers_dat, add_peer, queue_local_event,
  ingest_remote_event, sync_tick,
}

-- What leaves the node in one call, or enters it as new: the events that `sync_tick` publishes, and the event
-- that `ingest_remote_event` says is new.
abbrev pub accepted : Bool → EventEnvelope → List EventEnvelope
accepted true e = e ∷ []
accepted false e = []

-- One call of an operation of the node.
pub data Step (n : P2pNode) : List EventEnvelope → P2pNode → Type 0 where
  started : (s : Start) → Step n [] (start s n).1
  stopped : Step n [] (stop n)
  loaded : (file : Bytes) → Step n [] (load_peers_dat file n).1
  peer_added : (peer : Bytes) → Step n [] (add_peer peer n).1
  queued : (e : EventEnvelope) → Step n [] (queue_local_event e n)
  ingested :
      (e : EventEnvelope)
      → Step n (accepted (ingest_remote_event e n).0 e) (ingest_remote_event e n).1
  ticked : Step n (sync_tick n).0 (sync_tick n).1

-- Calls one after another, with all that was published or taken in as new.
pub data Run (n : P2pNode) : List EventEnvelope → P2pNode → Type 0 where
  idle : Run n [] n
  next :
      {m k : P2pNode} {passed more : List EventEnvelope}
      → Run n passed m
      → Step m more k
      → Run n (passed ++ more) k

abbrev id_of : EventEnvelope → Bytes
id_of e = e.event_id

-- how often an id stands in a list of events
abbrev pub times_in : Bytes → List EventEnvelope → ℕ
times_in i es = count i (map id_of es)

abbrev seen_once : Bytes → P2pNode → ℕ
seen_once i n = if contains i n.seen_event_ids then 1 else 0

-- An id that has passed or waits in the queue is in the set of seen ids.
abbrev IsCounted : List EventEnvelope → P2pNode → Type 0
IsCounted passed n = (i : Bytes) → times_in i passed + times_in i n.outbound_queue ≤ seen_once i n

times_in-append :
    (i : Bytes) (es fs : List EventEnvelope) → times_in i (es ++ fs) ≡ times_in i es + times_in i fs
times_in-append i [] fs = omega arith
times_in-append i (e ∷ es) fs = omega (arith, times_in-append i es fs)

Step-IsCounted :
    (n k : P2pNode) (passed more : List EventEnvelope)
    → IsCounted passed n
    → Step n more k
    → IsCounted (passed ++ more) k
Step-IsCounted n _ passed _ h (started s) i =
    unfold start in ground (arith, h i, times_in-append i passed [])
Step-IsCounted n _ passed _ h stopped i =
    unfold stop in ground (arith, h i, times_in-append i passed [])
Step-IsCounted n _ passed _ h (loaded file) i =
    unfold load_peers_dat in ground (arith, h i, times_in-append i passed [])
Step-IsCounted n _ passed _ h (peer_added peer) i =
    unfold add_peer in ground (arith, h i, times_in-append i passed [])
Step-IsCounted n _ passed _ h (queued e) i =
    unfold queue_local_event in
    ground (
      arith,
      h i,
      times_in-append i passed [],
      times_in-append i n.outbound_queue (e ∷ []),
      bytes_eq.equals_iff e.event_id i,
    )
Step-IsCounted n _ passed _ h (ingested e) i =
    unfold ingest_remote_event in
    ground (
      arith,
      h i,
      times_in-append i passed (accepted (ingest_remote_event e n).0 e),
      bytes_eq.equals_iff e.event_id i,
    )
Step-IsCounted n _ passed _ h ticked i =
    unfold sync_tick in ground (arith, h i, times_in-append i passed (sync_tick n).0)

Run-IsCounted :
    (n k : P2pNode) (passed : List EventEnvelope)
    → IsCounted [] n
    → Run n passed k
    → IsCounted passed k
Run-IsCounted n _ _ h idle = h
Run-IsCounted n k _ h (next {m = m} {passed = passed} {more = more} run step) =
    Step-IsCounted m k passed more (Run-IsCounted n m passed h run) step

-- Whatever calls are made of a new node, and in whatever order: an event id is published or taken in as new
-- at most once in all, and not while it waits in the queue.
pub Run-passes_once :
    (k : P2pNode) (passed : List EventEnvelope) (i : Bytes)
    → Run new_node passed k
    → times_in i passed + times_in i k.outbound_queue ≤ 1
Run-passes_once k passed i run =
    let all = Run-IsCounted new_node k passed (λ i. omega arith) run i in ground (arith, all)

Step-IsSeen :
    (i : Bytes) (n k : P2pNode) (more : List EventEnvelope)
    → contains i n.seen_event_ids ≡ true
    → Step n more k
    → contains i k.seen_event_ids ≡ true
Step-IsSeen i n _ _ h (started s) = unfold start in ground (arith, h)
Step-IsSeen i n _ _ h stopped = unfold stop in h
Step-IsSeen i n _ _ h (loaded file) = unfold load_peers_dat in h
Step-IsSeen i n _ _ h (peer_added peer) = unfold add_peer in ground (arith, h)
Step-IsSeen i n _ _ h (queued e) = unfold queue_local_event in ground (arith, h)
Step-IsSeen i n _ _ h (ingested e) = unfold ingest_remote_event in ground (arith, h)
Step-IsSeen i n _ _ h ticked = unfold sync_tick in ground (arith, h)

-- the set of seen ids only grows
pub Run-IsSeen :
    (i : Bytes) (n k : P2pNode) (passed : List EventEnvelope)
    → contains i n.seen_event_ids ≡ true
    → Run n passed k
    → contains i k.seen_event_ids ≡ true
Run-IsSeen i n _ _ h idle = h
Run-IsSeen i n k _ h (next {m = m} {passed = passed} {more = more} run step) =
    Step-IsSeen i m k more (Run-IsSeen i n m passed h run) step

-- The node has seen the id and does not hold its event.
abbrev pub IsGone : Bytes → P2pNode → Type 0
IsGone i n = (contains i n.seen_event_ids ≡ true) × (times_in i n.outbound_queue ≡ 0)

Step-IsGone :
    (i : Bytes) (n k : P2pNode) (more : List EventEnvelope)
    → IsGone i n
    → Step n more k
    → (times_in i more ≡ 0) × IsGone i k
Step-IsGone i n _ _ h (started s) = unfold start in ground (arith, h.0, h.1)
Step-IsGone i n _ _ h stopped = unfold stop in ground (arith, h.0, h.1)
Step-IsGone i n _ _ h (loaded file) = unfold load_peers_dat in ground (arith, h.0, h.1)
Step-IsGone i n _ _ h (peer_added peer) = unfold add_peer in ground (arith, h.0, h.1)
Step-IsGone i n _ _ h (queued e) =
    unfold queue_local_event in
    ground (
      arith,
      h.0,
      h.1,
      times_in-append i n.outbound_queue (e ∷ []),
      bytes_eq.equals_iff e.event_id i,
    )
Step-IsGone i n _ _ h (ingested e) =
    unfold ingest_remote_event in ground (arith, h.0, h.1, bytes_eq.equals_iff e.event_id i)
Step-IsGone i n _ _ h ticked = unfold sync_tick in ground (arith, h.0, h.1)

Run-IsGone :
    (i : Bytes) (n k : P2pNode) (passed : List EventEnvelope)
    → IsGone i n
    → Run n passed k
    → (times_in i passed ≡ 0) × IsGone i k
Run-IsGone i n _ _ h idle = (refl, h)
Run-IsGone i n k _ h (next {m = m} {passed = passed} {more = more} run step) =
    let (none_yet, gone) = Run-IsGone i n m passed h run in
    let (none_now, still) = Step-IsGone i m k more gone step in
    (omega (arith, none_yet, none_now, times_in-append i passed more), still)

-- An event that is queued on a running node and not published before `stop` is never published nor taken in
-- by that node, whatever calls follow: its id stays seen, and its event is gone.
pub stop-loses :
    (e : EventEnvelope) (n k : P2pNode) (passed : List EventEnvelope)
    → n.running ≡ true
    → is_empty e.event_id ≡ false
    → Run (stop (queue_local_event e n)) passed k
    → times_in e.event_id passed ≡ 0
stop-loses e n k passed running filled run =
    (Run-IsGone e.event_id (stop (queue_local_event e n)) k passed
      (unfold stop in
        unfold queue_local_event in ground (arith, bytes_eq.equals_iff e.event_id e.event_id))
      run).0
