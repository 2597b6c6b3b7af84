-- ===== src/PeerNode.antt =====
-- The peer node (src/core/p2p/node.hpp and node.cpp): its peers, the events it has seen, and its queue.
pub mod Published
use got_soup.Prelude.{
  ℕ, ◌+◌, ◌%◌, ◌^◌, Bytes, Bool, true, false, ◌&&◌, ◌||◌, not, List, [], ◌∷◌, ◌++◌, ◌==◌, is_empty,
  if◌then◌else◌, nat_eq, bytes_eq, text, contains, lt_bytes, length, map,
}
use got_soup.Prelude.Sort.{sort}
use got_soup.Model.{EventEnvelope, Outcome, success, failure}
use got_soup.Canonical.{trim_copy, finds}
use got_soup.Codec.{split_at, is_skipped}

pub record P2pNode : Type 0 where
  pub running : Bool
  pub alpha_test_mode : Bool
  pub network_name : Bytes
  pub p2p_port : ℕ
  pub local_cid : Bytes
  -- the host of the proxy is passed on and not looked at
  pub endpoint_port : ℕ
  pub peers : List Bytes
  pub seen_event_ids : List Bytes
  pub outbound_queue : List EventEnvelope
  pub sync_tick_count : ℕ

abbrev pub new_node : P2pNode
new_node = record {
  running = false;
  alpha_test_mode = false;
  network_name = text "mainnet";
  p2p_port = 0;
  local_cid = [];
  endpoint_port = 0;
  peers = [];
  seen_event_ids = [];
  outbound_queue = [];
  sync_tick_count = 0;
}

-- `erase(std::unique(...))`: an entry that is equal to the one before it goes
unfoldable pub drop_repeats : List Bytes → List Bytes
drop_repeats [] = []
drop_repeats (a ∷ []) = a ∷ []
drop_repeats (a ∷ b ∷ bs) = let rest = drop_repeats (b ∷ bs) in if a == b then rest else a ∷ rest

-- the two lines that every change of the peers ends with
unfoldable pub tidy_peers : List Bytes → List Bytes
unfolding drop_repeats
tidy_peers peers = drop_repeats (sort lt_bytes peers)

unfoldable pub named_peers : List Bytes → List Bytes
named_peers [] = []
named_peers (p ∷ ps) = let rest = named_peers ps in if is_empty p then rest else p ∷ rest

-- what a run is started with
pub record Start : Type 0 where
  pub seed_peers : List Bytes
  pub endpoint_port : ℕ
  pub local_cid : Bytes
  pub alpha_test_mode : Bool
  pub p2p_port : ℕ
  pub network_name : Bytes

unfoldable pub start : Start → P2pNode → Outcome × P2pNode
unfolding tidy_peers named_peers
start s n =
    if is_empty s.local_cid then (failure (text "P2P start failed: local CID is empty."), n) else (
      success (text "P2P node started with seed peers."),
      record n {
        running = true;
        alpha_test_mode = s.alpha_test_mode;
        network_name = if is_empty s.network_name then text "mainnet" else s.network_name;
        p2p_port =
            if s.p2p_port == 0 then (if s.alpha_test_mode then 14001 else 4001) else s.p2p_port;
        local_cid = s.local_cid;
        endpoint_port =
            if s.endpoint_port == 0
            then (if s.alpha_test_mode then 4444 else 9050)
            else s.endpoint_port;
        peers = tidy_peers (n.peers ++ named_peers s.seed_peers);
      },
    )

unfoldable pub stop : P2pNode → P2pNode
stop n = record n { running = false; outbound_queue = [] }

-- the entries of the file's lines; `is_comment_or_empty` is the test of the event log
unfoldable pub peer_lines : List Bytes → List Bytes
unfolding is_skipped
peer_lines [] = []
peer_lines (line ∷ lines) =
    let rest = peer_lines lines in
    if is_skipped (trim_copy line) then rest else trim_copy line ∷ rest

-- of the contents of a file that could be opened
unfoldable pub load_peers_dat : Bytes → P2pNode → Outcome × P2pNode
unfolding peer_lines split_at tidy_peers
load_peers_dat file n = (
  success (text "Loaded peers.dat entries."),
  record n { peers = tidy_peers (n.peers ++ peer_lines (split_at b'\n' file)) },
)

unfoldable pub peer_text : List Bytes → Bytes
peer_text [] = []
peer_text (p ∷ ps) = p ++ (b'\n' ∷ peer_text ps)

-- what `save_peers_dat` writes
unfoldable pub peers_dat : P2pNode → Bytes
unfolding peer_text
peers_dat n =
    text "# got-soup peers.dat"
    ++ (b'\n' ∷ (text "# one peer per line" ++ (b'\n' ∷ peer_text n.peers)))

unfoldable pub add_peer : Bytes → P2pNode → Outcome × P2pNode
unfolding tidy_peers finds
add_peer peer n =
    if is_empty (trim_copy peer)
    then (failure (text "Peer is empty."), n)
    else if not n.alpha_test_mode && finds (text "127.0.0.1") (trim_copy peer)
    then (failure (text "127.0.0.1 peers require Alpha Test Mode."), n)
    else (
      success (text "Peer added."),
      record n { peers = tidy_peers (n.peers ++ trim_copy peer ∷ []) },
    )

-- `!running_ || event.event_id.empty()`
abbrev pub is_ignored : EventEnvelope → P2pNode → Bool
is_ignored e n = not n.running || is_empty e.event_id

unfoldable pub queue_local_event : EventEnvelope → P2pNode → P2pNode
queue_local_event e n =
    if is_ignored e n then n else if contains e.event_id n.seen_event_ids then n else record n {
      seen_event_ids = e.event_id ∷ n.seen_event_ids;
      outbound_queue = n.outbound_queue ++ e ∷ [];
    }

-- whether the event is new
unfoldable pub ingest_remote_event : EventEnvelope → P2pNode → Bool × P2pNode
ingest_remote_event e n =
    if is_ignored e n
    then (false, n)
    else if contains e.event_id n.seen_event_ids
    then (false, n)
    else (true, record n { seen_event_ids = e.event_id ∷ n.seen_event_ids })

-- the events that are published
unfoldable pub sync_tick : P2pNode → List EventEnvelope × P2pNode
sync_tick n = if not n.running then ([], n) else (
  n.outbound_queue,
  record n { sync_tick_count = (n.sync_tick_count + 1) % 2 ^ 64; outbound_queue = [] },
)
