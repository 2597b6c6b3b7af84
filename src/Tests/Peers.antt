-- ===== src/Tests/Peers.antt =====
-- Examples of runs of the peer node.
use got_soup.Prelude.{[], ◌∷◌, ◌++◌, refl, ◌≡◌, ◌≤◌, ◌+◌, text, false}
use got_soup.PeerNode.{P2pNode, new_node, Start, start, stop, queue_local_event, sync_tick}
use got_soup.PeerNode.Published.{
  idle, next, started, queued, ticked, times_in, Run-passes_once, stop-loses,
}
use got_soup.Tests.Data.{alice, claim}

abbrev first_start : Start
first_start = record {
  seed_peers = alice ∷ [];
  endpoint_port = 0;
  local_cid = alice;
  alpha_test_mode = false;
  p2p_port = 0;
  network_name = [];
}

abbrev running_node : P2pNode
running_node = (start first_start new_node).1

abbrev after_tick : P2pNode
after_tick = (sync_tick (queue_local_event claim running_node)).1

Run-passes_once_example :
    times_in claim.event_id
        ((([] ++ []) ++ []) ++ (sync_tick (queue_local_event claim running_node)).0)
      + times_in claim.event_id after_tick.outbound_queue
    ≤ 1
Run-passes_once_example =
    Run-passes_once after_tick
      ((([] ++ []) ++ []) ++ (sync_tick (queue_local_event claim running_node)).0) claim.event_id
      (next (next (next idle (started first_start)) (queued claim)) ticked)

stop-loses_example :
    times_in claim.event_id ([] ++ (sync_tick (stop (queue_local_event claim running_node))).0) ≡ 0
unfolding start text
stop-loses_example =
    stop-loses claim running_node (sync_tick (stop (queue_local_event claim running_node))).1
      ([] ++ (sync_tick (stop (queue_local_event claim running_node))).0) refl refl
      (next idle ticked)
