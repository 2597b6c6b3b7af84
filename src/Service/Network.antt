-- ===== src/Service/Network.antt =====
-- The connection of the service to the peer node (src/core/service/alpha_service.cpp). The two providers are there,
-- as after `init`.
use got_soup.Prelude.{
  ℕ, Bytes, Bool, false, ◌&&◌, ◌||◌, not, List, [], ◌∷◌, ◌++◌, ◌==◌, nat_eq, is_empty,
  if◌then◌else◌, text,
}
use got_soup.Prelude.Decimal.{print_ℕ}
use got_soup.Model.{Outcome, success, failure}
use got_soup.PeerNode.{start, stop}
use got_soup.Service.State.{
  Service, Env, AnonymityMode, tor, i2p, Endpoint, should_use_testnet, on_testnet,
}

unfoldable pub active_proxy_endpoint : Env → Service → Endpoint
active_proxy_endpoint env s =
    let preferred : Bool = elim s.active_mode [ i2p ↦ s.i2p_enabled | tor ↦ false ] in
    if preferred
    then env.proxy_endpoint i2p
    else if s.tor_enabled
    then env.proxy_endpoint tor
    else if s.i2p_enabled
    then env.proxy_endpoint i2p
    else record { host = []; port = 0 }

-- the two tests that move the active mode to a transport that is enabled
unfoldable pub enabled_mode : Service → AnonymityMode
enabled_mode s = elim s.active_mode [
  | tor ↦ if not s.tor_enabled && s.i2p_enabled then i2p else tor
  | i2p ↦ if not s.i2p_enabled && s.tor_enabled then tor else i2p
]

abbrev or_seeds : List Bytes → List Bytes → List Bytes
or_seeds [] other = other
or_seeds (p ∷ ps) other = p ∷ ps

abbrev p2p_port : Service → ℕ
p2p_port s = if on_testnet s then s.config.p2p_testnet_port else s.config.p2p_mainnet_port

unfoldable pub seeds_of : Service → List Bytes
unfolding should_use_testnet
seeds_of s =
    let seeds =
      or_seeds (if on_testnet s then s.config.seed_peers_testnet else s.config.seed_peers_mainnet)
        s.config.seed_peers in
    if s.alpha_test_mode then seeds ++ (text "127.0.0.1:" ++ print_ℕ (p2p_port s)) ∷ [] else seeds

-- from the endpoint on
unfoldable pub start_node : Endpoint → Service → Outcome × Service
unfolding seeds_of should_use_testnet
start_node endpoint s =
    let (started, node) =
      start
        (record {
          seed_peers = seeds_of s;
          endpoint_port = endpoint.port;
          local_cid = s.crypto.identity.cid;
          alpha_test_mode = s.alpha_test_mode;
          p2p_port = p2p_port s;
          network_name = if on_testnet s then text "testnet" else text "mainnet";
        })
        s.node in
    if is_empty endpoint.host || endpoint.port == 0
    then (failure (text "Unable to restart P2P node: no active proxy endpoint."), s)
    else (started, record s { node = node })

unfoldable pub restart_network : Env → Service → Outcome × Service
restart_network env s =
    let stopped = record s { node = stop s.node } in
    let moved = record stopped { active_mode = enabled_mode stopped } in
    if not s.tor_enabled && not s.i2p_enabled
    then (success (text "No active anonymity providers; P2P node remains offline."), stopped)
    else start_node (active_proxy_endpoint env moved) moved
