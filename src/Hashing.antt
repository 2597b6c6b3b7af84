-- ===== src/Hashing.antt =====
-- The hashes that chain the blocks, and the part of the backtest that recomputes them
-- (Store::recompute_block_hashes and Store::backtest_validate in src/core/storage/store.cpp).
pub mod Intact
use got_soup.Prelude.{
  ℕ, ◌+◌, Bytes, Bool, true, false, ◌&&◌, ◌||◌, not, List, [], ◌∷◌, ◌++◌, leb, ltb, ◌==◌, is_empty,
  if◌then◌else◌, nat_eq, bytes_eq, text, Option, none, some, length, map, contains,
}
use got_soup.Prelude.Int.{ℤ}
use got_soup.Prelude.Dict.{Dict, insert, lookup}
use got_soup.Prelude.Decimal.{print_ℤ, print_ℕ}
use got_soup.Model.{EventEnvelope}
use got_soup.Chain.{Block, rebuild_event_to_block_index}
use got_soup.Codec.{join_event_ids}
use got_soup.Merkle.{compute_merkle_root}
use got_soup.Timeline.{Settings, Timeline, genesis_text, block_event_bytes, find_event}

-- `event_payload_hash`: the last event of an id counts
unfoldable pub payload_hashes : Settings → List EventEnvelope → Dict Bytes Bytes → Dict Bytes Bytes
payload_hashes s [] d = d
payload_hashes s (e ∷ es) d = payload_hashes s es (insert e.event_id (s.hash e.payload) d)

-- `event_id + ":" + payload_hash`
unfoldable pub content_part : Dict Bytes Bytes → Bytes → Bytes
content_part hashes id =
    id ++ (b':' ∷ (elim (lookup id hashes) [ none ↦ text "missing" | some h ↦ h ]))

unfoldable pub merkle_of : Settings → Dict Bytes Bytes → List Bytes → Bytes
unfolding content_part
merkle_of s hashes ids =
    compute_merkle_root s.hash (map (λ id. s.hash (content_part hashes id)) ids)

unfoldable pub content_of : Settings → Dict Bytes Bytes → List Bytes → Bytes
unfolding content_part
content_of s hashes ids = s.hash (join_event_ids (map (content_part hashes) ids))

unfoldable pub flag : Bool → Bytes
flag true = text "1"
flag false = text "0"

-- `digest_input`
unfoldable pub digest_input : Block → Bytes → Bytes → Bytes → Bytes
unfolding flag
digest_input b prev merkle content =
    print_ℕ b.index
    ++ (b'|'
        ∷ (print_ℤ b.opened_unix
            ++ (b'|'
                ∷ (flag b.reserved
                    ++ (b'|'
                        ∷ (flag b.confirmed
                            ++ (b'|'
                                ∷ (flag b.backfilled
                                    ++ (b'|'
                                        ∷ (prev
                                            ++ (b'|'
                                                ∷ (merkle
                                                    ++ (b'|'
                                                        ∷ (content
                                                            ++ (b'|'
                                                            ∷ b.psz_timestamp)))))))))))))))

-- `block.index == 0 && block.event_ids.empty()` and a hash that is set
abbrev pub no_ids : List Bytes → Bool
no_ids [] = true
no_ids (_ ∷ _) = false

unfoldable pub or_hardcoded : Block → Bytes → Bytes → Bytes
or_hardcoded b hardcoded computed =
    if b.index == 0 && no_ids b.event_ids && not (is_empty hardcoded) then hardcoded else computed

-- `genesis_psz_timestamp_`, which the loop makes up at a genesis block that has none
unfoldable pub psz_after : Settings → Block → Bytes → Bytes
unfolding genesis_text
psz_after s b psz =
    if b.index == 0 && is_empty b.psz_timestamp && is_empty psz
    then genesis_text s.network_id b.opened_unix
    else psz

unfoldable pub stamped : Block → Bytes → Block
stamped b psz =
    if b.index == 0 && is_empty b.psz_timestamp then record b { psz_timestamp = psz } else b

-- the rest of the body of the loop, on the stamped block
unfoldable pub rehash : Settings → Dict Bytes Bytes → Bytes → Block → Block
unfolding merkle_of content_of digest_input or_hardcoded
rehash s hashes prev b =
    let merkle = merkle_of s hashes b.event_ids in
    let content = content_of s hashes b.event_ids in
    record b {
      prev_hash = prev;
      content_hash = content;
      merkle_root = or_hardcoded b s.hardcoded_genesis_merkle_root merkle;
      block_hash =
          or_hardcoded b s.hardcoded_genesis_block_hash
            (s.hash (digest_input b prev merkle content));
    }

-- the loop, which carries `prev_hash` and `genesis_psz_timestamp_`
unfoldable pub rehash_from :
    Settings → Dict Bytes Bytes → Bytes → Bytes → List Block → List Block × Bytes
unfolding psz_after stamped rehash
rehash_from s hashes prev psz [] = ([], psz)
rehash_from s hashes prev psz (b ∷ bs) =
    let psz' = psz_after s b psz in
    let b' = rehash s hashes prev (stamped b psz') in
    let (bs', last_psz) = rehash_from s hashes b'.block_hash psz' bs in (b' ∷ bs', last_psz)

unfoldable pub recompute_block_hashes : Settings → Timeline → Timeline
unfolding rehash_from payload_hashes
recompute_block_hashes s t =
    let (blocks, psz) =
      rehash_from s (payload_hashes s t.events []) (text "genesis") t.genesis_psz_timestamp
        t.blocks in
    record t {
      event_to_block = rebuild_event_to_block_index t.blocks;
      blocks = blocks;
      genesis_psz_timestamp = psz;
    }

-- `++issues`
abbrev pub issue_if : Bool → ℕ
issue_if true = 1
issue_if false = 0

-- what `backtest_validate` counts at a block for its stamp, its link and its hashes
unfoldable pub hash_issues : Settings → Dict Bytes Bytes → Bytes → Block → ℕ
unfolding merkle_of content_of digest_input or_hardcoded
hash_issues s hashes prev b =
    let merkle = merkle_of s hashes b.event_ids in
    let content = content_of s hashes b.event_ids in
    let block = s.hash (digest_input b b.prev_hash merkle content) in
    issue_if (b.index == 0 && is_empty b.psz_timestamp)
    + issue_if (not (b.prev_hash == prev))
    + issue_if (not (b.merkle_root == or_hardcoded b s.hardcoded_genesis_merkle_root merkle))
    + issue_if (not (b.content_hash == content))
    + issue_if (not (b.block_hash == or_hardcoded b s.hardcoded_genesis_block_hash block))

-- over all blocks; the first one's `prev_hash` must be "genesis"
unfoldable pub chain_issues : Settings → Dict Bytes Bytes → Bytes → List Block → ℕ
unfolding hash_issues
chain_issues s hashes prev [] = 0
chain_issues s hashes prev (b ∷ bs) =
    hash_issues s hashes prev b + chain_issues s hashes b.block_hash bs

-- what it counts at a block for the limits
unfoldable pub limit_issues : Settings → List EventEnvelope → Block → ℕ
unfolding block_event_bytes
limit_issues s events b =
    issue_if (ltb s.max_block_events (length b.event_ids))
    + issue_if (ltb s.max_block_bytes (block_event_bytes events b))

-- Store::has_event
unfoldable pub has_event : List EventEnvelope → Bytes → Bool
has_event [] id = false
has_event (e ∷ es) id = e.event_id == id || has_event es id

-- the loop over the ids of a block, with `block_event_ids`
unfoldable pub id_issues : List EventEnvelope → List Bytes → List Bytes → ℕ
unfolding has_event
id_issues events seen [] = 0
id_issues events seen (id ∷ ids) =
    issue_if (not (has_event events id))
    + issue_if (contains id seen)
    + id_issues events (id ∷ seen) ids

-- the loop over the events that no block has
unfoldable pub unassigned_issues : List Bytes → List EventEnvelope → ℕ
unassigned_issues seen [] = 0
unassigned_issues seen (e ∷ es) =
    issue_if (not (contains e.event_id seen)) + unassigned_issues seen es
