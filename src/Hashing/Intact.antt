-- ===== src/Hashing/Intact.antt =====
-- The backtest's tests on blocks after Store::recompute_block_hashes (src/core/storage/store.cpp).
use got_soup.Prelude.{
  ℕ, ◌+◌, Bytes, true, false, ◌&&◌, not, List, [], ◌∷◌, ◌==◌, is_empty, nat_eq, bytes_eq, text, ◌≡◌,
  refl, arith,
}
use got_soup.Prelude.Int.{ℤ}
use got_soup.Prelude.Dict.{Dict}
use got_soup.Chain.{Block}
use got_soup.Timeline.{Settings, Timeline, genesis_text}
use got_soup.Hashing.{
  payload_hashes, merkle_of, content_of, digest_input, or_hardcoded, psz_after, stamped, rehash,
  rehash_from, recompute_block_hashes, issue_if, hash_issues, chain_issues,
}

same : (a : Bytes) → (a == a) ≡ true
same a = (bytes_eq.equals_iff a a).1 refl

genesis_text_filled : (n : Bytes) (now : ℤ) → is_empty (genesis_text n now) ≡ false
unfolding genesis_text text
genesis_text_filled n now = refl

stamped_filled :
    (s : Settings) (b : Block) (psz : Bytes)
    → ((stamped b (psz_after s b psz)).index == 0
        && is_empty (stamped b (psz_after s b psz)).psz_timestamp)
      ≡ false
unfolding stamped psz_after
stamped_filled s b psz = ground (arith, genesis_text_filled s.network_id b.opened_unix)

no_issue : (a b : Bytes) → a ≡ b → issue_if (not (a == b)) ≡ 0
no_issue a b e = rw (e, same b)

none_of_five : (a b c d e : ℕ) → a ≡ 0 → b ≡ 0 → c ≡ 0 → d ≡ 0 → e ≡ 0 → a + b + c + d + e ≡ 0
none_of_five a b c d e p q r s t = omega arith

hash_issues-rehash :
    (s : Settings) (hashes : Dict Bytes Bytes) (prev : Bytes) (b : Block)
    → (b.index == 0 && is_empty b.psz_timestamp) ≡ false
    → hash_issues s hashes prev (rehash s hashes prev b) ≡ 0
unfolding hash_issues rehash
hash_issues-rehash s hashes prev b h =
    let b' = rehash s hashes prev b in
    let merkle = merkle_of s hashes b'.event_ids in
    let content = content_of s hashes b'.event_ids in
    let block_hash = s.hash (digest_input b' b'.prev_hash merkle content) in
    none_of_five _ _ _ _ _ (rw h) (no_issue b'.prev_hash prev refl)
      (no_issue b'.merkle_root (or_hardcoded b' s.hardcoded_genesis_merkle_root merkle) refl)
      (no_issue b'.content_hash content refl)
      (no_issue b'.block_hash (or_hardcoded b' s.hardcoded_genesis_block_hash block_hash) refl)

chain_issues-rehash_from :
    (s : Settings) (hashes : Dict Bytes Bytes) (prev psz : Bytes) (bs : List Block)
    → chain_issues s hashes prev (rehash_from s hashes prev psz bs).0 ≡ 0
unfolding chain_issues rehash_from
chain_issues-rehash_from s hashes prev psz [] = refl
chain_issues-rehash_from s hashes prev psz (b ∷ bs) =
    let psz' = psz_after s b psz in
    let b' = rehash s hashes prev (stamped b psz') in
    let here : hash_issues s hashes prev b' ≡ 0 =
      hash_issues-rehash s hashes prev (stamped b psz') (stamped_filled s b psz) in
    rw here (omega (arith, chain_issues-rehash_from s hashes b'.block_hash psz' bs))

-- Whatever the timeline: once its hashes are recomputed, the backtest finds no block whose stamp, link
-- to the block before it, Merkle root, content hash or block hash is not as it should be.
pub chain_issues-recompute_block_hashes :
    (s : Settings) (t : Timeline)
    → let t' = recompute_block_hashes s t in
      chain_issues s (payload_hashes s t'.events []) (text "genesis") t'.blocks ≡ 0
unfolding recompute_block_hashes
chain_issues-recompute_block_hashes s t =
    chain_issues-rehash_from s (payload_hashes s t.events []) (text "genesis")
      t.genesis_psz_timestamp t.blocks
