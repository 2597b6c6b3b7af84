-- ===== src/Ledger.antt =====
-- The economic pass of Store::materialize_views, with the reward schedule and the fee that it uses
-- (src/core/storage/store.cpp): claims of block rewards, transfers, and the value that posts burn.
mod Rules
pub mod Balances
pub mod Sound
pub mod Transfers
pub mod Replay
pub mod Fields
unfoldable pub use Rules.*
use got_soup.Prelude.{
  ℕ, ◌+◌, ◌-◌, ◌*◌, ◌/◌, ◌%◌, ◌^◌, Bytes, Bool, true, false, ◌&&◌, ◌||◌, not, List, [], ◌∷◌, ◌++◌,
  leb, ltb, ◌==◌, is_empty, if◌then◌else◌, nat_eq, bytes_eq, Option, none, some, text, length,
}
use got_soup.Prelude.Int.{
  ℤ, pos, negsuc, ◌+ℤ◌, ltb_ℤ, leb_ℤ, eqb_ℤ, add64, sub64, max_ℤ, min_ℤ, pos_part,
}
use got_soup.Prelude.Dict.{Dict, insert, lookup, has, get_or, emplace}
use got_soup.Prelude.Decimal.{read_signed, read_unsigned, print_ℤ, print_ℕ}
use got_soup.Model.{
  EventKind, recipe_created, thread_created, reply_created, review_added, thumbs_up_added,
  block_reward_claimed, reward_transferred, EventEnvelope,
}
use got_soup.Canonical.{parse_canonical_map}
use got_soup.Chain.{Block, find_block}

-- `invalid_economic_events_[event_id] = reason; continue;`
abbrev pub reject : Bytes → Bytes → Ledger → Ledger
reject id reason l = record l { invalid = insert id reason l.invalid }

-- the block is there and confirmed, at or below the confirmed tip
unfoldable pub is_confirmed : Context → ℕ → Bool
is_confirmed c index = elim (find_block index c.blocks) [
  | none ↦ false
  | some b ↦ b.confirmed && (elim c.confirmed_tip [ none ↦ false | some tip ↦ leb index tip ])
]

unfoldable pub claim_difficulty : Context → Payload → ℤ
unfolding parse_int64_or_zero to_int32
claim_difficulty c p = elim (lookup (text "pow_difficulty") p) [
  | none ↦ c.pow_difficulty_nibbles
  | some t ↦ to_int32 (parse_int64_or_zero t)
]

unfoldable pub pow_is_valid : Context → Payload → Bool
pow_is_valid c p =
    let pow_hash = text_field (text "pow_hash") p in
    not (is_empty pow_hash)
    && pow_hash
      == c.hash (text_field (text "pow_material") p ++ (b'|' ∷ text_field (text "pow_nonce") p))
    && has_leading_zero_nibbles pow_hash (claim_difficulty c p)

-- `payload.contains("witness_root") && payload.at("witness_root") == expected`
unfoldable pub has_witness : Bytes → Payload → Bool
has_witness expected p = elim (lookup (text "witness_root") p) [
  | none ↦ false
  | some w ↦ w == expected
]

unfoldable pub claim_witness : Context → EventEnvelope → ℕ → ℤ → Payload → Bytes
unfolding text_field
claim_witness c e index reward p = c.hash (
    e.author_cid
    ++ (b'|'
        ∷ (print_ℕ index ++ (b'|' ∷ (print_ℤ reward ++ (b'|' ∷ text_field (text "pow_hash") p))))))

-- `reward_balances_[cid] += amount`
unfoldable pub credit : Bytes → ℤ → Dict Bytes ℤ → Dict Bytes ℤ
credit cid amount balances = insert cid (add64 (get_or cid balances (pos 0)) amount) balances

-- `reward_balances_[cid] -= amount`
unfoldable pub debit : Bytes → ℤ → Dict Bytes ℤ → Dict Bytes ℤ
debit cid amount balances = insert cid (sub64 (get_or cid balances (pos 0)) amount) balances

-- from the parsed block index on
unfoldable pub claim_block : Context → EventEnvelope → Payload → ℕ → Ledger → Ledger
claim_block c e p index l =
    let reward = int_field (text "reward") p in
    if leb_ℤ reward (pos 0) || not (eqb_ℤ reward (expected_claim_reward_for_block c index l.issued))
    then reject e.event_id (text "Reward claim amount does not match deterministic schedule.") l
    else if not (is_confirmed c index)
    then reject e.event_id (text "Reward claim references an unconfirmed block.") l
    else if has index l.claimed
    then reject e.event_id (text "Duplicate reward claim for block.") l
    else if not (pow_is_valid c p)
    then reject e.event_id (text "Reward claim PoW is invalid.") l
    else if not (has_witness (claim_witness c e index reward p) p)
    then reject e.event_id (text "Reward claim witness is invalid.") l
    else record l {
      claimed = insert index e.author_cid l.claimed;
      balances = credit e.author_cid reward l.balances;
      issued = add64 l.issued reward;
    }

unfoldable pub apply_claim : Context → EventEnvelope → Payload → Ledger → Ledger
apply_claim c e p l = elim (uint_field (text "block_index") p) [
  | none ↦ reject e.event_id (text "Reward claim missing valid block_index.") l
  | some index ↦ claim_block c e p index l
]

unfoldable pub transfer_witness : Context → EventEnvelope → Bytes → ℤ → ℤ → ℕ → Bytes
transfer_witness c e to_cid amount fee nonce = c.hash (
    e.author_cid
    ++ (b'|'
        ∷ (to_cid
            ++ (b'|' ∷ (print_ℤ amount ++ (b'|' ∷ (print_ℤ fee ++ (b'|' ∷ print_ℕ nonce))))))))

-- the last test, after `reward_balances_[author]` has made an entry, and the payment
unfoldable pub pay : EventEnvelope → Bytes → ℤ → ℤ → ℕ → Ledger → Ledger
pay e to_cid amount fee nonce l =
    if ltb_ℤ (get_or e.author_cid l.balances (pos 0)) (add64 amount fee)
    then reject e.event_id (text "Reward transfer exceeds sender balance.")
        (record l { balances = emplace e.author_cid (pos 0) l.balances })
    else record l {
      balances = credit to_cid amount (debit e.author_cid (add64 amount fee) l.balances);
      burned = add64 l.burned fee;
      nonces = insert e.author_cid nonce l.nonces;
    }

-- `transfer_nonce_by_cid_[author] + 1U`, on uint64
unfoldable pub expected_nonce : EventEnvelope → Ledger → ℕ
expected_nonce e l = (get_or e.author_cid l.nonces 0 + 1) % 2 ^ 64

-- from the parsed nonce on; `operator[]` has made an entry for the author's nonce
unfoldable pub transfer_with_nonce : Context → EventEnvelope → Payload → ℕ → Ledger → Ledger
transfer_with_nonce c e p nonce l =
    let to_cid = text_field (text "to_cid") p in
    let amount = int_field (text "amount") p in
    let fee = int_field (text "fee") p in
    let touched = record l { nonces = emplace e.author_cid 0 l.nonces } in
    if not (nonce == expected_nonce e l)
    then reject e.event_id (text "Reward transfer nonce is invalid.") touched
    else if not (eqb_ℤ fee (transfer_burn_fee amount))
    then reject e.event_id (text "Reward transfer fee is invalid.") touched
    else if not (has_witness (transfer_witness c e to_cid amount fee nonce) p)
    then reject e.event_id (text "Reward transfer witness is invalid.") touched
    else pay e to_cid amount fee nonce touched

-- `to_cid.empty() || amount <= 0 || fee < 0`
unfoldable pub has_bad_target : Payload → Bool
unfolding int_field text_field
has_bad_target p =
    is_empty (text_field (text "to_cid") p)
    || leb_ℤ (int_field (text "amount") p) (pos 0)
    || ltb_ℤ (int_field (text "fee") p) (pos 0)

unfoldable pub apply_transfer : Context → EventEnvelope → Payload → Ledger → Ledger
apply_transfer c e p l = elim (uint_field (text "nonce") p) [
  | none ↦ reject e.event_id (text "Reward transfer has invalid target or amount.") l
  | some nonce ↦
      if has_bad_target p || nonce == 0
      then reject e.event_id (text "Reward transfer has invalid target or amount.") l
      else transfer_with_nonce c e p nonce l
]

-- `parse_post_value`
unfoldable pub parse_post_value : Payload → ℤ
unfolding int_field
parse_post_value p =
    if has (text "post_value") p
    then int_field (text "post_value") p
    else if has (text "value_units") p
    then int_field (text "value_units") p
    else int_field (text "value") p

unfoldable pub is_post_kind : EventKind → Bool
is_post_kind recipe_created = true
is_post_kind thread_created = true
is_post_kind reply_created = true
is_post_kind review_added = true
is_post_kind thumbs_up_added = true
is_post_kind _ = false

unfoldable pub apply_post : EventEnvelope → ℤ → Ledger → Ledger
apply_post e value l =
    if ltb_ℤ value (pos 0)
    then reject e.event_id (text "Post value cannot be negative.") l
    else if leb_ℤ value (pos 0)
    then l
    else if ltb_ℤ (get_or e.author_cid l.balances (pos 0)) value
    then reject e.event_id (text "Insufficient balance for post value spend.")
        (record l { balances = emplace e.author_cid (pos 0) l.balances })
    else record l { balances = debit e.author_cid value l.balances; burned = add64 l.burned value }

unfoldable pub settle_kind : Context → EventKind → EventEnvelope → Payload → Ledger → Ledger
settle_kind c block_reward_claimed e p l = apply_claim c e p l
settle_kind c reward_transferred e p l = apply_transfer c e p l
settle_kind c k e p l = if is_post_kind k then apply_post e (parse_post_value p) l else l

-- the body of the loop
unfoldable pub settle_event : Context → EventEnvelope → Ledger → Ledger
settle_event c e l = settle_kind c e.kind e (parse_canonical_map e.payload) l

-- the loop over `ordered_events`
unfoldable pub settle : Context → List EventEnvelope → Ledger → Ledger
settle c [] l = l
settle c (e ∷ es) l = settle c es (settle_event c e l)
