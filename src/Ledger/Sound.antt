-- ===== src/Ledger/Sound.antt =====
-- The money of the ledger over the economic pass of Store::materialize_views (src/core/storage/store.cpp).
mod Amounts
mod Claims
mod Payments
pub use Amounts.{IsModest, IsSound, HasModestAmount, IsSound-empty, fee_fits, sum_small}
use got_soup.Prelude.{
  ℕ, ◌+◌, ◌^◌, ◌<◌, ◌≤◌, Bytes, Bool, true, false, not, ◌||◌, List, [], ◌∷◌, ◌≡◌, refl, arith, ◌==◌,
  bytes_eq, nat_eq, if◌then◌else◌, Bool-cases, Option-cases, inl, inr, text, All,
}
use got_soup.Prelude.Int.{
  ℤ, pos, negsuc, pos_part, ◌+ℤ◌, ◌-ℤ◌, ◌≤ℤ◌, int_laws, parts_apart, parts_eq, eq_of_parts, add64,
  sub64, add64_nonneg, sub64_nonneg, leb_ℤ, ltb_ℤ, eqb_ℤ, min_ℤ, IsInt64,
}
use got_soup.Prelude.Dict.{Dict, insert, emplace, has}
use got_soup.Model.{EventKind, block_reward_claimed, reward_transferred, EventEnvelope}
use got_soup.Canonical.{parse_canonical_map}
use got_soup.Ledger.{
  Context, Ledger, empty_ledger, Payload, expected_claim_reward_for_block,
  scheduled_reward_for_block, transfer_burn_fee, int_field, text_field, uint_field, reject,
  is_confirmed, pow_is_valid, has_witness, claim_witness, credit, debit, claim_block, apply_claim,
  transfer_witness, pay, expected_nonce, transfer_with_nonce, has_bad_target, apply_transfer,
  parse_post_value, is_post_kind, apply_post, settle_kind, settle_event, settle,
}
use got_soup.Ledger.Balances.{
  Balances, IsSolvent, sum, balance, balance-le-sum, sum_nonneg, credit-IsSolvent, sum-credit,
  debit-IsSolvent, sum-debit, emplace-IsSolvent, sum-emplace,
}
use got_soup.Ledger.Sound.Claims.{apply_claim-IsSound}
use got_soup.Ledger.Sound.Payments.{apply_transfer-IsSound, apply_post-IsSound}

module _ {c : Context} (modest : IsModest c) (e : EventEnvelope) (p : Payload) where
  settle_kind-IsSound :
      (k : EventKind) (l : Ledger)
      → pos_part (int_field (text "amount") p) ≤ 2 ^ 62
      → IsSound c l
      → IsSound c (settle_kind c k e p l)
  unfolding settle_kind
  settle_kind-IsSound block_reward_claimed l a h = apply_claim-IsSound modest e p l h
  settle_kind-IsSound reward_transferred l a h = apply_transfer-IsSound modest e p l a h
  settle_kind-IsSound k l a h = other (is_post_kind k)
    where
      other : (b : Bool) → IsSound c (if b then apply_post e (parse_post_value p) l else l)
      other true = apply_post-IsSound modest e p (parse_post_value p) l h
      other false = h

-- From a sound ledger, whatever the events claim, transfer or spend, as long as the supply is from
-- 0 to 2^62 and no transfer is of more than 2^62 units: no account is overdrawn, what was issued is
-- what is held and what was burned, and no more than the supply was issued.
pub settle-IsSound :
    (c : Context) (es : List EventEnvelope) (l : Ledger)
    → IsModest c
    → All HasModestAmount es
    → IsSound c l
    → IsSound c (settle c es l)
unfolding settle settle_event
settle-IsSound c [] l modest a h = h
settle-IsSound c (e ∷ es) l modest (a, rest) h =
    settle-IsSound c es (settle_event c e l) modest rest
      (settle_kind-IsSound modest e (parse_canonical_map e.payload) e.kind l a h)
