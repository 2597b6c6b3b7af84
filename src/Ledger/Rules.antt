-- ===== src/Ledger/Rules.antt =====
-- What the economic pass of Store::materialize_views computes with: its settings and state, the reward
-- schedule, the fee, the fields of a payload, and the proof-of-work test (src/core/storage/store.cpp,
-- src/core/util/hash.cpp).
use got_soup.Prelude.{
  ℕ, ◌-◌, ◌/◌, ◌%◌, ◌^◌, Bytes, Bool, true, false, ◌&&◌, List, [], ◌∷◌, ltb, ◌==◌, if◌then◌else◌,
  nat_eq, bytes_eq, Option, none, some, length,
}
use got_soup.Prelude.Int.{ℤ, pos, negsuc, leb_ℤ, sub64, max_ℤ, min_ℤ, pos_part}
use got_soup.Prelude.Dict.{Dict, lookup, get_or}
use got_soup.Prelude.Decimal.{read_signed, read_unsigned}
use got_soup.Model.{}
use got_soup.Chain.{Block}

-- What the pass reads: two functions of other libraries, the settings, and the timeline.
pub record Context : Type 0 where
  -- stable_hash, which libsodium computes where it is linked in
  pub hash : Bytes → Bytes
  -- `units * pow(1 - decay, exponent)` in long double arithmetic, cut down to an int64
  pub decayed : ℤ → ℕ → ℤ
  pub block_reward_units : ℤ
  pub max_token_supply_units : ℤ
  pub min_subsidy_units : ℤ
  pub pow_difficulty_nibbles : ℤ
  pub blocks : List Block
  pub confirmed_tip : Option ℕ

-- The members that the pass rebuilds. The source keeps `issued` twice, in a local and a member.
pub record Ledger : Type 0 where
  pub balances : Dict Bytes ℤ
  pub claimed : Dict ℕ Bytes
  pub nonces : Dict Bytes ℕ
  pub invalid : Dict Bytes Bytes
  pub issued : ℤ
  pub burned : ℤ

abbrev pub empty_ledger : Ledger
empty_ledger = record {
  balances = [];
  claimed = [];
  nonces = [];
  invalid = [];
  issued = pos 0;
  burned = pos 0;
}

unfoldable pub scheduled_reward_for_block : Context → ℕ → ℤ
scheduled_reward_for_block c index =
    if index == 0
    then pos 0
    else max_ℤ (max_ℤ (pos 1) c.min_subsidy_units) (c.decayed c.block_reward_units (index - 1))

unfoldable pub expected_claim_reward_for_block : Context → ℕ → ℤ → ℤ
unfolding scheduled_reward_for_block
expected_claim_reward_for_block c index issued_so_far =
    if leb_ℤ c.max_token_supply_units issued_so_far
    then pos 0
    else if leb_ℤ (scheduled_reward_for_block c index) (pos 0)
    then pos 0
    else min_ℤ (scheduled_reward_for_block c index) (sub64 c.max_token_supply_units issued_so_far)

-- `amount / 100` is only computed for a positive amount
unfoldable pub transfer_burn_fee : ℤ → ℤ
transfer_burn_fee amount =
    if leb_ℤ amount (pos 0) then pos 0 else max_ℤ (pos 1) (pos (pos_part amount / 100))

unfoldable pub parse_int64_or_zero : Bytes → ℤ
parse_int64_or_zero t = elim (read_signed (2 ^ 63) t) [ none ↦ pos 0 | some v ↦ v ]

unfoldable pub parse_uint64 : Bytes → Option ℕ
parse_uint64 t = read_unsigned (2 ^ 64) t

abbrev pub Payload : Type 0
Payload = Dict Bytes Bytes

-- `payload.contains(key) ? parse(payload.at(key)) : 0`
unfoldable pub int_field : Bytes → Payload → ℤ
unfolding parse_int64_or_zero
int_field key p = elim (lookup key p) [ none ↦ pos 0 | some t ↦ parse_int64_or_zero t ]

unfoldable pub uint_field : Bytes → Payload → Option ℕ
unfolding parse_uint64
uint_field key p = elim (lookup key p) [ none ↦ none | some t ↦ parse_uint64 t ]

-- `payload.contains(key) ? payload.at(key) : ""`
unfoldable pub text_field : Bytes → Payload → Bytes
text_field key p = get_or key p []

-- static_cast<int> of an int64: the low 32 bits, signed
unfoldable pub to_int32 : ℤ → ℤ
to_int32 v =
    let low : ℕ = elim v [ pos n ↦ n % 2 ^ 32 | negsuc n ↦ 2 ^ 32 - 1 - n % 2 ^ 32 ] in
    if ltb low (2 ^ 31) then pos low else negsuc (2 ^ 32 - low - 1)

-- the loop of `has_leading_zero_nibbles`, over the nibbles left
unfoldable pub leading_zeros : ℕ → Bytes → Bool
leading_zeros ℕ.zero h = true
leading_zeros (ℕ.suc n) [] = false
leading_zeros (ℕ.suc n) (c ∷ h) = c == b'0' && leading_zeros n h

-- src/core/util/hash.cpp
unfoldable pub has_leading_zero_nibbles : Bytes → ℤ → Bool
unfolding leading_zeros
has_leading_zero_nibbles h nibbles =
    if leb_ℤ nibbles (pos 0)
    then true
    else if ltb (length h) (pos_part nibbles)
    then false
    else leading_zeros (pos_part nibbles) h
