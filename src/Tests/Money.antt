-- ===== src/Tests/Money.antt =====
-- Examples of the economic pass.
use got_soup.Prelude.{false, true, [], ◌∷◌, refl, ◌≡◌, text, arith, nat_eq, bytes_eq, ◌≢◌}
use got_soup.Prelude.Int.{pos, wrap64, add64, sub64, ◌+ℤ◌, ◌≤ℤ◌}
use got_soup.Prelude.Dict.{insert, lookup, emplace}
use got_soup.Ledger.{
  Ledger, empty_ledger, settle, settle_event, settle_kind, apply_transfer, apply_claim, int_field,
  uint_field, text_field, claim_block, parse_uint64, expected_claim_reward_for_block,
  scheduled_reward_for_block, is_confirmed, pow_is_valid, has_leading_zero_nibbles, leading_zeros,
  claim_difficulty, has_witness, claim_witness, credit, debit, transfer_with_nonce, has_bad_target,
  expected_nonce, transfer_burn_fee, transfer_witness, pay, apply_post, parse_post_value,
  is_post_kind, parse_int64_or_zero,
}
use got_soup.Chain.{find_block}
use got_soup.Canonical.{
  parse_canonical_map, canonical_join, write_fields, write_field, escape, escape_byte,
}
use got_soup.Prelude.Sort.{sort, insert_sorted}
use got_soup.Prelude.Decimal.{read_unsigned, read_signed, digits_value, print_ℕ, print_ℤ}
use got_soup.Ledger.Sound.{IsSound, IsSound-empty, settle-IsSound}
use got_soup.Ledger.Transfers.{
  apply_transfer-HasMoved, apply_transfer-IsRefused, HasMoved, IsRefused,
}
use got_soup.Ledger.Transfers.Proper.{IsProper}
use got_soup.Ledger.Transfers.Overflow.{transfer_overflow}
use got_soup.Ledger.Replay.{NoncesFit, claim_once, transfer_once, PaysNothing}
use got_soup.Tests.Data.{
  alice, bob, context, claim, transfer, post, huge_transfer, huge_fields, transfer_fields,
  claim_fields,
}
use got_soup.Ledger.Balances.{balance}

-- The reward of 50 less a payment of 10 with its fee of 1 and a post of 5.
settled :
    (settle context (claim ∷ transfer ∷ post ∷ []) empty_ledger).balances
    ≡ (alice, pos 34) ∷ (bob, pos 10) ∷ []
unfolding settle settle_event settle_kind parse_canonical_map canonical_join write_fields
    write_field escape escape_byte sort insert_sorted text apply_claim claim_block uint_field
    int_field text_field parse_uint64 read_unsigned digits_value expected_claim_reward_for_block
    scheduled_reward_for_block is_confirmed find_block pow_is_valid has_leading_zero_nibbles
    leading_zeros claim_difficulty has_witness claim_witness print_ℕ print_ℤ credit debit
    apply_transfer transfer_with_nonce has_bad_target expected_nonce transfer_burn_fee
    transfer_witness pay apply_post parse_post_value is_post_kind add64 sub64 parse_int64_or_zero
    read_signed wrap64 lookup emplace insert
settled = refl

settle-IsSound_example :
    IsSound context (settle context (claim ∷ transfer ∷ post ∷ []) empty_ledger)
unfolding parse_canonical_map canonical_join write_fields write_field escape escape_byte sort
    insert_sorted text int_field parse_int64_or_zero read_signed read_unsigned digits_value lookup
    emplace insert
settle-IsSound_example =
    settle-IsSound context (claim ∷ transfer ∷ post ∷ []) empty_ledger (omega arith, omega arith)
      (omega arith, (omega arith, (omega arith, tt)))
      (IsSound-empty context (omega arith, omega arith))

not_bob : alice ≢ bob
not_bob e = let same : false ≡ true = (bytes_eq.equals_iff alice bob).1 e in cc same

abbrev funded : Ledger
funded = record {
  balances = (alice, pos 50) ∷ [];
  claimed = (1, alice) ∷ [];
  nonces = [];
  invalid = [];
  issued = pos 50;
  burned = pos 0;
}

funded-IsSound : IsSound context funded
unfolding ◌+ℤ◌
funded-IsSound = record {
  solvent = (omega arith, unfold lookup in refl, tt);
  conserved = refl;
  burned_nonneg = omega arith;
  capped = omega arith;
}

IsProper-transfer : IsProper context transfer transfer_fields funded 1
unfolding text uint_field int_field text_field parse_uint64 read_unsigned digits_value lookup
    expected_nonce transfer_burn_fee parse_int64_or_zero read_signed has_witness transfer_witness
    print_ℕ print_ℤ
IsProper-transfer = record {
  nonce_read = refl;
  nonce_next = refl;
  nonce_nonzero = omega arith;
  target = refl;
  positive = omega arith;
  fee_due = refl;
  witnessed = refl;
}

apply_transfer-HasMoved_example :
    HasMoved transfer
      (text_field (text "to_cid") transfer_fields)
      (int_field (text "amount") transfer_fields)
      (int_field (text "fee") transfer_fields)
      1
      funded
      (apply_transfer context transfer transfer_fields funded)
unfolding text int_field text_field parse_int64_or_zero read_signed read_unsigned digits_value
    lookup transfer_burn_fee ◌+ℤ◌
apply_transfer-HasMoved_example =
    apply_transfer-HasMoved context transfer transfer_fields funded 1 (omega arith, omega arith)
      funded-IsSound IsProper-transfer not_bob (omega arith) (omega arith)

IsProper-unfunded : IsProper context transfer transfer_fields empty_ledger 1
unfolding text uint_field int_field text_field parse_uint64 read_unsigned digits_value lookup
    expected_nonce transfer_burn_fee parse_int64_or_zero read_signed has_witness transfer_witness
    print_ℕ print_ℤ
IsProper-unfunded = record {
  nonce_read = refl;
  nonce_next = refl;
  nonce_nonzero = omega arith;
  target = refl;
  positive = omega arith;
  fee_due = refl;
  witnessed = refl;
}

uncovered : ¬ (pos 10 +ℤ pos 1 ≤ℤ pos 0)
unfolding ◌+ℤ◌
uncovered h = omega arith

apply_transfer-IsRefused_example :
    IsRefused transfer
      (text "Reward transfer exceeds sender balance.")
      empty_ledger
      (apply_transfer context transfer transfer_fields empty_ledger)
unfolding text int_field text_field parse_int64_or_zero read_signed read_unsigned digits_value
    lookup transfer_burn_fee ◌+ℤ◌
apply_transfer-IsRefused_example =
    apply_transfer-IsRefused context transfer transfer_fields empty_ledger 1 IsProper-unfunded
      (omega arith) uncovered

huge-IsProper : IsProper context huge_transfer huge_fields empty_ledger 1
unfolding text uint_field int_field text_field parse_uint64 read_unsigned digits_value lookup
    expected_nonce transfer_burn_fee parse_int64_or_zero read_signed has_witness transfer_witness
    print_ℕ print_ℤ
huge-IsProper = record {
  nonce_read = refl;
  nonce_next = refl;
  nonce_nonzero = omega arith;
  target = refl;
  positive = omega arith;
  fee_due = refl;
  witnessed = refl;
}

transfer_overflow_example :
    ((apply_transfer context huge_transfer huge_fields empty_ledger).invalid ≡ [])
    × (balance
          (text_field (text "to_cid") huge_fields)
          (apply_transfer context huge_transfer huge_fields empty_ledger).balances
        ≡ int_field (text "amount") huge_fields)
unfolding text int_field text_field parse_int64_or_zero read_signed read_unsigned digits_value
    lookup transfer_burn_fee ◌+ℤ◌
transfer_overflow_example =
    transfer_overflow context huge_transfer huge_fields empty_ledger 1 huge-IsProper not_bob
      (omega arith) (omega arith) (omega arith) refl

funded-NoncesFit : NoncesFit funded
unfolding lookup
funded-NoncesFit = record { at_key = λ k. omega arith }

claim_once_example :
    PaysNothing
      (settle context (transfer ∷ []) funded)
      (apply_claim context claim claim_fields (settle context (transfer ∷ []) funded))
unfolding text uint_field parse_uint64 read_unsigned digits_value lookup
claim_once_example =
    claim_once context (transfer ∷ []) funded claim claim_fields 1 alice funded-NoncesFit refl refl

abbrev spent : Ledger
spent = record funded { nonces = (alice, 1) ∷ [] }

spent-NoncesFit : NoncesFit spent
unfolding lookup
spent-NoncesFit = record { at_key = λ k. ground arith }

transfer_once_example :
    PaysNothing
      (settle context (post ∷ []) spent)
      (apply_transfer context transfer transfer_fields (settle context (post ∷ []) spent))
unfolding text uint_field parse_uint64 read_unsigned digits_value lookup
transfer_once_example =
    transfer_once context (post ∷ []) spent transfer transfer_fields 1 spent-NoncesFit refl refl
