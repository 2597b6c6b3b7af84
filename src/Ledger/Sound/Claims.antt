-- ===== src/Ledger/Sound/Claims.antt =====
-- The money of the ledger over claims of block rewards (src/core/storage/store.cpp).
use got_soup.Prelude.{
  ℕ, ◌+◌, ◌^◌, ◌<◌, ◌≤◌, Bytes, not, ◌≡◌, arith, bytes_eq, nat_eq, Option-cases, inl, inr, text,
}
use got_soup.Prelude.Int.{
  ℤ, pos, pos_part, ◌+ℤ◌, ◌≤ℤ◌, int_laws, parts_apart, parts_eq, add64, add64_nonneg,
}
use got_soup.Prelude.Dict.{insert, has}
use got_soup.Model.{EventEnvelope}
use got_soup.Ledger.{
  Context, Ledger, Payload, int_field, uint_field, reject, is_confirmed, pow_is_valid, has_witness,
  claim_witness, credit, claim_block, apply_claim,
}
use got_soup.Ledger.Balances.{sum, sum_nonneg, credit-IsSolvent, sum-credit}
use got_soup.Ledger.Sound.Amounts.{
  IsModest, IsSound, expected_room, branch, claim_amount, issued_nonneg,
}

module _ {c : Context} (modest : IsModest c) (e : EventEnvelope) (p : Payload) where
  pub reject-IsSound :
      (why : Bytes) (l : Ledger) → IsSound c l → IsSound c (reject e.event_id why l)
  reject-IsSound why l h = record {
    solvent = h.solvent;
    conserved = h.conserved;
    burned_nonneg = h.burned_nonneg;
    capped = h.capped;
  }

  claimed-IsSound :
      (index : ℕ) (reward : ℤ) (l : Ledger)
      → IsSound c l
      → pos 1 ≤ℤ reward
      → l.issued +ℤ reward ≤ℤ c.max_token_supply_units
      → IsSound c (record l {
        claimed = insert index e.author_cid l.claimed;
        balances = credit e.author_cid reward l.balances;
        issued = add64 l.issued reward;
      })
  claimed-IsSound index reward l h positive room =
      let nonneg : pos 0 ≤ℤ reward = omega arith in
      let small : (pos_part l.issued + pos_part reward ≤ 2 ^ 62)
          × (pos_part (sum l.balances) + pos_part reward ≤ 2 ^ 62) =
        (
          omega (
            int_laws,
            room,
            modest.0,
            modest.1,
            issued_nonneg modest l h,
            nonneg,
            parts_apart l.issued,
            parts_apart reward,
            parts_apart (l.issued +ℤ reward),
            parts_apart c.max_token_supply_units,
          ),
          omega (
            int_laws,
            room,
            modest.0,
            modest.1,
            issued_nonneg modest l h,
            nonneg,
            parts_apart l.issued,
            parts_apart reward,
            parts_apart (l.issued +ℤ reward),
            parts_apart c.max_token_supply_units,
            parts_eq h.conserved,
            h.burned_nonneg,
            sum_nonneg l.balances h.solvent,
            parts_apart (sum l.balances),
            parts_apart l.burned,
          ),
        ) in
      let room64 : pos_part (sum l.balances) + pos_part reward < 2 ^ 63 = omega arith in
      let issued : add64 l.issued reward ≡ l.issued +ℤ reward =
        add64_nonneg l.issued reward (issued_nonneg modest l h) nonneg (omega arith) in
      record {
        solvent = credit-IsSolvent e.author_cid reward l.balances h.solvent nonneg room64;
        conserved =
            rw (issued, sum-credit e.author_cid reward l.balances h.solvent nonneg room64)
              (omega (int_laws, parts_eq h.conserved));
        burned_nonneg = h.burned_nonneg;
        capped = rw issued room;
      }

  claim_block-IsSound :
      (index : ℕ) (l : Ledger) → IsSound c l → IsSound c (claim_block c e p index l)
  unfolding claim_block
  claim_block-IsSound index l h = branch (IsSound c) _ (reject-IsSound _ l h) λ r.
      branch (IsSound c) (not (is_confirmed c index)) (reject-IsSound _ l h) λ _.
        branch (IsSound c) (has index l.claimed) (reject-IsSound _ l h) λ _.
          branch (IsSound c) (not (pow_is_valid c p)) (reject-IsSound _ l h) λ _.
            branch (IsSound c)
              (not (has_witness (claim_witness c e index (int_field (text "reward") p) p) p))
              (reject-IsSound _ l h)
              λ _.
                let (positive, scheduled) = claim_amount _ _ r in
                claimed-IsSound index (int_field (text "reward") p) l h positive (
                  rw scheduled (
                    expected_room c index l.issued modest (issued_nonneg modest l h)
                      (rw scheduled at positive)))

  pub apply_claim-IsSound : (l : Ledger) → IsSound c l → IsSound c (apply_claim c e p l)
  unfolding apply_claim
  apply_claim-IsSound l h = elim (Option-cases (uint_field (text "block_index") p)) [
    | inl missing ↦ rw (missing, apply_claim) (reject-IsSound _ l h)
    | inr (index, found) ↦ rw (found, apply_claim) (claim_block-IsSound index l h)
  ]
