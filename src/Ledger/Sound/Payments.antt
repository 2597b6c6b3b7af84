-- ===== src/Ledger/Sound/Payments.antt =====
-- The money of the ledger over transfers and the value of posts (src/core/storage/store.cpp).
use got_soup.Prelude.{
  ℕ, ◌+◌, ◌^◌, ◌<◌, ◌≤◌, Bytes, not, ◌||◌, ◌≡◌, arith, ◌==◌, bytes_eq, nat_eq, Option-cases, inl,
  inr, text,
}
use got_soup.Prelude.Int.{
  ℤ, pos, pos_part, ◌+ℤ◌, ◌≤ℤ◌, int_laws, parts_apart, parts_eq, eq_of_parts, add64, add64_nonneg,
  leb_ℤ, ltb_ℤ, eqb_ℤ,
}
use got_soup.Prelude.Dict.{Dict, emplace}
use got_soup.Model.{EventEnvelope}
use got_soup.Ledger.{
  Context, Ledger, Payload, transfer_burn_fee, int_field, text_field, uint_field, has_witness,
  transfer_witness, pay, expected_nonce, transfer_with_nonce, has_bad_target, apply_transfer,
  apply_post,
}
use got_soup.Ledger.Balances.{
  sum, balance, balance-le-sum, sum_nonneg, debit-IsSolvent, sum-debit, emplace-IsSolvent,
  sum-emplace,
}
use got_soup.Ledger.Sound.Amounts.{IsModest, IsSound, branch, fee_fits, pay_sums, sum_small}
use got_soup.Ledger.Sound.Claims.{reject-IsSound}

module _ {c : Context} (modest : IsModest c) (e : EventEnvelope) (p : Payload) where
  with_nonces-IsSound :
      (ns : Dict Bytes ℕ) (l : Ledger) → IsSound c l → IsSound c (record l { nonces = ns })
  with_nonces-IsSound ns l h = record {
    solvent = h.solvent;
    conserved = h.conserved;
    burned_nonneg = h.burned_nonneg;
    capped = h.capped;
  }

  with_account-IsSound :
      (id : Bytes) (l : Ledger)
      → IsSound c l
      → IsSound c (record l { balances = emplace id (pos 0) l.balances })
  with_account-IsSound id l h = record {
    solvent = emplace-IsSolvent id l.balances h.solvent;
    conserved = rw sum-emplace h.conserved;
    burned_nonneg = h.burned_nonneg;
    capped = h.capped;
  }

  -- what is held and what was burned are together at most what was issued
  held_small : (l : Ledger) → IsSound c l → pos_part (sum l.balances) + pos_part l.burned ≤ 2 ^ 62
  held_small l h = omega (
    int_laws,
    parts_eq h.conserved,
    modest.0,
    modest.1,
    h.burned_nonneg,
    h.capped,
    sum_nonneg l.balances h.solvent,
    parts_apart l.burned,
    parts_apart (sum l.balances),
    parts_apart c.max_token_supply_units,
    parts_apart l.issued,
  )

  -- what is burned now is held before
  burn_value :
      (x : ℤ) (l : Ledger)
      → IsSound c l
      → pos 0 ≤ℤ x
      → x ≤ℤ sum l.balances
      → add64 l.burned x ≡ l.burned +ℤ x
  burn_value x l h nonneg held = add64_nonneg l.burned x h.burned_nonneg nonneg (
      omega (
        arith,
        held_small l h,
        sum_nonneg l.balances h.solvent,
        parts_apart x,
        parts_apart (sum l.balances),
      ))

  pay-IsSound :
      (to : Bytes) (amount fee : ℤ) (nonce : ℕ) (l : Ledger)
      → IsSound c l
      → pos 0 ≤ℤ amount
      → pos 0 ≤ℤ fee
      → add64 amount fee ≡ amount +ℤ fee
      → IsSound c (pay e to amount fee nonce l)
  unfolding pay
  pay-IsSound to amount fee nonce l h a f fits =
      branch (IsSound c) (ltb_ℤ (balance e.author_cid l.balances) (add64 amount fee))
        (reject-IsSound modest e p _
          (record l { balances = emplace e.author_cid (pos 0) l.balances })
          (with_account-IsSound e.author_cid l h))
        λ r.
          let covered : amount +ℤ fee ≤ℤ balance e.author_cid l.balances =
            ground (arith, rw fits at r) in
          let sums =
            pay_sums e.author_cid to amount fee l.balances h.solvent a f (sum_small modest l h)
              covered in
          let burnt : add64 l.burned fee ≡ l.burned +ℤ fee =
            burn_value fee l h f
              (omega (int_laws, covered, balance-le-sum e.author_cid l.balances h.solvent)) in
          record {
            solvent = rw fits sums.0;
            conserved = rw (fits, burnt) (omega (int_laws, parts_eq sums.1, parts_eq h.conserved));
            burned_nonneg = rw burnt (omega (int_laws, h.burned_nonneg));
            capped = h.capped;
          }

  transfer_with_nonce-IsSound :
      (nonce : ℕ) (l : Ledger)
      → IsSound c l
      → pos 1 ≤ℤ int_field (text "amount") p
      → pos_part (int_field (text "amount") p) ≤ 2 ^ 62
      → IsSound c (transfer_with_nonce c e p nonce l)
  unfolding transfer_with_nonce
  transfer_with_nonce-IsSound nonce l h positive modest_amount =
      let to_cid = text_field (text "to_cid") p in
      let amount = int_field (text "amount") p in
      let fee = int_field (text "fee") p in
      let touched = record l { nonces = emplace e.author_cid 0 l.nonces } in
      let t = with_nonces-IsSound (emplace e.author_cid 0 l.nonces) l h in
      branch (IsSound c) (not (nonce == expected_nonce e l)) (reject-IsSound modest e p _ touched t)
        λ _.
          branch (IsSound c) (not (eqb_ℤ fee (transfer_burn_fee amount)))
            (reject-IsSound modest e p _ touched t)
            λ r.
              branch (IsSound c)
                (not (has_witness (transfer_witness c e to_cid amount fee nonce) p))
                (reject-IsSound modest e p _ touched t)
                λ _.
                  let scheduled : fee ≡ transfer_burn_fee amount =
                    eq_of_parts fee (transfer_burn_fee amount) (ground arith) in
                  let (nonneg, fits) = fee_fits amount positive modest_amount in
                  pay-IsSound to_cid amount fee nonce touched t (omega arith) (rw scheduled nonneg)
                    (rw scheduled fits)

  pub apply_transfer-IsSound :
      (l : Ledger)
      → pos_part (int_field (text "amount") p) ≤ 2 ^ 62
      → IsSound c l
      → IsSound c (apply_transfer c e p l)
  unfolding apply_transfer
  apply_transfer-IsSound l modest_amount h = elim (Option-cases (uint_field (text "nonce") p)) [
    | inl missing ↦ rw (missing, apply_transfer) (reject-IsSound modest e p _ l h)
    | inr (nonce, found) ↦
        rw (found, apply_transfer)
          (branch (IsSound c) (has_bad_target p || nonce == 0) (reject-IsSound modest e p _ l h)
            λ r.
              transfer_with_nonce-IsSound nonce l h (unfold has_bad_target in ground arith)
                modest_amount)
  ]

  pub apply_post-IsSound : (value : ℤ) (l : Ledger) → IsSound c l → IsSound c (apply_post e value l)
  unfolding apply_post
  apply_post-IsSound value l h =
      branch (IsSound c) (ltb_ℤ value (pos 0)) (reject-IsSound modest e p _ l h) λ nonneg.
        branch (IsSound c) (leb_ℤ value (pos 0)) h λ _.
          branch (IsSound c) (ltb_ℤ (balance e.author_cid l.balances) value)
            (reject-IsSound modest e p _
              (record l { balances = emplace e.author_cid (pos 0) l.balances })
              (with_account-IsSound e.author_cid l h))
            λ r.
              let v : pos 0 ≤ℤ value = ground arith in
              let covered : value ≤ℤ balance e.author_cid l.balances = ground arith in
              let room : pos_part (sum l.balances) < 2 ^ 63 = omega (arith, sum_small modest l h) in
              let burnt : add64 l.burned value ≡ l.burned +ℤ value =
                burn_value value l h v
                  (omega (int_laws, covered, balance-le-sum e.author_cid l.balances h.solvent)) in
              record {
                solvent = debit-IsSolvent e.author_cid value l.balances h.solvent v covered room;
                conserved =
                    rw (burnt, sum-debit e.author_cid value l.balances h.solvent v covered room)
                      (omega (int_laws, parts_eq h.conserved));
                burned_nonneg = rw burnt (omega (int_laws, h.burned_nonneg));
                capped = h.capped;
              }
