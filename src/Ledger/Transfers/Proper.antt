-- ===== src/Ledger/Transfers/Proper.antt =====
-- A transfer that passes the tests on its fields, and what a payment does to each balance
-- (src/core/storage/store.cpp).
use got_soup.Prelude.{
  ℕ, Bytes, true, false, ◌≡◌, ◌≢◌, some, arith, ◌==◌, bytes_eq, nat_eq, if◌then◌else◌, text,
  is_empty,
}
use got_soup.Prelude.Int.{ℤ, pos, ◌≤ℤ◌, add64, sub64, eqb_ℤ}
use got_soup.Prelude.Dict.{insert, emplace, lookup-insert, lookup-emplace}
use got_soup.Model.{EventEnvelope}
use got_soup.Ledger.{
  Context, Ledger, Payload, transfer_burn_fee, int_field, text_field, uint_field, has_witness,
  credit, debit, transfer_witness, pay, expected_nonce, transfer_with_nonce, has_bad_target,
  apply_transfer,
}
use got_soup.Ledger.Balances.{Balances, balance}

-- A transfer that passes every test but that of the balance.
pub record IsProper (c : Context) (e : EventEnvelope) (p : Payload) (l : Ledger) (nonce : ℕ)
    : Type 0 where
  pub nonce_read : uint_field (text "nonce") p ≡ some nonce
  pub nonce_next : nonce ≡ expected_nonce e l
  pub nonce_nonzero : nonce ≢ 0
  pub target : is_empty (text_field (text "to_cid") p) ≡ false
  pub positive : pos 1 ≤ℤ int_field (text "amount") p
  pub fee_due : int_field (text "fee") p ≡ transfer_burn_fee (int_field (text "amount") p)
  pub witnessed :
      has_witness
        (transfer_witness c e
          (text_field (text "to_cid") p)
          (int_field (text "amount") p)
          (int_field (text "fee") p)
          nonce)
        p
      ≡ true

abbrev pub touched : EventEnvelope → Ledger → Ledger
touched e l = record l { nonces = emplace e.author_cid 0 l.nonces }

pub fee_nonneg : (a : ℤ) → pos 0 ≤ℤ transfer_burn_fee a
unfolding transfer_burn_fee
fee_nonneg a = ground arith

eqb_ℤ_refl : (a : ℤ) → eqb_ℤ a a ≡ true
eqb_ℤ_refl a = ground arith

module _ {c : Context} {e : EventEnvelope} {p : Payload} {l : Ledger} {nonce : ℕ}
    (t : IsProper c e p l nonce) where
  target_good : has_bad_target p ≡ false
  unfolding has_bad_target
  target_good =
      rw (t.target, t.fee_due)
        (ground (arith, t.positive, fee_nonneg (int_field (text "amount") p)))

  nonce_good : (nonce == 0) ≡ false
  nonce_good = ground (arith, t.nonce_nonzero)

  nonce_same : (nonce == expected_nonce e l) ≡ true
  nonce_same = ground (arith, t.nonce_next)

  fee_same :
      eqb_ℤ (int_field (text "fee") p) (transfer_burn_fee (int_field (text "amount") p)) ≡ true
  fee_same = rw t.fee_due (eqb_ℤ_refl (transfer_burn_fee (int_field (text "amount") p)))

  pub apply_transfer-pay :
      apply_transfer c e p l
      ≡ pay e
          (text_field (text "to_cid") p)
          (int_field (text "amount") p)
          (int_field (text "fee") p)
          nonce
          (touched e l)
  unfolding apply_transfer transfer_with_nonce
  apply_transfer-pay =
      rw (t.nonce_read, apply_transfer, target_good, nonce_good, nonce_same, fee_same, t.witnessed)

balance-insert :
    (k j : Bytes) (v : ℤ) (d : Balances)
    → balance j (insert k v d) ≡ (if k == j then v else balance j d)
balance-insert k j v d = ground (arith, lookup-insert k j v d)

pub balance-emplace : (k j : Bytes) (d : Balances) → balance j (emplace k (pos 0) d) ≡ balance j d
balance-emplace k j d = ground (arith, lookup-emplace k j (pos 0) d, bytes_eq.equals_iff k j)

-- A payment between two accounts, with sums that fit.
module _ (from to : Bytes) (amount total : ℤ) (d : Balances) (other : from ≢ to) where
  pub balance_from :
      balance from (credit to amount (debit from total d)) ≡ sub64 (balance from d) total
  unfolding credit debit
  balance_from =
      simp balance-insert
        (ground (arith, bytes_eq.equals_iff from from, bytes_eq.equals_iff to from))

  pub balance_to : balance to (credit to amount (debit from total d)) ≡ add64 (balance to d) amount
  unfolding credit debit
  balance_to =
      simp balance-insert (ground (arith, bytes_eq.equals_iff to to, bytes_eq.equals_iff from to))

  pub balance_third :
      (k : Bytes)
      → k ≢ from
      → k ≢ to
      → balance k (credit to amount (debit from total d)) ≡ balance k d
  unfolding credit debit
  balance_third k a b =
      simp balance-insert (ground (arith, bytes_eq.equals_iff to k, bytes_eq.equals_iff from k))
