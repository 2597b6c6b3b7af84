-- ===== src/Ledger/Transfers/Overflow.antt =====
-- What an int64 overflow makes of a transfer (src/core/storage/store.cpp).
use got_soup.Prelude.{ℕ, ◌+◌, ◌^◌, ◌≤◌, false, ◌≡◌, ◌≢◌, refl, ◌∙◌, arith, bytes_eq, nat_eq, text}
use got_soup.Prelude.Int.{ℤ, pos, negsuc, pos_part, ◌≤ℤ◌, add64, IsInt64, ltb_ℤ}
use got_soup.Model.{EventEnvelope}
use got_soup.Ledger.{
  Context, Ledger, Payload, transfer_burn_fee, int_field, text_field, pay, apply_transfer,
}
use got_soup.Ledger.Balances.{balance}
use got_soup.Ledger.Transfers.Proper.{IsProper, fee_nonneg, balance_to, apply_transfer-pay}

wrapped_negative :
    (a f b : ℤ)
    → IsInt64 a
    → pos 1 ≤ℤ a
    → pos 0 ≤ℤ f
    → pos_part f ≤ pos_part a
    → 2 ^ 63 ≤ pos_part a + pos_part f
    → pos 0 ≤ℤ b
    → ltb_ℤ b (add64 a f) ≡ false
unfolding add64
wrapped_negative (negsuc n) f b ia pa pf le over nb = absurd (omega arith)
wrapped_negative a (negsuc n) b ia pa pf le over nb = absurd (omega arith)
wrapped_negative a f (negsuc n) ia pa pf le over nb = absurd (omega arith)
wrapped_negative (pos a) (pos f) (pos b) ia pa pf le over nb = ground arith

fee_below : (a : ℤ) → pos 1 ≤ℤ a → pos_part (transfer_burn_fee a) ≤ pos_part a
unfolding transfer_burn_fee
fee_below a h = ground arith

add64_zero : (a : ℤ) → IsInt64 a → add64 (pos 0) a ≡ a
unfolding add64
add64_zero (pos n) h = ground arith
add64_zero (negsuc n) h = ground arith

-- A transfer from one account to another one, whose amount is an int64 and whose amount and fee have no
-- int64 sum, and which passes the tests on its fields, its nonce, its fee and its witness, is paid however
-- little a sender holds that is not overdrawn, when the receiver's balance is 0: it is not recorded as
-- invalid, and the receiver has the whole amount afterwards. (On a machine where the sum wraps around; in
-- C++ it is undefined.)
pub transfer_overflow :
    (c : Context) (e : EventEnvelope) (p : Payload) (l : Ledger) (nonce : ℕ)
    → IsProper c e p l nonce
    → e.author_cid ≢ text_field (text "to_cid") p
    → IsInt64 (int_field (text "amount") p)
    → 2 ^ 63 ≤ pos_part (int_field (text "amount") p) + pos_part (int_field (text "fee") p)
    → pos 0 ≤ℤ balance e.author_cid l.balances
    → balance (text_field (text "to_cid") p) l.balances ≡ pos 0
    → ((apply_transfer c e p l).invalid ≡ l.invalid)
      × (balance (text_field (text "to_cid") p) (apply_transfer c e p l).balances
          ≡ int_field (text "amount") p)
unfolding pay
transfer_overflow c e p l nonce t other fits over solvent fresh =
    let to = text_field (text "to_cid") p in
    let amount = int_field (text "amount") p in
    let fee = int_field (text "fee") p in
    let passed : ltb_ℤ (balance e.author_cid l.balances) (add64 amount fee) ≡ false =
      wrapped_negative amount fee (balance e.author_cid l.balances) fits t.positive
        (rw t.fee_due (fee_nonneg amount)) (rw t.fee_due (fee_below amount t.positive)) over
        solvent in
    rw (apply_transfer-pay t, pay, passed)
      (
        refl,
        balance_to e.author_cid to amount (add64 amount fee) l.balances other
            ∙ rw fresh (add64_zero amount fits),
      )
