-- ===== src/Ledger/Transfers.antt =====
-- What a transfer does to each account (the transfer branch of the economic pass in src/core/storage/store.cpp).
pub mod Proper
pub mod Overflow
use got_soup.Prelude.{
  ℕ, ◌+◌, ◌^◌, ◌<◌, ◌≤◌, Bytes, true, false, ◌≡◌, ◌≢◌, refl, ◌∙◌, some, arith, ◌==◌, bytes_eq,
  nat_eq, if◌then◌else◌, text, is_empty,
}
use got_soup.Prelude.Int.{
  ℤ, pos, negsuc, pos_part, ◌+ℤ◌, ◌-ℤ◌, ◌≤ℤ◌, int_laws, parts_apart, add64, sub64, IsInt64, ltb_ℤ,
  eqb_ℤ, add64_nonneg, sub64_nonneg,
}
use got_soup.Prelude.Dict.{insert, lookup, emplace, lookup-insert, lookup-emplace}
use got_soup.Model.{EventEnvelope}
use got_soup.Ledger.{
  Context, Ledger, Payload, transfer_burn_fee, int_field, text_field, uint_field, has_witness,
  credit, debit, transfer_witness, pay, expected_nonce, transfer_with_nonce, has_bad_target,
  apply_transfer,
}
use got_soup.Ledger.Balances.{Balances, balance, sum, sum_nonneg, balance-le-sum, balance_nonneg}
use got_soup.Ledger.Sound.{IsModest, IsSound, fee_fits, sum_small}
use got_soup.Ledger.Transfers.Proper.{
  IsProper, touched, fee_nonneg, balance-emplace, balance_from, balance_to, balance_third,
  apply_transfer-pay,
}

-- What a payment that goes through has done.
pub record HasMoved (e : EventEnvelope) (to : Bytes) (amount fee : ℤ) (nonce : ℕ) (l l' : Ledger)
    : Type 0 where
  pub sender : balance e.author_cid l'.balances ≡ balance e.author_cid l.balances -ℤ (amount +ℤ fee)
  pub receiver : balance to l'.balances ≡ balance to l.balances +ℤ amount
  pub others :
      (k : Bytes) → k ≢ e.author_cid → k ≢ to → balance k l'.balances ≡ balance k l.balances
  pub not_invalid : l'.invalid ≡ l.invalid
  pub nonce_used : lookup e.author_cid l'.nonces ≡ some nonce

uncovered : (b x y : ℤ) → x ≡ y → y ≤ℤ b → ltb_ℤ b x ≡ false
uncovered b x y e h = rw e (ground arith)

fits64 : (b : ℤ) → pos 0 ≤ℤ b → pos_part b < 2 ^ 63 → IsInt64 b
fits64 (pos n) h k = k
fits64 (negsuc n) h k = absurd (omega arith)

pay-HasMoved :
    (e : EventEnvelope) (to : Bytes) (amount fee : ℤ) (nonce : ℕ) (l : Ledger)
    → e.author_cid ≢ to
    → add64 amount fee ≡ amount +ℤ fee
    → amount +ℤ fee ≤ℤ balance e.author_cid l.balances
    → sub64 (balance e.author_cid l.balances) (amount +ℤ fee)
      ≡ balance e.author_cid l.balances -ℤ (amount +ℤ fee)
    → add64 (balance to l.balances) amount ≡ balance to l.balances +ℤ amount
    → HasMoved e to amount fee nonce l (pay e to amount fee nonce (touched e l))
unfolding pay
pay-HasMoved e to amount fee nonce l other whole covered taken given =
    rw
      (
        uncovered (balance e.author_cid l.balances) (add64 amount fee) (amount +ℤ fee) whole
            covered,
        pay,
        whole,
      )
      (record {
        sender = balance_from e.author_cid to amount (amount +ℤ fee) l.balances other ∙ taken;
        receiver = balance_to e.author_cid to amount (amount +ℤ fee) l.balances other ∙ given;
        others =
            λ k a b. balance_third e.author_cid to amount (amount +ℤ fee) l.balances other k a b;
        not_invalid = refl;
        nonce_used =
            lookup-insert e.author_cid e.author_cid nonce (emplace e.author_cid 0 l.nonces)
            ∙ rw ((bytes_eq.equals_iff e.author_cid e.author_cid).1 refl);
      })

fee_positive : (a : ℤ) → pos 1 ≤ℤ a → pos 1 ≤ℤ transfer_burn_fee a
unfolding transfer_burn_fee
fee_positive a h = ground arith

module _ {c : Context} (modest : IsModest c) {l : Ledger} (sound : IsSound c l) where
  balance_fits :
      (k : Bytes) → (pos_part (balance k l.balances) ≤ 2 ^ 62) × IsInt64 (balance k l.balances)
  balance_fits k = (
    small,
    fits64 (balance k l.balances) (balance_nonneg k l.balances sound.solvent)
        (omega (arith, small)),
  )
    where
      small : pos_part (balance k l.balances) ≤ 2 ^ 62
      small = omega (
        arith,
        sum_small modest l sound,
        balance-le-sum k l.balances sound.solvent,
        sum_nonneg l.balances sound.solvent,
        balance_nonneg k l.balances sound.solvent,
        parts_apart (sum l.balances),
        parts_apart (balance k l.balances),
      )

  sums_fit :
      (from to : Bytes) (amount fee : ℤ)
      → pos 1 ≤ℤ amount
      → pos 1 ≤ℤ fee
      → amount +ℤ fee ≤ℤ balance from l.balances
      → (sub64 (balance from l.balances) (amount +ℤ fee)
          ≡ balance from l.balances -ℤ (amount +ℤ fee))
        × (add64 (balance to l.balances) amount ≡ balance to l.balances +ℤ amount)
  sums_fit from to amount fee a f covered = (
    sub64_nonneg (balance from l.balances) (amount +ℤ fee) (omega int_laws) covered
        (balance_fits from).1,
    add64_nonneg (balance to l.balances) amount (balance_nonneg to l.balances sound.solvent)
        (omega arith)
        (omega (
          int_laws,
          (balance_fits from).0,
          (balance_fits to).0,
          covered,
          parts_apart amount,
          parts_apart fee,
          parts_apart (balance from l.balances),
          balance_nonneg from l.balances sound.solvent,
        )),
  )

-- In a sound ledger, with a supply from 0 to 2^62, a transfer of at most 2^62 units to another
-- account that passes the tests on its fields, its nonce, its fee and its witness, and that the
-- sender's balance covers with its fee, takes amount and fee from the sender, gives the amount to
-- the receiver, changes no other balance, is not recorded as invalid, and uses up its nonce.
pub apply_transfer-HasMoved :
    (c : Context) (e : EventEnvelope) (p : Payload) (l : Ledger) (nonce : ℕ)
    → IsModest c
    → IsSound c l
    → IsProper c e p l nonce
    → e.author_cid ≢ text_field (text "to_cid") p
    → pos_part (int_field (text "amount") p) ≤ 2 ^ 62
    → int_field (text "amount") p +ℤ int_field (text "fee") p ≤ℤ balance e.author_cid l.balances
    → HasMoved e
        (text_field (text "to_cid") p)
        (int_field (text "amount") p)
        (int_field (text "fee") p)
        nonce
        l
        (apply_transfer c e p l)
apply_transfer-HasMoved c e p l nonce modest sound t other small covered =
    let to = text_field (text "to_cid") p in
    let amount = int_field (text "amount") p in
    let fee = int_field (text "fee") p in
    let whole : add64 amount fee ≡ amount +ℤ fee =
      rw t.fee_due ((fee_fits amount t.positive small).1) in
    let due : pos 1 ≤ℤ fee = rw t.fee_due (fee_positive amount t.positive) in
    let sums = sums_fit modest sound e.author_cid to amount fee t.positive due covered in
    rw (apply_transfer-pay t)
      (pay-HasMoved e to amount fee nonce l other whole covered sums.0 sums.1)

-- What a payment that is refused leaves.
pub record IsRefused (e : EventEnvelope) (why : Bytes) (l l' : Ledger) : Type 0 where
  pub recorded : lookup e.event_id l'.invalid ≡ some why
  pub same_balances : (k : Bytes) → balance k l'.balances ≡ balance k l.balances
  pub same_totals : (l'.issued ≡ l.issued) × (l'.burned ≡ l.burned) × (l'.claimed ≡ l.claimed)

-- A transfer of at most 2^62 units that passes the other tests, and that the sender's balance does
-- not cover with its fee, is recorded as invalid for that reason and changes no balance and no total.
pub apply_transfer-IsRefused :
    (c : Context) (e : EventEnvelope) (p : Payload) (l : Ledger) (nonce : ℕ)
    → IsProper c e p l nonce
    → pos_part (int_field (text "amount") p) ≤ 2 ^ 62
    → ¬ (int_field (text "amount") p +ℤ int_field (text "fee") p ≤ℤ balance e.author_cid l.balances)
    → IsRefused e (text "Reward transfer exceeds sender balance.") l (apply_transfer c e p l)
unfolding pay
apply_transfer-IsRefused c e p l nonce t small short =
    let amount = int_field (text "amount") p in
    let fee = int_field (text "fee") p in
    let whole : add64 amount fee ≡ amount +ℤ fee =
      rw t.fee_due ((fee_fits amount t.positive small).1) in
    let lacking : ltb_ℤ (balance e.author_cid l.balances) (add64 amount fee) ≡ true =
      rw whole (ground arith) in
    rw (apply_transfer-pay t, pay, lacking)
      (record {
        recorded =
            lookup-insert e.event_id e.event_id _ l.invalid
            ∙ rw ((bytes_eq.equals_iff e.event_id e.event_id).1 refl);
        same_balances = λ k. balance-emplace e.author_cid k l.balances;
        same_totals = (refl, refl, refl);
      })
