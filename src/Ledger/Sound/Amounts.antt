-- ===== src/Ledger/Sound/Amounts.antt =====
-- When a ledger is sound, and the sums that stay within an int64 (the economic pass of Store::materialize_views in
-- src/core/storage/store.cpp).
use got_soup.Prelude.{
  ℕ, ◌+◌, ◌^◌, ◌<◌, ◌≤◌, Bytes, Bool, true, false, not, ◌||◌, ◌≡◌, refl, arith, bytes_eq, nat_eq,
  if◌then◌else◌, Bool-cases, inl, inr, text,
}
use got_soup.Prelude.Int.{
  ℤ, pos, negsuc, pos_part, ◌+ℤ◌, ◌-ℤ◌, ◌≤ℤ◌, int_laws, parts_apart, parts_eq, eq_of_parts, add64,
  sub64, add64_nonneg, sub64_nonneg, leb_ℤ, eqb_ℤ, min_ℤ, IsInt64,
}
use got_soup.Model.{EventEnvelope}
use got_soup.Canonical.{parse_canonical_map}
use got_soup.Ledger.{
  Context, Ledger, empty_ledger, expected_claim_reward_for_block, scheduled_reward_for_block,
  transfer_burn_fee, int_field, credit, debit,
}
use got_soup.Ledger.Balances.{
  Balances, IsSolvent, sum, balance, balance-le-sum, sum_nonneg, credit-IsSolvent, sum-credit,
  debit-IsSolvent, sum-debit,
}

-- The supply is no more than 2^62. (The program's is 69359946.)
abbrev pub IsModest : Context → Type 0
IsModest c = (pos 0 ≤ℤ c.max_token_supply_units) × (pos_part c.max_token_supply_units ≤ 2 ^ 62)

-- No account is overdrawn, every unit that was issued is held or was burned, and no more was issued
-- than the supply.
pub record IsSound (c : Context) (l : Ledger) : Type 0 where
  pub solvent : IsSolvent l.balances
  pub conserved : sum l.balances +ℤ l.burned ≡ l.issued
  pub burned_nonneg : pos 0 ≤ℤ l.burned
  pub capped : l.issued ≤ℤ c.max_token_supply_units

-- The amount of a transfer is no more than 2^62, so that amount and fee have an int64 sum.
abbrev pub HasModestAmount : EventEnvelope → Type 0
HasModestAmount e = pos_part (int_field (text "amount") (parse_canonical_map e.payload)) ≤ 2 ^ 62

-- A positive claim leaves the issue within the supply.
pub expected_room :
    (c : Context) (index : ℕ) (issued : ℤ)
    → IsModest c
    → pos 0 ≤ℤ issued
    → pos 1 ≤ℤ expected_claim_reward_for_block c index issued
    → issued +ℤ expected_claim_reward_for_block c index issued ≤ℤ c.max_token_supply_units
unfolding expected_claim_reward_for_block
expected_room c index issued modest h reward =
    elim (Bool-cases (leb_ℤ c.max_token_supply_units issued)) [
      | inl spent ↦ absurd (ground arith)
      | inr left ↦
          let rest : sub64 c.max_token_supply_units issued ≡ c.max_token_supply_units -ℤ issued =
            sub64_nonneg c.max_token_supply_units issued h (ground arith)
              (fits c.max_token_supply_units modest) in
          rw (left, rest)
            (capped (scheduled_reward_for_block c index) issued c.max_token_supply_units
              (ground arith))
    ]
  where
    fits : (a : ℤ) → (pos 0 ≤ℤ a) × (pos_part a ≤ 2 ^ 62) → IsInt64 a
    fits (pos n) h = omega arith
    fits (negsuc n) h = absurd (omega arith)

    capped : (s i m : ℤ) → i ≤ℤ m → i +ℤ (if leb_ℤ s (pos 0) then pos 0 else min_ℤ s (m -ℤ i)) ≤ℤ m
    capped s i m h = grind int_laws

pub branch :
    (P : Ledger → Type 0) (b : Bool) {x y : Ledger}
    → P x
    → (b ≡ false → P y)
    → P (if b then x else y)
branch P true px py = px
branch P false px py = py refl

pub claim_amount :
    (reward expected : ℤ)
    → (leb_ℤ reward (pos 0) || not (eqb_ℤ reward expected)) ≡ false
    → (pos 1 ≤ℤ reward) × (reward ≡ expected)
claim_amount reward expected h = (ground arith, eq_of_parts reward expected (ground arith))

-- With a fee that the schedule gives, amount and fee have an int64 sum.
pub fee_fits :
    (amount : ℤ)
    → pos 1 ≤ℤ amount
    → pos_part amount ≤ 2 ^ 62
    → (pos 0 ≤ℤ transfer_burn_fee amount)
      × (add64 amount (transfer_burn_fee amount) ≡ amount +ℤ transfer_burn_fee amount)
unfolding transfer_burn_fee
fee_fits (pos n) h k =
    (ground arith, add64_nonneg (pos n) _ (omega arith) (ground arith) (ground arith))
fee_fits (negsuc n) h k = absurd (omega arith)

-- From a sender who has the amount and the fee, the one moves and the other is burned.
pub pay_sums :
    (from to : Bytes) (amount fee : ℤ) (d : Balances)
    → IsSolvent d
    → pos 0 ≤ℤ amount
    → pos 0 ≤ℤ fee
    → pos_part (sum d) ≤ 2 ^ 62
    → amount +ℤ fee ≤ℤ balance from d
    → let d' = credit to amount (debit from (amount +ℤ fee) d) in
      IsSolvent d' × (sum d' +ℤ fee ≡ sum d)
pay_sums from to amount fee d h a f small covered =
    let total : pos 0 ≤ℤ amount +ℤ fee = omega int_laws in
    let less : IsSolvent (debit from (amount +ℤ fee) d) =
      debit-IsSolvent from (amount +ℤ fee) d h total covered (omega arith) in
    let left : sum (debit from (amount +ℤ fee) d) ≡ sum d -ℤ (amount +ℤ fee) =
      sum-debit from (amount +ℤ fee) d h total covered (omega arith) in
    let room : pos_part (sum (debit from (amount +ℤ fee) d)) + pos_part amount < 2 ^ 63 = omega (
      int_laws,
      parts_eq left,
      balance-le-sum from d h,
      sum_nonneg d h,
      parts_apart (sum d),
      parts_apart amount,
      parts_apart fee,
      parts_apart (amount +ℤ fee),
      parts_apart (sum d -ℤ (amount +ℤ fee)),
    ) in
    (
      credit-IsSolvent to amount (debit from (amount +ℤ fee) d) less a room,
      rw (sum-credit to amount (debit from (amount +ℤ fee) d) less a room)
          (omega (int_laws, parts_eq left)),
    )

module _ {c : Context} (modest : IsModest c) where
  -- the sum is at most what was issued, hence at most the supply
  pub sum_small : (l : Ledger) → IsSound c l → pos_part (sum l.balances) ≤ 2 ^ 62
  sum_small l h = omega (
    int_laws,
    parts_eq h.conserved,
    modest.0,
    modest.1,
    h.burned_nonneg,
    h.capped,
    sum_nonneg l.balances h.solvent,
    parts_apart l.burned,
    parts_apart (sum l.balances),
    parts_apart c.max_token_supply_units,
    parts_apart l.issued,
  )

  pub issued_nonneg : (l : Ledger) → IsSound c l → pos 0 ≤ℤ l.issued
  issued_nonneg l h =
      omega (int_laws, parts_eq h.conserved, h.burned_nonneg, sum_nonneg l.balances h.solvent)

pub IsSound-empty : (c : Context) → IsModest c → IsSound c empty_ledger
IsSound-empty c modest = record {
  solvent = tt;
  conserved = omega int_laws;
  burned_nonneg = omega arith;
  capped = modest.0;
}
