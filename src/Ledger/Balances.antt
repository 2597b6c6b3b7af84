-- ===== src/Ledger/Balances.antt =====
-- The sum of the balances under each update of `reward_balances_` (src/core/storage/store.cpp).
use got_soup.Prelude.{◌+◌, ◌^◌, ◌<◌, Bytes, [], ◌∷◌, ◌≡◌, refl, none, arith, bytes_eq}
use got_soup.Prelude.Int.{
  ℤ, pos, negsuc, pos_part, ◌+ℤ◌, ◌-ℤ◌, ◌≤ℤ◌, int_laws, IsInt64, parts_apart, parts_eq, add64,
  sub64, add64_nonneg, sub64_nonneg,
}
use got_soup.Prelude.Dict.{Dict, insert, lookup, get_or, emplace, lookup-insert}
use got_soup.Ledger.{credit, debit}

abbrev pub Balances : Type 0
Balances = Dict Bytes ℤ

-- No balance is negative, and no account is listed twice.
abbrev pub IsSolvent : Balances → Type 0
IsSolvent [] = Unit
IsSolvent ((k, v) ∷ d) = (pos 0 ≤ℤ v) × (lookup k d ≡ none) × IsSolvent d

abbrev pub sum : Balances → ℤ
sum [] = pos 0
sum ((_, v) ∷ d) = v +ℤ sum d

abbrev pub balance : Bytes → Balances → ℤ
balance k d = get_or k d (pos 0)

insert-IsSolvent :
    (k : Bytes) (v : ℤ) (d : Balances) → IsSolvent d → pos 0 ≤ℤ v → IsSolvent (insert k v d)
unfolding insert lookup
insert-IsSolvent k v [] h p = (p, refl, tt)
insert-IsSolvent k v ((j, w) ∷ d) h p = ground (
  arith,
  insert-IsSolvent k v d h.2 p,
  lookup-insert k j v d,
  bytes_eq.equals_iff k j,
  bytes_eq.equals_iff j k,
)

sum-insert : (k : Bytes) (v : ℤ) (d : Balances) → sum (insert k v d) +ℤ balance k d ≡ sum d +ℤ v
unfolding insert lookup
sum-insert k v [] = omega int_laws
sum-insert k v ((j, w) ∷ d) = grind (int_laws, sum-insert k v d)

pub sum_nonneg : (d : Balances) → IsSolvent d → pos 0 ≤ℤ sum d
sum_nonneg [] h = omega arith
sum_nonneg ((j, w) ∷ d) h = omega (int_laws, sum_nonneg d h.2)

pub balance-le-sum : (k : Bytes) (d : Balances) → IsSolvent d → balance k d ≤ℤ sum d
unfolding lookup
balance-le-sum k [] h = omega arith
balance-le-sum k ((j, w) ∷ d) h = grind (int_laws, balance-le-sum k d h.2, sum_nonneg d h.2)

pub balance_nonneg : (k : Bytes) (d : Balances) → IsSolvent d → pos 0 ≤ℤ balance k d
unfolding lookup
balance_nonneg k [] h = omega arith
balance_nonneg k ((j, w) ∷ d) h = ground (arith, balance_nonneg k d h.2)

-- `balance` is at most the sum, so it and what is left fit an int64 wherever the sum does.
module _ (k : Bytes) (x : ℤ) (d : Balances) (h : IsSolvent d) (positive : pos 0 ≤ℤ x) where
  credit_value : pos_part (sum d) + pos_part x < 2 ^ 63 → add64 (balance k d) x ≡ balance k d +ℤ x
  credit_value room = add64_nonneg (balance k d) x (balance_nonneg k d h) positive (
      omega (
        arith,
        balance_nonneg k d h,
        balance-le-sum k d h,
        sum_nonneg d h,
        parts_apart (balance k d),
        parts_apart (sum d),
      ))

  pub credit-IsSolvent : pos_part (sum d) + pos_part x < 2 ^ 63 → IsSolvent (credit k x d)
  unfolding credit
  credit-IsSolvent room =
      rw (credit_value room)
        (insert-IsSolvent k (balance k d +ℤ x) d h (omega (int_laws, balance_nonneg k d h)))

  pub sum-credit : pos_part (sum d) + pos_part x < 2 ^ 63 → sum (credit k x d) ≡ sum d +ℤ x
  unfolding credit
  sum-credit room =
      rw (credit_value room) (omega (int_laws, parts_eq (sum-insert k (balance k d +ℤ x) d)))

  debit_value :
      x ≤ℤ balance k d → pos_part (sum d) < 2 ^ 63 → sub64 (balance k d) x ≡ balance k d -ℤ x
  debit_value covered room = sub64_nonneg (balance k d) x positive covered (
      fits (balance k d) (balance_nonneg k d h) (
        omega (
          arith,
          balance_nonneg k d h,
          balance-le-sum k d h,
          sum_nonneg d h,
          parts_apart (balance k d),
          parts_apart (sum d),
        )))
    where
      fits : (b : ℤ) → pos 0 ≤ℤ b → pos_part b < 2 ^ 63 → IsInt64 b
      fits (pos n) h k = k
      fits (negsuc n) h k = absurd (omega arith)

  pub debit-IsSolvent : x ≤ℤ balance k d → pos_part (sum d) < 2 ^ 63 → IsSolvent (debit k x d)
  unfolding debit
  debit-IsSolvent covered room =
      rw (debit_value covered room) (insert-IsSolvent k (balance k d -ℤ x) d h (omega int_laws))

  pub sum-debit : x ≤ℤ balance k d → pos_part (sum d) < 2 ^ 63 → sum (debit k x d) ≡ sum d -ℤ x
  unfolding debit
  sum-debit covered room =
      rw (debit_value covered room) (omega (int_laws, parts_eq (sum-insert k (balance k d -ℤ x) d)))

pub emplace-IsSolvent : (k : Bytes) (d : Balances) → IsSolvent d → IsSolvent (emplace k (pos 0) d)
unfolding emplace
emplace-IsSolvent k d h = ground (arith, insert-IsSolvent k (pos 0) d h)

pub sum-emplace : (k : Bytes) (d : Balances) → sum (emplace k (pos 0) d) ≡ sum d
unfolding emplace
sum-emplace k d = grind (int_laws, sum-insert k (pos 0) d)
