-- ===== src/Merkle/Total.antt =====
-- The loop of `compute_merkle_root` (src/core/storage/store.cpp) and its fuel.
use got_soup.Prelude.{
  ℕ, zero, suc, ◌+◌, ◌/◌, ◌%◌, ◌≤◌, Bytes, List, [], ◌∷◌, length, length-append, ◌≡◌, refl, arith,
  ◌==◌, nat_eq, get_last?, none, some, Bool-cases, inl, inr,
}
use got_soup.Merkle.{even_out, pair_up, merkle_levels}

length-pair_up : (hash : Bytes → Bytes) (ls : List Bytes) → length (pair_up hash ls) ≡ length ls / 2
unfolding pair_up
length-pair_up hash [] = omega arith
length-pair_up hash (a ∷ []) = omega arith
length-pair_up hash (a ∷ b ∷ ls) = omega (arith, length-pair_up hash ls)

length-get_last? :
    (ls : List Bytes)
    → length (elim (get_last? ls) as (λ _. List Bytes) [ none ↦ [] | some l ↦ l ∷ [] ]) ≤ 1
length-get_last? ls = ground arith

length-even_out : (ls : List Bytes) → length (even_out ls) ≤ length ls + length ls % 2
unfolding even_out
length-even_out ls = elim (Bool-cases (length ls % 2 == 0)) [
  | inl even ↦ rw even (omega arith)
  | inr odd ↦ rw (odd, length-append) (ground (arith, length-get_last? ls))
]

length-even_out_ge : (ls : List Bytes) → length ls ≤ length (even_out ls)
unfolding even_out
length-even_out_ge ls = elim (Bool-cases (length ls % 2 == 0)) [
  | inl even ↦ rw even (omega arith)
  | inr odd ↦ rw (odd, length-append) (omega arith)
]

-- The loop ends with a root for every list that is not empty, with fuel for all its leaves but one.
pub merkle_levels-ends :
    (hash : Bytes → Bytes) (fuel : ℕ) (ls : List Bytes)
    → 1 ≤ length ls
    → length ls ≤ fuel + 1
    → (root : Bytes) × (merkle_levels hash fuel ls ≡ some root)
unfolding merkle_levels
merkle_levels-ends hash fuel [] h k = absurd (omega arith)
merkle_levels-ends hash zero (a ∷ []) h k = (a, refl)
merkle_levels-ends hash (suc fuel) (a ∷ []) h k = (a, refl)
merkle_levels-ends hash zero (a ∷ b ∷ ls) h k = absurd (omega arith)
merkle_levels-ends hash (suc fuel) (a ∷ b ∷ ls) h k =
    let some_left : length (pair_up hash (even_out (a ∷ b ∷ ls)))
        ≡ length (even_out (a ∷ b ∷ ls)) / 2 =
      length-pair_up hash (even_out (a ∷ b ∷ ls)) in
    merkle_levels-ends hash fuel (pair_up hash (even_out (a ∷ b ∷ ls)))
      (omega (arith, some_left, length-even_out_ge (a ∷ b ∷ ls)))
      (omega (arith, some_left, length-even_out (a ∷ b ∷ ls)))
