-- ===== src/Merkle.antt =====
-- Merkle roots (compute_merkle_root of src/core/storage/store.cpp).
pub mod Total
use got_soup.Prelude.{
  ℕ, zero, suc, ◌%◌, Bytes, List, [], ◌∷◌, ◌++◌, length, ◌==◌, if◌then◌else◌, nat_eq, text,
  get_last?, Option, none, some, Bool, ltb,
}

-- `leaves.push_back(leaves.back())` where their number is odd
unfoldable pub even_out : List Bytes → List Bytes
even_out leaves =
    if length leaves % 2 == 0
    then leaves
    else leaves ++ (elim (get_last? leaves) [ none ↦ [] | some l ↦ l ∷ [] ])

-- the loop that fills `next`
unfoldable pub pair_up : (Bytes → Bytes) → List Bytes → List Bytes
pair_up hash (a ∷ b ∷ leaves) = hash (a ++ (b'|' ∷ b)) ∷ pair_up hash leaves
pair_up hash _ = []

-- The loop over levels, with fuel; `none` where it runs out.
unfoldable pub merkle_levels : (Bytes → Bytes) → ℕ → List Bytes → Option Bytes
unfolding even_out pair_up
merkle_levels hash fuel [] = none
merkle_levels hash fuel (root ∷ []) = some root
merkle_levels hash zero (a ∷ b ∷ leaves) = none
merkle_levels hash (suc fuel) (a ∷ b ∷ leaves) =
    merkle_levels hash fuel (pair_up hash (even_out (a ∷ b ∷ leaves)))

abbrev or_nothing : Option Bytes → Bytes
or_nothing none = []
or_nothing (some b) = b

-- one level for each leaf is more than enough
unfoldable pub compute_merkle_root : (Bytes → Bytes) → List Bytes → Bytes
unfolding merkle_levels
compute_merkle_root hash [] = hash (text "merkle-empty")
compute_merkle_root hash (l ∷ leaves) = or_nothing (merkle_levels hash (length leaves) (l ∷ leaves))
