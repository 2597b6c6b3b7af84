-- ===== src/Prelude/Sets.antt =====
-- std::unordered_set as a list without duplicates, in order of insertion.
use got_soup.Prelude.Tests.{EqTest, ◌==◌, if◌then◌else◌, Bool-cases}
use got_soup.Prelude.Lists.{contains, count, length}
use Prim.Native.Nat.{◌+◌, ◌≤◌}
use mathlib.Core.Path.{◌≡◌, refl}
use mathlib.Core.Logic.{inl, inr}
use mathlib.Core.Bool.{false, not, ◌||◌, ◌&&◌}
use mathlib.Core.List.{List, [], ◌∷◌}
use native.Mathlib.Omega.{arith}

module _ {ℓ} {M : Type ℓ} ⦃test : EqTest M⦄ where
  -- insert
  unfoldable pub add : M → List M → List M
  add m s = if contains m s then s else m ∷ s

  -- erase
  unfoldable pub remove : M → List M → List M
  remove m [] = []
  remove m (x ∷ s) = let rest = remove m s in if x == m then rest else x ∷ rest

  pub contains-add : (m x : M) (s : List M) → contains x (add m s) ≡ (m == x || contains x s)
  unfolding add
  contains-add m x s = ground (arith, test.equals_iff m x)

  pub contains-remove :
      (m x : M) (s : List M) → contains x (remove m s) ≡ (not (m == x) && contains x s)
  unfolding remove
  contains-remove m x [] = ground arith
  contains-remove m x (y ∷ s) =
      ground (
        arith,
        test.equals_iff y m,
        test.equals_iff y x,
        test.equals_iff m x,
        contains-remove m x s,
      )

  count_absent : (m : M) (s : List M) → contains m s ≡ false → count m s ≡ 0
  count_absent m [] h = refl
  count_absent m (x ∷ s) h = ground (arith, count_absent m s)

  pub count-add : (m x : M) (s : List M) → count x s ≤ 1 → count x (add m s) ≤ 1
  unfolding add
  count-add m x s h = elim (Bool-cases (contains m s)) [
    | inl old ↦ rw old h
    | inr new ↦ rw new (ground (arith, test.equals_iff m x, count_absent m s))
  ]

  pub count-remove : (m x : M) (s : List M) → count x (remove m s) ≤ count x s
  unfolding remove
  count-remove m x [] = omega arith
  count-remove m x (y ∷ s) = ground (arith, count-remove m x s)

  pub length-remove : (m : M) (s : List M) → length (remove m s) + count m s ≡ length s
  unfolding remove
  length-remove m [] = omega arith
  length-remove m (y ∷ s) = ground (arith, length-remove m s)
