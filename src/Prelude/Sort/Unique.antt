-- ===== src/Prelude/Sort/Unique.antt =====
-- Sorting by a strict order that tells apart all elements of a list.
use Prim.Native.Nat.{◌≤◌}
use mathlib.Core.Path.{◌≡◌, refl, ◌∙◌}
use mathlib.Core.Bool.{Bool, true, false}
use mathlib.Core.List.{List, [], ◌∷◌, Permᴰ, map}
use native.Mathlib.Omega.{arith}
use got_soup.Prelude.Tests.{EqTest, ◌==◌}
use got_soup.Prelude.Lists.{count}
use got_soup.Prelude.Sort.{sort, insert_sorted}

-- A strict order on `A` that tells apart elements of different keys.
pub record IsKeyOrder {A K : Type 0} (lt : A → A → Bool) (key : A → K) : Type 0 where
  pub asym : (x y : A) → lt x y ≡ true → lt y x ≡ false
  pub trans : (x y z : A) → lt x y ≡ true → lt y z ≡ true → lt x z ≡ true
  pub total : (x y : A) → lt x y ≡ false → lt y x ≡ false → key x ≡ key y

module _ {A K : Type 0} ⦃e : EqTest K⦄ {lt : A → A → Bool} {key : A → K}
    (o : IsKeyOrder lt key) where
  insert_sorted_comm :
      (x y : A) (l : List A)
      → (key x == key y) ≡ false
      → insert_sorted lt x (insert_sorted lt y l) ≡ insert_sorted lt y (insert_sorted lt x l)
  unfolding insert_sorted
  insert_sorted_comm x y [] h =
      ground (arith, o.asym x y, o.total x y, e.equals_iff (key x) (key y))
  insert_sorted_comm x y (z ∷ l) h = ground (
    arith,
    insert_sorted_comm x y l h,
    o.asym x y,
    o.asym y x,
    o.total x y,
    e.equals_iff (key x) (key y),
    o.trans z x y,
    o.trans z y x,
  )

  -- No two elements of the list have the same key.
  abbrev pub Unique : List A → Type 0
  Unique l = (k : K) → count k (map key l) ≤ 1

  count_perm : (k : K) {l m : List A} → Permᴰ l m → count k (map key l) ≡ count k (map key m)
  count_perm k Permᴰ.nil = refl
  count_perm k (Permᴰ.cons {a} {b} q d) = rw (q, count_perm k d)
  count_perm k (Permᴰ.swap q r) = rw (q, r) (omega arith)
  count_perm k (Permᴰ.trans d d') = count_perm k d ∙ count_perm k d'

  differ : (x y : A) (l : List A) → Unique (x ∷ y ∷ l) → (key x == key y) ≡ false
  differ x y l u =
      ground (arith, u (key y), e.equals_iff (key y) (key y), e.equals_iff (key x) (key y))

  Unique-tail : (x : A) (l : List A) → Unique (x ∷ l) → Unique l
  Unique-tail x l u k = omega (arith, u k)

  pub sort-permᴰ : {l m : List A} → Permᴰ l m → Unique l → sort lt l ≡ sort lt m
  unfolding sort
  sort-permᴰ Permᴰ.nil u = refl
  sort-permᴰ (Permᴰ.cons {a} {b} {l₁} {l₂} q d) u = rw (q, sort-permᴰ d (Unique-tail a l₁ u))
  sort-permᴰ (Permᴰ.swap {a} {b} {l = l} q r) u =
      rw (← q, ← r) (insert_sorted_comm a b (sort lt l) (differ a b l u))
  sort-permᴰ (Permᴰ.trans {l₁} {l₂} d d') u =
      sort-permᴰ d u ∙ sort-permᴰ d' (λ k. rw (← count_perm k d) (u k))
