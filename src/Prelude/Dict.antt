-- ===== src/Prelude/Dict.antt =====
-- std::unordered_map as an association list in order of insertion.
use got_soup.Prelude.Tests.{EqTest, ◌==◌, if◌then◌else◌}
use mathlib.Core.Path.{◌≡◌, refl}
use mathlib.Core.Bool.{Bool, true, false}
use mathlib.Core.Option.{Option, none, some}
use got_soup.Prelude.Lists.{contains}
use mathlib.Core.List.{List, [], ◌∷◌}
use native.Mathlib.Omega.{arith}

abbrev pub Dict {ℓ} : Type ℓ → Type ℓ → Type ℓ
Dict K V = List (K × V)

module _ {ℓ} {K V : Type ℓ} ⦃e : EqTest K⦄ where
  -- find
  unfoldable pub lookup : K → Dict K V → Option V
  lookup k [] = none
  lookup k ((j, v) ∷ d) = if j == k then some v else lookup k d

  -- contains
  abbrev pub has : K → Dict K V → Bool
  has k d = elim (lookup k d) [ none ↦ false | some _ ↦ true ]

  -- operator[] on the left of an assignment
  unfoldable pub insert : K → V → Dict K V → Dict K V
  insert k v [] = (k, v) ∷ []
  insert k v ((j, w) ∷ d) = if j == k then (j, v) ∷ d else (j, w) ∷ insert k v d

  unfoldable pub erase : K → Dict K V → Dict K V
  erase k [] = []
  erase k ((j, w) ∷ d) = let rest = erase k d in if j == k then rest else (j, w) ∷ rest

  -- emplace: an entry that is there stays
  unfoldable pub emplace : K → V → Dict K V → Dict K V
  emplace k v d = elim (lookup k d) [ none ↦ insert k v d | some _ ↦ d ]

  -- at, or operator[] on the right: the default where the key is missing
  abbrev pub get_or : K → Dict K V → V → V
  get_or k d v = elim (lookup k d) [ none ↦ v | some w ↦ w ]

  pub lookup-insert :
      (k j : K) (v : V) (d : Dict K V)
      → lookup j (insert k v d) ≡ (if k == j then some v else lookup j d)
  unfolding lookup insert
  lookup-insert k j v [] = refl
  lookup-insert k j v ((i, w) ∷ d) =
      ground (arith, e.equals_iff i k, e.equals_iff i j, e.equals_iff k j, lookup-insert k j v d)

  pub lookup-erase :
      (k j : K) (d : Dict K V) → lookup j (erase k d) ≡ (if k == j then none else lookup j d)
  unfolding lookup erase
  lookup-erase k j [] = ground arith
  lookup-erase k j ((i, w) ∷ d) =
      ground (arith, e.equals_iff i k, e.equals_iff i j, e.equals_iff k j, lookup-erase k j d)

  pub lookup-emplace :
      (k j : K) (v : V) (d : Dict K V)
      → lookup j (emplace k v d)
        ≡ (if k == j then (elim (lookup k d) [ none ↦ some v | some w ↦ some w ]) else lookup j d)
  unfolding emplace
  lookup-emplace k j v d = ground (arith, lookup-insert k j v d, e.equals_iff k j)

  unfoldable pub map_values : (V → V) → Dict K V → Dict K V
  map_values f [] = []
  map_values f ((k, v) ∷ d) = (k, f v) ∷ map_values f d

  -- the entries that pass a test
  unfoldable pub keep : (K → V → Bool) → Dict K V → Dict K V
  keep P [] = []
  keep P ((k, v) ∷ d) = let rest = keep P d in if P k v then (k, v) ∷ rest else rest

  -- the keys of the entries that pass a test
  unfoldable pub keys_where : (K → V → Bool) → Dict K V → List K
  keys_where P [] = []
  keys_where P ((k, v) ∷ d) = let rest = keys_where P d in if P k v then k ∷ rest else rest

  -- `erase` of each key
  unfoldable pub erase_all : List K → Dict K V → Dict K V
  erase_all [] d = d
  erase_all (k ∷ ks) d = erase_all ks (erase k d)

  pub lookup-map_values :
      (k : K) (f : V → V) (d : Dict K V)
      → lookup k (map_values f d) ≡ (elim (lookup k d) [ none ↦ none | some v ↦ some (f v) ])
  unfolding lookup map_values
  lookup-map_values k f [] = refl
  lookup-map_values k f ((j, w) ∷ d) = ground (arith, lookup-map_values k f d)

  pub lookup-keep :
      (k : K) (P : K → V → Bool) (d : Dict K V) (v : V)
      → lookup k (keep P d) ≡ some v
      → P k v ≡ true
  unfolding lookup keep
  lookup-keep k P [] v h = cc
  lookup-keep k P ((j, w) ∷ d) v h = ground (arith, e.equals_iff j k, lookup-keep k P d v)

  pub keys_where-contains :
      (k : K) (P : K → V → Bool) (d : Dict K V) (v : V)
      → lookup k d ≡ some v
      → P k v ≡ true
      → contains k (keys_where P d) ≡ true
  unfolding lookup keys_where
  keys_where-contains k P [] v h p = cc
  keys_where-contains k P ((j, w) ∷ d) v h p =
      ground (arith, e.equals_iff j k, keys_where-contains k P d v)

  pub lookup-erase_all :
      (k : K) (ks : List K) (d : Dict K V)
      → lookup k (erase_all ks d) ≡ (if contains k ks then none else lookup k d)
  unfolding erase_all
  lookup-erase_all k [] d = refl
  lookup-erase_all k (j ∷ ks) d =
      ground (arith, lookup-erase_all k ks (erase j d), lookup-erase j k d)
