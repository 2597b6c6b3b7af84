-- ===== src/Service/Csv/Listed.antt =====
-- Lists of values with commas between them (split_csv and join_csv of src/core/service/alpha_service.cpp).
use got_soup.Prelude.{
  ℕ, Bytes, true, false, ◌||◌, List, [], ◌∷◌, ◌++◌, ◌==◌, bytes_eq, lt_bytes, contains, is_empty,
  ◌≡◌, refl, sym, ◌∙◌, ap, arith, Bool-cases, inl, inr, All, nat_eq,
}
use got_soup.Prelude.Sort.{sort, insert_sorted}
use got_soup.Canonical.{trim_copy}
use got_soup.Canonical.Trim.{trim_copy-Trims}
use got_soup.Codec.{split_at}
use got_soup.Codec.Lines.{split_at_piece, split_at_last}
use got_soup.Crypto.Backup.{HasNo}
use got_soup.Service.KeyValues.Lines.{trim_copy-solid}
use got_soup.Service.Csv.{trimmed_values, split_csv, unique_from, unique, join_parts, join_csv}

-- A value that a list can carry.
record IsItem (v : Bytes) : Type 0 where
  trimmed : trim_copy v ≡ v
  filled : is_empty v ≡ false
  no_comma : HasNo b',' v

HasNo-middle : (c : ℕ) (f v b : Bytes) → HasNo c (f ++ (v ++ b)) → HasNo c v
HasNo-middle c [] [] b h = tt
HasNo-middle c [] (x ∷ v) b (h, hs) = (h, HasNo-middle c [] v b hs)
HasNo-middle c (x ∷ f) v b (h, hs) = HasNo-middle c f v b hs

pub HasNo-trim_copy : (c : ℕ) (v : Bytes) → HasNo c v → HasNo c (trim_copy v)
HasNo-trim_copy c v h =
    let t = trim_copy-Trims v in HasNo-middle c t.front (trim_copy v) t.back (rw (sym t.splits) h)

pub trim_copy_twice : (v : Bytes) → trim_copy (trim_copy v) ≡ trim_copy v
trim_copy_twice v = let t = trim_copy-Trims v in trim_copy-solid (trim_copy v) t.begins t.ends

trimmed_values-items : (vs : List Bytes) → All (HasNo b',') vs → All IsItem (trimmed_values vs)
unfolding trimmed_values
trimmed_values-items [] h = tt
trimmed_values-items (v ∷ vs) (h, hs) = elim (Bool-cases (is_empty (trim_copy v))) [
  | inl none_left ↦ rw none_left (trimmed_values-items vs hs)
  | inr filled ↦ rw filled (
    record { trimmed = trim_copy_twice v; filled = filled; no_comma = HasNo-trim_copy b',' v h },
    trimmed_values-items vs hs,
  )
]

trimmed_values-kept : (vs : List Bytes) → All IsItem vs → trimmed_values vs ≡ vs
unfolding trimmed_values
trimmed_values-kept [] h = refl
trimmed_values-kept (v ∷ vs) (h, hs) =
    rw (h.trimmed, h.filled) (ap (λ (r : List Bytes). v ∷ r) (trimmed_values-kept vs hs))

-- Sorting and dropping doubles keep what holds of all values.
module _ (P : Bytes → Type 0) where
  All-insert_sorted :
      (v : Bytes) (vs : List Bytes) → P v → All P vs → All P (insert_sorted lt_bytes v vs)
  unfolding insert_sorted
  All-insert_sorted v [] h hs = (h, tt)
  All-insert_sorted v (w ∷ vs) h (g, gs) = elim (Bool-cases (lt_bytes w v)) [
    | inl later ↦ rw later (g, All-insert_sorted v vs h gs)
    | inr here ↦ rw here (h, (g, gs))
  ]

  All-sort : (vs : List Bytes) → All P vs → All P (sort lt_bytes vs)
  unfolding sort
  All-sort [] h = tt
  All-sort (v ∷ vs) (h, hs) = All-insert_sorted v (sort lt_bytes vs) h (All-sort vs hs)

  All-unique_from : (last : Bytes) (vs : List Bytes) → All P vs → All P (unique_from last vs)
  unfolding unique_from
  All-unique_from last [] h = tt
  All-unique_from last (v ∷ vs) (h, hs) = elim (Bool-cases (v == last)) [
    | inl again ↦ rw again (All-unique_from v vs hs)
    | inr other ↦ rw other (h, All-unique_from v vs hs)
  ]

  All-unique : (vs : List Bytes) → All P vs → All P (unique vs)
  unfolding unique
  All-unique [] h = tt
  All-unique (v ∷ vs) (h, hs) = (h, All-unique_from v vs hs)

  pub All-listed :
      (vs : List Bytes)
      → All P (trimmed_values vs)
      → All P (unique (sort lt_bytes (trimmed_values vs)))
  All-listed vs h = All-unique (sort lt_bytes (trimmed_values vs)) (All-sort (trimmed_values vs) h)

split_at-join_parts :
    (v : Bytes) (vs : List Bytes)
    → All IsItem (v ∷ vs)
    → split_at b',' (join_parts (v ∷ vs)) ≡ v ∷ vs
unfolding join_parts
split_at-join_parts v [] (h, hs) = split_at_last b',' v h.no_comma
split_at-join_parts v (w ∷ vs) (h, hs) =
    split_at_piece b',' v (join_parts (w ∷ vs)) h.no_comma
    ∙ ap (λ (r : List Bytes). v ∷ r) (split_at-join_parts w vs hs)

split_csv-join_parts : (vs : List Bytes) → All IsItem vs → split_csv (join_parts vs) ≡ vs
unfolding split_csv trim_copy join_parts
split_csv-join_parts [] h = refl
split_csv-join_parts (v ∷ vs) h = rw (split_at-join_parts v vs h) (trimmed_values-kept (v ∷ vs) h)

-- `values` as `join_csv` writes them
abbrev pub listed : List Bytes → List Bytes
listed values = unique (sort lt_bytes (trimmed_values values))

listed-items : (vs : List Bytes) → All (HasNo b',') vs → All IsItem (listed vs)
listed-items vs h = All-listed IsItem vs (trimmed_values-items vs h)

pub split_csv-join_csv :
    (vs : List Bytes) → All (HasNo b',') vs → split_csv (join_csv vs) ≡ listed vs
unfolding join_csv
split_csv-join_csv vs h = split_csv-join_parts (listed vs) (listed-items vs h)

lt_bytes_asym : (v w : Bytes) → lt_bytes v w ≡ true → lt_bytes w v ≡ false
lt_bytes_asym [] [] h = cc
lt_bytes_asym [] (y ∷ w) h = refl
lt_bytes_asym (x ∷ v) [] h = cc
lt_bytes_asym (x ∷ v) (y ∷ w) h = ground (arith, lt_bytes_asym v w)

-- No value comes before the one in front of it, nor before `last`.
abbrev IsSortedFrom : Bytes → List Bytes → Type 0
IsSortedFrom last [] = Unit
IsSortedFrom last (v ∷ vs) = (lt_bytes v last ≡ false) × IsSortedFrom v vs

abbrev IsSorted : List Bytes → Type 0
IsSorted [] = Unit
IsSorted (v ∷ vs) = IsSortedFrom v vs

insert_sorted-IsSortedFrom :
    (last v : Bytes) (vs : List Bytes)
    → lt_bytes v last ≡ false
    → IsSortedFrom last vs
    → IsSortedFrom last (insert_sorted lt_bytes v vs)
unfolding insert_sorted
insert_sorted-IsSortedFrom last v [] h hs = (h, tt)
insert_sorted-IsSortedFrom last v (w ∷ vs) h (g, gs) = elim (Bool-cases (lt_bytes w v)) [
  | inl later ↦ rw later (g, insert_sorted-IsSortedFrom w v vs (lt_bytes_asym w v later) gs)
  | inr here ↦ rw here (h, (here, gs))
]

insert_sorted-IsSorted :
    (v : Bytes) (vs : List Bytes) → IsSorted vs → IsSorted (insert_sorted lt_bytes v vs)
unfolding insert_sorted
insert_sorted-IsSorted v [] h = tt
insert_sorted-IsSorted v (w ∷ vs) h = elim (Bool-cases (lt_bytes w v)) [
  | inl later ↦ rw later (insert_sorted-IsSortedFrom w v vs (lt_bytes_asym w v later) h)
  | inr here ↦ rw here (here, h)
]

sort-IsSorted : (vs : List Bytes) → IsSorted (sort lt_bytes vs)
unfolding sort
sort-IsSorted [] = tt
sort-IsSorted (v ∷ vs) = insert_sorted-IsSorted v (sort lt_bytes vs) (sort-IsSorted vs)

-- No value comes before the one in front of it or is equal to it.
abbrev IsStrictFrom : Bytes → List Bytes → Type 0
IsStrictFrom last [] = Unit
IsStrictFrom last (v ∷ vs) = (lt_bytes v last ≡ false) × ((v == last) ≡ false) × IsStrictFrom v vs

abbrev IsStrict : List Bytes → Type 0
IsStrict [] = Unit
IsStrict (v ∷ vs) = IsStrictFrom v vs

strict_after :
    (v last : Bytes) (vs : List Bytes) → v ≡ last → IsStrictFrom v vs → IsStrictFrom last vs
strict_after v last vs e h = rw (sym e) h

unique_from-IsStrictFrom :
    (last : Bytes) (vs : List Bytes)
    → IsSortedFrom last vs
    → IsStrictFrom last (unique_from last vs)
unfolding unique_from
unique_from-IsStrictFrom last [] h = tt
unique_from-IsStrictFrom last (v ∷ vs) (h, hs) = elim (Bool-cases (v == last)) [
  | inl again ↦ rw again (
      strict_after v last (unique_from v vs) ((bytes_eq.equals_iff v last).0 again)
        (unique_from-IsStrictFrom v vs hs))
  | inr other ↦ rw other (h, other, unique_from-IsStrictFrom v vs hs)
]

unique-IsStrict : (vs : List Bytes) → IsSorted vs → IsStrict (unique vs)
unfolding unique
unique-IsStrict [] h = tt
unique-IsStrict (v ∷ vs) h = unique_from-IsStrictFrom v vs h

sort-strict :
    (last : Bytes) (vs : List Bytes) → IsStrictFrom last vs → sort lt_bytes (last ∷ vs) ≡ last ∷ vs
unfolding sort insert_sorted
sort-strict last [] h = refl
sort-strict last (v ∷ vs) (h, other, hs) = rw (sort-strict v vs hs, h) refl

unique-strict : (last : Bytes) (vs : List Bytes) → IsStrictFrom last vs → unique_from last vs ≡ vs
unfolding unique_from
unique-strict last [] h = refl
unique-strict last (v ∷ vs) (h, other, hs) =
    rw other (ap (λ (r : List Bytes). v ∷ r) (unique-strict v vs hs))

strict_listed : (vs : List Bytes) → IsStrict vs → unique (sort lt_bytes vs) ≡ vs
unfolding unique
strict_listed [] h = unfold sort in refl
strict_listed (v ∷ vs) h =
    rw (sort-strict v vs h) (ap (λ (r : List Bytes). v ∷ r) (unique-strict v vs h))

listed_twice : (vs : List Bytes) → All (HasNo b',') vs → listed (listed vs) ≡ listed vs
listed_twice vs h = rw (trimmed_values-kept (listed vs) (listed-items vs h)) (
    strict_listed (listed vs)
      (unique-IsStrict (sort lt_bytes (trimmed_values vs)) (sort-IsSorted (trimmed_values vs))))

items-no_comma : (vs : List Bytes) → All IsItem vs → All (HasNo b',') vs
items-no_comma [] h = tt
items-no_comma (v ∷ vs) (h, hs) = (h.no_comma, items-no_comma vs hs)

contains-insert_sorted :
    (a v : Bytes) (vs : List Bytes)
    → contains a (insert_sorted lt_bytes v vs) ≡ (v == a || contains a vs)
unfolding insert_sorted
contains-insert_sorted a v [] = refl
contains-insert_sorted a v (w ∷ vs) = ground (arith, contains-insert_sorted a v vs)

contains-sort : (a : Bytes) (vs : List Bytes) → contains a (sort lt_bytes vs) ≡ contains a vs
unfolding sort
contains-sort a [] = refl
contains-sort a (v ∷ vs) =
    contains-insert_sorted a v (sort lt_bytes vs) ∙ rw (contains-sort a vs) refl

contains-unique_from :
    (a last : Bytes) (vs : List Bytes)
    → (last == a || contains a (unique_from last vs)) ≡ (last == a || contains a vs)
unfolding unique_from
contains-unique_from a last [] = refl
contains-unique_from a last (v ∷ vs) =
    ground (arith, contains-unique_from a v vs, bytes_eq.equals_iff v last)

contains-unique : (a : Bytes) (vs : List Bytes) → contains a (unique vs) ≡ contains a vs
unfolding unique
contains-unique a [] = refl
contains-unique a (v ∷ vs) = contains-unique_from a v vs

-- For values without commas: what `join_csv` writes is read by `split_csv` as a list with the same members, less
-- the spaces around them and the empty ones, and this list stays as it is when it is written and read again.
pub split_csv-join_csv_twice :
    (vs : List Bytes) (a : Bytes)
    → All (HasNo b',') vs
    → let read = split_csv (join_csv vs) in
      (contains a read ≡ contains a (trimmed_values vs)) × (split_csv (join_csv read) ≡ read)
split_csv-join_csv_twice vs a h = rw (split_csv-join_csv vs h) (
  contains-unique a (sort lt_bytes (trimmed_values vs)) ∙ contains-sort a (trimmed_values vs),
  split_csv-join_csv (listed vs) (items-no_comma (listed vs) (listed-items vs h))
      ∙ listed_twice vs h,
)
