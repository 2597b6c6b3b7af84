-- ===== src/ReplayOrder/Determined.antt =====
-- The replay order and the order of arrival (src/core/storage/store.cpp).
use mathlib.Core.List.{Perm}
use mathlib.Core.Logic.{∥∥₁_elim}
use native.Mathlib.Decide.{ℕ_discrete}
use mathlib.Core.HLevel.{hedberg}
use got_soup.Prelude.{
  ℕ, ◌≤◌, Bytes, true, false, List, [], ◌∷◌, map, ◌≡◌, refl, arith, lt_bytes, nat_eq, bytes_eq,
  count,
}
use got_soup.Prelude.Int.{ℤ, pos}
use got_soup.Prelude.Dict.{Dict}
use got_soup.Prelude.Sort.Unique.{IsKeyOrder, sort-permᴰ}
use got_soup.Model.{EventKind, EventEnvelope}
use got_soup.ReplayOrder.{block_index_for, economic_priority, before_by, before, ordered_events}

lt_bytes_asym : (a b : Bytes) → lt_bytes a b ≡ true → lt_bytes b a ≡ false
lt_bytes_asym [] [] h = refl
lt_bytes_asym [] (y ∷ b) h = refl
lt_bytes_asym (x ∷ a) [] h = cc
lt_bytes_asym (x ∷ a) (y ∷ b) h = ground (arith, lt_bytes_asym a b)

lt_bytes_trans : (a b c : Bytes) → lt_bytes a b ≡ true → lt_bytes b c ≡ true → lt_bytes a c ≡ true
lt_bytes_trans a b [] h k = cc
lt_bytes_trans a [] (z ∷ c) h k = cc
lt_bytes_trans [] (y ∷ b) (z ∷ c) h k = refl
lt_bytes_trans (x ∷ a) (y ∷ b) (z ∷ c) h k = ground (arith, lt_bytes_trans a b c)

lt_bytes_total : (a b : Bytes) → lt_bytes a b ≡ false → lt_bytes b a ≡ false → a ≡ b
lt_bytes_total [] [] h k = refl
lt_bytes_total [] (y ∷ b) h k = cc
lt_bytes_total (x ∷ a) [] h k = cc
lt_bytes_total (x ∷ a) (y ∷ b) h k = ground (arith, lt_bytes_total a b)

abbrev id_of : EventEnvelope → Bytes
id_of e = e.event_id

-- The comparator, on any values: lexicographic in block, time, priority and id.
module _ (b₁ b₂ b₃ : ℕ) (t₁ t₂ t₃ : ℤ) (p₁ p₂ p₃ : ℕ) (i₁ i₂ i₃ : Bytes) where
  before_by_asym :
      before_by b₁ b₂ t₁ t₂ p₁ p₂ i₁ i₂ ≡ true → before_by b₂ b₁ t₂ t₁ p₂ p₁ i₂ i₁ ≡ false
  before_by_asym h = ground (arith, lt_bytes_asym i₁ i₂)

  before_by_trans :
      before_by b₁ b₂ t₁ t₂ p₁ p₂ i₁ i₂ ≡ true
      → before_by b₂ b₃ t₂ t₃ p₂ p₃ i₂ i₃ ≡ true
      → before_by b₁ b₃ t₁ t₃ p₁ p₃ i₁ i₃ ≡ true
  before_by_trans h k = ground (arith, lt_bytes_trans i₁ i₂ i₃)

  before_by_total :
      before_by b₁ b₂ t₁ t₂ p₁ p₂ i₁ i₂ ≡ false
      → before_by b₂ b₁ t₂ t₁ p₂ p₁ i₂ i₁ ≡ false
      → i₁ ≡ i₂
  before_by_total h k = ground (arith, lt_bytes_total i₁ i₂)

module _ (m : Dict Bytes ℕ) where
  before-IsKeyOrder : IsKeyOrder (before m) id_of
  unfolding before
  before-IsKeyOrder = record {
    asym = λ x y h.
        before_by_asym (block_of x) (block_of y) 0 x.unix_ts y.unix_ts (pos 0) (priority x)
          (priority y) 0 x.event_id y.event_id [] h;
    trans = λ x y z h k.
        before_by_trans (block_of x) (block_of y) (block_of z) x.unix_ts y.unix_ts z.unix_ts
          (priority x) (priority y) (priority z) x.event_id y.event_id z.event_id h k;
    total = λ x y h k.
        before_by_total (block_of x) (block_of y) 0 x.unix_ts y.unix_ts (pos 0) (priority x)
          (priority y) 0 x.event_id y.event_id [] h k;
  }
    where
      block_of : EventEnvelope → ℕ
      block_of x = block_index_for m x.event_id

      priority : EventEnvelope → ℕ
      priority x = economic_priority x.kind

-- No two events have the same id, as `append_event` sees to.
abbrev pub UniqueIds : List EventEnvelope → Type 0
UniqueIds es = (i : Bytes) → count i (map id_of es) ≤ 1

ℤ-discrete : Discrete ℤ
ℤ-discrete = hlevel ℕ_discrete

EventKind-discrete : Discrete EventKind
EventKind-discrete = hlevel

EventEnvelope-discrete : Discrete EventEnvelope
EventEnvelope-discrete = hlevel (ℕ_discrete, ℤ-discrete, EventKind-discrete)

events-set : IsSet (List EventEnvelope)
events-set = hedberg (hlevel EventEnvelope-discrete)

-- For events with unique ids, under one assignment to blocks, the replay order is the same whatever
-- the order of arrival.
pub ordered_events_determined :
    (m : Dict Bytes ℕ) (es es' : List EventEnvelope)
    → UniqueIds es
    → Perm es es'
    → ordered_events m es ≡ ordered_events m es'
unfolding ordered_events
ordered_events_determined m es es' u p =
    ∥∥₁_elim p (events-set _ _) (λ d. sort-permᴰ (before-IsKeyOrder m) d u)
