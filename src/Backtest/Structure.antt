-- ===== src/Backtest/Structure.antt =====
-- What the backtest's count of misplaced events means (src/core/storage/store.cpp).
use got_soup.Prelude.{
  ℕ, ◌+◌, ◌≤◌, Bytes, true, List, [], ◌∷◌, ◌≡◌, ◌↔◌, refl, if◌then◌else◌, bytes_eq, arith, All,
  contains, count,
}
use got_soup.Model.{EventEnvelope}
use got_soup.Chain.{Block}
use got_soup.Timeline.{assigned_ids}
use got_soup.Timeline.Assign.{times}
use got_soup.Hashing.{has_event, id_issues, unassigned_issues}
use got_soup.Backtest.{structure_issues}

-- 1 for an id that was seen
abbrev one_if_in : Bytes → List Bytes → ℕ
one_if_in i seen = if contains i seen then 1 else 0

no_id_issues :
    (events : List EventEnvelope) (seen ids : List Bytes)
    → id_issues events seen ids ≡ 0
    → All (λ i. has_event events i ≡ true) ids × ((i : Bytes) → count i ids + one_if_in i seen ≤ 1)
unfolding id_issues
no_id_issues events seen [] h = (tt, λ i. ground arith)
no_id_issues events seen (j ∷ ids) h =
    let (known, once) = no_id_issues events (j ∷ seen) ids (ground arith) in
    ((ground arith, known), λ i. ground (arith, once i, bytes_eq.equals_iff j i))

id_issues_none :
    (events : List EventEnvelope) (seen ids : List Bytes)
    → All (λ i. has_event events i ≡ true) ids
    → ((i : Bytes) → count i ids + one_if_in i seen ≤ 1)
    → id_issues events seen ids ≡ 0
unfolding id_issues
id_issues_none events seen [] known once = refl
id_issues_none events seen (j ∷ ids) (k, known) once =
    let rest : id_issues events (j ∷ seen) ids ≡ 0 =
      id_issues_none events (j ∷ seen) ids known
        (λ i. ground (arith, once i, bytes_eq.equals_iff j i)) in
    ground (arith, once j, bytes_eq.equals_iff j j, k, rest)

no_unassigned :
    (ids : List Bytes) (es : List EventEnvelope)
    → unassigned_issues ids es ≡ 0
    → All (λ (e : EventEnvelope). 1 ≤ count e.event_id ids) es
unfolding unassigned_issues
no_unassigned ids [] h = tt
no_unassigned ids (e ∷ es) h =
    (contains-once e.event_id ids (ground arith), no_unassigned ids es (ground arith))
  where
    contains-once : (i : Bytes) (ids : List Bytes) → contains i ids ≡ true → 1 ≤ count i ids
    contains-once i [] h = cc
    contains-once i (x ∷ ids) h = ground (arith, contains-once i ids)

contains-counted : (i : Bytes) (ids : List Bytes) → 1 ≤ count i ids → contains i ids ≡ true
contains-counted i [] h = absurd (omega arith)
contains-counted i (x ∷ ids) h = ground (arith, contains-counted i ids)

unassigned_none :
    (ids : List Bytes) (es : List EventEnvelope)
    → All (λ (e : EventEnvelope). count e.event_id ids ≡ 1) es
    → unassigned_issues ids es ≡ 0
unfolding unassigned_issues
unassigned_none ids [] h = refl
unassigned_none ids (e ∷ es) (h, hs) =
    ground (arith, contains-counted e.event_id ids (omega arith), unassigned_none ids es hs)

exactly_one :
    (ids : List Bytes) (es : List EventEnvelope)
    → ((i : Bytes) → count i ids + one_if_in i [] ≤ 1)
    → All (λ (e : EventEnvelope). 1 ≤ count e.event_id ids) es
    → All (λ (e : EventEnvelope). count e.event_id ids ≡ 1) es
exactly_one ids [] once h = tt
exactly_one ids (e ∷ es) once (h, hs) = (omega (arith, once e.event_id), exactly_one ids es once hs)

-- What it means that the blocks have the log's events, each once.
pub record IsPlacement (events : List EventEnvelope) (blocks : List Block) : Type 0 where
  pub known : All (λ i. has_event events i ≡ true) (assigned_ids blocks)
  pub unique : (i : Bytes) → times i blocks ≤ 1
  pub every_once : All (λ (e : EventEnvelope). times e.event_id blocks ≡ 1) events

-- The backtest counts no issue of a missing, doubled or unassigned event just where every id in a block is that
-- of an event of the log, none stands in the blocks twice, and every event of the log stands there once.
pub structure_issues_iff :
    (events : List EventEnvelope) (blocks : List Block)
    → (structure_issues events blocks ≡ 0) ↔ IsPlacement events blocks
unfolding structure_issues
structure_issues_iff events blocks = (
  λ h.
      let (known, once) = no_id_issues events [] (assigned_ids blocks) (omega (arith, h)) in
      record {
        known = known;
        unique = λ i. omega (arith, once i);
        every_once =
            exactly_one (assigned_ids blocks) events once
              (no_unassigned (assigned_ids blocks) events (omega (arith, h)));
      },
  λ placed.
      let ids_good : id_issues events [] (assigned_ids blocks) ≡ 0 =
        id_issues_none events [] (assigned_ids blocks) placed.known
          (λ i. omega (arith, placed.unique i)) in
      omega (arith, ids_good, unassigned_none (assigned_ids blocks) events placed.every_once),
)
