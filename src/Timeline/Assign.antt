-- ===== src/Timeline/Assign.antt =====
-- The steps of `assign_unassigned_events_to_blocks` (src/core/storage/store.cpp).
use got_soup.Prelude.{
  ℕ, ◌+◌, ◌≤◌, Bytes, Bool, true, false, List, [], ◌∷◌, ◌++◌, leb, ◌==◌, if◌then◌else◌, bytes_eq,
  ◌≡◌, refl, ◌∙◌, some, length, length-append, contains, count, count-append, All, max, arith,
  Bool-cases, Option-cases, inl, inr,
}
use got_soup.Prelude.Int.{ℤ}
use got_soup.Model.{EventEnvelope}
use got_soup.Chain.{Block}
use got_soup.Timeline.{
  Settings, has_room, fill_slot, fill_first, fresh_slot, appended_index, place_event, assigned_ids,
  assign_from,
}

-- How many times an id stands in the blocks.
abbrev pub times : Bytes → List Block → ℕ
times i bs = count i (assigned_ids bs)

abbrev one_if : Bool → ℕ
one_if true = 1
one_if false = 0

-- The indices of the confirmed blocks, and the events in them.
abbrev pub confirmed_contents : List Block → List (ℕ × List Bytes)
confirmed_contents [] = []
confirmed_contents (b ∷ bs) =
    if b.confirmed then (b.index, b.event_ids) ∷ confirmed_contents bs else confirmed_contents bs

abbrev pub IsWithin : Settings → Block → Type 0
IsWithin s b = length b.event_ids ≤ max 1 s.max_block_events

pub times-append : (i : Bytes) (bs cs : List Block) → times i (bs ++ cs) ≡ times i bs + times i cs
unfolding assigned_ids
times-append i [] cs = omega arith
times-append i (b ∷ bs) cs =
    rw
      (
        count-append i b.event_ids (assigned_ids (bs ++ cs)),
        count-append i b.event_ids (assigned_ids bs),
      )
      (omega (arith, times-append i bs cs))

module _ (s : Settings) (events : List EventEnvelope) (e : EventEnvelope) where
  times-fill_slot :
      (i : Bytes) (b : Block) (bs : List Block)
      → times i (fill_slot e.event_id b ∷ bs) ≡ times i (b ∷ bs) + one_if (e.event_id == i)
  unfolding fill_slot assigned_ids
  times-fill_slot i b bs =
      rw
        (
          count-append i (b.event_ids ++ e.event_id ∷ []) (assigned_ids bs),
          count-append i b.event_ids (e.event_id ∷ []),
          count-append i b.event_ids (assigned_ids bs),
        )
        (ground arith)

  -- The event goes to a block with room, or to a new block behind all others.
  data Placed : List Block → List Block → Type 0 where
    here :
        (b : Block) {bs : List Block}
        → has_room s events e b ≡ true
        → Placed (b ∷ bs) (fill_slot e.event_id b ∷ bs)
    later : (b : Block) {bs bs' : List Block} → Placed bs bs' → Placed (b ∷ bs) (b ∷ bs')
    at_end : (i : ℕ) (o : ℤ) → Placed [] (fill_slot e.event_id (fresh_slot i o) ∷ [])

  as_found : {bs cs bs' : List Block} → some cs ≡ some bs' → Placed bs cs → Placed bs bs'
  as_found {bs} {cs} {bs'} h p = let same : cs ≡ bs' = cc in rw (← same) p

  fill_first-Placed : (bs bs' : List Block) → fill_first s events e bs ≡ some bs' → Placed bs bs'
  unfolding fill_first
  fill_first-Placed [] bs' h = cc
  fill_first-Placed (b ∷ bs) bs' h = elim (Bool-cases (has_room s events e b)) [
    | inl room ↦ as_found (rw (room, fill_first) at h) (here b room)
    | inr full ↦ elim (Option-cases (fill_first s events e bs)) [
      | inl none_left ↦ cc (rw (full, none_left, fill_first) at h)
      | inr (cs, found) ↦
          as_found (rw (full, found, fill_first) at h) (later b (fill_first-Placed bs cs found))
    ]
  ]

  Placed-append :
      (bs : List Block) (i : ℕ) (o : ℤ)
      → Placed bs (bs ++ fill_slot e.event_id (fresh_slot i o) ∷ [])
  Placed-append [] i o = at_end i o
  Placed-append (b ∷ bs) i o = later b (Placed-append bs i o)

  place_event-Placed : (bs : List Block) → Placed bs (place_event s events e bs)
  unfolding place_event
  place_event-Placed bs = elim (Option-cases (fill_first s events e bs)) [
    | inl nowhere ↦ rw (nowhere, place_event) (Placed-append bs (appended_index bs) e.unix_ts)
    | inr (cs, found) ↦ rw (found, place_event) (fill_first-Placed bs cs found)
  ]

  times-Placed :
      (i : Bytes) {bs bs' : List Block}
      → Placed bs bs'
      → times i bs' ≡ times i bs + one_if (e.event_id == i)
  unfolding assigned_ids
  times-Placed i (here b {bs} room) = times-fill_slot i b bs
  times-Placed i (later b {bs} {bs'} p) =
      rw
        (
          count-append i b.event_ids (assigned_ids bs'),
          count-append i b.event_ids (assigned_ids bs),
        )
        (omega (arith, times-Placed i p))
  times-Placed i (at_end n o) = times-fill_slot i (fresh_slot n o) []

  room_open :
      (b : Block)
      → has_room s events e b ≡ true
      → (b.confirmed ≡ false) × (length b.event_ids + 1 ≤ s.max_block_events)
  unfolding has_room
  room_open b h = ground arith

  confirmed-Placed :
      {bs bs' : List Block} → Placed bs bs' → confirmed_contents bs' ≡ confirmed_contents bs
  unfolding fill_slot
  confirmed-Placed (here b room) = rw ((room_open b room).0)
  confirmed-Placed (later b p) = ground (arith, confirmed-Placed p)
  confirmed-Placed (at_end n o) = refl

  limit-Placed : {bs bs' : List Block} → Placed bs bs' → All (IsWithin s) bs → All (IsWithin s) bs'
  unfolding fill_slot
  limit-Placed (here b room) (h, hs) = (rw length-append (omega (arith, (room_open b room).1)), hs)
  limit-Placed (later b p) (h, hs) = (h, limit-Placed p hs)
  limit-Placed (at_end n o) h = (omega arith, tt)

-- `assigned` and the blocks hold the same ids.
abbrev pub Tracks : List Bytes → List Block → Type 0
Tracks assigned bs = (i : Bytes) → contains i assigned ≡ leb 1 (times i bs)

pub Tracks-start : (bs : List Block) → Tracks (assigned_ids bs) bs
Tracks-start bs i = contains-count i (assigned_ids bs)
  where
    contains-count : (i : Bytes) (l : List Bytes) → contains i l ≡ leb 1 (count i l)
    contains-count i [] = refl
    contains-count i (x ∷ l) = ground (arith, contains-count i l)

-- What the assignment has done to the blocks `bs`, when it is through with the events `es`.
pub record Assigns (s : Settings) (es : List EventEnvelope) (bs bs' : List Block) : Type 0 where
  pub kept : (i : Bytes) → times i bs ≤ times i bs'
  pub once : (i : Bytes) → times i bs ≤ 1 → times i bs' ≤ 1
  pub every : All (λ (e : EventEnvelope). 1 ≤ times e.event_id bs') es
  pub confirmed_same : confirmed_contents bs' ≡ confirmed_contents bs
  pub limited : All (IsWithin s) bs → All (IsWithin s) bs'

module _ (s : Settings) (events : List EventEnvelope) where
  Assigns-skip :
      (e : EventEnvelope) (es : List EventEnvelope) (bs bs' : List Block)
      → 1 ≤ times e.event_id bs
      → Assigns s es bs bs'
      → Assigns s (e ∷ es) bs bs'
  Assigns-skip e es bs bs' h a = record {
    kept = a.kept;
    once = a.once;
    every = (omega (arith, a.kept e.event_id), a.every);
    confirmed_same = a.confirmed_same;
    limited = a.limited;
  }

  Assigns-place :
      (e : EventEnvelope) (es : List EventEnvelope) (bs cs bs' : List Block)
      → times e.event_id bs ≡ 0
      → Placed s events e bs cs
      → Assigns s es cs bs'
      → Assigns s (e ∷ es) bs bs'
  Assigns-place e es bs cs bs' new p a = record {
    kept = λ i. omega (arith, a.kept i, times-Placed s events e i p);
    once = λ i h.
        a.once i
          (ground (arith, h, times-Placed s events e i p, bytes_eq.equals_iff e.event_id i, new));
    every = (
      ground (
        arith,
        a.kept e.event_id,
        times-Placed s events e e.event_id p,
        bytes_eq.equals_iff e.event_id e.event_id,
      ),
      a.every,
    );
    confirmed_same = a.confirmed_same ∙ confirmed-Placed s events e p;
    limited = λ h. a.limited (limit-Placed s events e p h);
  }

  Tracks-place :
      (e : EventEnvelope) (assigned : List Bytes) (bs cs : List Block)
      → Placed s events e bs cs
      → Tracks assigned bs
      → Tracks (e.event_id ∷ assigned) cs
  Tracks-place e assigned bs cs p t i = ground (arith, t i, times-Placed s events e i p)

  pub assign_from-Assigns :
      (es : List EventEnvelope) (assigned : List Bytes) (bs : List Block)
      → Tracks assigned bs
      → Assigns s es bs (assign_from s events assigned es bs)
  unfolding assign_from
  assign_from-Assigns [] assigned bs t = record {
    kept = λ i. omega arith;
    once = λ i h. h;
    every = tt;
    confirmed_same = refl;
    limited = λ h. h;
  }
  assign_from-Assigns (e ∷ es) assigned bs t = elim (Bool-cases (contains e.event_id assigned)) [
    | inl old ↦
        rw (old, assign_from)
          (Assigns-skip e es bs (assign_from s events assigned es bs) (ground (arith, t e.event_id))
            (assign_from-Assigns es assigned bs t))
    | inr new ↦
        rw (new, assign_from)
          (let p = place_event-Placed s events e bs in
            Assigns-place e es bs (place_event s events e bs)
              (assign_from s events (e.event_id ∷ assigned) es (place_event s events e bs))
              (ground (arith, t e.event_id)) p
              (assign_from-Assigns es (e.event_id ∷ assigned) (place_event s events e bs)
                (Tracks-place e assigned bs (place_event s events e bs) p t)))
  ]
