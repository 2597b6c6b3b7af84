-- ===== src/Timeline/Assigned.antt =====
-- The timeline after `assign_unassigned_events_to_blocks` (src/core/storage/store.cpp).
use got_soup.Prelude.{
  ◌≤◌, Bytes, ◌&&◌, not, List, [], ◌∷◌, ◌≡◌, refl, ◌∙◌, All, arith, Bool-cases, inl, inr, is_empty,
  bytes_eq,
}
use got_soup.Prelude.Int.{ℤ}
use got_soup.Model.{EventEnvelope}
use got_soup.Chain.{Block}
use got_soup.Timeline.{
  Settings, Timeline, assigned_ids, assign_from, assign_in, assign_unassigned_events_to_blocks,
  ensure_genesis_block, ensure_genesis_in, stamp_genesis, genesis_block,
}
use got_soup.Timeline.Assign.{
  times, confirmed_contents, IsWithin, assign_from-Assigns, Tracks-start,
}

stamp_genesis-times :
    (psz : Bytes) (bs : List Block) (i : Bytes) → times i (stamp_genesis psz bs) ≡ times i bs
unfolding stamp_genesis assigned_ids
stamp_genesis-times psz [] i = refl
stamp_genesis-times psz (b ∷ bs) i =
    elim (Bool-cases (is_empty b.psz_timestamp && not (is_empty psz))) [
      | inl h ↦ rw h
      | inr h ↦ rw h
    ]

stamp_genesis-confirmed :
    (psz : Bytes) (bs : List Block)
    → confirmed_contents (stamp_genesis psz bs) ≡ confirmed_contents bs
unfolding stamp_genesis
stamp_genesis-confirmed psz [] = refl
stamp_genesis-confirmed psz (b ∷ bs) =
    elim (Bool-cases (is_empty b.psz_timestamp && not (is_empty psz))) [
      | inl h ↦ rw h
      | inr h ↦ rw h
    ]

stamp_genesis-IsWithin :
    (s : Settings) (psz : Bytes) (bs : List Block)
    → All (IsWithin s) bs
    → All (IsWithin s) (stamp_genesis psz bs)
unfolding stamp_genesis
stamp_genesis-IsWithin s psz [] h = h
stamp_genesis-IsWithin s psz (b ∷ bs) (h, hs) =
    elim (Bool-cases (is_empty b.psz_timestamp && not (is_empty psz))) [
      | inl e ↦ rw e (h, hs)
      | inr e ↦ rw e (h, hs)
    ]

-- what `ensure_genesis_block` keeps
pub record SameContents (s : Settings) (bs bs' : List Block) : Type 0 where
  pub same_times : (i : Bytes) → times i bs' ≡ times i bs
  pub same_confirmed : confirmed_contents bs' ≡ confirmed_contents bs
  pub within : All (IsWithin s) bs → All (IsWithin s) bs'

pub ensure_genesis_in-SameContents :
    (s : Settings) (now : ℤ) (bs : List Block) (t : Timeline)
    → SameContents s bs (ensure_genesis_in s now bs t).blocks
unfolding ensure_genesis_in
ensure_genesis_in-SameContents s now [] t = record {
  same_times = λ i. unfold genesis_block assigned_ids in refl;
  same_confirmed = unfold genesis_block in refl;
  within = λ h. unfold genesis_block in (omega arith, tt);
}
ensure_genesis_in-SameContents s now (b ∷ bs) t = record {
  same_times = stamp_genesis-times t.genesis_psz_timestamp (b ∷ bs);
  same_confirmed = stamp_genesis-confirmed t.genesis_psz_timestamp (b ∷ bs);
  within = stamp_genesis-IsWithin s t.genesis_psz_timestamp (b ∷ bs);
}

pub events-ensure_genesis_in :
    (s : Settings) (now : ℤ) (bs : List Block) (t : Timeline)
    → (ensure_genesis_in s now bs t).events ≡ t.events
unfolding ensure_genesis_in
events-ensure_genesis_in s now [] t = refl
events-ensure_genesis_in s now (b ∷ bs) t = refl

-- What the assignment promises of the timeline that it leaves.
pub record IsAssigned (s : Settings) (t t' : Timeline) : Type 0 where
  pub same_events : t'.events ≡ t.events
  pub every_once : All (λ (e : EventEnvelope). times e.event_id t'.blocks ≡ 1) t.events
  pub unique : (i : Bytes) → times i t'.blocks ≤ 1
  pub kept : (i : Bytes) → times i t.blocks ≤ times i t'.blocks
  pub confirmed_same : confirmed_contents t'.blocks ≡ confirmed_contents t.blocks
  pub limited : All (IsWithin s) t.blocks → All (IsWithin s) t'.blocks

exactly_once :
    (es : List EventEnvelope) (bs : List Block)
    → ((i : Bytes) → times i bs ≤ 1)
    → All (λ (e : EventEnvelope). 1 ≤ times e.event_id bs) es
    → All (λ (e : EventEnvelope). times e.event_id bs ≡ 1) es
exactly_once [] bs u h = tt
exactly_once (e ∷ es) bs u (h, hs) = (omega (arith, u e.event_id), exactly_once es bs u hs)

module _ (s : Settings) (t : Timeline) (u : (i : Bytes) → times i t.blocks ≤ 1) where
  IsAssigned-after :
      (now : ℤ)
      → let t' = ensure_genesis_block s now t in
        IsAssigned s t (record t' {
          blocks = assign_from s t.events (assigned_ids t'.blocks) t.events t'.blocks;
        })
  unfolding ensure_genesis_block
  IsAssigned-after now =
      let same = ensure_genesis_in-SameContents s now t.blocks t in
      let bs = (ensure_genesis_in s now t.blocks t).blocks in
      let bs' = assign_from s t.events (assigned_ids bs) t.events bs in
      let a = assign_from-Assigns s t.events t.events (assigned_ids bs) bs (Tracks-start bs) in
      let unique : (i : Bytes) → times i bs' ≤ 1 = λ i. a.once i (rw (same.same_times i) (u i)) in
      record {
        same_events = events-ensure_genesis_in s now t.blocks t;
        every_once = exactly_once t.events bs' unique a.every;
        unique = unique;
        kept = λ i. rw (← same.same_times i) (a.kept i);
        confirmed_same = a.confirmed_same ∙ same.same_confirmed;
        limited = λ h. a.limited (same.within h);
      }

-- Whatever the timeline, as long as no id stands in its blocks twice: afterwards every event stands in
-- the blocks exactly once, still no id does so twice, and no id was taken out; the confirmed blocks
-- have the events that they had, and if no block had more events than the limit, or than 1 where the
-- limit is 0, none does.
pub assign_unassigned_events_to_blocks-IsAssigned :
    (s : Settings) (t : Timeline)
    → ((i : Bytes) → times i t.blocks ≤ 1)
    → IsAssigned s t (assign_unassigned_events_to_blocks s t)
unfolding assign_unassigned_events_to_blocks
assign_unassigned_events_to_blocks-IsAssigned s t u = by_events t.events refl
  where
    by_events : (es : List EventEnvelope) → t.events ≡ es → IsAssigned s t (assign_in s es t)
    by_events [] e = record {
      same_events = refl;
      every_once = rw e tt;
      unique = u;
      kept = λ i. omega arith;
      confirmed_same = refl;
      limited = λ h. h;
    }
    by_events (e ∷ es) q =
        unfold assign_in in
        (let a = IsAssigned-after s t u e.unix_ts in
          record {
            same_events = a.same_events;
            every_once = a.every_once;
            unique = a.unique;
            kept = a.kept;
            confirmed_same = a.confirmed_same;
            limited = a.limited;
          })
