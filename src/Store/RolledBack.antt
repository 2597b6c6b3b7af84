-- ===== src/Store/RolledBack.antt =====
-- What a rollback leaves (src/core/storage/store.cpp).
use got_soup.Prelude.{
  ℕ, ◌≤◌, Bytes, Bool, true, false, List, [], ◌∷◌, ◌≡◌, refl, ◌∙◌, sym, if◌then◌else◌, not, ltb,
  arith, All, Bool-cases, inl, inr, subst, contains, count, count-append, bytes_eq,
}
use got_soup.Prelude.Int.{ℤ}
use got_soup.Prelude.Dict.{Dict}
use got_soup.Model.{EventEnvelope, Outcome, success}
use got_soup.Chain.{Block}
use got_soup.Timeline.{Timeline, Settings, ensure_genesis_block, assigned_ids}
use got_soup.Timeline.Assign.{times}
use got_soup.Timeline.Assigned.{ensure_genesis_in-SameContents}
use got_soup.Hashing.{recompute_block_hashes, rehash, rehash_from, stamped, psz_after}
use got_soup.Hashing.Intact.{chain_issues-recompute_block_hashes}
use got_soup.Store.{Disk, Store, materialize_views, persist_rest}
use got_soup.Store.Accepted.{All-implied, events-recompute_block_hashes}
use got_soup.Store.Contents.{times-recompute_block_hashes}
use got_soup.Store.Routine.{IsIntact, timeline-persist_rest}
use got_soup.Store.Rollback.{
  checkpoint_index, retained, or_genesis, retained_events, cut, rolled_back,
  rollback_to_last_checkpoint,
}

times-retained :
    (i : Bytes) (index : ℕ) (bs : List Block) → times i (retained index bs) ≤ times i bs
unfolding retained assigned_ids
times-retained i index [] = omega arith
times-retained i index (b ∷ bs) = elim (Bool-cases (ltb index b.index)) [
  | inl above ↦
      rw (above, count-append i b.event_ids (assigned_ids bs))
        (omega (arith, times-retained i index bs))
  | inr below ↦
      rw
        (
          below,
          count-append i b.event_ids (assigned_ids bs),
          count-append i b.event_ids (assigned_ids (retained index bs)),
        )
        (omega (arith, times-retained i index bs))
]

times-or_genesis :
    (i : Bytes) (now : ℤ) (psz : Bytes) (bs : List Block)
    → times i (or_genesis now psz bs) ≡ times i bs
unfolding or_genesis assigned_ids
times-or_genesis i now psz [] = refl
times-or_genesis i now psz (b ∷ bs) = refl

contains-count : (i : Bytes) (ids : List Bytes) → contains i ids ≡ true → 1 ≤ count i ids
contains-count i [] h = cc
contains-count i (x ∷ ids) h = ground (arith, contains-count i ids)

once-retained :
    (bs : List Block) (es : List EventEnvelope)
    → ((i : Bytes) → times i bs ≤ 1)
    → All (λ (e : EventEnvelope). times e.event_id bs ≡ 1) (retained_events (assigned_ids bs) es)
unfolding retained_events
once-retained bs [] u = tt
once-retained bs (e ∷ es) u = elim (Bool-cases (contains e.event_id (assigned_ids bs))) [
  | inl kept ↦ rw kept (
    omega (arith, u e.event_id, contains-count e.event_id (assigned_ids bs) kept),
    once-retained bs es u,
  )
  | inr gone ↦ rw gone (once-retained bs es u)
]

below-retained :
    (index : ℕ) (bs : List Block) → All (λ (b : Block). b.index ≤ index) (retained index bs)
unfolding retained
below-retained index [] = tt
below-retained index (b ∷ bs) = elim (Bool-cases (ltb index b.index)) [
  | inl above ↦ rw above (below-retained index bs)
  | inr below ↦ rw below (ground arith, below-retained index bs)
]

below-or_genesis :
    (index : ℕ) (now : ℤ) (psz : Bytes) (bs : List Block)
    → All (λ (b : Block). b.index ≤ index) bs
    → All (λ (b : Block). b.index ≤ index) (or_genesis now psz bs)
unfolding or_genesis
below-or_genesis index now psz [] h = (omega arith, tt)
below-or_genesis index now psz (b ∷ bs) h = h

below-rehash_from :
    (index : ℕ) (s : Settings) (hashes : Dict Bytes Bytes) (prev psz : Bytes) (bs : List Block)
    → All (λ (b : Block). b.index ≤ index) bs
    → All (λ (b : Block). b.index ≤ index) (rehash_from s hashes prev psz bs).0
unfolding rehash_from
below-rehash_from index s hashes prev psz [] h = tt
below-rehash_from index s hashes prev psz (b ∷ bs) (h, hs) =
    let psz' = psz_after s b psz in
    let b' = rehash s hashes prev (stamped b psz') in
    (
      subst (λ i. i ≤ index) (sym (same_index b psz')) h,
      below-rehash_from index s hashes b'.block_hash psz' bs hs,
    )
  where
    same_index : (b : Block) (psz : Bytes) → (rehash s hashes prev (stamped b psz)).index ≡ b.index
    same_index b psz = unfold rehash in unfold stamped in ground arith

module _ (now : ℤ) (s : Store) (u : (i : Bytes) → times i s.timeline.blocks ≤ 1) where
  abbrev started : Timeline
  started = ensure_genesis_block s.settings now s.timeline

  abbrev last_index : ℕ
  last_index = checkpoint_index s.chain_policy started.blocks

  abbrev left : List Block
  left = retained last_index started.blocks

  unique-left : (i : Bytes) → times i left ≤ 1
  unfolding ensure_genesis_block
  unique-left i = omega (
    arith,
    times-retained i last_index started.blocks,
    (ensure_genesis_in-SameContents s.settings now s.timeline.blocks s.timeline).same_times i,
    u i,
  )

  times-rolled_back : (i : Bytes) → times i (rolled_back now s).timeline.blocks ≡ times i left
  unfolding rolled_back cut
  times-rolled_back i =
      times-recompute_block_hashes i s.settings (cut now last_index started)
      ∙ times-or_genesis i now started.genesis_psz_timestamp left

  events-rolled_back :
      (rolled_back now s).timeline.events ≡ retained_events (assigned_ids left) started.events
  unfolding rolled_back cut
  events-rolled_back = events-recompute_block_hashes s (cut now last_index started)

  rolled_back-IsIntact : IsIntact s (rolled_back now s).timeline
  rolled_back-IsIntact = record {
    every_once =
        subst
          (All (λ (e : EventEnvelope). times e.event_id (rolled_back now s).timeline.blocks ≡ 1))
          (sym events-rolled_back)
          (All-implied (λ e h. times-rolled_back e.event_id ∙ h)
            (retained_events (assigned_ids left) started.events)
            (once-retained left started.events unique-left));
    unique = λ i. rw (times-rolled_back i) (unique-left i);
    hashed =
        unfold rolled_back in
        chain_issues-recompute_block_hashes s.settings (cut now last_index started);
  }

  below-rolled_back : All (λ (b : Block). b.index ≤ last_index) (rolled_back now s).timeline.blocks
  unfolding rolled_back cut recompute_block_hashes
  below-rolled_back = below-rehash_from last_index s.settings _ _ _ _ (
      below-or_genesis last_index now started.genesis_psz_timestamp left
        (below-retained last_index started.blocks))

timeline-outcomes :
    (a b c : Bool) (o o' : Outcome) (rest : Outcome × Store) (why : Bytes) (done : Store)
    → rest.1.timeline ≡ done.timeline
    → let ended : Outcome × Store =
        if not a
        then (o, done)
        else if not b
        then (o', done)
        else if not c
        then rest
        else (success why, rest.1) in
      ended.1.timeline ≡ done.timeline
timeline-outcomes false b c o o' rest why done h = refl
timeline-outcomes true false c o o' rest why done h = refl
timeline-outcomes true true false o o' rest why done h = h
timeline-outcomes true true true o o' rest why done h = h

timeline-rollback :
    (d : Disk) (now : ℤ) (reason : Bytes) (s : Store)
    → (rollback_to_last_checkpoint d now reason s).1.timeline ≡ (rolled_back now s).timeline
unfolding rollback_to_last_checkpoint materialize_views
timeline-rollback d now reason s =
    let done : Store = materialize_views now (rolled_back now s) in
    timeline-outcomes d.events_written.ok d.blocks_written.ok (persist_rest d done).0.ok
      d.events_written d.blocks_written (persist_rest d done) _ done (timeline-persist_rest d done)

-- Whatever the writes end with, as long as no id stood in the blocks twice: after a rollback no block is above
-- the last checkpoint, each event that is left stands in the blocks once, and the hashes pass the backtest.
pub rollback_to_last_checkpoint-IsIntact :
    (d : Disk) (now : ℤ) (reason : Bytes) (s : Store)
    → ((i : Bytes) → times i s.timeline.blocks ≤ 1)
    → let t = (rollback_to_last_checkpoint d now reason s).1.timeline in
      IsIntact s t
      × All
          (λ (b : Block).
            b.index
            ≤ checkpoint_index s.chain_policy
                (ensure_genesis_block s.settings now s.timeline).blocks)
          t.blocks
rollback_to_last_checkpoint-IsIntact d now reason s u =
    subst
      (λ (t : Timeline).
        IsIntact s t
        × All
            (λ (b : Block).
              b.index
              ≤ checkpoint_index s.chain_policy
                  (ensure_genesis_block s.settings now s.timeline).blocks)
            t.blocks)
      (sym (timeline-rollback d now reason s))
      (rolled_back-IsIntact now s u, below-rolled_back now s u)
