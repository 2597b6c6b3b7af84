-- ===== src/Store/Accepted.antt =====
-- The store after Store::append_event (src/core/storage/store.cpp).
use got_soup.Prelude.{
  ◌≤◌, Bytes, true, false, List, [], ◌∷◌, ◌++◌, ◌≡◌, refl, ◌∙◌, sym, arith, All, Bool-cases, inl,
  inr, none, text, subst, bytes_eq,
}
use got_soup.Prelude.Int.{ℤ}
use got_soup.Model.{EventEnvelope}
use got_soup.Timeline.{Timeline, ensure_block_slots_until, assign_unassigned_events_to_blocks}
use got_soup.Timeline.Assign.{times}
use got_soup.Timeline.Assigned.{assign_unassigned_events_to_blocks-IsAssigned}
use got_soup.Hashing.{payload_hashes, chain_issues, recompute_block_hashes, has_event}
use got_soup.Hashing.Intact.{chain_issues-recompute_block_hashes}
use got_soup.Ledger.{empty_ledger}
use got_soup.Ledger.Sound.{IsSound, IsSound-empty, settle-IsSound, IsModest, HasModestAmount}
use got_soup.ReplayOrder.{ordered_events, before}
use got_soup.Views.Hidden.{IsClean, clean_up-IsClean}
use got_soup.Views.Cleanup.{rebuild_views, clean_up}
use got_soup.Views.{replay, fresh_views, Confirmed}
use got_soup.Moderation.{ModerationPolicy}
use got_soup.Prelude.Dict.{Dict}
use got_soup.Store.{
  Disk, Store, context_of, materialize_views, persist_checkpoints, persist_rest, append_fault,
  push_event, extend_timeline, accept_event, append_event,
}
use got_soup.Store.Contents.{
  All-sort, times-recompute_block_hashes, times-ensure_block_slots_until,
  events-ensure_block_slots_until,
}

-- Every event of the log stands in the blocks once, no id does twice, the hashes pass the backtest, the ledger
-- is sound, and the views show nothing hidden.
pub record IsConsistent (s : Store) : Type 0 where
  pub every_once :
      All (λ (e : EventEnvelope). times e.event_id s.timeline.blocks ≡ 1) s.timeline.events
  pub unique : (i : Bytes) → times i s.timeline.blocks ≤ 1
  pub hashed :
      chain_issues s.settings
        (payload_hashes s.settings s.timeline.events [])
        (text "genesis")
        s.timeline.blocks
      ≡ 0
  pub sound : IsSound (context_of s) s.ledger
  pub clean : IsClean s.views.moderation.hidden s.views

persist_checkpoints-IsConsistent :
    (d : Disk) (s : Store) → IsConsistent s → IsConsistent (persist_checkpoints d s)
unfolding persist_checkpoints
persist_checkpoints-IsConsistent d s h = elim (Bool-cases d.checkpoints_opened) [
  | inl opened ↦ rw opened (record {
    every_once = h.every_once;
    unique = h.unique;
    hashed = h.hashed;
    sound = unfold context_of in h.sound;
    clean = h.clean;
  })
  | inr closed ↦ rw closed h
]

persist_rest-store : (d : Disk) (s : Store) → (persist_rest d s).1 ≡ persist_checkpoints d s
unfolding persist_rest
persist_rest-store d s = ground arith

pub events-recompute_block_hashes :
    (s : Store) (t : Timeline) → (recompute_block_hashes s.settings t).events ≡ t.events
unfolding recompute_block_hashes
events-recompute_block_hashes s t = refl

rebuild_views-IsClean :
    (c : Confirmed) (policy : ModerationPolicy) (invalid : Dict Bytes Bytes)
    (es : List EventEnvelope)
    → IsClean
        (rebuild_views c policy invalid es).moderation.hidden
        (rebuild_views c policy invalid es)
unfolding rebuild_views clean_up
rebuild_views-IsClean c policy invalid es =
    clean_up-IsClean c (replay c invalid es (fresh_views policy))

pub All-implied :
    {P Q : EventEnvelope → Type 0}
    → ((e : EventEnvelope) → P e → Q e)
    → (es : List EventEnvelope) → All P es
    → All Q es
All-implied f [] h = tt
All-implied f (e ∷ es) (h, hs) = (f e h, All-implied f es hs)

module _ (now : ℤ) (s : Store) (u : (i : Bytes) → times i s.timeline.blocks ≤ 1) where
  abbrev extended : Store
  extended = extend_timeline now s

  abbrev assigned : Timeline
  assigned = assign_unassigned_events_to_blocks s.settings s.timeline

  times-extended : (i : Bytes) → times i extended.timeline.blocks ≡ times i assigned.blocks
  unfolding extend_timeline
  times-extended i =
      times-recompute_block_hashes i s.settings (ensure_block_slots_until s.settings now assigned)
      ∙ times-ensure_block_slots_until i s.settings now assigned

  events-extended : extended.timeline.events ≡ s.timeline.events
  unfolding extend_timeline
  events-extended =
      events-recompute_block_hashes s (ensure_block_slots_until s.settings now assigned)
      ∙ events-ensure_block_slots_until s.settings now assigned
      ∙ (assign_unassigned_events_to_blocks-IsAssigned s.settings s.timeline u).same_events

  every_once-extended :
      All
        (λ (e : EventEnvelope). times e.event_id extended.timeline.blocks ≡ 1)
        extended.timeline.events
  every_once-extended =
      subst (All (λ (e : EventEnvelope). times e.event_id extended.timeline.blocks ≡ 1))
        (sym events-extended)
        (All-implied (λ e h. times-extended e.event_id ∙ h) s.timeline.events
          (assign_unassigned_events_to_blocks-IsAssigned s.settings s.timeline u).every_once)

  materialized-IsConsistent :
      IsModest (context_of s)
      → All HasModestAmount s.timeline.events
      → IsConsistent (materialize_views now extended)
  unfolding materialize_views context_of
  materialized-IsConsistent modest amounts = record {
    every_once = every_once-extended;
    unique = λ i.
        rw (times-extended i)
          ((assign_unassigned_events_to_blocks-IsAssigned s.settings s.timeline u).unique i);
    hashed =
        unfold extend_timeline in
        chain_issues-recompute_block_hashes s.settings
          (ensure_block_slots_until s.settings now assigned);
    sound =
        settle-IsSound (context_of extended)
          (ordered_events extended.timeline.event_to_block extended.timeline.events) empty_ledger
          (unfold extend_timeline in modest)
          (unfold ordered_events in
            All-sort (before extended.timeline.event_to_block) HasModestAmount
              extended.timeline.events (subst (All HasModestAmount) (sym events-extended) amounts))
          (IsSound-empty (context_of extended) (unfold extend_timeline in modest));
    clean = rebuild_views-IsClean _ _ _ _;
  }

-- When the tests on the event pass, it is new, and its line and the blocks are written: the store is consistent
-- afterwards, as long as no id stood in its blocks twice, the supply is from 0 to 2^62, and no transfer in
-- the log is of more than 2^62 units.
pub append_event-IsConsistent :
    (d : Disk) (now : ℤ) (e : EventEnvelope) (s : Store)
    → append_fault s.limits now e ≡ none
    → has_event s.timeline.events e.event_id ≡ false
    → d.event_written.ok ≡ true
    → d.blocks_written.ok ≡ true
    → ((i : Bytes) → times i s.timeline.blocks ≤ 1)
    → IsModest (context_of s)
    → All HasModestAmount (s.timeline.events ++ e ∷ [])
    → IsConsistent (append_event d now e s).1
unfolding append_event accept_event
append_event-IsConsistent d now e s good new written blocks u modest amounts =
    let done : Store = materialize_views now (extend_timeline now (push_event e s)) in
    rw (good, append_event, new, written, accept_event, blocks)
      (subst IsConsistent (sym (persist_rest-store d done)) (
        persist_checkpoints-IsConsistent d done
          (materialized-IsConsistent now (push_event e s) u (unfold context_of in modest) amounts)))
