-- ===== src/Store/Admitted.antt =====
-- Which events Store::append_event of src/core/storage/store.cpp takes into the log.
use got_soup.Prelude.{
  ◌≤◌, Bool, true, false, List, [], ◌∷◌, ◌++◌, ◌≡◌, refl, ◌∙◌, arith, is_empty, length, Bool-cases,
  Option-cases, inl, inr, none,
}
use got_soup.Prelude.Int.{ℤ, ◌+ℤ◌, ◌-ℤ◌, ◌≤ℤ◌, IsInt64, add64_id, sub64_id}
use got_soup.Model.{EventEnvelope}
use got_soup.Hashing.{has_event}
use got_soup.Timeline.{
  Settings, Timeline, assign_in, assign_unassigned_events_to_blocks, ensure_block_slots_until,
  ensure_genesis_block,
}
use got_soup.Timeline.Assigned.{events-ensure_genesis_in}
use got_soup.Store.Contents.{events-ensure_block_slots_until}
use got_soup.Store.Accepted.{events-recompute_block_hashes}
use got_soup.Store.{
  Disk, Store, EventLimits, materialize_views, record_invalid_event, append_fault, push_event,
  extend_timeline, accept_event, append_event,
}
use got_soup.Store.Routine.{timeline-persist_rest}

-- What an event must be to enter the log.
pub record IsAdmissible (limits : EventLimits) (now : ℤ) (e : EventEnvelope) : Type 0 where
  pub named : is_empty e.event_id ≡ false
  pub filled : is_empty e.payload ≡ false
  pub signed : is_empty e.signature ≡ false
  pub short : length e.payload ≤ limits.max_event_bytes
  pub not_early : e.unix_ts ≤ℤ now +ℤ limits.max_future_drift_seconds
  pub not_late : now -ℤ limits.max_past_drift_seconds ≤ℤ e.unix_ts

timeline-materialize_views : (now : ℤ) (s : Store) → (materialize_views now s).timeline ≡ s.timeline
unfolding materialize_views
timeline-materialize_views now s = refl

IsAdmissible-append_fault :
    (limits : EventLimits) (now : ℤ) (e : EventEnvelope)
    → IsInt64 (now +ℤ limits.max_future_drift_seconds)
    → IsInt64 (now -ℤ limits.max_past_drift_seconds)
    → append_fault limits now e ≡ none
    → IsAdmissible limits now e
unfolding append_fault
IsAdmissible-append_fault limits now e late early h =
    let upper = add64_id now limits.max_future_drift_seconds late in
    let lower = sub64_id now limits.max_past_drift_seconds early in
    record {
      named = ground (arith, h);
      filled = ground (arith, h);
      signed = ground (arith, h);
      short = ground (arith, h);
      not_early = ground (arith, h, upper);
      not_late = ground (arith, h, lower);
    }

append_fault-IsAdmissible :
    (limits : EventLimits) (now : ℤ) (e : EventEnvelope)
    → IsInt64 (now +ℤ limits.max_future_drift_seconds)
    → IsInt64 (now -ℤ limits.max_past_drift_seconds)
    → IsAdmissible limits now e
    → append_fault limits now e ≡ none
unfolding append_fault
append_fault-IsAdmissible limits now e late early h =
    let upper = add64_id now limits.max_future_drift_seconds late in
    let lower = sub64_id now limits.max_past_drift_seconds early in
    rw (h.named, h.filled, h.signed, upper, lower)
      (ground (arith, h.short, h.not_early, h.not_late))

events-assign_in :
    (s : Settings) (es : List EventEnvelope) (t : Timeline) → (assign_in s es t).events ≡ t.events
unfolding assign_in ensure_genesis_block
events-assign_in s [] t = refl
events-assign_in s (e ∷ es) t = events-ensure_genesis_in s e.unix_ts t.blocks t

events-extend_timeline :
    (now : ℤ) (s : Store) → (extend_timeline now s).timeline.events ≡ s.timeline.events
unfolding extend_timeline assign_unassigned_events_to_blocks
events-extend_timeline now s =
    let t = assign_unassigned_events_to_blocks s.settings s.timeline in
    events-recompute_block_hashes s (ensure_block_slots_until s.settings now t)
    ∙ events-ensure_block_slots_until s.settings now t
    ∙ events-assign_in s.settings s.timeline.events s.timeline

-- whatever the writes end with
events-accept_event :
    (d : Disk) (now : ℤ) (e : EventEnvelope) (s : Store)
    → (accept_event d now e s).1.timeline.events ≡ s.timeline.events ++ e ∷ []
unfolding accept_event
events-accept_event d now e s =
    let extended = extend_timeline now (push_event e s) in
    let same = events-extend_timeline now (push_event e s) in
    elim (Bool-cases d.event_written.ok) [
      | inr failed ↦ rw failed refl
      | inl written ↦ elim (Bool-cases d.blocks_written.ok) [
        | inr failed ↦ rw (written, failed) same
        | inl ok ↦
            rw
              (
                written,
                ok,
                timeline-persist_rest d (materialize_views now extended),
                timeline-materialize_views now extended,
              )
              same
      ]
    ]

-- What a call of `append_event` comes to: how it ends, and the store that it leaves.
pub data Verdict (now : ℤ) (e : EventEnvelope) (s : Store) (ok : Bool) (s' : Store) : Type 0 where
  admitted :
      IsAdmissible s.limits now e
      → has_event s.timeline.events e.event_id ≡ false
      → s'.timeline.events ≡ s.timeline.events ++ e ∷ []
      → Verdict now e s ok s'
  known :
      IsAdmissible s.limits now e
      → has_event s.timeline.events e.event_id ≡ true
      → ok ≡ true
      → s' ≡ s
      → Verdict now e s ok s'
  refused :
      ¬ IsAdmissible s.limits now e
      → ok ≡ false
      → s'.timeline ≡ s.timeline
      → s'.ledger ≡ s.ledger
      → s'.views ≡ s.views
      → Verdict now e s ok s'

-- For limits on the drift that do not leave the int64 range from the clock, whatever the writes end
-- with, a call of `append_event` does one of three things. An event with an id, a payload that is
-- not empty and has at most `max_event_bytes`, a signature, and a time within the limits is added
-- at the end of the log when its id is new; when the log has the id, the call succeeds and the
-- store stays what it was. For every other event the call fails, and the timeline, the ledger and
-- the views stay what they were.
pub append_event-Verdict :
    (d : Disk) (now : ℤ) (e : EventEnvelope) (s : Store)
    → IsInt64 (now +ℤ s.limits.max_future_drift_seconds)
    → IsInt64 (now -ℤ s.limits.max_past_drift_seconds)
    → Verdict now e s (append_event d now e s).0.ok (append_event d now e s).1
unfolding append_event
append_event-Verdict d now e s late early = elim (Option-cases (append_fault s.limits now e)) [
  | inr (why, bad) ↦
      rw (bad, append_event)
        (Verdict.refused
          (λ fit. absurd (cc (bad, append_fault-IsAdmissible s.limits now e late early fit))) refl
          (unfold record_invalid_event in ground arith)
          (unfold record_invalid_event in ground arith)
          (unfold record_invalid_event in ground arith))
  | inl good ↦
      let fit = IsAdmissible-append_fault s.limits now e late early good in
      elim (Bool-cases (has_event s.timeline.events e.event_id)) [
        | inl old ↦ rw (good, append_event, old) (Verdict.known fit old refl refl)
        | inr new ↦
            rw (good, append_event, new) (Verdict.admitted fit new (events-accept_event d now e s))
      ]
]
