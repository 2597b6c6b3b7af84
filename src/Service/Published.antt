-- ===== src/Service/Published.antt =====
-- What the announcement of an event leaves (src/core/service/alpha_service.cpp).
use got_soup.Prelude.{
  true, false, [], ◌∷◌, ◌++◌, nat_eq, ◌≡◌, refl, sym, arith, All, Bool-cases, inl, inr, none, subst,
}
use got_soup.Prelude.Int.{ℤ, pos, ◌+ℤ◌, ◌≤ℤ◌, IsInt64, add64_id}
use got_soup.Model.{EventEnvelope}
use got_soup.PeerNode.{queue_local_event}
use got_soup.Ledger.Sound.{IsModest, HasModestAmount}
use got_soup.Hashing.{has_event}
use got_soup.Store.{Disk, Store, context_of, append_fault, accept_event, append_event}
use got_soup.Store.Accepted.{IsConsistent, append_event-IsConsistent}
use got_soup.Backtest.{Expected, backtest_issues, backtest_validate}
use got_soup.Service.State.{
  Service, Env, Announcement, expected_of, run_backtest_validation, make_event,
  append_locally_and_queue, publish, event_time,
}

written :
    (d : Disk) (now : ℤ) (e : EventEnvelope) (s : Store)
    → append_fault s.limits now e ≡ none
    → has_event s.timeline.events e.event_id ≡ false
    → (append_event d now e s).0.ok ≡ true
    → (d.event_written.ok ≡ true) × (d.blocks_written.ok ≡ true)
unfolding append_event accept_event
written d now e s good new ok = ground arith

accepted_good :
    (d : Disk) (now : ℤ) (e : EventEnvelope) (s : Store)
    → (append_event d now e s).0.ok ≡ true
    → append_fault s.limits now e ≡ none
unfolding append_event
accepted_good d now e s ok = ground arith

known_unchanged :
    (d : Disk) (now : ℤ) (e : EventEnvelope) (s : Store)
    → append_fault s.limits now e ≡ none
    → has_event s.timeline.events e.event_id ≡ true
    → (append_event d now e s).1 ≡ s
unfolding append_event
known_unchanged d now e s good old = ground arith

-- A store that accepted an event without a failure is consistent again.
append_event_kept :
    (d : Disk) (now : ℤ) (e : EventEnvelope) (s : Store)
    → IsConsistent s
    → IsModest (context_of s)
    → All HasModestAmount (s.timeline.events ++ e ∷ [])
    → (append_event d now e s).0.ok ≡ true
    → IsConsistent (append_event d now e s).1
append_event_kept d now e s h modest amounts ok =
    let good = accepted_good d now e s ok in
    elim (Bool-cases (has_event s.timeline.events e.event_id)) [
      | inl old ↦ subst IsConsistent (sym (known_unchanged d now e s good old)) h
      | inr new ↦
          let w = written d now e s good new ok in
          append_event-IsConsistent d now e s good new w.0 w.1 h.unique modest amounts
    ]

-- What an announcement that succeeds has done.
pub record IsPublished (env : Env) (e : EventEnvelope) (s s' : Service) : Type 0 where
  pub consistent : IsConsistent s'.store
  pub tested : backtest_issues s'.store (expected_of env.now s') ≡ 0
  pub queued : s'.node ≡ queue_local_event e s.node
  pub later : s.last_local_event_unix_ts +ℤ pos 1 ≤ℤ e.unix_ts
  pub clocked : env.now ≤ℤ e.unix_ts
  pub remembered : s'.last_local_event_unix_ts ≡ e.unix_ts

time_later :
    (now : ℤ) (s : Service)
    → IsInt64 (s.last_local_event_unix_ts +ℤ pos 1)
    → (s.last_local_event_unix_ts +ℤ pos 1 ≤ℤ event_time now s) × (now ≤ℤ event_time now s)
unfolding event_time
time_later now s fits = rw (add64_id s.last_local_event_unix_ts (pos 1) fits) (ground arith)

-- the service once an event was taken in
abbrev taken_in : Env → EventEnvelope → Service → Service
taken_in env e s = record s {
  store = (append_event env.disk env.now e s.store).1;
  node = queue_local_event e s.node;
}

append_locally_ok :
    (env : Env) (e : EventEnvelope) (s : Service)
    → (append_locally_and_queue env e s).0.ok ≡ true
    → ((append_event env.disk env.now e s.store).0.ok ≡ true)
      × ((append_locally_and_queue env e s).1 ≡ taken_in env e s)
      × (backtest_validate (taken_in env e s).store (expected_of env.now s) ≡ true)
unfolding append_locally_and_queue run_backtest_validation
append_locally_ok env e s ok = ground arith

no_issues : (s : Store) (x : Expected) → backtest_validate s x ≡ true → backtest_issues s x ≡ 0
unfolding backtest_validate
no_issues s x h = (nat_eq.equals_iff (backtest_issues s x) 0).0 h

-- With a consistent store, a supply from 0 to 2^62, no transfer of more than 2^62 units in the log or in the event,
-- and a time of the last local event below the largest int64: an announcement that succeeds leaves a consistent store
-- that the backtest finds no issue in, hands the event to the peer node, and gives it a time after that of the last
-- local event and not before the clock.
pub publish-IsPublished :
    (env : Env) (a : Announcement) (s : Service)
    → IsConsistent s.store
    → IsModest (context_of s.store)
    → All HasModestAmount (s.store.timeline.events ++ (make_event env.now a s).0 ∷ [])
    → IsInt64 (s.last_local_event_unix_ts +ℤ pos 1)
    → (publish env a s).0.ok ≡ true
    → IsPublished env (make_event env.now a s).0 s (publish env a s).1
unfolding publish make_event
publish-IsPublished env a s h modest amounts fits ok =
    let made = make_event env.now a s in
    let e = made.0 in
    let t = append_locally_ok env e made.1 ok in
    let times = time_later env.now s fits in
    rw (publish, t.1)
      (record {
        consistent = append_event_kept env.disk env.now e s.store h modest amounts (t.0);
        tested = no_issues (taken_in env e made.1).store (expected_of env.now s) (t.2);
        queued = refl;
        later = times.0;
        clocked = times.1;
        remembered = refl;
      })
