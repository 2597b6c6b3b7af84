-- ===== src/Backtest.antt =====
-- Store::backtest_validate (src/core/storage/store.cpp): the number of issues that it counts, of which it succeeds
-- with none. The text of its report is not modelled.
pub mod Structure
use got_soup.Prelude.{
  ℕ, ◌+◌, Bytes, Bool, true, false, ◌&&◌, ◌||◌, not, List, [], ◌∷◌, ◌==◌, ltb, is_empty,
  if◌then◌else◌, nat_eq, bytes_eq, none, some, text, length,
}
use got_soup.Prelude.Int.{ℤ, pos, add64, ltb_ℤ, leb_ℤ}
use got_soup.Prelude.Dict.{Dict, lookup, has}
use got_soup.Model.{
  EventKind, EventEnvelope, recipe_created, thread_created, reply_created, block_reward_claimed,
  reward_transferred, moderator_added, moderator_removed, content_flagged, content_hidden,
  content_unhidden, core_topic_pinned, core_topic_unpinned,
}
use got_soup.Canonical.{parse_canonical_map}
use got_soup.Ledger.{Payload, int_field, uint_field, is_post_kind}
use got_soup.Chain.{Block}
use got_soup.Timeline.{assigned_ids}
use got_soup.Hashing.{
  payload_hashes, issue_if, chain_issues, limit_issues, id_issues, unassigned_issues,
}
use got_soup.Store.{Store, EventLimits}

-- `!payload.contains(key) || payload.at(key).empty()`
unfoldable pub lacks : Bytes → Payload → Bool
lacks key p = elim (lookup key p) [ none ↦ true | some value ↦ is_empty value ]

-- `payload.contains(key) && payload.at(key) != expected`
unfoldable pub differs : Bytes → Bytes → Payload → Bool
differs key expected p = elim (lookup key p) [ none ↦ false | some value ↦ not (value == expected) ]

-- the test on the object of a moderation event
unfoldable pub lacks_object : Payload → Bool
unfolding lacks
lacks_object p =
    lacks (text "object_id") p
    && lacks (text "recipe_id") p
    && lacks (text "thread_id") p
    && lacks (text "reply_id") p

-- the switch over the kind of an event
unfoldable pub kind_issues : EventKind → Payload → ℕ
unfolding lacks lacks_object int_field uint_field
kind_issues recipe_created p = issue_if (lacks (text "recipe_id") p)
kind_issues thread_created p = issue_if (lacks (text "thread_id") p || lacks (text "recipe_id") p)
kind_issues reply_created p = issue_if (lacks (text "reply_id") p || lacks (text "thread_id") p)
kind_issues block_reward_claimed p =
    issue_if (elim (uint_field (text "block_index") p) [ none ↦ true | some _ ↦ false ])
    + issue_if (leb_ℤ (int_field (text "reward") p) (pos 0))
kind_issues reward_transferred p =
    issue_if (lacks (text "to_cid") p || leb_ℤ (int_field (text "amount") p) (pos 0))
kind_issues moderator_added p = issue_if (lacks (text "target_cid") p)
kind_issues moderator_removed p = issue_if (lacks (text "target_cid") p)
kind_issues content_flagged p = issue_if (lacks_object p)
kind_issues content_hidden p = issue_if (lacks_object p)
kind_issues content_unhidden p = issue_if (lacks_object p)
kind_issues core_topic_pinned p = issue_if (lacks (text "recipe_id") p)
kind_issues core_topic_unpinned p = issue_if (lacks (text "recipe_id") p)
kind_issues _ p = 0

-- What a backtest compares with: the id that a payload must have, the community, the store's `chain_id_`, and the
-- time of the clock.
pub record Expected : Type 0 where
  pub content_id : Bytes → Bytes
  pub community_id : Bytes
  pub chain_id : Bytes
  pub now : ℤ

-- the body of the loop over the events
unfoldable pub event_issues : Store → Expected → EventEnvelope → ℕ
unfolding kind_issues differs
event_issues s x e =
    let p = parse_canonical_map e.payload in
    issue_if (not (e.event_id == x.content_id e.payload))
    + issue_if (ltb s.limits.max_event_bytes (length e.payload))
    + issue_if (ltb_ℤ (add64 x.now s.limits.max_future_drift_seconds) e.unix_ts)
    + issue_if (not (is_empty x.community_id) && differs (text "community_id") x.community_id p)
    + issue_if (differs (text "chain_id") x.chain_id p)
    + issue_if (differs (text "network_id") s.settings.network_id p)
    + kind_issues e.kind p
    + issue_if (is_post_kind e.kind && ltb_ℤ (int_field (text "post_value") p) (pos 0))
    + issue_if (is_empty e.signature)

unfoldable pub all_event_issues : Store → Expected → List EventEnvelope → ℕ
unfolding event_issues
all_event_issues s x [] = 0
all_event_issues s x (e ∷ es) = event_issues s x e + all_event_issues s x es

unfoldable pub all_limit_issues : Store → List Block → ℕ
all_limit_issues s [] = 0
all_limit_issues s (b ∷ bs) = limit_issues s.settings s.timeline.events b + all_limit_issues s bs

-- whether the blocks have the log's events, each once
unfoldable pub structure_issues : List EventEnvelope → List Block → ℕ
unfolding id_issues unassigned_issues assigned_ids
structure_issues events blocks =
    id_issues events [] (assigned_ids blocks) + unassigned_issues (assigned_ids blocks) events

unfoldable pub backtest_issues : Store → Expected → ℕ
unfolding all_event_issues all_limit_issues structure_issues
backtest_issues s x =
    all_event_issues s x s.timeline.events
    + chain_issues s.settings (payload_hashes s.settings s.timeline.events []) (text "genesis")
        s.timeline.blocks
    + all_limit_issues s s.timeline.blocks
    + structure_issues s.timeline.events s.timeline.blocks
    + length s.ledger.invalid
    + length s.views.moderation.invalid

-- `backtest_ok_`
unfoldable pub backtest_validate : Store → Expected → Bool
unfolding backtest_issues
backtest_validate s x = backtest_issues s x == 0
