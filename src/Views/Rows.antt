-- ===== src/Views/Rows.antt =====
-- The rows of the views, and how long their events have been confirmed (src/core/model/types.hpp,
-- src/core/storage/store.cpp).
use got_soup.Prelude.{ℕ, Bytes, Bool, Option, none, some, List, ltb, if◌then◌else◌}
use got_soup.Prelude.Int.{ℤ, pos, sub64, max_ℤ}
use got_soup.Prelude.Dict.{Dict}
use got_soup.Chain.{Block, block_for_event, latest_confirmed_block_index, confirmations_under}
use got_soup.Moderation.{Moderation}

-- The source keeps the average rating, the double of `rating_total` divided by `review_count`.
pub record RecipeSummary : Type 0 where
  pub recipe_id : Bytes
  pub source_event_id : Bytes
  pub title : Bytes
  pub category : Bytes
  pub author_cid : Bytes
  pub updated_unix : ℤ
  pub rating_total : ℤ
  pub review_count : ℤ
  pub thumbs_up_count : ℤ
  pub core_topic : Bool
  pub menu_segment : Bytes
  pub value_units : ℤ
  pub confirmation_count : ℕ
  pub confirmation_age_seconds : ℤ

pub record ThreadSummary : Type 0 where
  pub thread_id : Bytes
  pub source_event_id : Bytes
  pub recipe_id : Bytes
  pub title : Bytes
  pub author_cid : Bytes
  pub updated_unix : ℤ
  pub reply_count : ℤ
  pub value_units : ℤ
  pub confirmation_count : ℕ
  pub confirmation_age_seconds : ℤ

pub record ReplySummary : Type 0 where
  pub reply_id : Bytes
  pub source_event_id : Bytes
  pub thread_id : Bytes
  pub author_cid : Bytes
  pub markdown : Bytes
  pub updated_unix : ℤ
  pub value_units : ℤ
  pub confirmation_count : ℕ
  pub confirmation_age_seconds : ℤ

-- the members that the second loop rebuilds
pub record Views : Type 0 where
  pub recipes : Dict Bytes RecipeSummary
  pub threads : Dict Bytes ThreadSummary
  pub replies_by_thread : Dict Bytes (List ReplySummary)
  pub review_totals : Dict Bytes (ℤ × ℤ)
  pub thumbs_up_totals : Dict Bytes ℤ
  pub moderation : Moderation

-- the timeline that the loop reads, and the time of the clock
pub record Confirmed : Type 0 where
  pub blocks : List Block
  pub event_to_block : Dict Bytes ℕ
  pub now : ℤ

-- `std::max<std::int64_t>(0, now - updated_unix)`
abbrev pub age_seconds : Confirmed → ℤ → ℤ
age_seconds c updated = max_ℤ (pos 0) (sub64 c.now updated)

-- the confirmations of a block in `confirmation_metrics_for_event`
unfoldable pub block_confirmations : Option ℕ → Block → ℕ
block_confirmations none b = 0
block_confirmations (some tip) b =
    if b.confirmed then (if ltb tip b.index then 0 else confirmations_under tip b.index) else 0

-- Store::confirmation_metrics_for_event
unfoldable pub confirmation_metrics_for_event : Confirmed → Bytes → ℤ → Option (ℕ × ℤ)
unfolding block_for_event block_confirmations latest_confirmed_block_index
confirmation_metrics_for_event c id updated = elim (block_for_event c.event_to_block c.blocks id) [
  | none ↦ none
  | some b ↦
      some (block_confirmations (latest_confirmed_block_index c.blocks) b, age_seconds c updated)
]

-- what apply_confirmation_metrics stores in a row
unfoldable pub metrics_or_none : Confirmed → Bytes → ℤ → ℕ × ℤ
unfolding confirmation_metrics_for_event
metrics_or_none c id updated = elim (confirmation_metrics_for_event c id updated) [
  | none ↦ (0, age_seconds c updated)
  | some metrics ↦ metrics
]

unfoldable pub recipe_confirmed : Confirmed → RecipeSummary → RecipeSummary
recipe_confirmed c r =
    let (confirmations, age) = metrics_or_none c r.source_event_id r.updated_unix in
    record r { confirmation_count = confirmations; confirmation_age_seconds = age }

unfoldable pub thread_confirmed : Confirmed → ThreadSummary → ThreadSummary
thread_confirmed c t =
    let (confirmations, age) = metrics_or_none c t.source_event_id t.updated_unix in
    record t { confirmation_count = confirmations; confirmation_age_seconds = age }

unfoldable pub reply_confirmed : Confirmed → ReplySummary → ReplySummary
reply_confirmed c r =
    let (confirmations, age) = metrics_or_none c r.source_event_id r.updated_unix in
    record r { confirmation_count = confirmations; confirmation_age_seconds = age }
