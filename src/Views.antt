-- ===== src/Views.antt =====
-- The second loop of Store::materialize_views, which rebuilds the views and the moderation state, and
-- what is done after it (src/core/storage/store.cpp).
mod Rows
pub mod Cleanup
pub mod Hidden
pub mod Queries
unfoldable pub use Rows.*
use got_soup.Prelude.{
  ℕ, ◌^◌, Bytes, Bool, true, false, ◌&&◌, ◌||◌, not, List, [], ◌∷◌, ◌++◌, ◌==◌, is_empty,
  if◌then◌else◌, bytes_eq, Option, none, some, text,
}
use got_soup.Prelude.Int.{ℤ, pos, ◌+ℤ◌, ltb_ℤ}
use got_soup.Prelude.Decimal.{read_signed}
use got_soup.Prelude.Dict.{Dict, insert, lookup, has, get_or}
use got_soup.Model.{
  EventKind, recipe_created, thread_created, reply_created, review_added, thumbs_up_added,
  EventEnvelope,
}
use got_soup.Canonical.{parse_canonical_map}
use got_soup.Chain.{Block, block_for_event, latest_confirmed_block_index, confirmations_under}
use got_soup.Ledger.{Payload, text_field, to_int32, parse_post_value, is_post_kind}
use got_soup.Moderation.{
  ModerationPolicy, Moderation, fresh_moderation, parse_boolish, is_moderation_event, moderate,
}

unfoldable pub parse_int_or_zero : Bytes → ℤ
parse_int_or_zero t = elim (read_signed (2 ^ 31) t) [ none ↦ pos 0 | some v ↦ v ]

-- `payload.contains(key) ? payload.at(key) : otherwise`
abbrev pub field_or : Bytes → Payload → Bytes → Bytes
field_or key p otherwise = get_or key p otherwise

-- `payload.contains(key) && parse_boolish(payload.at(key))`
unfoldable pub bool_field : Bytes → Payload → Bool
unfolding parse_boolish
bool_field key p = elim (lookup key p) [ none ↦ false | some t ↦ parse_boolish t ]

-- the totals of a recipe's reviews and thumbs, where there are some
unfoldable pub with_totals :
    Dict Bytes (ℤ × ℤ) → Dict Bytes ℤ → Bytes → RecipeSummary → RecipeSummary
with_totals reviews thumbs id r =
    let rated : RecipeSummary = elim (lookup id reviews) [
      | none ↦ r
      | some (total, n) ↦
          if ltb_ℤ (pos 0) n then record r { rating_total = total; review_count = n } else r
    ] in
    elim (lookup id thumbs) [ none ↦ rated | some n ↦ record rated { thumbs_up_count = n } ]

-- the row of a RecipeCreated event, before the totals
unfoldable pub recipe_of : EventEnvelope → Payload → RecipeSummary
unfolding bool_field parse_post_value
recipe_of e p =
    let core = bool_field (text "core_topic") p || bool_field (text "moderator_core") p in
    record {
      recipe_id = field_or (text "recipe_id") p e.event_id;
      source_event_id = e.event_id;
      title = field_or (text "title") p (text "Untitled recipe");
      category = field_or (text "category") p (text "General");
      author_cid = e.author_cid;
      updated_unix = e.unix_ts;
      rating_total = pos 0;
      review_count = pos 0;
      thumbs_up_count = pos 0;
      core_topic = core;
      menu_segment =
          field_or (text "menu_segment") p
            (if core then text "core-menu" else text "community-post");
      value_units = parse_post_value p;
      confirmation_count = 0;
      confirmation_age_seconds = pos 0;
    }

unfoldable pub thread_of : EventEnvelope → Payload → ThreadSummary
unfolding parse_post_value
thread_of e p = record {
  thread_id = field_or (text "thread_id") p e.event_id;
  source_event_id = e.event_id;
  recipe_id = field_or (text "recipe_id") p [];
  title = field_or (text "title") p (text "Untitled thread");
  author_cid = e.author_cid;
  updated_unix = e.unix_ts;
  reply_count = pos 0;
  value_units = parse_post_value p;
  confirmation_count = 0;
  confirmation_age_seconds = pos 0;
}

unfoldable pub reply_of : EventEnvelope → Payload → ReplySummary
unfolding parse_post_value
reply_of e p = record {
  reply_id = field_or (text "reply_id") p e.event_id;
  source_event_id = e.event_id;
  thread_id = field_or (text "thread_id") p [];
  author_cid = e.author_cid;
  markdown = field_or (text "markdown") p [];
  updated_unix = e.unix_ts;
  value_units = parse_post_value p;
  confirmation_count = 0;
  confirmation_age_seconds = pos 0;
}

-- `totals.first += rating; totals.second += 1`, on int
unfoldable pub add_review : Bytes → ℤ → Views → Views
add_review recipe rating v =
    let (total, n) = get_or recipe v.review_totals (pos 0, pos 0) in
    record v {
      review_totals =
          insert recipe (to_int32 (total +ℤ rating), to_int32 (n +ℤ pos 1)) v.review_totals;
    }

-- the switch over the kind of an event that is no moderation event
unfoldable pub view_event : EventKind → EventEnvelope → Payload → Views → Views
unfolding with_totals recipe_of thread_of reply_of add_review parse_int_or_zero
view_event recipe_created e p v =
    let r = recipe_of e p in
    record v {
      recipes =
          insert r.recipe_id (with_totals v.review_totals v.thumbs_up_totals r.recipe_id r)
            v.recipes;
    }
view_event thread_created e p v =
    let t = thread_of e p in record v { threads = insert t.thread_id t v.threads }
view_event reply_created e p v =
    let r = reply_of e p in
    if is_empty r.thread_id then v else record v {
      replies_by_thread =
          insert r.thread_id (get_or r.thread_id v.replies_by_thread [] ++ r ∷ [])
            v.replies_by_thread;
    }
view_event review_added e p v =
    let recipe = field_or (text "recipe_id") p [] in
    if is_empty recipe
    then v
    else add_review recipe (parse_int_or_zero (field_or (text "rating") p (text "0"))) v
view_event thumbs_up_added e p v =
    let recipe = field_or (text "recipe_id") p [] in
    if is_empty recipe then v else record v {
      thumbs_up_totals =
          insert recipe (to_int32 (get_or recipe v.thumbs_up_totals (pos 0) +ℤ pos 1))
            v.thumbs_up_totals;
    }
view_event _ e p v = v

-- `event_confirmations`
unfoldable pub event_confirmations : Confirmed → EventEnvelope → ℕ
unfolding block_for_event
event_confirmations c e = elim (block_for_event c.event_to_block c.blocks e.event_id) [
  | none ↦ 0
  | some b ↦ elim (latest_confirmed_block_index c.blocks) [
    | none ↦ 0
    | some tip ↦ confirmations_under tip b.index
  ]
]

-- the body of the loop; `invalid` is `invalid_economic_events_`
unfoldable pub replay_event : Confirmed → Dict Bytes Bytes → EventEnvelope → Views → Views
unfolding view_event
replay_event c invalid e v =
    if has e.event_id invalid && is_post_kind e.kind
    then v
    else if is_moderation_event e.kind
    then record v {
      moderation =
          moderate (event_confirmations c e) e (parse_canonical_map e.payload) v.moderation;
    }
    else view_event e.kind e (parse_canonical_map e.payload) v

unfoldable pub replay : Confirmed → Dict Bytes Bytes → List EventEnvelope → Views → Views
replay c invalid [] v = v
replay c invalid (e ∷ es) v = replay c invalid es (replay_event c invalid e v)

-- what is cleared before the loop
unfoldable pub fresh_views : ModerationPolicy → Views
unfolding fresh_moderation
fresh_views policy = record {
  recipes = [];
  threads = [];
  replies_by_thread = [];
  review_totals = [];
  thumbs_up_totals = [];
  moderation = fresh_moderation policy;
}
