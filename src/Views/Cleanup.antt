-- ===== src/Views/Cleanup.antt =====
-- What Store::materialize_views does after its loops: counts, overrides, and the removal of what is hidden
-- (src/core/storage/store.cpp).
use got_soup.Prelude.{
  Bytes, Bool, true, false, ◌||◌, not, List, [], ◌∷◌, if◌then◌else◌, bytes_eq, none, some, text,
  length, contains,
}
use got_soup.Prelude.Int.{ℤ, pos}
use got_soup.Prelude.Dict.{Dict, insert, lookup, erase_all, keep, keys_where, map_values}
use got_soup.Model.{EventEnvelope}
use got_soup.Ledger.{to_int32}
use got_soup.Moderation.{ModerationPolicy}
use got_soup.Views.{
  RecipeSummary, ThreadSummary, ReplySummary, Views, Confirmed, recipe_confirmed, thread_confirmed,
  reply_confirmed, with_totals, replay, fresh_views,
}

-- the first loop after the events
unfoldable pub tally :
    Dict Bytes (ℤ × ℤ) → Dict Bytes ℤ → Dict Bytes RecipeSummary → Dict Bytes RecipeSummary
unfolding with_totals
tally reviews thumbs [] = []
tally reviews thumbs ((id, r) ∷ recipes) =
    (id, with_totals reviews thumbs id r) ∷ tally reviews thumbs recipes

unfoldable pub count_replies :
    Dict Bytes (List ReplySummary) → Dict Bytes ThreadSummary → Dict Bytes ThreadSummary
count_replies [] threads = threads
count_replies ((id, rs) ∷ replies) threads = elim (lookup id threads) [
  | none ↦ count_replies replies threads
  | some t ↦
      count_replies replies
        (insert id (record t { reply_count = to_int32 (pos (length rs)) }) threads)
]

unfoldable pub override_topics :
    Dict Bytes Bool → Dict Bytes RecipeSummary → Dict Bytes RecipeSummary
override_topics [] recipes = recipes
override_topics ((id, core) ∷ overrides) recipes = elim (lookup id recipes) [
  | none ↦ override_topics overrides recipes
  | some r ↦ override_topics overrides (
      insert id
        (record r {
          core_topic = core;
          menu_segment = if core then text "core-menu" else text "community-post";
        })
        recipes)
]

-- the test on a thread that is removed
abbrev pub is_hidden_thread : List Bytes → Bytes → ThreadSummary → Bool
is_hidden_thread hidden id t = contains id hidden || contains t.recipe_id hidden

abbrev pub is_hidden_reply : List Bytes → ReplySummary → Bool
is_hidden_reply hidden r = contains r.reply_id hidden || contains r.thread_id hidden

-- std::remove_if over the replies of a thread
unfoldable pub shown_replies : List Bytes → List ReplySummary → List ReplySummary
shown_replies hidden [] = []
shown_replies hidden (r ∷ rs) =
    let rest = shown_replies hidden rs in if is_hidden_reply hidden r then rest else r ∷ rest

abbrev pub is_none : List ReplySummary → Bool
is_none [] = true
is_none (_ ∷ _) = false

-- the loop over `replies_by_thread_`, which drops the entries that are left empty
unfoldable pub prune_replies :
    List Bytes → Dict Bytes (List ReplySummary) → Dict Bytes (List ReplySummary)
unfolding shown_replies
prune_replies hidden [] = []
prune_replies hidden ((id, rs) ∷ replies) =
    let rest = prune_replies hidden replies in
    if is_none (shown_replies hidden rs) then rest else (id, shown_replies hidden rs) ∷ rest

-- the last loop, which sets every thread's number of replies
unfoldable pub recount :
    Dict Bytes (List ReplySummary) → Dict Bytes ThreadSummary → Dict Bytes ThreadSummary
recount replies [] = []
recount replies ((id, t) ∷ threads) =
    let n : ℤ = elim (lookup id replies) [ none ↦ pos 0 | some rs ↦ to_int32 (pos (length rs)) ] in
    (id, record t { reply_count = n }) ∷ recount replies threads

-- the removal of hidden threads with their replies, of hidden replies, and of hidden recipes
unfoldable pub remove_hidden : List Bytes → Views → Views
unfolding prune_replies recount
remove_hidden hidden v =
    let gone = keys_where (is_hidden_thread hidden) v.threads in
    let replies = prune_replies hidden (erase_all gone v.replies_by_thread) in
    record v {
      recipes = keep (λ id r. not (contains id hidden)) v.recipes;
      threads = recount replies (erase_all gone v.threads);
      replies_by_thread = replies;
    }

unfoldable pub replies_confirmed : Confirmed → List ReplySummary → List ReplySummary
replies_confirmed c [] = []
replies_confirmed c (r ∷ rs) = reply_confirmed c r ∷ replies_confirmed c rs

-- Store::apply_confirmation_metrics
unfoldable pub apply_confirmation_metrics : Confirmed → Views → Views
unfolding replies_confirmed
apply_confirmation_metrics c v = record v {
  recipes = map_values (recipe_confirmed c) v.recipes;
  threads = map_values (thread_confirmed c) v.threads;
  replies_by_thread = map_values (replies_confirmed c) v.replies_by_thread;
}

-- from the end of the second loop on
unfoldable pub clean_up : Confirmed → Views → Views
unfolding tally count_replies override_topics remove_hidden apply_confirmation_metrics
clean_up c v = apply_confirmation_metrics c (
    remove_hidden v.moderation.hidden (record v {
      recipes =
          override_topics v.moderation.core_topic_overrides
            (tally v.review_totals v.thumbs_up_totals v.recipes);
      threads = count_replies v.replies_by_thread v.threads;
    }))

-- the views that Store::materialize_views makes of the events in their replay order
unfoldable pub rebuild_views :
    Confirmed → ModerationPolicy → Dict Bytes Bytes → List EventEnvelope → Views
unfolding clean_up replay fresh_views
rebuild_views c policy invalid events = clean_up c (replay c invalid events (fresh_views policy))
