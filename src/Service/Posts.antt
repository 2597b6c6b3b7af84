-- ===== src/Service/Posts.antt =====
-- Posts: recipes, threads, replies, reviews and thumbs up (src/core/service/alpha_service.cpp).
use got_soup.Prelude.{
  Bytes, Bool, false, ◌&&◌, ◌||◌, not, List, [], ◌∷◌, ◌++◌, is_empty, if◌then◌else◌, ◌==◌, bytes_eq,
  text, take,
}
use got_soup.Prelude.Int.{ℤ, pos, ltb_ℤ}
use got_soup.Prelude.Decimal.{print_ℤ}
use got_soup.Model.{recipe_created, thread_created, reply_created, review_added, thumbs_up_added}
use got_soup.Crypto.{hash_bytes}
use got_soup.Views.{RecipeSummary}
use got_soup.Views.Queries.{SearchQuery, query_recipes}
use got_soup.Store.Queries.{reward_balance}
use got_soup.Service.State.{
  Service, Env, Attempt, go, ◌>>=◌, ◌>>◌, refuse_if, ensure_wallet_ready_for_mutation, Announcement,
  validate_and_apply_post_cost,
}

pub record RecipeDraft : Type 0 where
  pub category : Bytes
  pub title : Bytes
  pub markdown : Bytes
  pub core_topic : Bool
  pub menu_segment : Bytes
  pub value_units : ℤ

pub record ThreadDraft : Type 0 where
  pub recipe_id : Bytes
  pub title : Bytes
  pub markdown : Bytes
  pub value_units : ℤ

pub record ReplyDraft : Type 0 where
  pub thread_id : Bytes
  pub markdown : Bytes
  pub value_units : ℤ

pub record ReviewDraft : Type 0 where
  pub recipe_id : Bytes
  pub rating : ℤ
  pub markdown : Bytes
  pub value_units : ℤ

-- `prefix + crypto_.hash_bytes(material).substr(0, 16)`
unfoldable pub short_id : Bytes → Bytes → Bytes
short_id prefix material = prefix ++ take 16 (hash_bytes material)

abbrev pub or_default : Bytes → Bytes → Bytes
or_default value fallback = if is_empty value then fallback else value

-- the value of a recipe: a core topic has no minimum
unfoldable pub recipe_value : RecipeDraft → Service → Attempt ℤ
recipe_value d s = if not d.core_topic then validate_and_apply_post_cost d.value_units s else do
  refuse_if
      (ltb_ℤ (pos 0) d.value_units
        && ltb_ℤ (reward_balance s.store s.crypto.identity.cid) d.value_units)
      (text "Insufficient reward balance to publish this core topic value.")
  go d.value_units

unfoldable pub recipe_event : Env → RecipeDraft → Service → Attempt Announcement
unfolding recipe_value short_id
recipe_event env d s = do
  ensure_wallet_ready_for_mutation (text "create_recipe") s
  refuse_if (is_empty d.title) (text "Recipe title is required.")
  refuse_if (is_empty d.markdown) (text "Recipe markdown content is required.")
  refuse_if (ltb_ℤ d.value_units (pos 0)) (text "Recipe post value cannot be negative.")
  value ← recipe_value d s
  go (record {
    kind = recipe_created;
    fields =
        ((
          text "recipe_id",
          short_id (text "rcp-")
              (s.community.community_id ++ (d.title ++ (d.markdown ++ print_ℤ env.now))),
        )
          ∷ (text "category", or_default d.category (text "General"))
          ∷ (text "title", d.title)
          ∷ (text "markdown", d.markdown)
          ∷ (text "post_value", print_ℤ value)
          ∷ (text "core_topic", if d.core_topic then text "1" else text "0")
          ∷ (
            text "menu_segment",
            or_default d.menu_segment
                (if d.core_topic then text "core-menu" else text "community-post"),
          )
          ∷ []);
  })

unfoldable pub thread_event : Env → ThreadDraft → Service → Attempt Announcement
unfolding short_id
thread_event env d s = do
  ensure_wallet_ready_for_mutation (text "create_thread") s
  refuse_if (is_empty d.recipe_id) (text "Thread creation requires recipe_id.")
  refuse_if (is_empty d.title) (text "Thread title is required.")
  value ← validate_and_apply_post_cost d.value_units s
  go (record {
    kind = thread_created;
    fields =
        ((
          text "thread_id",
          short_id (text "thr-")
              (s.community.community_id ++ (d.recipe_id ++ (d.title ++ print_ℤ env.now))),
        )
          ∷ (text "recipe_id", d.recipe_id)
          ∷ (text "title", d.title)
          ∷ (text "markdown", d.markdown)
          ∷ (text "post_value", print_ℤ value)
          ∷ []);
  })

unfoldable pub reply_event : Env → ReplyDraft → Service → Attempt Announcement
unfolding short_id
reply_event env d s = do
  ensure_wallet_ready_for_mutation (text "create_reply") s
  refuse_if (is_empty d.thread_id) (text "Reply creation requires thread_id.")
  refuse_if (is_empty d.markdown) (text "Reply markdown content is required.")
  value ← validate_and_apply_post_cost d.value_units s
  go (record {
    kind = reply_created;
    fields =
        ((
          text "reply_id",
          short_id (text "rpl-")
              (s.community.community_id ++ (d.thread_id ++ (d.markdown ++ print_ℤ env.now))),
        )
          ∷ (text "thread_id", d.thread_id)
          ∷ (text "markdown", d.markdown)
          ∷ (text "post_value", print_ℤ value)
          ∷ []);
  })

unfoldable pub review_event : ReviewDraft → Service → Attempt Announcement
unfolding short_id
review_event d s = do
  ensure_wallet_ready_for_mutation (text "add_review") s
  refuse_if (is_empty d.recipe_id) (text "Review requires recipe_id.")
  refuse_if (ltb_ℤ d.rating (pos 1) || ltb_ℤ (pos 5) d.rating)
      (text "Review rating must be between 1 and 5.")
  value ← validate_and_apply_post_cost d.value_units s
  go (record {
    kind = review_added;
    fields =
        ((
          text "review_id",
          short_id (text "rev-")
              (s.community.community_id ++ (d.recipe_id ++ (print_ℤ d.rating ++ d.markdown))),
        )
          ∷ (text "recipe_id", d.recipe_id)
          ∷ (text "rating", print_ℤ d.rating)
          ∷ (text "markdown", d.markdown)
          ∷ (text "post_value", print_ℤ value)
          ∷ []);
  })

-- std::ranges::find_if on the recipes found
unfoldable pub has_recipe : Bytes → List RecipeSummary → Bool
has_recipe id [] = false
has_recipe id (r ∷ rs) = r.recipe_id == id || has_recipe id rs

abbrev every_recipe : SearchQuery
every_recipe = record { search_text = []; category = [] }

unfoldable pub thumb_event : Env → Bytes → Service → Attempt Announcement
unfolding short_id has_recipe
thumb_event env target s = do
  ensure_wallet_ready_for_mutation (text "add_thumb_up") s
  refuse_if (is_empty target) (text "Thumbs up requires recipe_id.")
  refuse_if (not (has_recipe target (query_recipes every_recipe s.store.views)))
      (text "Thumbs up target recipe was not found.")
  go (record {
    kind = thumbs_up_added;
    fields =
        ((
          text "thumb_id",
          short_id (text "thm-") (s.community.community_id ++ (target ++ print_ℤ env.now)),
        )
          ∷ (text "recipe_id", target)
          ∷ []);
  })
