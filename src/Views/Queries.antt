-- ===== src/Views/Queries.antt =====
-- The listings of the store: query_recipes, query_threads and query_replies of src/core/storage/store.cpp.
use got_soup.Prelude.{
  Bytes, Bool, true, false, ◌&&◌, ◌||◌, not, List, [], ◌∷◌, is_empty, ◌==◌, bytes_eq, lt_bytes,
  if◌then◌else◌,
}
use got_soup.Prelude.Int.{ltb_ℤ, eqb_ℤ}
use got_soup.Prelude.Dict.{Dict, get_or}
use got_soup.Prelude.Sort.{sort}
use got_soup.Canonical.{contains_case_insensitive}
use got_soup.Views.Rows.{RecipeSummary, ThreadSummary, ReplySummary}
use got_soup.Views.{Views}

pub record SearchQuery : Type 0 where
  pub search_text : Bytes
  pub category : Bytes

-- the values that pass a test, in the order of the map
unfoldable pub values_where : {V : Type 0} → (V → Bool) → Dict Bytes V → List V
values_where P [] = []
values_where P ((k, v) ∷ d) = let rest = values_where P d in if P v then v ∷ rest else rest

-- neither `continue` is taken
unfoldable pub is_hit : SearchQuery → RecipeSummary → Bool
is_hit q r =
    (is_empty q.category || r.category == q.category)
    && (is_empty q.search_text
        || (contains_case_insensitive r.title q.search_text
            || contains_case_insensitive r.recipe_id q.search_text))

unfoldable pub recipe_first : RecipeSummary → RecipeSummary → Bool
recipe_first lhs rhs =
    if lhs.core_topic && not rhs.core_topic
    then true
    else if not lhs.core_topic && rhs.core_topic
    then false
    else if not (eqb_ℤ lhs.updated_unix rhs.updated_unix)
    then ltb_ℤ rhs.updated_unix lhs.updated_unix
    else lt_bytes lhs.recipe_id rhs.recipe_id

unfoldable pub query_recipes : SearchQuery → Views → List RecipeSummary
unfolding values_where is_hit recipe_first
query_recipes q v = sort recipe_first (values_where (is_hit q) v.recipes)

unfoldable pub thread_first : ThreadSummary → ThreadSummary → Bool
thread_first lhs rhs =
    if not (eqb_ℤ lhs.updated_unix rhs.updated_unix)
    then ltb_ℤ rhs.updated_unix lhs.updated_unix
    else lt_bytes lhs.thread_id rhs.thread_id

unfoldable pub query_threads : Bytes → Views → List ThreadSummary
unfolding values_where thread_first
query_threads recipe_id v =
    sort thread_first (values_where (λ t. is_empty recipe_id || t.recipe_id == recipe_id) v.threads)

unfoldable pub reply_first : ReplySummary → ReplySummary → Bool
reply_first lhs rhs =
    if not (eqb_ℤ lhs.updated_unix rhs.updated_unix)
    then ltb_ℤ lhs.updated_unix rhs.updated_unix
    else lt_bytes lhs.reply_id rhs.reply_id

unfoldable pub query_replies : Bytes → Views → List ReplySummary
unfolding reply_first
query_replies thread_id v = sort reply_first (get_or thread_id v.replies_by_thread [])
