-- ===== src/Views/Hidden.antt =====
-- The views after the clean-up at the end of Store::materialize_views (src/core/storage/store.cpp).
use got_soup.Prelude.{
  Bytes, true, false, ◌==◌, not, List, [], ◌∷◌, ◌≡◌, refl, bytes_eq, Option, none, some, length,
  contains, All, ap, sym, subst, ◌∙◌, arith, Bool-cases, inl, inr,
}
use got_soup.Prelude.Int.{ℤ, pos}
use got_soup.Prelude.Dict.{
  Dict, lookup, erase_all, keys_where, map_values, lookup-keep, lookup-map_values, lookup-erase_all,
  keys_where-contains,
}
use got_soup.Ledger.{to_int32}
use got_soup.Views.{
  RecipeSummary, ThreadSummary, ReplySummary, Views, Confirmed, recipe_confirmed, thread_confirmed,
  reply_confirmed,
}
use got_soup.Views.Cleanup.{
  tally, count_replies, override_topics, is_hidden_thread, is_hidden_reply, shown_replies,
  prune_replies, recount, remove_hidden, replies_confirmed, apply_confirmation_metrics, clean_up,
}

-- the number of replies that a thread's row must give
abbrev pub number_of : Option (List ReplySummary) → ℤ
number_of none = pos 0
number_of (some rs) = to_int32 (pos (length rs))

abbrev pub AreShown : List Bytes → List ReplySummary → Type 0
AreShown hidden = All (λ (r : ReplySummary). is_hidden_reply hidden r ≡ false)

-- No row is of a hidden object, and each thread's count is that of its replies.
pub record IsClean (hidden : List Bytes) (v : Views) : Type 0 where
  pub recipes_shown :
      (k : Bytes) (r : RecipeSummary) → lookup k v.recipes ≡ some r → contains k hidden ≡ false
  pub threads_shown :
      (k : Bytes) (t : ThreadSummary)
      → lookup k v.threads ≡ some t
      → is_hidden_thread hidden k t ≡ false
  pub replies_shown :
      (k : Bytes) (rs : List ReplySummary)
      → lookup k v.replies_by_thread ≡ some rs
      → AreShown hidden rs
  pub counted :
      (k : Bytes) (t : ThreadSummary)
      → lookup k v.threads ≡ some t
      → t.reply_count ≡ number_of (lookup k v.replies_by_thread)

shown_replies-AreShown :
    (hidden : List Bytes) (rs : List ReplySummary) → AreShown hidden (shown_replies hidden rs)
unfolding shown_replies
shown_replies-AreShown hidden [] = tt
shown_replies-AreShown hidden (r ∷ rs) = elim (Bool-cases (is_hidden_reply hidden r)) [
  | inl h ↦ rw h (shown_replies-AreShown hidden rs)
  | inr h ↦ rw h (h, shown_replies-AreShown hidden rs)
]

prune_replies-AreShown :
    (hidden : List Bytes) (k : Bytes) (d : Dict Bytes (List ReplySummary)) (rs : List ReplySummary)
    → lookup k (prune_replies hidden d) ≡ some rs
    → AreShown hidden rs
unfolding prune_replies lookup
prune_replies-AreShown hidden k [] rs h = cc
prune_replies-AreShown hidden k ((j, ss) ∷ d) rs h =
    ground (arith, prune_replies-AreShown hidden k d rs, shown_replies-AreShown hidden ss)

abbrev counted_row : Option (List ReplySummary) → ThreadSummary → ThreadSummary
counted_row rs t = record t { reply_count = number_of rs }

lookup-recount :
    (k : Bytes) (replies : Dict Bytes (List ReplySummary)) (d : Dict Bytes ThreadSummary)
    → lookup k (recount replies d)
      ≡ (elim (lookup k d) [ none ↦ none | some t ↦ some (counted_row (lookup k replies) t) ])
unfolding recount lookup
lookup-recount k replies [] = refl
lookup-recount k replies ((j, s) ∷ d) = elim (Bool-cases (j == k)) [
  | inl same ↦
      rw same (ap (λ i. some (counted_row (lookup i replies) s)) ((bytes_eq.equals_iff j k).0 same))
  | inr other ↦ rw other (lookup-recount k replies d)
]

-- What is left of the threads is not hidden.
erase_hidden_threads :
    (hidden : List Bytes) (d : Dict Bytes ThreadSummary) (k : Bytes) (t : ThreadSummary)
    → lookup k (erase_all (keys_where (is_hidden_thread hidden) d) d) ≡ some t
    → is_hidden_thread hidden k t ≡ false
erase_hidden_threads hidden d k t h = ground (
  arith,
  h,
  lookup-erase_all k (keys_where (is_hidden_thread hidden) d) d,
  keys_where-contains k (is_hidden_thread hidden) d t,
)

mapped_some :
    {A B : Type 0} (o : Option A) (f : A → B) (b : B)
    → (elim o [ none ↦ none | some a ↦ some (f a) ]) ≡ some b
    → (a : A) × (o ≡ some a) × (f a ≡ b)
mapped_some none f b h = absurd (ground arith)
mapped_some (some a) f b h = (a, refl, cc h)

remove_hidden-IsClean : (hidden : List Bytes) (v : Views) → IsClean hidden (remove_hidden hidden v)
unfolding remove_hidden
remove_hidden-IsClean hidden v =
    let gone = keys_where (is_hidden_thread hidden) v.threads in
    let replies = prune_replies hidden (erase_all gone v.replies_by_thread) in
    record {
      recipes_shown = λ k r h.
          (let kept : not (contains k hidden) ≡ true =
              lookup-keep k (λ id r. not (contains id hidden)) v.recipes r h in
            ground arith);
      threads_shown = λ k t h.
          (let (s, found, same) =
              mapped_some (lookup k (erase_all gone v.threads)) (counted_row (lookup k replies)) t
                (sym (lookup-recount k replies (erase_all gone v.threads)) ∙ h) in
            subst (λ t. is_hidden_thread hidden k t ≡ false) same
              (erase_hidden_threads hidden v.threads k s found));
      replies_shown =
          λ k rs h. prune_replies-AreShown hidden k (erase_all gone v.replies_by_thread) rs h;
      counted = λ k t h.
          (let (s, found, same) =
              mapped_some (lookup k (erase_all gone v.threads)) (counted_row (lookup k replies)) t
                (sym (lookup-recount k replies (erase_all gone v.threads)) ∙ h) in
            subst (λ (t : ThreadSummary). t.reply_count ≡ number_of (lookup k replies)) same refl);
    }

replies_confirmed-AreShown :
    (hidden : List Bytes) (c : Confirmed) (rs : List ReplySummary)
    → AreShown hidden rs
    → AreShown hidden (replies_confirmed c rs)
unfolding replies_confirmed reply_confirmed
replies_confirmed-AreShown hidden c [] h = tt
replies_confirmed-AreShown hidden c (r ∷ rs) (h, hs) =
    (h, replies_confirmed-AreShown hidden c rs hs)

length-replies_confirmed :
    (c : Confirmed) (rs : List ReplySummary) → length (replies_confirmed c rs) ≡ length rs
unfolding replies_confirmed
length-replies_confirmed c [] = refl
length-replies_confirmed c (r ∷ rs) = omega (arith, length-replies_confirmed c rs)

number_of-confirmed :
    (c : Confirmed) (o : Option (List ReplySummary))
    → number_of o ≡ number_of (elim o [ none ↦ none | some rs ↦ some (replies_confirmed c rs) ])
number_of-confirmed c none = refl
number_of-confirmed c (some rs) = rw (length-replies_confirmed c rs)

confirmed-IsClean :
    (hidden : List Bytes) (c : Confirmed) (v : Views)
    → IsClean hidden v
    → IsClean hidden (apply_confirmation_metrics c v)
unfolding apply_confirmation_metrics
confirmed-IsClean hidden c v clean = record {
  recipes_shown = λ k r h.
      (let (s, found, _) =
          mapped_some (lookup k v.recipes) (recipe_confirmed c) r
            (sym (lookup-map_values k (recipe_confirmed c) v.recipes) ∙ h) in
        clean.recipes_shown k s found);
  threads_shown = λ k t h.
      (let (s, found, same) =
          mapped_some (lookup k v.threads) (thread_confirmed c) t
            (sym (lookup-map_values k (thread_confirmed c) v.threads) ∙ h) in
        subst (λ t. is_hidden_thread hidden k t ≡ false) same
          (unfold thread_confirmed in clean.threads_shown k s found));
  replies_shown = λ k rs h.
      (let (s, found, same) =
          mapped_some (lookup k v.replies_by_thread) (replies_confirmed c) rs
            (sym (lookup-map_values k (replies_confirmed c) v.replies_by_thread) ∙ h) in
        subst (AreShown hidden) same
          (replies_confirmed-AreShown hidden c s (clean.replies_shown k s found)));
  counted = λ k t h.
      (let (s, found, same) =
          mapped_some (lookup k v.threads) (thread_confirmed c) t
            (sym (lookup-map_values k (thread_confirmed c) v.threads) ∙ h) in
        let old : (thread_confirmed c s).reply_count ≡ number_of (lookup k v.replies_by_thread) =
          unfold thread_confirmed in clean.counted k s found in
        subst
          (λ (t : ThreadSummary).
            t.reply_count
            ≡ number_of (lookup k (map_values (replies_confirmed c) v.replies_by_thread)))
          same
          (rw (lookup-map_values k (replies_confirmed c) v.replies_by_thread)
            (old ∙ number_of-confirmed c (lookup k v.replies_by_thread))));
}

-- Whatever the views and the moderation state: after the clean-up no recipe is listed whose id is
-- hidden, no thread whose id or whose recipe's id is, and no reply whose id or whose thread's id is, and
-- every thread's number of replies is that of the replies listed for it, as an int.
pub clean_up-IsClean : (c : Confirmed) (v : Views) → IsClean v.moderation.hidden (clean_up c v)
unfolding clean_up
clean_up-IsClean c v =
    let counted : Views = record v {
      recipes =
          override_topics v.moderation.core_topic_overrides
            (tally v.review_totals v.thumbs_up_totals v.recipes);
      threads = count_replies v.replies_by_thread v.threads;
    } in
    confirmed-IsClean v.moderation.hidden c (remove_hidden v.moderation.hidden counted)
      (remove_hidden-IsClean v.moderation.hidden counted)
