-- ===== src/Tests/Forum.antt =====
-- Examples of moderation and the views.
use got_soup.Prelude.{[], ◌∷◌, refl, ◌≤◌, text, arith, nat_eq, bytes_eq, length}
use got_soup.Prelude.Int.{pos}
use got_soup.Model.{EventEnvelope, content_flagged, content_hidden, recipe_created}
use got_soup.Moderation.{appoint, fresh_moderation}
use got_soup.Canonical.{trim_copy, trim_begin, trim_end, is_space}
use got_soup.Prelude.Sets.{add}
use got_soup.Moderation.Orderly.{IsOrderly}
use got_soup.Moderation.Replayed.{rebuild_views-IsOrderly, OnlyFlags, replay-OnlyFlags}
use got_soup.Views.{Views, Confirmed, replay, fresh_views}
use got_soup.Views.Cleanup.{clean_up, rebuild_views}
use got_soup.Views.Hidden.{IsClean, clean_up-IsClean}
use got_soup.Tests.Data.{policy, first_block, event_with}

abbrev confirmed : Confirmed
confirmed = record { blocks = first_block ∷ []; event_to_block = []; now = pos 200 }

abbrev flag : EventEnvelope
flag = event_with (text "f1") content_flagged ((text "object_id", text "r1") ∷ [])

abbrev hide : EventEnvelope
hide = event_with (text "h1") content_hidden ((text "object_id", text "r2") ∷ [])

abbrev recipe : EventEnvelope
recipe = event_with (text "e1") recipe_created ((text "recipe_id", text "r1") ∷ [])

abbrev flagged : Views
flagged = replay confirmed [] (recipe ∷ flag ∷ hide ∷ []) (fresh_views policy)

clean_up-IsClean_example : IsClean flagged.moderation.hidden (clean_up confirmed flagged)
clean_up-IsClean_example = clean_up-IsClean confirmed flagged

rebuild_views-IsOrderly_example :
    (1 ≤ length (rebuild_views confirmed policy [] (flag ∷ hide ∷ [])).moderation.moderators)
    × IsOrderly (rebuild_views confirmed policy [] (flag ∷ hide ∷ [])).moderation
unfolding appoint trim_copy trim_begin trim_end is_space add fresh_moderation
rebuild_views-IsOrderly_example =
    rebuild_views-IsOrderly confirmed policy [] (flag ∷ hide ∷ []) (omega arith)

replay-OnlyFlags_example :
    OnlyFlags
      (fresh_views policy).moderation
      (replay confirmed [] (flag ∷ hide ∷ []) (fresh_views policy)).moderation
unfolding appoint fresh_views trim_copy trim_begin trim_end is_space add fresh_moderation
replay-OnlyFlags_example =
    replay-OnlyFlags confirmed [] (flag ∷ hide ∷ []) (fresh_views policy) (refl, (refl, tt))
