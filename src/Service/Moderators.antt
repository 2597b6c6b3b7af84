-- ===== src/Service/Moderators.antt =====
-- Moderation by the local user (src/core/service/alpha_service.cpp).
use got_soup.Prelude.{Bytes, Bool, true, not, [], ◌∷◌, is_empty, if◌then◌else◌, text}
use got_soup.Model.{
  Outcome, moderator_added, moderator_removed, content_flagged, content_hidden, content_unhidden,
  core_topic_pinned, core_topic_unpinned,
}
use got_soup.Canonical.{trim_copy}
use got_soup.Service.State.{
  Service, Env, Attempt, go, stop, ◌>>◌, refuse_if, ensure_wallet_ready_for_mutation,
  ensure_local_moderator, Announcement, submit,
}
use got_soup.Service.Names.{sanitize_cid}
use got_soup.Service.Posts.{or_default}

unfoldable pub add_moderator_event : Bytes → Service → Attempt Announcement
add_moderator_event cid s = do
  ensure_wallet_ready_for_mutation (text "add_moderator") s
  ensure_local_moderator (text "add_moderator") s
  refuse_if (is_empty (sanitize_cid cid)) (text "Add moderator requires a non-empty CID.")
  go (record {
    kind = moderator_added;
    fields = (text "target_cid", sanitize_cid cid) ∷ (text "action", text "moderator-add") ∷ [];
  })

unfoldable pub remove_moderator_event : Bytes → Service → Attempt Announcement
remove_moderator_event cid s = do
  ensure_wallet_ready_for_mutation (text "remove_moderator") s
  ensure_local_moderator (text "remove_moderator") s
  refuse_if (is_empty (sanitize_cid cid)) (text "Remove moderator requires a non-empty CID.")
  go (record {
    kind = moderator_removed;
    fields = (text "target_cid", sanitize_cid cid) ∷ (text "action", text "moderator-remove") ∷ [];
  })

unfoldable pub flag_event : Bytes → Bytes → Service → Attempt Announcement
flag_event object_id reason s = do
  ensure_wallet_ready_for_mutation (text "flag_content") s
  refuse_if (is_empty (trim_copy object_id)) (text "Flag content requires an object_id.")
  go (record {
    kind = content_flagged;
    fields =
        ((text "object_id", trim_copy object_id)
          ∷ (text "reason", or_default (trim_copy reason) (text "flagged"))
          ∷ []);
  })

unfoldable pub hide_event : Bytes → Bool → Bytes → Service → Attempt Announcement
hide_event object_id hidden reason s = do
  ensure_wallet_ready_for_mutation (text "set_content_hidden") s
  ensure_local_moderator (text "set_content_hidden") s
  refuse_if (is_empty (trim_copy object_id)) (text "Set content hidden requires an object_id.")
  go (record {
    kind = if hidden then content_hidden else content_unhidden;
    fields =
        ((text "object_id", trim_copy object_id)
          ∷ (text "hidden", if hidden then text "1" else text "0")
          ∷ (
            text "reason",
            or_default (trim_copy reason) (if hidden then text "hidden" else text "unhidden"),
          )
          ∷ []);
  })

unfoldable pub pin_event : Bytes → Bool → Service → Attempt Announcement
pin_event recipe_id pinned s = do
  ensure_wallet_ready_for_mutation (text "pin_core_topic") s
  ensure_local_moderator (text "pin_core_topic") s
  refuse_if (is_empty (trim_copy recipe_id)) (text "Pin core topic requires a recipe_id.")
  go (record {
    kind = if pinned then core_topic_pinned else core_topic_unpinned;
    fields =
        ((text "recipe_id", trim_copy recipe_id)
          ∷ (text "pinned", if pinned then text "1" else text "0")
          ∷ []);
  })

-- flagged first, then hidden
abbrev flag_and_hide : Env → Bytes → Bytes → Service → Outcome × Service
flag_and_hide env target reason s =
    let (flagged, s') = submit env (flag_event target reason s) s in
    if not flagged.ok then (flagged, s') else submit env (hide_event target true reason s') s'

-- the tests of `downvote_and_purge_content`
unfoldable pub purge_target : Bytes → Service → Attempt Bytes
purge_target object_id s = do
  ensure_local_moderator (text "downvote_and_purge_content") s
  refuse_if (is_empty (trim_copy object_id)) (text "Downvote purge requires an object_id.")
  go (trim_copy object_id)

unfoldable pub downvote_and_purge_content : Env → Bytes → Bytes → Service → Outcome × Service
unfolding purge_target submit
downvote_and_purge_content env object_id reason s = elim (purge_target object_id s) [
  | stop r ↦ (r, s)
  | go target ↦
      flag_and_hide env target
        (or_default (trim_copy reason) (text "downvoted and purged from forum views")) s
]
