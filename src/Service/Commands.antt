-- ===== src/Service/Commands.antt =====
-- The operations with which a user announces events to the peers, as one type, but those of the wallet
-- (src/core/service/alpha_service.cpp).
pub mod Guarded
use got_soup.Prelude.{Bytes, Bool, true, false}
use got_soup.Model.{Outcome}
use got_soup.Service.State.{Service, Env, submit}
use got_soup.Service.Posts.{
  RecipeDraft, ThreadDraft, ReplyDraft, ReviewDraft, recipe_event, thread_event, reply_event,
  review_event, thumb_event,
}
use got_soup.Service.Transfers.{
  RewardTransferDraft, RewardTransferAddressDraft, transfer_event, address_transfer_event,
}
use got_soup.Service.Moderators.{
  add_moderator_event, remove_moderator_event, flag_event, hide_event, pin_event,
  downvote_and_purge_content,
}
use got_soup.Service.Profiles.{
  set_profile_display_name, set_duplicate_name_policy, set_profile_cipher_password, key_event,
  set_immortal_name_with_cipher,
}

pub data Command : Type 0 where
  create_recipe : RecipeDraft → Command
  create_thread : ThreadDraft → Command
  create_reply : ReplyDraft → Command
  add_review : ReviewDraft → Command
  add_thumb_up : Bytes → Command
  transfer_rewards : RewardTransferDraft → Command
  transfer_rewards_to_address : RewardTransferAddressDraft → Command
  set_display_name : Bytes → Command
  set_immortal_name : Bytes → Bytes → Bytes → Command
  set_name_policy : Bool → Command
  set_cipher_password : Bytes → Bytes → Command
  update_key_to_peers : Command
  add_moderator : Bytes → Command
  remove_moderator : Bytes → Command
  flag_content : Bytes → Bytes → Command
  set_content_hidden : Bytes → Bool → Bytes → Command
  downvote_and_purge : Bytes → Bytes → Command
  pin_core_topic : Bytes → Bool → Command

-- the method of AlphaService
unfoldable pub perform : Env → Command → Service → Outcome × Service
perform env (create_recipe d) s = submit env (recipe_event env d s) s
perform env (create_thread d) s = submit env (thread_event env d s) s
perform env (create_reply d) s = submit env (reply_event env d s) s
perform env (add_review d) s = submit env (review_event d s) s
perform env (add_thumb_up id) s = submit env (thumb_event env id s) s
perform env (transfer_rewards d) s = submit env (transfer_event env d s) s
perform env (transfer_rewards_to_address d) s = submit env (address_transfer_event env d s) s
perform env (set_display_name name) s = set_profile_display_name env name s
perform env (set_immortal_name name password salt) s =
    set_immortal_name_with_cipher env name password salt s
perform env (set_name_policy reject) s = set_duplicate_name_policy env reject s
perform env (set_cipher_password password salt) s = set_profile_cipher_password env password salt s
perform env update_key_to_peers s = submit env (key_event s) s
perform env (add_moderator cid) s = submit env (add_moderator_event cid s) s
perform env (remove_moderator cid) s = submit env (remove_moderator_event cid s) s
perform env (flag_content id reason) s = submit env (flag_event id reason s) s
perform env (set_content_hidden id hidden reason) s = submit env (hide_event id hidden reason s) s
perform env (downvote_and_purge id reason) s = downvote_and_purge_content env id reason s
perform env (pin_core_topic id pinned) s = submit env (pin_event id pinned s) s
