-- ===== src/Service/Commands/Guarded.antt =====
-- The guards of the operations that announce events (src/core/service/alpha_service.cpp).
use got_soup.Prelude.{Bool, true, false, ◌&&◌, ◌||◌, not, ◌≡◌, arith}
use got_soup.Model.{Outcome}
use got_soup.Service.State.{
  Service, Env, ensure_wallet_ready_for_mutation, ensure_local_moderator, is_local_moderator,
  submit,
}
use got_soup.Service.Posts.{recipe_event, thread_event, reply_event, review_event, thumb_event}
use got_soup.Service.Transfers.{transfer_event, address_transfer_event}
use got_soup.Service.Moderators.{
  add_moderator_event, remove_moderator_event, flag_event, hide_event, pin_event, purge_target,
  downvote_and_purge_content,
}
use got_soup.Service.Profiles.{
  accepted_name, set_profile_display_name, set_duplicate_name_policy, cipher_password,
  set_profile_cipher_password, key_event, immortal_password, set_immortal_name_with_cipher,
}
use got_soup.Service.Commands.{
  Command, create_recipe, set_immortal_name, add_moderator, remove_moderator, set_content_hidden,
  downvote_and_purge, pin_core_topic, perform,
}

-- the wallet is unlocked, and has its backup
abbrev pub is_ready : Service → Bool
is_ready s =
    s.crypto.ready && (not s.profile.wallet_backup_required && s.profile.onboarding_complete)

abbrev pub is_authorised : Service → Bool
is_authorised s = s.community.moderation_enabled && is_local_moderator s

abbrev pub needs_moderator : Command → Bool
needs_moderator (add_moderator _) = true
needs_moderator (remove_moderator _) = true
needs_moderator (set_content_hidden _ _ _) = true
needs_moderator (downvote_and_purge _ _) = true
needs_moderator (pin_core_topic _ _) = true
needs_moderator _ = false

-- The operation fails, and nothing changes.
abbrev pub IsInert : Outcome × Service → Service → Type 0
IsInert result s = (result.0.ok ≡ false) × (result.1 ≡ s)

-- Where the wallet is not unlocked or lacks its backup, and where a moderation command comes from a user who is no
-- moderator or in a community without moderation: the command fails and changes nothing.
pub perform-IsInert :
    (env : Env) (c : Command) (s : Service)
    → (is_ready s && (not (needs_moderator c) || is_authorised s)) ≡ false
    → IsInert (perform env c s) s
unfolding perform submit ensure_wallet_ready_for_mutation ensure_local_moderator recipe_event
    thread_event reply_event review_event thumb_event transfer_event address_transfer_event
    add_moderator_event remove_moderator_event flag_event hide_event pin_event purge_target
    downvote_and_purge_content accepted_name set_profile_display_name set_duplicate_name_policy
    cipher_password set_profile_cipher_password key_event immortal_password
    set_immortal_name_with_cipher
perform-IsInert env (create_recipe d) s h = ground arith
perform-IsInert env (set_immortal_name d p q) s h = ground arith
perform-IsInert env (downvote_and_purge d p) s h = ground arith
perform-IsInert env _ s h = ground arith

-- A wallet that asks for a backup lets no command through.
pub required-IsInert :
    (env : Env) (c : Command) (s : Service)
    → s.profile.wallet_backup_required ≡ true
    → IsInert (perform env c s) s
required-IsInert env c s h = perform-IsInert env c s (ground (arith, h))
