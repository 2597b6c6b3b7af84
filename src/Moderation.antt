-- ===== src/Moderation.antt =====
-- Moderation: the branch of the second loop of Store::materialize_views for moderation events
-- (src/core/storage/store.cpp), with the policy that it reads and changes.
pub mod Orderly
pub mod Replayed
use got_soup.Prelude.{
  ℕ, ◌+◌, ◌%◌, ◌^◌, Bytes, Bool, true, false, ◌&&◌, ◌||◌, not, List, [], ◌∷◌, ◌++◌, leb, ◌==◌,
  is_empty, if◌then◌else◌, nat_eq, bytes_eq, Option, none, some, text, length, contains,
}
use got_soup.Prelude.Int.{ℤ, pos, ltb_ℤ, pos_part}
use got_soup.Prelude.Dict.{Dict, insert, lookup, get_or}
use got_soup.Prelude.Sets.{add, remove}
use got_soup.Model.{
  EventKind, moderator_added, moderator_removed, content_flagged, content_hidden, content_unhidden,
  core_topic_pinned, core_topic_unpinned, policy_updated, EventEnvelope,
}
use got_soup.Canonical.{trim_copy}
use got_soup.Ledger.{Payload, text_field, parse_int64_or_zero}

-- alpha::ModerationPolicy, the fields that the pass reads
pub record ModerationPolicy : Type 0 where
  pub moderation_enabled : Bool
  pub require_finality_for_actions : Bool
  pub min_confirmations_for_enforcement : ℕ
  pub max_flags_before_auto_hide : ℕ
  pub moderator_cids : List Bytes

-- the members `moderation_*_`, `moderators_` and `invalid_moderation_events_`
pub record Moderation : Type 0 where
  pub policy : ModerationPolicy
  pub moderators : List Bytes
  pub flag_counts : Dict Bytes ℕ
  pub hidden : List Bytes
  pub auto_hidden : List Bytes
  pub core_topic_overrides : Dict Bytes Bool
  pub invalid : Dict Bytes Bytes

-- the loop over `moderator_cids`
unfoldable pub appoint : List Bytes → List Bytes → List Bytes
appoint [] moderators = moderators
appoint (cid ∷ cids) moderators =
    appoint cids (if is_empty (trim_copy cid) then moderators else add (trim_copy cid) moderators)

-- the state in which the pass begins
unfoldable pub fresh_moderation : ModerationPolicy → Moderation
unfolding appoint
fresh_moderation policy = record {
  policy = policy;
  moderators = appoint policy.moderator_cids [];
  flag_counts = [];
  hidden = [];
  auto_hidden = [];
  core_topic_overrides = [];
  invalid = [];
}

unfoldable pub parse_boolish : Bytes → Bool
parse_boolish value =
    value == text "1"
    || value == text "true"
    || value == text "TRUE"
    || value == text "yes"
    || value == text "YES"

unfoldable pub is_moderation_event : EventKind → Bool
is_moderation_event moderator_added = true
is_moderation_event moderator_removed = true
is_moderation_event content_flagged = true
is_moderation_event content_hidden = true
is_moderation_event content_unhidden = true
is_moderation_event core_topic_pinned = true
is_moderation_event core_topic_unpinned = true
is_moderation_event policy_updated = true
is_moderation_event _ = false

-- all moderation events but flags
unfoldable pub moderator_required : EventKind → Bool
moderator_required moderator_added = true
moderator_required moderator_removed = true
moderator_required content_hidden = true
moderator_required content_unhidden = true
moderator_required core_topic_pinned = true
moderator_required core_topic_unpinned = true
moderator_required policy_updated = true
moderator_required _ = false

-- the first of the keys that the payload has
unfoldable pub first_field : List Bytes → Payload → Bytes → Bytes
first_field [] p otherwise = otherwise
first_field (key ∷ keys) p otherwise = elim (lookup key p) [
  | some value ↦ value
  | none ↦ first_field keys p otherwise
]

unfoldable pub object_id_from_payload : Payload → EventEnvelope → Bytes
unfolding first_field
object_id_from_payload p e =
    first_field
      (text "object_id"
        ∷ text "recipe_id"
        ∷ text "thread_id"
        ∷ text "reply_id"
        ∷ text "target_id"
        ∷ [])
      p e.event_id

-- `invalid_moderation_events_[event_id] = reason; break;`
abbrev pub refuse : EventEnvelope → Bytes → Moderation → Moderation
refuse e reason m = record m { invalid = insert e.event_id reason m.invalid }

unfoldable pub target_cid_of : Payload → Bytes
target_cid_of p = elim (lookup (text "target_cid") p) [ none ↦ [] | some cid ↦ trim_copy cid ]

unfoldable pub add_moderator : EventEnvelope → Bytes → Moderation → Moderation
add_moderator e target m =
    if is_empty target
    then refuse e (text "ModeratorAdded missing target_cid.") m
    else record m { moderators = add target m.moderators }

unfoldable pub remove_moderator : EventEnvelope → Bytes → Moderation → Moderation
remove_moderator e target m =
    if is_empty target
    then refuse e (text "ModeratorRemoved missing target_cid.") m
    else if not (contains target m.moderators)
    then refuse e (text "ModeratorRemoved references unknown target_cid.") m
    else if leb (length m.moderators) 1
    then refuse e (text "ModeratorRemoved would leave community without moderators.") m
    else record m { moderators = remove target m.moderators }

-- `++moderation_flag_counts_[object_id]`, on size_t
unfoldable pub flagged_again : Bytes → Moderation → ℕ
flagged_again id m = (get_or id m.flag_counts 0 + 1) % 2 ^ 64

unfoldable pub flag_content : EventEnvelope → Bytes → Moderation → Moderation
unfolding flagged_again
flag_content e id m =
    if is_empty id
    then refuse e (text "ContentFlagged missing object_id.") m
    else if leb m.policy.max_flags_before_auto_hide (flagged_again id m)
    then record m {
      flag_counts = insert id (flagged_again id m) m.flag_counts;
      hidden = add id m.hidden;
      auto_hidden = add id m.auto_hidden;
    }
    else record m { flag_counts = insert id (flagged_again id m) m.flag_counts }

unfoldable pub hide_content : EventEnvelope → Bytes → Moderation → Moderation
hide_content e id m =
    if is_empty id
    then refuse e (text "ContentHidden missing object_id.") m
    else record m { hidden = add id m.hidden; auto_hidden = remove id m.auto_hidden }

unfoldable pub unhide_content : EventEnvelope → Bytes → Moderation → Moderation
unhide_content e id m =
    if is_empty id
    then refuse e (text "ContentUnhidden missing object_id.") m
    else record m { hidden = remove id m.hidden; auto_hidden = remove id m.auto_hidden }

unfoldable pub pin_core_topic : EventEnvelope → Bytes → Bool → Bytes → Moderation → Moderation
pin_core_topic e recipe pinned reason m =
    if is_empty recipe
    then refuse e reason m
    else record m { core_topic_overrides = insert recipe pinned m.core_topic_overrides }

-- a threshold of the policy: the field where it is there and positive, else what it was
unfoldable pub updated_threshold : Bytes → Payload → ℕ → ℕ
unfolding parse_int64_or_zero
updated_threshold key p old = elim (lookup key p) [
  | none ↦ old
  | some t ↦ if ltb_ℤ (pos 0) (parse_int64_or_zero t) then pos_part (parse_int64_or_zero t) else old
]

unfoldable pub update_policy : Payload → ModerationPolicy → ModerationPolicy
unfolding updated_threshold parse_boolish
update_policy p policy = record policy {
  max_flags_before_auto_hide =
      updated_threshold (text "max_flags_before_auto_hide") p policy.max_flags_before_auto_hide;
  min_confirmations_for_enforcement =
      updated_threshold (text "min_confirmations_for_enforcement") p
        policy.min_confirmations_for_enforcement;
  require_finality_for_actions = elim (lookup (text "require_finality_for_actions") p) [
    | none ↦ policy.require_finality_for_actions
    | some t ↦ parse_boolish t
  ];
}

-- the switch over the kind
unfoldable pub act : EventKind → EventEnvelope → Payload → Moderation → Moderation
unfolding object_id_from_payload target_cid_of text_field
act moderator_added e p m = add_moderator e (target_cid_of p) m
act moderator_removed e p m = remove_moderator e (target_cid_of p) m
act content_flagged e p m = flag_content e (object_id_from_payload p e) m
act content_hidden e p m = hide_content e (object_id_from_payload p e) m
act content_unhidden e p m = unhide_content e (object_id_from_payload p e) m
act core_topic_pinned e p m =
    pin_core_topic e (text_field (text "recipe_id") p) true
      (text "CoreTopicPinned missing recipe_id.") m
act core_topic_unpinned e p m =
    pin_core_topic e (text_field (text "recipe_id") p) false
      (text "CoreTopicUnpinned missing recipe_id.") m
act policy_updated e p m = record m { policy = update_policy p m.policy }
act _ e p m = m

-- `moderation_event_is_effective`, of the event's confirmations
unfoldable pub is_effective : ModerationPolicy → ℕ → Bool
is_effective policy confirmations =
    if not policy.moderation_enabled
    then false
    else if not policy.require_finality_for_actions
    then true
    else leb policy.min_confirmations_for_enforcement confirmations

-- the branch for a moderation event
unfoldable pub moderate : ℕ → EventEnvelope → Payload → Moderation → Moderation
unfolding is_effective
moderate confirmations e p m =
    let acted = act e.kind e p m in
    if not (is_effective m.policy confirmations)
    then m
    else if moderator_required e.kind && not (contains e.author_cid m.moderators)
    then refuse e
        (text "Moderator authority required for moderation event by " ++ e.author_cid ++ text ".") m
    else acted
