-- ===== src/Model.antt =====
-- src/core/model/types.hpp: events, and the results of operations.
use got_soup.Prelude.{Bytes, Bool, true, false}
use got_soup.Prelude.Int.{ℤ}

pub data EventKind : Type 0 where
  recipe_created thread_created reply_created review_added thumbs_up_added : EventKind
  block_reward_claimed reward_transferred profile_updated key_rotated : EventKind
  moderator_added moderator_removed content_flagged content_hidden content_unhidden : EventKind
  core_topic_pinned core_topic_unpinned policy_updated : EventKind

pub record EventEnvelope : Type 0 where
  pub event_id : Bytes
  pub kind : EventKind
  pub author_cid : Bytes
  pub unix_ts : ℤ
  pub payload : Bytes
  pub signature : Bytes

-- `Result` of the source, without the data that some successes carry
pub record Outcome : Type 0 where
  pub ok : Bool
  pub message : Bytes

abbrev pub success : Bytes → Outcome
success msg = record { ok = true; message = msg }

abbrev pub failure : Bytes → Outcome
failure msg = record { ok = false; message = msg }
