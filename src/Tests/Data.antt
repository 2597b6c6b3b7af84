-- ===== src/Tests/Data.antt =====
-- Events, settings and blocks of the examples.
use got_soup.Prelude.{Bytes, List, [], ◌∷◌, false, true, text, some}
use got_soup.Prelude.Int.{pos}
use got_soup.Model.{
  EventKind, EventEnvelope, block_reward_claimed, reward_transferred, recipe_created,
}
use got_soup.Canonical.{canonical_join, Field}
use got_soup.Chain.{Block}
use got_soup.Ledger.{Context}
use got_soup.Moderation.{ModerationPolicy}
use got_soup.Timeline.{Settings, Timeline}

abbrev pub alice : Bytes
alice = b'a' ∷ []

abbrev pub bob : Bytes
bob = b'b' ∷ []

-- A hash whose values begin with two zeros.
abbrev pub zeros_before : Bytes → Bytes
zeros_before b = b'0' ∷ b'0' ∷ b

abbrev pub claim_fields : List Field
claim_fields =
    ((text "block_index", text "1")
      ∷ (text "pow_hash", text "00m|7")
      ∷ (text "pow_material", text "m")
      ∷ (text "pow_nonce", text "7")
      ∷ (text "reward", text "50")
      ∷ (text "witness_root", text "00a|1|50|00m|7")
      ∷ [])

abbrev pub transfer_fields : List Field
transfer_fields =
    ((text "amount", text "10")
      ∷ (text "fee", text "1")
      ∷ (text "nonce", text "1")
      ∷ (text "to_cid", text "b")
      ∷ (text "witness_root", text "00a|b|10|1|1")
      ∷ [])

-- An amount whose sum with its fee is 2^63 and more.
abbrev pub huge_fields : List Field
huge_fields =
    ((text "amount", text "9223372036854775807")
      ∷ (text "fee", text "92233720368547758")
      ∷ (text "nonce", text "1")
      ∷ (text "to_cid", text "b")
      ∷ (text "witness_root", text "00a|b|9223372036854775807|92233720368547758|1")
      ∷ [])

abbrev pub post_fields : List Field
post_fields = (text "post_value", text "5") ∷ []

abbrev pub event_with : Bytes → EventKind → List Field → EventEnvelope
event_with id kind fields = record {
  event_id = id;
  kind = kind;
  author_cid = alice;
  unix_ts = pos 100;
  payload = canonical_join fields;
  signature = b's' ∷ [];
}

abbrev pub claim : EventEnvelope
claim = event_with (text "c1") block_reward_claimed claim_fields

abbrev pub transfer : EventEnvelope
transfer = event_with (text "t1") reward_transferred transfer_fields

abbrev pub huge_transfer : EventEnvelope
huge_transfer = event_with (text "t2") reward_transferred huge_fields

abbrev pub post : EventEnvelope
post = event_with (text "p1") recipe_created post_fields

abbrev pub first_block : Block
first_block = record {
  index = 1;
  opened_unix = pos 100;
  reserved = false;
  confirmed = true;
  backfilled = false;
  event_ids = [];
  psz_timestamp = [];
  prev_hash = [];
  merkle_root = [];
  content_hash = [];
  block_hash = [];
}

abbrev pub context : Context
context = record {
  hash = zeros_before;
  decayed = λ units n. units;
  block_reward_units = pos 50;
  max_token_supply_units = pos 69359946;
  min_subsidy_units = pos 1;
  pow_difficulty_nibbles = pos 2;
  blocks = first_block ∷ [];
  confirmed_tip = some 1;
}

abbrev pub settings : Settings
settings = record {
  hash = zeros_before;
  network_id = text "main";
  hardcoded_genesis_merkle_root = [];
  hardcoded_genesis_block_hash = [];
  max_block_events = 1;
  max_block_bytes = 10000;
}

abbrev pub timeline : Timeline
timeline = record {
  events = claim ∷ transfer ∷ [];
  blocks = [];
  event_to_block = [];
  genesis_psz_timestamp = [];
  block_interval_seconds = 150;
}

abbrev pub policy : ModerationPolicy
policy = record {
  moderation_enabled = true;
  require_finality_for_actions = false;
  min_confirmations_for_enforcement = 6;
  max_flags_before_auto_hide = 1;
  moderator_cids = bob ∷ [];
}
