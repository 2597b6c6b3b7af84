-- ===== src/Codec.antt =====
-- The text forms of the store's logs (src/core/storage/store.cpp): hexadecimal bytes, event kinds,
-- event lines and the lists of event ids in block lines.
pub mod Hex
pub mod Kinds
pub mod Lines
pub mod Ids
use got_soup.Prelude.{
  ℕ, ◌+◌, ◌-◌, ◌*◌, ◌/◌, ◌%◌, ◌^◌, Bytes, Bool, true, false, ◌&&◌, ◌||◌, not, List, [], ◌∷◌, ◌++◌,
  map, leb, ltb, ◌==◌, is_empty, if◌then◌else◌, nat_eq, bytes_eq, text, Option, none, some, length,
  get_last?,
}
use got_soup.Prelude.Int.{ℤ}
use got_soup.Prelude.Decimal.{read_signed, print_ℤ}
use got_soup.Model.{
  EventKind, recipe_created, thread_created, reply_created, review_added, thumbs_up_added,
  block_reward_claimed, reward_transferred, profile_updated, key_rotated, moderator_added,
  moderator_removed, content_flagged, content_hidden, content_unhidden, core_topic_pinned,
  core_topic_unpinned, policy_updated, EventEnvelope,
}

-- kHex[n]
unfoldable pub hex_digit : ℕ → ℕ
hex_digit n = if ltb n 10 then b'0' + n else b'a' + (n - 10)

unfoldable pub to_hex : Bytes → Bytes
unfolding hex_digit
to_hex [] = []
to_hex (c ∷ cs) = hex_digit (c / 16 % 16) ∷ hex_digit (c % 16) ∷ to_hex cs

-- `none` is the source's -1
unfoldable pub from_hex_digit : ℕ → Option ℕ
from_hex_digit c =
    if leb b'0' c && leb c b'9'
    then some (c - b'0')
    else if leb b'a' c && leb c b'f'
    then some (c - b'a' + 10)
    else if leb b'A' c && leb c b'F'
    then some (c - b'A' + 10)
    else none

-- `(hi << 4U) | lo`, where `lo` has four bits
abbrev pub join_nibbles : Option ℕ → Option ℕ → Option Bytes → Option Bytes
join_nibbles (some hi) (some lo) (some rest) = some ((hi * 16 + lo) ∷ rest)
join_nibbles _ _ _ = none

-- the loop over pairs of digits; `none` is its early return
unfoldable pub hex_pairs : Bytes → Option Bytes
unfolding from_hex_digit
hex_pairs [] = some []
hex_pairs (h ∷ []) = none
hex_pairs (h ∷ l ∷ hex) = join_nibbles (from_hex_digit h) (from_hex_digit l) (hex_pairs hex)

abbrev or_nothing : Option Bytes → Bytes
or_nothing none = []
or_nothing (some b) = b

unfoldable pub from_hex : Bytes → Bytes
unfolding hex_pairs
from_hex hex = if length hex % 2 == 0 then or_nothing (hex_pairs hex) else []

unfoldable pub event_kind_to_string : EventKind → Bytes
unfolding text
event_kind_to_string recipe_created = text "RecipeCreated"
event_kind_to_string thread_created = text "ThreadCreated"
event_kind_to_string reply_created = text "ReplyCreated"
event_kind_to_string review_added = text "ReviewAdded"
event_kind_to_string thumbs_up_added = text "ThumbsUpAdded"
event_kind_to_string block_reward_claimed = text "BlockRewardClaimed"
event_kind_to_string reward_transferred = text "RewardTransferred"
event_kind_to_string profile_updated = text "ProfileUpdated"
event_kind_to_string key_rotated = text "KeyRotated"
event_kind_to_string moderator_added = text "ModeratorAdded"
event_kind_to_string moderator_removed = text "ModeratorRemoved"
event_kind_to_string content_flagged = text "ContentFlagged"
event_kind_to_string content_hidden = text "ContentHidden"
event_kind_to_string content_unhidden = text "ContentUnhidden"
event_kind_to_string core_topic_pinned = text "CoreTopicPinned"
event_kind_to_string core_topic_unpinned = text "CoreTopicUnpinned"
event_kind_to_string policy_updated = text "PolicyUpdated"

-- any other text is a `RecipeCreated`
unfoldable pub event_kind_from_string : Bytes → EventKind
unfolding text
event_kind_from_string t =
    if t == text "ThreadCreated"
    then thread_created
    else if t == text "ReplyCreated"
    then reply_created
    else if t == text "ReviewAdded"
    then review_added
    else if t == text "ThumbsUpAdded"
    then thumbs_up_added
    else if t == text "BlockRewardClaimed"
    then block_reward_claimed
    else if t == text "RewardTransferred"
    then reward_transferred
    else if t == text "ProfileUpdated"
    then profile_updated
    else if t == text "KeyRotated"
    then key_rotated
    else if t == text "ModeratorAdded"
    then moderator_added
    else if t == text "ModeratorRemoved"
    then moderator_removed
    else if t == text "ContentFlagged"
    then content_flagged
    else if t == text "ContentHidden"
    then content_hidden
    else if t == text "ContentUnhidden"
    then content_unhidden
    else if t == text "CoreTopicPinned"
    then core_topic_pinned
    else if t == text "CoreTopicUnpinned"
    then core_topic_unpinned
    else if t == text "PolicyUpdated"
    then policy_updated
    else recipe_created

-- the fields of a line, and the line that ends them
unfoldable pub join_tabs : List Bytes → Bytes
join_tabs [] = b'\n' ∷ []
join_tabs (f ∷ []) = f ++ b'\n' ∷ []
join_tabs (f ∷ g ∷ fs) = f ++ (b'\t' ∷ join_tabs (g ∷ fs))

unfoldable pub serialize_event_line : EventEnvelope → Bytes
unfolding join_tabs event_kind_to_string to_hex
serialize_event_line e = join_tabs (
    e.event_id
    ∷ event_kind_to_string e.kind
    ∷ e.author_cid
    ∷ print_ℤ e.unix_ts
    ∷ to_hex e.payload
    ∷ e.signature
    ∷ [])

abbrev pub first_longer : ℕ → List Bytes → List Bytes
first_longer c [] = (c ∷ []) ∷ []
first_longer c (f ∷ fs) = (c ∷ f) ∷ fs

-- the pieces between the bytes `sep`, in order: one more than there are such bytes
unfoldable pub split_at : ℕ → Bytes → List Bytes
split_at sep [] = [] ∷ []
split_at sep (c ∷ cs) =
    let rest = split_at sep cs in if c == sep then [] ∷ rest else first_longer c rest

unfoldable pub parse_int64 : Bytes → Option ℤ
parse_int64 t = read_signed (2 ^ 63) t

-- what is done with the six fields
unfoldable pub event_of_fields :
    Bytes → Bytes → Bytes → Option ℤ → Bytes → Bytes → Option EventEnvelope
unfolding from_hex event_kind_from_string
event_of_fields id kind author none payload signature = none
event_of_fields id kind author (some ts) payload signature =
    if not (is_empty id) && not (is_empty (from_hex payload))
    then some (record {
      event_id = id;
      kind = event_kind_from_string kind;
      author_cid = author;
      unix_ts = ts;
      payload = from_hex payload;
      signature = signature;
    })
    else none

-- a line with fewer or more than six fields is refused
unfoldable pub event_of_line : List Bytes → Option EventEnvelope
unfolding event_of_fields parse_int64
event_of_line (id ∷ kind ∷ author ∷ ts ∷ payload ∷ signature ∷ []) =
    event_of_fields id kind author (parse_int64 ts) payload signature
event_of_line _ = none

unfoldable pub parse_event_line : Bytes → Option EventEnvelope
unfolding split_at event_of_line
parse_event_line line = event_of_line (split_at b'\t' line)

-- Store::persist_event_log, the text that it writes
unfoldable pub event_log : List EventEnvelope → Bytes
unfolding serialize_event_line
event_log [] = []
event_log (e ∷ es) = serialize_event_line e ++ event_log es

-- `line.empty() || line.front() == '#'`
unfoldable pub is_skipped : Bytes → Bool
is_skipped [] = true
is_skipped (c ∷ _) = c == b'#'

abbrev pub keep_event : Option EventEnvelope → List EventEnvelope × ℕ → List EventEnvelope × ℕ
keep_event none (es, dropped) = (es, dropped + 1)
keep_event (some e) (es, dropped) = (e ∷ es, dropped)

-- the loop of Store::load_event_log: the events, and how many lines were recorded as invalid
unfoldable pub load_lines : List Bytes → List EventEnvelope × ℕ
unfolding is_skipped parse_event_line
load_lines [] = ([], 0)
load_lines (line ∷ lines) =
    let rest = load_lines lines in
    if is_skipped line then rest else keep_event (parse_event_line line) rest

-- std::getline gives the pieces between the newlines. A last piece that is empty is not given, and
-- would be skipped.
unfoldable pub load_event_log : Bytes → List EventEnvelope × ℕ
unfolding load_lines split_at
load_event_log file = load_lines (split_at b'\n' file)

unfoldable pub join_event_ids : List Bytes → Bytes
join_event_ids [] = []
join_event_ids (i ∷ []) = i
join_event_ids (i ∷ j ∷ is) = i ++ (b',' ∷ join_event_ids (j ∷ is))

-- `current` is the piece that is being read
unfoldable pub split_from : Bytes → Bytes → List Bytes
split_from current [] = if is_empty current then [] else current ∷ []
split_from current (c ∷ cs) = elim (c == b',') [
  | true ↦ (if is_empty current then split_from [] cs else current ∷ split_from [] cs)
  | false ↦ split_from (current ++ c ∷ []) cs
]

unfoldable pub split_event_ids : Bytes → List Bytes
unfolding split_from
split_event_ids t = split_from [] t
