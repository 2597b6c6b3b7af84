-- ===== src/Service/Names.antt =====
-- Display names and addresses: what the service accepts, and to which identity they lead
-- (src/core/service/alpha_service.cpp).
pub mod CleanIds
use got_soup.Prelude.{
  ℕ, ◌+◌, ◌-◌, Bytes, ◌&&◌, ◌||◌, not, List, [], ◌∷◌, ◌++◌, is_empty, leb, ◌==◌, nat_eq, bytes_eq,
  text, take, if◌then◌else◌, Option, none, some,
}
use got_soup.Prelude.Dict.{Dict, insert, lookup}
use got_soup.Model.{EventKind, EventEnvelope, profile_updated}
use got_soup.Canonical.{trim_copy, lowercase_copy, parse_canonical_map}
use got_soup.Store.Queries.{reward_balances}
use got_soup.Service.State.{Service}

unfoldable pub sanitize_display_name : Bytes → Bytes
sanitize_display_name value = take 48 (trim_copy value)

unfoldable pub sanitize_cid : Bytes → Bytes
sanitize_cid cid = trim_copy cid

-- the loop of `sanitize_community_id` on one byte
unfoldable pub clean_byte : ℕ → Bytes
clean_byte c =
    if (leb b'a' c && leb c b'z') || (leb b'0' c && leb c b'9')
    then c ∷ []
    else if leb b'A' c && leb c b'Z'
    then (c - b'A' + b'a') ∷ []
    else if c == b'_' || (c == b'-' || c == b' ')
    then b'-' ∷ []
    else []

unfoldable pub clean_bytes : Bytes → Bytes
clean_bytes [] = []
clean_bytes (c ∷ cs) = clean_byte c ++ clean_bytes cs

unfoldable pub drop_dashes : Bytes → Bytes
drop_dashes [] = []
drop_dashes (c ∷ cs) = if c == b'-' then drop_dashes cs else c ∷ cs

unfoldable pub drop_last_dashes : Bytes → Bytes
drop_last_dashes [] = []
drop_last_dashes (c ∷ cs) =
    let rest = drop_last_dashes cs in if is_empty rest && c == b'-' then [] else c ∷ rest

unfoldable pub sanitize_community_id : Bytes → Bytes
unfolding clean_bytes drop_dashes drop_last_dashes
sanitize_community_id id = drop_last_dashes (drop_dashes (clean_bytes id))

-- the name that one event gives to its author
unfoldable pub name_in : EventKind → EventEnvelope → Option Bytes
unfolding sanitize_display_name
name_in profile_updated e = elim (lookup (text "display_name") (parse_canonical_map e.payload)) [
  | none ↦ none
  | some name ↦
      if is_empty (sanitize_display_name name) then none else some (sanitize_display_name name)
]
name_in _ e = none

-- the loop over the events
unfoldable pub observe : List EventEnvelope → Dict Bytes Bytes → Dict Bytes Bytes
unfolding name_in
observe [] names = names
observe (e ∷ es) names = elim (name_in e.kind e) [
  | none ↦ observe es names
  | some name ↦ observe es (insert e.author_cid name names)
]

unfoldable pub observed_display_names_by_cid : Service → Dict Bytes Bytes
unfolding observe
observed_display_names_by_cid s =
    let names = observe s.store.timeline.events [] in
    if is_empty s.profile.local_display_name
    then names
    else insert s.crypto.identity.cid s.profile.local_display_name names

-- the loop of `resolve_display_name_to_cid`; `none` is its early return
unfoldable pub match_name : Bytes → Dict Bytes Bytes → Option Bytes → Option Bytes
match_name wanted [] found = found
match_name wanted ((cid, name) ∷ names) found =
    if not (lowercase_copy name == wanted) then match_name wanted names found else elim found [
      | none ↦ match_name wanted names (some cid)
      | some other ↦ if not (other == cid) then none else match_name wanted names (some cid)
    ]

unfoldable pub resolve_display_name_to_cid : Bytes → Service → Option Bytes
unfolding match_name sanitize_display_name
resolve_display_name_to_cid display_name s =
    let normalized = lowercase_copy (sanitize_display_name display_name) in
    if is_empty normalized
    then none
    else match_name normalized (observed_display_names_by_cid s) none

-- kAddressPrefix is `S`
unfoldable pub soup_address_from_cid : (Bytes → Bytes) → Bytes → Bytes
soup_address_from_cid hash cid =
    if is_empty cid
    then text "S000000000000000000000000000000000000000"
    else b'S' ∷ take 39 (hash cid)

-- the first key whose address is the one that is looked for
unfoldable pub find_address : {V : Type 0} → (Bytes → Bytes) → Bytes → Dict Bytes V → Option Bytes
unfolding soup_address_from_cid
find_address hash needle [] = none
find_address hash needle ((cid, _) ∷ d) =
    let rest = find_address hash needle d in
    if soup_address_from_cid hash cid == needle then some cid else rest

abbrev or_else : Option Bytes → Option Bytes → Option Bytes
or_else none other = other
or_else (some cid) other = some cid

unfoldable pub resolve_address_to_cid : Bytes → Service → Option Bytes
unfolding find_address
resolve_address_to_cid address s =
    let needle = trim_copy address in
    if is_empty needle
    then none
    else if soup_address_from_cid s.store.settings.hash s.crypto.identity.cid == needle
    then some s.crypto.identity.cid
    else or_else (find_address s.store.settings.hash needle (reward_balances s.store))
        (find_address s.store.settings.hash needle (observed_display_names_by_cid s))
