-- ===== src/Codec/Kinds.antt =====
-- Writing and reading event kinds (src/core/storage/store.cpp).
use got_soup.Prelude.{◌≡◌, refl, nat_eq}
use got_soup.Model.{EventKind, recipe_created}
use got_soup.Codec.{event_kind_to_string, event_kind_from_string}

-- Every event kind is read back from its name.
pub event_kind_from_string-event_kind_to_string :
    (k : EventKind) → event_kind_from_string (event_kind_to_string k) ≡ k
unfolding event_kind_from_string event_kind_to_string
event_kind_from_string-event_kind_to_string recipe_created = refl
event_kind_from_string-event_kind_to_string _ = refl
