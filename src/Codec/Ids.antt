-- ===== src/Codec/Ids.antt =====
-- Writing and reading the event ids of a block (src/core/storage/store.cpp).
use got_soup.Prelude.{
  Bytes, false, List, [], ◌∷◌, ◌++◌, ◌≡◌, refl, ◌∙◌, All, ◌==◌, nat_eq, is_empty, append_assoc,
  append-nil,
}
use got_soup.Codec.{join_event_ids, split_from, split_event_ids}

-- An event id that the list can carry: not empty, with no comma.
abbrev pub IsListed : Bytes → Type 0
IsListed i = (is_empty i ≡ false) × All (λ c. (c == b',') ≡ false) i

is_empty-append : (a b : Bytes) → is_empty b ≡ false → is_empty (a ++ b) ≡ false
is_empty-append [] b h = h
is_empty-append (x ∷ a) b h = refl

split_from-append :
    (i current rest : Bytes)
    → All (λ c. (c == b',') ≡ false) i
    → split_from current (i ++ rest) ≡ split_from (current ++ i) rest
unfolding split_from
split_from-append [] current rest h = rw append-nil
split_from-append (c ∷ i) current rest (h, hs) =
    rw (h, split_from) (split_from-append i (current ++ c ∷ []) rest hs ∙ rw append_assoc)

split_from-join_event_ids :
    (ids : List Bytes) → All IsListed ids → split_from [] (join_event_ids ids) ≡ ids
unfolding join_event_ids
split_from-join_event_ids [] h = unfold split_from in refl
split_from-join_event_ids (i ∷ []) ((filled, ok), hs) =
    rw append-nil at (split_from-append i [] [] ok) ∙ unfold split_from in rw filled
split_from-join_event_ids (i ∷ j ∷ ids) ((filled, ok), hs) =
    split_from-append i [] (b',' ∷ join_event_ids (j ∷ ids)) ok
    ∙ one i (j ∷ ids) filled (split_from-join_event_ids (j ∷ ids) hs)
  where
    one :
        (i : Bytes) (ids : List Bytes)
        → is_empty i ≡ false
        → split_from [] (join_event_ids ids) ≡ ids
        → split_from i (b',' ∷ join_event_ids ids) ≡ i ∷ ids
    one i ids filled rest = unfold split_from in rw (filled, rest)

-- Every list of event ids that are not empty and hold no comma is read back.
pub split_event_ids-join_event_ids :
    (ids : List Bytes) → All IsListed ids → split_event_ids (join_event_ids ids) ≡ ids
unfolding split_event_ids
split_event_ids-join_event_ids = split_from-join_event_ids
