-- ===== src/Service/Names/CleanIds.antt =====
-- The ids of communities (sanitize_community_id of src/core/service/alpha_service.cpp).
use got_soup.Prelude.{
  ℕ, Bytes, Bool, true, false, ◌||◌, ◌&&◌, [], ◌∷◌, ◌++◌, ◌==◌, nat_eq, leb, is_empty, ◌≡◌, refl,
  ap, ◌∙◌, arith, All, All-append, Bool-cases, inl, inr,
}
use got_soup.Canonical.{is_space}
use got_soup.Service.Names.{
  clean_byte, clean_bytes, drop_dashes, drop_last_dashes, sanitize_community_id,
}

-- a lower-case letter, a digit or a dash
abbrev pub is_id_byte : ℕ → Bool
is_id_byte c = (leb b'a' c && leb c b'z') || ((leb b'0' c && leb c b'9') || c == b'-')

abbrev pub IsId : Bytes → Type 0
IsId = All (λ c. is_id_byte c ≡ true)

abbrev Begins : Bytes → Type 0
Begins [] = Unit
Begins (c ∷ _) = (c == b'-') ≡ false

abbrev Ends : Bytes → Type 0
Ends [] = Unit
Ends (c ∷ []) = (c == b'-') ≡ false
Ends (_ ∷ d ∷ cs) = Ends (d ∷ cs)

clean_byte-IsId : (c : ℕ) → IsId (clean_byte c)
unfolding clean_byte
clean_byte-IsId c = ground arith

clean_bytes-IsId : (v : Bytes) → IsId (clean_bytes v)
unfolding clean_bytes
clean_bytes-IsId [] = tt
clean_bytes-IsId (c ∷ v) =
    All-append (λ b. is_id_byte b ≡ true) (clean_byte c) (clean_bytes v) (clean_byte-IsId c)
      (clean_bytes-IsId v)

drop_dashes-IsId : (v : Bytes) → IsId v → IsId (drop_dashes v)
unfolding drop_dashes
drop_dashes-IsId [] h = tt
drop_dashes-IsId (c ∷ v) (h, hs) = elim (Bool-cases (c == b'-')) [
  | inl dash ↦ rw dash (drop_dashes-IsId v hs)
  | inr other ↦ rw other (h, hs)
]

drop_dashes-Begins : (v : Bytes) → Begins (drop_dashes v)
unfolding drop_dashes
drop_dashes-Begins [] = tt
drop_dashes-Begins (c ∷ v) = elim (Bool-cases (c == b'-')) [
  | inl dash ↦ rw dash (drop_dashes-Begins v)
  | inr other ↦ rw other other
]

Ends-cons : (c : ℕ) (v : Bytes) → (is_empty v && c == b'-') ≡ false → Ends v → Ends (c ∷ v)
Ends-cons c [] h s = h
Ends-cons c (d ∷ v) h s = s

-- What the last loop leaves.
record IsCut (v cut : Bytes) : Type 0 where
  clean : IsId v → IsId cut
  begins : Begins v → Begins cut
  ends : Ends cut

drop_last_dashes-IsCut : (v : Bytes) → IsCut v (drop_last_dashes v)
unfolding drop_last_dashes
drop_last_dashes-IsCut [] = record { clean = λ h. tt; begins = λ h. tt; ends = tt }
drop_last_dashes-IsCut (c ∷ v) =
    let rest = drop_last_dashes-IsCut v in
    elim (Bool-cases (is_empty (drop_last_dashes v) && c == b'-')) [
      | inl gone ↦ rw gone (record { clean = λ h. tt; begins = λ h. tt; ends = tt })
      | inr kept ↦ rw kept (record {
        clean = λ h. (h.0, rest.clean h.1);
        begins = λ h. h;
        ends = Ends-cons c (drop_last_dashes v) kept rest.ends;
      })
    ]

clean_byte-id : (c : ℕ) (rest : Bytes) → is_id_byte c ≡ true → clean_byte c ++ rest ≡ c ∷ rest
unfolding clean_byte
clean_byte-id c rest h = ground arith

clean_bytes-id : (v : Bytes) → IsId v → clean_bytes v ≡ v
unfolding clean_bytes
clean_bytes-id [] h = refl
clean_bytes-id (c ∷ v) (h, hs) =
    clean_byte-id c (clean_bytes v) h ∙ ap (λ (r : Bytes). c ∷ r) (clean_bytes-id v hs)

drop_dashes-id : (v : Bytes) → Begins v → drop_dashes v ≡ v
unfolding drop_dashes
drop_dashes-id [] h = refl
drop_dashes-id (c ∷ v) h = rw h refl

drop_last_dashes-id : (v : Bytes) → Ends v → drop_last_dashes v ≡ v
unfolding drop_last_dashes
drop_last_dashes-id [] h = refl
drop_last_dashes-id (c ∷ []) h = rw h refl
drop_last_dashes-id (c ∷ d ∷ v) h = rw (drop_last_dashes-id (d ∷ v) h) refl

pub sanitize_community_id-IsId : (id : Bytes) → IsId (sanitize_community_id id)
unfolding sanitize_community_id
sanitize_community_id-IsId id =
    (drop_last_dashes-IsCut (drop_dashes (clean_bytes id))).clean
      (drop_dashes-IsId (clean_bytes id) (clean_bytes-IsId id))

pub sanitize_community_id_twice :
    (id : Bytes) → sanitize_community_id (sanitize_community_id id) ≡ sanitize_community_id id
unfolding sanitize_community_id
sanitize_community_id_twice id =
    let cut = drop_last_dashes-IsCut (drop_dashes (clean_bytes id)) in
    let v = drop_last_dashes (drop_dashes (clean_bytes id)) in
    rw
      (
        clean_bytes-id v (cut.clean (drop_dashes-IsId (clean_bytes id) (clean_bytes-IsId id))),
        drop_dashes-id v (cut.begins (drop_dashes-Begins (clean_bytes id))),
      )
      (drop_last_dashes-id v cut.ends)

pub id_solid : (v : Bytes) → IsId v → All (λ c. is_space c ≡ false) v
unfolding is_space
id_solid [] h = tt
id_solid (c ∷ v) (h, hs) = (ground arith, id_solid v hs)
