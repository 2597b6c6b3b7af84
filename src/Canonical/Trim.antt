-- ===== src/Canonical/Trim.antt =====
-- What `trim_copy` and `contains_case_insensitive` promise (src/core/util/canonical.cpp).
use got_soup.Prelude.{
  ℕ, Bytes, true, false, ◌&&◌, [], ◌∷◌, ◌++◌, ◌≡◌, refl, ◌∙◌, ap, ◌↔◌, arith, is_empty, nat_eq,
  Bool-cases, inl, inr, All,
}
use got_soup.Canonical.{
  is_space, trim_begin, trim_end, trim_copy, starts_with, finds, lowercase_copy,
  contains_case_insensitive,
}

abbrev AllSpace : Bytes → Type 0
AllSpace = All (λ c. is_space c ≡ true)

-- The first byte, if there is one, is no space.
abbrev pub BeginsSolid : Bytes → Type 0
BeginsSolid [] = Unit
BeginsSolid (c ∷ _) = is_space c ≡ false

-- The last byte, if there is one, is no space.
abbrev pub EndsSolid : Bytes → Type 0
EndsSolid [] = Unit
EndsSolid (c ∷ []) = is_space c ≡ false
EndsSolid (_ ∷ d ∷ cs) = EndsSolid (d ∷ cs)

-- `text` is `value` less some spaces in front and some behind.
pub record Trims (value text : Bytes) : Type 0 where
  pub front : Bytes
  pub back : Bytes
  pub splits : value ≡ front ++ (text ++ back)
  pub front_space : AllSpace front
  pub back_space : AllSpace back
  pub begins : BeginsSolid text
  pub ends : EndsSolid text

trim_begin-splits :
    (v : Bytes) → (f : Bytes) × AllSpace f × (v ≡ f ++ trim_begin v) × BeginsSolid (trim_begin v)
unfolding trim_begin
trim_begin-splits [] = ([], tt, refl, tt)
trim_begin-splits (c ∷ cs) = elim (Bool-cases (is_space c)) [
  | inl space ↦
      let (f, spaces, e, solid) = trim_begin-splits cs in
      rw space (c ∷ f, (space, spaces), ap (◌∷◌ c) e, solid)
  | inr ink ↦ rw ink ([], tt, refl, ink)
]

EndsSolid-cons :
    (c : ℕ) (cs : Bytes) → (is_empty cs && is_space c) ≡ false → EndsSolid cs → EndsSolid (c ∷ cs)
EndsSolid-cons c [] h s = h
EndsSolid-cons c (d ∷ cs) h s = s

nil_of_is_empty : (v : Bytes) → is_empty v ≡ true → v ≡ []
nil_of_is_empty [] h = refl
nil_of_is_empty (x ∷ v) h = cc

trim_end-splits :
    (v : Bytes) → (b : Bytes) × AllSpace b × (v ≡ trim_end v ++ b) × EndsSolid (trim_end v)
unfolding trim_end
trim_end-splits [] = ([], tt, refl, tt)
trim_end-splits (c ∷ cs) =
    let (b, spaces, e, solid) = trim_end-splits cs in
    elim (Bool-cases (is_empty (trim_end cs) && is_space c)) [
      | inl gone ↦ rw gone (
        c ∷ cs,
        (ground arith, rw e (rw (nil_of_is_empty (trim_end cs) (ground arith)) spaces)),
        refl,
        tt,
      )
      | inr kept ↦ rw kept (b, spaces, ap (◌∷◌ c) e, EndsSolid-cons c (trim_end cs) kept solid)
    ]

BeginsSolid-trim_end : (v : Bytes) → BeginsSolid v → BeginsSolid (trim_end v)
unfolding trim_end
BeginsSolid-trim_end [] h = h
BeginsSolid-trim_end (c ∷ cs) h = elim (Bool-cases (is_empty (trim_end cs) && is_space c)) [
  | inl gone ↦ rw gone tt
  | inr kept ↦ rw kept h
]

-- For every text: `trim_copy` takes off only spaces, in front and behind, and leaves a text that
-- neither begins nor ends with one.
pub trim_copy-Trims : (value : Bytes) → Trims value (trim_copy value)
unfolding trim_copy
trim_copy-Trims value =
    let (f, front, e, begins) = trim_begin-splits value in
    let (b, back, e', ends) = trim_end-splits (trim_begin value) in
    record {
      front = f;
      back = b;
      splits = e ∙ ap (λ v. f ++ v) e';
      front_space = front;
      back_space = back;
      begins = BeginsSolid-trim_end (trim_begin value) begins;
      ends = ends;
    }

-- `n` stands somewhere in `h`.
pub record Holds (n h : Bytes) : Type 0 where
  pub before : Bytes
  pub after : Bytes
  pub splits : h ≡ before ++ (n ++ after)

starts_with-splits : (n h : Bytes) → starts_with n h ≡ true → (r : Bytes) × (h ≡ n ++ r)
unfolding starts_with
starts_with-splits [] h e = (h, refl)
starts_with-splits (x ∷ n) [] e = cc
starts_with-splits (x ∷ n) (c ∷ h) e =
    let (r, e') = starts_with-splits n h (ground arith) in (r, ground arith)

starts_with-append : (n r : Bytes) → starts_with n (n ++ r) ≡ true
unfolding starts_with
starts_with-append [] r = refl
starts_with-append (x ∷ n) r = ground (arith, starts_with-append n r)

finds-Holds : (n h : Bytes) → finds n h ≡ true → Holds n h
unfolding finds
finds-Holds [] [] e = record { before = []; after = []; splits = refl }
finds-Holds (x ∷ n) [] e = cc
finds-Holds n (c ∷ h) e = elim (Bool-cases (starts_with n (c ∷ h))) [
  | inl here ↦
      let (r, e') = starts_with-splits n (c ∷ h) here in
      record { before = []; after = r; splits = e' }
  | inr later ↦
      let rest = finds-Holds n h (ground arith) in
      record { before = c ∷ rest.before; after = rest.after; splits = ap (◌∷◌ c) rest.splits }
]

finds-at : (n before after : Bytes) → finds n (before ++ (n ++ after)) ≡ true
unfolding finds
finds-at [] [] [] = refl
finds-at [] [] (c ∷ after) = unfold starts_with in refl
finds-at (x ∷ n) [] after = rw (starts_with-append (x ∷ n) after)
finds-at n (c ∷ before) after = ground (arith, finds-at n before after)

-- A search is a hit exactly where the needle, in lower case, stands somewhere in the haystack in
-- lower case.
pub contains_case_insensitive_iff :
    (haystack needle : Bytes)
    → (contains_case_insensitive haystack needle ≡ true)
      ↔ Holds (lowercase_copy needle) (lowercase_copy haystack)
unfolding contains_case_insensitive
contains_case_insensitive_iff haystack [] = (
  λ _. record {
    before = [];
    after = lowercase_copy haystack;
    splits = unfold lowercase_copy in refl;
  },
  λ _. refl,
)
contains_case_insensitive_iff haystack (x ∷ n) = (
  finds-Holds (lowercase_copy (x ∷ n)) (lowercase_copy haystack),
  λ h. rw (h.splits) (finds-at (lowercase_copy (x ∷ n)) h.before h.after),
)
