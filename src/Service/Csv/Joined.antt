-- ===== src/Service/Csv/Joined.antt =====
-- What `join_csv` writes can stand in a line (src/core/service/alpha_service.cpp).
use got_soup.Prelude.{
  Bytes, false, List, [], ◌∷◌, ◌++◌, ◌==◌, bytes_eq, nat_eq, is_empty, ◌≡◌, refl, All, All-append,
  Bool-cases, inl, inr,
}
use got_soup.Canonical.{trim_copy}
use got_soup.Canonical.Trim.{BeginsSolid, EndsSolid, trim_copy-Trims}
use got_soup.Crypto.Backup.{HasNo}
use got_soup.Service.KeyValues.Lines.{IsTrimmed, trim_copy-solid}
use got_soup.Service.Csv.{trimmed_values, split_csv, join_parts, join_csv}
use got_soup.Service.Csv.Listed.{All-listed, HasNo-trim_copy, listed, split_csv-join_csv}

-- A value that can stand between commas in a line.
record IsPart (v : Bytes) : Type 0 where
  begins : BeginsSolid v
  ends : EndsSolid v
  filled : is_empty v ≡ false
  no_newline : HasNo b'\n' v

trimmed_values-parts : (vs : List Bytes) → All (HasNo b'\n') vs → All IsPart (trimmed_values vs)
unfolding trimmed_values
trimmed_values-parts [] h = tt
trimmed_values-parts (v ∷ vs) (h, hs) = elim (Bool-cases (is_empty (trim_copy v))) [
  | inl none_left ↦ rw none_left (trimmed_values-parts vs hs)
  | inr filled ↦
      let t = trim_copy-Trims v in
      rw filled (
        record {
          begins = t.begins;
          ends = t.ends;
          filled = filled;
          no_newline = HasNo-trim_copy b'\n' v h;
        },
        trimmed_values-parts vs hs,
      )
]

BeginsSolid-append : (v w : Bytes) → is_empty v ≡ false → BeginsSolid v → BeginsSolid (v ++ w)
BeginsSolid-append [] w f h = cc
BeginsSolid-append (c ∷ v) w f h = h

pub EndsSolid-append : (v w : Bytes) → is_empty w ≡ false → EndsSolid w → EndsSolid (v ++ w)
EndsSolid-append [] w f h = h
EndsSolid-append (c ∷ []) [] f h = cc
EndsSolid-append (c ∷ []) (d ∷ w) f h = h
EndsSolid-append (c ∷ d ∷ v) w f h = EndsSolid-append (d ∷ v) w f h

EndsSolid-comma : (w : Bytes) → is_empty w ≡ false → EndsSolid w → EndsSolid (b',' ∷ w)
EndsSolid-comma [] f h = cc
EndsSolid-comma (c ∷ w) f h = h

filled-append : (v w : Bytes) → is_empty v ≡ false → is_empty (v ++ w) ≡ false
filled-append [] w h = cc
filled-append (c ∷ v) w h = refl

join_parts-IsPart :
    (v : Bytes) (vs : List Bytes) → All IsPart (v ∷ vs) → IsPart (join_parts (v ∷ vs))
unfolding join_parts
join_parts-IsPart v [] (h, hs) = h
join_parts-IsPart v (w ∷ vs) (h, hs) =
    let rest = join_parts-IsPart w vs hs in
    let tail = join_parts (w ∷ vs) in
    record {
      begins = BeginsSolid-append v (b',' ∷ tail) h.filled h.begins;
      ends = EndsSolid-append v (b',' ∷ tail) refl (EndsSolid-comma tail rest.filled rest.ends);
      filled = filled-append v (b',' ∷ tail) h.filled;
      no_newline =
          All-append (λ c. (c == b'\n') ≡ false) v (b',' ∷ tail) h.no_newline
            (refl, rest.no_newline);
    }

part-IsTrimmed : (v : Bytes) → IsPart v → IsTrimmed v
part-IsTrimmed v h = record {
  trimmed = trim_copy-solid v h.begins h.ends;
  no_newline = h.no_newline;
}

joined-IsTrimmed : (vs : List Bytes) → All IsPart vs → IsTrimmed (join_parts vs)
unfolding join_parts trim_copy
joined-IsTrimmed [] h = record { trimmed = refl; no_newline = tt }
joined-IsTrimmed (v ∷ vs) h = part-IsTrimmed (join_parts (v ∷ vs)) (join_parts-IsPart v vs h)

pub join_csv-IsTrimmed : (vs : List Bytes) → All (HasNo b'\n') vs → IsTrimmed (join_csv vs)
unfolding join_csv
join_csv-IsTrimmed vs h = joined-IsTrimmed _ (All-listed IsPart vs (trimmed_values-parts vs h))

parts-no_newline : (vs : List Bytes) → All IsPart vs → All (HasNo b'\n') vs
parts-no_newline [] h = tt
parts-no_newline (v ∷ vs) (h, hs) = (h.no_newline, parts-no_newline vs hs)

pub join_csv_again-IsTrimmed :
    (vs : List Bytes)
    → All (HasNo b',') vs
    → All (HasNo b'\n') vs
    → IsTrimmed (join_csv (split_csv (join_csv vs)))
join_csv_again-IsTrimmed vs h g = rw (split_csv-join_csv vs h) (
    join_csv-IsTrimmed (listed vs)
      (parts-no_newline (listed vs) (All-listed IsPart vs (trimmed_values-parts vs g))))
