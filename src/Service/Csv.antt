-- ===== src/Service/Csv.antt =====
-- Lists of values with commas between them (src/core/service/alpha_service.cpp).
pub mod Listed
pub mod Joined
use got_soup.Prelude.{
  ℕ, ◌^◌, Bytes, Bool, true, false, ◌||◌, ◌&&◌, not, List, [], ◌∷◌, ◌++◌, ◌==◌, bytes_eq, text,
  Option, none, some, is_empty, if◌then◌else◌, map, keep_if, contains, lt_bytes, max,
}
use got_soup.Prelude.Int.{ℤ, pos, pos_part, leb_ℤ, max_ℤ, wrap64}
use got_soup.Prelude.Dict.{Dict, lookup, has, get_or}
use got_soup.Prelude.Decimal.{print_ℤ, print_ℕ}
use got_soup.Prelude.Sort.{sort}
use got_soup.Model.{Outcome, success, failure}
use got_soup.Canonical.{trim_copy, finds}
use got_soup.Codec.{split_at}
use got_soup.Crypto.{derive_vault_key}
use got_soup.Moderation.{ModerationPolicy}
use got_soup.Service.State.{Env, Community, Config, Service, on_testnet}
use got_soup.Service.KeyValues.{
  flag_text, write_key_values, parse_key_values_file, parse_int64_default,
}
use got_soup.Service.Names.{sanitize_community_id}
use got_soup.Service.Wallet.{resolve_data_path}

-- the trimmed values that are not empty
unfoldable pub trimmed_values : List Bytes → List Bytes
trimmed_values values = keep_if (λ (v : Bytes). not (is_empty v)) (map trim_copy values)

unfoldable pub split_csv : Bytes → List Bytes
unfolding trimmed_values split_at
split_csv csv = trimmed_values (split_at b',' csv)

-- what std::unique leaves
unfoldable pub unique_from : Bytes → List Bytes → List Bytes
unique_from last [] = []
unique_from last (v ∷ vs) = let rest = unique_from v vs in if v == last then rest else v ∷ rest

unfoldable pub unique : List Bytes → List Bytes
unfolding unique_from
unique [] = []
unique (v ∷ vs) = v ∷ unique_from v vs

-- the loop that writes the values with commas between them
unfoldable pub join_parts : List Bytes → Bytes
join_parts [] = []
join_parts (v ∷ []) = v
join_parts (v ∷ w ∷ vs) = v ++ (b',' ∷ join_parts (w ∷ vs))

unfoldable pub join_csv : List Bytes → Bytes
unfolding trimmed_values unique join_parts
join_csv values = join_parts (unique (sort lt_bytes (trimmed_values values)))
