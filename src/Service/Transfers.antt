-- ===== src/Service/Transfers.antt =====
-- Transfers of rewards: transfer_rewards and transfer_rewards_to_address of
-- src/core/service/alpha_service.cpp.
pub mod Paid
use got_soup.Prelude.{
  ℕ, Bytes, Bool, true, false, ◌&&◌, ◌||◌, not, List, [], ◌∷◌, ◌++◌, is_empty, if◌then◌else◌, text,
  Option, none, some,
}
use got_soup.Prelude.Int.{ℤ, pos, ltb_ℤ, leb_ℤ, add64}
use got_soup.Prelude.Decimal.{print_ℤ, print_ℕ}
use got_soup.Model.{failure, reward_transferred}
use got_soup.Canonical.{Field, trim_copy, starts_with}
use got_soup.Ledger.{transfer_burn_fee}
use got_soup.Store.Queries.{reward_balance, next_transfer_nonce}
use got_soup.Service.State.{
  Service, Env, Attempt, go, stop, ◌>>=◌, ◌>>◌, refuse_if, ensure_wallet_ready_for_mutation,
  Announcement,
}
use got_soup.Service.Posts.{short_id}
use got_soup.Service.Names.{
  sanitize_display_name, resolve_display_name_to_cid, resolve_address_to_cid,
}

pub record RewardTransferDraft : Type 0 where
  pub to_display_name : Bytes
  pub amount : ℤ
  pub memo : Bytes

pub record RewardTransferAddressDraft : Type 0 where
  pub to_address : Bytes
  pub amount : ℤ
  pub memo : Bytes

abbrev pub cid_of : Service → Bytes
cid_of s = s.crypto.identity.cid

unfoldable pub transfer_material : ℤ → Bytes → ℤ → Service → Bytes
transfer_material now to amount s =
    s.community.community_id ++ (cid_of s ++ (to ++ (print_ℤ amount ++ print_ℤ now)))

unfoldable pub witness_root : Bytes → ℤ → ℤ → ℕ → Service → Bytes
witness_root to amount fee nonce s = s.store.settings.hash (
    cid_of s
    ++ (b'|'
        ∷ (to ++ (b'|' ∷ (print_ℤ amount ++ (b'|' ∷ (print_ℤ fee ++ (b'|' ∷ print_ℕ nonce))))))))

-- The event that both operations end with; they differ in the field that names the receiver for the reader.
unfoldable pub transfer_announcement : ℤ → Bytes → Field → ℤ → Bytes → Service → Announcement
unfolding short_id transfer_material witness_root
transfer_announcement now to shown amount memo s =
    let fee = transfer_burn_fee amount in
    let nonce = next_transfer_nonce s.store (cid_of s) in
    record {
      kind = reward_transferred;
      fields =
          ((text "transfer_id", short_id (text "xfr-") (transfer_material now to amount s))
            ∷ (text "to_cid", to)
            ∷ shown
            ∷ (text "amount", print_ℤ amount)
            ∷ (text "fee", print_ℤ fee)
            ∷ (text "nonce", print_ℕ nonce)
            ∷ (text "witness_root", witness_root to amount fee nonce s)
            ∷ (text "memo", memo)
            ∷ []);
    }

-- `local_balance < (draft.amount + fee)`
unfoldable pub is_short : ℤ → Service → Bool
is_short amount s =
    ltb_ℤ (reward_balance s.store (cid_of s)) (add64 amount (transfer_burn_fee amount))

-- `!target_cid.has_value()`
abbrev pub found : Option Bytes → Bytes → Attempt Bytes
found none why = stop (failure why)
found (some cid) why = go cid

unfoldable pub transfer_event : Env → RewardTransferDraft → Service → Attempt Announcement
unfolding is_short
transfer_event env d s = do
  ensure_wallet_ready_for_mutation (text "transfer_rewards") s
  let name = sanitize_display_name d.to_display_name
  refuse_if (is_empty name) (text "Reward transfer requires a target display name.")
  refuse_if (leb_ℤ d.amount (pos 0)) (text "Reward transfer amount must be positive.")
  refuse_if (is_short d.amount s) (text "Insufficient reward balance for transfer.")
  to ←
      found (resolve_display_name_to_cid name s)
        (text "Target display name is unknown or ambiguous.")
  go (transfer_announcement env.now to (text "to_display_name", name) d.amount d.memo s)

unfoldable pub address_transfer_event :
    Env → RewardTransferAddressDraft → Service → Attempt Announcement
unfolding is_short
address_transfer_event env d s = do
  ensure_wallet_ready_for_mutation (text "transfer_rewards_to_address") s
  let address = trim_copy d.to_address
  refuse_if (is_empty address) (text "Reward transfer requires a target address.")
  refuse_if (not (starts_with (text "S") address))
      (text "Invalid address prefix for target address.")
  refuse_if (leb_ℤ d.amount (pos 0)) (text "Reward transfer amount must be positive.")
  refuse_if (is_short d.amount s) (text "Insufficient reward balance for transfer.")
  to ←
      found (resolve_address_to_cid address s)
        (text "Target address is unknown in current community.")
  go (transfer_announcement env.now to (text "to_address", address) d.amount d.memo s)
