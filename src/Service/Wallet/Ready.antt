-- ===== src/Service/Wallet/Ready.antt =====
-- When the wallet lets the commands through that announce events (src/core/service/alpha_service.cpp).
use got_soup.Prelude.{Bytes, true, false, bytes_eq, is_empty, ◌≡◌, ◌⊎◌, arith, inl, inr, Bool-cases}
use got_soup.Prelude.Int.{pos, ◌≤ℤ◌}
use got_soup.Canonical.{trim_copy}
use got_soup.Service.State.{
  Service, Endpoint, Profile, Env, Announcement, publish, append_locally_and_queue, make_event,
}
use got_soup.Service.Network.{active_proxy_endpoint, enabled_mode, start_node, restart_network}
use got_soup.PeerNode
use got_soup.Service.Commands.{Command, perform}
use got_soup.Service.Commands.Guarded.{is_ready, IsInert, perform-IsInert}
use got_soup.Service.Wallet.{
  refresh_backup_state, export_key_backup, verify_key_backup, import_key_backup, lock_wallet,
  unlock_wallet, recover_with, recover_wallet, nuke_key, announce_rotation,
}

-- Where no backup is asked for, there is one that was verified and is not older than the identity.
pub record IsBacked (p : Profile) : Type 0 where
  pub not_required :
      p.wallet_backup_required ≡ false
      → (p.wallet_backup_exists ≡ true)
        × (p.wallet_backup_verified ≡ true)
        × (pos 1 ≤ℤ p.backup_last_unix)
        × (p.wallet_identity_changed_unix ≤ℤ p.backup_last_unix)
  pub complete : p.onboarding_complete ≡ true → p.wallet_backup_required ≡ false

refresh_backup_state-IsBacked : (env : Env) (p : Profile) → IsBacked (refresh_backup_state env p)
unfolding refresh_backup_state
refresh_backup_state-IsBacked env p = record {
  not_required = ground arith;
  complete = ground arith;
}

-- A call of an operation of the wallet.
pub data WalletStep (s : Service) : Service → Type 0 where
  exported :
      (env : Env) (path password salt : Bytes)
      → WalletStep s (export_key_backup env path password salt s).1
  verified :
      (env : Env) (path password : Bytes) → WalletStep s (verify_key_backup env path password s).1
  imported :
      (env : Env) (path password : Bytes) → WalletStep s (import_key_backup env path password s).1
  locked : (env : Env) → WalletStep s (lock_wallet env s).1
  unlocked : (env : Env) (passphrase : Bytes) → WalletStep s (unlock_wallet env passphrase s).1
  recovered :
      (env : Env) (path password passphrase : Bytes)
      → WalletStep s (recover_wallet env path password passphrase s).1
  nuked : (env : Env) (confirmation : Bytes) → WalletStep s (nuke_key env confirmation s).1

pub data WalletRun (s : Service) : Service → Type 0 where
  idle : WalletRun s s
  next : {t u : Service} → WalletRun s t → WalletStep t u → WalletRun s u

publish-profile :
    (env : Env) (a : Announcement) (s : Service) → (publish env a s).1.profile ≡ s.profile
unfolding publish append_locally_and_queue make_event
publish-profile env a s = ground arith

start_node-profile : (e : Endpoint) (s : Service) → (start_node e s).1.profile ≡ s.profile
unfolding start_node
start_node-profile e s = ground arith

restart_network-profile : (env : Env) (s : Service) → (restart_network env s).1.profile ≡ s.profile
unfolding restart_network
restart_network-profile env s =
    let moved = record s {
      node = PeerNode.stop s.node;
      active_mode = enabled_mode (record s { node = PeerNode.stop s.node });
    } in
    ground (arith, start_node-profile (active_proxy_endpoint env moved) moved)

announce_rotation-profile :
    (env : Env) (a : Announcement) (s : Service) → (announce_rotation env a s).1.profile ≡ s.profile
unfolding announce_rotation
announce_rotation-profile env a s =
    ground (arith, restart_network-profile env s, publish-profile env a (restart_network env s).1)

module _ (env : Env) (s : Service) (h : IsBacked s.profile) where
  export_key_backup-IsBacked :
      (path password salt : Bytes) → IsBacked (export_key_backup env path password salt s).1.profile
  unfolding export_key_backup
  export_key_backup-IsBacked path password salt = grind (arith, refresh_backup_state-IsBacked)

  verify_key_backup-IsBacked :
      (path password : Bytes) → IsBacked (verify_key_backup env path password s).1.profile
  unfolding verify_key_backup
  verify_key_backup-IsBacked path password = grind (arith, refresh_backup_state-IsBacked)

  lock_wallet-IsBacked : IsBacked (lock_wallet env s).1.profile
  unfolding lock_wallet
  lock_wallet-IsBacked = grind (arith, refresh_backup_state-IsBacked)

  unlock_wallet-IsBacked : (p : Bytes) → IsBacked (unlock_wallet env p s).1.profile
  unfolding unlock_wallet
  unlock_wallet-IsBacked p = grind (arith, refresh_backup_state-IsBacked, restart_network-profile)

  import_key_backup-IsBacked :
      (path password : Bytes) → IsBacked (import_key_backup env path password s).1.profile
  unfolding import_key_backup
  import_key_backup-IsBacked path password =
      grind (arith, refresh_backup_state-IsBacked, announce_rotation-profile)

  recover_with-IsBacked :
      (path password : Bytes) → IsBacked (recover_with env path password s).1.profile
  unfolding recover_with
  recover_with-IsBacked path password =
      grind (arith, refresh_backup_state-IsBacked, restart_network-profile)

  nuke_key-IsBacked : (confirmation : Bytes) → IsBacked (nuke_key env confirmation s).1.profile
  unfolding nuke_key
  nuke_key-IsBacked confirmation =
      grind (arith, refresh_backup_state-IsBacked, announce_rotation-profile)

recover_wallet-IsBacked :
    (env : Env) (path password passphrase : Bytes) (s : Service)
    → IsBacked s.profile
    → IsBacked (recover_wallet env path password passphrase s).1.profile
unfolding recover_wallet
recover_wallet-IsBacked env path password passphrase s h =
    elim (Bool-cases (is_empty (trim_copy passphrase))) [
      | inl none ↦ rw none h
      | inr some ↦ rw some (
          recover_with-IsBacked env
            (record s { config = record s.config { passphrase = trim_copy passphrase } }) h path
            password)
    ]

WalletStep-IsBacked : {s t : Service} → WalletStep s t → IsBacked s.profile → IsBacked t.profile
WalletStep-IsBacked {s} (exported env path password salt) h =
    export_key_backup-IsBacked env s h path password salt
WalletStep-IsBacked {s} (verified env path password) h =
    verify_key_backup-IsBacked env s h path password
WalletStep-IsBacked {s} (imported env path password) h =
    import_key_backup-IsBacked env s h path password
WalletStep-IsBacked {s} (locked env) h = lock_wallet-IsBacked env s h
WalletStep-IsBacked {s} (unlocked env p) h = unlock_wallet-IsBacked env s h p
WalletStep-IsBacked {s} (recovered env path password p) h =
    recover_wallet-IsBacked env path password p s h
WalletStep-IsBacked {s} (nuked env c) h = nuke_key-IsBacked env s h c

WalletRun-IsBacked : {s t : Service} → WalletRun s t → IsBacked s.profile → IsBacked t.profile
WalletRun-IsBacked idle h = h
WalletRun-IsBacked (next r st) h = WalletStep-IsBacked st (WalletRun-IsBacked r h)

-- The wallet is unlocked and has a verified backup that is not older than the last change of its identity.
pub record IsSafe (s : Service) : Type 0 where
  pub unlocked : s.crypto.ready ≡ true
  pub exists : s.profile.wallet_backup_exists ≡ true
  pub verified : s.profile.wallet_backup_verified ≡ true
  pub current : s.profile.wallet_identity_changed_unix ≤ℤ s.profile.backup_last_unix

ready-IsSafe : (s : Service) → IsBacked s.profile → is_ready s ≡ true → IsSafe s
ready-IsSafe s h ok =
    let required : s.profile.wallet_backup_required ≡ false = ground (arith, ok) in
    let b = h.not_required required in
    record { unlocked = ground (arith, ok); exists = b.0; verified = b.1; current = b.3 }

-- From a wallet that asks for a backup or has a verified one that is not older than its identity: after any calls of
-- the operations of the wallet, whatever they find outside, every command of `Command` (posts, reviews, transfers,
-- moderation, names, keys told to the peers) either fails and changes nothing, or meets a wallet that is unlocked and
-- has a verified backup that is not older than the last change of its identity. Reward claims, and the key rotation
-- that operations of the wallet announce themselves, are no such commands.
pub WalletRun-ready :
    (env : Env) (c : Command) (s t : Service)
    → IsBacked s.profile
    → WalletRun s t
    → IsInert (perform env c t) t ⊎ IsSafe t
WalletRun-ready env c s t h run = elim (Bool-cases (is_ready t)) [
  | inl ready ↦ inr (ready-IsSafe t (WalletRun-IsBacked run h) ready)
  | inr unready ↦ inl (perform-IsInert env c t (ground (arith, unready)))
]

-- No verified backup: the wallet lets no command through.
pub record IsBarred (p : Profile) : Type 0 where
  pub unverified : p.wallet_backup_verified ≡ false
  pub required : p.wallet_backup_required ≡ true

-- A call that verifies no backup.
pub data QuietStep (s : Service) : Service → Type 0 where
  exported :
      (env : Env) (path password salt : Bytes)
      → QuietStep s (export_key_backup env path password salt s).1
  locked : (env : Env) → QuietStep s (lock_wallet env s).1
  unlocked : (env : Env) (passphrase : Bytes) → QuietStep s (unlock_wallet env passphrase s).1
  nuked : (env : Env) (confirmation : Bytes) → QuietStep s (nuke_key env confirmation s).1

pub data QuietRun (s : Service) : Service → Type 0 where
  idle : QuietRun s s
  next : {t u : Service} → QuietRun s t → QuietStep t u → QuietRun s u
