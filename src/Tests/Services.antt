-- ===== src/Tests/Services.antt =====
-- Examples of the operations of the service.
use got_soup.Prelude.{
  ℕ, ◌≤◌, Bytes, Bool, true, false, ◌++◌, List, [], ◌∷◌, refl, ◌≡◌, ◌≢◌, ◌⊎◌, text, arith, none,
  some, nat_eq, bytes_eq, All,
}
use got_soup.Prelude.Int.{ℤ, pos, add64, wrap64, ◌+ℤ◌, ◌-ℤ◌, ◌≤ℤ◌}
use got_soup.Prelude.Dict.{lookup, insert, emplace}
use got_soup.Model.{EventEnvelope, success, profile_updated, key_rotated}
use got_soup.Canonical.{
  Field, parse_canonical_map, canonical_join, write_fields, write_field, escape, escape_byte,
  trim_copy, trim_begin, trim_end, is_space, lowercase_copy, to_lower,
}
use got_soup.Prelude.Sort.{sort, insert_sorted}
use got_soup.Codec.{hex_digit, to_hex, from_hex, hex_pairs, from_hex_digit, split_at}
use got_soup.Crypto.{
  Identity, CryptoEngine, backup_text, import_identity_backup, is_incomplete,
  verify_identity_backup, decode_backup, decoded_cipher, parse_key_values, keep_lines, keep_line,
  split_first, parse_identity, serialize_identity, derive_vault_key, hash_bytes, fnv, hex_number,
  xor_stream, xor_from,
}
use got_soup.Crypto.Backup.{IsWritable, import_identity_backup-backup_text}
use got_soup.Store.{Disk, Store, context_of}
use got_soup.Views.{fresh_views}
use got_soup.Views.Hidden.{IsClean}
use got_soup.Hashing.{chain_issues}
use got_soup.Timeline.{assigned_ids}
use got_soup.Store.Accepted.{IsConsistent}
use got_soup.Service.Published.{IsPublished, publish-IsPublished}
use got_soup.Prelude.Int.{sub64}
use got_soup.Prelude.Decimal.{print_ℕ}
use got_soup.Chain.{find_block, latest_confirmed_block_index, latest_from, confirmations_under}
use got_soup.Ledger.{
  empty_ledger, transfer_burn_fee, apply_transfer, apply_claim, expected_claim_reward_for_block,
  scheduled_reward_for_block, has_leading_zero_nibbles, leading_zeros,
}
use got_soup.Ledger.Sound.{IsSound, IsSound-empty, HasModestAmount}
use got_soup.Ledger.Transfers.{HasMoved}
use got_soup.Store.Queries.{
  reward_balance, next_transfer_nonce, claimable_confirmed_blocks, claimable, is_claimable,
  has_block_claim, next_claim_reward,
}
use got_soup.Service.Names.{
  sanitize_display_name, resolve_display_name_to_cid, match_name, observed_display_names_by_cid,
  observe, name_in,
}
use got_soup.Service.Transfers.{
  RewardTransferDraft, transfer_announcement, transfer_event, is_short,
}
use got_soup.Service.Transfers.Paid.{transfer_event-HasMoved}
use got_soup.Service.Claims.{
  mine, difficulty_nibbles, pow_material, claim_announcement, claim_with, claim_for,
}
use got_soup.Service.Claims.Paid.{paid_ledger, claim_for_paid}
use got_soup.Prelude.Sets.{add}
use got_soup.Service.{
  is_local_moderator, publish, make_event, Announcement, common_fields, payload_of, Service,
  Profile, Community, Config, Env, tor, i2p, go, stop, ensure_wallet_ready_for_mutation,
}
use got_soup.Service.Commands.{update_key_to_peers, pin_core_topic, perform}
use got_soup.Service.Commands.Guarded.{perform-IsInert, IsInert}
use got_soup.Service.Claims.{ingest_remote}
use got_soup.Service.Ingested.{ingest_remote-suppresses}
use got_soup.PeerNode.Published.{Run, Step}
use got_soup.Service.Wallet.{verify_key_backup}
use got_soup.Service.Wallet.Ready.{WalletStep, WalletRun, WalletRun-ready, IsSafe}
use got_soup.Tests.Data.{alice, bob, event_with, timeline, settings, first_block}
use got_soup.Tests.Stores.{store, store_with_block}
use got_soup.Tests.ServiceData.{identity_of_alice, engine, service, env}

alice-IsWritable : IsWritable identity_of_alice
unfolding text is_incomplete
alice-IsWritable = ground arith

import_identity_backup-backup_text_example :
    import_identity_backup
      (success [])
      (backup_text engine (text "pw") (text "salt"))
      (pos 60)
      (text "b.dat")
      (text "pw")
      (text "local")
      (record engine { ready = false; identity = record identity_of_alice { cid = bob } })
    ≡ (
      success (text "Key import completed."),
      record engine { identity = identity_of_alice; ready = true; last_unlocked_unix = pos 60 },
    )
unfolding text
import_identity_backup-backup_text_example =
    import_identity_backup-backup_text (success []) (pos 60) (text "b.dat") (text "pw")
      (text "local") (text "salt") engine
      (record engine { ready = false; identity = record identity_of_alice { cid = bob } })
      alice-IsWritable (ground arith) refl refl refl refl refl

-- Alice is no moderator, so she cannot pin a topic.
perform-IsInert_example : IsInert (perform env (pin_core_topic (text "r1") true) service) service
unfolding is_local_moderator fresh_views trim_copy is_space add
perform-IsInert_example = perform-IsInert env (pin_core_topic (text "r1") true) service refl

-- the service after a message without Alice's signature, and a synchronisation
abbrev deceived : Service
unfolding ingest_remote
deceived =
    (ingest_remote env (record (event_with (text "x1") profile_updated []) { signature = [] })
      service).1

abbrev deceived_later : Service
deceived_later = record deceived { node = (got_soup.PeerNode.sync_tick deceived.node).1 }

ingest_remote-suppresses_example :
    ((ingest_remote env
        (record (event_with (text "x1") profile_updated []) { signature = [] })
        service).0.ok
      ≡ false)
    × (ingest_remote env (event_with (text "x1") profile_updated []) deceived_later
        ≡ (success (text "Duplicate or ignored remote event."), deceived_later))
unfolding text ingest_remote deceived
ingest_remote-suppresses_example =
    ingest_remote-suppresses env env (event_with (text "x1") profile_updated [])
      (record (event_with (text "x1") profile_updated []) { signature = [] }) service deceived_later
      refl refl refl refl refl (Run.next Run.idle Step.ticked)

-- A place where Alice's backup is.
abbrev backed_env : Env
backed_env = record env { backup_file = backup_text engine (text "pw") (text "salt") }

WalletRun-ready_example :
    let t = (verify_key_backup backed_env (text "b.dat") (text "pw") service).1 in
    IsInert (perform env update_key_to_peers t) t ⊎ IsSafe t
WalletRun-ready_example =
    WalletRun-ready env update_key_to_peers service
      (verify_key_backup backed_env (text "b.dat") (text "pw") service).1 (ground arith)
      (WalletRun.next WalletRun.idle (WalletStep.verified backed_env (text "b.dat") (text "pw")))

-- Bob has told his name, and Alice has a balance.
abbrev bobs_name : EventEnvelope
bobs_name =
    record (event_with (text "n1") profile_updated ((text "display_name", text "Bob") ∷ [])) {
      author_cid = bob;
    }

abbrev rich_service : Service
rich_service = record service {
  store = record store {
    timeline = record timeline { events = bobs_name ∷ [] };
    ledger = record empty_ledger { balances = (alice, pos 100) ∷ []; issued = pos 100 };
  };
}

abbrev to_bob : RewardTransferDraft
to_bob = record { to_display_name = text "bob "; amount = pos 10; memo = text "hi" }

abbrev sent : Announcement
sent =
    transfer_announcement (pos 100) bob (text "to_display_name", text "bob") (pos 10) (text "hi")
      rich_service

alice-ne-bob : alice ≢ bob
alice-ne-bob = ground arith

rich-IsSound : IsSound (context_of rich_service.store) rich_service.store.ledger
unfolding context_of ◌+ℤ◌ lookup
rich-IsSound = ground arith

transfer_event-HasMoved_example :
    let e = (make_event (pos 100) sent rich_service).0 in
    HasMoved e bob
      (pos 10)
      (transfer_burn_fee (pos 10))
      (next_transfer_nonce rich_service.store alice)
      rich_service.store.ledger
      (apply_transfer
        (context_of rich_service.store)
        e
        (parse_canonical_map e.payload)
        rich_service.store.ledger)
unfolding text context_of transfer_event ensure_wallet_ready_for_mutation sanitize_display_name
    trim_copy trim_begin trim_end is_space resolve_display_name_to_cid match_name
    observed_display_names_by_cid observe name_in lowercase_copy to_lower parse_canonical_map
    canonical_join write_fields write_field escape escape_byte sort insert_sorted insert lookup
    emplace is_short reward_balance transfer_burn_fee next_transfer_nonce add64 wrap64 ◌+ℤ◌
transfer_event-HasMoved_example =
    transfer_event-HasMoved env to_bob rich_service sent bob (omega arith) rich-IsSound refl refl
      refl alice-ne-bob (omega arith) (omega arith)

-- A hash whose values begin with four zeros.
abbrev easy_hash : Bytes → Bytes
easy_hash b = b'0' ∷ b'0' ∷ b'0' ∷ b'0' ∷ b

abbrev mining_service : Service
mining_service = record service {
  store = record store_with_block { settings = record settings { hash = easy_hash } };
}

abbrev mined_hash : Bytes
mined_hash = text "0000soup|a|1|||0"

claim_for_paid_example :
    let a = claim_announcement first_block (pos 50) 0 mined_hash mining_service in
    let e = (make_event (pos 100) a mining_service).0 in
    apply_claim
      (context_of mining_service.store)
      e
      (parse_canonical_map e.payload)
      mining_service.store.ledger
    ≡ paid_ledger first_block alice
        (next_claim_reward mining_service.store 1)
        mining_service.store.ledger
unfolding text find_block claimable_confirmed_blocks claimable is_claimable has_block_claim
    latest_confirmed_block_index latest_from confirmations_under sort insert_sorted lookup
    next_claim_reward expected_claim_reward_for_block scheduled_reward_for_block context_of sub64
    wrap64 ◌-ℤ◌ claim_for claim_with mine difficulty_nibbles pow_material has_leading_zero_nibbles
    leading_zeros print_ℕ
claim_for_paid_example =
    claim_for_paid (pos 100) first_block [] []
      (claim_announcement first_block (pos 50) 0 mined_hash mining_service) mining_service
      (omega arith) (refl, tt) refl (omega arith) (omega arith) refl

-- A service that has published nothing.
abbrev quiet_service : Service
quiet_service = record service {
  store = record store {
    settings = record settings { network_id = text "mainnet" };
    timeline = record timeline { events = [] };
  };
}

abbrev key_news : Announcement
key_news = record { kind = key_rotated; fields = (text "cid", alice) ∷ [] }

nothing_found : {V : Type 0} {v : V} → none ≡ some v → ⊥
nothing_found h = cc

quiet-IsClean : IsClean quiet_service.store.views.moderation.hidden quiet_service.store.views
unfolding lookup fresh_views
quiet-IsClean = record {
  recipes_shown = λ k r h. absurd (nothing_found h);
  threads_shown = λ k t h. absurd (nothing_found h);
  replies_shown = λ k rs h. absurd (nothing_found h);
  counted = λ k t h. absurd (nothing_found h);
}

quiet-IsConsistent : IsConsistent quiet_service.store
unfolding lookup chain_issues
quiet-IsConsistent = record {
  every_once = tt;
  unique = λ i. unfold assigned_ids in omega arith;
  hashed = refl;
  sound =
      IsSound-empty (context_of quiet_service.store)
        (unfold context_of in (omega arith, omega arith));
  clean = quiet-IsClean;
}

key_news-modest : HasModestAmount (make_event env.now key_news quiet_service).0
unfolding got_soup.Prelude.Dict.lookup got_soup.Prelude.Dict.insert got_soup.Prelude.Dict.emplace
    got_soup.Prelude.Int.add64 got_soup.Prelude.Decimal.print_ℤ got_soup.Prelude.Sort.insert_sorted
    got_soup.Prelude.Sort.sort got_soup.Prelude.text got_soup.Canonical.escape_byte
    got_soup.Canonical.escape got_soup.Canonical.write_field got_soup.Canonical.write_fields
    got_soup.Canonical.canonical_join got_soup.Canonical.parse_canonical_map
    got_soup.Backtest.backtest_validate got_soup.Service.payload_of got_soup.Service.publish
key_news-modest = omega arith

key_news-ok : (publish env key_news quiet_service).0.ok ≡ true
unfolding got_soup.Prelude.Dict.lookup got_soup.Prelude.Dict.insert got_soup.Prelude.Dict.emplace
    got_soup.Prelude.Int.add64 got_soup.Prelude.Int.sub64 got_soup.Prelude.Decimal.print_ℤ
    got_soup.Prelude.Sort.insert_sorted got_soup.Prelude.Sort.sort got_soup.Canonical.escape_byte
    got_soup.Canonical.escape got_soup.Canonical.write_field got_soup.Canonical.write_fields
    got_soup.Canonical.canonical_join got_soup.Canonical.parse_canonical_map
    got_soup.Codec.load_event_log got_soup.Codec.join_event_ids got_soup.Crypto.hash_bytes
    got_soup.Crypto.content_id got_soup.Crypto.sign got_soup.Ledger.is_post_kind
    got_soup.Ledger.settle_kind got_soup.Ledger.settle_event got_soup.Ledger.settle
    got_soup.ReplayOrder.ordered_events got_soup.Moderation.is_moderation_event
    got_soup.Views.replay_event got_soup.Views.Cleanup.rebuild_views
    got_soup.Merkle.compute_merkle_root got_soup.Timeline.ensure_block_slots_until
    got_soup.Timeline.assign_unassigned_events_to_blocks got_soup.Hashing.recompute_block_hashes
    got_soup.Hashing.chain_issues got_soup.Hashing.limit_issues got_soup.Backtest.backtest_validate
    got_soup.Store.append_event got_soup.Service.payload_of got_soup.Service.publish
key_news-ok = refl

publish-IsPublished_example :
    IsPublished env
      (make_event env.now key_news quiet_service).0
      quiet_service
      (publish env key_news quiet_service).1
publish-IsPublished_example =
    publish-IsPublished env key_news quiet_service quiet-IsConsistent
      (unfold context_of in (omega arith, omega arith)) (key_news-modest, tt)
      (unfold ◌+ℤ◌ in omega arith) key_news-ok
