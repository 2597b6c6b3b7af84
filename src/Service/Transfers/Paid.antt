-- ===== src/Service/Transfers/Paid.antt =====
-- The transfers that the service announces are paid by the economic pass (src/core/service/alpha_service.cpp,
-- src/core/storage/store.cpp).
use got_soup.Prelude.{
  ℕ, ◌^◌, ◌<◌, ◌≤◌, Bytes, true, false, List, ◌++◌, is_empty, bytes_eq, text, some, ◌≡◌, ◌≢◌, refl,
  ◌∙◌, arith, ◌⊎◌, inl, inr, sym, ap,
}
use got_soup.Prelude.Int.{ℤ, pos, negsuc, pos_part, ◌+ℤ◌, ◌≤ℤ◌, IsInt64, add64, leb_ℤ}
use got_soup.Prelude.Dict.{lookup}
use got_soup.Prelude.Decimal.{print_ℤ, print_ℕ}
use got_soup.Model.{EventEnvelope}
use got_soup.Canonical.{Field, parse_canonical_map}
use got_soup.Canonical.RoundTrip.{HasKeys, Distinct, parse_canonical_map-canonical_join}
use got_soup.Ledger.{
  Ledger, Payload, transfer_burn_fee, int_field, text_field, has_witness, transfer_witness,
  expected_nonce, apply_transfer,
}
use got_soup.Ledger.Fields.{
  int_field-printed, uint_field-printed, text_field-found, has_witness-found,
}
use got_soup.Ledger.Transfers.Proper.{IsProper}
use got_soup.Ledger.Sound.{IsModest, IsSound, fee_fits}
use got_soup.Ledger.Balances.{balance}
use got_soup.Ledger.Transfers.{HasMoved, apply_transfer-HasMoved}
use got_soup.Store.{context_of}
use got_soup.Store.Queries.{next_transfer_nonce, reward_balance}
use got_soup.Service.State.{
  Service, Env, go, ensure_wallet_ready_for_mutation, Announcement, event_time, common_fields,
  payload_of, make_event,
}
use got_soup.Service.Names.{sanitize_display_name, resolve_display_name_to_cid}
use got_soup.Service.Transfers.{
  RewardTransferDraft, cid_of, witness_root, transfer_announcement, is_short, transfer_event,
}

fee_IsInt64 : (a : ℤ) → pos_part a ≤ 2 ^ 62 → IsInt64 (transfer_burn_fee a)
unfolding transfer_burn_fee
fee_IsInt64 a h = ground arith

amount_IsInt64 : (a : ℤ) → leb_ℤ a (pos 0) ≡ false → pos_part a ≤ 2 ^ 62 → IsInt64 a
amount_IsInt64 (pos n) h k = omega arith
amount_IsInt64 (negsuc n) h k = absurd (ground arith)

HasMoved-as :
    (e : EventEnvelope) (n : ℕ) (l l' : Ledger) {to to' : Bytes} {amount amount' fee fee' : ℤ}
    → to' ≡ to
    → amount' ≡ amount
    → fee' ≡ fee
    → HasMoved e to' amount' fee' n l l'
    → HasMoved e to amount fee n l l'
HasMoved-as e n l l' p q r h = rw (sym p, sym q, sym r) h

module _ (now : ℤ) (to name : Bytes) (shown_key : Bytes) (amount : ℤ) (memo : Bytes) (s : Service)
    (shown : (shown_key ≡ text "to_display_name") ⊎ (shown_key ≡ text "to_address")) where
  abbrev announced : Announcement
  announced = transfer_announcement now to (shown_key, name) amount memo s

  abbrev event : EventEnvelope
  event = (make_event now announced s).0

  abbrev all_fields : List Field
  all_fields = announced.fields ++ common_fields announced.kind (event_time now s) s

  fields_good : HasKeys all_fields × Distinct all_fields
  unfolding transfer_announcement common_fields text lookup
  fields_good = elim shown [ inl e ↦ rw e (ground arith) | inr e ↦ rw e (ground arith) ]

  read_back : (j : Bytes) → lookup j (parse_canonical_map event.payload) ≡ lookup j all_fields
  unfolding make_event payload_of
  read_back j = parse_canonical_map-canonical_join all_fields j fields_good.0 fields_good.1

  abbrev nonce : ℕ
  nonce = next_transfer_nonce s.store (cid_of s)

  at_to : lookup (text "to_cid") all_fields ≡ some to
  unfolding transfer_announcement text lookup
  at_to = refl

  at_amount : lookup (text "amount") all_fields ≡ some (print_ℤ amount)
  unfolding transfer_announcement text lookup
  at_amount = elim shown [ inl e ↦ rw e refl | inr e ↦ rw e refl ]

  at_fee : lookup (text "fee") all_fields ≡ some (print_ℤ (transfer_burn_fee amount))
  unfolding transfer_announcement text lookup
  at_fee = elim shown [ inl e ↦ rw e refl | inr e ↦ rw e refl ]

  at_nonce : lookup (text "nonce") all_fields ≡ some (print_ℕ nonce)
  unfolding transfer_announcement text lookup
  at_nonce = elim shown [ inl e ↦ rw e refl | inr e ↦ rw e refl ]

  at_witness :
      lookup (text "witness_root") all_fields
      ≡ some (witness_root to amount (transfer_burn_fee amount) nonce s)
  unfolding transfer_announcement text lookup
  at_witness = elim shown [ inl e ↦ rw e refl | inr e ↦ rw e refl ]

  abbrev payload : Payload
  payload = parse_canonical_map event.payload

  nonce_below : nonce < 2 ^ 64
  unfolding next_transfer_nonce
  nonce_below = ground arith

  nonce-expected : nonce ≡ expected_nonce event s.store.ledger
  unfolding next_transfer_nonce expected_nonce make_event
  nonce-expected = ground arith

  to_read : text_field (text "to_cid") payload ≡ to
  to_read = text_field-found (text "to_cid") payload to (read_back (text "to_cid") ∙ at_to)

  amount_read : IsInt64 amount → int_field (text "amount") payload ≡ amount
  amount_read fits =
      int_field-printed (text "amount") payload amount fits (read_back (text "amount") ∙ at_amount)

  fee_read :
      IsInt64 (transfer_burn_fee amount) → int_field (text "fee") payload ≡ transfer_burn_fee amount
  fee_read fits =
      int_field-printed (text "fee") payload (transfer_burn_fee amount) fits
        (read_back (text "fee") ∙ at_fee)

  witness_good :
      has_witness
        (transfer_witness (context_of s.store) event to amount (transfer_burn_fee amount) nonce)
        payload
      ≡ true
  witness_good = has_witness-found payload _ (
      read_back (text "witness_root")
      ∙ at_witness
      ∙ unfold witness_root transfer_witness context_of make_event in refl)

  announced-IsProper :
      IsInt64 amount
      → IsInt64 (transfer_burn_fee amount)
      → pos 1 ≤ℤ amount
      → is_empty to ≡ false
      → nonce ≢ 0
      → IsProper (context_of s.store) event payload s.store.ledger nonce
  announced-IsProper fits fee_fits positive target used = record {
    nonce_read =
        uint_field-printed (text "nonce") payload nonce nonce_below
          (read_back (text "nonce") ∙ at_nonce);
    nonce_next = nonce-expected;
    nonce_nonzero = used;
    target = rw to_read target;
    positive = rw (amount_read fits) positive;
    fee_due = fee_read fee_fits ∙ ap transfer_burn_fee (sym (amount_read fits));
    witnessed = rw (to_read, amount_read fits, fee_read fee_fits) witness_good;
  }

  pub announced-HasMoved :
      IsModest (context_of s.store)
      → IsSound (context_of s.store) s.store.ledger
      → leb_ℤ amount (pos 0) ≡ false
      → is_empty to ≡ false
      → cid_of s ≢ to
      → nonce ≢ 0
      → pos_part amount ≤ 2 ^ 62
      → amount +ℤ transfer_burn_fee amount ≤ℤ balance (cid_of s) s.store.ledger.balances
      → HasMoved event to amount
          (transfer_burn_fee amount)
          nonce
          s.store.ledger
          (apply_transfer (context_of s.store) event payload s.store.ledger)
  announced-HasMoved modest sound more target other used small covered =
      let fits = amount_IsInt64 amount more small in
      let due = fee_IsInt64 amount small in
      let positive : pos 1 ≤ℤ amount = ground (arith, more) in
      HasMoved-as event nonce s.store.ledger
        (apply_transfer (context_of s.store) event payload s.store.ledger) to_read
        (amount_read fits) (fee_read due)
        (apply_transfer-HasMoved (context_of s.store) event payload s.store.ledger nonce modest
          sound (announced-IsProper fits due positive target used)
          (unfold make_event in rw to_read other) (rw (amount_read fits) small)
          (unfold make_event in rw (amount_read fits, fee_read due) covered))

-- What `transfer_rewards` has found when it goes on.
record IsAgreed (env : Env) (d : RewardTransferDraft) (s : Service) (a : Announcement) (to : Bytes)
    : Type 0 where
  announces :
      a
      ≡ transfer_announcement env.now to
          (text "to_display_name", sanitize_display_name d.to_display_name)
          d.amount
          d.memo
          s
  positive : leb_ℤ d.amount (pos 0) ≡ false
  covered : is_short d.amount s ≡ false

transfer_event-IsAgreed :
    (env : Env) (d : RewardTransferDraft) (s : Service) (a : Announcement) (to : Bytes)
    → resolve_display_name_to_cid (sanitize_display_name d.to_display_name) s ≡ some to
    → transfer_event env d s ≡ go a
    → IsAgreed env d s a to
unfolding transfer_event ensure_wallet_ready_for_mutation
transfer_event-IsAgreed env d s a to resolved h = ground arith

covered_by :
    (amount : ℤ) (s : Service)
    → add64 amount (transfer_burn_fee amount) ≡ amount +ℤ transfer_burn_fee amount
    → is_short amount s ≡ false
    → amount +ℤ transfer_burn_fee amount ≤ℤ balance (cid_of s) s.store.ledger.balances
unfolding is_short reward_balance
covered_by amount s whole h = rw (sym whole) (ground arith)

-- In a sound ledger, with a supply from 0 to 2^62 and an account that has not used up the uint64
-- nonces: where `transfer_rewards` agrees to send at most 2^62 units to the identity that the name
-- leads to, which is another one and not empty, the event that it makes is paid by the economic
-- pass in that ledger: the amount and the fee leave the sender, the amount reaches the receiver, no
-- other balance changes, and the nonce is used.
pub transfer_event-HasMoved :
    (env : Env) (d : RewardTransferDraft) (s : Service) (a : Announcement) (to : Bytes)
    → IsModest (context_of s.store)
    → IsSound (context_of s.store) s.store.ledger
    → transfer_event env d s ≡ go a
    → resolve_display_name_to_cid (sanitize_display_name d.to_display_name) s ≡ some to
    → is_empty to ≡ false
    → cid_of s ≢ to
    → next_transfer_nonce s.store (cid_of s) ≢ 0
    → pos_part d.amount ≤ 2 ^ 62
    → let e = (make_event env.now a s).0 in
      HasMoved e to d.amount
        (transfer_burn_fee d.amount)
        (next_transfer_nonce s.store (cid_of s))
        s.store.ledger
        (apply_transfer (context_of s.store) e (parse_canonical_map e.payload) s.store.ledger)
transfer_event-HasMoved env d s a to modest sound agreed resolved target other used small =
    let t = transfer_event-IsAgreed env d s a to resolved agreed in
    let positive : pos 1 ≤ℤ d.amount = ground (arith, t.positive) in
    rw t.announces (
      announced-HasMoved env.now to (sanitize_display_name d.to_display_name)
        (text "to_display_name") d.amount d.memo s (inl refl) modest sound t.positive target other
        used small (covered_by d.amount s (fee_fits d.amount positive small).1 t.covered))
