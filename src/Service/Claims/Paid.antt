-- ===== src/Service/Claims/Paid.antt =====
-- The claims that the service makes are paid by the economic pass (src/core/service/alpha_service.cpp,
-- src/core/storage/store.cpp).
use got_soup.Prelude.{
  ℕ, zero, suc, ◌+◌, ◌^◌, ◌<◌, ◌≤◌, Bytes, Bool, true, false, List, ◌∷◌, ◌++◌, is_empty,
  if◌then◌else◌, bytes_eq, nat_eq, text, Option, none, some, ◌≡◌, refl, ◌∙◌, arith, All, Bool-cases,
  inl, inr, ap,
}
use got_soup.Prelude.Int.{ℤ, pos, ◌≤ℤ◌, IsInt64, leb_ℤ, add64}
use got_soup.Prelude.Dict.{lookup, insert}
use got_soup.Prelude.Decimal.{print_ℤ, print_ℕ}
use got_soup.Model.{EventEnvelope}
use got_soup.Canonical.{Field, parse_canonical_map}
use got_soup.Canonical.RoundTrip.{HasKeys, Distinct, parse_canonical_map-canonical_join}
use got_soup.Chain.{Block, find_block}
use got_soup.Ledger.{
  Ledger, Payload, text_field, has_witness, to_int32, claim_difficulty, pow_is_valid, claim_witness,
  has_leading_zero_nibbles, credit, apply_claim,
}
use got_soup.Ledger.Fields.{
  int_field-printed, uint_field-printed, text_field-found, has_witness-found,
  claim_difficulty-printed, pow_is_valid-found,
}
use got_soup.Store.{context_of}
use got_soup.Store.Queries.{next_claim_reward, claimable_confirmed_blocks}
use got_soup.Store.Claimable.{IsClaimOf, apply_claim-claimable_confirmed_blocks}
use got_soup.Service.State.{
  Service, Announcement, event_time, common_fields, payload_of, make_event,
}
use got_soup.Service.Claims.{
  k_max_pow_attempts, mine, difficulty_nibbles, pow_material, claim_witness_root,
  claim_announcement, claim_with, claim_for,
}

-- What the search for a nonce has found.
record IsMined (hash : Bytes → Bytes) (nibbles : ℤ) (material : Bytes) (nonce : ℕ) (found : Bytes)
    : Type 0 where
  hashed : found ≡ hash (material ++ (b'|' ∷ print_ℕ nonce))
  zeros : has_leading_zero_nibbles found nibbles ≡ true

mine-IsMined :
    (hash : Bytes → Bytes) (nibbles : ℤ) (material : Bytes) (left attempt nonce : ℕ) (found : Bytes)
    → mine hash nibbles material left attempt ≡ some (nonce, found)
    → IsMined hash nibbles material nonce found
unfolding mine
mine-IsMined hash nibbles material zero attempt nonce found h = cc
mine-IsMined hash nibbles material (suc left) attempt nonce found h =
    elim (Bool-cases
      (has_leading_zero_nibbles (hash (material ++ (b'|' ∷ print_ℕ attempt))) nibbles)) [
        | inl good ↦ ground arith
        | inr bad ↦ mine-IsMined hash nibbles material left (attempt + 1) nonce found (ground arith)
      ]

-- the ledger once a claim was paid
abbrev pub paid_ledger : Block → Bytes → ℤ → Ledger → Ledger
paid_ledger b cid reward l = record l {
  claimed = insert b.index cid l.claimed;
  balances = credit cid reward l.balances;
  issued = add64 l.issued reward;
}

module _ (now : ℤ) (b : Block) (reward : ℤ) (pow_nonce : ℕ) (pow_hash : Bytes) (s : Service)
    (mined : IsMined s.store.settings.hash
      (difficulty_nibbles s)
      (pow_material b s)
      pow_nonce
      pow_hash)
    (filled : is_empty pow_hash ≡ false) where
  abbrev announced : Announcement
  announced = claim_announcement b reward pow_nonce pow_hash s

  abbrev event : EventEnvelope
  event = (make_event now announced s).0

  abbrev all_fields : List Field
  all_fields = announced.fields ++ common_fields announced.kind (event_time now s) s

  fields_good : HasKeys all_fields × Distinct all_fields
  unfolding claim_announcement common_fields text lookup
  fields_good = ground arith

  abbrev payload : Payload
  payload = parse_canonical_map event.payload

  read_back : (j : Bytes) → lookup j payload ≡ lookup j all_fields
  unfolding make_event payload_of
  read_back j = parse_canonical_map-canonical_join all_fields j fields_good.0 fields_good.1

  at_index : lookup (text "block_index") payload ≡ some (print_ℕ b.index)
  at_index = read_back (text "block_index") ∙ unfold claim_announcement text lookup in refl

  at_reward : lookup (text "reward") payload ≡ some (print_ℤ reward)
  at_reward = read_back (text "reward") ∙ unfold claim_announcement text lookup in refl

  at_difficulty : lookup (text "pow_difficulty") payload ≡ some (print_ℤ (difficulty_nibbles s))
  at_difficulty = read_back (text "pow_difficulty") ∙ unfold claim_announcement text lookup in refl

  at_nonce : lookup (text "pow_nonce") payload ≡ some (print_ℕ pow_nonce)
  at_nonce = read_back (text "pow_nonce") ∙ unfold claim_announcement text lookup in refl

  at_material : lookup (text "pow_material") payload ≡ some (pow_material b s)
  at_material = read_back (text "pow_material") ∙ unfold claim_announcement text lookup in refl

  at_hash : lookup (text "pow_hash") payload ≡ some pow_hash
  at_hash = read_back (text "pow_hash") ∙ unfold claim_announcement text lookup in refl

  at_witness : lookup (text "witness_root") payload ≡ some (claim_witness_root b reward pow_hash s)
  at_witness = read_back (text "witness_root") ∙ unfold claim_announcement text lookup in refl

  difficulty_read : claim_difficulty (context_of s.store) payload ≡ difficulty_nibbles s
  difficulty_read =
      claim_difficulty-printed (context_of s.store) payload (difficulty_nibbles s)
        (unfold difficulty_nibbles in ground arith) at_difficulty
      ∙ unfold difficulty_nibbles to_int32 in ground arith

  hash_read : text_field (text "pow_hash") payload ≡ pow_hash
  hash_read = text_field-found (text "pow_hash") payload pow_hash at_hash

  pow_good : pow_is_valid (context_of s.store) payload ≡ true
  pow_good =
      pow_is_valid-found (context_of s.store) payload pow_hash (pow_material b s)
        (print_ℕ pow_nonce) hash_read
        (text_field-found (text "pow_material") payload (pow_material b s) at_material)
        (text_field-found (text "pow_nonce") payload (print_ℕ pow_nonce) at_nonce) filled
        (unfold context_of in mined.hashed) (rw difficulty_read mined.zeros)

  witness_good :
      has_witness (claim_witness (context_of s.store) event b.index reward payload) payload ≡ true
  unfolding claim_witness claim_witness_root context_of
  witness_good = has_witness-found payload _ (at_witness ∙ rw hash_read (unfold make_event in refl))

  announced-IsClaimOf :
      b.index < 2 ^ 64
      → IsInt64 reward
      → pos 1 ≤ℤ reward
      → reward ≡ next_claim_reward s.store b.index
      → IsClaimOf s.store b event payload
  announced-IsClaimOf index fits positive due =
      let read = int_field-printed (text "reward") payload reward fits at_reward in
      record {
        index_read = uint_field-printed (text "block_index") payload b.index index at_index;
        reward_due = read ∙ due;
        positive = rw read positive;
        worked = pow_good;
        witnessed = rw read witness_good;
      }

  announced_paid :
      (before after : List Block)
      → 1 ≤ s.store.chain_policy.confirmation_threshold
      → All
          (λ (b : Block). find_block b.index s.store.timeline.blocks ≡ some b)
          s.store.timeline.blocks
      → claimable_confirmed_blocks s.store ≡ before ++ b ∷ after
      → b.index < 2 ^ 64
      → IsInt64 reward
      → pos 1 ≤ℤ reward
      → reward ≡ next_claim_reward s.store b.index
      → apply_claim (context_of s.store) event payload s.store.ledger
        ≡ paid_ledger b s.crypto.identity.cid reward s.store.ledger
  announced_paid before after threshold distinct listed index fits positive due =
      apply_claim-claimable_confirmed_blocks s.store before after b event payload threshold distinct
        listed (announced-IsClaimOf index fits positive due)
      ∙ unfold make_event in
        ap (λ (r : ℤ). paid_ledger b s.crypto.identity.cid r s.store.ledger)
          (int_field-printed (text "reward") payload reward fits at_reward)

-- What stands behind a claim that is made.
record IsMade (b : Block) (reward : ℤ) (s : Service) (a : Announcement) (nonce : ℕ) (found : Bytes)
    : Type 0 where
  mined : IsMined s.store.settings.hash (difficulty_nibbles s) (pow_material b s) nonce found
  filled : is_empty found ≡ false
  announces : a ≡ claim_announcement b reward nonce found s

claim_with-IsMade :
    (b : Block) (reward : ℤ) (s : Service) (a : Announcement) (o : Option (ℕ × Bytes))
    → ((nonce : ℕ) (found : Bytes)
        → o ≡ some (nonce, found)
        → IsMined s.store.settings.hash (difficulty_nibbles s) (pow_material b s) nonce found)
    → claim_with b reward s o ≡ some a
    → (nonce : ℕ) × (found : Bytes) × IsMade b reward s a nonce found
unfolding claim_with
claim_with-IsMade b reward s a none mined h = cc
claim_with-IsMade b reward s a (some (nonce, found)) mined h = elim (Bool-cases (is_empty found)) [
  | inl empty ↦ absurd (ground arith)
  | inr full ↦ (
    nonce,
    found,
    record { mined = mined nonce found refl; filled = full; announces = ground arith },
  )
]

module _ (b : Block) (s : Service) where
  abbrev searched : Option (ℕ × Bytes)
  searched =
      mine s.store.settings.hash (difficulty_nibbles s) (pow_material b s) k_max_pow_attempts 0

  found-IsMined :
      (nonce : ℕ) (found : Bytes)
      → searched ≡ some (nonce, found)
      → IsMined s.store.settings.hash (difficulty_nibbles s) (pow_material b s) nonce found
  found-IsMined nonce found h =
      mine-IsMined s.store.settings.hash (difficulty_nibbles s) (pow_material b s)
        k_max_pow_attempts 0 nonce found h

unwrapped :
    (test : Bool) (o : Option Announcement) (a : Announcement)
    → (if test then none else o) ≡ some a
    → (test ≡ false) × (o ≡ some a)
unwrapped true o a h = cc
unwrapped false o a h = (refl, h)

-- With a confirmation threshold of at least 1 and no two blocks under one index: the claim that the
-- service makes of a block that the store lists as claimable, with an index and a reward that fit
-- 64 bits, is paid by the economic pass in the ledger for which it was made: the block is claimed,
-- and its reward is credited and counted as issued.
pub claim_for_paid :
    (now : ℤ) (b : Block) (before after : List Block) (a : Announcement) (s : Service)
    → 1 ≤ s.store.chain_policy.confirmation_threshold
    → All
        (λ (b : Block). find_block b.index s.store.timeline.blocks ≡ some b)
        s.store.timeline.blocks
    → claimable_confirmed_blocks s.store ≡ before ++ b ∷ after
    → b.index < 2 ^ 64
    → IsInt64 (next_claim_reward s.store b.index)
    → claim_for b s ≡ some a
    → let e = (make_event now a s).0 in
      apply_claim (context_of s.store) e (parse_canonical_map e.payload) s.store.ledger
      ≡ paid_ledger b s.crypto.identity.cid (next_claim_reward s.store b.index) s.store.ledger
unfolding claim_for
claim_for_paid now b before after a s threshold distinct listed index fits h =
    let reward = next_claim_reward s.store b.index in
    let found = searched b s in
    let w = unwrapped (leb_ℤ reward (pos 0)) (claim_with b reward s found) a h in
    let m = claim_with-IsMade b reward s a found (found-IsMined b s) w.1 in
    let positive : pos 1 ≤ℤ reward = ground (arith, w.0) in
    rw m.2.announces (
      announced_paid now b reward m.0 m.1 s m.2.mined m.2.filled before after threshold distinct
        listed index fits positive refl)
