-- ===== src/Ledger/Replay.antt =====
-- Claims and nonces over the economic pass (src/core/storage/store.cpp).
use got_soup.Prelude.{
  ℕ, ◌^◌, ◌<◌, ◌≤◌, Bytes, Bool, true, false, ◌||◌, List, [], ◌∷◌, ◌≡◌, ◌≢◌, refl, some, arith,
  ◌==◌, bytes_eq, nat_eq, if◌then◌else◌, Bool-cases, Option-cases, inl, inr, text,
}
use got_soup.Prelude.Int.{ℤ}
use got_soup.Prelude.Dict.{lookup, get_or, emplace, has, lookup-insert, lookup-emplace}
use got_soup.Model.{EventKind, block_reward_claimed, reward_transferred, EventEnvelope}
use got_soup.Canonical.{parse_canonical_map}
use got_soup.Ledger.{
  Context, Ledger, Payload, uint_field, reject, claim_block, apply_claim, pay, expected_nonce,
  transfer_with_nonce, apply_transfer, apply_post, is_post_kind, parse_post_value, settle_kind,
  settle_event, settle, has_bad_target,
}

-- What the economic pass never takes back, from one ledger to a later one.
pub record Extends (l l' : Ledger) : Type 0 where
  pub claims_kept : (b : ℕ) (a : Bytes) → lookup b l.claimed ≡ some a → lookup b l'.claimed ≡ some a
  pub nonces_grow : (k : Bytes) → get_or k l.nonces 0 ≤ get_or k l'.nonces 0
  pub nonces_fit : (k : Bytes) → get_or k l'.nonces 0 < 2 ^ 64

-- The nonces are uint64 values.
pub record NoncesFit (l : Ledger) : Type 0 where
  pub at_key : (k : Bytes) → get_or k l.nonces 0 < 2 ^ 64

module _ (c : Context) (e : EventEnvelope) (p : Payload) (l : Ledger) (f : NoncesFit l) where
  Extends-refl : (l' : Ledger) → l'.claimed ≡ l.claimed → l'.nonces ≡ l.nonces → Extends l l'
  Extends-refl l' a b = record {
    claims_kept = λ i x h. rw a h;
    nonces_grow = λ k. rw b (omega arith);
    nonces_fit = λ k. rw b (f.at_key k);
  }

  claim_block-claimed :
      (index b : ℕ) (a : Bytes)
      → lookup b l.claimed ≡ some a
      → lookup b (claim_block c e p index l).claimed ≡ some a
  unfolding claim_block
  claim_block-claimed index b a h =
      ground (arith, lookup-insert index b e.author_cid l.claimed, nat_eq.equals_iff index b)

  claim_block-nonces : (index : ℕ) → (claim_block c e p index l).nonces ≡ l.nonces
  unfolding claim_block
  claim_block-nonces index = ground arith

  apply_claim-Extends : Extends l (apply_claim c e p l)
  unfolding apply_claim
  apply_claim-Extends = elim (Option-cases (uint_field (text "block_index") p)) [
    | inl missing ↦ rw (missing, apply_claim) (Extends-refl (reject e.event_id _ l) refl refl)
    | inr (index, found) ↦
        rw (found, apply_claim)
          (record {
            claims_kept = claim_block-claimed index;
            nonces_grow = λ k. rw (claim_block-nonces index) (omega arith);
            nonces_fit = λ k. rw (claim_block-nonces index) (f.at_key k);
          })
  ]

  apply_post-Extends : (value : ℤ) → Extends l (apply_post e value l)
  apply_post-Extends value = Extends-refl (apply_post e value l) claims nonces
    where
      claims : (apply_post e value l).claimed ≡ l.claimed
      claims = unfold apply_post in ground arith

      nonces : (apply_post e value l).nonces ≡ l.nonces
      nonces = unfold apply_post in ground arith

  get_or-touched : (k : Bytes) → get_or k (emplace e.author_cid 0 l.nonces) 0 ≡ get_or k l.nonces 0
  get_or-touched k =
      ground (arith, lookup-emplace e.author_cid k 0 l.nonces, bytes_eq.equals_iff e.author_cid k)

  transfer_with_nonce-claimed :
      (nonce : ℕ) → (transfer_with_nonce c e p nonce l).claimed ≡ l.claimed
  unfolding transfer_with_nonce pay
  transfer_with_nonce-claimed nonce = ground arith

  -- an accepted nonce is the next one, and no wrap-around passes the test for 0
  transfer_with_nonce-nonces :
      (nonce : ℕ) (k : Bytes)
      → nonce ≢ 0
      → (get_or k l.nonces 0 ≤ get_or k (transfer_with_nonce c e p nonce l).nonces 0)
        × (get_or k (transfer_with_nonce c e p nonce l).nonces 0 < 2 ^ 64)
  unfolding transfer_with_nonce pay expected_nonce
  transfer_with_nonce-nonces nonce k nonzero = ground (
    arith,
    get_or-touched k,
    f.at_key k,
    f.at_key e.author_cid,
    bytes_eq.equals_iff e.author_cid k,
    lookup-insert e.author_cid k nonce (emplace e.author_cid 0 l.nonces),
  )

  apply_transfer-Extends : Extends l (apply_transfer c e p l)
  unfolding apply_transfer
  apply_transfer-Extends = elim (Option-cases (uint_field (text "nonce") p)) [
    | inl missing ↦ rw (missing, apply_transfer) (Extends-refl (reject e.event_id _ l) refl refl)
    | inr (nonce, found) ↦ elim (Bool-cases (has_bad_target p || nonce == 0)) [
      | inl bad ↦ rw (found, apply_transfer, bad) (Extends-refl (reject e.event_id _ l) refl refl)
      | inr good ↦
          let nonzero : nonce ≢ 0 = ground arith in
          rw (found, apply_transfer, good)
            (record {
              claims_kept = λ b a h. rw (transfer_with_nonce-claimed nonce) h;
              nonces_grow = λ k. (transfer_with_nonce-nonces nonce k nonzero).0;
              nonces_fit = λ k. (transfer_with_nonce-nonces nonce k nonzero).1;
            })
    ]
  ]

  settle_kind-Extends : (k : EventKind) → Extends l (settle_kind c k e p l)
  unfolding settle_kind
  settle_kind-Extends block_reward_claimed = apply_claim-Extends
  settle_kind-Extends reward_transferred = apply_transfer-Extends
  settle_kind-Extends k = other (is_post_kind k)
    where
      other : (b : Bool) → Extends l (if b then apply_post e (parse_post_value p) l else l)
      other true = apply_post-Extends (parse_post_value p)
      other false = Extends-refl l refl refl

NoncesFit-Extends : {l l' : Ledger} → Extends l l' → NoncesFit l'
NoncesFit-Extends x = record { at_key = x.nonces_fit }

Extends-trans : {l m n : Ledger} → Extends l m → Extends m n → Extends l n
Extends-trans x y = record {
  claims_kept = λ b a h. y.claims_kept b a (x.claims_kept b a h);
  nonces_grow = λ k. omega (arith, x.nonces_grow k, y.nonces_grow k);
  nonces_fit = y.nonces_fit;
}

-- From a ledger whose nonces are uint64 values, whatever the events: no claim of a block changes hands
-- or is lost, no account's nonce falls, and every nonce stays a uint64 value.
pub settle-Extends :
    (c : Context) (es : List EventEnvelope) (l : Ledger) → NoncesFit l → Extends l (settle c es l)
unfolding settle settle_event
settle-Extends c [] l f = record {
  claims_kept = λ b a h. h;
  nonces_grow = λ k. omega arith;
  nonces_fit = f.at_key;
}
settle-Extends c (e ∷ es) l f =
    let one = settle_kind-Extends c e (parse_canonical_map e.payload) l f e.kind in
    Extends-trans one (settle-Extends c es (settle_event c e l) (NoncesFit-Extends one))

-- An event that changes no balance and no total.
pub record PaysNothing (l l' : Ledger) : Type 0 where
  pub same_balances : l'.balances ≡ l.balances
  pub same_issued : l'.issued ≡ l.issued
  pub same_burned : l'.burned ≡ l.burned

claim_block_taken :
    (c : Context) (e : EventEnvelope) (p : Payload) (index : ℕ) (l : Ledger)
    → has index l.claimed ≡ true
    → PaysNothing l (claim_block c e p index l)
unfolding claim_block
claim_block_taken c e p index l h = record {
  same_balances = ground arith;
  same_issued = ground arith;
  same_burned = ground arith;
}

-- Once a block is claimed, no claim for it pays again, whoever makes it and whatever events stand in
-- between.
pub claim_once :
    (c : Context) (es : List EventEnvelope) (l : Ledger) (e : EventEnvelope) (p : Payload)
    (index : ℕ) (owner : Bytes)
    → NoncesFit l
    → lookup index l.claimed ≡ some owner
    → uint_field (text "block_index") p ≡ some index
    → PaysNothing (settle c es l) (apply_claim c e p (settle c es l))
unfolding apply_claim
claim_once c es l e p index owner f claimed read =
    let kept = (settle-Extends c es l f).claims_kept index owner claimed in
    rw (read, apply_claim) (claim_block_taken c e p index (settle c es l) (rw (kept, has)))

stale_nonce :
    (c : Context) (e : EventEnvelope) (p : Payload) (nonce : ℕ) (m : Ledger)
    → get_or e.author_cid m.nonces 0 < 2 ^ 64
    → nonce ≤ get_or e.author_cid m.nonces 0
    → PaysNothing m (
        if has_bad_target p || nonce == 0
        then reject e.event_id (text "Reward transfer has invalid target or amount.") m
        else transfer_with_nonce c e p nonce m)
unfolding transfer_with_nonce expected_nonce
stale_nonce c e p nonce m fit past = record {
  same_balances = ground arith;
  same_issued = ground arith;
  same_burned = ground arith;
}

-- Once an account has used a nonce, a transfer of that account with the nonce pays nothing, whatever
-- events stand in between: a payload that is sent again under another event id is not paid again.
pub transfer_once :
    (c : Context) (es : List EventEnvelope) (l : Ledger) (e : EventEnvelope) (p : Payload)
    (nonce : ℕ)
    → NoncesFit l
    → lookup e.author_cid l.nonces ≡ some nonce
    → uint_field (text "nonce") p ≡ some nonce
    → PaysNothing (settle c es l) (apply_transfer c e p (settle c es l))
unfolding apply_transfer
transfer_once c es l e p nonce f used read =
    let later = settle-Extends c es l f in
    rw (read, apply_transfer)
      (stale_nonce c e p nonce (settle c es l) (later.nonces_fit e.author_cid)
        (rw (used, get_or) at (later.nonces_grow e.author_cid)))
