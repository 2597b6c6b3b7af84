-- ===== src/Timeline/Slots.antt =====
-- The slots that `ensure_block_slots_until` reserves (src/core/storage/store.cpp).
use got_soup.Prelude.{
  ℕ, zero, suc, ◌+◌, ◌^◌, ◌<◌, true, false, List, [], ◌∷◌, ◌≡◌, ◌⊎◌, inl, inr, refl, All, arith,
  length, get_last?, some, ◌++◌, Bool-cases, ap,
}
use got_soup.Prelude.Int.{
  ℤ, pos, negsuc, pos_part, ◌+ℤ◌, ◌-ℤ◌, ◌≤ℤ◌, int_laws, add64, sub64, add64_nonneg, sub64_nonneg,
  signed64, leb_ℤ, IsInt64, parts_apart,
}
use got_soup.Chain.{Block}
use got_soup.Timeline.{next_slot, slot_is_due, slots_after, with_slots}

abbrev pub last_or : Block → List Block → Block
last_or b [] = b
last_or b (c ∷ cs) = last_or c cs

-- Each block is opened one interval after the one before it, under the next index, and waits for events.
abbrev pub AreSpaced : ℕ → Block → List Block → Type 0
AreSpaced interval b [] = Unit
AreSpaced interval b (c ∷ cs) =
    (c.index ≡ b.index + 1)
    × (c.opened_unix ≡ b.opened_unix +ℤ pos interval)
    × (c.reserved ≡ true)
    × (c.confirmed ≡ false)
    × (c.event_ids ≡ [])
    × AreSpaced interval c cs

-- The slots end because the rounds are used up, or because none is due.
pub record IsFilled (rounds interval : ℕ) (now : ℤ) (last : Block) (slots : List Block)
    : Type 0 where
  pub spaced : AreSpaced interval last slots
  pub opened : All (λ (b : Block). b.opened_unix ≤ℤ now) slots
  pub ended : (length slots ≡ rounds) ⊎ (slot_is_due interval now (last_or last slots) ≡ false)

one_more {ℓ} : {m n : ℕ} {Q : Type ℓ} → (m ≡ n) ⊎ Q → (suc m ≡ suc n) ⊎ Q
one_more (inl e) = inl (ap suc e)
one_more (inr q) = inr q

due_sum :
    (interval : ℕ) (now opened : ℤ)
    → interval < 2 ^ 63
    → pos 0 ≤ℤ opened
    → IsInt64 now
    → pos 0 ≤ℤ now
    → opened ≤ℤ now
    → leb_ℤ (signed64 interval) (sub64 now opened) ≡ true
    → (add64 opened (signed64 interval) ≡ opened +ℤ pos interval) × (opened +ℤ pos interval ≤ℤ now)
due_sum interval now opened small nonneg fits now0 le due =
    let diff : sub64 now opened ≡ now -ℤ opened = sub64_nonneg now opened nonneg le fits in
    let word : signed64 interval ≡ pos interval = ground arith in
    let room : pos interval ≤ℤ now -ℤ opened = ground (arith, rw (diff, word) at due) in
    let top : pos_part now < 2 ^ 63 = below now fits in
    (
      rw word (
          add64_nonneg opened (pos interval) nonneg (omega arith)
            (omega (int_laws, room, top, parts_apart opened, parts_apart now))),
      omega (int_laws, room),
    )
  where
    below : (a : ℤ) → IsInt64 a → pos_part a < 2 ^ 63
    below (pos n) h = h
    below (negsuc n) h = omega arith

module _ (interval : ℕ) (small : interval < 2 ^ 63) (now : ℤ) (fits : IsInt64 now)
    (now0 : pos 0 ≤ℤ now) where
  slots_after-IsFilled :
      (rounds : ℕ) (last : Block)
      → last.index + rounds < 2 ^ 64
      → pos 0 ≤ℤ last.opened_unix
      → last.opened_unix ≤ℤ now
      → IsFilled rounds interval now last (slots_after rounds interval now last)
  unfolding slots_after
  slots_after-IsFilled zero last room nonneg le = record {
    spaced = tt;
    opened = tt;
    ended = inl refl;
  }
  slots_after-IsFilled (suc rounds) last room nonneg le =
      elim (Bool-cases (slot_is_due interval now last)) [
        | inr early ↦ rw early (record { spaced = tt; opened = tt; ended = inr early })
        | inl due ↦
            let sums =
              due_sum interval now last.opened_unix small nonneg fits now0 le
                (unfold slot_is_due in due) in
            let next = next_slot interval last in
            let ahead : pos 0 ≤ℤ next.opened_unix = rw sums.0 (omega (int_laws, nonneg)) in
            let before : next.opened_unix ≤ℤ now = rw sums.0 sums.1 in
            let index : next.index ≡ last.index + 1 = omega arith in
            let rest = slots_after-IsFilled rounds next (omega arith) ahead before in
            rw due (record {
              spaced = (index, sums.0, refl, refl, refl, rest.spaced);
              opened = (before, rest.opened);
              ended = one_more rest.ended;
            })
      ]

-- For an interval below 2^63, a clock that is an int64 and not negative, and a last block that was
-- opened at a time that is not negative and at or before the clock, and whose index leaves room for 256
-- more below 2^64: the blocks are kept, and
-- the slots that follow them stand one interval apart under consecutive indices, open for events, each
-- opened at or before the clock. They end after 256, or at the first that would not be due.
pub with_slots-IsFilled :
    (interval : ℕ) (now : ℤ) (blocks : List Block) (last : Block)
    → get_last? blocks ≡ some last
    → interval < 2 ^ 63
    → IsInt64 now
    → pos 0 ≤ℤ now
    → pos 0 ≤ℤ last.opened_unix
    → last.opened_unix ≤ℤ now
    → last.index + 256 < 2 ^ 64
    → (slots : List Block) × (with_slots interval now blocks ≡ blocks ++ slots)
      × IsFilled 256 interval now last slots
unfolding with_slots
with_slots-IsFilled interval now blocks last found small fits now0 nonneg le room = (
  slots_after 256 interval now last,
  rw (found, with_slots),
  slots_after-IsFilled interval small now fits now0 256 last room nonneg le,
)
