-- ===== src/Store/Contents.antt =====
-- The events in the blocks under the operations that hash, confirm or reserve blocks (src/core/storage/store.cpp).
use got_soup.Prelude.{
  ℕ, zero, suc, Bytes, Bool, List, [], ◌∷◌, ◌==◌, ◌≡◌, refl, ◌∙◌, if◌then◌else◌, bytes_eq, arith,
  nat_eq, count-append, All, Bool-cases, Option-cases, inl, inr, get_last?,
}
use got_soup.Prelude.Int.{ℤ}
use got_soup.Prelude.Dict.{Dict}
use got_soup.Prelude.Sort.{sort, insert_sorted}
use got_soup.Chain.{Block}
use got_soup.Timeline.{
  Settings, Timeline, assigned_ids, slots_after, with_slots, next_slot, slot_is_due,
  ensure_genesis_block, ensure_block_slots_until,
}
use got_soup.Timeline.Assign.{times, times-append}
use got_soup.Timeline.Assigned.{ensure_genesis_in-SameContents, events-ensure_genesis_in}
use got_soup.Hashing.{rehash, rehash_from, stamped, psz_after, recompute_block_hashes}
use got_soup.Store.{confirm_due}

All-insert_sorted {ℓ κ} :
    {A : Type ℓ} (lt : A → A → Bool) (P : A → Type κ) (x : A) (xs : List A)
    → P x
    → All P xs
    → All P (insert_sorted lt x xs)
unfolding insert_sorted
All-insert_sorted lt P x [] h hs = (h, tt)
All-insert_sorted lt P x (y ∷ ys) h (k, ks) = elim (Bool-cases (lt y x)) [
  | inl e ↦ rw e (k, All-insert_sorted lt P x ys h ks)
  | inr e ↦ rw e (h, (k, ks))
]

pub All-sort {ℓ κ} :
    {A : Type ℓ} (lt : A → A → Bool) (P : A → Type κ) (xs : List A) → All P xs → All P (sort lt xs)
unfolding sort
All-sort lt P [] h = tt
All-sort lt P (x ∷ xs) (h, hs) = All-insert_sorted lt P x (sort lt xs) h (All-sort lt P xs hs)

times_cons :
    (i : Bytes) (b b' : Block) (bs bs' : List Block)
    → b'.event_ids ≡ b.event_ids
    → times i bs' ≡ times i bs
    → times i (b' ∷ bs') ≡ times i (b ∷ bs)
unfolding assigned_ids
times_cons i b b' bs bs' e h = rw (
  e,
  count-append i b.event_ids (assigned_ids bs),
  count-append i b.event_ids (assigned_ids bs'),
  h,
)

event_ids-rehash :
    (s : Settings) (hashes : Dict Bytes Bytes) (prev psz : Bytes) (b : Block)
    → (rehash s hashes prev (stamped b psz)).event_ids ≡ b.event_ids
unfolding rehash stamped
event_ids-rehash s hashes prev psz b = ground arith

times-rehash_from :
    (i : Bytes) (s : Settings) (hashes : Dict Bytes Bytes) (prev psz : Bytes) (bs : List Block)
    → times i (rehash_from s hashes prev psz bs).0 ≡ times i bs
unfolding rehash_from
times-rehash_from i s hashes prev psz [] = refl
times-rehash_from i s hashes prev psz (b ∷ bs) =
    let psz' = psz_after s b psz in
    let b' = rehash s hashes prev (stamped b psz') in
    times_cons i b b' bs _ (event_ids-rehash s hashes prev psz' b)
      (times-rehash_from i s hashes b'.block_hash psz' bs)

pub times-recompute_block_hashes :
    (i : Bytes) (s : Settings) (t : Timeline)
    → times i (recompute_block_hashes s t).blocks ≡ times i t.blocks
unfolding recompute_block_hashes
times-recompute_block_hashes i s t = times-rehash_from i s _ _ _ t.blocks

times-slots_after :
    (i : Bytes) (rounds interval : ℕ) (now : ℤ) (b : Block)
    → times i (slots_after rounds interval now b) ≡ 0
unfolding slots_after assigned_ids
times-slots_after i zero interval now b = refl
times-slots_after i (suc rounds) interval now b = elim (Bool-cases (slot_is_due interval now b)) [
  | inl due ↦ rw due (times-slots_after i rounds interval now (next_slot interval b))
  | inr none_due ↦ rw none_due refl
]

times-with_slots :
    (i : Bytes) (interval : ℕ) (now : ℤ) (bs : List Block)
    → times i (with_slots interval now bs) ≡ times i bs
unfolding with_slots
times-with_slots i interval now bs = elim (Option-cases (get_last? bs)) [
  | inl empty ↦ rw (empty, with_slots)
  | inr (b, last) ↦
      rw (last, with_slots)
        (omega (
          arith,
          times-append i bs (slots_after 256 interval now b),
          times-slots_after i 256 interval now b,
        ))
]

pub times-ensure_block_slots_until :
    (i : Bytes) (s : Settings) (now : ℤ) (t : Timeline)
    → times i (ensure_block_slots_until s now t).blocks ≡ times i t.blocks
unfolding ensure_block_slots_until ensure_genesis_block
times-ensure_block_slots_until i s now t =
    let timed : Timeline = record t {
      block_interval_seconds =
          if t.block_interval_seconds == 0 then 150 else t.block_interval_seconds;
    } in
    let t' = ensure_genesis_block s now timed in
    times-with_slots i t'.block_interval_seconds now t'.blocks
    ∙ (ensure_genesis_in-SameContents s now t.blocks timed).same_times i

pub events-ensure_block_slots_until :
    (s : Settings) (now : ℤ) (t : Timeline) → (ensure_block_slots_until s now t).events ≡ t.events
unfolding ensure_block_slots_until ensure_genesis_block
events-ensure_block_slots_until s now t = events-ensure_genesis_in s now t.blocks _

pub times-confirm_due :
    (i : Bytes) (interval : ℕ) (now : ℤ) (bs : List Block)
    → times i (confirm_due interval now bs) ≡ times i bs
unfolding confirm_due
times-confirm_due i interval now [] = refl
times-confirm_due i interval now (b ∷ bs) =
    times_cons i b _ bs _ (ground arith) (times-confirm_due i interval now bs)
