-- ===== src/Moderation/Replayed.antt =====
-- The moderation state over the replay of the events (the second loop of Store::materialize_views in
-- src/core/storage/store.cpp).
use got_soup.Prelude.{
  ℕ, ◌≤◌, Bytes, true, false, ◌&&◌, ◌||◌, List, [], ◌∷◌, ◌≡◌, ◌⊎◌, inl, inr, refl, bytes_eq, nat_eq,
  length, contains, All, arith, Bool-cases, subst, sym,
}
use got_soup.Prelude.Dict.{Dict, has}
use got_soup.Prelude.Sets.{contains-add}
use got_soup.Model.{
  EventKind, recipe_created, thread_created, reply_created, review_added, thumbs_up_added,
  EventEnvelope, content_flagged, profile_updated, moderator_added, moderator_removed,
  content_hidden, content_unhidden, core_topic_pinned, core_topic_unpinned, policy_updated,
}
use got_soup.Canonical.{parse_canonical_map}
use got_soup.Ledger.{Payload, is_post_kind}
use got_soup.Moderation.{
  ModerationPolicy, Moderation, appoint, fresh_moderation, moderator_required, refuse, act,
  flag_content, is_effective, moderate, object_id_from_payload, is_moderation_event,
}
use got_soup.Moderation.Orderly.{IsOrderly, moderate-IsOrderly, moderate_governed, appoint-distinct}
use got_soup.Views.{
  Views, Confirmed, replay_event, replay, view_event, event_confirmations, fresh_views, add_review,
}
use got_soup.Views.Cleanup.{rebuild_views, clean_up}

view_event-moderation :
    (k : EventKind) (e : EventEnvelope) (p : Payload) (v : Views)
    → (view_event k e p v).moderation ≡ v.moderation
unfolding view_event
view_event-moderation recipe_created e p v = refl
view_event-moderation thread_created e p v = refl
view_event-moderation reply_created e p v = ground arith
view_event-moderation review_added e p v = unfold add_review in ground arith
view_event-moderation thumbs_up_added e p v = ground arith
view_event-moderation profile_updated e p v = refl
view_event-moderation _ e p v = refl

module _ (c : Confirmed) (invalid : Dict Bytes Bytes) where
  replay_event-moderation :
      (e : EventEnvelope) (v : Views)
      → ((replay_event c invalid e v).moderation ≡ v.moderation)
        ⊎ ((replay_event c invalid e v).moderation
            ≡ moderate (event_confirmations c e) e (parse_canonical_map e.payload) v.moderation)
  unfolding replay_event
  replay_event-moderation e v = elim (Bool-cases (has e.event_id invalid && is_post_kind e.kind)) [
    | inl skipped ↦ inl (rw skipped refl)
    | inr seen ↦ elim (Bool-cases (is_moderation_event e.kind)) [
      | inl moderation ↦ inr (rw (seen, moderation) refl)
      | inr other ↦
          inl (rw (seen, other) (view_event-moderation e.kind e (parse_canonical_map e.payload) v))
    ]
  ]

  -- What each moderation event keeps, the replay keeps.
  replay-keeps :
      (P : Moderation → Type 0) (Q : EventEnvelope → Type 0)
      → ((n : ℕ) (e : EventEnvelope) (p : Payload) (m : Moderation)
          → Q e
          → P m
          → P (moderate n e p m))
      → (es : List EventEnvelope) (v : Views) → All Q es
      → P v.moderation
      → P (replay c invalid es v).moderation
  unfolding replay
  replay-keeps P Q step [] v q h = h
  replay-keeps P Q step (e ∷ es) v (q, qs) h =
      replay-keeps P Q step es (replay_event c invalid e v) qs (elim (replay_event-moderation e v) [
        | inl same ↦ subst P (sym same) h
        | inr acted ↦
            subst P (sym acted)
              (step (event_confirmations c e) e (parse_canonical_map e.payload) v.moderation q h)
      ])

All-units : (es : List EventEnvelope) → All (λ _. Unit {0}) es
All-units [] = tt
All-units (e ∷ es) = (tt, All-units es)

clean_up-moderation : (c : Confirmed) (v : Views) → (clean_up c v).moderation ≡ v.moderation
unfolding clean_up
clean_up-moderation c v = refl

-- Whatever the events, for a policy that names at least one moderator: after the replay the community has a
-- moderator, none is listed twice, and every object that is marked as hidden by flags is hidden.
pub rebuild_views-IsOrderly :
    (c : Confirmed) (policy : ModerationPolicy) (invalid : Dict Bytes Bytes)
    (es : List EventEnvelope)
    → 1 ≤ length (appoint policy.moderator_cids [])
    → let m = (rebuild_views c policy invalid es).moderation in
      (1 ≤ length m.moderators) × IsOrderly m
unfolding rebuild_views fresh_views fresh_moderation
rebuild_views-IsOrderly c policy invalid es h =
    let start : IsOrderly (fresh_moderation policy) = record {
      distinct = appoint-distinct policy.moderator_cids [] (λ x. omega arith);
      marked = λ x k. cc k;
    } in
    subst (λ m. (1 ≤ length m.moderators) × IsOrderly m)
      (sym (clean_up-moderation c (replay c invalid es (fresh_views policy))))
      (replay-keeps c invalid (λ m. (1 ≤ length m.moderators) × IsOrderly m) (λ _. Unit)
        (λ n e p m _ (some_left, o).
          (moderate_governed n e p m o some_left, moderate-IsOrderly n e p m o))
        es (fresh_views policy) (All-units es) (h, start))

-- What events of authors without authority can do to the moderation state.
pub record OnlyFlags (m m' : Moderation) : Type 0 where
  pub same_moderators : m'.moderators ≡ m.moderators
  pub same_policy : m'.policy ≡ m.policy
  pub same_topics : m'.core_topic_overrides ≡ m.core_topic_overrides
  pub still_hidden : (x : Bytes) → contains x m.hidden ≡ true → contains x m'.hidden ≡ true
  pub hidden_by_flags :
      (x : Bytes)
      → contains x m'.hidden ≡ true
      → (contains x m.hidden || contains x m'.auto_hidden) ≡ true
  pub still_marked :
      (x : Bytes) → contains x m.auto_hidden ≡ true → contains x m'.auto_hidden ≡ true

module _ (m₀ : Moderation) where
  refuse-OnlyFlags :
      (e : EventEnvelope) (why : Bytes) (m : Moderation)
      → OnlyFlags m₀ m
      → OnlyFlags m₀ (refuse e why m)
  refuse-OnlyFlags e why m f = record {
    same_moderators = f.same_moderators;
    same_policy = f.same_policy;
    same_topics = f.same_topics;
    still_hidden = f.still_hidden;
    hidden_by_flags = f.hidden_by_flags;
    still_marked = f.still_marked;
  }

  flag_content-OnlyFlags :
      (e : EventEnvelope) (id : Bytes) (m : Moderation)
      → OnlyFlags m₀ m
      → OnlyFlags m₀ (flag_content e id m)
  unfolding flag_content
  flag_content-OnlyFlags e id m f = record {
    same_moderators = ground (arith, f.same_moderators);
    same_policy = ground (arith, f.same_policy);
    same_topics = ground (arith, f.same_topics);
    still_hidden = λ x h. ground (arith, f.still_hidden x h, contains-add id x m.hidden);
    hidden_by_flags = λ x.
        ground
          (arith, f.hidden_by_flags x, contains-add id x m.hidden, contains-add id x m.auto_hidden);
    still_marked = λ x h. ground (arith, f.still_marked x h, contains-add id x m.auto_hidden);
  }

  act-OnlyFlags :
      (k : EventKind) (e : EventEnvelope) (p : Payload) (m : Moderation)
      → moderator_required k ≡ false
      → OnlyFlags m₀ m
      → OnlyFlags m₀ (act k e p m)
  unfolding act moderator_required
  act-OnlyFlags content_flagged e p m r f =
      flag_content-OnlyFlags e (object_id_from_payload p e) m f
  act-OnlyFlags moderator_added e p m r f = absurd (ground arith)
  act-OnlyFlags moderator_removed e p m r f = absurd (ground arith)
  act-OnlyFlags content_hidden e p m r f = absurd (ground arith)
  act-OnlyFlags content_unhidden e p m r f = absurd (ground arith)
  act-OnlyFlags core_topic_pinned e p m r f = absurd (ground arith)
  act-OnlyFlags core_topic_unpinned e p m r f = absurd (ground arith)
  act-OnlyFlags policy_updated e p m r f = absurd (ground arith)
  act-OnlyFlags recipe_created e p m r f = f
  act-OnlyFlags _ e p m r f = f

  moderate-OnlyFlags :
      (n : ℕ) (e : EventEnvelope) (p : Payload) (m : Moderation)
      → contains e.author_cid m₀.moderators ≡ false
      → OnlyFlags m₀ m
      → OnlyFlags m₀ (moderate n e p m)
  unfolding moderate
  moderate-OnlyFlags n e p m outside f = elim (Bool-cases (is_effective m.policy n)) [
    | inr off ↦ rw off f
    | inl on ↦ elim (Bool-cases (moderator_required e.kind)) [
      | inl required ↦
          let lacking : contains e.author_cid m.moderators ≡ false = rw f.same_moderators outside in
          rw (on, required, lacking) (refuse-OnlyFlags e _ m f)
      | inr free ↦ rw (on, free) (act-OnlyFlags e.kind e p m free f)
    ]
  ]

-- Events of authors who are not moderators, as many as there are: after their replay the moderators, the
-- policy and the pinned topics are what they were, nothing that was hidden is shown again, and all that is
-- newly hidden is marked as hidden by flags.
pub replay-OnlyFlags :
    (c : Confirmed) (invalid : Dict Bytes Bytes) (es : List EventEnvelope) (v : Views)
    → All (λ (e : EventEnvelope). contains e.author_cid v.moderation.moderators ≡ false) es
    → OnlyFlags v.moderation (replay c invalid es v).moderation
replay-OnlyFlags c invalid es v outside =
    replay-keeps c invalid (OnlyFlags v.moderation)
      (λ (e : EventEnvelope). contains e.author_cid v.moderation.moderators ≡ false)
      (moderate-OnlyFlags v.moderation) es v outside
      (record {
        same_moderators = refl;
        same_policy = refl;
        same_topics = refl;
        still_hidden = λ x h. h;
        hidden_by_flags = λ x h. ground (arith, h);
        still_marked = λ x h. h;
      })
