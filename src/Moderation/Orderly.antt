-- ===== src/Moderation/Orderly.antt =====
-- The moderation state over one event (src/core/storage/store.cpp).
use got_soup.Prelude.{
  ℕ, ◌≤◌, Bytes, Bool, true, false, ◌&&◌, not, List, [], ◌∷◌, ◌++◌, is_empty, if◌then◌else◌, nat_eq,
  bytes_eq, text, length, contains, count, ◌≡◌, arith, Bool-cases, inl, inr,
}
use got_soup.Prelude.Sets.{
  add, contains-add, contains-remove, count-add, count-remove, length-remove,
}
use got_soup.Canonical.{trim_copy}
use got_soup.Model.{
  EventKind, moderator_added, moderator_removed, content_flagged, content_hidden, content_unhidden,
  core_topic_pinned, core_topic_unpinned, policy_updated, EventEnvelope, recipe_created,
}
use got_soup.Ledger.{Payload, text_field}
use got_soup.Moderation.{
  Moderation, appoint, moderator_required, refuse, target_cid_of, object_id_from_payload,
  add_moderator, remove_moderator, flag_content, hide_content, unhide_content, pin_core_topic, act,
  is_effective, moderate,
}

-- No moderator is listed twice, and what was hidden by flags is hidden.
pub record IsOrderly (m : Moderation) : Type 0 where
  pub distinct : (x : Bytes) → count x m.moderators ≤ 1
  pub marked : (x : Bytes) → contains x m.auto_hidden ≡ true → contains x m.hidden ≡ true

length-add : (x : Bytes) (s : List Bytes) → length s ≤ length (add x s)
unfolding add
length-add x s = ground arith

module _ (e : EventEnvelope) (id : Bytes) (m : Moderation) (o : IsOrderly m) where
  add_moderator-IsOrderly : IsOrderly (add_moderator e id m)
  unfolding add_moderator
  add_moderator-IsOrderly = record {
    distinct = λ x. ground (arith, o.distinct x, count-add id x m.moderators (o.distinct x));
    marked = λ x. ground (arith, o.marked x);
  }

  remove_moderator-IsOrderly : IsOrderly (remove_moderator e id m)
  unfolding remove_moderator
  remove_moderator-IsOrderly = record {
    distinct = λ x. ground (arith, o.distinct x, count-remove id x m.moderators);
    marked = λ x. ground (arith, o.marked x);
  }

  flag_content-IsOrderly : IsOrderly (flag_content e id m)
  unfolding flag_content
  flag_content-IsOrderly = record {
    distinct = λ x. ground (arith, o.distinct x);
    marked = λ x.
        ground (arith, o.marked x, contains-add id x m.hidden, contains-add id x m.auto_hidden);
  }

  hide_content-IsOrderly : IsOrderly (hide_content e id m)
  unfolding hide_content
  hide_content-IsOrderly = record {
    distinct = λ x. ground (arith, o.distinct x);
    marked = λ x.
        ground (arith, o.marked x, contains-add id x m.hidden, contains-remove id x m.auto_hidden);
  }

  unhide_content-IsOrderly : IsOrderly (unhide_content e id m)
  unfolding unhide_content
  unhide_content-IsOrderly = record {
    distinct = λ x. ground (arith, o.distinct x);
    marked = λ x.
        ground
          (arith, o.marked x, contains-remove id x m.hidden, contains-remove id x m.auto_hidden);
  }

  pin_core_topic-IsOrderly :
      (pinned : Bool) (why : Bytes) → IsOrderly (pin_core_topic e id pinned why m)
  unfolding pin_core_topic
  pin_core_topic-IsOrderly pinned why = record {
    distinct = λ x. ground (arith, o.distinct x);
    marked = λ x. ground (arith, o.marked x);
  }

  remove_moderator_leaves :
      1 ≤ length m.moderators → 1 ≤ length (remove_moderator e id m).moderators
  unfolding remove_moderator
  remove_moderator_leaves h = ground (arith, o.distinct id, length-remove id m.moderators)

module _ (e : EventEnvelope) (p : Payload) (m : Moderation) (o : IsOrderly m) where
  act-IsOrderly : (k : EventKind) → IsOrderly (act k e p m)
  unfolding act
  act-IsOrderly moderator_added = add_moderator-IsOrderly e (target_cid_of p) m o
  act-IsOrderly moderator_removed = remove_moderator-IsOrderly e (target_cid_of p) m o
  act-IsOrderly content_flagged = flag_content-IsOrderly e (object_id_from_payload p e) m o
  act-IsOrderly content_hidden = hide_content-IsOrderly e (object_id_from_payload p e) m o
  act-IsOrderly content_unhidden = unhide_content-IsOrderly e (object_id_from_payload p e) m o
  act-IsOrderly core_topic_pinned =
      pin_core_topic-IsOrderly e (text_field (text "recipe_id") p) m o true _
  act-IsOrderly core_topic_unpinned =
      pin_core_topic-IsOrderly e (text_field (text "recipe_id") p) m o false _
  act-IsOrderly policy_updated = record { distinct = o.distinct; marked = o.marked }
  act-IsOrderly recipe_created = o
  act-IsOrderly _ = o

  act_governed : (k : EventKind) → 1 ≤ length m.moderators → 1 ≤ length (act k e p m).moderators
  unfolding act
  act_governed moderator_added h =
      unfold add_moderator in ground (arith, length-add (target_cid_of p) m.moderators)
  act_governed moderator_removed h = remove_moderator_leaves e (target_cid_of p) m o h
  act_governed content_flagged h = unfold flag_content in ground arith
  act_governed content_hidden h = unfold hide_content in ground arith
  act_governed content_unhidden h = unfold unhide_content in ground arith
  act_governed core_topic_pinned h = unfold pin_core_topic in ground arith
  act_governed core_topic_unpinned h = unfold pin_core_topic in ground arith
  act_governed policy_updated h = h
  act_governed recipe_created h = h
  act_governed _ h = h

pub moderate-IsOrderly :
    (n : ℕ) (e : EventEnvelope) (p : Payload) (m : Moderation)
    → IsOrderly m
    → IsOrderly (moderate n e p m)
unfolding moderate
moderate-IsOrderly n e p m o = elim (Bool-cases (is_effective m.policy n)) [
  | inr off ↦ rw off o
  | inl on ↦
      rw on (by_authority (moderator_required e.kind && not (contains e.author_cid m.moderators)))
]
  where
    by_authority :
        (lacking : Bool)
        → IsOrderly (
            if lacking
            then refuse e
                (text "Moderator authority required for moderation event by "
                  ++ e.author_cid
                  ++ text ".")
                m
            else act e.kind e p m)
    by_authority true = record { distinct = o.distinct; marked = o.marked }
    by_authority false = act-IsOrderly e p m o e.kind

pub moderate_governed :
    (n : ℕ) (e : EventEnvelope) (p : Payload) (m : Moderation)
    → IsOrderly m
    → 1 ≤ length m.moderators
    → 1 ≤ length (moderate n e p m).moderators
unfolding moderate
moderate_governed n e p m o h = ground (arith, act_governed e p m o e.kind h)

pub appoint-distinct :
    (cids s : List Bytes)
    → ((x : Bytes) → count x s ≤ 1)
    → (x : Bytes) → count x (appoint cids s) ≤ 1
unfolding appoint
appoint-distinct [] s h x = h x
appoint-distinct (cid ∷ cids) s h x =
    appoint-distinct cids (if is_empty (trim_copy cid) then s else add (trim_copy cid) s)
      (λ y. ground (arith, h y, count-add (trim_copy cid) y s (h y))) x
