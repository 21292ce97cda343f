-- ===== src/Publisher/Passing.antt =====
-- An export of internal/hamqtt/publisher.go keeps the order in which the update is offered.
use rig_exporter.Base.{
  ℕ, ◌≡◌, inl, inr, refl, Bool, true, false, not, List, [], ◌∷◌, map, if◌then◌else◌, Bool-cases,
  All, All-append,
}
use rig_exporter.Base.Unicode.{list_eq}
use rig_exporter.Publisher.Broker.{
  Text, Topic, discovery, state, retained, transient, EntityRef, Publisher, ◌>>◌, call, publish,
}
use rig_exporter.Publisher.Updates.{
  Setup, is_current, sync_update_channel, noted, forget_announcements, finished, exhausted, Sync,
}
use rig_exporter.Publisher.Entities.{
  Entity, clear_topics, earlier_topics, previous_topics_for, announce_entity, remember_ref,
  passed_over, announce_each, settle_republish, announce_new, topic_of, topics_of, export,
  sent_or_noted,
}
use rig_exporter.Publisher.Guarding.{
  Guarded, quiet-Guarded, quiet_call-Guarded, Ends, Ends-proceed, Ends-if, call-Ends,
}
use rig_exporter.Publisher.Offering.{sync-Guarded, end_of}

-- Topics of discovery messages.
abbrev pub IsDiscovery : Topic → Type 0
IsDiscovery (discovery t) = Unit
IsDiscovery t = ⊥

clear_one-Guarded :
    (t : Topic) (p : Publisher) → IsDiscovery t → Guarded p → Guarded (publish t [] p).1
clear_one-Guarded (discovery t) p d h = quiet_call-Guarded (retained (discovery t) []) p tt h
clear_one-Guarded state p d h = elim d [ ]
clear_one-Guarded t p d h = elim d [ ]

pub clear_topics-Guarded :
    (ts : List Topic) (p : Publisher)
    → All IsDiscovery ts
    → Guarded p
    → Guarded (clear_topics ts p).1
unfolding clear_topics
clear_topics-Guarded [] p d h = h
clear_topics-Guarded (t ∷ ts) p d h =
    clear_topics-Guarded ts (publish t [] p).1 d.1 (clear_one-Guarded t p d.0 h)

pub topics_of-IsDiscovery :
    (s : Setup) (refs : List EntityRef) → All IsDiscovery (topics_of s.cfg refs)
topics_of-IsDiscovery s [] = tt
topics_of-IsDiscovery s (r ∷ refs) = (tt, topics_of-IsDiscovery s refs)

abbrev pub AnyEnd : Publisher → Type 0
AnyEnd p = Unit

announce_entity-Ends :
    (s : Setup) (e : Entity) (p : Publisher)
    → All IsDiscovery (earlier_topics s.cfg e)
    → Guarded p
    → Ends AnyEnd (announce_entity s e p)
unfolding announce_entity
announce_entity-Ends s e p d h =
    let q = (clear_topics (earlier_topics s.cfg e) p).1 in
    let g = clear_topics-Guarded (earlier_topics s.cfg e) p d h in
    Ends-proceed AnyEnd AnyEnd (remember_ref e.ref) (publish (topic_of s.cfg e.ref) e.payload q)
      (call-Ends AnyEnd (retained (topic_of s.cfg e.ref) e.payload) q g
        (quiet-Guarded (retained (topic_of s.cfg e.ref) e.payload) q tt g) (λ a. tt))
      (λ r k u. (k, tt))

maps-IsDiscovery :
    (f : Text → Text) (ks : List Text) → All IsDiscovery (map (λ k. discovery (f k)) ks)
maps-IsDiscovery f [] = tt
maps-IsDiscovery f (k ∷ ks) = (tt, maps-IsDiscovery f ks)

earlier-IsDiscovery : (s : Setup) (e : Entity) → All IsDiscovery (earlier_topics s.cfg e)
unfolding earlier_topics previous_topics_for
earlier-IsDiscovery s e =
    All-append IsDiscovery _ (previous_topics_for s.cfg e) (maps-IsDiscovery _ e.legacy_keys)
      (elim (Bool-cases (list_eq s.cfg.previous_node_id [])) [
        | inl n ↦ rw n tt
        | inr n ↦ rw n (tt, maps-IsDiscovery _ e.legacy_keys)
      ])

announce_each-Ends :
    (s : Setup) (selected : Text → Bool) (republish : Bool) (es : List Entity) (p : Publisher)
    → Guarded p
    → Ends AnyEnd (announce_each s selected republish es p)
unfolding announce_each
announce_each-Ends s selected republish [] p h = (h, tt)
announce_each-Ends s selected republish (e ∷ es) p h =
    Ends-proceed AnyEnd AnyEnd (announce_each s selected republish es) _
      (Ends-if AnyEnd (passed_over selected republish e p) (true, p) _ (λ b. (h, tt))
        (λ b. announce_entity-Ends s e p (earlier-IsDiscovery s e) h))
      (λ q g u. announce_each-Ends s selected republish es q g)

pub forget-Guarded : (url : Text) (p : Publisher) → Guarded p → Guarded (forget_announcements url p)
unfolding forget_announcements
forget-Guarded url p h = elim (Bool-cases (list_eq url p.announced_url)) [
  | inl e ↦ rw e h
  | inr e ↦ rw e h
]

settle-Ends : (b : Bool) (p : Publisher) → Guarded p → Ends AnyEnd (settle_republish b p)
settle-Ends true p h = (h, tt)
settle-Ends false p h = (h, tt)

announce_new-Ends :
    (s : Setup) (selected : Text → Bool) (es : List Entity) (p : Publisher)
    → Guarded p
    → Ends AnyEnd (announce_new s selected es p)
unfolding announce_new
announce_new-Ends s selected es p h =
    let q = forget_announcements s.web_url p in
    Ends-proceed AnyEnd AnyEnd (settle_republish q.republish)
      (announce_each s selected q.republish es q)
      (announce_each-Ends s selected q.republish es q (forget-Guarded s.web_url p h))
      (λ r g u. settle-Ends q.republish r g)

pub noted-Guarded : (r : Sync) → Guarded (end_of r) → Guarded (noted r)
noted-Guarded (finished b p) h = h
noted-Guarded (exhausted p) h = h

sent_or_noted-Guarded : (r : Bool × Publisher) → Ends AnyEnd r → Guarded (sent_or_noted r).1
sent_or_noted-Guarded (true, p) h = h.0
sent_or_noted-Guarded (false, p) h = h

pub Guarded-if : (b : Bool) (p q : Publisher) → Guarded p → Guarded q → Guarded (if b then p else q)
Guarded-if true p q h k = h
Guarded-if false p q h k = k

-- with the update channel, where there is an updater
abbrev pub synced : Setup → ℕ → Publisher → Publisher
synced s rounds p = if s.has_updates then noted (sync_update_channel s rounds p) else p

pub synced-Guarded :
    (s : Setup) (rounds : ℕ) (p : Publisher) → Guarded p → Guarded (synced s rounds p)
synced-Guarded s rounds p h =
    let r = sync_update_channel s rounds p in
    Guarded-if s.has_updates (noted r) p (noted-Guarded r (sync-Guarded s rounds p h)) h

first_if :
    (b : Bool) (r t : Bool × Publisher)
    → (b ≡ true → Guarded r.1)
    → (b ≡ false → Guarded t.1)
    → Guarded (if b then r else t).1
first_if true r t h k = h refl
first_if false r t h k = k refl

pub export-Guarded :
    (s : Setup) (selected : Text → Bool) (rounds : ℕ) (es : List Entity) (document : Text)
    (p : Publisher)
    → Guarded p
    → Guarded (export s selected rounds es document p).1
unfolding export
export-Guarded s selected rounds es document p h =
    first_if (not (is_current p)) (true, p) _ (λ c. h)
      (λ c.
        let q = synced s rounds p in
        let g = synced-Guarded s rounds p h in
        sent_or_noted-Guarded ((announce_new s selected es >> call (transient state document)) q) (
          Ends-proceed AnyEnd AnyEnd (call (transient state document))
            (announce_new s selected es q) (announce_new-Ends s selected es q g)
            (λ r k u.
              call-Ends AnyEnd (transient state document) r k
                (quiet-Guarded (transient state document) r tt k) (λ a. tt))))
