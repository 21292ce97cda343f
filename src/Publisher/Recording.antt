-- ===== src/Publisher/Recording.antt =====
-- The map `announced` of internal/hamqtt/publisher.go as a record of what the broker retains.
use rig_exporter.Base.{
  ◌≡◌, inl, inr, refl, sym, ◌∙◌, Bool, true, false, List, [], ◌∷◌, arith, if◌then◌else◌, Bool-cases,
  All,
}
use mathlib.Core.Path.{subst}
use rig_exporter.Base.Unicode.{list_eq}
use rig_exporter.Config.{Config}
use rig_exporter.Config.Topics.{IsSegment, discovery_topic}
use rig_exporter.Publisher.Broker.{
  Text, Topic, discovery, Event, retained, EntityRef, Publisher, proceed, call, publish,
}
use rig_exporter.Publisher.Updates.{Setup, forget_announcements}
use rig_exporter.Publisher.Calls.{call-Untouched}
use rig_exporter.Publisher.Entities.{
  Entity, delete_key, topic_of, clear_topics, earlier_topics, remember_ref, announce_entity,
  passed_over, announce_each, settle_republish, announce_new,
}
use rig_exporter.Publisher.Sent.{any_topics-Untouched}
use rig_exporter.Publisher.Retaining.{holds, Spares, call-holds, call-held}

abbrev pub text_of : Config → EntityRef → Text
text_of c r = discovery_topic c r.component r.key

-- A reference to an entity of now: its parts have no slash, and its key is one that readings have.
pub record IsProper (is_key : Text → Bool) (r : EntityRef) : Type 0 where
  pub component : IsSegment r.component
  pub key : IsSegment r.key
  pub present : is_key r.key ≡ true

-- The broker retains a message for each reference.
abbrev pub Held : Config → (Text → Bool) → List Event → List EntityRef → Type 0
Held c is_key log [] = Unit
Held c is_key log (r ∷ rs) =
    IsProper is_key r × (holds log (text_of c r) ≡ true) × Held c is_key log rs

-- A topic of no entity of now.
abbrev pub IsRetired : Config → (Text → Bool) → Topic → Type 0
IsRetired c is_key t = (r : EntityRef) → IsProper is_key r → Spares (text_of c r) (retained t [])

module _ (c : Config) (is_key : Text → Bool) where
  -- Each reference is spared by an event.
  abbrev pub AllSpared : Event → List EntityRef → Type 0
  AllSpared e [] = Unit
  AllSpared e (r ∷ rs) = Spares (text_of c r) e × AllSpared e rs

  pub call-Held :
      (e : Event) (p : Publisher) (rs : List EntityRef)
      → AllSpared e rs
      → Held c is_key p.log rs
      → Held c is_key (call e p).1.log rs
  call-Held e p [] a h = tt
  call-Held e p (r ∷ rs) a h = (h.0, call-holds (text_of c r) e p a.0 h.1, call-Held e p rs a.1 h.2)

  retired-AllSpared :
      (t : Topic) (log : List Event) (rs : List EntityRef)
      → IsRetired c is_key t
      → Held c is_key log rs
      → AllSpared (retained t []) rs
  retired-AllSpared t log [] a h = tt
  retired-AllSpared t log (r ∷ rs) a h = (a r h.0, retired-AllSpared t log rs a h.2)

  clear_retired-Held :
      (ts : List Topic) (p : Publisher) (rs : List EntityRef)
      → All (IsRetired c is_key) ts
      → Held c is_key p.log rs
      → Held c is_key (clear_topics ts p).1.log rs
  unfolding clear_topics
  clear_retired-Held [] p rs a h = h
  clear_retired-Held (t ∷ ts) p rs a h =
      clear_retired-Held ts (publish t [] p).1 rs a.1
        (call-Held (retained t []) p rs (retired-AllSpared t p.log rs a.0 h) h)

  full-AllSpared :
      (t : Text) (payload : Text) (rs : List EntityRef)
      → list_eq payload [] ≡ false
      → AllSpared (retained (discovery t) payload) rs
  full-AllSpared t payload [] n = tt
  full-AllSpared t payload (r ∷ rs) n = (ground arith, full-AllSpared t payload rs n)

  pub delete_key-Held :
      (k : Text) (log : List Event) (rs : List EntityRef)
      → Held c is_key log rs
      → Held c is_key log (delete_key k rs)
  delete_key-Held k log [] h = tt
  delete_key-Held k log (r ∷ rs) h =
      let rest = delete_key-Held k log rs h.2 in
      elim (Bool-cases (list_eq k r.key)) [ inl e ↦ rw e rest | inr e ↦ rw e (h.0, h.1, rest) ]

  -- What a publisher has announced is retained.
  abbrev pub Recorded : Publisher → Type 0
  Recorded p = Held c is_key p.log p.announced

  -- An entity of a snapshot: its payload is not empty, and no earlier name of it is one of now.
  pub record IsEntity (e : Entity) : Type 0 where
    pub proper : IsProper is_key e.ref
    pub full : list_eq e.payload [] ≡ false
    pub retired : All (IsRetired c is_key) (earlier_topics c e)

  remembered-Recorded :
      (r : EntityRef) (x : Bool × Publisher)
      → IsProper is_key r
      → (x.0 ≡ true → holds x.1.log (text_of c r) ≡ true)
      → Recorded x.1
      → Recorded (proceed (remember_ref r) x).1
  remembered-Recorded r (true, q) n h k = (n, h refl, delete_key-Held r.key q.log q.announced k)
  remembered-Recorded r (false, q) n h k = k

  pub same-Recorded :
      (p : Publisher) (rs : List EntityRef) → p.announced ≡ rs → Held c is_key p.log rs → Recorded p
  same-Recorded p rs e h = subst (λ l. Held c is_key p.log l) (sym e) h

module _ (s : Setup) (is_key : Text → Bool) where
  announce_entity-Recorded :
      (e : Entity) (p : Publisher)
      → IsEntity s.cfg is_key e
      → Recorded s.cfg is_key p
      → Recorded s.cfg is_key (announce_entity s e p).1
  unfolding announce_entity
  announce_entity-Recorded e p n h =
      let ts = earlier_topics s.cfg e in
      let q = (clear_topics ts p).1 in
      let send = retained (topic_of s.cfg e.ref) e.payload in
      let cleared = clear_retired-Held s.cfg is_key ts p p.announced n.retired h in
      let kept =
        call-Held s.cfg is_key send q p.announced
          (full-AllSpared s.cfg is_key (text_of s.cfg e.ref) e.payload p.announced n.full)
          cleared in
      remembered-Recorded s.cfg is_key e.ref (call send q) n.proper
        (call-held (text_of s.cfg e.ref) e.payload q n.full)
        (same-Recorded s.cfg is_key (call send q).1 p.announced
          ((call-Untouched send q).announced ∙ (any_topics-Untouched ts p).announced) kept)

  proceed-Recorded :
      (b : Publisher → Bool × Publisher) (r : Bool × Publisher)
      → Recorded s.cfg is_key r.1
      → ((q : Publisher) → Recorded s.cfg is_key q → Recorded s.cfg is_key (b q).1)
      → Recorded s.cfg is_key (proceed b r).1
  proceed-Recorded b (true, q) h k = k q h
  proceed-Recorded b (false, q) h k = h

  if-Recorded :
      (b : Bool) (r t : Bool × Publisher)
      → Recorded s.cfg is_key r.1
      → Recorded s.cfg is_key t.1
      → Recorded s.cfg is_key (if b then r else t).1
  if-Recorded true r t h k = h
  if-Recorded false r t h k = k

  announce_each-Recorded :
      (selected : Text → Bool) (republish : Bool) (es : List Entity) (p : Publisher)
      → All (IsEntity s.cfg is_key) es
      → Recorded s.cfg is_key p
      → Recorded s.cfg is_key (announce_each s selected republish es p).1
  unfolding announce_each
  announce_each-Recorded selected republish [] p a h = h
  announce_each-Recorded selected republish (e ∷ es) p a h =
      proceed-Recorded (announce_each s selected republish es) _
        (if-Recorded (passed_over selected republish e p) (true, p) (announce_entity s e p) h
          (announce_entity-Recorded e p a.0 h))
        (λ q k. announce_each-Recorded selected republish es q a.1 k)

  settle-Recorded :
      (b : Bool) (p : Publisher)
      → Recorded s.cfg is_key p
      → Recorded s.cfg is_key (settle_republish b p).1
  settle-Recorded true p h = h
  settle-Recorded false p h = h

  forget-Recorded :
      (url : Text) (p : Publisher)
      → Recorded s.cfg is_key p
      → Recorded s.cfg is_key (forget_announcements url p)
  unfolding forget_announcements
  forget-Recorded url p h = elim (Bool-cases (list_eq url p.announced_url)) [
    | inl e ↦ rw e h
    | inr e ↦ rw e h
  ]

  pub announce_new-Recorded :
      (selected : Text → Bool) (es : List Entity) (p : Publisher)
      → All (IsEntity s.cfg is_key) es
      → Recorded s.cfg is_key p
      → Recorded s.cfg is_key (announce_new s selected es p).1
  unfolding announce_new
  announce_new-Recorded selected es p a h =
      let q = forget_announcements s.web_url p in
      proceed-Recorded (settle_republish q.republish) (announce_each s selected q.republish es q)
        (announce_each-Recorded selected q.republish es q a (forget-Recorded s.web_url p h))
        (λ t k. settle-Recorded q.republish t k)
