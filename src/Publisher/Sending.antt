-- ===== src/Publisher/Sending.antt =====
-- What a pass of `announceNew` of internal/hamqtt/publisher.go sends: the messages that the broker got between its
-- beginning and its end.
use rig_exporter.Base.{
  ◌≡◌, ◌⊎◌, inl, inr, refl, ap, ◌∙◌, Bool, true, false, not, ◌&&◌, ◌||◌, List, [], ◌∷◌, arith,
  if◌then◌else◌, Bool-cases,
}
use rig_exporter.Publisher.Broker.{Text, Event, retained, EntityRef, Publisher, Act, proceed, call}
use rig_exporter.Publisher.Updates.{Setup}
use rig_exporter.Publisher.Calls.{call-Untouched}
use rig_exporter.Publisher.Sent.{
  any_topics-Untouched, Extends, Sent, Extends-trans, Sent-later, Sent-earlier, Sent-Extends,
  call-Sent, clear_topics-Extends,
}
use rig_exporter.Publisher.Entities.{
  Entity, has_key, delete_key, set_ref, topic_of, clear_topics, earlier_topics, remember_ref,
  announce_entity, passed_over, announce_each,
}

-- The discovery message of an entity.
abbrev pub message_of : Setup → Entity → Event
message_of s e = retained (topic_of s.cfg e.ref) e.payload

-- A step that succeeds has sent the message of an entity, and announces it besides what was announced.
abbrev Announced : Setup → Entity → Publisher → Bool × Publisher → Type 0
Announced s e p (true, q) =
    Sent (message_of s e) p.log q.log × (q.announced ≡ set_ref e.ref p.announced)
Announced s e p (false, q) = Unit

remembered-Announced :
    (s : Setup) (e : Entity) (p q : Publisher) (x : Bool × Publisher)
    → Extends p.log q.log
    → q.announced ≡ p.announced
    → (x.0 ≡ true → Sent (message_of s e) q.log x.1.log)
    → x.1.announced ≡ q.announced
    → Announced s e p (proceed (remember_ref e.ref) x)
remembered-Announced s e p q (true, t) h a k b =
    (Sent-earlier (message_of s e) p.log q.log t.log h (k refl), ap (set_ref e.ref) (b ∙ a))
remembered-Announced s e p q (false, t) h a k b = tt

announce_entity-Announced :
    (s : Setup) (e : Entity) (p : Publisher) → Announced s e p (announce_entity s e p)
unfolding announce_entity
announce_entity-Announced s e p =
    let ts = earlier_topics s.cfg e in
    let q = (clear_topics ts p).1 in
    remembered-Announced s e p q (call (message_of s e) q) (clear_topics-Extends ts p)
      (any_topics-Untouched ts p).announced (call-Sent (message_of s e) q)
      (call-Untouched (message_of s e) q).announced

-- What is known to be announced behind an entity of the snapshot.
abbrev pub known_after : (Text → Bool) → Entity → List EntityRef → List EntityRef
known_after selected e known = if selected e.ref.def_id then e.ref ∷ known else known

-- Of the entities of the snapshot, each that is selected and either not known or to be sent again was sent
-- after an earlier time; where two have one key and nothing is sent again, the first counts.
abbrev pub AllSent :
    Setup → (Text → Bool) → Bool → List EntityRef → List Entity → List Event → List Event → Type 0
AllSent s selected again known [] old log = Unit
AllSent s selected again known (e ∷ es) old log =
    (((not (selected e.ref.def_id) || has_key e.ref.key known && not again) ≡ true)
      ⊎ Sent (message_of s e) old log)
    × AllSent s selected again (known_after selected e known) es old log

-- What the loop of a pass sends, if it does not fail.
abbrev pub Sends :
    Setup
    → (Text → Bool)
    → Bool
    → List Entity
    → Publisher
    → List EntityRef
    → Bool × Publisher
    → Type 0
Sends s selected again es p known (true, q) =
    AllSent s selected again known es p.log q.log × Extends p.log q.log
Sends s selected again es p known (false, q) = Unit

AllSent-earlier :
    (s : Setup) (selected : Text → Bool) (again : Bool) (known : List EntityRef) (es : List Entity)
    (a b c : List Event)
    → Extends a b
    → AllSent s selected again known es b c
    → AllSent s selected again known es a c
AllSent-earlier s selected again known [] a b c h k = tt
AllSent-earlier s selected again known (e ∷ es) a b c h (inl x, k) =
    (inl x, AllSent-earlier s selected again (known_after selected e known) es a b c h k)
AllSent-earlier s selected again known (e ∷ es) a b c h (inr x, k) = (
  inr (Sent-earlier (message_of s e) a b c h x),
  AllSent-earlier s selected again (known_after selected e known) es a b c h k,
)

-- Every key that is announced is known.
abbrev Knows : List EntityRef → List EntityRef → Type 0
Knows refs known = (k : Text) → has_key k refs ≡ true → has_key k known ≡ true

has_key_undeleted :
    (k d : Text) (rs : List EntityRef) → has_key k (delete_key d rs) ≡ true → has_key k rs ≡ true
has_key_undeleted k d [] h = h
has_key_undeleted k d (r ∷ rs) h = ground (arith, has_key_undeleted k d rs)

Knows-set_ref :
    (r : EntityRef) (refs known : List EntityRef)
    → Knows refs known
    → Knows (set_ref r refs) (r ∷ known)
Knows-set_ref r refs known h k a =
    let old : has_key k (delete_key r.key refs) ≡ true → has_key k known ≡ true =
      λ b. h k (has_key_undeleted k r.key refs b) in
    ground (arith, old)

-- What the body of the loop leaves for one entity.
abbrev OneSent :
    Setup → (Text → Bool) → Bool → Entity → Publisher → List EntityRef → Bool × Publisher → Type 0
OneSent s selected again e p known (true, q) =
    (((not (selected e.ref.def_id) || has_key e.ref.key known && not again) ≡ true)
      ⊎ Sent (message_of s e) p.log q.log)
    × Extends p.log q.log
    × Knows q.announced (known_after selected e known)
OneSent s selected again e p known (false, q) = Unit

known_if :
    (b : Bool) (r : EntityRef) (known : List EntityRef) (k : Text)
    → has_key k known ≡ true
    → has_key k (if b then r ∷ known else known) ≡ true
known_if true r known k h = rw h (ground arith)
known_if false r known k h = h

Knows-selected :
    (b : Bool) (r : EntityRef) (refs known : List EntityRef)
    → b ≡ true
    → Knows refs known
    → Knows (set_ref r refs) (if b then r ∷ known else known)
Knows-selected true r refs known e h = Knows-set_ref r refs known h
Knows-selected false r refs known e h = absurd (ground arith)

sent-OneSent :
    (s : Setup) (selected : Text → Bool) (again : Bool) (e : Entity) (p : Publisher)
    (known : List EntityRef) (x : Bool × Publisher)
    → selected e.ref.def_id ≡ true
    → Knows p.announced known
    → Announced s e p x
    → OneSent s selected again e p known x
sent-OneSent s selected again e p known (true, q) c h (a, b) = (
  inr a,
  Sent-Extends (message_of s e) p.log q.log a,
  rw b (Knows-selected (selected e.ref.def_id) e.ref p.announced known c h),
)
sent-OneSent s selected again e p known (false, q) c h a = tt

body-OneSent :
    (s : Setup) (selected : Text → Bool) (again : Bool) (e : Entity) (p : Publisher)
    (known : List EntityRef)
    → Knows p.announced known
    → OneSent s selected again e p known
        (if passed_over selected again e p then (true, p) else announce_entity s e p)
body-OneSent s selected again e p known h =
    let mine = h e.ref.key in
    elim (Bool-cases (passed_over selected again e p)) [
      | inl o ↦ rw o (
        inl (ground (arith, mine)),
        ([], refl),
        λ k a. known_if (selected e.ref.def_id) e.ref known k (h k a),
      )
      | inr o ↦ rw o (
          sent-OneSent s selected again e p known (announce_entity s e p) (ground arith) h
            (announce_entity-Announced s e p))
    ]

first-Sends :
    (s : Setup) (selected : Text → Bool) (again : Bool) (e : Entity) (es : List Entity)
    (p q : Publisher) (known : List EntityRef) (t : Bool × Publisher)
    → OneSent s selected again e p known (true, q)
    → Sends s selected again es q (known_after selected e known) t
    → Sends s selected again (e ∷ es) p known t
first-Sends s selected again e es p q known (true, t) (inl x, h, k) (a, l) = (
  (inl x, AllSent-earlier s selected again (known_after selected e known) es p.log q.log t.log h a),
  Extends-trans p.log q.log t.log h l,
)
first-Sends s selected again e es p q known (true, t) (inr x, h, k) (a, l) = (
  (
    inr (Sent-later (message_of s e) p.log q.log t.log x l),
    AllSent-earlier s selected again (known_after selected e known) es p.log q.log t.log h a,
  ),
  Extends-trans p.log q.log t.log h l,
)
first-Sends s selected again e es p q known (false, t) h a = tt

more-Sends :
    (s : Setup) (selected : Text → Bool) (again : Bool) (e : Entity) (es : List Entity)
    (p : Publisher) (known : List EntityRef) (r : Bool × Publisher) (rest : Act)
    → OneSent s selected again e p known r
    → ((q : Publisher)
        → Knows q.announced (known_after selected e known)
        → Sends s selected again es q (known_after selected e known) (rest q))
    → Sends s selected again (e ∷ es) p known (proceed rest r)
more-Sends s selected again e es p known (true, q) rest h k =
    first-Sends s selected again e es p q known (rest q) h (k q h.2)
more-Sends s selected again e es p known (false, q) rest h k = tt

pub announce_each-Sends :
    (s : Setup) (selected : Text → Bool) (again : Bool) (es : List Entity) (p : Publisher)
    (known : List EntityRef)
    → Knows p.announced known
    → Sends s selected again es p known (announce_each s selected again es p)
unfolding announce_each
announce_each-Sends s selected again [] p known h = (tt, ([], refl))
announce_each-Sends s selected again (e ∷ es) p known h =
    more-Sends s selected again e es p known _ (announce_each s selected again es)
      (body-OneSent s selected again e p known h)
      (λ q k. announce_each-Sends s selected again es q (known_after selected e known) k)
