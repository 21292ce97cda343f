-- ===== src/Publisher/Announcing.antt =====
-- What a pass of `announceNew` of internal/hamqtt/publisher.go achieves, and what it leaves where it fails.
use rig_exporter.Base.{
  ◌≡◌, inl, inr, refl, sym, ap, ◌∙◌, Bool, true, false, not, ◌&&◌, ◌||◌, List, [], ◌∷◌, arith,
  if◌then◌else◌, Bool-cases,
}
use mathlib.Core.Path.{subst}
use rig_exporter.Base.Unicode.{list_eq, list_eq_sound, list_eq_refl}
use rig_exporter.Publisher.Broker.{Text, retained, EntityRef, Publisher, Act, proceed, call}
use rig_exporter.Publisher.Updates.{Setup, forget_announcements}
use rig_exporter.Publisher.Calls.{Untouched, call-Untouched}
use rig_exporter.Publisher.Sent.{any_topics-Untouched}
use rig_exporter.Publisher.Sending.{AllSent, Sends, announce_each-Sends}
use rig_exporter.Publisher.Entities.{
  Entity, has_key, delete_key, set_ref, topic_of, clear_topics, earlier_topics, remember_ref,
  announce_entity, passed_over, announce_each, settle_republish, announce_new,
}

has_key-delete_key :
    (k d : Text) (rs : List EntityRef)
    → list_eq k d ≡ false
    → has_key k rs ≡ true
    → has_key k (delete_key d rs) ≡ true
has_key-delete_key k d [] h a = a
has_key-delete_key k d (r ∷ rs) h a =
    let rest = has_key-delete_key k d rs h in
    elim (Bool-cases (list_eq d r.key)) [
      | inl e ↦ rw e (rest (ground (arith, ap (λ x. list_eq k x) (list_eq_sound d r.key e))))
      | inr e ↦ ground arith
    ]

has_key-set_ref :
    (k : Text) (r : EntityRef) (rs : List EntityRef)
    → has_key k rs ≡ true
    → has_key k (set_ref r rs) ≡ true
has_key-set_ref k r rs h = ground (arith, has_key-delete_key k r.key rs)

-- What a step does to the announcements: none is forgotten, and the wish to send all again stays.
record Grows (p q : Publisher) : Type 0 where
  kept : (k : Text) → has_key k p.announced ≡ true → has_key k q.announced ≡ true
  republish : q.republish ≡ p.republish

Grows-trans : (p q r : Publisher) → Grows p q → Grows q r → Grows p r
Grows-trans p q r h k = record {
  kept = λ t a. k.kept t (h.kept t a);
  republish = k.republish ∙ h.republish;
}

Untouched-Grows : (p q : Publisher) → Untouched p q → Grows p q
Untouched-Grows p q u = record {
  kept = λ k h. subst (λ l. has_key k l ≡ true) (sym u.announced) h;
  republish = u.republish;
}

-- a step that, where it succeeds, has announced a key
abbrev Announces : Text → Publisher → Bool × Publisher → Type 0
Announces k p (true, q) = Grows p q × (has_key k q.announced ≡ true)
Announces k p (false, q) = Grows p q

remember-Announces :
    (r : EntityRef) (p : Publisher) (x : Bool × Publisher)
    → Grows p x.1
    → Announces r.key p (proceed (remember_ref r) x)
remember-Announces r p (true, q) g = (
  record { kept = λ k h. has_key-set_ref k r q.announced (g.kept k h); republish = g.republish },
  ground (arith, list_eq_refl r.key),
)
remember-Announces r p (false, q) g = g

announce_entity-Announces :
    (s : Setup) (e : Entity) (p : Publisher) → Announces e.ref.key p (announce_entity s e p)
unfolding announce_entity
announce_entity-Announces s e p =
    let q = (clear_topics (earlier_topics s.cfg e) p).1 in
    let send = retained (topic_of s.cfg e.ref) e.payload in
    remember-Announces e.ref p (call send q) (
      Grows-trans p q (call send q).1
        (Untouched-Grows p q (any_topics-Untouched (earlier_topics s.cfg e) p))
        (Untouched-Grows q (call send q).1 (call-Untouched send q)))

-- Every entity that is selected is announced.
abbrev pub AllAnnounced : (Text → Bool) → List Entity → List EntityRef → Type 0
AllAnnounced selected [] refs = Unit
AllAnnounced selected (e ∷ es) refs =
    ((selected e.ref.def_id && not (has_key e.ref.key refs)) ≡ false)
    × AllAnnounced selected es refs

-- A pass over the entities that is not finished keeps what was announced and the wish to send all again.
abbrev Covers : (Text → Bool) → List Entity → Publisher → Bool × Publisher → Type 0
Covers selected es p (true, q) = Grows p q × AllAnnounced selected es q.announced
Covers selected es p (false, q) = Grows p q

covered_if :
    (selected : Text → Bool) (e : Entity) (p : Publisher) (b : Bool) (r : Bool × Publisher)
    → (b ≡ true → (selected e.ref.def_id && not (has_key e.ref.key p.announced)) ≡ false)
    → Announces e.ref.key p r
    → Covers selected (e ∷ []) p (if b then (true, p) else r)
covered_if selected e p true r h k = (record { kept = λ t a. a; republish = refl }, (h refl, tt))
covered_if selected e p false (true, q) h k = (k.0, (ground (arith, k.1), tt))
covered_if selected e p false (false, q) h k = k

one_covered :
    (s : Setup) (selected : Text → Bool) (republish : Bool) (e : Entity) (p : Publisher)
    → Covers selected
        (e ∷ [])
        p
        (if passed_over selected republish e p then (true, p) else announce_entity s e p)
one_covered s selected republish e p =
    covered_if selected e p (passed_over selected republish e p) (announce_entity s e p)
      (λ o. ground arith) (announce_entity-Announces s e p)

AllAnnounced-kept :
    (selected : Text → Bool) (es : List Entity) (p q : Publisher)
    → Grows p q
    → AllAnnounced selected es p.announced
    → AllAnnounced selected es q.announced
AllAnnounced-kept selected [] p q g h = tt
AllAnnounced-kept selected (e ∷ es) p q g h =
    (ground (arith, h.0, g.kept e.ref.key), AllAnnounced-kept selected es p q g h.1)

Covers-last :
    (selected : Text → Bool) (e : Entity) (es : List Entity) (p q : Publisher)
    (r : Bool × Publisher)
    → Covers selected (e ∷ []) p (true, q)
    → Covers selected es q r
    → Covers selected (e ∷ es) p r
Covers-last selected e es p q (true, t) h k =
    (Grows-trans p q t h.0 k.0, ((AllAnnounced-kept selected (e ∷ []) q t k.0 h.1).0, k.1))
Covers-last selected e es p q (false, t) h k = Grows-trans p q t h.0 k

Covers-more :
    (selected : Text → Bool) (e : Entity) (es : List Entity) (p : Publisher) (r : Bool × Publisher)
    (b : Act)
    → Covers selected (e ∷ []) p r
    → ((q : Publisher) → Covers selected es q (b q))
    → Covers selected (e ∷ es) p (proceed b r)
Covers-more selected e es p (true, q) b h k = Covers-last selected e es p q (b q) h (k q)
Covers-more selected e es p (false, q) b h k = h

announce_each-Covers :
    (s : Setup) (selected : Text → Bool) (republish : Bool) (es : List Entity) (p : Publisher)
    → Covers selected es p (announce_each s selected republish es p)
unfolding announce_each
announce_each-Covers s selected republish [] p = (record { kept = λ k h. h; republish = refl }, tt)
announce_each-Covers s selected republish (e ∷ es) p =
    Covers-more selected e es p _ (announce_each s selected republish es)
      (one_covered s selected republish e p) (λ q. announce_each-Covers s selected republish es q)

-- All is to be sent again where that was so before, or where the address of the interface is not the one that
-- the messages announced.
abbrev pub resends : Setup → Publisher → Bool
resends s p = p.republish || not (list_eq s.web_url p.announced_url)

-- How a pass ends: with every selected entity announced, those that had to be sent received by the broker
-- during the pass, and nothing left to send again; or with an error and the wish to send all again.
abbrev pub IsPassed : Setup → (Text → Bool) → List Entity → Publisher → Bool × Publisher → Type 0
IsPassed s selected es p (true, q) =
    AllAnnounced selected es q.announced
    × AllSent s selected (resends s p) p.announced es p.log q.log
    × (q.republish ≡ false)
IsPassed s selected es p (false, q) = q.republish ≡ resends s p

-- What the loop of a pass leaves, with the wish it began with.
abbrev Looped : Setup → (Text → Bool) → List Entity → Bool → Publisher → Bool × Publisher → Type 0
Looped s selected es b p (true, q) =
    AllAnnounced selected es q.announced
    × AllSent s selected b p.announced es p.log q.log
    × (q.republish ≡ false)
Looped s selected es b p (false, q) = q.republish ≡ b

settled_true :
    (s : Setup) (selected : Text → Bool) (es : List Entity) (b : Bool) (p q : Publisher)
    → AllAnnounced selected es q.announced
    → AllSent s selected b p.announced es p.log q.log
    → q.republish ≡ b
    → Looped s selected es b p (settle_republish b q)
settled_true s selected es true p q h k e = (h, k, refl)
settled_true s selected es false p q h k e = (h, k, e)

settled-Looped :
    (s : Setup) (selected : Text → Bool) (es : List Entity) (p : Publisher) (r : Bool × Publisher)
    → Covers selected es p r
    → Sends s selected p.republish es p p.announced r
    → Looped s selected es p.republish p (proceed (settle_republish p.republish) r)
settled-Looped s selected es p (true, q) h k =
    settled_true s selected es p.republish p q h.1 k.0 h.0.republish
settled-Looped s selected es p (false, q) h k = h.republish

forgotten_republish :
    (s : Setup) (p : Publisher) → (forget_announcements s.web_url p).republish ≡ resends s p
unfolding forget_announcements
forgotten_republish s p = ground arith

forgotten_announced :
    (s : Setup) (p : Publisher) → (forget_announcements s.web_url p).announced ≡ p.announced
unfolding forget_announcements
forgotten_announced s p = ground arith

forgotten_log : (s : Setup) (p : Publisher) → (forget_announcements s.web_url p).log ≡ p.log
unfolding forget_announcements
forgotten_log s p = ground arith

looped-IsPassed :
    (s : Setup) (selected : Text → Bool) (es : List Entity) (p q : Publisher) (r : Bool × Publisher)
    → q.republish ≡ resends s p
    → q.announced ≡ p.announced
    → q.log ≡ p.log
    → Looped s selected es q.republish q r
    → IsPassed s selected es p r
looped-IsPassed s selected es p q (true, t) e f g h = (h.0, rw (sym e, sym f, sym g) h.1, h.2)
looped-IsPassed s selected es p q (false, t) e f g h = h ∙ e

-- A pass of announceNew that succeeds has announced every entity of the snapshot whose measurement is selected,
-- and the broker got during this pass the message of each of them that was not announced before and of each of
-- them, announced or not, where all was to be sent again or the address of the interface has changed; of
-- several with one key that was not announced, if nothing is sent again, that of the first counts. Nothing is
-- left to be sent again. A pass that fails keeps the wish to send all again, also where the address has just
-- changed.
pub announce_new-IsPassed :
    (s : Setup) (selected : Text → Bool) (es : List Entity) (p : Publisher)
    → IsPassed s selected es p (announce_new s selected es p)
unfolding announce_new
announce_new-IsPassed s selected es p =
    let q = forget_announcements s.web_url p in
    looped-IsPassed s selected es p q _ (forgotten_republish s p) (forgotten_announced s p)
      (forgotten_log s p)
      (settled-Looped s selected es q (announce_each s selected q.republish es q)
        (announce_each-Covers s selected q.republish es q)
        (announce_each-Sends s selected q.republish es q q.announced (λ k h. h)))
