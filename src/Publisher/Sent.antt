-- ===== src/Publisher/Sent.antt =====
-- Which messages the broker got of internal/hamqtt/publisher.go since an earlier time: the log only grows.
use rig_exporter.Base.{
  ◌≡◌, refl, sym, ap, ◌∙◌, Bool, true, false, List, [], ◌∷◌, ◌++◌, append_assoc,
}
use rig_exporter.Publisher.Broker.{
  Topic, Event, lost, retained, Delivery, acknowledged, unacknowledged, refused, next_reply,
  later_replies, deliver, Publisher, call, publish,
}
use rig_exporter.Publisher.Calls.{
  Untouched, Untouched-trans, call-Untouched, with_loss, meanwhile-log, call-log,
}
use rig_exporter.Publisher.Entities.{clear_topics}

pub any_topics-Untouched : (ts : List Topic) (p : Publisher) → Untouched p (clear_topics ts p).1
unfolding clear_topics
any_topics-Untouched [] p = record {
  announced = refl;
  pending = refl;
  client = refl;
  legacy = refl;
  republish = refl;
}
any_topics-Untouched (t ∷ ts) p =
    let q = (publish t [] p).1 in
    Untouched-trans p q (clear_topics ts q).1 (call-Untouched (retained t []) p)
      (any_topics-Untouched ts q)

-- The events go on from an earlier time.
abbrev pub Extends : List Event → List Event → Type 0
Extends old log = (new : List Event) × (log ≡ new ++ old)

-- An event came after an earlier time.
abbrev pub Sent : Event → List Event → List Event → Type 0
Sent e old log = (after : List Event) × (before : List Event) × (log ≡ after ++ e ∷ (before ++ old))

pub Extends-trans : (a b c : List Event) → Extends a b → Extends b c → Extends a c
Extends-trans a b c (x, e) (y, f) = (y ++ x, f ∙ ap (λ l. y ++ l) e ∙ sym (append_assoc y x a))

pub Sent-later : (e : Event) (a b c : List Event) → Sent e a b → Extends b c → Sent e a c
Sent-later e a b c (x, y, h) (z, f) =
    (z ++ x, y, f ∙ ap (λ l. z ++ l) h ∙ sym (append_assoc z x (e ∷ (y ++ a))))

pub Sent-earlier : (e : Event) (a b c : List Event) → Extends a b → Sent e b c → Sent e a c
Sent-earlier e a b c (z, f) (x, y, h) =
    (x, y ++ z, h ∙ ap (λ l. x ++ e ∷ (y ++ l)) f ∙ ap (λ l. x ++ e ∷ l) (sym (append_assoc y z a)))

lost-Extends : (b : Bool) (a c : List Event) → Extends a c → Extends a (with_loss b c)
lost-Extends true a c (x, e) = (lost ∷ x, ap (λ l. lost ∷ l) e)
lost-Extends false a c h = h

deliver-Extends : (d : Delivery) (e : Event) (p : Publisher) → Extends p.log (deliver d e p).log
deliver-Extends acknowledged e p = (e ∷ [], refl)
deliver-Extends unacknowledged e p = (e ∷ [], refl)
deliver-Extends refused e p = ([], refl)

call-Extends : (e : Event) (p : Publisher) → Extends p.log (call e p).1.log
unfolding call
call-Extends e p =
    let r = next_reply p.replies in
    let q = record p { replies = later_replies p.replies } in
    rw (meanwhile-log r.drops r.news (deliver r.delivery e q))
      (lost-Extends r.drops p.log (deliver r.delivery e q).log (deliver-Extends r.delivery e q))

lost-Sent : (b : Bool) (e : Event) (a : List Event) → Sent e a (with_loss b (e ∷ a))
lost-Sent true e a = (lost ∷ [], [], refl)
lost-Sent false e a = ([], [], refl)

pub call-Sent : (e : Event) (p : Publisher) → (call e p).0 ≡ true → Sent e p.log (call e p).1.log
call-Sent e p h = rw (call-log e p h) (lost-Sent (next_reply p.replies).drops e p.log)

pub clear_topics-Extends :
    (ts : List Topic) (p : Publisher) → Extends p.log (clear_topics ts p).1.log
unfolding clear_topics
clear_topics-Extends [] p = ([], refl)
clear_topics-Extends (t ∷ ts) p =
    let q = (publish t [] p).1 in
    Extends-trans p.log q.log (clear_topics ts q).1.log (call-Extends (retained t []) p)
      (clear_topics-Extends ts q)

pub Sent-Extends : (e : Event) (a b : List Event) → Sent e a b → Extends a b
Sent-Extends e a b (x, y, h) = (x ++ e ∷ y, h ∙ sym (append_assoc x (e ∷ y) a))
