-- ===== src/Publisher/Retaining.antt =====
-- What internal/hamqtt/publisher.go keeps in `announced`: a record of the messages that the broker retains.
use rig_exporter.Base.{
  ℕ, zero, suc, ◌≡◌, refl, sym, ◌∙◌, Bool, true, false, not, ◌&&◌, Option, none, some, List, [],
  ◌∷◌, map, arith, if◌then◌else◌, All, ◌==◌, ==→eq,
}
use rig_exporter.Base.Unicode.{list_eq, list_eq_refl}
use rig_exporter.Config.{Config}
use rig_exporter.Config.Topics.{legacy_discovery_topic}
use rig_exporter.Publisher.Broker.{
  Text, discovery, state, Event, retained, Delivery, acknowledged, unacknowledged, refused,
  next_reply, later_replies, deliver, is_acknowledged, if_dropped, with_news, take_news, Publisher,
  call, publish, on_connection_lost, message,
}
use mathlib.Core.Path.{subst}
use rig_exporter.Publisher.Calls.{Untouched, Untouched-trans, call-Untouched}
use rig_exporter.Publisher.Updates.{Setup}
use rig_exporter.Publisher.Answers.{all_answered, clear_topics-answered}
use rig_exporter.Publisher.Entities.{
  clear_topics, legacy_keys, judge_legacy, clear_legacy_discovery,
}

-- A topic of a discovery message has a message.
abbrev pub holds : List Event → Text → Bool
holds log t = not (list_eq (message (discovery t) log) [])

-- Events that do not empty the topic.
abbrev pub Spares : Text → Event → Type 0
Spares t (retained (discovery s) payload) = (list_eq t s && list_eq payload []) ≡ false
Spares t e = Unit

holds_event :
    (t : Text) (e : Event) (log : List Event)
    → Spares t e
    → holds log t ≡ true
    → holds (e ∷ log) t ≡ true
unfolding message
holds_event t (retained (discovery s) payload) log h k = ground arith
holds_event t (retained state payload) log h k = k
holds_event t (retained x payload) log h k = k
holds_event t e log h k = k

holds-deliver :
    (t : Text) (d : Delivery) (e : Event) (p : Publisher)
    → Spares t e
    → holds p.log t ≡ true
    → holds (deliver d e p).log t ≡ true
holds-deliver t acknowledged e p h k = holds_event t e p.log h k
holds-deliver t unacknowledged e p h k = holds_event t e p.log h k
holds-deliver t refused e p h k = k

holds_meanwhile :
    (t : Text) (drops : Bool) (news : Option Text) (p : Publisher)
    → holds (with_news news (if_dropped drops p)).log t ≡ holds p.log t
unfolding with_news if_dropped take_news on_connection_lost message
holds_meanwhile t true none p = refl
holds_meanwhile t true (some n) p = refl
holds_meanwhile t false none p = refl
holds_meanwhile t false (some n) p = refl

-- A message stays through a call that does not empty it.
pub call-holds :
    (t : Text) (e : Event) (p : Publisher)
    → Spares t e
    → holds p.log t ≡ true
    → holds (call e p).1.log t ≡ true
unfolding call
call-holds t e p h k =
    let r = next_reply p.replies in
    let q = record p { replies = later_replies p.replies } in
    holds_meanwhile t r.drops r.news (deliver r.delivery e q) ∙ holds-deliver t r.delivery e q h k

-- What a clearing of topics does with the message of one.
empties_event :
    (t s : Text) (log : List Event)
    → (holds log t && not (list_eq t s)) ≡ false
    → holds (retained (discovery s) [] ∷ log) t ≡ false
unfolding message
empties_event t s log h = ground arith

empty_deliver :
    (t s : Text) (d : Delivery) (p : Publisher)
    → holds p.log t ≡ false
    → holds (deliver d (retained (discovery s) []) p).log t ≡ false
empty_deliver t s acknowledged p h = empties_event t s p.log (rw h refl)
empty_deliver t s unacknowledged p h = empties_event t s p.log (rw h refl)
empty_deliver t s refused p h = h

call-empty :
    (t s : Text) (p : Publisher)
    → holds p.log t ≡ false
    → holds (publish (discovery s) [] p).1.log t ≡ false
unfolding call
call-empty t s p h =
    let r = next_reply p.replies in
    let q = record p { replies = later_replies p.replies } in
    holds_meanwhile t r.drops r.news (deliver r.delivery (retained (discovery s) []) q)
    ∙ empty_deliver t s r.delivery q h

emptied_deliver :
    (t : Text) (d : Delivery) (p : Publisher)
    → is_acknowledged d ≡ true
    → holds (deliver d (retained (discovery t) []) p).log t ≡ false
emptied_deliver t acknowledged p h = empties_event t t p.log (rw (list_eq_refl t) (ground arith))
emptied_deliver t unacknowledged p h = ground arith
emptied_deliver t refused p h = ground arith

call-emptied :
    (t : Text) (p : Publisher)
    → (publish (discovery t) [] p).0 ≡ true
    → holds (publish (discovery t) [] p).1.log t ≡ false
unfolding call
call-emptied t p h =
    let r = next_reply p.replies in
    let q = record p { replies = later_replies p.replies } in
    holds_meanwhile t r.drops r.news (deliver r.delivery (retained (discovery t) []) q)
    ∙ emptied_deliver t r.delivery q h

clear_topics-empty :
    (t : Text) (ss : List Text) (p : Publisher)
    → holds p.log t ≡ false
    → holds (clear_topics (map discovery ss) p).1.log t ≡ false
unfolding clear_topics
clear_topics-empty t [] p h = h
clear_topics-empty t (s ∷ ss) p h =
    clear_topics-empty t ss (publish (discovery s) [] p).1 (call-empty t s p h)

none_failed : (b : Bool) (n : ℕ) → (if b then n else suc n) ≡ 0 → (b ≡ true) × (n ≡ 0)
none_failed true n h = (refl, h)
none_failed false n h = ground arith

-- Topics that were cleared without a failure are empty.
clear_topics-emptied :
    (ss : List Text) (p : Publisher)
    → (clear_topics (map discovery ss) p).0 ≡ 0
    → All (λ t. holds (clear_topics (map discovery ss) p).1.log t ≡ false) ss
unfolding clear_topics
clear_topics-emptied [] p h = tt
clear_topics-emptied (s ∷ ss) p h =
    let q = (publish (discovery s) [] p).1 in
    let f = none_failed (publish (discovery s) [] p).0 (clear_topics (map discovery ss) q).0 h in
    (clear_topics-empty s ss q (call-emptied s p f.0), clear_topics-emptied ss q f.1)

clear_topics-spares :
    (t : Text) (ss : List Text) (p : Publisher)
    → All (λ s. list_eq t s ≡ false) ss
    → holds p.log t ≡ true
    → holds (clear_topics (map discovery ss) p).1.log t ≡ true
unfolding clear_topics
clear_topics-spares t [] p a h = h
clear_topics-spares t (s ∷ ss) p a h =
    clear_topics-spares t ss (publish (discovery s) [] p).1 a.1
      (call-holds t (retained (discovery s) []) p (ground (arith, a.0)) h)

abbrev pub legacy_texts : Config → List Text
legacy_texts c = map (λ k. legacy_discovery_topic c k.0 k.1) legacy_keys

judged :
    (r : ℕ × Publisher)
    → r.1.legacy_cleared ≡ false
    → ((judge_legacy r).legacy_cleared ≡ (r.0 == 0)) × ((judge_legacy r).log ≡ r.1.log)
judged (zero, p) h = (refl, refl)
judged (suc n, p) h = (ground arith, refl)

clear_topics-Untouched :
    (ss : List Text) (p : Publisher) → Untouched p (clear_topics (map discovery ss) p).1
unfolding clear_topics
clear_topics-Untouched [] p = record {
  announced = refl;
  pending = refl;
  client = refl;
  legacy = refl;
  republish = refl;
}
clear_topics-Untouched (s ∷ ss) p =
    let q = (publish (discovery s) [] p).1 in
    Untouched-trans p q (clear_topics (map discovery ss) q).1
      (call-Untouched (retained (discovery s) []) p) (clear_topics-Untouched ss q)

emptied_if :
    (b : Bool) (log : List Event) (ss : List Text)
    → (b ≡ true → All (λ t. holds log t ≡ false) ss)
    → All (λ t. (b && holds log t) ≡ false) ss
emptied_if true log ss h = h refl
emptied_if false log [] h = tt
emptied_if false log (s ∷ ss) h = (refl, emptied_if false log ss (λ e. ground arith))

-- The note that the entities of the previous program are gone, where it is not made yet: a pass makes it exactly
-- if the broker answered each of the eight messages in time, and where it makes it the broker retains none of
-- the eight.
pub clear_legacy-emptied :
    (s : Setup) (p : Publisher)
    → p.legacy_cleared ≡ false
    → let q = clear_legacy_discovery s p in
      (q.legacy_cleared ≡ all_answered 8 p.replies)
      × All (λ t. (q.legacy_cleared && holds q.log t) ≡ false) (legacy_texts s.cfg)
unfolding clear_legacy_discovery
clear_legacy-emptied s p h =
    let ss = legacy_texts s.cfg in
    let r = clear_topics (map discovery ss) p in
    let j = judged r ((clear_topics-Untouched ss p).legacy ∙ h) in
    (
      j.0 ∙ clear_topics-answered ss p,
      emptied_if (judge_legacy r).legacy_cleared (judge_legacy r).log ss (λ k.
          subst (λ l. All (λ t. holds l t ≡ false) ss) (sym j.1)
            (clear_topics-emptied ss p (==→eq r.0 0 (sym j.0 ∙ k)))),
    )

-- A message that is not empty is retained where its call was acknowledged.
held_deliver :
    (t payload : Text) (d : Delivery) (p : Publisher)
    → is_acknowledged d ≡ true
    → list_eq payload [] ≡ false
    → holds (deliver d (retained (discovery t) payload) p).log t ≡ true
unfolding message
held_deliver t payload acknowledged p h n = ground (arith, list_eq_refl t)
held_deliver t payload unacknowledged p h n = ground arith
held_deliver t payload refused p h n = ground arith

pub call-held :
    (t payload : Text) (p : Publisher)
    → list_eq payload [] ≡ false
    → (publish (discovery t) payload p).0 ≡ true
    → holds (publish (discovery t) payload p).1.log t ≡ true
unfolding call
call-held t payload p n h =
    let r = next_reply p.replies in
    let q = record p { replies = later_replies p.replies } in
    holds_meanwhile t r.drops r.news (deliver r.delivery (retained (discovery t) payload) q)
    ∙ held_deliver t payload r.delivery q h n
