-- ===== src/Publisher/Answers.antt =====
-- Whether the broker answered the messages that internal/hamqtt/publisher.go sends for a list of topics.
use rig_exporter.Base.{
  ℕ, zero, suc, ◌≡◌, refl, ◌∙◌, Bool, true, false, ◌&&◌, Option, none, some, List, [], ◌∷◌, map,
  arith, if◌then◌else◌, ◌==◌, length,
}
use rig_exporter.Publisher.Broker.{
  Text, discovery, Event, retained, Delivery, Reply, acknowledged, unacknowledged, refused,
  next_reply, later_replies, deliver, is_acknowledged, if_dropped, with_news, take_news, Publisher,
  call, publish, on_connection_lost,
}
use rig_exporter.Publisher.Entities.{clear_topics}

-- The broker answered in time.
abbrev answered : Delivery → Bool
answered acknowledged = true
answered unacknowledged = false
answered refused = false

-- The broker answers each of the next calls in time.
abbrev pub all_answered : ℕ → List Reply → Bool
all_answered zero rs = true
all_answered (suc n) rs = answered (next_reply rs).delivery && all_answered n (later_replies rs)

answered_lem : (d : Delivery) → is_acknowledged d ≡ answered d
answered_lem acknowledged = refl
answered_lem unacknowledged = refl
answered_lem refused = refl

meanwhile-replies :
    (drops : Bool) (news : Option Text) (p : Publisher)
    → (with_news news (if_dropped drops p)).replies ≡ p.replies
unfolding with_news if_dropped take_news on_connection_lost
meanwhile-replies true none p = refl
meanwhile-replies true (some n) p = refl
meanwhile-replies false none p = refl
meanwhile-replies false (some n) p = refl

deliver-replies : (d : Delivery) (e : Event) (p : Publisher) → (deliver d e p).replies ≡ p.replies
deliver-replies acknowledged e p = refl
deliver-replies unacknowledged e p = refl
deliver-replies refused e p = refl

call-replies : (e : Event) (p : Publisher) → (call e p).1.replies ≡ later_replies p.replies
unfolding call
call-replies e p =
    let r = next_reply p.replies in
    let q = record p { replies = later_replies p.replies } in
    meanwhile-replies r.drops r.news (deliver r.delivery e q) ∙ deliver-replies r.delivery e q

call-answered :
    (e : Event) (p : Publisher) → (call e p).0 ≡ answered (next_reply p.replies).delivery
unfolding call
call-answered e p = answered_lem (next_reply p.replies).delivery

failures : (b : Bool) (n : ℕ) → ((if b then n else suc n) == 0) ≡ (b && (n == 0))
failures true n = refl
failures false n = ground arith

-- No topic failed exactly if every call was answered.
pub clear_topics-answered :
    (ss : List Text) (p : Publisher)
    → ((clear_topics (map discovery ss) p).0 == 0) ≡ all_answered (length ss) p.replies
unfolding clear_topics
clear_topics-answered [] p = refl
clear_topics-answered (s ∷ ss) p =
    let q = (publish (discovery s) [] p).1 in
    failures (publish (discovery s) [] p).0 (clear_topics (map discovery ss) q).0
    ∙ rw
        (
          call-answered (retained (discovery s) []) p,
          clear_topics-answered ss q,
          call-replies (retained (discovery s) []) p,
        )
        refl
