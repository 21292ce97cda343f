-- ===== src/Publisher/Progress.antt =====
-- What the steps of internal/hamqtt/publisher.go use up: the replies that are still to come.
use rig_exporter.Base.{
  ◌≤◌, ◌<◌, ◌≡◌, ◌⊎◌, inl, inr, refl, ◌∙◌, Bool, true, false, not, ◌&&◌, Option, none, some, List,
  [], ◌∷◌, arith, if◌then◌else◌, length,
}
use rig_exporter.Publisher.Broker.{
  Text, update_availability, Event, retained, Delivery, acknowledged, unacknowledged, refused,
  Reply, next_reply, later_replies, deliver, if_dropped, with_news, take_news, Publisher, Act,
  proceed, call, on_connection_lost,
}
use rig_exporter.Publisher.Updates.{
  is_current, when_current, available_text, set_availability, bool_eq, publish_update_availability,
}
use rig_exporter.Publisher.Calls.{call-Kept}

-- What a step leaves: no more replies to come, and fewer where the updater reported; the rest as it was, if
-- the connection is there.
pub record Progress (p q : Publisher) : Type 0 where
  pub shorter : length q.replies ≤ length p.replies
  pub news : (q.generation ≡ p.generation) ⊎ (length q.replies < length p.replies)
  pub connected : q.is_connected ≡ true → p.is_connected ≡ true
  pub announced : q.is_connected ≡ true → q.update_announced ≡ p.update_announced
  pub published : q.is_connected ≡ true → q.published ≡ p.published

Progress-trans : (p q r : Publisher) → Progress p q → Progress q r → Progress p r
Progress-trans p q r h k = record {
  shorter = omega (arith, h.shorter, k.shorter);
  news = elim h.news [
    | inr l ↦ inr (omega (arith, k.shorter))
    | inl e ↦ elim k.news [ inr l ↦ inr (omega (arith, h.shorter)) | inl f ↦ inl (f ∙ e) ]
  ];
  connected = λ c. h.connected (k.connected c);
  announced = λ c. k.announced c ∙ h.announced (k.connected c);
  published = λ c. k.published c ∙ h.published (k.connected c);
}

deliver_replies :
    (d : Delivery) (e : Event) (p : Publisher)
    → ((deliver d e p).replies ≡ p.replies) × ((deliver d e p).generation ≡ p.generation)
deliver_replies acknowledged e p = (refl, refl)
deliver_replies unacknowledged e p = (refl, refl)
deliver_replies refused e p = (refl, refl)

meanwhile_replies :
    (drops : Bool) (news : Option Text) (p : Publisher)
    → (with_news news (if_dropped drops p)).replies ≡ p.replies
unfolding with_news if_dropped take_news on_connection_lost
meanwhile_replies true none p = refl
meanwhile_replies true (some n) p = refl
meanwhile_replies false none p = refl
meanwhile_replies false (some n) p = refl

meanwhile_generation :
    (drops : Bool) (p : Publisher) → (with_news none (if_dropped drops p)).generation ≡ p.generation
unfolding with_news if_dropped on_connection_lost
meanwhile_generation true p = refl
meanwhile_generation false p = refl

call_replies : (e : Event) (p : Publisher) → (call e p).1.replies ≡ later_replies p.replies
unfolding call
call_replies e p =
    let r = next_reply p.replies in
    let q = record p { replies = later_replies p.replies } in
    meanwhile_replies r.drops r.news (deliver r.delivery e q) ∙ (deliver_replies r.delivery e q).0

call_generation :
    (e : Event) (p : Publisher) → p.replies ≡ [] → (call e p).1.generation ≡ p.generation
unfolding call
call_generation e p h =
    rw h (meanwhile_generation false (deliver acknowledged e (record p { replies = [] })))

replies_cases : (l : List Reply) → (l ≡ []) ⊎ (length (later_replies l) < length l)
replies_cases [] = inl refl
replies_cases (r ∷ rs) = inr (omega arith)

later_shorter : (l : List Reply) → length (later_replies l) ≤ length l
later_shorter [] = omega arith
later_shorter (r ∷ rs) = omega arith

pub call-Progress : (e : Event) (p : Publisher) → Progress p (call e p).1
call-Progress e p = record {
  shorter = rw (call_replies e p) (later_shorter p.replies);
  news = elim (replies_cases p.replies) [
    | inl h ↦ inl (call_generation e p h)
    | inr l ↦ inr (rw (call_replies e p) l)
  ];
  connected = λ c. (call-Kept e p c).connected;
  announced = λ c. (call-Kept e p c).announced;
  published = λ c. (call-Kept e p c).published;
}

-- The same of a step that succeeds.
abbrev pub Passes : Publisher → Bool × Publisher → Type 0
Passes p (true, q) = Progress p q
Passes p (false, q) = Progress p q

still : (p : Publisher) → Progress p p
still p = record {
  shorter = omega arith;
  news = inl refl;
  connected = λ c. c;
  announced = λ c. refl;
  published = λ c. refl;
}

set_still : (b : Bool) (p : Publisher) → Progress p (set_availability b p)
set_still b p = record {
  shorter = omega arith;
  news = inl refl;
  connected = λ c. c;
  announced = λ c. refl;
  published = λ c. refl;
}

pub Passes-of : (p : Publisher) (r : Bool × Publisher) → Progress p r.1 → Passes p r
Passes-of p (true, q) h = h
Passes-of p (false, q) h = h

pub Passes-trans : (p q : Publisher) (r : Bool × Publisher) → Progress p q → Passes q r → Passes p r
Passes-trans p q (true, r) h k = Progress-trans p q r h k
Passes-trans p q (false, r) h k = Progress-trans p q r h k

pub Passes-proceed :
    (p : Publisher) (b : Act) (r : Bool × Publisher)
    → Passes p r
    → ((q : Publisher) → Passes q (b q))
    → Passes p (proceed b r)
Passes-proceed p b (true, q) h k = Passes-trans p q (b q) h (k q)
Passes-proceed p b (false, q) h k = h

Passes-if :
    (p : Publisher) (b : Bool) (r t : Bool × Publisher)
    → Passes p r
    → Passes p t
    → Passes p (if b then r else t)
Passes-if p true r t h k = h
Passes-if p false r t h k = k

pub told-Passes : (b : Bool) (p : Publisher) → Passes p (publish_update_availability b p)
unfolding publish_update_availability
told-Passes b p =
    Passes-if p (not (is_current p)) (false, p) _ (still p)
      (Passes-if p (p.availability_known && bool_eq p.update_available b) (true, p) _ (still p)
        (Passes-proceed p (when_current (set_availability b))
          (call (retained update_availability (available_text b)) p)
          (Passes-of p (call (retained update_availability (available_text b)) p)
            (call-Progress (retained update_availability (available_text b)) p))
          (λ q.
            Passes-if q (is_current q) (true, set_availability b q) (false, q) (set_still b q)
              (still q))))
