-- ===== src/Publisher/Guarding.antt =====
-- The order in which internal/hamqtt/publisher.go makes the update available: whatever fails.
use rig_exporter.Base.{
  ◌≡◌, inl, inr, refl, Bool, true, false, not, ◌&&◌, ◌||◌, Option, none, some, List, ◌∷◌, arith,
  if◌then◌else◌, Bool-cases,
}
use rig_exporter.Base.Unicode.{list_eq}
use rig_exporter.Publisher.Broker.{
  Text, Topic, availability, update_state, update_availability, discovery, Event, retained,
  transient, Delivery, acknowledged, unacknowledged, refused, next_reply, later_replies, deliver,
  if_dropped, with_news, take_news, Publisher, Act, proceed, online, call, on_connection_lost,
  message, listens,
}
use rig_exporter.Publisher.Updates.{is_current, when_current}

-- Whether a topic's retained message is "online".
abbrev pub is_up : Topic → List Event → Bool
is_up t log = list_eq (message t log) online

-- Home Assistant is offered an installation: both topics of the update are online.
abbrev pub is_offered : List Event → Bool
is_offered log = is_up availability log && is_up update_availability log

-- The invariant: an offer has a listener, and the flags say what the broker has.
pub record IsGuarded
    (is_connected update_subscribed common_available availability_known update_available : Bool)
    (log : List Event) : Type 0 where
  pub answered : (is_offered log && not (listens log)) ≡ false
  pub heard : (update_subscribed && not (listens log)) ≡ false
  pub common_first : (update_subscribed && not common_available) ≡ false
  pub shut :
      (availability_known
        && not update_available
        && not common_available
        && is_up update_availability log)
      ≡ false
  pub silent :
      (not is_connected && (is_up availability log || update_subscribed || availability_known))
      ≡ false

abbrev pub Guarded : Publisher → Type 0
Guarded p =
    IsGuarded p.is_connected p.update_subscribed p.common_available p.availability_known
      p.update_available p.log

pub lost-Guarded : (p : Publisher) → Guarded p → Guarded (on_connection_lost p)
unfolding on_connection_lost message listens
lost-Guarded p h = record {
  answered = ground arith;
  heard = refl;
  common_first = refl;
  shut = refl;
  silent = refl;
}

meanwhile-Guarded :
    (drops : Bool) (news : Option Text) (p : Publisher)
    → Guarded p
    → Guarded (with_news news (if_dropped drops p))
unfolding with_news if_dropped take_news
meanwhile-Guarded true none p h = lost-Guarded p h
meanwhile-Guarded true (some n) p h = let k = lost-Guarded p h in k
meanwhile-Guarded false none p h = h
meanwhile-Guarded false (some n) p h = h

abbrev pub with_event : Event → Publisher → Publisher
with_event e p = record p { log = e ∷ p.log }

deliver-Guarded :
    (d : Delivery) (e : Event) (p : Publisher)
    → Guarded p
    → Guarded (with_event e p)
    → Guarded (deliver d e p)
deliver-Guarded acknowledged e p h k = k
deliver-Guarded unacknowledged e p h k = k
deliver-Guarded refused e p h k = h

-- A call is safe where its event is.
call-Guarded :
    (e : Event) (p : Publisher) → Guarded p → Guarded (with_event e p) → Guarded (call e p).1
unfolding call
call-Guarded e p h k =
    let r = next_reply p.replies in
    let q = record p { replies = later_replies p.replies } in
    meanwhile-Guarded r.drops r.news (deliver r.delivery e q) (deliver-Guarded r.delivery e q h k)

-- A step keeps the invariant, and where it succeeds the rest holds.
abbrev pub Ends : (Publisher → Type 0) → Bool × Publisher → Type 0
Ends Q (true, p) = Guarded p × Q p
Ends Q (false, p) = Guarded p

pub Ends-proceed :
    (Q R : Publisher → Type 0) (b : Act) (r : Bool × Publisher)
    → Ends Q r
    → ((p : Publisher) → Guarded p → Q p → Ends R (b p))
    → Ends R (proceed b r)
Ends-proceed Q R b (true, p) h k = k p h.0 h.1
Ends-proceed Q R b (false, p) h k = h

Ends-of :
    (Q : Publisher → Type 0) (r : Bool × Publisher) → Guarded r.1 → (r.0 ≡ true → Q r.1) → Ends Q r
Ends-of Q (true, p) h k = (h, k refl)
Ends-of Q (false, p) h k = h

pub call-Ends :
    (Q : Publisher → Type 0) (e : Event) (p : Publisher)
    → Guarded p
    → Guarded (with_event e p)
    → ((call e p).0 ≡ true → Q (call e p).1)
    → Ends Q (call e p)
call-Ends Q e p h k f = Ends-of Q (call e p) (call-Guarded e p h k) f

pub when_current-Ends :
    (Q : Publisher → Type 0) (f : Publisher → Publisher) (p : Publisher)
    → Guarded p
    → (is_current p ≡ true → Guarded (f p) × Q (f p))
    → Ends Q (when_current f p)
when_current-Ends Q f p h k = elim (Bool-cases (is_current p)) [
  | inl c ↦ rw c (k c)
  | inr c ↦ rw c h
]

pub Ends-if :
    (Q : Publisher → Type 0) (b : Bool) (r s : Bool × Publisher)
    → (b ≡ true → Ends Q r)
    → (b ≡ false → Ends Q s)
    → Ends Q (if b then r else s)
Ends-if Q true r s h k = h refl
Ends-if Q false r s h k = k refl

-- Events that do not touch the two topics, nor the subscription.
abbrev pub IsQuiet : Event → Type 0
IsQuiet (retained update_state payload) = Unit
IsQuiet (retained (discovery t) payload) = Unit
IsQuiet (transient t payload) = Unit
IsQuiet e = ⊥

pub quiet-Guarded : (e : Event) (p : Publisher) → IsQuiet e → Guarded p → Guarded (with_event e p)
unfolding message listens
quiet-Guarded (retained update_state payload) p q h = record {
  answered = h.answered;
  heard = h.heard;
  common_first = h.common_first;
  shut = h.shut;
  silent = h.silent;
}
quiet-Guarded (retained (discovery t) payload) p q h = record {
  answered = h.answered;
  heard = h.heard;
  common_first = h.common_first;
  shut = h.shut;
  silent = h.silent;
}
quiet-Guarded (transient t payload) p q h = record {
  answered = h.answered;
  heard = h.heard;
  common_first = h.common_first;
  shut = h.shut;
  silent = h.silent;
}
quiet-Guarded e p q h = elim q [ ]

-- A call with such an event keeps the invariant.
pub quiet_call-Guarded : (e : Event) (p : Publisher) → IsQuiet e → Guarded p → Guarded (call e p).1
quiet_call-Guarded e p q h = call-Guarded e p h (quiet-Guarded e p q h)
