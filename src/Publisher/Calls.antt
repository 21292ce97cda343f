-- ===== src/Publisher/Calls.antt =====
-- What a call of the client in internal/hamqtt/publisher.go leaves of the state: all of it where the connection
-- is still there, and one event more where it was acknowledged.
use rig_exporter.Base.{
  ◌≡◌, refl, sym, ap, ◌∙◌, Bool, true, false, Option, none, some, List, ◌∷◌, arith,
}
use rig_exporter.Publisher.Broker.{
  Text, update_availability, Event, lost, Delivery, acknowledged, unacknowledged, refused,
  next_reply, later_replies, deliver, is_acknowledged, if_dropped, with_news, take_news, Publisher,
  call, on_connection_lost, message,
}

-- The fields that only a lost connection changes.
pub record Kept (p q : Publisher) : Type 0 where
  pub connected : p.is_connected ≡ true
  pub client : q.has_client ≡ p.has_client
  pub subscribed : q.update_subscribed ≡ p.update_subscribed
  pub announced : q.update_announced ≡ p.update_announced
  pub common : q.common_available ≡ p.common_available
  pub known : q.availability_known ≡ p.availability_known
  pub available : q.update_available ≡ p.update_available
  pub published : q.published ≡ p.published

Kept-trans : (p q r : Publisher) → Kept p q → Kept q r → Kept p r
Kept-trans p q r h k = record {
  connected = h.connected;
  client = k.client ∙ h.client;
  subscribed = k.subscribed ∙ h.subscribed;
  announced = k.announced ∙ h.announced;
  common = k.common ∙ h.common;
  known = k.known ∙ h.known;
  available = k.available ∙ h.available;
  published = k.published ∙ h.published;
}

deliver-Kept :
    (d : Delivery) (e : Event) (p : Publisher) → p.is_connected ≡ true → Kept p (deliver d e p)
deliver-Kept acknowledged e p h = record {
  connected = h;
  client = refl;
  subscribed = refl;
  announced = refl;
  common = refl;
  known = refl;
  available = refl;
  published = refl;
}
deliver-Kept unacknowledged e p h = record {
  connected = h;
  client = refl;
  subscribed = refl;
  announced = refl;
  common = refl;
  known = refl;
  available = refl;
  published = refl;
}
deliver-Kept refused e p h = record {
  connected = h;
  client = refl;
  subscribed = refl;
  announced = refl;
  common = refl;
  known = refl;
  available = refl;
  published = refl;
}

deliver_connected :
    (d : Delivery) (e : Event) (p : Publisher) → (deliver d e p).is_connected ≡ p.is_connected
deliver_connected acknowledged e p = refl
deliver_connected unacknowledged e p = refl
deliver_connected refused e p = refl

meanwhile-Kept :
    (drops : Bool) (news : Option Text) (p : Publisher)
    → (with_news news (if_dropped drops p)).is_connected ≡ true
    → Kept p (with_news news (if_dropped drops p))
unfolding with_news if_dropped take_news on_connection_lost
meanwhile-Kept true none p h = ground arith
meanwhile-Kept true (some n) p h = ground arith
meanwhile-Kept false none p h = record {
  connected = h;
  client = refl;
  subscribed = refl;
  announced = refl;
  common = refl;
  known = refl;
  available = refl;
  published = refl;
}
meanwhile-Kept false (some n) p h = record {
  connected = h;
  client = refl;
  subscribed = refl;
  announced = refl;
  common = refl;
  known = refl;
  available = refl;
  published = refl;
}

-- A call after which the connection is there has changed none of these fields.
pub call-Kept : (e : Event) (p : Publisher) → (call e p).1.is_connected ≡ true → Kept p (call e p).1
unfolding call
call-Kept e p h =
    let r = next_reply p.replies in
    let q = record p { replies = later_replies p.replies } in
    let later = meanwhile-Kept r.drops r.news (deliver r.delivery e q) h in
    let first =
      deliver-Kept r.delivery e q (sym (deliver_connected r.delivery e q) ∙ later.connected) in
    let both = Kept-trans q (deliver r.delivery e q) _ first later in
    record {
      connected = both.connected;
      client = both.client;
      subscribed = both.subscribed;
      announced = both.announced;
      common = both.common;
      known = both.known;
      available = both.available;
      published = both.published;
    }

-- What the broker retains for a topic that the last will is not for, after an acknowledged call.
abbrev pub with_loss : Bool → List Event → List Event
with_loss true log = lost ∷ log
with_loss false log = log

pub meanwhile-log :
    (drops : Bool) (news : Option Text) (p : Publisher)
    → (with_news news (if_dropped drops p)).log ≡ with_loss drops p.log
unfolding with_news if_dropped take_news on_connection_lost
meanwhile-log true none p = refl
meanwhile-log true (some n) p = refl
meanwhile-log false none p = refl
meanwhile-log false (some n) p = refl

acknowledged-log :
    (d : Delivery) (e : Event) (p : Publisher)
    → is_acknowledged d ≡ true
    → (deliver d e p).log ≡ e ∷ p.log
acknowledged-log acknowledged e p h = refl
acknowledged-log unacknowledged e p h = ground arith
acknowledged-log refused e p h = ground arith

pub call-log :
    (e : Event) (p : Publisher)
    → (call e p).0 ≡ true
    → (call e p).1.log ≡ with_loss (next_reply p.replies).drops (e ∷ p.log)
unfolding call
call-log e p h =
    let r = next_reply p.replies in
    let q = record p { replies = later_replies p.replies } in
    meanwhile-log r.drops r.news (deliver r.delivery e q)
    ∙ ap (with_loss r.drops) (acknowledged-log r.delivery e q h)

message-with_loss :
    (b : Bool) (log : List Event)
    → message update_availability (with_loss b log) ≡ message update_availability log
unfolding message
message-with_loss true log = refl
message-with_loss false log = refl

pub call-message :
    (e : Event) (p : Publisher)
    → (call e p).0 ≡ true
    → message update_availability (call e p).1.log ≡ message update_availability (e ∷ p.log)
call-message e p h =
    rw (call-log e p h) (message-with_loss (next_reply p.replies).drops (e ∷ p.log))

not_dropped :
    (drops : Bool) (news : Option Text) (p : Publisher)
    → (with_news news (if_dropped drops p)).is_connected ≡ true
    → drops ≡ false
unfolding with_news if_dropped take_news on_connection_lost
not_dropped true none p h = ground arith
not_dropped true (some n) p h = ground arith
not_dropped false news p h = refl

-- An acknowledged call that the connection survived is one event.
pub call-connected :
    (e : Event) (p : Publisher)
    → (call e p).0 ≡ true
    → (call e p).1.is_connected ≡ true
    → (call e p).1.log ≡ e ∷ p.log
unfolding call
call-connected e p a c =
    let r = next_reply p.replies in
    let q = record p { replies = later_replies p.replies } in
    meanwhile-log r.drops r.news (deliver r.delivery e q)
    ∙ ap (λ b. with_loss b (deliver r.delivery e q).log)
        (not_dropped r.drops r.news (deliver r.delivery e q) c)
    ∙ acknowledged-log r.delivery e q a

-- The fields that no call changes.
pub record Untouched (p q : Publisher) : Type 0 where
  pub announced : q.announced ≡ p.announced
  pub pending : q.pending_retire ≡ p.pending_retire
  pub client : q.has_client ≡ p.has_client
  pub legacy : q.legacy_cleared ≡ p.legacy_cleared
  pub republish : q.republish ≡ p.republish

pub Untouched-trans : (p q r : Publisher) → Untouched p q → Untouched q r → Untouched p r
Untouched-trans p q r h k = record {
  announced = k.announced ∙ h.announced;
  pending = k.pending ∙ h.pending;
  client = k.client ∙ h.client;
  legacy = k.legacy ∙ h.legacy;
  republish = k.republish ∙ h.republish;
}

deliver-Untouched : (d : Delivery) (e : Event) (p : Publisher) → Untouched p (deliver d e p)
deliver-Untouched acknowledged e p = record {
  announced = refl;
  pending = refl;
  client = refl;
  legacy = refl;
  republish = refl;
}
deliver-Untouched unacknowledged e p = record {
  announced = refl;
  pending = refl;
  client = refl;
  legacy = refl;
  republish = refl;
}
deliver-Untouched refused e p = record {
  announced = refl;
  pending = refl;
  client = refl;
  legacy = refl;
  republish = refl;
}

meanwhile-Untouched :
    (drops : Bool) (news : Option Text) (p : Publisher)
    → Untouched p (with_news news (if_dropped drops p))
unfolding with_news if_dropped take_news on_connection_lost
meanwhile-Untouched true none p = record {
  announced = refl;
  pending = refl;
  client = refl;
  legacy = refl;
  republish = refl;
}
meanwhile-Untouched true (some n) p = record {
  announced = refl;
  pending = refl;
  client = refl;
  legacy = refl;
  republish = refl;
}
meanwhile-Untouched false none p = record {
  announced = refl;
  pending = refl;
  client = refl;
  legacy = refl;
  republish = refl;
}
meanwhile-Untouched false (some n) p = record {
  announced = refl;
  pending = refl;
  client = refl;
  legacy = refl;
  republish = refl;
}

pub call-Untouched : (e : Event) (p : Publisher) → Untouched p (call e p).1
unfolding call
call-Untouched e p =
    let r = next_reply p.replies in
    let q = record p { replies = later_replies p.replies } in
    let both =
      Untouched-trans q (deliver r.delivery e q) (call e p).1 (deliver-Untouched r.delivery e q)
        (meanwhile-Untouched r.drops r.news (deliver r.delivery e q)) in
    record {
      announced = both.announced;
      pending = both.pending;
      client = both.client;
      legacy = both.legacy;
      republish = both.republish;
    }
