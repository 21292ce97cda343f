-- ===== src/Publisher/Broker.antt =====
-- internal/hamqtt/publisher.go: the state of a `Publisher` and its calls of the MQTT client.
use rig_exporter.Base.{
  ℕ, suc, Bool, true, false, not, ◌&&◌, ◌||◌, Option, none, some, List, [], ◌∷◌, if◌then◌else◌,
}
use rig_exporter.Base.Unicode.{list_eq}

abbrev pub Text : Type 0
Text = List ℕ

-- The topics of a machine; a discovery topic by its text.
pub data Topic : Type 0 where
  state availability update_state update_availability update_command : Topic
  discovery : Text → Topic

-- What the broker sees: a connection and its end, where it publishes the last will itself; a message, that
-- it retains or not; and a subscription.
pub data Event : Type 0 where
  connected lost disconnected : Event
  retained : Topic → Text → Event
  transient : Topic → Text → Event
  subscribed unsubscribed : Topic → Event

-- How a call of the client ends: acknowledged; with an error or a timeout although the broker had it;
-- or with an error and the broker had nothing.
pub data Delivery : Type 0 where
  acknowledged unacknowledged refused : Delivery

-- One call: its end, and what happens before it returns.
pub record Reply : Type 0 where
  pub delivery : Delivery
  pub drops : Bool
  pub news : Option Text

pub record EntityRef : Type 0 where
  pub component : Text
  pub key : Text
  pub def_id : Text

-- `log` has what the broker saw, the latest first. The updater's state is its payload.
pub record Publisher : Type 0 where
  pub has_client : Bool
  pub is_connected : Bool
  pub last_error : Bool
  pub update_error : Bool
  pub stopped : Bool
  pub announced : List EntityRef
  pub announced_url : Text
  pub update_announced : Bool
  pub update_subscribed : Bool
  pub common_available : Bool
  pub availability_known : Bool
  pub update_available : Bool
  pub update_payload : Text
  pub generation : ℕ
  pub published : ℕ
  pub republish : Bool
  pub legacy_cleared : Bool
  pub pending_retire : List EntityRef
  pub delivered : ℕ
  pub replies : List Reply
  pub log : List Event

-- A step, with whether it succeeded.
abbrev pub Act : Type 0
Act = Publisher → Bool × Publisher

abbrev pub proceed : Act → Bool × Publisher → Bool × Publisher
proceed b (true, p) = b p
proceed b (false, p) = (false, p)

infixr 5 ◌>>◌
abbrev pub ◌>>◌ : Act → Act → Act
◌>>◌ a b p = proceed b (a p)

abbrev pub done : Act
done p = (true, p)

abbrev pub fail : Act
fail p = (false, p)

-- "online" and "offline"
abbrev pub online : Text
online = 111 ∷ 110 ∷ 108 ∷ 105 ∷ 110 ∷ 101 ∷ []

abbrev pub offline : Text
offline = 111 ∷ 102 ∷ 102 ∷ 108 ∷ 105 ∷ 110 ∷ 101 ∷ []

-- `onConnectionLost`, and the last will
unfoldable pub on_connection_lost : Publisher → Publisher
on_connection_lost p = record p {
  is_connected = false;
  update_subscribed = false;
  update_announced = false;
  common_available = false;
  availability_known = false;
  update_available = false;
  last_error = true;
  log = lost ∷ p.log;
}

-- the first lines of `onUpdateStateChanged`; a call that is under way keeps the rest waiting
unfoldable pub take_news : Text → Publisher → Publisher
take_news payload p = record p { update_payload = payload; generation = suc p.generation }

abbrev pub normal : Reply
normal = record { delivery = acknowledged; drops = false; news = none }

abbrev pub next_reply : List Reply → Reply
next_reply [] = normal
next_reply (r ∷ rs) = r

abbrev pub later_replies : List Reply → List Reply
later_replies [] = []
later_replies (r ∷ rs) = rs

abbrev pub deliver : Delivery → Event → Publisher → Publisher
deliver acknowledged e p = record p { log = e ∷ p.log }
deliver unacknowledged e p = record p { log = e ∷ p.log }
deliver refused e p = p

abbrev pub is_acknowledged : Delivery → Bool
is_acknowledged acknowledged = true
is_acknowledged unacknowledged = false
is_acknowledged refused = false

unfoldable pub if_dropped : Bool → Publisher → Publisher
unfolding on_connection_lost
if_dropped true p = on_connection_lost p
if_dropped false p = p

unfoldable pub with_news : Option Text → Publisher → Publisher
unfolding take_news
with_news none p = p
with_news (some payload) p = take_news payload p

-- A call of the client that waits for its token: publish, subscribe and unsubscribe. While it waits, the
-- connection may be lost and the updater may report; that the client connects again meanwhile is left out.
unfoldable pub call : Event → Act
unfolding if_dropped with_news
call e p =
    let r = next_reply p.replies in
    (
      is_acknowledged r.delivery,
      with_news r.news (
          if_dropped r.drops
            (deliver r.delivery e (record p { replies = later_replies p.replies }))),
    )

-- `publish` with retain
abbrev pub publish : Topic → Text → Act
publish t payload = call (retained t payload)

abbrev pub topic_eq : Topic → Topic → Bool
topic_eq state state = true
topic_eq availability availability = true
topic_eq update_state update_state = true
topic_eq update_availability update_availability = true
topic_eq update_command update_command = true
topic_eq (discovery a) (discovery b) = list_eq a b
topic_eq _ _ = false

-- The message that the broker retains for a topic, empty for none. With the end of a connection that was
-- lost the last will replaces that of the process.
unfoldable pub message : Topic → List Event → Text
message t [] = []
message t (retained s payload ∷ es) =
    let rest = message t es in if topic_eq t s then payload else rest
message t (lost ∷ es) = let rest = message t es in if topic_eq t availability then offline else rest
message t (connected ∷ es) = message t es
message t (disconnected ∷ es) = message t es
message t (transient s payload ∷ es) = message t es
message t (subscribed s ∷ es) = message t es
message t (unsubscribed s ∷ es) = message t es

-- Whether the command topic has a subscriber: since the last connection it was subscribed.
unfoldable pub listens : List Event → Bool
listens [] = false
listens (subscribed s ∷ es) = let rest = listens es in topic_eq s update_command || rest
listens (unsubscribed s ∷ es) = let rest = listens es in not (topic_eq s update_command) && rest
listens (lost ∷ es) = false
listens (connected ∷ es) = false
listens (disconnected ∷ es) = false
listens (retained s payload ∷ es) = listens es
listens (transient s payload ∷ es) = listens es
