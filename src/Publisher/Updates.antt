-- ===== src/Publisher/Updates.antt =====
-- internal/hamqtt/publisher.go: the software update entity, with its own availability.
use rig_exporter.Base.{ℕ, zero, suc, Bool, true, false, not, ◌&&◌, ◌||◌, ltb, ◌==◌, if◌then◌else◌}
use rig_exporter.Config.{Config}
use rig_exporter.Config.Topics.{discovery_topic}
use rig_exporter.Base.Text.{codes}
use rig_exporter.Base.Unicode.{list_eq}
use rig_exporter.Publisher.Broker.{
  Text, Topic, availability, update_state, update_availability, update_command, discovery,
  subscribed, Publisher, Act, ◌>>◌, online, offline, call, publish,
}

-- What the publisher is made with: the configuration, whether there is an updater and its state, the
-- address of the interface, and the payload of the update's discovery.
pub record Setup : Type 0 where
  pub cfg : Config
  pub has_updates : Bool
  pub updater_state : Text
  pub web_url : Text
  pub update_discovery : Text → Text

-- p.client == client && p.connected
abbrev pub is_current : Publisher → Bool
is_current p = p.has_client && p.is_connected

-- A step that only sets fields, if the connection is still there.
abbrev pub when_current : (Publisher → Publisher) → Act
when_current f p = if is_current p then (true, f p) else (false, p)

abbrev pub available_text : Bool → Text
available_text available = if available then online else offline

abbrev pub bool_eq : Bool → Bool → Bool
bool_eq true b = b
bool_eq false b = not b

abbrev pub set_availability : Bool → Publisher → Publisher
set_availability available p = record p { availability_known = true; update_available = available }

-- the part of publishUpdateAvailability that talks to the broker
abbrev pub announce_availability : Bool → Act
announce_availability available =
    publish update_availability (available_text available)
    >> when_current (set_availability available)

unfoldable pub publish_update_availability : Bool → Act
unfolding call
publish_update_availability available p =
    if not (is_current p)
    then (false, p)
    else if p.availability_known && bool_eq p.update_available available
    then (true, p)
    else announce_availability available p

abbrev pub set_common : Publisher → Publisher
set_common p = record p { common_available = true }

abbrev pub raise_common : Act
raise_common = publish availability online >> when_current set_common

unfoldable pub ensure_common_availability : Act
unfolding publish_update_availability
ensure_common_availability p =
    if not (is_current p)
    then (false, p)
    else if p.common_available
    then (true, p)
    else (publish_update_availability false >> raise_common) p

abbrev pub set_subscribed : Publisher → Publisher
set_subscribed p = record p { update_subscribed = true }

unfoldable pub subscribe_updates : Act
unfolding publish_update_availability
subscribe_updates p =
    if p.update_subscribed
    then (true, p)
    else (publish_update_availability false
          >> call (subscribed update_command)
          >> when_current set_subscribed)
        p

-- `forgetAnnouncementsIfURLChanged`
unfoldable pub forget_announcements : Text → Publisher → Publisher
forget_announcements url p =
    if list_eq url p.announced_url
    then p
    else record p { republish = true; update_announced = false; announced_url = url }

abbrev pub update_key : Text
update_key = codes "software"

abbrev pub update_topic : Setup → Topic
update_topic s = discovery (discovery_topic s.cfg (codes "update") update_key)

abbrev pub set_announced : Act
set_announced p = (true, record p { update_announced = true })

unfoldable pub announce_update : Setup → Act
unfolding discovery_topic
announce_update s p =
    if not p.update_subscribed
    then (false, p)
    else if p.update_announced
    then (true, p)
    else (publish (update_topic s) (s.update_discovery s.web_url) >> set_announced) p

abbrev pub set_published : ℕ → Act
set_published g p = (true, record p { published = if ltb p.published g then g else p.published })

-- the branch of the loop that has a state to publish
unfoldable pub publish_generation : Act
unfolding publish_update_availability
publish_generation p =
    (publish_update_availability false
        >> publish update_state p.update_payload
        >> set_published p.generation)
      p

-- the branch that announces
unfoldable pub announce_hidden : Setup → Act
unfolding publish_update_availability announce_update
announce_hidden s = publish_update_availability false >> announce_update s

-- How the loop ends: with an error or not, and whether the fuel was enough.
pub data Sync : Type 0 where
  finished : Bool → Publisher → Sync
  exhausted : Publisher → Sync

abbrev pub finish : Bool × Publisher → Sync
finish (b, p) = finished b p

-- the loop goes on after a branch that succeeded
abbrev pub continue : (Publisher → Sync) → Bool × Publisher → Sync
continue loop (true, p) = loop p
continue loop (false, p) = finished false p

-- the loop of `syncUpdateChannel`, its rounds as fuel
unfoldable pub sync_loop : Setup → ℕ → Publisher → Sync
unfolding publish_generation announce_hidden publish_update_availability
sync_loop s zero p = exhausted p
sync_loop s (suc rounds) p =
    let again = λ (r : Bool × Publisher). continue (sync_loop s rounds) r in
    if not (is_current p && p.update_subscribed)
    then finished true p
    else if ltb p.published p.generation
    then again (publish_generation p)
    else if not p.update_announced
    then again (announce_hidden s p)
    else finish (publish_update_availability true p)

-- the updater's state is asked for once
unfoldable pub first_state : Setup → Publisher → Publisher
first_state s p =
    if p.generation == 0 then record p { update_payload = s.updater_state; generation = 1 } else p

-- `syncUpdateChannel`
unfoldable pub sync_update_channel : Setup → ℕ → Publisher → Sync
unfolding ensure_common_availability subscribe_updates forget_announcements first_state sync_loop
sync_update_channel s rounds p =
    if not s.has_updates || not (is_current p)
    then finished true p
    else continue (λ q. sync_loop s rounds (first_state s (forget_announcements s.web_url q)))
        ((ensure_common_availability >> subscribe_updates) p)

-- what the callers do with its error
abbrev pub noted : Sync → Publisher
noted (finished b p) = record p { update_error = not b }
noted (exhausted p) = p
