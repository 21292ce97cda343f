-- ===== src/Publisher/Life.antt =====
-- internal/hamqtt/publisher.go: the life of a publisher: its connections, the callbacks, its end, and what it
-- says of itself.
use rig_exporter.Base.{ℕ, Bool, true, false, not, ◌&&◌, ◌||◌, List, [], ◌∷◌, if◌then◌else◌}
use rig_exporter.Base.Unicode.{list_eq}
use rig_exporter.Base.Text.{codes}
use rig_exporter.Config.Topics.{update_command_topic}
use rig_exporter.Publisher.Broker.{
  Text, availability, update_availability, update_command, unsubscribed, connected, disconnected,
  EntityRef, Publisher, online, offline, call, publish, on_connection_lost, take_news,
}
use rig_exporter.Publisher.Updates.{Setup, is_current, sync_update_channel, noted}
use rig_exporter.Publisher.Entities.{
  Entity, export, retire, retire_unselected, flush_pending_retire, clear_discovery,
  clear_legacy_discovery,
}

-- `New`, and `Start`, which makes the client
abbrev pub fresh : Publisher
fresh = record {
  has_client = true;
  is_connected = false;
  last_error = false;
  update_error = false;
  stopped = false;
  announced = [];
  announced_url = [];
  update_announced = false;
  update_subscribed = false;
  common_available = false;
  availability_known = false;
  update_available = false;
  update_payload = [];
  generation = 0;
  published = 0;
  republish = false;
  legacy_cleared = false;
  pending_retire = [];
  delivered = 0;
  replies = [];
  log = [];
}

-- the fields that a connection begins with
unfoldable pub begin_connection : Publisher → Publisher
begin_connection p = record p {
  is_connected = true;
  last_error = false;
  update_error = false;
  republish = true;
  update_announced = false;
  update_subscribed = false;
  common_available = false;
  availability_known = false;
  update_available = false;
  published = 0;
  log = connected ∷ p.log;
}

abbrev note_failure : Bool × Publisher → Publisher
note_failure (true, p) = p
note_failure (false, p) = record p { last_error = true }

unfoldable pub raise_alone : Publisher → Publisher
unfolding call
raise_alone p = note_failure (publish availability online p)

abbrev pub disconnect : Publisher → Publisher
disconnect p = record p { log = disconnected ∷ p.log }

-- `onConnect`
unfoldable pub on_connect : Setup → ℕ → Publisher → Publisher
unfolding begin_connection raise_alone flush_pending_retire clear_legacy_discovery
    sync_update_channel
on_connect s rounds p =
    if p.stopped || not p.has_client
    then disconnect p
    else let q = begin_connection p in
      let r = flush_pending_retire s (if s.has_updates then q else raise_alone q) in
      let t = if s.cfg.legacy_cleanup_pending then clear_legacy_discovery s r else r in
      if s.has_updates then noted (sync_update_channel s rounds t) else t

-- `onUpdateStateChanged`
unfoldable pub on_update_state_changed : Setup → ℕ → Text → Publisher → Publisher
unfolding take_news sync_update_channel
on_update_state_changed s rounds payload p =
    let q = take_news payload p in
    if is_current q then noted (sync_update_channel s rounds q) else q

-- A message to the command topic.
pub record Command : Type 0 where
  pub is_retained : Bool
  pub topic : Text
  pub payload : Text

-- `onUpdateCommand`: whether an installation is requested
unfoldable pub on_update_command : Setup → Command → Bool
unfolding update_command_topic
on_update_command s m =
    s.has_updates
    && not m.is_retained
    && list_eq m.topic (update_command_topic s.cfg)
    && list_eq m.payload (codes "install")

abbrev pub close_down : Publisher → Publisher
close_down p = record p {
  stopped = true;
  has_client = false;
  is_connected = false;
  update_subscribed = false;
  update_announced = false;
  common_available = false;
  availability_known = false;
  update_available = false;
}

abbrev leave_updates : Bool → Publisher → Publisher
leave_updates subscribed p =
    (publish update_availability offline
      (if subscribed then (call (unsubscribed update_command) p).1 else p)).1

-- `Stop`; whether the client is connected is what the publisher knew of it
unfoldable pub stop : Setup → Publisher → Publisher
unfolding call
stop s p =
    let q = close_down p in
    if not p.has_client
    then q
    else if not p.is_connected
    then disconnect q
    else let r = if s.has_updates then leave_updates p.update_subscribed q else q in
      disconnect (publish availability offline r).1

-- `PreviousIdentityCleared`
unfoldable pub previous_identity_cleared : Setup → Publisher → Bool
previous_identity_cleared s p =
    not (list_eq s.cfg.previous_node_id [])
    && not p.republish
    && (elim p.announced [ [] ↦ false | r ∷ rs ↦ true ])

-- The parts of `Status` that are not texts.
pub record Status : Type 0 where
  pub healthy : Bool
  pub failed : Bool
  pub deliveries : ℕ

unfoldable pub status : Publisher → Status
status p =
    let bad = p.update_error || p.last_error in
    record { healthy = p.is_connected && not bad; failed = bad; deliveries = p.delivered }

-- One thing that happens to a running publisher; a connection follows only on the end of the last one.
pub data Move : Type 0 where
  connects loses : Move
  exports : (Text → Bool) → List Entity → Text → Move
  reports : Text → Move
  retires : List EntityRef → Move
  narrows : (Text → Bool) → Move
  clears : Move

unfoldable pub perform : Setup → ℕ → Move → Publisher → Publisher
unfolding on_connect on_connection_lost export on_update_state_changed retire retire_unselected
    clear_discovery
perform s rounds connects p = if p.is_connected then p else on_connect s rounds p
perform s rounds loses p = on_connection_lost p
perform s rounds (exports selected es document) p = (export s selected rounds es document p).1
perform s rounds (reports payload) p = on_update_state_changed s rounds payload p
perform s rounds (retires refs) p = retire s refs p
perform s rounds (narrows selected) p = retire_unselected s selected p
perform s rounds clears p = clear_discovery s p

unfoldable pub run : Setup → ℕ → List Move → Publisher → Publisher
unfolding perform
run s rounds [] p = p
run s rounds (m ∷ ms) p = run s rounds ms (perform s rounds m p)
