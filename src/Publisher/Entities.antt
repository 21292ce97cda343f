-- ===== src/Publisher/Entities.antt =====
-- internal/hamqtt/publisher.go: the entities of the readings: their announcement, their retirement, and the
-- life of the connection.
use rig_exporter.Base.{
  ℕ, zero, suc, Bool, true, false, not, ◌&&◌, ◌||◌, List, [], ◌∷◌, ◌++◌, map, if◌then◌else◌,
}
use rig_exporter.Base.Text.{codes}
use rig_exporter.Base.Unicode.{list_eq}
use rig_exporter.Config.{Config}
use rig_exporter.Config.Topics.{discovery_topic, legacy_discovery_topic}
use rig_exporter.Publisher.Broker.{
  Text, Topic, state, discovery, transient, EntityRef, Publisher, Act, proceed, ◌>>◌, call, publish,
}
use rig_exporter.Publisher.Updates.{
  Setup, is_current, sync_update_channel, noted, forget_announcements, update_key,
}

-- A reading that is to be announced: its reference, its earlier keys, and the payload of its discovery.
pub record Entity : Type 0 where
  pub ref : EntityRef
  pub legacy_keys : List Text
  pub payload : Text

abbrev pub has_key : Text → List EntityRef → Bool
has_key k [] = false
has_key k (r ∷ rs) = list_eq k r.key || has_key k rs

abbrev pub delete_key : Text → List EntityRef → List EntityRef
delete_key k [] = []
delete_key k (r ∷ rs) = let rest = delete_key k rs in if list_eq k r.key then rest else r ∷ rest

-- p.announced[key] = ref
abbrev pub set_ref : EntityRef → List EntityRef → List EntityRef
set_ref r rs = r ∷ delete_key r.key rs

abbrev pub topic_of : Config → EntityRef → Topic
topic_of c r = discovery (discovery_topic c r.component r.key)

-- An empty message for each topic, and the number of those that failed.
unfoldable pub clear_topics : List Topic → Publisher → ℕ × Publisher
unfolding call
clear_topics [] p = (0, p)
clear_topics (t ∷ ts) p =
    let (ok, q) = publish t [] p in
    let (failed, r) = clear_topics ts q in ((if ok then failed else suc failed), r)

-- the configuration under its previous identity
unfoldable pub previous_identity : Config → Config
previous_identity c = record c {
  node_id = c.previous_node_id;
  topic_prefix =
      if list_eq c.previous_topic_prefix [] then c.topic_prefix else c.previous_topic_prefix;
  discovery_prefix =
      if list_eq c.previous_discovery_prefix []
      then c.discovery_prefix
      else c.previous_discovery_prefix;
}

abbrev key_topics : Config → Text → List Text → List Topic
key_topics c component keys = map (λ k. discovery (discovery_topic c component k)) keys

unfoldable pub previous_topics_for : Config → Entity → List Topic
unfolding previous_identity discovery_topic
previous_topics_for c e =
    if list_eq c.previous_node_id []
    then []
    else key_topics (previous_identity c) e.ref.component (e.ref.key ∷ e.legacy_keys)

-- every earlier name of the entity
unfoldable pub earlier_topics : Config → Entity → List Topic
unfolding previous_topics_for discovery_topic
earlier_topics c e = key_topics c e.ref.component e.legacy_keys ++ previous_topics_for c e

abbrev pub remember_ref : EntityRef → Act
remember_ref r p = (true, record p { announced = set_ref r p.announced })

-- the body of the loop of `announceNew` for an entity that is announced
unfoldable pub announce_entity : Setup → Entity → Act
unfolding clear_topics earlier_topics discovery_topic
announce_entity s e p =
    (publish (topic_of s.cfg e.ref) e.payload >> remember_ref e.ref)
      (clear_topics (earlier_topics s.cfg e) p).1

-- An entity that the broker has, or whose measurement is not selected, is passed over.
abbrev pub passed_over : (Text → Bool) → Bool → Entity → Publisher → Bool
passed_over selected republish e p =
    not (selected e.ref.def_id) || has_key e.ref.key p.announced && not republish

unfoldable pub announce_each : Setup → (Text → Bool) → Bool → List Entity → Act
unfolding announce_entity
announce_each s selected republish [] p = (true, p)
announce_each s selected republish (e ∷ es) p =
    proceed (announce_each s selected republish es)
      (if passed_over selected republish e p then (true, p) else announce_entity s e p)

abbrev pub settle_republish : Bool → Act
settle_republish republish p = (true, if republish then record p { republish = false } else p)

unfoldable pub announce_new : Setup → (Text → Bool) → List Entity → Act
unfolding announce_each forget_announcements
announce_new s selected es p =
    let q = forget_announcements s.web_url p in
    (announce_each s selected q.republish es >> settle_republish q.republish) q

abbrev keep_quiet : Act
keep_quiet p = (
  true,
  record p {
    last_error = if p.is_connected then false else p.last_error;
    delivered = suc p.delivered;
  },
)

abbrev pub sent_or_noted : Bool × Publisher → Bool × Publisher
sent_or_noted (true, p) = keep_quiet p
sent_or_noted (false, p) = (false, record p { last_error = true })

-- `Export`, with the fuel of the update channel
unfoldable pub export : Setup → (Text → Bool) → ℕ → List Entity → Text → Act
unfolding announce_new sync_update_channel call
export s selected rounds es document p =
    if not (is_current p)
    then (true, p)
    else let q = if s.has_updates then noted (sync_update_channel s rounds p) else p in
      sent_or_noted ((announce_new s selected es >> call (transient state document)) q)

abbrev pub topics_of : Config → List EntityRef → List Topic
topics_of c refs = map (topic_of c) refs

abbrev pub delete_refs : List EntityRef → List EntityRef → List EntityRef
delete_refs [] rs = rs
delete_refs (r ∷ refs) rs = delete_refs refs (delete_key r.key rs)

-- `Retire`
unfoldable pub retire : Setup → List EntityRef → Publisher → Publisher
unfolding clear_topics discovery_topic
retire s refs p =
    let q = record p { announced = delete_refs refs p.announced } in
    if not (is_current p)
    then record q { pending_retire = p.pending_retire ++ refs }
    else (clear_topics (topics_of s.cfg refs) q).1

abbrev pub unselected : (Text → Bool) → List EntityRef → List EntityRef
unselected selected [] = []
unselected selected (r ∷ rs) =
    let rest = unselected selected rs in
    if not (list_eq r.def_id []) && not (selected r.def_id) then r ∷ rest else rest

-- `RetireUnselected`
unfoldable pub retire_unselected : Setup → (Text → Bool) → Publisher → Publisher
unfolding retire
retire_unselected s selected p = retire s (unselected selected p.announced) p

-- `flushPendingRetire`
unfoldable pub flush_pending_retire : Setup → Publisher → Publisher
unfolding clear_topics discovery_topic
flush_pending_retire s p =
    (clear_topics (topics_of s.cfg p.pending_retire) (record p { pending_retire = [] })).1

abbrev pub update_ref : EntityRef
update_ref = record { component = codes "update"; key = update_key; def_id = [] }

-- `ClearDiscovery`
unfoldable pub clear_discovery : Setup → Publisher → Publisher
unfolding clear_topics discovery_topic
clear_discovery s p =
    let refs = p.announced ++ (if s.has_updates then update_ref ∷ [] else []) in
    let q = record p { update_announced = false; announced = [] } in
    if not (is_current p)
    then record q { pending_retire = p.pending_retire ++ refs }
    else (clear_topics (topics_of s.cfg refs) q).1

abbrev pub legacy_keys : List (Text × Text)
legacy_keys =
    (codes "sensor", codes "fps")
    ∷ (codes "sensor", codes "frametime")
    ∷ (codes "sensor", codes "game")
    ∷ (codes "sensor", codes "resolution")
    ∷ (codes "sensor", codes "refresh_rate")
    ∷ (codes "sensor", codes "cpu")
    ∷ (codes "sensor", codes "ram")
    ∷ (codes "binary_sensor", codes "rtss")
    ∷ []

abbrev pub legacy_topics : Config → List Topic
legacy_topics c = map (λ k. discovery (legacy_discovery_topic c k.0 k.1)) legacy_keys

abbrev pub judge_legacy : ℕ × Publisher → Publisher
judge_legacy (zero, p) = record p { legacy_cleared = true }
judge_legacy (suc failed, p) = p

-- `clearLegacyDiscovery`
unfoldable pub clear_legacy_discovery : Setup → Publisher → Publisher
unfolding clear_topics legacy_discovery_topic
clear_legacy_discovery s p = judge_legacy (clear_topics (legacy_topics s.cfg) p)
