-- ===== src/Config/Topics.antt =====
-- internal/config/config.go: the topics and the identifiers of a machine, and which drives it reports.
use rig_exporter.Base.{◌≡◌, ◌≢◌, refl, Bool, true, List, [], ◌∷◌, ◌++◌, arith, All}
use rig_exporter.Base.Text.{codes}
use rig_exporter.Base.Unicode.{Unicode}
use rig_exporter.Config.{Text, Config, id_prefix, entity_prefix, legacy_app_name}
use rig_exporter.Config.Cleaning.{member, drive_marks}
use rig_exporter.Config.Trimming.{trim}

-- fmt.Sprintf("%s/%s…", c.TopicPrefix, c.NodeID)
abbrev under : Config → Text → Text
under c tail = c.topic_prefix ++ (codes "/" ++ (c.node_id ++ tail))

unfoldable pub state_topic : Config → Text
state_topic c = under c (codes "/state")

unfoldable pub availability_topic : Config → Text
availability_topic c = under c (codes "/availability")

unfoldable pub update_state_topic : Config → Text
update_state_topic c = under c (codes "/update/state")

unfoldable pub update_availability_topic : Config → Text
update_availability_topic c = under c (codes "/update/availability")

unfoldable pub update_command_topic : Config → Text
update_command_topic c = under c (codes "/update/install")

-- `<prefix>/<component>/<owner>_<node>/<key>/config`
abbrev pub config_topic : Text → Config → Text → Text → Text
config_topic owner c component key =
    c.discovery_prefix
    ++ (47 ∷ (component ++ (47 ∷ (owner ++ (95 ∷ (c.node_id ++ (47 ∷ (key ++ codes "/config"))))))))

unfoldable pub discovery_topic : Config → Text → Text → Text
discovery_topic = config_topic id_prefix

unfoldable pub legacy_discovery_topic : Config → Text → Text → Text
legacy_discovery_topic = config_topic legacy_app_name

unfoldable pub object_prefix : Config → Text
object_prefix c = entity_prefix ++ (codes "_" ++ (c.node_id ++ codes "_"))

unfoldable pub object_id : Config → Text → Text
unfolding object_prefix
object_id c key = object_prefix c ++ key

unfoldable pub device_identifier : Config → Text
device_identifier c = id_prefix ++ (codes "_" ++ c.node_id)

abbrev wanted_in : List Text → Text → Bool
wanted_in [] name = true
wanted_in (d ∷ ds) name = member name (d ∷ ds)

unfoldable pub wants_disk : Unicode → Config → Text → Bool
wants_disk u c letter = wanted_in c.disk_include (u.to_upper (trim drive_marks letter))

-- A text without a slash, such as a component, a key and a slug.
abbrev pub IsSegment : Text → Type 0
IsSegment = All (λ c. c ≢ 47)

-- Up to the first slash two equal texts have the same segment, and behind it the same rest.
segments_equal :
    (a b r t : Text) → IsSegment a → IsSegment b → a ++ (47 ∷ r) ≡ b ++ (47 ∷ t) → (a ≡ b) × (r ≡ t)
segments_equal [] [] r t h k e = (refl, ground arith)
segments_equal [] (d ∷ b) r t h k e = ground arith
segments_equal (c ∷ a) [] r t h k e = ground arith
segments_equal (c ∷ a) (d ∷ b) r t h k e =
    let tail : a ++ (47 ∷ r) ≡ b ++ (47 ∷ t) = ground arith in
    let rest = segments_equal a b r t h.1 k.1 tail in (ground (arith, rest.0), rest.1)

append_cancel : (p a b : Text) → p ++ a ≡ p ++ b → a ≡ b
append_cancel [] a b e = e
append_cancel (c ∷ p) a b e = append_cancel p a b (ground arith)

-- Two entities of one machine that share a discovery topic are the same.
pub discovery_topic-injective :
    (c : Config) (p q k l : Text)
    → IsSegment p
    → IsSegment q
    → IsSegment k
    → IsSegment l
    → discovery_topic c p k ≡ discovery_topic c q l
    → (p ≡ q) × (k ≡ l)
unfolding discovery_topic
discovery_topic-injective c p q k l hp hq hk hl e =
    let one : p ++ (47 ∷ _) ≡ q ++ (47 ∷ _) =
      (segments_equal [] [] _ _ tt tt (append_cancel c.discovery_prefix _ _ e)).1 in
    let two = segments_equal p q _ _ hp hq one in
    let three = append_cancel id_prefix _ _ two.1 in
    let four = append_cancel c.node_id _ _ (append_cancel (95 ∷ []) _ _ three) in
    let five = append_cancel (47 ∷ []) _ _ four in
    (two.0, (segments_equal k l (codes "config") (codes "config") hk hl five).0)

-- No discovery topic is one of the previous program.
discovery_topic-apart :
    (c : Config) (p q k l : Text)
    → IsSegment p
    → IsSegment q
    → discovery_topic c p k ≢ legacy_discovery_topic c q l
unfolding discovery_topic legacy_discovery_topic
discovery_topic-apart c p q k l hp hq e =
    let one : p ++ (47 ∷ _) ≡ q ++ (47 ∷ _) =
      (segments_equal [] [] _ _ tt tt (append_cancel c.discovery_prefix _ _ e)).1 in
    let two = segments_equal p q _ _ hp hq one in ground arith
