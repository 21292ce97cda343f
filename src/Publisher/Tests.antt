-- ===== src/Publisher/Tests.antt =====
-- Runs of internal/hamqtt/publisher.go against a broker that answers as a list says.
use rig_exporter.Base.{
  ℕ, Bool, ◌≡◌, refl, true, false, none, some, List, [], ◌∷◌, arith, take, drop, All, ◌&&◌,
}
use rig_exporter.Base.Text.{codes}
use rig_exporter.Base.Unicode.{ascii}
use rig_exporter.Config.{Machine, defaults}
use rig_exporter.Publisher.Broker.{
  online, update_state, availability, update_availability, Event, retained, acknowledged,
  unacknowledged, refused, Reply, Publisher, message, listens,
}
use rig_exporter.Publisher.Updates.{Setup, sync_update_channel}
use rig_exporter.Publisher.Entities.{
  earlier_topics, previous_topics_for, Entity, announce_new, clear_legacy_discovery,
}
use rig_exporter.Publisher.Life.{fresh, Move, connects, exports, reports, run, on_update_command}
use rig_exporter.Base.Unicode.{list_eq}
use rig_exporter.Publisher.Recording.{IsEntity, Recorded}
use rig_exporter.Publisher.Withdrawing.{Edit, passes, edit_all, edit_all-Recorded}
use rig_exporter.Publisher.Guarding.{is_offered, is_up}
use rig_exporter.Publisher.Assurance.{run-offers}
use rig_exporter.Publisher.Finishing.{IsFinished, sync-IsFinished}
use rig_exporter.Publisher.Announcing.{IsPassed, announce_new-IsPassed}
use rig_exporter.Publisher.Answers.{all_answered}
use rig_exporter.Publisher.Retaining.{holds, legacy_texts, clear_legacy-emptied}

abbrev here : Machine
here = record { os_hostname = some (codes "rig"); os_language = codes "en" }

abbrev setup : Setup
setup = record {
  cfg = defaults ascii here;
  has_updates = true;
  updater_state = codes "{1.0}";
  web_url = codes "http://rig";
  update_discovery = λ url. codes "{update}";
}

abbrev cpu : Entity
cpu = record {
  ref = record { component = codes "sensor"; key = codes "cpu"; def_id = codes "cpu" };
  legacy_keys = [];
  payload = codes "{cpu}";
}

abbrev good : Reply
good = record { delivery = acknowledged; drops = false; news = none }

-- The first two calls pass; during the third the updater reports, and its end is lost with the connection.
abbrev lossy : Publisher
lossy = record fresh {
  replies =
      good
      ∷ good
      ∷ record { delivery = unacknowledged; drops = true; news = some (codes "{1.1}") }
      ∷ [];
}

abbrev moves : List Move
moves =
    connects ∷ connects ∷ exports (λ d. true) (cpu ∷ []) (codes "{}") ∷ reports (codes "{1.2}") ∷ []

offered : is_offered (run setup 9 moves lossy).log ≡ true
unfolding run message defaults
offered = refl

down_at_start : is_up availability lossy.log ≡ false
unfolding message
down_at_start = refl

run-offers_example : listens (run setup 9 moves lossy).log ≡ true
run-offers_example =
    run-offers setup 9 moves lossy refl
      (record { away = refl; deaf = refl; unknown = refl; down = down_at_start }) offered

sync-IsFinished_example :
    IsFinished (sync_update_channel setup 9 (record lossy { is_connected = true }))
sync-IsFinished_example =
    sync-IsFinished setup 9 (record lossy { is_connected = true }) (omega arith)

abbrev unreliable : Publisher
unreliable = record fresh {
  is_connected = true;
  replies = record { delivery = refused; drops = false; news = none } ∷ [];
}

-- The entity is announced, with the address of an interface that has moved since.
abbrev moved : Publisher
moved = record fresh { is_connected = true; announced = cpu.ref ∷ [] }

-- The broker refuses the message.
abbrev unheard : Publisher
unheard = record unreliable { announced = cpu.ref ∷ [] }

passed : (announce_new setup (λ d. true) (cpu ∷ []) moved).0 ≡ true
unfolding announce_new earlier_topics previous_topics_for defaults
passed = refl

missed : (announce_new setup (λ d. true) (cpu ∷ []) unheard).0 ≡ false
unfolding announce_new earlier_topics previous_topics_for defaults
missed = refl

announce_new-IsPassed_example :
    IsPassed setup (λ d. true) (cpu ∷ []) moved (announce_new setup (λ d. true) (cpu ∷ []) moved)
announce_new-IsPassed_example = announce_new-IsPassed setup (λ d. true) (cpu ∷ []) moved

abbrev linked : Publisher
linked = record fresh { is_connected = true }

cleared : (clear_legacy_discovery setup linked).legacy_cleared ≡ true
unfolding clear_legacy_discovery
cleared = refl

clear_legacy-emptied_example :
    let q = clear_legacy_discovery setup linked in
    (q.legacy_cleared ≡ all_answered 8 linked.replies)
    × All (λ t. (q.legacy_cleared && holds q.log t) ≡ false) (legacy_texts setup.cfg)
clear_legacy-emptied_example = clear_legacy-emptied setup linked refl

only_exact :
    on_update_command setup (record { is_retained = true; topic = []; payload = codes "install" })
    ≡ false
unfolding on_update_command
only_exact = refl

-- The broker has the last "online", but its answer is lost.
abbrev unanswered : Publisher
unanswered = record fresh {
  replies =
      good
      ∷ good
      ∷ good
      ∷ good
      ∷ good
      ∷ record { delivery = unacknowledged; drops = false; news = none }
      ∷ [];
}

abbrev two_messages : List Event → List Event
two_messages log = take 2 (drop 1 log)

-- The next state of the updater is then published while the topic says online: the guard before it is
-- taken for sent.
guard_skipped :
    two_messages (run setup 9 (connects ∷ reports (codes "{1.2}") ∷ []) unanswered).log
    ≡ retained update_state (codes "{1.2}") ∷ retained update_availability online ∷ []
unfolding run defaults
guard_skipped = refl

abbrev only_cpu : List ℕ → Bool
only_cpu k = list_eq k (codes "cpu")

cpu-IsEntity : IsEntity setup.cfg only_cpu cpu
unfolding earlier_topics previous_topics_for defaults
cpu-IsEntity = record {
  proper = record { component = omega arith; key = omega arith; present = refl };
  full = refl;
  retired = tt;
}

-- The first pass is refused, the second goes through, and then the selection is narrowed.
abbrev edits : List Edit
edits =
    passes (λ d. true) (cpu ∷ [])
    ∷ passes (λ d. true) (cpu ∷ [])
    ∷ Edit.narrows (λ d. list_eq d (codes "gpu"))
    ∷ []

edit_all-Recorded_example : Recorded setup.cfg only_cpu (edit_all setup edits unreliable)
edit_all-Recorded_example =
    edit_all-Recorded setup only_cpu edits unreliable
      ((cpu-IsEntity, tt), ((cpu-IsEntity, tt), (tt, tt))) tt
