-- ===== src/Updater/Tests.antt =====
-- Runs of the update manager and of its release source on small inputs.
use rig_exporter.Base.{
  ℕ, ◌+◌, ◌<◌, ◌≡◌, ◌≢◌, ◌↔◌, ◌⊎◌, refl, Bool, true, false, Option, none, some, [], ◌∷◌, arith, ltb,
  ok,
}
use rig_exporter.Base.Text.{codes}
use rig_exporter.Base.Unicode.{ascii}
use rig_exporter.Updater.{
  Text, Release, Manager, found, below_zero, steps, Run, busy, no_update, updater_stopped,
  new_manager, check, request_install, set_check_enabled, swap_off, look, withdraw, install,
  begin_check, notify, hash_failure,
}
use rig_exporter.Updater.Summary.{summarize, is_heading}
use rig_exporter.Updater.Invariant.{
  Inv, Reach, here, next, requesting, ending_check, beginning_check, Reach-Inv, after_prepare,
  prepared-busy,
}
use rig_exporter.Updater.Requests.{
  IsInstallable, request_install_exact, check_offers, check_offers, check_sound, check_after_switch,
  install_exact,
}
use rig_exporter.Updater.Source.{
  CountingReader, read, read_all, Native, Staging, stage, latest, detected, release_asset_name,
}
use rig_exporter.Updater.Source

-- "1", "2", ... are versions; all else is not
abbrev version_of : Text → Option ℕ
version_of (c ∷ []) = some c
version_of _ = none

abbrev above : ℕ → ℕ → Bool
above a b = ltb b a

abbrev release_two : Release
release_two = record {
  version = codes "2";
  notes = codes "## New";
  url = codes "https://r";
  size = 1000;
}

abbrev fresh : Manager
fresh = new_manager (codes "1")

abbrev checking : Manager
checking = begin_check fresh

abbrev offered : Manager
offered = record (check ascii version_of above (found release_two) checking) { checks = 0 }

offered_reached : Reach ascii version_of above 1 fresh offered
unfolding begin_check new_manager check notify
offered_reached =
    next (next here (beginning_check fresh))
      (ending_check checking (found release_two) (omega arith))

requested_reached : Reach ascii version_of above 1 fresh (request_install offered).0
requested_reached = next offered_reached (requesting offered)

Reach-Inv_example :
    let n = (request_install offered).0 in
    (n.state.installed_version ≡ codes "1") × (n.current_version ≡ codes "1") × Inv 1 n
Reach-Inv_example = Reach-Inv ascii version_of above 1 (codes "1") requested_reached

requested_runs : 0 < (request_install offered).0.installs
unfolding request_install check new_manager begin_check notify
requested_runs = omega arith

-- An install that is requested while the checks are being switched off goes on, and its release is withdrawn.
install_withdrawn :
    let n = withdraw (request_install (look (swap_off offered))).0 in
    (n.state.in_progress ≡ true) × (n.available ≡ none) × (n.installs ≡ 1)
unfolding swap_off look withdraw request_install check new_manager begin_check notify
install_withdrawn = (refl, refl, refl)

prepared-busy_example :
    let n = after_prepare ascii version_of above 1 (request_install offered).0 in
    (n.state.in_progress ≡ true) × ((request_install n).1 ≢ none)
prepared-busy_example =
    prepared-busy ascii version_of above 1 {m = (request_install offered).0}
      (Reach-Inv ascii version_of above 1 (codes "1") requested_reached).2 requested_runs here

request_install_exact_example :
    (((request_install offered).1 ≡ some updater_stopped) ↔ (offered.stopped ≡ true))
    × (((request_install offered).1 ≡ some busy)
        ↔ ((offered.stopped ≡ false) × (offered.state.in_progress ≡ true)))
    × (((request_install offered).1 ≡ some no_update) ↔ (
        (offered.stopped ≡ false)
        × (offered.state.in_progress ≡ false)
        × (offered.available ≡ none)))
    × ((request_install offered).1 ≢ none → (request_install offered).0 ≡ offered)
    × ((request_install offered).1 ≡ none
        → ((request_install offered).0.installs ≡ offered.installs + 1)
          × ((request_install offered).0.state.in_progress ≡ true)
          × ((request_install offered).0.state.update_percentage ≡ none)
          × ((request_install offered).0.state.last_error ≡ none))
request_install_exact_example = request_install_exact offered

two_IsInstallable : IsInstallable ascii version_of above (codes "1") release_two
two_IsInstallable = (b'1', b'2', refl, refl, refl, omega arith, omega arith)

check_sound_example :
    (fresh.available ≡ some release_two)
    ⊎ ((found release_two ≡ found release_two)
        × IsInstallable ascii version_of above (codes "1") release_two)
unfolding new_manager
check_sound_example =
    check_sound ascii version_of above fresh (found release_two) release_two
      (check_offers ascii version_of above fresh release_two two_IsInstallable).0

check_after_switch_example :
    let off = (set_check_enabled false fresh).0 in
    (off.checks_off ≡ true)
    × (off.available ≡ none)
    × ((check ascii version_of above (found release_two) off).available ≡ some release_two)
unfolding new_manager
check_after_switch_example =
    check_after_switch ascii version_of above fresh release_two refl refl two_IsInstallable

abbrev broken_run : Run
broken_run = record {
  can_restart = true;
  staging = none;
  reports = steps 50 ∷ below_zero ∷ steps 500 ∷ [];
  download = none;
  digest = some (codes "gone");
  prepare = none;
}

install_exact_example :
    let m = (request_install offered).0 in
    let (n, restart) = install 1 broken_run m in
    ((restart ≡ true) ↔ (
      (true ≡ true)
      × (broken_run.staging ≡ none)
      × (broken_run.download ≡ none)
      × (broken_run.digest ≡ none)
      × (broken_run.prepare ≡ none)))
    × (n.state.in_progress ≡ restart)
    × ((restart ≡ false) ↔ (n.state.last_error ≢ none))
    × (n.state.update_percentage ≡ none)
    × (n.available ≡ m.available)
unfolding request_install check new_manager begin_check notify
install_exact_example = install_exact 1 broken_run (request_install offered).0 refl refl

broken_fails :
    (install 1 broken_run (request_install offered).0).0.state.last_error
    ≡ some (hash_failure (codes "gone"))
unfolding install request_install check new_manager begin_check notify
broken_fails = refl

-- The install section is cut off, and a heading that lost its items is dropped.
notes_summarized : summarize ascii (codes "## New ∷ x ## Installing") ≡ []
unfolding summarize is_heading
notes_summarized = refl

-- In a download of 1000 bytes in reads of 4, 5, 6 and 985, the second read makes no whole percent.
reads_reported :
    (read_all (record { total = 1000; read = 0; reported = 0 }) (4 ∷ 5 ∷ 6 ∷ 985 ∷ [])).1
    ≡ 1500 ∷ 100000 ∷ []
unfolding read_all read
reads_reported = refl

abbrev native_two : Native
native_two = record {
  version = codes "2";
  release_notes = [];
  url = [];
  asset_id = 1;
  asset_name = codes "rig-exporter_2_windows_amd64.exe.zip";
  asset_byte_size = 1000;
}

abbrev source_two : Source.Release
source_two = record {
  version = codes "2";
  notes = [];
  url = [];
  size = 1000;
  native = some native_two;
}

abbrev smooth : Staging
smooth = record { copy = none; update = none }

two_found : latest (detected native_two) ≡ ok (some source_two)
unfolding latest release_asset_name
two_found = refl
