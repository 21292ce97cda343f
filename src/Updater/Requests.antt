-- ===== src/Updater/Requests.antt =====
-- internal/updater/manager.go: the single operations on every branch.
use rig_exporter.Base.{
  ℕ, ◌+◌, ◌≤◌, ◌<◌, ◌≡◌, ◌≢◌, ◌↔◌, ◌⊎◌, inl, inr, refl, sym, ap, Bool, true, false, Option, none,
  some, List, [], ◌∷◌, arith,
}
use mathlib.Core.Path.{subst}
use rig_exporter.Base.Unicode.{Unicode}
use rig_exporter.Updater.{
  Text, Release, Manager, Latest, found, failed, missing, Percent, Run, busy, no_update,
  updater_stopped, max_release_size, check, compare_release, check_release, request_install,
  report_progress, report_all, set_check_enabled, set_no_update, install,
}
use rig_exporter.Updater.Summary.{summarize}

-- A request is refused, with the manager unchanged, exactly if the manager is stopped (updater
-- stopped), else if an install is in progress (busy), else if no release is available (no update);
-- otherwise it starts one install, and the state says so, with no percentage and no error.
pub request_install_exact :
    (m : Manager)
    → (((request_install m).1 ≡ some updater_stopped) ↔ (m.stopped ≡ true))
      × (((request_install m).1 ≡ some busy) ↔ ((m.stopped ≡ false) × (m.state.in_progress ≡ true)))
      × (((request_install m).1 ≡ some no_update)
          ↔ ((m.stopped ≡ false) × (m.state.in_progress ≡ false) × (m.available ≡ none)))
      × ((request_install m).1 ≢ none → (request_install m).0 ≡ m)
      × ((request_install m).1 ≡ none
          → ((request_install m).0.installs ≡ m.installs + 1)
            × ((request_install m).0.state.in_progress ≡ true)
            × ((request_install m).0.state.update_percentage ≡ none)
            × ((request_install m).0.state.last_error ≡ none))
unfolding request_install
request_install_exact m = (
  (λ h. ground arith, λ h. ground arith),
  (λ h. ground arith, λ h. ground arith),
  (λ h. ground arith, λ h. ground arith),
  (λ h. ground arith),
  (λ h. ground arith),
)

module _ (u : Unicode) {V : Type 0} (parse_version : Text → Option V) (greater : V → V → Bool) where
  -- The two versions parse, and the release is newer and of an acceptable size.
  abbrev pub IsInstallable : Text → Release → Type 0
  IsInstallable current r =
      (c : V) × (l : V) × (parse_version current ≡ some c)
      × (parse_version r.version ≡ some l)
      × (greater l c ≡ true)
      × (0 < r.size)
      × (r.size ≤ max_release_size)

  -- A check that finds an installable release makes it available, and shows its version, address and
  -- summary, and no error.
  pub check_offers :
      (m : Manager) (r : Release)
      → IsInstallable m.current_version r
      → let n = check u parse_version greater (found r) m in
        (n.available ≡ some r)
        × (n.state.latest_version ≡ r.version)
        × (n.state.release_url ≡ r.url)
        × (n.state.release_summary ≡ summarize u r.notes)
        × (n.state.last_error ≡ none)
  unfolding check
  check_offers m r (c, l, pc, pl, newer, positive, capped) = rw (pc, pl, newer) (ground arith)

  compare_sound :
      (m : Manager) (c l : V) (r' r : Release)
      → (compare_release u parse_version greater c l r' m).available ≡ some r
      → (m.available ≡ some r)
        ⊎ ((r' ≡ r) × (greater l c ≡ true) × (0 < r'.size) × (r'.size ≤ max_release_size))
  unfolding compare_release
  compare_sound m c l r' r h = ground arith

  found_sound :
      (m : Manager) (oc ol : Option V) (r' r : Release)
      → (check_release u parse_version greater oc ol r' m).available ≡ some r
      → (m.available ≡ some r)
        ⊎ ((r' ≡ r)
            × ((c : V) × (l : V) × (oc ≡ some c)
                × (ol ≡ some l)
                × (greater l c ≡ true)
                × (0 < r'.size)
                × (r'.size ≤ max_release_size)))
  found_sound m none ol r' r h = inl (unfold check_release in h)
  found_sound m (some c) none r' r h = inl (unfold check_release in h)
  found_sound m (some c) (some l) r' r h =
      elim (compare_sound m c l r' r (unfold check_release in h)) [
        | inl old ↦ inl old
        | inr (e, n, p, q) ↦ inr (e, (c, l, refl, refl, n, p, q))
      ]

  -- A release that is available after a check was available before it, or the source found it and it
  -- is installable.
  pub check_sound :
      (m : Manager) (l : Latest) (r : Release)
      → (check u parse_version greater l m).available ≡ some r
      → (m.available ≡ some r) ⊎ ((l ≡ found r) × IsInstallable m.current_version r)
  unfolding check
  check_sound m (failed e) r h = inl h
  check_sound m missing r h = absurd (cc)
  check_sound m (found r') r h =
      elim (found_sound m (parse_version m.current_version) (parse_version r'.version) r' r h) [
        | inl old ↦ inl old
        | inr (e, i) ↦ inr (ap found e, subst (IsInstallable m.current_version) e i)
      ]

  switched_off :
      (m : Manager)
      → m.checks_off ≡ false
      → m.state.in_progress ≡ false
      → (set_check_enabled false m).0 ≡ set_no_update (record m { checks_off = true })
  unfolding set_check_enabled
  switched_off m on idle = ground arith

  module _ (m : Manager) where
    withdrawn_off : (set_no_update (record m { checks_off = true })).checks_off ≡ true
    unfolding set_no_update
    withdrawn_off = refl

    withdrawn_available : (set_no_update (record m { checks_off = true })).available ≡ none
    unfolding set_no_update
    withdrawn_available = refl

    withdrawn_version :
        (set_no_update (record m { checks_off = true })).current_version ≡ m.current_version
    unfolding set_no_update
    withdrawn_version = refl

  -- A check that began before the checks were switched off still makes the release available that it
  -- finds afterwards, where it is installable and no install was in progress at the switch.
  pub check_after_switch :
      (m : Manager) (r : Release)
      → m.checks_off ≡ false
      → m.state.in_progress ≡ false
      → IsInstallable m.current_version r
      → let off = (set_check_enabled false m).0 in
        (off.checks_off ≡ true)
        × (off.available ≡ none)
        × ((check u parse_version greater (found r) off).available ≡ some r)
  check_after_switch m r on idle ready = rw (switched_off m on idle) (
    withdrawn_off m,
    withdrawn_available m,
    (check_offers (set_no_update (record m { checks_off = true })) r
        (subst (λ c. IsInstallable c r) (sym (withdrawn_version m)) ready)).0,
  )

module _ (point : ℕ) where
  report_all-fields :
      (ps : List Percent) (m : Manager)
      → ((report_all point ps m).state.in_progress ≡ m.state.in_progress)
        × ((report_all point ps m).available ≡ m.available)
        × ((report_all point ps m).state.last_error ≡ m.state.last_error)
  unfolding report_all
  report_all-fields [] m = (refl, refl, refl)
  report_all-fields (p ∷ ps) m = ground (arith, report_all-fields ps (report_progress point p m))

  -- The run of an install requests the restart exactly if a restart can be requested and no part
  -- failed. If it does not, the state shows the failure and no install in progress; in both cases no
  -- percentage is left standing and the available release stays.
  pub install_exact :
      (run : Run) (m : Manager)
      → m.state.in_progress ≡ true
      → m.state.last_error ≡ none
      → let (n, restart) = install point run m in
        ((restart ≡ true) ↔ (
          (run.can_restart ≡ true)
          × (run.staging ≡ none)
          × (run.download ≡ none)
          × (run.digest ≡ none)
          × (run.prepare ≡ none)))
        × (n.state.in_progress ≡ restart)
        × ((restart ≡ false) ↔ (n.state.last_error ≢ none))
        × (n.state.update_percentage ≡ none)
        × (n.available ≡ m.available)
  unfolding install
  install_exact run m going clean =
      let f = report_all-fields run.reports m in
      (
        (λ h. ground arith, λ h. ground arith),
        ground arith,
        (λ h. ground arith, λ h. ground arith),
        ground arith,
        ground arith,
      )
