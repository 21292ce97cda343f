-- ===== src/Updater/Invariant.antt =====
-- internal/updater/manager.go: the manager's steps, interleaved in any order, and what holds in
-- every state that they reach.
use rig_exporter.Base.{
  ℕ, ◌+◌, ◌-◌, ◌*◌, ◌≤◌, ◌<◌, ◌≡◌, ◌≢◌, refl, ◌∙◌, Bool, true, false, Option, none, some, arith,
}
use rig_exporter.Base.Unicode.{Unicode}
use rig_exporter.Updater.{
  Text, Failure, State, Release, Manager, Latest, Percent, max_release_size, software_title,
  new_manager, subscribe, unsubscribe, check, begin_check, request_install, install_failed,
  install_prepared, report_progress, swap_off, look, withdraw, start, stop, clamp,
}

-- An available release is the one that the state shows, and its size is in range.
abbrev pub Offers : Option Release → Text → State → Type 0
Offers none current s = s.latest_version ≡ current
Offers (some r) current s =
    (s.latest_version ≡ r.version)
    × (s.release_url ≡ r.url)
    × (0 < r.size)
    × (r.size ≤ max_release_size)

-- A percentage is shown only during an install, and is at most 100.
abbrev pub Shows : ℕ → Option ℕ → Bool → Type 0
Shows point none busy' = Unit
Shows point (some p) busy' = (busy' ≡ true) × (p ≤ 100 * point)

pub record Inv (point : ℕ) (m : Manager) : Type 0 where
  pub installed : m.state.installed_version ≡ m.current_version
  pub titled : m.state.title ≡ software_title
  pub offers : Offers m.available m.current_version m.state
  pub shows : Shows point m.state.update_percentage m.state.in_progress
  pub single : m.installs ≤ 1
  pub owned : 0 < m.installs → m.state.in_progress ≡ true

module _ (u : Unicode) {V : Type 0} (parse_version : Text → Option V) (greater : V → V → Bool)
    (point : ℕ) where
  -- One critical section of one of the manager's goroutines or callers. A check begins in
  -- `checkWithTimeout`, which tests `checksOff`, or by a call of `Check`, which does not, and ends with
  -- any answer; progress may be reported at any time, also by a download that has ended. The sections
  -- of `SetCheckEnabled` are steps of their own, and so is the beginning of the check that it starts.
  pub data Step : Manager → Manager → Type 0 where
    subscribing : (m : Manager) → Step m (subscribe m).0
    unsubscribing : (m : Manager) (id : ℕ) → Step m (unsubscribe id m)
    beginning_check : (m : Manager) → Step m (begin_check m)
    calling_check : (m : Manager) → Step m (record m { checks = m.checks + 1 })
    ending_check :
        (m : Manager) (l : Latest)
        → 0 < m.checks
        → Step m (record (check u parse_version greater l m) { checks = m.checks - 1 })
    requesting : (m : Manager) → Step m (request_install m).0
    reporting : (m : Manager) (p : Percent) → Step m (report_progress point p m)
    failing :
        (m : Manager) (f : Failure)
        → 0 < m.installs
        → Step m (record (install_failed f m) { installs = m.installs - 1 })
    preparing :
        (m : Manager)
        → 0 < m.installs
        → Step m (record (install_prepared m) { installs = m.installs - 1 })
    switching_on : (m : Manager) → Step m (record m { checks_off = false })
    switching_off : (m : Manager) → Step m (swap_off m)
    looking : (m : Manager) → 0 < m.switches → Step m (look m)
    withdrawing : (m : Manager) → 0 < m.withdrawals → Step m (withdraw m)
    starting : (m : Manager) → Step m (start m).0
    stopping : (m : Manager) → Step m (stop m)

  pub data Reach (m : Manager) : Manager → Type 0 where
    here : Reach m m
    next : {n p : Manager} → Reach m n → Step n p → Reach m p

  clamp-le : (p : Percent) → clamp point p ≤ 100 * point
  unfolding clamp
  clamp-le p = ground arith

  request-Inv : (m : Manager) → Inv point m → Inv point (request_install m).0
  unfolding request_install
  request-Inv m h = ground arith

  check-Inv :
      (m : Manager) (l : Latest) → Inv point m → Inv point (check u parse_version greater l m)
  unfolding check
  check-Inv m l h = ground arith

  report-Inv : (m : Manager) (p : Percent) → Inv point m → Inv point (report_progress point p m)
  unfolding report_progress
  report-Inv m p h = ground arith

  finish-Inv :
      (m : Manager) (k : ℕ)
      → k ≤ 1
      → (0 < k → m.state.in_progress ≡ true)
      → Inv point m
      → Inv point (record m { installs = k })
  finish-Inv m k one own h = ground arith

  withdraw-Inv : (m : Manager) → Inv point m → Inv point (withdraw m)
  unfolding withdraw
  withdraw-Inv m h = ground arith

  -- Every step keeps the invariant.
  pub Step-Inv : {m n : Manager} → Step m n → Inv point m → Inv point n
  unfolding subscribe unsubscribe begin_check install_failed install_prepared start stop swap_off
      look
  Step-Inv (subscribing m) h = ground arith
  Step-Inv (unsubscribing m id) h = ground arith
  Step-Inv (beginning_check m) h = ground arith
  Step-Inv (calling_check m) h = ground arith
  Step-Inv (ending_check m l c) h = ground (arith, check-Inv m l h)
  Step-Inv (requesting m) h = request-Inv m h
  Step-Inv (reporting m p) h = report-Inv m p h
  Step-Inv (failing m f i) h = ground arith
  Step-Inv (preparing m i) h = ground arith
  Step-Inv (switching_on m) h = ground arith
  Step-Inv (switching_off m) h = ground arith
  Step-Inv (looking m i) h = ground arith
  Step-Inv (withdrawing m i) h = withdraw-Inv m h
  Step-Inv (starting m) h = ground arith
  Step-Inv (stopping m) h = ground arith

  check-version :
      (m : Manager) (l : Latest)
      → (check u parse_version greater l m).current_version ≡ m.current_version
  unfolding check
  check-version m l = ground arith

  -- No step changes the version of the program that runs.
  Step-version : {m n : Manager} → Step m n → n.current_version ≡ m.current_version
  unfolding subscribe unsubscribe begin_check install_failed install_prepared start stop
      request_install report_progress swap_off look withdraw
  Step-version (subscribing m) = refl
  Step-version (unsubscribing m id) = refl
  Step-version (beginning_check m) = ground arith
  Step-version (calling_check m) = refl
  Step-version (ending_check m l c) = check-version m l
  Step-version (requesting m) = ground arith
  Step-version (reporting m p) = ground arith
  Step-version (failing m f i) = refl
  Step-version (preparing m i) = refl
  Step-version (switching_on m) = refl
  Step-version (switching_off m) = ground arith
  Step-version (looking m i) = refl
  Step-version (withdrawing m i) = refl
  Step-version (starting m) = ground arith
  Step-version (stopping m) = refl

  Reach-version : {m n : Manager} → Reach m n → n.current_version ≡ m.current_version
  Reach-version here = refl
  Reach-version (next r s) = Step-version s ∙ Reach-version r

  Inv-new_manager : (current : Text) → Inv point (new_manager current)
  unfolding new_manager
  Inv-new_manager current = ground arith

  Reach-kept : {m n : Manager} → Inv point m → Reach m n → Inv point n
  Reach-kept h here = h
  Reach-kept h (next r s) = Step-Inv s (Reach-kept h r)

  new_version : (current : Text) → (new_manager current).current_version ≡ current
  unfolding new_manager
  new_version current = refl

  -- In every state that a manager made for a version reaches, whatever the interleaving: the
  -- installed version that it shows is that version, and the title is the program's; the latest
  -- version is the installed one if no release is available, and otherwise that of the available
  -- release, whose size is from 1 byte to 50 MiB; a percentage is shown only during an install and is
  -- at most 100; and at most one install runs, during which the state says so.
  pub Reach-Inv :
      (current : Text) {m : Manager}
      → Reach (new_manager current) m
      → (m.state.installed_version ≡ current) × (m.current_version ≡ current) × Inv point m
  Reach-Inv current r =
      let i = Reach-kept (Inv-new_manager current) r in
      let v = Reach-version r ∙ new_version current in (i.installed ∙ v, v, i)

  -- Nothing runs, and yet the state says that an install is in progress.
  abbrev pub IsStranded : Manager → Type 0
  IsStranded m = (m.installs ≡ 0) × (m.state.in_progress ≡ true)

  check-stranded :
      (m : Manager) (l : Latest)
      → m.state.in_progress ≡ true
      → (check u parse_version greater l m).state.in_progress ≡ true
  unfolding check
  check-stranded m l h = ground arith

  check-installs :
      (m : Manager) (l : Latest) → (check u parse_version greater l m).installs ≡ m.installs
  unfolding check
  check-installs m l = ground arith

  Step-IsStranded : {m n : Manager} → Step m n → IsStranded m → IsStranded n
  unfolding subscribe unsubscribe begin_check install_failed install_prepared start stop
      request_install report_progress swap_off look withdraw
  Step-IsStranded (subscribing m) h = ground arith
  Step-IsStranded (unsubscribing m id) h = ground arith
  Step-IsStranded (beginning_check m) h = ground arith
  Step-IsStranded (calling_check m) h = ground arith
  Step-IsStranded (ending_check m l c) h =
      ground (arith, check-stranded m l h.1, check-installs m l)
  Step-IsStranded (requesting m) h = ground arith
  Step-IsStranded (reporting m p) h = ground arith
  Step-IsStranded (failing m f i) h = absurd (omega arith)
  Step-IsStranded (preparing m i) h = absurd (omega arith)
  Step-IsStranded (switching_on m) h = ground arith
  Step-IsStranded (switching_off m) h = ground arith
  Step-IsStranded (looking m i) h = ground arith
  Step-IsStranded (withdrawing m i) h = ground arith
  Step-IsStranded (starting m) h = ground arith
  Step-IsStranded (stopping m) h = ground arith

  Reach-IsStranded : {m n : Manager} → IsStranded m → Reach m n → IsStranded n
  Reach-IsStranded h here = h
  Reach-IsStranded h (next r s) = Step-IsStranded s (Reach-IsStranded h r)

  -- The state of a manager whose install has just ended with a prepared update.
  abbrev pub after_prepare : Manager → Manager
  after_prepare m = record (install_prepared m) { installs = m.installs - 1 }

  -- Where the process goes on after an update was prepared, the state says for ever that an install
  -- is in progress, and every later request is refused, whatever steps the manager takes.
  pub prepared-busy :
      {m n : Manager}
      → Inv point m
      → 0 < m.installs
      → Reach (after_prepare m) n
      → (n.state.in_progress ≡ true) × ((request_install n).1 ≢ none)
  unfolding install_prepared request_install
  prepared-busy {m} h i r =
      let k = Reach-IsStranded {m = after_prepare m} (ground arith) r in (k.1, ground arith)
