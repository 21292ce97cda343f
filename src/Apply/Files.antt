-- ===== src/Apply/Files.antt =====
-- internal/updater/apply_windows.go: what the helper acts on, `applyOps`, with failures. The seven names
-- of a transaction are distinct (validateApplyPlanPaths); each operation writes aside and renames, so one
-- that fails changes none of them. A SHA-256 digest is a number, and a file holds its digest.
use rig_exporter.Base.{ℕ, Bool, true, false, Option, none, some, List, [], ◌∷◌}

abbrev pub Text : Type 0
Text = List ℕ

pub data File : Type 0 where
  target stage backup helper helper_ready ready journal : File

pub data Phase : Type 0 where
  prepared rolled_back : Phase

-- An executable by its digest; a marker with its version, its process and the time, if it has one; the
-- journal with its phase and the parent's process; and what is not JSON.
pub data Content : Type 0 where
  image : ℕ → Content
  marker : Text → ℕ → Option ℕ → Content
  plan : Phase → ℕ → Content
  blank : Content

pub record Disk : Type 0 where
  pub target_file : Option Content
  pub stage_file : Option Content
  pub backup_file : Option Content
  pub helper_file : Option Content
  pub helper_ready_file : Option Content
  pub ready_file : Option Content
  pub journal_file : Option Content

unfoldable pub read : File → Disk → Option Content
read target d = d.target_file
read stage d = d.stage_file
read backup d = d.backup_file
read helper d = d.helper_file
read helper_ready d = d.helper_ready_file
read ready d = d.ready_file
read journal d = d.journal_file

unfoldable pub write : File → Option Content → Disk → Disk
write target c d = record d { target_file = c }
write stage c d = record d { stage_file = c }
write backup c d = record d { backup_file = c }
write helper c d = record d { helper_file = c }
write helper_ready c d = record d { helper_ready_file = c }
write ready c d = record d { ready_file = c }
write journal c d = record d { journal_file = c }

-- What fails; the texts of the errors are not modelled.
pub data Trouble : Type 0 where
  cannot_remove cannot_copy cannot_replace cannot_write cannot_inspect cannot_hash : File → Trouble
  cannot_start : File → Trouble
  changed_stage journal_not_retired not_stopped restored : Trouble
  wrong_version wrong_process exited_early not_ready unreadable_marker : Trouble

pub data Result (A : Type 0) : Type 0 where
  ok : A → Result A
  err : List Trouble → Result A

-- `faults` says of each coming operation whether it fails, and none does after its end; `history` has the
-- disks that the operations left, the latest first; `launched` the executables started.
pub record World : Type 0 where
  pub disk : Disk
  pub faults : List Bool
  pub history : List Disk
  pub launched : List (Option Content)

abbrev pub M : Type 0 → Type 0
M A = World → Result A × World

module _ {A : Type 0} where
  abbrev pub pure : A → M A
  pure a w = (ok a, w)

  abbrev pub fail : List Trouble → M A
  fail e w = (err e, w)

infixl 5 ◌>>=◌ ◌>>◌
abbrev pub ◌>>=◌ : {A B : Type 0} → M A → (A → M B) → M B
◌>>=◌ m f w = let (r, w') = m w in elim r [ ok a ↦ f a w' | err e ↦ (err e, w') ]

abbrev pub ◌>>◌ : {A B : Type 0} → M A → M B → M B
m >> k = m >>= λ _. k

-- The result of an action as a value, its error included.
abbrev pub attempt : {A : Type 0} → M A → M (Result A)
attempt m w = let (r, w') = m w in (ok r, w')

abbrev pub trouble_of : {A : Type 0} → Result A → List Trouble
trouble_of (ok a) = []
trouble_of (err e) = e

abbrev pub succeeded : {A : Type 0} → Result A → Bool
succeeded (ok a) = true
succeeded (err e) = false

abbrev pub next_fault : List Bool → Bool
next_fault [] = false
next_fault (b ∷ bs) = b

abbrev later_faults : List Bool → List Bool
later_faults [] = []
later_faults (b ∷ bs) = bs

abbrev pub tick : World → World
tick w = record w { faults = later_faults w.faults }

abbrev pub leave : Disk → World → World
leave d w = record w { disk = d; history = d ∷ w.history }

abbrev pub settle : Trouble → Bool → Option Disk → M (Unit {0})
settle e true o w = (err (e ∷ []), w)
settle e false none w = (err (e ∷ []), w)
settle e false (some d) w = (ok tt, leave d w)

-- An operation on the files: it fails by a fault, or where it is not possible.
unfoldable pub change : Trouble → (Disk → Option Disk) → M (Unit {0})
change e f w = settle e (next_fault w.faults) (f w.disk) (tick w)

abbrev pub report : {A : Type 0} → Trouble → Bool → Option A → M A
report e true o w = (err (e ∷ []), w)
report e false none w = (err (e ∷ []), w)
report e false (some a) w = (ok a, w)

-- An operation that leaves the files alone.
unfoldable pub inquire : {A : Type 0} → Trouble → (Disk → Option A) → M A
inquire e f w = report e (next_fault w.faults) (f w.disk) (tick w)

-- `ops.Remove`, where a file that is not there is no error to its callers
unfoldable pub remove : File → M (Unit {0})
unfolding change write
remove f = change (cannot_remove f) (λ d. some (write f none d))

abbrev pub copied : Option Content → Option Content → File → Disk → Option Disk
copied (some c) none to d = some (write to (some c) d)
copied _ _ to d = none

-- `ops.CopyFile`: the last rename refuses to replace a file
unfoldable pub copy_file : File → File → M (Unit {0})
unfolding change read write
copy_file from to = change (cannot_copy to) (λ d. copied (read from d) (read to d) to d)

abbrev pub moved : Option Content → File → File → Disk → Option Disk
moved none from to d = none
moved (some c) from to d = some (write from none (write to (some c) d))

-- `ops.ReplacePath`: one rename
unfoldable pub replace_path : File → File → M (Unit {0})
unfolding change read write
replace_path from to = change (cannot_replace to) (λ d. moved (read from d) from to d)

unfoldable pub replace_file : File → Content → M (Unit {0})
unfolding change write
replace_file f c = change (cannot_write f) (λ d. some (write f (some c) d))

abbrev pub is_there : Option Content → Bool
is_there none = false
is_there (some c) = true

unfoldable pub file_exists : File → M Bool
unfolding inquire read
file_exists f = inquire (cannot_inspect f) (λ d. some (is_there (read f d)))

-- What is no executable has a digest of its own.
abbrev pub digest_of : Option Content → Option ℕ
digest_of none = none
digest_of (some (image n)) = some n
digest_of (some _) = some 0

unfoldable pub file_sha256 : File → M ℕ
unfolding inquire read
file_sha256 f = inquire (cannot_hash f) (λ d. digest_of (read f d))

abbrev pub noted : Option Content → Result (Unit {0}) × World → Result (Unit {0}) × World
noted c (err e, w) = (err e, w)
noted c (ok a, w) = (ok tt, record w { launched = c ∷ w.launched })

abbrev pub startable : Bool → Option (Unit {0})
startable true = some tt
startable false = none

-- `ops.StartMonitored` and `ops.StartDetached`
unfoldable pub start : File → M (Unit {0})
unfolding inquire read
start f w =
    noted (read f w.disk) (inquire (cannot_start f) (λ d. startable (is_there (read f d))) w)
