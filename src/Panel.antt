-- ===== src/Panel.antt =====
-- internal/webui/linger.go: the rows of one panel of the dashboard, which stay on the page for some polls
-- after their reading stops. The map of a panel's rows is a list with one entry for a key.
pub mod Lingering
mod Tests
use rig_exporter.Base.{
  ℕ, ◌+◌, ◌-◌, ◌*◌, Bool, true, false, not, ◌||◌, List, [], ◌∷◌, ◌++◌, ltb, ◌==◌, if◌then◌else◌,
}
use rig_exporter.Base.Unicode.{list_eq}

abbrev pub Text : Type 0
Text = List ℕ

-- What a row shows is not looked at.
pub record Row : Type 0 where
  pub key : Text
  pub value : Text
  pub stale : Bool

pub record LingeredRow : Type 0 where
  pub row : Row
  pub seen : ℕ

-- A panel's state in one poll: whether it is switched on and answers, and its rows.
pub record Group : Type 0 where
  pub enabled : Bool
  pub available : Bool
  pub rows : List Row

abbrev pub linger_polls : ℕ
linger_polls = 20

-- `present` of the code, as a test on the rows
abbrev pub present : Text → List Row → Bool
present k [] = false
present k (r ∷ rs) = list_eq k r.key || present k rs

-- An entry of the map is set.
unfoldable pub put : LingeredRow → List LingeredRow → List LingeredRow
put h [] = h ∷ []
put h (g ∷ gs) = let rest = put h gs in if list_eq h.row.key g.row.key then h ∷ gs else g ∷ rest

unfoldable pub remember : ℕ → List Row → List LingeredRow → List LingeredRow
unfolding put
remember now [] held = held
remember now (r ∷ rs) held = remember now rs (put (record { row = r; seen = now }) held)

-- The loop over the map: the entries that stay in it, and the rows that it adds.
unfoldable pub still_held : ℕ → ℕ → List Row → List LingeredRow → List LingeredRow
still_held window now rows [] = []
still_held window now rows (h ∷ hs) =
    let rest = still_held window now rows hs in
    if present h.row.key rows
    then h ∷ rest
    else if ltb window (now - h.seen)
    then rest
    else h ∷ rest

unfoldable pub stale_rows : ℕ → ℕ → List Row → List LingeredRow → List Row
stale_rows window now rows [] = []
stale_rows window now rows (h ∷ hs) =
    let rest = stale_rows window now rows hs in
    if present h.row.key rows
    then rest
    else if ltb window (now - h.seen)
    then rest
    else (record h.row { stale = true }) ∷ rest

-- `keep` for one panel: its rows before they are sorted, and its memory
unfoldable pub keep : ℕ → ℕ → Group → List LingeredRow → List Row × List LingeredRow
unfolding remember still_held stale_rows
keep interval now g held =
    if interval == 0
    then (g.rows, held)
    else if not g.enabled || not g.available
    then (g.rows, [])
    else (let known = remember now g.rows held in
        let window = linger_polls * interval in
        (g.rows ++ stale_rows window now g.rows known, still_held window now g.rows known))
