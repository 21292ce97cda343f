-- ===== src/Collector.antt =====
-- internal/collector/collector.go: which game is open, and the readings of the game and its frame rate
-- (`collectRTSS`, `addGameReadings`). Floating point is a parameter.
pub mod Data
pub mod Linger
pub mod Counting
pub mod Frames
pub mod Origins
mod Tests
use rig_exporter.Base.{
  ℕ, ◌-◌, ◌⊎◌, inl, inr, Bool, Option, none, some, List, [], ◌∷◌, ◌++◌, ltb, leb, ◌==◌,
  if◌then◌else◌, length,
}
use rig_exporter.Base.Unicode.{Unicode}
use rig_exporter.Base.Text.{codes}
use rig_exporter.Rtss.{Error, Entry, Snapshot, select_active}
unfoldable pub use Data.*

-- `selected` says which measurements the settings leave on, `repair` is strings.ToValidUTF8 and `round`
-- the rounding of a gauge to its measurement's precision.
module _ {F : Type 0} (float : Float F) (unicode : Unicode) (repair : Text → Text)
    (round : Measure → F → F) (selected : Measure → Bool) where
  unfoldable pub rate : Entry → F
  rate e =
      if leb e.time1 e.time0
      then float.of_nat 0
      else float.divide (float.times (float.of_nat 1000) (float.of_nat e.frames))
          (float.of_nat (e.time1 - e.time0))

  unfoldable pub frametime_ms : Entry → F
  unfolding rate
  frametime_ms e =
      if ltb 0 e.frame_time_us
      then float.divide (float.of_nat e.frame_time_us) (float.of_nat 1000)
      else if float.is_positive (rate e)
      then float.divide (float.of_nat 1000) (rate e)
      else float.of_nat 0

  unfoldable pub add : Measure → Value F → Snap F → Snap F
  add m v s =
      if selected m
      then record s {
        readings = s.readings ++ record { measure = m; value = v; origin = s.origin } ∷ [];
      }
      else s

  -- Details without a value are left out, and no reading is made of none.
  unfoldable pub kept : List (Text × Text) → List (Text × Text)
  kept [] = []
  kept ((name, value) ∷ rest) =
      let trimmed = unicode.trim_space (repair value) in
      if length trimmed == 0 then kept rest else (name, trimmed) ∷ kept rest

  unfoldable pub add_kept : List (Text × Text) → Snap F → Snap F
  unfolding add
  add_kept [] s = s
  add_kept (d ∷ ds) s = add details (pairs (d ∷ ds)) s

  unfoldable pub add_identified : Option Game → Snap F → Snap F
  unfolding add_kept kept game_origin
  add_identified none s = s
  add_identified (some g) s =
      let s' =
        add_kept
          (kept (
            (codes "platform", g.platform)
            ∷ (codes "title", g.title)
            ∷ (codes "app_id", g.app_id)
            ∷ []))
          (record s { origin = game_origin g.platform }) in
      record s' { origin = s.origin }

  -- `identify` is none while the identification is switched off.
  unfoldable pub add_game_details : Option (Text → Option Game) → Text → Snap F → Snap F
  unfolding add_identified
  add_game_details none path s = s
  add_game_details (some identify) path s = add_identified (identify path) s

  -- A rate that is not positive is no answer.
  unfoldable pub frame_rate_fallback : Option F → Option F
  frame_rate_fallback none = none
  frame_rate_fallback (some r) = if float.is_positive r then some r else none

  -- While something renders.
  unfoldable pub add_rendering : Entry → Snap F → Snap F
  unfolding add rate frametime_ms
  add_rendering e s =
      let s' =
        add pid (number (round pid (float.of_nat e.process_id)))
          (add fps (number (round fps (rate e))) s) in
      if float.is_positive (frametime_ms e)
      then add frametime (number (round frametime (frametime_ms e))) s'
      else s'

  -- While nothing does: the driver's counter, or zero.
  unfoldable pub add_fallback : Text → Option F → Snap F → Snap F
  unfolding add
  add_fallback frame_origin none s = add fps (number (round fps (float.of_nat 0))) s
  add_fallback frame_origin (some r) s =
      let s' =
        add frametime (number (round frametime (float.divide (float.of_nat 1000) r)))
          (add fps (number (round fps r)) (record s { origin = frame_origin })) in
      record s' { origin = s.origin; fps_origin = frame_origin }

  unfoldable pub add_frames : Text → Option F → Option Entry → Snap F → Snap F
  unfolding add_rendering add_fallback frame_rate_fallback
  add_frames frame_origin frames (some e) s = add_rendering e s
  add_frames frame_origin frames none s = add_fallback frame_origin (frame_rate_fallback frames) s

  unfoldable pub add_identity : OpenGame → Bool → Snap F → Snap F
  unfolding add
  add_identity held rendering s =
      let shown = if length held.name == 0 then codes "none" else held.name in
      let s' = add rtss_status (text (repair (status_text s.status))) (
        add rtss_up (flag (is_up s.status))
          (add running (flag rendering) (add game (text (repair shown)) s))) in
      if length s.version == 0 then s' else add rtss_version (text (repair s.version)) s'

  -- The held game afterwards, and the snapshot.
  unfoldable pub add_game_readings :
      Option (Text → Option Game)
      → Text
      → Option F
      → ℕ
      → Option Entry
      → OpenGame
      → Snap F
      → OpenGame × Snap F
  unfolding open_game add_identity add_game_details add_frames
  add_game_readings identify frame_origin frames now entry held s =
      let held' = open_game held entry now in
      let named = add_identity held' (is_some entry) s in
      let detailed =
        if length held'.path == 0 then named else add_game_details identify held'.path named in
      (held', add_frames frame_origin frames entry detailed)

  -- What RTSS answers: its error, or a snapshot.
  unfoldable pub collect_rtss :
      Option (Text → Option Game)
      → Text
      → Option F
      → ℕ
      → ℕ
      → ℕ
      → ℕ
      → Error ⊎ Snapshot
      → OpenGame
      → Snap F
      → OpenGame × Snap F
  unfolding add_game_readings classify version_string select_active
  collect_rtss identify frame_origin frames now foreground tick idle_ms (inr data') held s =
      add_game_readings identify frame_origin frames now
        (select_active data'.entries foreground tick idle_ms) held
        (record s { status = up; version = version_string data'.version })
  collect_rtss identify frame_origin frames now foreground tick idle_ms (inl e) held s =
      add_game_readings identify frame_origin frames now none held
        (record s { status = classify e; message = some e })
